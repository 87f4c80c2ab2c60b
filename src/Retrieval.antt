-- ===== src/Retrieval.antt =====
-- harness/retrieval_scorer.py: the deterministic retrieval scorer.
pub mod Single
pub mod Coverage
pub mod Relational
pub mod Usable
use mesa_e2e_certification.Prelude.{
  ℕ, suc, ◌+◌, String, ◌==◌, Bool, true, false, not, ◌&&◌, ◌||◌, Option, none, some, List, [], ◌∷◌,
  ◌++◌, map, if◌then◌else◌, eqb, leb, ltb, length, take, is_empty, any, elem, sorted, to_set,
}
use mesa_e2e_certification.Models.{ScoringStatus}
use mesa_e2e_certification.Json.{Json, elements}
use mesa_e2e_certification.GroundTruth.{
  EvidenceGroup, GroundTruthItem, Ratio, zero_ratio, one_ratio, RetrievalScore,
}
use mesa_e2e_certification.Identity.{
  IdentityMap, IdentityError, ok, err, add_member, resolve_source_chunk_id,
}

-- The fields of a retrieval result that the scorer reads. An ID is a text, or is not there.
pub record RetrievedResult : Type 0 where
  pub chunk_id : Option String
  pub id : Option String
  pub provenance : Option Json

pub data ScoreReason : Type 0 where
  malformed_provenance malformed_provenance_item no_chunk_id : (rank : ℕ) → ScoreReason
  unresolved : IdentityError → ScoreReason

-- a text that is not empty
abbrev truthy : Option String → Option String
truthy none = none
truthy (some s) = if s == "" then none else some s

-- `res["chunk_id"]`, or else `res["id"]`
unfoldable pub raw_id : RetrievedResult → Option String
raw_id r = elim (truthy r.chunk_id) [ some s ↦ some s | none ↦ truthy r.id ]

abbrev is_object : Json → Bool
is_object (Json.object fs) = true
is_object _ = false

-- What is wrong with the provenance of the result at this rank, if anything is.
unfoldable pub provenance_error : ℕ → Option Json → Option ScoreReason
provenance_error rank none = none
provenance_error rank (some (Json.object fs)) = none
provenance_error rank (some (Json.array items)) =
    if any (λ item. not (is_object item)) (elements items)
    then some (ScoreReason.malformed_provenance_item rank)
    else none
provenance_error rank (some _) = some (ScoreReason.malformed_provenance rank)

pub data Normalized (A : Type 0) : Type 0 where
  normalized : A → Normalized A
  broken : ScoreReason → Normalized A

-- The source ID of the result at this rank.
unfoldable pub normalize_result : IdentityMap → ℕ → RetrievedResult → Normalized String
unfolding raw_id provenance_error
normalize_result m rank r = elim (provenance_error rank r.provenance) [
  | some e ↦ broken e
  | none ↦ elim (raw_id r) [
    | none ↦ broken (ScoreReason.no_chunk_id rank)
    | some raw ↦ elim (resolve_source_chunk_id m raw) [
      | ok s ↦ normalized s
      | err e ↦ broken (ScoreReason.unresolved e)
    ]
  ]
]

-- the lists `normalized_chunks_by_rank` and `all_normalized_chunk_ids`
pub record Ranking : Type 0 where
  pub by_rank : List (ℕ × String)
  pub all_ids : List String

abbrev pub empty_ranking : Ranking
empty_ranking = record { by_rank = []; all_ids = [] }

abbrev pub enter_rank : Ranking → ℕ → String → Ranking
enter_rank a rank s =
    if s == ""
    then a
    else record { by_rank = a.by_rank ++ (rank, s) ∷ []; all_ids = add_member s a.all_ids }

-- the loop over the results; `rank` is that of the next
unfoldable pub normalize_results :
    IdentityMap → ℕ → Ranking → List RetrievedResult → Normalized Ranking
unfolding normalize_result
normalize_results m rank a [] = normalized a
normalize_results m rank a (r ∷ rs) = elim (normalize_result m rank r) [
  | broken e ↦ broken e
  | normalized s ↦ normalize_results m (suc rank) (enter_rank a rank s) rs
]

-- `if first_hit_rank is None or rank < first_hit_rank: first_hit_rank = rank`
abbrev pub lower : Option ℕ → ℕ → Option ℕ
lower none rank = some rank
lower (some r) rank = if ltb rank r then some rank else some r

-- What the loops have found so far.
pub record Hits : Type 0 where
  pub covered : List String
  pub matched : List String
  pub first : Option ℕ

-- the inner loop of the relational scoring
unfoldable pub score_group : EvidenceGroup → Hits → List (ℕ × String) → Hits
score_group group h [] = h
score_group group h ((rank, chunk) ∷ ranked) =
    score_group group
      (if elem chunk group.acceptable_source_chunk_ids
        then record {
          covered = add_member group.group_id h.covered;
          matched = h.matched ++ chunk ∷ [];
          first = lower h.first rank;
        }
        else h)
      ranked

unfoldable pub score_groups : Hits → List (ℕ × String) → List EvidenceGroup → Hits
unfolding score_group
score_groups h ranked [] = h
score_groups h ranked (g ∷ gs) = score_groups (score_group g h ranked) ranked gs

-- the loop of the single-hop scoring
unfoldable pub score_single : List String → Hits → List (ℕ × String) → Hits
score_single expected h [] = h
score_single expected h ((rank, chunk) ∷ ranked) =
    score_single expected
      (if elem chunk expected
        then record h {
          matched = h.matched ++ chunk ∷ [];
          first = elim h.first [ none ↦ some rank | some r ↦ some r ];
        }
        else h)
      ranked

abbrev pub no_hits : Hits
no_hits = record { covered = []; matched = []; first = none }

abbrev pub is_no_answer : GroundTruthItem → Bool
is_no_answer gt = not gt.is_answerable || gt.query_class == "NO_ANSWER"

abbrev pub is_relational : GroundTruthItem → Bool
is_relational gt = gt.query_class == "RELATIONAL" && not (is_empty gt.evidence_groups)

-- The four measures that follow from the rank of the first hit.
abbrev pub recall_1 : Option ℕ → Ratio
recall_1 none = zero_ratio
recall_1 (some r) = if eqb r 1 then one_ratio else zero_ratio

abbrev pub recall_5 : Option ℕ → Ratio
recall_5 none = zero_ratio
recall_5 (some r) = if leb r 5 then one_ratio else zero_ratio

abbrev pub reciprocal_rank : Option ℕ → Ratio
reciprocal_rank none = zero_ratio
reciprocal_rank (some r) = record { num = 1; den = r }

-- A score that reports an error and no measure.
abbrev pub error_score :
    GroundTruthItem → ScoringStatus → List ScoreReason → RetrievalScore ScoreReason
error_score gt status reasons = record {
  query_id = gt.query_id;
  query_class = gt.query_class;
  is_answerable = gt.is_answerable;
  status = status;
  rank = none;
  recall_at_1 = zero_ratio;
  recall_at_5 = zero_ratio;
  mrr = zero_ratio;
  group_coverage_at_5 = zero_ratio;
  complete_evidence_at_5 = zero_ratio;
  normalized_retrieved_chunk_ids = [];
  matching_chunk_ids = [];
  reasons = reasons;
}

unfoldable pub mapping_integrity_error : GroundTruthItem → ScoreReason → RetrievalScore ScoreReason
mapping_integrity_error gt reason =
    error_score gt ScoringStatus.mapping_integrity_error (reason ∷ [])

abbrev pub no_answer_score : GroundTruthItem → Ranking → RetrievalScore ScoreReason
no_answer_score gt a = record {
  query_id = gt.query_id;
  query_class = gt.query_class;
  is_answerable = false;
  status = ScoringStatus.no_answer_evaluated_in_answer_stage;
  rank = none;
  recall_at_1 = zero_ratio;
  recall_at_5 = zero_ratio;
  mrr = zero_ratio;
  group_coverage_at_5 = one_ratio;
  complete_evidence_at_5 = one_ratio;
  normalized_retrieved_chunk_ids = a.all_ids;
  matching_chunk_ids = [];
  reasons = [];
}

-- `total_groups` is positive here; `len(covered_groups) / total_groups` is the coverage.
unfoldable pub relational_score : GroundTruthItem → Ranking → RetrievalScore ScoreReason
unfolding score_groups
relational_score gt a =
    let h = score_groups no_hits a.by_rank gt.evidence_groups in
    let covered = length h.covered in
    let total = length gt.evidence_groups in
    record {
      query_id = gt.query_id;
      query_class = gt.query_class;
      is_answerable = true;
      status =
          if eqb covered total
          then ScoringStatus.hit
          else if ltb 0 covered
          then ScoringStatus.partial
          else ScoringStatus.miss;
      rank = h.first;
      recall_at_1 = recall_1 h.first;
      recall_at_5 = recall_5 h.first;
      mrr = reciprocal_rank h.first;
      group_coverage_at_5 = record { num = covered; den = total };
      complete_evidence_at_5 = if eqb covered total then one_ratio else zero_ratio;
      normalized_retrieved_chunk_ids = a.all_ids;
      matching_chunk_ids = sorted (to_set h.matched);
      reasons = [];
    }

unfoldable pub single_score : GroundTruthItem → Ranking → RetrievalScore ScoreReason
unfolding score_single
single_score gt a =
    let h = score_single gt.expected_source_chunk_ids no_hits a.by_rank in
    elim h.first [
      | some r ↦ record {
        query_id = gt.query_id;
        query_class = gt.query_class;
        is_answerable = true;
        status = ScoringStatus.hit;
        rank = some r;
        recall_at_1 = recall_1 (some r);
        recall_at_5 = recall_5 (some r);
        mrr = reciprocal_rank (some r);
        group_coverage_at_5 = one_ratio;
        complete_evidence_at_5 = one_ratio;
        normalized_retrieved_chunk_ids = a.all_ids;
        matching_chunk_ids = sorted (to_set h.matched);
        reasons = [];
      }
      | none ↦ record {
        query_id = gt.query_id;
        query_class = gt.query_class;
        is_answerable = true;
        status = ScoringStatus.miss;
        rank = none;
        recall_at_1 = zero_ratio;
        recall_at_5 = zero_ratio;
        mrr = zero_ratio;
        group_coverage_at_5 = zero_ratio;
        complete_evidence_at_5 = zero_ratio;
        normalized_retrieved_chunk_ids = a.all_ids;
        matching_chunk_ids = [];
        reasons = [];
      }
    ]

-- The part of `score_retrieval` behind the normalization.
unfoldable pub score_ranking : GroundTruthItem → Ranking → RetrievalScore ScoreReason
score_ranking gt a =
    if is_no_answer gt
    then no_answer_score gt a
    else if is_relational gt
    then relational_score gt a
    else single_score gt a

unfoldable pub score_retrieval :
    GroundTruthItem → List RetrievedResult → IdentityMap → Bool → RetrievalScore ScoreReason
unfolding mapping_integrity_error
score_retrieval gt results m is_infrastructure_error =
    if is_infrastructure_error
    then error_score gt ScoringStatus.infrastructure_error []
    else elim (normalize_results m 1 empty_ranking (take 5 results)) [
      | broken e ↦ mapping_integrity_error gt e
      | normalized a ↦ score_ranking gt a
    ]
