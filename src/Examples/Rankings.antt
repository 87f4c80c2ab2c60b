-- ===== src/Examples/Rankings.antt =====
-- Rankings of retrieved chunks.
use mesa_e2e_certification.Prelude.{
  none, Nodup, List, ◌≢◌, ℕ, ◌≡◌, ◌↔◌, refl, true, false, some, [], ◌∷◌, All, elem,
}
use mesa_e2e_certification.Models.{ScoringStatus}
use mesa_e2e_certification.GroundTruth.{EvidenceGroup, GroundTruthItem}
use mesa_e2e_certification.Retrieval.{
  relational_score, Ranking, RetrievedResult, score_ranking, score_retrieval,
}
use mesa_e2e_certification.Retrieval.Coverage.{is_covered, group_ids}
use mesa_e2e_certification.Retrieval.Relational.{relational_iff}
use mesa_e2e_certification.Retrieval.Usable.{IsUsable, mapping_error_iff}
use mesa_e2e_certification.Identity.{IdentityMap, empty_map, enter_row, plain_row}
use mesa_e2e_certification.Retrieval.Single.{IsFirstHit, single_hop_iff}

abbrev question : GroundTruthItem
question = record {
  query_id = "q-1";
  query_class = "SINGLE_HOP";
  question = "Which article applies?";
  expected_source_chunk_ids = "source-2" ∷ [];
  evidence_groups = [];
  required_facts = [];
  acceptable_answer_patterns = [];
  forbidden_claims = [];
  is_answerable = true;
}

abbrev ranking : Ranking
ranking = record {
  by_rank = (1, "source-1") ∷ (2, "source-2") ∷ [];
  all_ids = "source-1" ∷ "source-2" ∷ [];
}

single_hop_iff_example :
    ((r : ℕ)
      → (((score_ranking question ranking).status ≡ ScoringStatus.hit)
          × ((score_ranking question ranking).rank ≡ some r))
        ↔ IsFirstHit ("source-2" ∷ []) ranking.by_rank r)
    × (((score_ranking question ranking).status ≡ ScoringStatus.miss)
        ↔ All (λ p. elem p.1 ("source-2" ∷ []) ≡ false) ranking.by_rank)
single_hop_iff_example = single_hop_iff question ranking refl refl

abbrev groups : List EvidenceGroup
groups =
    record { group_id = "g-1"; acceptable_source_chunk_ids = "source-1" ∷ [] }
    ∷ record { group_id = "g-2"; acceptable_source_chunk_ids = "source-9" ∷ "source-2" ∷ [] }
    ∷ []

abbrev relational_question : GroundTruthItem
relational_question = record question { query_class = "RELATIONAL"; evidence_groups = groups }

relational_iff_example :
    (((score_ranking relational_question ranking).status ≡ ScoringStatus.hit)
      ↔ (All (λ g. is_covered ranking.by_rank g ≡ true) groups × Nodup (group_ids groups)))
    × (((score_ranking relational_question ranking).status ≡ ScoringStatus.miss)
        ↔ All (λ g. is_covered ranking.by_rank g ≡ false) groups)
relational_iff_example = relational_iff relational_question ranking refl refl

relational_question_hit : (score_ranking relational_question ranking).status ≡ ScoringStatus.hit
unfolding score_ranking relational_score
relational_question_hit = refl

abbrev identity_map : IdentityMap
identity_map = enter_row empty_map (plain_row "mesa-1" "source-1")

abbrev results : List RetrievedResult
results = record { chunk_id = some "mesa-1"; id = none; provenance = none } ∷ []

mapping_error_iff_example :
    ((score_retrieval question results identity_map false).status
      ≢ ScoringStatus.mapping_integrity_error)
    ↔ All (IsUsable identity_map) results
mapping_error_iff_example = mapping_error_iff question results identity_map
