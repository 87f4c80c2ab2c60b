-- ===== src/Retrieval/Usable.antt =====
-- Which results the scorer rejects the whole query for.
use mesa_e2e_certification.Prelude.{
  ℕ, suc, String, ◌≡◌, ◌≢◌, ◌↔◌, ◌⊎◌, refl, false, Option, none, some, List, [], ◌∷◌, arith, All,
  take, Option-cases, inl, inr,
}
use mesa_e2e_certification.Models.{ScoringStatus}
use mesa_e2e_certification.Json.{Json}
use mesa_e2e_certification.GroundTruth.{GroundTruthItem}
use mesa_e2e_certification.Identity.{IdentityMap, ok, resolve_source_chunk_id}
use mesa_e2e_certification.Identity.Loading.{Result-cases}
use mesa_e2e_certification.Retrieval.{
  RetrievedResult, ScoreReason, raw_id, provenance_error, Normalized, normalized, broken,
  normalize_result, Ranking, empty_ranking, enter_rank, normalize_results, relational_score,
  single_score, score_ranking, score_retrieval, mapping_integrity_error,
}

-- The provenance is well formed, and the chunk ID resolves to a source.
pub record IsUsable (m : IdentityMap) (r : RetrievedResult) : Type 0 where
  pub provenance : provenance_error 1 r.provenance ≡ none
  pub raw : String
  pub has_id : raw_id r ≡ some raw
  pub source : String
  pub resolves : resolve_source_chunk_id m raw ≡ ok source

-- Whether the provenance is well formed does not hang on the rank.
any_rank :
    (rank rank' : ℕ) (p : Option Json)
    → provenance_error rank p ≡ none
    → provenance_error rank' p ≡ none
unfolding provenance_error
any_rank rank rank' none h = refl
any_rank rank rank' (some (Json.object fs)) h = refl
any_rank rank rank' (some (Json.array items)) h = ground arith
any_rank rank rank' (some Json.null) h = absurd (ground arith)
any_rank rank rank' (some (Json.bool b)) h = absurd (ground arith)
any_rank rank rank' (some (Json.number n)) h = absurd (ground arith)
any_rank rank rank' (some (Json.string s)) h = absurd (ground arith)

Normalized-cases :
    {A : Type 0} (n : Normalized A)
    → ((a : A) × (n ≡ normalized a)) ⊎ ((e : ScoreReason) × (n ≡ broken e))
Normalized-cases (normalized a) = inl (a, refl)
Normalized-cases (broken e) = inr (e, refl)

module _ (m : IdentityMap) where
  result→ :
      (rank : ℕ) (r : RetrievedResult) (s : String)
      → normalize_result m rank r ≡ normalized s
      → IsUsable m r
  unfolding normalize_result
  result→ rank r s h = elim (Option-cases (provenance_error rank r.provenance)) [
    | inr (e, malformed) ↦ absurd (ground arith)
    | inl formed ↦ elim (Option-cases (raw_id r)) [
      | inl missing ↦ absurd (ground arith)
      | inr (raw, has_id) ↦ elim (Result-cases (resolve_source_chunk_id m raw)) [
        | inl (source, resolves) ↦ record {
          provenance = any_rank rank 1 r.provenance formed;
          raw = raw;
          has_id = has_id;
          source = source;
          resolves = resolves;
        }
        | inr (e, unknown) ↦ absurd (ground arith)
      ]
    ]
  ]

  →result :
      (rank : ℕ) (r : RetrievedResult)
      → IsUsable m r
      → (s : String) × (normalize_result m rank r ≡ normalized s)
  unfolding normalize_result
  →result rank r u = (
    u.source,
    rw (any_rank 1 rank r.provenance u.provenance, u.has_id, u.resolves, normalize_result) refl,
  )

  results→ :
      (rs : List RetrievedResult) (rank : ℕ) (a b : Ranking)
      → normalize_results m rank a rs ≡ normalized b
      → All (IsUsable m) rs
  unfolding normalize_results
  results→ [] rank a b h = tt
  results→ (r ∷ rs) rank a b h = elim (Normalized-cases (normalize_result m rank r)) [
    | inl (s, e) ↦ (
      result→ rank r s e,
      results→ rs (suc rank) (enter_rank a rank s) b (rw (e, normalize_results) at h),
    )
    | inr (e, refused) ↦ absurd (ground arith)
  ]

  →results :
      (rs : List RetrievedResult) (rank : ℕ) (a : Ranking)
      → All (IsUsable m) rs
      → (b : Ranking) × (normalize_results m rank a rs ≡ normalized b)
  unfolding normalize_results
  →results [] rank a h = (a, refl)
  →results (r ∷ rs) rank a (u, h) =
      let (s, e) = →result rank r u in
      let (b, f) = →results rs (suc rank) (enter_rank a rank s) h in
      (b, rw (e, normalize_results) f)

-- A scored ranking is never reported as a mapping error.
score_ranking-status :
    (gt : GroundTruthItem) (a : Ranking)
    → (score_ranking gt a).status ≢ ScoringStatus.mapping_integrity_error
unfolding score_ranking relational_score single_score
score_ranking-status gt a h = ground arith

-- Without an infrastructure error, the scorer reports no mapping error exactly when each of the
-- first five results has a well-formed provenance and a chunk ID that the identity map resolves.
pub mapping_error_iff :
    (gt : GroundTruthItem) (results : List RetrievedResult) (m : IdentityMap)
    → ((score_retrieval gt results m false).status ≢ ScoringStatus.mapping_integrity_error)
      ↔ All (IsUsable m) (take 5 results)
unfolding score_retrieval
mapping_error_iff gt results m = (
  λ h. elim (Normalized-cases (normalize_results m 1 empty_ranking (take 5 results))) [
    | inl (a, e) ↦ results→ m (take 5 results) 1 empty_ranking a e
    | inr (e, refused) ↦ absurd (h (rw (refused, score_retrieval, mapping_integrity_error) refl))
  ],
  λ u e.
      let (a, f) = →results m (take 5 results) 1 empty_ranking u in
      score_ranking-status gt a (rw (f, score_retrieval) at e),
)
