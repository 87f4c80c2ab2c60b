-- ===== src/Retrieval/Relational.antt =====
-- The relational scoring, and the results that cannot be mapped.
use mesa_e2e_certification.Prelude.{
  ℕ, ◌+◌, ◌≡◌, ◌↔◌, refl, sym, ap, ◌∙◌, true, false, List, [], ◌∷◌, arith, All, is_empty, length,
  eqb, ltb, if◌then◌else◌, Nodup, elem,
}
use mesa_e2e_certification.Models.{ScoringStatus}
use mesa_e2e_certification.GroundTruth.{EvidenceGroup, GroundTruthItem}
use mesa_e2e_certification.Retrieval.{
  Ranking, no_hits, is_no_answer, is_relational, relational_score, score_ranking,
}
use mesa_e2e_certification.Retrieval.Coverage.{
  is_covered, group_ids, cover, full→, →full, none→, →none, score_groups-covered,
}

abbrev status_of : ℕ → ℕ → ScoringStatus
status_of covered total =
    if eqb covered total
    then ScoringStatus.hit
    else if ltb 0 covered
    then ScoringStatus.partial
    else ScoringStatus.miss

relational-status :
    (gt : GroundTruthItem) (a : Ranking)
    → (relational_score gt a).status
      ≡ status_of (length (cover a.by_rank [] gt.evidence_groups)) (length gt.evidence_groups)
unfolding relational_score
relational-status gt a =
    ap (λ c. status_of (length c) (length gt.evidence_groups))
      (score_groups-covered a.by_rank gt.evidence_groups no_hits)

no_new : (gs : List EvidenceGroup) → All (λ g. elem g.group_id [] ≡ false) gs
no_new [] = tt
no_new (g ∷ gs) = (refl, no_new gs)

some_group : (gt : GroundTruthItem) → is_relational gt ≡ true → is_empty gt.evidence_groups ≡ false
some_group gt h = ground arith

-- The score of an answerable relational query is a hit exactly when every evidence group has an
-- acceptable chunk in the ranking and no two groups share a group ID, and a miss exactly when no
-- group has an acceptable chunk in the ranking.
pub relational_iff :
    (gt : GroundTruthItem) (a : Ranking)
    → is_no_answer gt ≡ false
    → is_relational gt ≡ true
    → (((score_ranking gt a).status ≡ ScoringStatus.hit) ↔ (
        All (λ g. is_covered a.by_rank g ≡ true) gt.evidence_groups
        × Nodup (group_ids gt.evidence_groups)))
      × (((score_ranking gt a).status ≡ ScoringStatus.miss)
          ↔ All (λ g. is_covered a.by_rank g ≡ false) gt.evidence_groups)
unfolding score_ranking
relational_iff gt a answerable relational =
    rw (answerable, relational, score_ranking)
      (
        (
          λ h.
              let (covered, distinct, new) =
                full→ a.by_rank gt.evidence_groups []
                  (hit→ _ _ (sym (relational-status gt a) ∙ h)) in
              (covered, distinct),
          λ (covered, distinct).
              relational-status gt a
              ∙ →hit _ _ (
                  →full a.by_rank gt.evidence_groups [] covered distinct
                    (no_new gt.evidence_groups)),
        ),
        (
          λ h. none→ a.by_rank gt.evidence_groups (miss→ _ _ (sym (relational-status gt a) ∙ h)),
          λ h.
              relational-status gt a
              ∙ →miss gt.evidence_groups _ (some_group gt relational)
                  (→none a.by_rank gt.evidence_groups h),
        ),
      )
  where
    hit→ : (c t : ℕ) → status_of c t ≡ ScoringStatus.hit → c ≡ 0 + t
    hit→ c t h = ground arith

    →hit : (c t : ℕ) → c ≡ 0 + t → status_of c t ≡ ScoringStatus.hit
    →hit c t h = ground arith

    miss→ : (c t : ℕ) → status_of c t ≡ ScoringStatus.miss → c ≡ 0
    miss→ c t h = ground arith

    →miss :
        (gs : List EvidenceGroup) (c : ℕ)
        → is_empty gs ≡ false
        → c ≡ 0
        → status_of c (length gs) ≡ ScoringStatus.miss
    →miss [] c e h = absurd (ground arith)
    →miss (g ∷ gs) c e h = ground arith
