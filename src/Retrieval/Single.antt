-- ===== src/Retrieval/Single.antt =====
-- The single-hop scoring.
use mesa_e2e_certification.Prelude.{
  ℕ, String, ◌≡◌, ◌≢◌, refl, ap, sym, ◌∙◌, ◌↔◌, inl, inr, Bool, true, false, none, some, List, [],
  ◌∷◌, ◌++◌, arith, All, elem, if◌then◌else◌, Option-cases, Bool-cases,
}
use mesa_e2e_certification.Models.{ScoringStatus}
use mesa_e2e_certification.GroundTruth.{GroundTruthItem}
use mesa_e2e_certification.Retrieval.{
  Ranking, Hits, no_hits, is_no_answer, is_relational, score_single, single_score, score_ranking,
}

-- The chunk at this rank is acceptable, and no chunk before it in the ranking is.
abbrev pub IsFirstHit : List String → List (ℕ × String) → ℕ → Type 0
IsFirstHit accepted ranked rank =
    (before : List (ℕ × String)) × (chunk : String) × (after : List (ℕ × String)) × (ranked
      ≡ before ++ (rank, chunk) ∷ after)
    × All (λ p. elem p.1 accepted ≡ false) before
    × (elem chunk accepted ≡ true)

rank_of : {r r' : ℕ} → some r ≡ some r' → r ≡ r'
rank_of e = ground arith

some≢none : {r : ℕ} → some r ≢ none
some≢none e = ground arith

module _ (accepted : List String) where
  kept :
      (ranked : List (ℕ × String)) (h : Hits) (r : ℕ)
      → h.first ≡ some r
      → (score_single accepted h ranked).first ≡ some r
  unfolding score_single
  kept [] h r e = e
  kept ((rank, chunk) ∷ ranked) h r e = kept ranked _ r (step (elem chunk accepted))
    where
      step :
          (b : Bool)
          → (if b
              then record h {
                matched = h.matched ++ chunk ∷ [];
                first = elim h.first [ none ↦ some rank | some r' ↦ some r' ];
              }
              else h).first
            ≡ some r
      step true = rw e
      step false = e

  miss_step :
      (ranked : List (ℕ × String)) (h : Hits) (rank : ℕ) (chunk : String)
      → elem chunk accepted ≡ false
      → score_single accepted h ((rank, chunk) ∷ ranked) ≡ score_single accepted h ranked
  unfolding score_single
  miss_step ranked h rank chunk miss = rw miss

  hit_step :
      (ranked : List (ℕ × String)) (h : Hits) (rank : ℕ) (chunk : String)
      → h.first ≡ none
      → elem chunk accepted ≡ true
      → (score_single accepted h ((rank, chunk) ∷ ranked)).first ≡ some rank
  unfolding score_single
  hit_step ranked h rank chunk e hit = rw (hit, score_single) (kept ranked _ rank (rw e))

  first→IsFirstHit :
      (ranked : List (ℕ × String)) (h : Hits) (r : ℕ)
      → h.first ≡ none
      → (score_single accepted h ranked).first ≡ some r
      → IsFirstHit accepted ranked r
  unfolding score_single
  first→IsFirstHit [] h r e f = absurd (ground arith)
  first→IsFirstHit ((rank, chunk) ∷ ranked) h r e f = elim (Bool-cases (elem chunk accepted)) [
    | inl hit ↦ (
      [],
      chunk,
      ranked,
      ap (λ n. (n, chunk) ∷ ranked) (rank_of (sym (hit_step ranked h rank chunk e hit) ∙ f)),
      tt,
      hit,
    )
    | inr miss ↦
        let (before, c, rest, split, none_before, hit) =
          first→IsFirstHit ranked h r e
            (ap (λ x. x.first) (sym (miss_step ranked h rank chunk miss)) ∙ f) in
        (
          (rank, chunk) ∷ before,
          c,
          rest,
          ap (λ l. (rank, chunk) ∷ l) split,
          (miss, none_before),
          hit,
        )
  ]

  none→All :
      (ranked : List (ℕ × String)) (h : Hits)
      → h.first ≡ none
      → (score_single accepted h ranked).first ≡ none
      → All (λ p. elem p.1 accepted ≡ false) ranked
  none→All [] h e f = tt
  none→All ((rank, chunk) ∷ ranked) h e f = elim (Bool-cases (elem chunk accepted)) [
    | inl hit ↦ absurd (some≢none (sym (hit_step ranked h rank chunk e hit) ∙ f))
    | inr miss ↦ (
      miss,
      none→All ranked h e (ap (λ x. x.first) (sym (miss_step ranked h rank chunk miss)) ∙ f),
    )
  ]

  All→none :
      (ranked : List (ℕ × String)) (h : Hits)
      → h.first ≡ none
      → All (λ p. elem p.1 accepted ≡ false) ranked
      → (score_single accepted h ranked).first ≡ none
  unfolding score_single
  All→none [] h e all = e
  All→none ((rank, chunk) ∷ ranked) h e (miss, all) =
      ap (λ x. x.first) (miss_step ranked h rank chunk miss) ∙ All→none ranked h e all

  IsFirstHit→first :
      (before ranked : List (ℕ × String)) (h : Hits) (rank : ℕ) (chunk : String)
      → h.first ≡ none
      → All (λ p. elem p.1 accepted ≡ false) before
      → elem chunk accepted ≡ true
      → (score_single accepted h (before ++ (rank, chunk) ∷ ranked)).first ≡ some rank
  IsFirstHit→first [] ranked h rank chunk e all hit = hit_step ranked h rank chunk e hit
  IsFirstHit→first ((n, c) ∷ before) ranked h rank chunk e (miss, all) hit =
      ap (λ x. x.first) (miss_step (before ++ (rank, chunk) ∷ ranked) h n c miss)
      ∙ IsFirstHit→first before ranked h rank chunk e all hit

hit≢miss : ScoringStatus.hit ≢ ScoringStatus.miss
hit≢miss e = ground arith

single_hit :
    (gt : GroundTruthItem) (a : Ranking) (r : ℕ)
    → (score_single gt.expected_source_chunk_ids no_hits a.by_rank).first ≡ some r
    → ((single_score gt a).status ≡ ScoringStatus.hit) × ((single_score gt a).rank ≡ some r)
unfolding single_score
single_hit gt a r e = (rw (e, single_score), rw (e, single_score))

single_miss :
    (gt : GroundTruthItem) (a : Ranking)
    → (score_single gt.expected_source_chunk_ids no_hits a.by_rank).first ≡ none
    → (single_score gt a).status ≡ ScoringStatus.miss
unfolding single_score
single_miss gt a e = rw (e, single_score)

hit→first :
    (gt : GroundTruthItem) (a : Ranking) (r : ℕ)
    → (single_score gt a).status ≡ ScoringStatus.hit
    → (single_score gt a).rank ≡ some r
    → (score_single gt.expected_source_chunk_ids no_hits a.by_rank).first ≡ some r
hit→first gt a r hit rank =
    elim (Option-cases (score_single gt.expected_source_chunk_ids no_hits a.by_rank).first) [
      | inl e ↦ absurd (hit≢miss (sym hit ∙ single_miss gt a e))
      | inr (r', e) ↦ e ∙ sym (single_hit gt a r' e).1 ∙ rank
    ]

miss→first :
    (gt : GroundTruthItem) (a : Ranking)
    → (single_score gt a).status ≡ ScoringStatus.miss
    → (score_single gt.expected_source_chunk_ids no_hits a.by_rank).first ≡ none
miss→first gt a miss =
    elim (Option-cases (score_single gt.expected_source_chunk_ids no_hits a.by_rank).first) [
      | inl e ↦ e
      | inr (r, e) ↦ absurd (hit≢miss (sym (single_hit gt a r e).0 ∙ miss))
    ]

-- The score of an answerable query that is not relational is a hit exactly when some chunk of the
-- ranking is an expected one, with the first rank of such a chunk as its rank. Otherwise the
-- score is a miss, exactly when no chunk of the ranking is expected.
pub single_hop_iff :
    (gt : GroundTruthItem) (a : Ranking)
    → is_no_answer gt ≡ false
    → is_relational gt ≡ false
    → ((r : ℕ)
        → (((score_ranking gt a).status ≡ ScoringStatus.hit) × ((score_ranking gt a).rank ≡ some r))
          ↔ IsFirstHit gt.expected_source_chunk_ids a.by_rank r)
      × (((score_ranking gt a).status ≡ ScoringStatus.miss)
          ↔ All (λ p. elem p.1 gt.expected_source_chunk_ids ≡ false) a.by_rank)
unfolding score_ranking
single_hop_iff gt a answerable plain =
    rw (answerable, plain)
      (
        λ r. (
          λ (hit, rank).
              first→IsFirstHit accepted a.by_rank no_hits r refl (hit→first gt a r hit rank),
          λ (before, chunk, rest, split, none_before, is_accepted). single_hit gt a r (
              ap (λ l. (score_single accepted no_hits l).first) split
              ∙ IsFirstHit→first accepted before rest no_hits r chunk refl none_before is_accepted),
        ),
        (
          λ miss. none→All accepted a.by_rank no_hits refl (miss→first gt a miss),
          λ all. single_miss gt a (All→none accepted a.by_rank no_hits refl all),
        ),
      )
  where
    accepted : List String
    accepted = gt.expected_source_chunk_ids
