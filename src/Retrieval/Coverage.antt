-- ===== src/Retrieval/Coverage.antt =====
-- The set `covered_groups` of the relational scoring, and how large it can be.
use mesa_e2e_certification.Prelude.{
  ℕ, suc, ◌+◌, ◌≤◌, String, ◌==◌, ◌≡◌, refl, ap, ◌∙◌, Bool, true, false, ◌||◌, inl, inr, List, [],
  ◌∷◌, ◌++◌, map, arith, All, any, elem, length, length-append, if◌then◌else◌, Nodup, Bool-cases,
  eq_iff, eq_refl,
}
use mesa_e2e_certification.GroundTruth.{EvidenceGroup}
use mesa_e2e_certification.Identity.{add_member}
use mesa_e2e_certification.Retrieval.{Hits, score_group, score_groups}

-- Some chunk of the ranking is acceptable for the group.
abbrev pub is_covered : List (ℕ × String) → EvidenceGroup → Bool
is_covered ranked g = any (λ p. elem p.1 g.acceptable_source_chunk_ids) ranked

abbrev pub group_ids : List EvidenceGroup → List String
group_ids gs = map (λ g. g.group_id) gs

elem-append : (s : String) (xs ys : List String) → elem s (xs ++ ys) ≡ (elem s xs || elem s ys)
elem-append s [] ys = refl
elem-append s (x ∷ xs) ys = ground (arith, elem-append s xs ys)

length-add_member :
    (s : String) (xs : List String)
    → length (add_member s xs) ≡ (if elem s xs then length xs else suc (length xs))
length-add_member s xs = ground (arith, length-append xs (s ∷ []))

elem-add_member :
    (t s : String) (xs : List String) → elem t (add_member s xs) ≡ (s == t || elem t xs)
elem-add_member t s xs = ground (arith, elem-append t xs (s ∷ []), eq_iff s t)

add_member_again :
    (s : String) (xs : List String) → add_member s (add_member s xs) ≡ add_member s xs
add_member_again s xs = rw (elem-add_member s s xs, eq_refl s) refl

module _ (ranked : List (ℕ × String)) where
  abbrev enter : EvidenceGroup → List String → List String
  enter g c = if is_covered ranked g then add_member g.group_id c else c

  -- the set after these groups
  abbrev pub cover : List String → List EvidenceGroup → List String
  cover c [] = c
  cover c (g ∷ gs) = cover (enter g c) gs

  length-enter :
      (g : EvidenceGroup) (c : List String)
      → length (enter g c) ≡ (
          if is_covered ranked g
          then (if elem g.group_id c then length c else suc (length c))
          else length c)
  length-enter g c = ground (arith, length-add_member g.group_id c)

  length-cover_le :
      (gs : List EvidenceGroup) (c : List String) → length (cover c gs) ≤ length c + length gs
  length-cover_le [] c = omega arith
  length-cover_le (g ∷ gs) c = ground (arith, length-cover_le gs (enter g c), length-enter g c)

  length-cover_ge : (gs : List EvidenceGroup) (c : List String) → length c ≤ length (cover c gs)
  length-cover_ge [] c = omega arith
  length-cover_ge (g ∷ gs) c = ground (arith, length-cover_ge gs (enter g c), length-enter g c)

  -- The set has as many members as there are groups only if each group adds one.
  pub full→ :
      (gs : List EvidenceGroup) (c : List String)
      → length (cover c gs) ≡ length c + length gs
      → All (λ g. is_covered ranked g ≡ true) gs
        × Nodup (group_ids gs)
        × All (λ g. elem g.group_id c ≡ false) gs
  full→ [] c h = (tt, tt, tt)
  full→ (g ∷ gs) c h =
      let (covered, distinct, others) = full→ gs (enter g c) rest in
      ((hit, covered), (distinct_from gs others, distinct), (new, later gs others))
    where
      hit : is_covered ranked g ≡ true
      hit = ground (arith, length-cover_le gs (enter g c), length-enter g c)

      new : elem g.group_id c ≡ false
      new = ground (arith, length-cover_le gs (enter g c), length-enter g c)

      rest : length (cover (enter g c) gs) ≡ length (enter g c) + length gs
      rest = ground (arith, length-cover_le gs (enter g c), length-enter g c)

      elem-enter : (s : String) → elem s (enter g c) ≡ (g.group_id == s || elem s c)
      elem-enter s = ground (arith, hit, elem-add_member s g.group_id c)

      later :
          (gs : List EvidenceGroup)
          → All (λ k. elem k.group_id (enter g c) ≡ false) gs
          → All (λ k. elem k.group_id c ≡ false) gs
      later [] h = tt
      later (k ∷ gs) (e, h) = (ground (arith, elem-enter k.group_id), later gs h)

      distinct_from :
          (gs : List EvidenceGroup)
          → All (λ k. elem k.group_id (enter g c) ≡ false) gs
          → elem g.group_id (group_ids gs) ≡ false
      distinct_from [] h = refl
      distinct_from (k ∷ gs) (e, h) = ground (
        arith,
        elem-enter k.group_id,
        distinct_from gs h,
        eq_iff k.group_id g.group_id,
        eq_iff g.group_id k.group_id,
      )

  pub →full :
      (gs : List EvidenceGroup) (c : List String)
      → All (λ g. is_covered ranked g ≡ true) gs
      → Nodup (group_ids gs)
      → All (λ g. elem g.group_id c ≡ false) gs
      → length (cover c gs) ≡ length c + length gs
  →full [] c covered distinct new = omega arith
  →full (g ∷ gs) c (hit, covered) (other, distinct) (here, new) =
      ground (arith, →full gs (enter g c) covered distinct (still gs other new), length-enter g c)
    where
      still :
          (gs : List EvidenceGroup)
          → elem g.group_id (group_ids gs) ≡ false
          → All (λ k. elem k.group_id c ≡ false) gs
          → All (λ k. elem k.group_id (enter g c) ≡ false) gs
      still [] other new = tt
      still (k ∷ gs) other (e, new) = (
        ground (
          arith,
          hit,
          elem-add_member k.group_id g.group_id c,
          eq_iff k.group_id g.group_id,
          eq_iff g.group_id k.group_id,
        ),
        still gs (ground arith) new,
      )

  -- The set stays empty only if no group is covered.
  pub none→ :
      (gs : List EvidenceGroup)
      → length (cover [] gs) ≡ 0
      → All (λ g. is_covered ranked g ≡ false) gs
  none→ [] h = tt
  none→ (g ∷ gs) h = elim (Bool-cases (is_covered ranked g)) [
    | inl hit ↦ absurd (ground (arith, length-cover_ge gs (enter g []), length-enter g []))
    | inr miss ↦ (miss, none→ gs (rw miss at h))
  ]

  pub →none :
      (gs : List EvidenceGroup)
      → All (λ g. is_covered ranked g ≡ false) gs
      → length (cover [] gs) ≡ 0
  →none [] h = refl
  →none (g ∷ gs) (miss, h) = rw miss (→none gs h)

twice :
    (b : Bool) (s : String) (c : List String)
    → (if b then add_member s (add_member s c) else add_member s c) ≡ add_member s c
twice true s c = add_member_again s c
twice false s c = refl

score_group-covered :
    (ranked : List (ℕ × String)) (g : EvidenceGroup) (h : Hits)
    → (score_group g h ranked).covered
      ≡ (if is_covered ranked g then add_member g.group_id h.covered else h.covered)
unfolding score_group
score_group-covered [] g h = refl
score_group-covered ((rank, chunk) ∷ ranked) g h =
    elim (Bool-cases (elem chunk g.acceptable_source_chunk_ids)) [
      | inl hit ↦
          rw (hit, score_group)
            (score_group-covered ranked g _ ∙ twice (is_covered ranked g) g.group_id h.covered)
      | inr miss ↦ rw (miss, score_group) (score_group-covered ranked g h)
    ]

pub score_groups-covered :
    (ranked : List (ℕ × String)) (gs : List EvidenceGroup) (h : Hits)
    → (score_groups h ranked gs).covered ≡ cover ranked h.covered gs
unfolding score_groups
score_groups-covered ranked [] h = refl
score_groups-covered ranked (g ∷ gs) h =
    score_groups-covered ranked gs (score_group g h ranked)
    ∙ ap (λ c. cover ranked c gs) (score_group-covered ranked g h)
