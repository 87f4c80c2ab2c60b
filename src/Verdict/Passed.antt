-- ===== src/Verdict/Passed.antt =====
-- What the lists of offending gates of `evaluate_final_verdict` say of the gates.
use mesa_e2e_certification.Prelude.{
  String, ◌≡◌, refl, ap, ◌∙◌, subst, inl, inr, true, false, not, ◌&&◌, some, List, [], ◌∷◌, map,
  arith, All, All-map, All→all, any, any-false→All, All→any-false, is_empty, is_empty-sorted,
  is_empty-map, is_empty-filter, Nodup, Member, Member-map_of_Member, Member-of_map, elem_of_Member,
  elem, subset, lookup, lookup-insert_all→, lookup-insert_all←, keys, Option-cases,
}
use mesa_e2e_certification.Models.{GateStatus, is_gate_pass, is_gate_fail}
use mesa_e2e_certification.Values.{Floats}
use mesa_e2e_certification.Gates.{GateResult}
use mesa_e2e_certification.Verdict.{
  gate_ids, by_id, passes_by_id, failed_hard, unverified_hard, mandatory_not_passed,
}

module _ (floats : Floats) (gates : List (GateResult floats)) where
  -- A gate of this name is among the results, and passed.
  abbrev pub HasPassed : String → Type 0
  HasPassed i =
      (g : GateResult floats) × Member g gates × (g.gate_id ≡ i) × (g.status ≡ GateStatus.pass)

  abbrev pub HardPassed : GateResult floats → Type 0
  HardPassed g = g.hard ≡ true → g.status ≡ GateStatus.pass

  abbrev entry : GateResult floats → String × GateResult floats
  entry g = (g.gate_id, g)

  keys-map-entry : (gs : List (GateResult floats)) → keys (map entry gs) ≡ gate_ids floats gs
  keys-map-entry [] = refl
  keys-map-entry (g ∷ gs) = rw (keys-map-entry gs)

  passes_by_id→HasPassed : (i : String) → passes_by_id floats gates i ≡ true → HasPassed i
  unfolding passes_by_id lookup
  passes_by_id→HasPassed i h = elim (Option-cases (lookup i (by_id floats gates))) [
    | inl missing ↦ absurd (ground arith)
    | inr (g, found) ↦ elim (lookup-insert_all→ i g (map entry gates) [] found) [
      | inl m ↦
          let (g', there, e) = Member-of_map entry gates m in
          (g', there, ap (λ p. p.0) e, ap (λ p. p.1.status) e ∙ ground arith)
      | inr none_yet ↦ absurd (cc)
    ]
  ]

  HasPassed→passes_by_id :
      (i : String)
      → Nodup (gate_ids floats gates)
      → HasPassed i
      → passes_by_id floats gates i ≡ true
  unfolding passes_by_id
  HasPassed→passes_by_id i nodup (g, there, e, p) = rw (found, passes_by_id) (ground arith)
    where
      found : lookup i (by_id floats gates) ≡ some g
      found =
          lookup-insert_all← i g (map entry gates) []
            (subst (λ j. Member {A = String × GateResult floats} (j, g) (map entry gates)) e
              (Member-map_of_Member entry g gates there))
            (rw keys-map-entry nodup)

  HasPassed→elem : (i : String) → HasPassed i → elem i (gate_ids floats gates) ≡ true
  HasPassed→elem i (g, there, e, p) = elem_of_Member i (gate_ids floats gates) (
      subst (λ j. Member j (gate_ids floats gates)) e
        (Member-map_of_Member (λ (x : GateResult floats). x.gate_id) g gates there))

  -- The four lists of offending names are empty exactly when the gates have passed.
  is_empty-unverified :
      is_empty (unverified_hard floats gates)
      ≡ not (any (λ g. g.hard && not (is_gate_pass g.status)) gates)
  is_empty-unverified =
      is_empty-sorted _
      ∙ is_empty-map _ _
      ∙ is_empty-filter (λ g. g.hard && not (is_gate_pass g.status)) gates

  pub is_empty-failed :
      is_empty (failed_hard floats gates) ≡ not (any (λ g. g.hard && is_gate_fail g.status) gates)
  is_empty-failed =
      is_empty-sorted _
      ∙ is_empty-map _ _
      ∙ is_empty-filter (λ g. g.hard && is_gate_fail g.status) gates

  pub verified→HardPassed : is_empty (unverified_hard floats gates) ≡ true → All HardPassed gates
  verified→HardPassed h =
      All-map (λ g e hard. ground arith) gates
        (any-false→All (λ g. g.hard && not (is_gate_pass g.status)) gates
          (ground (arith, is_empty-unverified)))

  pub HardPassed→verified :
      All HardPassed gates
      → (is_empty (unverified_hard floats gates) ≡ true)
        × (is_empty (failed_hard floats gates) ≡ true)
  HardPassed→verified h = (
    ground (arith, is_empty-unverified, none_unverified),
    ground (arith, is_empty-failed, none_failed),
  )
    where
      none_unverified : any (λ g. g.hard && not (is_gate_pass g.status)) gates ≡ false
      none_unverified =
          All→any-false (λ g. g.hard && not (is_gate_pass g.status)) gates
            (All-map {P = HardPassed} {Q = λ g. (g.hard && not (is_gate_pass g.status)) ≡ false}
              (λ g p. ground arith) gates h)

      none_failed : any (λ g. g.hard && is_gate_fail g.status) gates ≡ false
      none_failed =
          All→any-false (λ g. g.hard && is_gate_fail g.status) gates
            (All-map {P = HardPassed} {Q = λ g. (g.hard && is_gate_fail g.status) ≡ false}
              (λ g p. ground arith) gates h)

  module _ (mandatory : List String) where
    is_empty-not_passed :
        is_empty (mandatory_not_passed floats gates mandatory)
        ≡ not (any (λ i. not (passes_by_id floats gates i)) mandatory)
    is_empty-not_passed =
        is_empty-sorted _ ∙ is_empty-filter (λ i. not (passes_by_id floats gates i)) mandatory

    pub none_left→HasPassed :
        is_empty (mandatory_not_passed floats gates mandatory) ≡ true → All HasPassed mandatory
    none_left→HasPassed h =
        All-map (λ i e. passes_by_id→HasPassed i (ground arith)) mandatory
          (any-false→All (λ i. not (passes_by_id floats gates i)) mandatory
            (ground (arith, is_empty-not_passed)))

    pub HasPassed→none_left :
        Nodup (gate_ids floats gates)
        → All HasPassed mandatory
        → (is_empty (mandatory_not_passed floats gates mandatory) ≡ true)
          × (subset mandatory (gate_ids floats gates) ≡ true)
    HasPassed→none_left nodup h = (
      ground (arith, is_empty-not_passed, none_left),
      All→all (λ i. elem i (gate_ids floats gates)) mandatory
          (All-map (λ i p. HasPassed→elem i p) mandatory h),
    )
      where
        none_left : any (λ i. not (passes_by_id floats gates i)) mandatory ≡ false
        none_left =
            All→any-false (λ i. not (passes_by_id floats gates i)) mandatory
              (All-map {P = HasPassed} {Q = λ i. not (passes_by_id floats gates i) ≡ false}
                (λ i p. rw (HasPassed→passes_by_id i nodup p)) mandatory h)
