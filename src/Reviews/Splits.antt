-- ===== src/Reviews/Splits.antt =====
-- When the development and test splits share nothing, and when a domain audit passes.
use mesa_e2e_certification.Prelude.{
  String, ◌==◌, ◌≡◌, ◌↔◌, refl, sym, ap, ◌∙◌, Bool, true, false, not, ◌||◌, List, [], ◌∷◌, is_empty,
  is_empty-sorted, elem, elem-to_set, to_set, intersection, arith, eq_iff, eq_refl, Bool-cases, inl,
  inr,
}
use mesa_e2e_certification.GroundTruth.{GroundTruthItem}
use mesa_e2e_certification.Governance.{query_ids}
use mesa_e2e_certification.Reviews.{questions, expected_ids, shared, validate_dev_test_leakage}

-- No member of one list is in the other.
abbrev pub IsApart : List String → List String → Type 0
IsApart xs ys = (s : String) → elem s xs ≡ true → elem s ys ≡ false

is_empty-intersection→ :
    (xs ys : List String) → is_empty (intersection xs ys) ≡ true → IsApart xs ys
is_empty-intersection→ [] ys h s e = absurd (ground arith)
is_empty-intersection→ (x ∷ xs) ys h s e = elim (Bool-cases (x == s)) [
  | inl same ↦ ap (λ t. elem t ys) (sym ((eq_iff x s).0 same)) ∙ ground arith
  | inr other ↦ is_empty-intersection→ xs ys (ground arith) s (ground arith)
]

→is_empty-intersection :
    (xs ys : List String) → IsApart xs ys → is_empty (intersection xs ys) ≡ true
→is_empty-intersection [] ys h = refl
→is_empty-intersection (x ∷ xs) ys h = ground (
  arith,
  h x (ground (arith, eq_refl x)),
  →is_empty-intersection xs ys (λ s e. h s (ground arith)),
)

shared→IsApart : (xs ys : List String) → is_empty (shared xs ys) ≡ true → IsApart xs ys
shared→IsApart xs ys h s e =
    sym (elem-to_set s ys)
    ∙ is_empty-intersection→ (to_set xs) (to_set ys)
        (sym (is_empty-sorted (intersection (to_set xs) (to_set ys))) ∙ h) s (elem-to_set s xs ∙ e)

IsApart→shared : (xs ys : List String) → IsApart xs ys → is_empty (shared xs ys) ≡ true
IsApart→shared xs ys h =
    is_empty-sorted (intersection (to_set xs) (to_set ys))
    ∙ →is_empty-intersection (to_set xs) (to_set ys)
        (λ s e. elem-to_set s ys ∙ h s (sym (elem-to_set s xs) ∙ e))

-- The leakage report passes exactly when the two splits have no query ID, no question, up to
-- normalization, and no expected source chunk in common.
pub leakage_iff :
    (normalize : String → String) (dev test : List GroundTruthItem)
    → ((validate_dev_test_leakage normalize dev test).0 ≡ true) ↔ (
        IsApart (query_ids dev) (query_ids test)
        × IsApart (questions normalize dev) (questions normalize test)
        × IsApart (expected_ids dev) (expected_ids test))
unfolding validate_dev_test_leakage
leakage_iff normalize dev test = (
  λ h.
      let (i, q, e) = three→ _ _ _ h in
      (
        shared→IsApart (query_ids dev) (query_ids test) i,
        shared→IsApart (questions normalize dev) (questions normalize test) q,
        shared→IsApart (expected_ids dev) (expected_ids test) e,
      ),
  λ (i, q, e).
      →three _ _ _ (IsApart→shared (query_ids dev) (query_ids test) i)
        (IsApart→shared (questions normalize dev) (questions normalize test) q)
        (IsApart→shared (expected_ids dev) (expected_ids test) e),
)
  where
    three→ :
        (a b c : Bool) → not (not a || not b || not c) ≡ true → (a ≡ true) × (b ≡ true) × (c ≡ true)
    three→ a b c h = (ground arith, ground arith, ground arith)

    →three : (a b c : Bool) → a ≡ true → b ≡ true → c ≡ true → not (not a || not b || not c) ≡ true
    →three a b c ha hb hc = ground arith
