-- ===== src/Governance/Structure.antt =====
-- When `validate_ground_truth_items` accepts a ground truth.
use mesa_e2e_certification.Prelude.{
  any-elem, String, ◌==◌, ◌≤◌, ◌≡◌, refl, sym, ap, ◌∙◌, Bool, true, false, not, List, [], ◌∷◌, inl,
  inr, Bool-cases, length, is_empty, is_empty→nil, is_empty-append, is_empty-map, is_empty-filter,
  any, All, All-map, elem, elem-sorted, elem-to_set, to_set, sorted, collect, arith, eq_refl,
}
use mesa_e2e_certification.GroundTruth.{
  ExactSourceSpan, RequiredFact, EvidenceGroup, GroundTruthItem,
}
use mesa_e2e_certification.Identity.{IdentityMap}
use mesa_e2e_certification.Governance.{
  declared, source_ids, is_no_answer_class, is_known, group_errors, relational_errors,
  answer_errors, source_errors, span_errors, fact_errors,
}

module _ {ℓ κ} {A : Type ℓ} {B : Type κ} where
  pub collect→All :
      (f : A → List B) (xs : List A)
      → is_empty (collect f xs) ≡ true
      → All (λ x. is_empty (f x) ≡ true) xs
  collect→All f [] h = tt
  collect→All f (x ∷ xs) h = (
    ground (arith, is_empty-append (f x) (collect f xs)),
    collect→All f xs (ground (arith, is_empty-append (f x) (collect f xs))),
  )

  pub All→collect :
      (f : A → List B) (xs : List A)
      → All (λ x. is_empty (f x) ≡ true) xs
      → is_empty (collect f xs) ≡ true
  All→collect f [] h = refl
  All→collect f (x ∷ xs) (h, t) =
      ground (arith, is_empty-append (f x) (collect f xs), All→collect f xs t)

-- The span has a text and stands in a declared source.
pub record IsSupport (is_blank : String → Bool) (item : GroundTruthItem) (s : ExactSourceSpan)
    : Type 0 where
  pub has_text : is_blank s.exact_text ≡ false
  pub is_declared : elem s.source_chunk_id (declared item) ≡ true

pub record IsSupported (is_blank : String → Bool) (item : GroundTruthItem) (f : RequiredFact)
    : Type 0 where
  pub some_support : is_empty f.supported_by ≡ false
  pub support : All (IsSupport is_blank item) f.supported_by

-- An item whose evidence is complete, known to the map and in keeping with its class.
pub record IsSound (is_blank : String → Bool) (m : IdentityMap) (item : GroundTruthItem)
    : Type 0 where
  pub groups : All (λ g. is_empty g.acceptable_source_chunk_ids ≡ false) item.evidence_groups
  pub facts : All (IsSupported is_blank item) item.required_facts
  pub known : (s : String) → elem s (source_ids item) ≡ true → is_known m s ≡ true
  pub relational :
      (item.query_class == "RELATIONAL") ≡ true
      → (item.is_answerable ≡ true) × (2 ≤ length item.evidence_groups)
  pub consistent : is_no_answer_class item ≡ not item.is_answerable
  pub unanswerable :
      item.is_answerable ≡ false
      → (item.expected_source_chunk_ids ≡ [])
        × (item.evidence_groups ≡ [])
        × (item.required_facts ≡ [])
  pub answerable :
      item.is_answerable ≡ true
      → (is_empty item.expected_source_chunk_ids ≡ false) × (is_empty item.required_facts ≡ false)

elem-any :
    (p : String → Bool) (xs : List String)
    → ((s : String) → elem s xs ≡ true → p s ≡ false)
    → any p xs ≡ false
elem-any p [] h = refl
elem-any p (x ∷ xs) h =
    ground (arith, h x (ground (arith, eq_refl x)), elem-any p xs (λ s e. h s (ground arith)))

no_not : (b : Bool) → not b ≡ true → b ≡ false
no_not b h = ground arith

cancel_not : (b : Bool) → not b ≡ false → b ≡ true
cancel_not b h = ground arith

module _ (m : IdentityMap) (item : GroundTruthItem) where
  abbrev sources : List String
  sources = sorted (to_set (source_ids item))

  elem-sources : (s : String) → elem s sources ≡ elem s (source_ids item)
  elem-sources s = elem-sorted s (to_set (source_ids item)) ∙ elem-to_set s (source_ids item)

  is_empty-source_errors :
      is_empty (source_errors m item) ≡ not (any (λ s. not (is_known m s)) sources)
  unfolding source_errors
  is_empty-source_errors = is_empty-map _ _ ∙ is_empty-filter (λ s. not (is_known m s)) sources

  pub known→ :
      is_empty (source_errors m item) ≡ true
      → (s : String) → elem s (source_ids item) ≡ true
      → is_known m s ≡ true
  known→ h s e = cancel_not _ (
      any-elem (λ s. not (is_known m s)) sources s (no_not _ (sym is_empty-source_errors ∙ h))
        (elem-sources s ∙ e))

  pub →known :
      ((s : String) → elem s (source_ids item) ≡ true → is_known m s ≡ true)
      → is_empty (source_errors m item) ≡ true
  →known h =
      is_empty-source_errors
      ∙ ap not (
          elem-any (λ s. not (is_known m s)) sources
            (λ s e. ap not (h s (sym (elem-sources s) ∙ e))))

  pub relational→ :
      is_empty (relational_errors item) ≡ true
      → (item.query_class == "RELATIONAL") ≡ true
      → (item.is_answerable ≡ true) × (2 ≤ length item.evidence_groups)
  unfolding relational_errors
  relational→ h r = (ground arith, ground arith)

  pub →relational :
      ((item.query_class == "RELATIONAL") ≡ true
        → (item.is_answerable ≡ true) × (2 ≤ length item.evidence_groups))
      → is_empty (relational_errors item) ≡ true
  unfolding relational_errors
  →relational h = elim (Bool-cases (item.query_class == "RELATIONAL")) [
    | inl r ↦ let (a, two) = h r in ground arith
    | inr other ↦ rw other
  ]

  pub consistent→ :
      is_empty (answer_errors item) ≡ true → is_no_answer_class item ≡ not item.is_answerable
  unfolding answer_errors
  consistent→ h = ground arith

  pub unanswerable→ :
      is_empty (answer_errors item) ≡ true
      → item.is_answerable ≡ false
      → (item.expected_source_chunk_ids ≡ [])
        × (item.evidence_groups ≡ [])
        × (item.required_facts ≡ [])
  unfolding answer_errors
  unanswerable→ h a = (
    is_empty→nil item.expected_source_chunk_ids (ground arith),
    is_empty→nil item.evidence_groups (ground arith),
    is_empty→nil item.required_facts (ground arith),
  )

  pub answerable→ :
      is_empty (answer_errors item) ≡ true
      → item.is_answerable ≡ true
      → (is_empty item.expected_source_chunk_ids ≡ false) × (is_empty item.required_facts ≡ false)
  unfolding answer_errors
  answerable→ h a = (ground arith, ground arith)

  pub →answer :
      is_no_answer_class item ≡ not item.is_answerable
      → (item.is_answerable ≡ false
          → (item.expected_source_chunk_ids ≡ [])
            × (item.evidence_groups ≡ [])
            × (item.required_facts ≡ []))
      → (item.is_answerable ≡ true
          → (is_empty item.expected_source_chunk_ids ≡ false)
            × (is_empty item.required_facts ≡ false))
      → is_empty (answer_errors item) ≡ true
  unfolding answer_errors
  →answer c u a = elim (Bool-cases item.is_answerable) [
    | inl there ↦ let (e, f) = a there in ground arith
    | inr absent ↦ let (e, g, f) = u absent in ground arith
  ]

module _ (is_blank : String → Bool) (item : GroundTruthItem) where
  span→ :
      (f : RequiredFact) (s : ExactSourceSpan)
      → is_empty (span_errors is_blank item f s) ≡ true
      → IsSupport is_blank item s
  unfolding span_errors
  span→ f s h = record { has_text = ground arith; is_declared = ground arith }

  →span :
      (f : RequiredFact) (s : ExactSourceSpan)
      → IsSupport is_blank item s
      → is_empty (span_errors is_blank item f s) ≡ true
  unfolding span_errors
  →span f s h = ground (arith, h.has_text, h.is_declared)

  pub fact→ :
      (f : RequiredFact)
      → is_empty (fact_errors is_blank item f) ≡ true
      → IsSupported is_blank item f
  unfolding fact_errors
  fact→ f h = record {
    some_support = ground arith;
    support =
        All-map (span→ f) f.supported_by
          (collect→All (span_errors is_blank item f) f.supported_by (ground arith));
  }

  pub →fact :
      (f : RequiredFact)
      → IsSupported is_blank item f
      → is_empty (fact_errors is_blank item f) ≡ true
  unfolding fact_errors
  →fact f h = ground (
    arith,
    h.some_support,
    All→collect (span_errors is_blank item f) f.supported_by
        (All-map {P = IsSupport is_blank item} (→span f) f.supported_by h.support),
  )

  pub group→ :
      (g : EvidenceGroup)
      → is_empty (group_errors item g) ≡ true
      → is_empty g.acceptable_source_chunk_ids ≡ false
  unfolding group_errors
  group→ g h = ground arith

  pub →group :
      (g : EvidenceGroup)
      → is_empty g.acceptable_source_chunk_ids ≡ false
      → is_empty (group_errors item g) ≡ true
  unfolding group_errors
  →group g h = ground arith
