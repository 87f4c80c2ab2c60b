-- ===== src/Governance/Accepted.antt =====
-- The ground truths that `validate_ground_truth_items` accepts.
use mesa_e2e_certification.Prelude.{
  String, ◌≡◌, ◌↔◌, refl, sym, ◌∙◌, Bool, true, false, ◌&&◌, is_some, List, [], ◌∷◌, ◌++◌, when,
  collect, is_empty→nil, is_empty, is_empty-append, All, All-map, elem, Nodup, arith, eq_iff,
}
use mesa_e2e_certification.GroundTruth.{GroundTruthItem}
use mesa_e2e_certification.Identity.{IdentityMap}
use mesa_e2e_certification.Governance.{
  GroundTruthError, query_ids, group_errors, relational_errors, answer_errors, source_errors,
  fact_errors, item_errors, structural_errors, validate_ground_truth_items,
}
use mesa_e2e_certification.Governance.Structure.{
  IsSound, IsSupported, collect→All, All→collect, known→, →known, relational→, →relational,
  consistent→, unanswerable→, answerable→, →answer, fact→, →fact, group→, →group,
}

module _ {ℓ} {A : Type ℓ} where
  parts→ :
      (a b c d e f : List A)
      → is_empty (a ++ b ++ c ++ d ++ e ++ f) ≡ true
      → (is_empty a ≡ true)
        × (is_empty b ≡ true)
        × (is_empty c ≡ true)
        × (is_empty d ≡ true)
        × (is_empty e ≡ true)
        × (is_empty f ≡ true)
  parts→ [] [] [] [] [] f h = (refl, refl, refl, refl, refl, h)
  parts→ (x ∷ a) b c d e f h = absurd (ground arith)
  parts→ [] (x ∷ b) c d e f h = absurd (ground arith)
  parts→ [] [] (x ∷ c) d e f h = absurd (ground arith)
  parts→ [] [] [] (x ∷ d) e f h = absurd (ground arith)
  parts→ [] [] [] [] (x ∷ e) f h = absurd (ground arith)

  →parts :
      (a b c d e f : List A)
      → is_empty a ≡ true
      → is_empty b ≡ true
      → is_empty c ≡ true
      → is_empty d ≡ true
      → is_empty e ≡ true
      → is_empty f ≡ true
      → is_empty (a ++ b ++ c ++ d ++ e ++ f) ≡ true
  →parts a b c d e f ha hb hc hd he hf =
      rw
        (
          is_empty→nil a ha,
          is_empty→nil b hb,
          is_empty→nil c hc,
          is_empty→nil d hd,
          is_empty→nil e he,
        )
        hf

both→ : (a b : Bool) → a && b ≡ true → (a ≡ true) × (b ≡ true)
both→ a b h = (ground arith, ground arith)

no_other :
    (id : String) (seen : List String) (items : List GroundTruthItem)
    → All (λ i. elem i.query_id (id ∷ seen) ≡ false) items
    → elem id (query_ids items) ≡ false
no_other id seen [] h = refl
no_other id seen (i ∷ items) (e, h) =
    ground (arith, no_other id seen items h, eq_iff i.query_id id, eq_iff id i.query_id)

still_new :
    (id : String) (seen : List String) (items : List GroundTruthItem)
    → All (λ i. elem i.query_id seen ≡ false) items
    → elem id (query_ids items) ≡ false
    → All (λ i. elem i.query_id (id ∷ seen) ≡ false) items
still_new id seen [] new h = tt
still_new id seen (i ∷ items) (e, new) h = (
  ground (arith, eq_iff i.query_id id, eq_iff id i.query_id),
  still_new id seen items new (ground arith),
)

none_seen : (items : List GroundTruthItem) → All (λ i. elem i.query_id [] ≡ false) items
none_seen [] = tt
none_seen (i ∷ items) = (refl, none_seen items)

module _ (is_blank : String → Bool) (m : IdentityMap) where
  module _ (seen : List String) (item : GroundTruthItem) where
    item→ :
        is_empty (item_errors is_blank m seen item) ≡ true
        → (elem item.query_id seen ≡ false) × IsSound is_blank m item
    unfolding item_errors
    item→ h =
        let (new, groups, facts, known, relational, answer) =
          parts→
            (when (elem item.query_id seen) (GroundTruthError.duplicate_query_id item.query_id))
            (collect (group_errors item) item.evidence_groups)
            (collect (fact_errors is_blank item) item.required_facts) (source_errors m item)
            (relational_errors item) (answer_errors item) h in
        (
          fresh (elem item.query_id seen) new,
          record {
            groups =
                All-map (group→ is_blank item) item.evidence_groups
                  (collect→All (group_errors item) item.evidence_groups groups);
            facts =
                All-map (fact→ is_blank item) item.required_facts
                  (collect→All (fact_errors is_blank item) item.required_facts facts);
            known = known→ m item known;
            relational = relational→ m item relational;
            consistent = consistent→ m item answer;
            unanswerable = unanswerable→ m item answer;
            answerable = answerable→ m item answer;
          },
        )
      where
        fresh :
            (b : Bool)
            → is_empty (when b (GroundTruthError.duplicate_query_id item.query_id)) ≡ true
            → b ≡ false
        fresh b h = ground arith

    →item :
        elem item.query_id seen ≡ false
        → IsSound is_blank m item
        → is_empty (item_errors is_blank m seen item) ≡ true
    unfolding item_errors
    →item new s =
        →parts (when (elem item.query_id seen) (GroundTruthError.duplicate_query_id item.query_id))
          (collect (group_errors item) item.evidence_groups)
          (collect (fact_errors is_blank item) item.required_facts) (source_errors m item)
          (relational_errors item) (answer_errors item) (rw new)
          (All→collect (group_errors item) item.evidence_groups (
            All-map {P = λ g. is_empty g.acceptable_source_chunk_ids ≡ false} (→group is_blank item)
              item.evidence_groups s.groups))
          (All→collect (fact_errors is_blank item) item.required_facts (
            All-map {P = IsSupported is_blank item} (→fact is_blank item) item.required_facts
              s.facts))
          (→known m item s.known) (→relational m item s.relational)
          (→answer m item s.consistent s.unanswerable s.answerable)

  all→ :
      (seen : List String) (items : List GroundTruthItem)
      → is_empty (structural_errors is_blank m seen items) ≡ true
      → All (λ i. elem i.query_id seen ≡ false) items
        × Nodup (query_ids items)
        × All (IsSound is_blank m) items
  unfolding structural_errors
  all→ seen [] h = (tt, tt, tt)
  all→ seen (item ∷ items) h =
      let split =
        is_empty-append (item_errors is_blank m seen item)
          (structural_errors is_blank m (item.query_id ∷ seen) items) in
      let (new, sound) = item→ seen item (both→ _ _ (sym split ∙ h)).0 in
      let (later, distinct, rest) =
        all→ (item.query_id ∷ seen) items (both→ _ _ (sym split ∙ h)).1 in
      (
        (
          new,
          All-map {P = λ i. elem i.query_id (item.query_id ∷ seen) ≡ false} (λ i e. ground arith)
              items later,
        ),
        (no_other item.query_id seen items later, distinct),
        (sound, rest),
      )

  →all :
      (seen : List String) (items : List GroundTruthItem)
      → All (λ i. elem i.query_id seen ≡ false) items
      → Nodup (query_ids items)
      → All (IsSound is_blank m) items
      → is_empty (structural_errors is_blank m seen items) ≡ true
  unfolding structural_errors
  →all seen [] new distinct sound = refl
  →all seen (item ∷ items) new distinct sound =
      is_empty-append (item_errors is_blank m seen item)
        (structural_errors is_blank m (item.query_id ∷ seen) items)
      ∙ rw (→item seen item new.0 sound.0) (
          →all (item.query_id ∷ seen) items (still_new item.query_id seen items new.1 distinct.0)
            distinct.1 sound.1)

  -- A ground truth is accepted exactly when no query ID comes twice and every item is sound: its
  -- groups and facts have evidence, declared and known to the map, and its evidence is in keeping
  -- with its class.
  pub accepted_iff :
      (items : List GroundTruthItem)
      → (is_some (validate_ground_truth_items is_blank items m) ≡ true)
        ↔ (Nodup (query_ids items) × All (IsSound is_blank m) items)
  unfolding validate_ground_truth_items
  accepted_iff items = (
    λ h. let (new, distinct, sound) = all→ [] items (passed h) in (distinct, sound),
    λ (distinct, sound).
        rw (→all [] items (none_seen items) distinct sound, validate_ground_truth_items) refl,
  )
    where
      passed :
          is_some (validate_ground_truth_items is_blank items m) ≡ true
          → is_empty (structural_errors is_blank m [] items) ≡ true
      passed h = ground arith
