-- ===== src/Reviews/Audits.antt =====
-- When the human audits of the ground truth pass.
use mesa_e2e_certification.Prelude.{
  any-elem, ℕ, ◌≤◌, String, ◌==◌, ◌≡◌, ◌↔◌, refl, sym, ap, ◌∙◌, Bool, true, false, not, ◌||◌, List,
  [], ◌∷◌, map, if◌then◌else◌, ltb, is_empty, is_empty-map, is_empty-filter, is_empty-sorted,
  is_empty-difference, any, All→any-false, All, All-map, filter, elem, elem-to_set, subset, Nodup,
  to_set, difference, sorted, arith, eq_iff, eq_refl, Bool-cases, inl, inr,
}
use mesa_e2e_certification.Reviews.{
  Decision, is_reject, is_unresolved, DomainAuditRecord, count, duplicates, AuditStatus,
  build_domain_audit_artifact,
}

count-absent : (s : String) (xs : List String) → elem s xs ≡ false → count s xs ≡ 0
count-absent s [] h = refl
count-absent s (x ∷ xs) h = ground (arith, count-absent s xs)

absent-count : (s : String) (xs : List String) → count s xs ≡ 0 → elem s xs ≡ false
absent-count s [] h = refl
absent-count s (x ∷ xs) h = ground (arith, absent-count s xs)

counts→Nodup : (xs : List String) → ((s : String) → elem s xs ≡ true → count s xs ≤ 1) → Nodup xs
counts→Nodup [] h = tt
counts→Nodup (x ∷ xs) h = (
  absent-count x xs (ground (arith, h x (ground (arith, eq_refl x)), eq_refl x)),
  counts→Nodup xs (λ s e. ground (arith, h s (ground arith))),
)

Nodup→counts : (xs : List String) → Nodup xs → (s : String) → count s xs ≤ 1
Nodup→counts [] h s = omega arith
Nodup→counts (x ∷ xs) (new, h) s = elim (Bool-cases (x == s)) [
  | inl same ↦
      ground (arith, count-absent s xs (ap (λ t. elem t xs) (sym ((eq_iff x s).0 same)) ∙ new))
  | inr other ↦ ground (arith, Nodup→counts xs h s)
]

none_of : (p : String → Bool) (xs : List String) → ((s : String) → p s ≡ false) → any p xs ≡ false
none_of p [] h = refl
none_of p (x ∷ xs) h = ground (arith, h x, none_of p xs h)

is_empty-duplicates :
    (xs : List String) → is_empty (duplicates xs) ≡ not (any (λ x. ltb 1 (count x xs)) (to_set xs))
is_empty-duplicates xs = is_empty-sorted _ ∙ is_empty-filter (λ x. ltb 1 (count x xs)) (to_set xs)

duplicates→Nodup : (xs : List String) → is_empty (duplicates xs) ≡ true → Nodup xs
duplicates→Nodup xs h = counts→Nodup xs λ s e. small (count s xs) (
    any-elem (λ x. ltb 1 (count x xs)) (to_set xs) s (no_not _ (sym (is_empty-duplicates xs) ∙ h))
      (elem-to_set s xs ∙ e))
  where
    small : (n : ℕ) → ltb 1 n ≡ false → n ≤ 1
    small n h = ground arith

    no_not : (b : Bool) → not b ≡ true → b ≡ false
    no_not b h = ground arith

Nodup→duplicates : (xs : List String) → Nodup xs → is_empty (duplicates xs) ≡ true
Nodup→duplicates xs h =
    is_empty-duplicates xs
    ∙ ap not (
        none_of (λ x. ltb 1 (count x xs)) (to_set xs) λ s. small (count s xs) (Nodup→counts xs h s))
  where
    small : (n : ℕ) → n ≤ 1 → ltb 1 n ≡ false
    small n h = ground arith

subset-to_set : (xs ys : List String) → subset (to_set xs) ys ≡ subset xs ys
unfolding to_set
subset-to_set [] ys = refl
subset-to_set (x ∷ xs) ys = ground (arith, subset-to_set xs ys, subset-elem x xs ys)
  where
    subset-elem :
        (s : String) (xs ys : List String)
        → elem s xs ≡ true
        → subset xs ys ≡ true
        → elem s ys ≡ true
    subset-elem s [] ys e h = absurd (ground arith)
    subset-elem s (x ∷ xs) ys e h = elim (Bool-cases (x == s)) [
      | inl same ↦ ap (λ t. elem t ys) (sym ((eq_iff x s).0 same)) ∙ ground arith
      | inr other ↦ subset-elem s xs ys (ground arith) (ground arith)
    ]

approved :
    (records : List DomainAuditRecord)
    → any (λ r. is_reject r.decision) records ≡ false
    → any (λ r. is_unresolved r.decision) records ≡ false
    → All (λ r. r.decision ≡ Decision.approve) records
approved [] h u = tt
approved (r ∷ records) h u = (ground arith, approved records (ground arith) (ground arith))

module _ (selected : List String) (records : List DomainAuditRecord) where
  abbrev observed : List String
  observed = map (λ r. r.query_id) records

  abbrev names : (DomainAuditRecord → Bool) → List String
  names p = sorted (map (λ r. r.query_id) (filter p records))

  is_empty-names : (p : DomainAuditRecord → Bool) → is_empty (names p) ≡ not (any p records)
  is_empty-names p = is_empty-sorted _ ∙ is_empty-map _ _ ∙ is_empty-filter p records

  is_empty-missing : is_empty (sorted (difference selected observed)) ≡ subset selected observed
  is_empty-missing = is_empty-sorted _ ∙ is_empty-difference selected observed

  is_empty-unexpected :
      is_empty (sorted (difference (to_set observed) selected)) ≡ subset observed selected
  is_empty-unexpected =
      is_empty-sorted _
      ∙ is_empty-difference (to_set observed) selected
      ∙ subset-to_set observed selected

  -- A domain audit passes exactly when no query is reviewed twice, the reviewed queries are the
  -- selected ones, and every review approves.
  pub domain_audit_iff :
      ((build_domain_audit_artifact selected records).status ≡ AuditStatus.pass) ↔ (
        Nodup observed
        × (subset selected observed ≡ true)
        × (subset observed selected ≡ true)
        × All (λ r. r.decision ≡ Decision.approve) records)
  unfolding build_domain_audit_artifact
  domain_audit_iff = (
    λ h.
        let (t, u, r, m, o) = five→ _ _ _ _ _ h in
        (
          duplicates→Nodup observed t,
          sym is_empty-missing ∙ m,
          sym is_empty-unexpected ∙ u,
          approved records (no_not _ (sym (is_empty-names (λ r. is_reject r.decision)) ∙ r))
              (no_not _ (sym (is_empty-names (λ r. is_unresolved r.decision)) ∙ o)),
        ),
    λ (t, m, u, a).
        →five _ _ _ _ _ (Nodup→duplicates observed t) (is_empty-unexpected ∙ u)
          (is_empty-names (λ r. is_reject r.decision)
            ∙ ap not (
                All→any-false (λ r. is_reject r.decision) records
                  (All-map {P = λ r. r.decision ≡ Decision.approve} (λ r e. ground arith) records
                    a)))
          (is_empty-missing ∙ m)
          (is_empty-names (λ r. is_unresolved r.decision)
            ∙ ap not (
                All→any-false (λ r. is_unresolved r.decision) records
                  (All-map {P = λ r. r.decision ≡ Decision.approve} (λ r e. ground arith) records
                    a))),
  )
    where
      no_not : (b : Bool) → not b ≡ true → b ≡ false
      no_not b h = ground arith

      five→ :
          (t u r m o : Bool)
          → (if not t || not u || not r
              then AuditStatus.fail
              else if not m || not o
              then AuditStatus.human_review_required
              else AuditStatus.pass)
            ≡ AuditStatus.pass
          → (t ≡ true) × (u ≡ true) × (r ≡ true) × (m ≡ true) × (o ≡ true)
      five→ t u r m o h = (ground arith, ground arith, ground arith, ground arith, ground arith)

      →five :
          (t u r m o : Bool)
          → t ≡ true
          → u ≡ true
          → r ≡ true
          → m ≡ true
          → o ≡ true
          → (if not t || not u || not r
              then AuditStatus.fail
              else if not m || not o
              then AuditStatus.human_review_required
              else AuditStatus.pass)
            ≡ AuditStatus.pass
      →five t u r m o ht hu hr hm ho = rw (ht, hu, hr, hm, ho) refl
