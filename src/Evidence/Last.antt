-- ===== src/Evidence/Last.antt =====
-- Which authorization of reuse a path has.
use mesa_e2e_certification.Prelude.{
  if◌then◌else◌, All, All-map, All→all, Bool, Bool-cases, Dict, List, Option, Option-cases, String,
  [], all→All, ap, arith, eq_iff, false, inl, inr, insert, lookup, lookup-insert, none, not, refl,
  some, subst, sym, true, ◌==◌, ◌∙◌, ◌∷◌, ◌≡◌, ◌≢◌, ◌⊎◌,
}
use mesa_e2e_certification.Evidence.{Authorization, by_path, filled, is_complete, reuse_fields}

-- A text that is there and is not empty.
abbrev pub IsFilled : Option String → Type 0
IsFilled o = (t : String) × (o ≡ some t) × (t ≢ "")

-- A complete authorization of reuse for this path.
pub record IsFor (path : String) (a : Authorization) : Type 0 where
  pub complete :
      All
        (λ field. IsFilled (lookup field a))
        ("path" ∷ "source_run_id" ∷ "reuse_reason" ∷ "expected_sha256" ∷ "authorization" ∷ [])
  pub of_path : lookup "path" a ≡ some path

-- The last complete authorization for the path.
pub data IsLast (path : String) : List Authorization → Authorization → Type 0 where
  last :
      {a : Authorization} {later : List Authorization}
      → IsFor path a
      → All (λ b. IsFor path b → ⊥) later
      → IsLast path (a ∷ later) a
  earlier :
      {a b : Authorization} {later : List Authorization}
      → IsLast path later a
      → IsLast path (b ∷ later) a

filled→ : (o : Option String) → filled o ≡ true → IsFilled o
filled→ none h = absurd (ground arith)
filled→ (some t) h = (t, refl, λ e. ground (arith, eq_iff t ""))

→filled : (o : Option String) → IsFilled o → filled o ≡ true
→filled o (t, there, full) = rw there (unequal (Bool-cases (t == "")))
  where
    unequal : ((t == "") ≡ true) ⊎ ((t == "") ≡ false) → not (t == "") ≡ true
    unequal (inl e) = absurd (full ((eq_iff t "").0 e))
    unequal (inr e) = rw e refl

complete→ :
    (a : Authorization) → is_complete a ≡ true → All (λ f. IsFilled (lookup f a)) reuse_fields
complete→ a h =
    All-map (λ f e. filled→ (lookup f a) e) reuse_fields
      (all→All (λ f. filled (lookup f a)) reuse_fields h)

→complete :
    (a : Authorization) → All (λ f. IsFilled (lookup f a)) reuse_fields → is_complete a ≡ true
→complete a h =
    All→all (λ f. filled (lookup f a)) reuse_fields
      (All-map (λ f e. →filled (lookup f a) e) reuse_fields h)

pub by_path→ :
    (as_ : List Authorization) (d : Dict Authorization) (path : String) (a : Authorization)
    → lookup path (by_path as_ d) ≡ some a
    → IsLast path as_ a ⊎ (All (λ b. IsFor path b → ⊥) as_ × (lookup path d ≡ some a))
unfolding by_path
by_path→ [] d path a h = inr (tt, h)
by_path→ (b ∷ rest) d path a h = elim (Bool-cases (is_complete b)) [
  | inr partial ↦ elim (by_path→ rest d path a (rw (partial, by_path) at h)) [
    | inl found ↦ inl (earlier found)
    | inr (none_left, there) ↦ inr ((λ f. clash (→complete b f.complete) partial, none_left), there)
  ]
  | inl complete ↦ elim (Option-cases (lookup "path" b)) [
    | inl no_path ↦ elim (by_path→ rest d path a (rw (complete, no_path, by_path) at h)) [
      | inl found ↦ inl (earlier found)
      | inr (none_left, there) ↦
          inr ((λ f. absent path (sym no_path ∙ f.of_path), none_left), there)
    ]
    | inr (q, of_path) ↦
        elim (by_path→ rest (insert q b d) path a (rw (complete, of_path, by_path) at h)) [
          | inl found ↦ inl (earlier found)
          | inr (none_left, there) ↦ elim (Bool-cases (q == path)) [
            | inl same ↦ inl (
                subst (IsLast path (b ∷ rest))
                  (chosen (sym (lookup-insert q path b d ∙ here _ (q == path) same) ∙ there))
                  (last
                    (record {
                      complete = complete→ b complete;
                      of_path = of_path ∙ ap some ((eq_iff q path).0 same);
                    })
                    none_left))
            | inr other ↦ inr (
              (λ f. clash ((eq_iff q path).1 (one (sym of_path ∙ f.of_path))) other, none_left),
              sym (lookup-insert q path b d ∙ there_still _ (q == path) other) ∙ there,
            )
          ]
        ]
  ]
]
  where
    here : (o : Option Authorization) (x : Bool) → x ≡ true → (if x then some b else o) ≡ some b
    here o x e = rw e refl

    there_still : (o : Option Authorization) (x : Bool) → x ≡ false → (if x then some b else o) ≡ o
    there_still o x e = rw e refl

    clash : {x : Bool} → x ≡ true → x ≡ false → ⊥
    clash e f = ground arith

    absent : (s : String) → none ≡ some s → ⊥
    absent s e = cc

    chosen : {x : Authorization} → some x ≡ some a → x ≡ a
    chosen e = cc

    one : {x y : String} → some x ≡ some y → x ≡ y
    one e = ground arith
