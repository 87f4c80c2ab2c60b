-- ===== src/Secrets/Found.antt =====
-- What the searches find.
use mesa_e2e_certification.Prelude.{
  String, ◌==◌, ◌≡◌, ◌↔◌, ◌⊎◌, inl, inr, refl, sym, ap, subst, ◌∙◌, Bool, true, false, Option, none,
  some, is_some, elem, if◌then◌else◌, arith, eq_iff, Bool-cases, Option-cases,
}
use mesa_e2e_certification.Json.{Json, Items, nil, cons, Fields, end, field}
use mesa_e2e_certification.Secrets.{
  or_else, find_key, find_item, find_field, find_secret_field, find_forbidden_key,
  secret_field_names, forbidden_holdout_keys,
}

module _ (is_forbidden : String → Bool) where
  -- Somewhere in the value an object has this key, and the key is forbidden.
  mutual
    pub data HasKey (key : String) : Json → Type 0 where
      in_object : {fs : Fields} → InFields key fs → HasKey key (Json.object fs)
      in_array : {xs : Items} → InItems key xs → HasKey key (Json.array xs)

    pub data InItems (key : String) : Items → Type 0 where
      at_first : {x : Json} {xs : Items} → HasKey key x → InItems key (cons x xs)
      at_later : {x : Json} {xs : Items} → InItems key xs → InItems key (cons x xs)

    pub data InFields (key : String) : Fields → Type 0 where
      here : {v : Json} {fs : Fields} → is_forbidden key ≡ true → InFields key (field key v fs)
      below : {k : String} {v : Json} {fs : Fields} → HasKey key v → InFields key (field k v fs)
      beside : {k : String} {v : Json} {fs : Fields} → InFields key fs → InFields key (field k v fs)

  or_else-some :
      (a b : Option String) (k : String) → or_else a b ≡ some k → (a ≡ some k) ⊎ (b ≡ some k)
  unfolding or_else
  or_else-some none b k h = inr h
  or_else-some (some s) b k h = elim (Bool-cases (s == "")) [
    | inl e ↦ inr (rw (e, or_else) at h)
    | inr e ↦ inl (rw (e, or_else) at h)
  ]

  same_key : (key k : String) → some key ≡ some k → key ≡ k
  same_key key k h = ground arith

  mutual
    unfolding find_key find_item find_field

    found-key : (v : Json) (k : String) → find_key is_forbidden v ≡ some k → HasKey k v
    found-key (Json.object fs) k h = in_object (found-field fs k h)
    found-key (Json.array xs) k h = in_array (found-item xs k h)
    found-key Json.null k h = absurd (ground arith)
    found-key (Json.bool b) k h = absurd (ground arith)
    found-key (Json.number n) k h = absurd (ground arith)
    found-key (Json.string s) k h = absurd (ground arith)

    found-item : (xs : Items) (k : String) → find_item is_forbidden xs ≡ some k → InItems k xs
    found-item nil k h = absurd (ground arith)
    found-item (cons x xs) k h =
        elim (or_else-some (find_key is_forbidden x) (find_item is_forbidden xs) k h) [
          | inl e ↦ at_first (found-key x k e)
          | inr e ↦ at_later (found-item xs k e)
        ]

    found-field : (fs : Fields) (k : String) → find_field is_forbidden fs ≡ some k → InFields k fs
    found-field end k h = absurd (ground arith)
    found-field (field key v fs) k h = elim (Bool-cases (is_forbidden key)) [
      | inl e ↦
          subst (λ x. InFields x (field key v fs)) (same_key key k (rw (e, find_field) at h))
            (here e)
      | inr e ↦
          elim (or_else-some (find_key is_forbidden v) (find_field is_forbidden fs) k
            (rw (e, find_field) at h)) [
              | inl f ↦ below (found-key v k f)
              | inr f ↦ beside (found-field fs k f)
            ]
    ]

  mutual
    forbidden-key : {v : Json} {k : String} → HasKey k v → is_forbidden k ≡ true
    forbidden-key (in_object h) = forbidden-field h
    forbidden-key (in_array h) = forbidden-item h

    forbidden-item : {xs : Items} {k : String} → InItems k xs → is_forbidden k ≡ true
    forbidden-item (at_first h) = forbidden-key h
    forbidden-item (at_later h) = forbidden-item h

    forbidden-field : {fs : Fields} {k : String} → InFields k fs → is_forbidden k ≡ true
    forbidden-field (here e) = e
    forbidden-field (below h) = forbidden-key h
    forbidden-field (beside h) = forbidden-field h

  or_else-first :
      (a b : Option String)
      → ((k : String) → a ≡ some k → (k == "") ≡ false)
      → is_some a ≡ true
      → is_some (or_else a b) ≡ true
  unfolding or_else
  or_else-first none b full h = absurd (ground arith)
  or_else-first (some k) b full h = rw (full k refl, or_else) refl

  or_else-second : (a b : Option String) → is_some b ≡ true → is_some (or_else a b) ≡ true
  unfolding or_else
  or_else-second none b h = h
  or_else-second (some k) b h = elim (Bool-cases (k == "")) [
    | inl e ↦ rw (e, or_else) h
    | inr e ↦ rw (e, or_else) refl
  ]

  module _ (no_blank : is_forbidden "" ≡ false) where
    found_full : (v : Json) (k : String) → find_key is_forbidden v ≡ some k → (k == "") ≡ false
    found_full v k h = elim (Bool-cases (k == "")) [
      | inl e ↦ absurd (
          clash (
            sym (forbidden-key (found-key v k h)) ∙ ap is_forbidden ((eq_iff k "").0 e) ∙ no_blank))
      | inr e ↦ e
    ]
      where
        clash : true ≡ false → ⊥
        clash e = ground arith

    skip :
        (k : String) (o : Option String)
        → is_some o ≡ true
        → is_some (if is_forbidden k then some k else o) ≡ true
    skip k o h = elim (Bool-cases (is_forbidden k)) [ inl e ↦ rw e refl | inr e ↦ rw e h ]

    mutual
      unfolding find_key find_item find_field

      all-key : {v : Json} {k : String} → HasKey k v → is_some (find_key is_forbidden v) ≡ true
      all-key (in_object h) = all-field h
      all-key (in_array h) = all-item h

      all-item :
          {xs : Items} {k : String} → InItems k xs → is_some (find_item is_forbidden xs) ≡ true
      all-item (at_first {x} {xs} h) =
          or_else-first (find_key is_forbidden x) (find_item is_forbidden xs) (found_full x)
            (all-key h)
      all-item (at_later {x} {xs} h) =
          or_else-second (find_key is_forbidden x) (find_item is_forbidden xs) (all-item h)

      all-field :
          {fs : Fields} {k : String} → InFields k fs → is_some (find_field is_forbidden fs) ≡ true
      all-field (here e) = rw (e, find_field) refl
      all-field (below {k} {v} {fs} h) = skip k _ (
          or_else-first (find_key is_forbidden v) (find_field is_forbidden fs) (found_full v)
            (all-key h))
      all-field (beside {k} {v} {fs} h) =
          skip k _
            (or_else-second (find_key is_forbidden v) (find_field is_forbidden fs) (all-field h))

    find_key_iff :
        (v : Json) → (is_some (find_key is_forbidden v) ≡ true) ↔ ((k : String) × HasKey k v)
    find_key_iff v = (
      λ h. elim (Option-cases (find_key is_forbidden v)) [
        | inl e ↦ absurd (ground arith)
        | inr (k, e) ↦ (k, found-key v k e)
      ],
      λ (k, h). all-key h,
    )

-- The search of a runtime lock finds a field exactly when some object in the value, at any depth,
-- has a key whose case-folded and underscored name is the name of a secret, where folding and
-- underscoring leave the empty text empty.
pub secret_field_iff :
    (casefold underscored : String → String) (v : Json)
    → casefold "" ≡ ""
    → underscored "" ≡ ""
    → (is_some (find_secret_field casefold underscored v) ≡ true)
      ↔ ((k : String) × HasKey (λ k. elem (underscored (casefold k)) secret_field_names) k v)
unfolding find_secret_field
secret_field_iff casefold underscored v c u =
    find_key_iff (λ k. elem (underscored (casefold k)) secret_field_names)
      (ap (λ k. elem (underscored k) secret_field_names) c
        ∙ ap (λ k. elem k secret_field_names) u
        ∙ refl)
      v

-- The search of a holdout manifest finds a key exactly when some object in the value, at any depth,
-- has a key whose case-folded name is forbidden, where folding leaves the empty text empty.
pub forbidden_key_iff :
    (casefold : String → String) (v : Json)
    → casefold "" ≡ ""
    → (is_some (find_forbidden_key casefold v) ≡ true)
      ↔ ((k : String) × HasKey (λ k. elem (casefold k) forbidden_holdout_keys) k v)
unfolding find_forbidden_key
forbidden_key_iff casefold v c =
    find_key_iff (λ k. elem (casefold k) forbidden_holdout_keys)
      (ap (λ k. elem k forbidden_holdout_keys) c ∙ refl) v
