-- ===== src/Oracle/Leaks.antt =====
-- When the audit finds nothing.
use mesa_e2e_certification.Prelude.{
  ℕ, suc, String, ◌≡◌, refl, sym, ap, ◌∙◌, ◌↔◌, ◌⊎◌, inl, inr, Bool, true, false, not, ◌&&◌, ◌||◌,
  Option, List, [], ◌∷◌, ◌++◌, arith, is_empty, any, filter, collect, Dict, is_empty→nil,
  is_empty-append, is_empty-map, is_empty-filter, Bool-cases, insert_item, sort_items,
}
use mesa_e2e_certification.Json.{Json, Items, nil, cons, Fields, end, field}
use mesa_e2e_certification.Oracle.{
  Matching, FindingKind, PathPart, Finding, AuditStatus, RawManifest, forbidden_text_patterns,
  check_patterns, check_oracle_val, check_key, is_forbidden_field, names_token, bool_text, visit,
  visit_items, visit_fields, visit_field, oracle_values, check_empty, audit_findings,
  audit_oracle_surfaces, status_of,
}

module _ {ℓ} {A B : Type ℓ} where
  is_empty-collect :
      (f : A → List B) (xs : List A)
      → is_empty (collect f xs) ≡ not (any (λ x. not (is_empty (f x))) xs)
  is_empty-collect f [] = refl
  is_empty-collect f (x ∷ xs) =
      is_empty-append (f x) (collect f xs) ∙ ground (arith, is_empty-collect f xs)

module _ {ℓ} {V : Type ℓ} (p : V → Bool) where
  any-insert_item :
      (k : String) (v : V) (d : Dict V)
      → any (λ e. p e.1) (insert_item k v d) ≡ (p v || any (λ e. p e.1) d)
  unfolding insert_item
  any-insert_item k v [] = refl
  any-insert_item k v (e ∷ d) = ground (arith, any-insert_item k v d)

  any-sort_items : (d : Dict V) → any (λ e. p e.1) (sort_items d) ≡ any (λ e. p e.1) d
  unfolding sort_items
  any-sort_items [] = refl
  any-sort_items ((k, v) ∷ d) =
      any-insert_item k v (sort_items d) ∙ ground (arith, any-sort_items d)

module _ (matching : Matching) (values : List String) where
  open matching use {search}

  -- the text holds a phrase of the oracle
  abbrev pub has_phrase : String → Bool
  has_phrase s = any (λ p. search p.1 s) forbidden_text_patterns

  -- the text is, or holds as a word, one of the oracle's values
  abbrev pub has_value : String → Bool
  has_value s = any (names_token matching s) values

  -- Somewhere in the value there is oracle material: under the name of a field, in a key, in a
  -- text, or as a number or a bool that the oracle holds.
  mutual
    pub data Leaks : Json → Type 0 where
      in_object : {fs : Fields} → FieldsLeak fs → Leaks (Json.object fs)
      in_array : {xs : Items} → ItemsLeak xs → Leaks (Json.array xs)
      in_text : {s : String} → (has_phrase s || has_value s) ≡ true → Leaks (Json.string s)
      in_number : {n : String} → has_value n ≡ true → Leaks (Json.number n)
      in_bool : {b : Bool} → has_value (bool_text matching b) ≡ true → Leaks (Json.bool b)

    pub data ItemsLeak : Items → Type 0 where
      at_first : {x : Json} {xs : Items} → Leaks x → ItemsLeak (cons x xs)
      at_later : {x : Json} {xs : Items} → ItemsLeak xs → ItemsLeak (cons x xs)

    pub data FieldsLeak : Fields → Type 0 where
      by_name :
          {k : String} {v : Json} {fs : Fields}
          → is_forbidden_field matching k ≡ true
          → FieldsLeak (field k v fs)
      by_key :
          {k : String} {v : Json} {fs : Fields}
          → (has_phrase k || has_value k) ≡ true
          → FieldsLeak (field k v fs)
      below : {k : String} {v : Json} {fs : Fields} → Leaks v → FieldsLeak (field k v fs)
      beside : {k : String} {v : Json} {fs : Fields} → FieldsLeak fs → FieldsLeak (field k v fs)

  is_empty-check_patterns :
      (kind : FindingKind) (s : String) (path : List PathPart)
      → is_empty (check_patterns matching kind s path) ≡ not (has_phrase s)
  unfolding check_patterns
  is_empty-check_patterns kind s path =
      is_empty-map _ (filter (λ p. search p.1 s) forbidden_text_patterns)
      ∙ is_empty-filter (λ p. search p.1 s) forbidden_text_patterns

  is_empty-check_oracle_val :
      (s : String) (path : List PathPart)
      → is_empty (check_oracle_val matching values s path) ≡ not (has_value s)
  unfolding check_oracle_val
  is_empty-check_oracle_val s path =
      is_empty-map _ (filter (names_token matching s) values)
      ∙ is_empty-filter (names_token matching s) values

  both→ : (a b p q : Bool) → a ≡ not p → b ≡ not q → (a && b) ≡ not (p || q)
  both→ a b p q h k = ground arith

  is_empty-text :
      (kind : FindingKind) (s : String) (path : List PathPart)
      → is_empty (check_patterns matching kind s path ++ check_oracle_val matching values s path)
        ≡ not (has_phrase s || has_value s)
  is_empty-text kind s path =
      is_empty-append (check_patterns matching kind s path)
        (check_oracle_val matching values s path)
      ∙ both→ _ _ (has_phrase s) (has_value s) (is_empty-check_patterns kind s path)
          (is_empty-check_oracle_val s path)

  is_empty-check_key :
      (k : String) (path : List PathPart)
      → is_empty (check_key matching values k path) ≡ not (has_phrase k || has_value k)
  unfolding check_key
  is_empty-check_key k path = is_empty-text FindingKind.forbidden_key_token k path

  abbrev found : Dict (List Finding) → Bool
  found d = any (λ e. not (is_empty e.1)) d

  is_empty-object :
      (d : Dict (List Finding)) → is_empty (collect (λ e. e.1) (sort_items d)) ≡ not (found d)
  is_empty-object d =
      is_empty-collect (λ e. e.1) (sort_items d)
      ∙ ap not (any-sort_items (λ fs. not (is_empty fs)) d)

  clean→ : (a b : Bool) → a ≡ not b → a ≡ false → b ≡ true
  clean→ a b e h = ground arith

  first_or : (a b : Bool) → (a && b) ≡ false → (a ≡ false) ⊎ (b ≡ false)
  first_or a b h = elim (Bool-cases a) [ inl e ↦ inr (rw e at h) | inr e ↦ inl e ]

  module _ (k : String) (v : Json) (path : List PathPart) where
    -- what `visit_field` answers on a key that is no forbidden field
    is_empty-visit_field :
        is_forbidden_field matching k ≡ false
        → is_empty (visit_field matching values k path (visit matching values v path))
          ≡ (is_empty (check_key matching values k path) && is_empty (visit matching values v path))
    unfolding visit_field
    is_empty-visit_field e =
        rw e (is_empty-append (check_key matching values k path) (visit matching values v path))

    visit_field-forbidden :
        is_forbidden_field matching k ≡ true
        → is_empty (visit_field matching values k path (visit matching values v path)) ≡ false
    unfolding visit_field
    visit_field-forbidden e = rw e refl

  leak-visit_field :
      (k : String) (v : Json) (fs : Fields) (path : List PathPart)
      → (is_empty (visit matching values v path) ≡ false → Leaks v)
      → is_empty (visit_field matching values k path (visit matching values v path)) ≡ false
      → FieldsLeak (field k v fs)
  leak-visit_field k v fs path rest h = elim (Bool-cases (is_forbidden_field matching k)) [
    | inl e ↦ by_name e
    | inr e ↦ elim (first_or _ _ (sym (is_empty-visit_field k v path e) ∙ h)) [
      | inl f ↦ by_key (clean→ _ _ (is_empty-check_key k path) f)
      | inr f ↦ below (rest f)
    ]
  ]

  mutual
    unfolding visit visit_items visit_fields

    leak-visit :
        (v : Json) (path : List PathPart)
        → is_empty (visit matching values v path) ≡ false
        → Leaks v
    leak-visit (Json.object fs) path h = in_object (
        leak-visit_fields fs path
          (clean→ _ _ (is_empty-object (visit_fields matching values fs path)) h))
    leak-visit (Json.array xs) path h = in_array (leak-visit_items xs path 0 h)
    leak-visit (Json.string s) path h =
        in_text (clean→ _ _ (is_empty-text FindingKind.forbidden_prompt_token s path) h)
    leak-visit (Json.number n) path h = in_number (clean→ _ _ (is_empty-check_oracle_val n path) h)
    leak-visit (Json.bool b) path h =
        in_bool (clean→ _ _ (is_empty-check_oracle_val (bool_text matching b) path) h)
    leak-visit Json.null path h = absurd (ground arith)

    leak-visit_items :
        (xs : Items) (path : List PathPart) (i : ℕ)
        → is_empty (visit_items matching values xs path i) ≡ false
        → ItemsLeak xs
    leak-visit_items nil path i h = absurd (ground arith)
    leak-visit_items (cons x xs) path i h =
        elim (first_or _ _ (
          sym (
            is_empty-append (visit matching values x (path ++ PathPart.index i ∷ []))
              (visit_items matching values xs path (suc i)))
          ∙ h)) [
            | inl e ↦ at_first (leak-visit x (path ++ PathPart.index i ∷ []) e)
            | inr e ↦ at_later (leak-visit_items xs path (suc i) e)
          ]

    leak-visit_fields :
        (fs : Fields) (path : List PathPart)
        → found (visit_fields matching values fs path) ≡ true
        → FieldsLeak fs
    leak-visit_fields end path h = absurd (ground arith)
    leak-visit_fields (field k v fs) path h =
        elim (Bool-cases (
          is_empty (
            visit_field matching values k (path ++ PathPart.key k ∷ [])
              (visit matching values v (path ++ PathPart.key k ∷ []))))) [
                | inl e ↦ beside (leak-visit_fields fs path (rw (e, visit_fields) at h))
                | inr e ↦
                    leak-visit_field k v fs (path ++ PathPart.key k ∷ [])
                      (λ f. leak-visit v (path ++ PathPart.key k ∷ []) f) e
              ]

  left_and : (a b : Bool) → a ≡ false → (a && b) ≡ false
  left_and a b h = ground arith

  right_and : (a b : Bool) → b ≡ false → (a && b) ≡ false
  right_and a b h = ground arith

  field_seen :
      (k : String) (v : Json) (path : List PathPart)
      → ((is_empty (check_key matching values k path) && is_empty (visit matching values v path))
          ≡ false)
      → is_empty (visit_field matching values k path (visit matching values v path)) ≡ false
  field_seen k v path h = elim (Bool-cases (is_forbidden_field matching k)) [
    | inl e ↦ visit_field-forbidden k v path e
    | inr e ↦ is_empty-visit_field k v path e ∙ h
  ]

  found_first :
      (d : Dict (List Finding)) (k : String) (fs : List Finding)
      → is_empty fs ≡ false
      → found ((k, fs) ∷ d) ≡ true
  found_first d k fs h = ground arith

  found_later :
      (d : Dict (List Finding)) (k : String) (fs : List Finding)
      → found d ≡ true
      → found ((k, fs) ∷ d) ≡ true
  found_later d k fs h = ground arith

  mutual
    unfolding visit visit_items visit_fields

    visit-leak :
        {v : Json} (path : List PathPart)
        → Leaks v
        → is_empty (visit matching values v path) ≡ false
    visit-leak path (in_object {fs} h) =
        is_empty-object (visit_fields matching values fs path) ∙ ap not (visit_fields-leak path h)
    visit-leak path (in_array h) = visit_items-leak path 0 h
    visit-leak path (in_text {s} h) =
        is_empty-text FindingKind.forbidden_prompt_token s path ∙ ap not h
    visit-leak path (in_number {n} h) = is_empty-check_oracle_val n path ∙ ap not h
    visit-leak path (in_bool {b} h) =
        is_empty-check_oracle_val (bool_text matching b) path ∙ ap not h

    visit_items-leak :
        {xs : Items} (path : List PathPart) (i : ℕ)
        → ItemsLeak xs
        → is_empty (visit_items matching values xs path i) ≡ false
    visit_items-leak path i (at_first {x} {xs} h) =
        is_empty-append (visit matching values x (path ++ PathPart.index i ∷ []))
          (visit_items matching values xs path (suc i))
        ∙ left_and _ _ (visit-leak _ h)
    visit_items-leak path i (at_later {x} {xs} h) =
        is_empty-append (visit matching values x (path ++ PathPart.index i ∷ []))
          (visit_items matching values xs path (suc i))
        ∙ right_and _ _ (visit_items-leak path (suc i) h)

    visit_fields-leak :
        {fs : Fields} (path : List PathPart)
        → FieldsLeak fs
        → found (visit_fields matching values fs path) ≡ true
    visit_fields-leak path (by_name {k} {v} {fs} e) =
        found_first (visit_fields matching values fs path) k _
          (visit_field-forbidden k v (path ++ PathPart.key k ∷ []) e)
    visit_fields-leak path (by_key {k} {v} {fs} h) =
        found_first (visit_fields matching values fs path) k _ (
          field_seen k v (path ++ PathPart.key k ∷ [])
            (left_and _ _ (is_empty-check_key k (path ++ PathPart.key k ∷ []) ∙ ap not h)))
    visit_fields-leak path (below {k} {v} {fs} h) =
        found_first (visit_fields matching values fs path) k _
          (field_seen k v (path ++ PathPart.key k ∷ []) (right_and _ _ (visit-leak _ h)))
    visit_fields-leak path (beside {k} {v} {fs} h) =
        found_later (visit_fields matching values fs path) k
          (visit_field matching values k (path ++ PathPart.key k ∷ [])
            (visit matching values v (path ++ PathPart.key k ∷ [])))
          (visit_fields-leak path h)

module _ (matching : Matching) (surfaces : Fields) (known : List String)
    (manifest : Option RawManifest) (run_id : Option String) where
  pass→ : (fs : List Finding) → status_of matching fs ≡ AuditStatus.pass → is_empty fs ≡ true
  pass→ fs h = ground arith

  →pass : (fs : List Finding) → is_empty fs ≡ true → status_of matching fs ≡ AuditStatus.pass
  →pass fs h = ground arith

  -- The audit passes exactly when nothing in the surfaces, at any depth, is oracle material, and the
  -- surfaces and the manifest, where one is given, are not both empty.
  pub audit_pass_iff :
      ((audit_oracle_surfaces matching surfaces known manifest run_id).status ≡ AuditStatus.pass)
      ↔ ((check_empty matching surfaces manifest ≡ [])
          × (¬ Leaks matching (oracle_values matching known) (Json.object surfaces)))
  unfolding audit_oracle_surfaces audit_findings
  audit_pass_iff = (
    λ h.
        let empty =
          and→ _ _
            (sym (is_empty-append (check_empty matching surfaces manifest) scan) ∙ pass→ _ h) in
        (
          is_empty→nil (check_empty matching surfaces manifest) empty.0,
          λ l. clash (sym empty.1 ∙ visit-leak matching (oracle_values matching known) [] l),
        ),
    λ (present, clean). →pass _ (
        is_empty-append (check_empty matching surfaces manifest) scan
        ∙ →and _ _ (ap is_empty present) (elim (Bool-cases (is_empty scan)) [
          | inl e ↦ e
          | inr e ↦ absurd (clean (leak-visit matching (oracle_values matching known) _ [] e))
        ])),
  )
    where
      scan : List Finding
      scan = visit matching (oracle_values matching known) (Json.object surfaces) []

      clash : true ≡ false → ⊥
      clash e = ground arith

      and→ : (a b : Bool) → (a && b) ≡ true → (a ≡ true) × (b ≡ true)
      and→ a b h = ground arith

      →and : (a b : Bool) → a ≡ true → b ≡ true → (a && b) ≡ true
      →and a b h k = ground arith
