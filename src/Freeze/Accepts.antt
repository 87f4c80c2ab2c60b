-- ===== src/Freeze/Accepts.antt =====
-- What an accepted freeze payload says, described on its own.
use mesa_e2e_certification.Prelude.{
  String, eq_iff, ◌≡◌, ◌≢◌, refl, sym, ap, subst, ◌∙◌, not, Bool, true, false, Option, none, some,
  List, [], ◌∷◌, arith, Dict, keys, elem, subset, is_empty, is_empty-difference, difference,
}
use mesa_e2e_certification.Json.{
  Json, Items, Fields, members, elements, as_string, as_object, as_array, get,
}
use mesa_e2e_certification.Freeze.{
  Note, FreezeStatus, proceed, ◌>>=◌, ◌>>◌, require, require_some, Material, Contract,
  is_repository_sha, is_material_sha, is_version_1, has_identities, check_sha, check_shas,
  check_material, check_materials, categories, check_payload, mandatory_repositories,
  mandatory_material_categories,
}
use mesa_e2e_certification.Freeze.Steps.{
  >>=-eq-proceed, >>-eq-proceed, require-eq-proceed, require_some-eq-proceed,
}

as_string→ : (o : Option Json) (s : String) → as_string o ≡ some s → o ≡ some (Json.string s)
as_string→ (some (Json.string t)) s h = ground arith
as_string→ none s h = absurd (ground arith)
as_string→ (some Json.null) s h = absurd (ground arith)
as_string→ (some (Json.bool b)) s h = absurd (ground arith)
as_string→ (some (Json.number n)) s h = absurd (ground arith)
as_string→ (some (Json.array xs)) s h = absurd (ground arith)
as_string→ (some (Json.object fs)) s h = absurd (ground arith)

as_object→ : (o : Option Json) (fs : Fields) → as_object o ≡ some fs → o ≡ some (Json.object fs)
as_object→ (some (Json.object gs)) fs h = ground arith
as_object→ none fs h = absurd (ground arith)
as_object→ (some Json.null) fs h = absurd (ground arith)
as_object→ (some (Json.bool b)) fs h = absurd (ground arith)
as_object→ (some (Json.number n)) fs h = absurd (ground arith)
as_object→ (some (Json.string t)) fs h = absurd (ground arith)
as_object→ (some (Json.array xs)) fs h = absurd (ground arith)

as_array→ : (o : Option Json) (xs : Items) → as_array o ≡ some xs → o ≡ some (Json.array xs)
as_array→ (some (Json.array ys)) xs h = ground arith
as_array→ none xs h = absurd (ground arith)
as_array→ (some Json.null) xs h = absurd (ground arith)
as_array→ (some (Json.bool b)) xs h = absurd (ground arith)
as_array→ (some (Json.number n)) xs h = absurd (ground arith)
as_array→ (some (Json.string t)) xs h = absurd (ground arith)
as_array→ (some (Json.object fs)) xs h = absurd (ground arith)

-- The repositories with well-formed SHAs, as the payload lists them.
pub data FrozenShas : Dict Json → Dict String → Type 0 where
  no_shas : FrozenShas [] []
  one_sha :
      {name s : String} {d : Dict Json} {e : Dict String}
      → is_repository_sha s ≡ true
      → FrozenShas d e
      → FrozenShas ((name, Json.string s) ∷ d) ((name, s) ∷ e)

-- The materials with well-formed hashes, as the payload lists them; none is at a path of `seen` or
-- of an earlier one.
pub data FrozenMaterials : List String → List Json → List Material → Type 0 where
  no_materials : {seen : List String} → FrozenMaterials seen [] []
  one_material :
      {seen : List String} {fs : Fields} {items : List Json} {m : Material} {ms : List Material}
      → get "category" fs ≡ some (Json.string m.category)
      → get "path" fs ≡ some (Json.string m.path)
      → get "sha256" fs ≡ some (Json.string m.sha256)
      → is_material_sha m.sha256 ≡ true
      → elem m.path seen ≡ false
      → FrozenMaterials (m.path ∷ seen) items ms
      → FrozenMaterials seen (Json.object fs ∷ items) (m ∷ ms)

check_shas→ : (d : Dict Json) (e : Dict String) → check_shas d ≡ proceed e → FrozenShas d e
unfolding check_shas check_sha
check_shas→ [] e h = subst (FrozenShas []) (same [] e h) no_shas
  where
    same : (a b : Dict String) → proceed a ≡ proceed b → a ≡ b
    same a b p = ground arith
check_shas→ ((name, sha) ∷ d) e h =
    let (s, here, h1) = >>=-eq-proceed (check_sha name sha) _ h in
    let (rest, there, h2) = >>=-eq-proceed (check_shas d) _ h1 in
    let (t, is_text, h3) =
      >>=-eq-proceed
        (require_some (as_string (some sha)) FreezeStatus.freeze_repository_identity_missing
          (Note.invalid_repository_sha name))
        _ here in
    let (u, valid, h4) =
      >>-eq-proceed
        (require (is_repository_sha t) FreezeStatus.freeze_repository_identity_missing
          (Note.invalid_repository_sha name))
        (proceed t) h3 in
    let text = inner sha t (as_string→ (some sha) t (require_some-eq-proceed _ _ _ is_text)) in
    subst (FrozenShas ((name, sha) ∷ d)) (same ((name, s) ∷ rest) e h2) (
      subst (λ j. FrozenShas ((name, j) ∷ d) ((name, s) ∷ rest)) (sym text ∙ refl)
        (subst (λ x. FrozenShas ((name, Json.string t) ∷ d) ((name, x) ∷ rest)) (one t s h4)
          (one_sha (require-eq-proceed _ _ _ valid) (check_shas→ d rest there))))
  where
    same : (a b : Dict String) → proceed a ≡ proceed b → a ≡ b
    same a b p = ground arith

    one : (a b : String) → proceed a ≡ proceed b → a ≡ b
    one a b p = ground arith

    inner : (j : Json) (t : String) → some j ≡ some (Json.string t) → j ≡ Json.string t
    inner j t p = ground arith

→check_shas : {d : Dict Json} {e : Dict String} → FrozenShas d e → check_shas d ≡ proceed e
unfolding check_shas check_sha ◌>>=◌ ◌>>◌ require require_some
→check_shas no_shas = refl
→check_shas (one_sha valid rest) = rw (valid, →check_shas rest) refl

check_material→ :
    (seen : List String) (item : Json) (m : Material) (items : List Json) (ms : List Material)
    → check_material seen item ≡ proceed m
    → FrozenMaterials (m.path ∷ seen) items ms
    → FrozenMaterials seen (item ∷ items) (m ∷ ms)
unfolding check_material
check_material→ seen item m items ms h rest =
    let (fs, is_fields, h1) = >>=-eq-proceed (require_some (as_object (some item)) _ _) _ h in
    let (category, c, h2) =
      >>=-eq-proceed (require_some (as_string (get "category" fs)) _ _) _ h1 in
    let (path, p, h3) = >>=-eq-proceed (require_some (as_string (get "path" fs)) _ _) _ h2 in
    let (sha, s, h4) = >>=-eq-proceed (require_some (as_string (get "sha256" fs)) _ _) _ h3 in
    let (u, valid, h5) = >>-eq-proceed (require (is_material_sha sha) _ _) _ h4 in
    let (v, new, h6) = >>-eq-proceed (require (not (elem path seen)) _ _) _ h5 in
    let made = same (record { category = category; path = path; sha256 = sha }) m h6 in
    subst (λ j. FrozenMaterials seen (j ∷ items) (m ∷ ms))
      (sym (inner item fs (as_object→ (some item) fs (require_some-eq-proceed _ _ _ is_fields))))
      (one_material
        (as_string→ (get "category" fs) category (require_some-eq-proceed _ _ _ c)
          ∙ ap (λ (x : Material). some (Json.string x.category)) made)
        (as_string→ (get "path" fs) path (require_some-eq-proceed _ _ _ p)
          ∙ ap (λ (x : Material). some (Json.string x.path)) made)
        (as_string→ (get "sha256" fs) sha (require_some-eq-proceed _ _ _ s)
          ∙ ap (λ (x : Material). some (Json.string x.sha256)) made)
        (subst (λ (x : Material). is_material_sha x.sha256 ≡ true) made
          (require-eq-proceed _ _ _ valid))
        (subst (λ (x : Material). elem x.path seen ≡ false) made
          (negated (elem path seen) (require-eq-proceed _ _ _ new)))
        rest)
  where
    same : (a b : Material) → proceed a ≡ proceed b → a ≡ b
    same a b p = ground arith

    inner : (j : Json) (fs : Fields) → some j ≡ some (Json.object fs) → j ≡ Json.object fs
    inner j fs p = ground arith

    negated : (b : Bool) → not b ≡ true → b ≡ false
    negated b p = ground arith

check_materials→ :
    (items : List Json) (seen : List String) (ms : List Material)
    → check_materials seen items ≡ proceed ms
    → FrozenMaterials seen items ms
unfolding check_materials
check_materials→ [] seen ms h = subst (FrozenMaterials seen []) (same [] ms h) no_materials
  where
    same : (a b : List Material) → proceed a ≡ proceed b → a ≡ b
    same a b p = ground arith
check_materials→ (item ∷ items) seen ms h =
    let (m, here, h1) = >>=-eq-proceed (check_material seen item) _ h in
    let (rest, there, h2) = >>=-eq-proceed (check_materials (m.path ∷ seen) items) _ h1 in
    subst (FrozenMaterials seen (item ∷ items)) (same (m ∷ rest) ms h2) (
      check_material→ seen item m items rest here
        (check_materials→ items (m.path ∷ seen) rest there))
  where
    same : (a b : List Material) → proceed a ≡ proceed b → a ≡ b
    same a b p = ground arith

→check_materials :
    {seen : List String} {items : List Json} {ms : List Material}
    → FrozenMaterials seen items ms
    → check_materials seen items ≡ proceed ms
unfolding check_materials check_material ◌>>=◌ ◌>>◌ require require_some
→check_materials no_materials = refl
→check_materials (one_material c p s valid new rest) =
    rw (c, p, s, valid, new, →check_materials rest) refl

-- The payload is an object of schema version 1.0 with runtime identities and a run ID, and its
-- repositories and materials are complete, well formed and those of the contract.
pub record IsAccepted (is_blank : String → Bool) (payload : Json) (c : Contract) : Type 0 where
  pub fields : Fields
  pub object : payload ≡ Json.object fields
  pub identities : Fields
  pub identities_there : get "runtime_identities" fields ≡ some (Json.object identities)
  pub some_identity : members identities ≢ []
  pub version : get "schema_version" fields ≡ some (Json.string "1.0")
  pub run_id : String
  pub run_there : get "run_id" fields ≡ some (Json.string run_id)
  pub not_blank : is_blank run_id ≡ false
  pub shas : Fields
  pub shas_there : get "repository_shas" fields ≡ some (Json.object shas)
  pub all_repositories : subset mandatory_repositories (keys (members shas)) ≡ true
  pub repositories : FrozenShas (members shas) c.repositories
  pub items : Items
  pub items_there : get "materials" fields ≡ some (Json.array items)
  pub materials : FrozenMaterials [] (elements items) c.materials
  pub all_categories : subset mandatory_material_categories (categories c.materials) ≡ true

identities→ :
    (o : Option Json)
    → has_identities o ≡ true
    → (fs : Fields) × (o ≡ some (Json.object fs)) × (members fs ≢ [])
unfolding has_identities
identities→ (some (Json.object fs)) h = (fs, refl, λ e. ground (arith, ap is_empty e))
identities→ none h = absurd (ground arith)
identities→ (some Json.null) h = absurd (ground arith)
identities→ (some (Json.bool b)) h = absurd (ground arith)
identities→ (some (Json.number n)) h = absurd (ground arith)
identities→ (some (Json.string t)) h = absurd (ground arith)
identities→ (some (Json.array xs)) h = absurd (ground arith)

version→ : (o : Option Json) → is_version_1 o ≡ true → o ≡ some (Json.string "1.0")
unfolding is_version_1
version→ (some (Json.string s)) h = ap (λ t. some (Json.string t)) ((eq_iff s "1.0").0 h)
version→ none h = absurd (ground arith)
version→ (some Json.null) h = absurd (ground arith)
version→ (some (Json.bool b)) h = absurd (ground arith)
version→ (some (Json.number n)) h = absurd (ground arith)
version→ (some (Json.object t)) h = absurd (ground arith)
version→ (some (Json.array xs)) h = absurd (ground arith)

has_identities_lem : (fs : Fields) → members fs ≢ [] → has_identities (some (Json.object fs)) ≡ true
unfolding has_identities
has_identities_lem fs h = go (members fs) h
  where
    go : (d : Dict Json) → d ≢ [] → not (is_empty d) ≡ true
    go [] h = absurd (h refl)
    go (e ∷ d) h = refl

module _ (is_blank : String → Bool) (payload : Json) (c : Contract) where
  pub check_payload→ : check_payload is_blank payload ≡ proceed c → IsAccepted is_blank payload c
  unfolding check_payload
  check_payload→ h =
      let (fs, o, h1) = >>=-eq-proceed (require_some (as_object (some payload)) _ _) _ h in
      let (u1, ids, h2) =
        >>-eq-proceed (require (has_identities (get "runtime_identities" fs)) _ _) _ h1 in
      let (u2, version, h3) =
        >>-eq-proceed (require (is_version_1 (get "schema_version" fs)) _ _) _ h2 in
      let (run_id, run, h4) =
        >>=-eq-proceed (require_some (as_string (get "run_id" fs)) _ _) _ h3 in
      let (u3, named, h5) = >>-eq-proceed (require (not (is_blank run_id)) _ _) _ h4 in
      let (shas, s, h6) =
        >>=-eq-proceed (require_some (as_object (get "repository_shas" fs)) _ _) _ h5 in
      let (u4, complete, h7) =
        >>-eq-proceed
          (require (is_empty (difference mandatory_repositories (keys (members shas)))) _ _) _ h6 in
      let (repositories, r, h8) = >>=-eq-proceed (check_shas (members shas)) _ h7 in
      let (items, i, h9) = >>=-eq-proceed (require_some (as_array (get "materials" fs)) _ _) _ h8 in
      let (materials, m, h10) = >>=-eq-proceed (check_materials [] (elements items)) _ h9 in
      let (u5, covered, h11) =
        >>-eq-proceed
          (require (is_empty (difference mandatory_material_categories (categories materials))) _ _)
          _ h10 in
      let (identities, there, some_there) = identities→ _ (require-eq-proceed _ _ _ ids) in
      subst (IsAccepted is_blank payload)
        (same (record { repositories = repositories; materials = materials }) h11)
        (record {
          fields = fs;
          object =
              inner payload fs (as_object→ (some payload) fs (require_some-eq-proceed _ _ _ o));
          identities = identities;
          identities_there = there;
          some_identity = some_there;
          version = version→ _ (require-eq-proceed _ _ _ version);
          run_id = run_id;
          run_there = as_string→ _ run_id (require_some-eq-proceed _ _ _ run);
          not_blank = negated (is_blank run_id) (require-eq-proceed _ _ _ named);
          shas = shas;
          shas_there = as_object→ _ shas (require_some-eq-proceed _ _ _ s);
          all_repositories =
              sym (is_empty-difference mandatory_repositories (keys (members shas)))
              ∙ require-eq-proceed _ _ _ complete;
          repositories = check_shas→ (members shas) repositories r;
          items = items;
          items_there = as_array→ _ items (require_some-eq-proceed _ _ _ i);
          materials = check_materials→ (elements items) [] materials m;
          all_categories =
              sym (is_empty-difference mandatory_material_categories (categories materials))
              ∙ require-eq-proceed _ _ _ covered;
        })
    where
      same : (a : Contract) → proceed a ≡ proceed c → a ≡ c
      same a p = ground arith

      inner : (j : Json) (fs : Fields) → some j ≡ some (Json.object fs) → j ≡ Json.object fs
      inner j fs p = ground arith

      negated : (b : Bool) → not b ≡ true → b ≡ false
      negated b p = ground arith

  pub →check_payload : IsAccepted is_blank payload c → check_payload is_blank payload ≡ proceed c
  unfolding check_payload ◌>>=◌ ◌>>◌ require require_some
  →check_payload a =
      rw
        (
          a.object,
          a.identities_there,
          has_identities_lem a.identities a.some_identity,
          a.version,
          is_version_1,
          a.run_there,
          a.not_blank,
          a.shas_there,
          is_empty-difference mandatory_repositories (keys (members a.shas)),
          a.all_repositories,
          →check_shas a.repositories,
          a.items_there,
          →check_materials a.materials,
          is_empty-difference mandatory_material_categories (categories c.materials),
          a.all_categories,
        )
        refl
