-- ===== src/Freeze/Verify.antt =====
-- What a verified freeze guarantees: nothing that it froze has drifted.
use mesa_e2e_certification.Prelude.{
  String, eq_iff, ◌≡◌, ◌≢◌, refl, ◌∙◌, ap, ◌↔◌, inl, inr, Bool, true, some, List, [], ◌∷◌, ◌++◌,
  arith, All, Dict, lookup, All-sort_items, All-of_sort_items, Option-cases,
}
use mesa_e2e_certification.Freeze.{
  FreezeStatus, FreezeVerification, Files, Step, proceed, return, raised, Material, Contract, ◌>>=◌,
  require_some, require_no_drift, repository_notes, all_repository_notes, check_sha, check_shas,
  check_material, check_materials, file_notes, material_notes, all_material_notes, check_drift,
  open_freeze, check_payload, verify_contract_freeze, finish, verify_steps,
}
use mesa_e2e_certification.Json.{Json}
use mesa_e2e_certification.Freeze.Accepts.{IsAccepted, check_payload→, →check_payload}
use mesa_e2e_certification.Freeze.Opens.{IsOpened, open_freeze→, →open_freeze}
use mesa_e2e_certification.Freeze.Steps.{
  >>=-eq-proceed, require_some-eq-proceed, require_no_drift-eq-proceed, Refuses, refusal_rules,
  Refuses-bind, Refuses-proceed, Refuses-require_some, invalid-ne-pass,
}

-- The SHA that is current is there and is the frozen one.
abbrev pub IsCurrent : Dict String → String × String → Type 0
IsCurrent current (name, frozen) = (lookup name current ≡ some frozen) × (frozen ≢ "")

no_notes→IsCurrent :
    (current : Dict String) (e : String × String)
    → repository_notes current e ≡ []
    → IsCurrent current e
unfolding repository_notes
no_notes→IsCurrent current (name, frozen) h = elim (Option-cases (lookup name current)) [
  | inl missing ↦ absurd (ground arith)
  | inr (sha, found) ↦
      (ground (arith, eq_iff sha frozen), λ e. ground (arith, eq_iff sha frozen, eq_iff sha ""))
]

IsCurrent→no_notes :
    (current : Dict String) (e : String × String)
    → IsCurrent current e
    → repository_notes current e ≡ []
unfolding repository_notes
IsCurrent→no_notes current (name, frozen) (found, there) =
    ground (arith, eq_iff frozen frozen, eq_iff frozen "")

append-nil-left {ℓ} : {A : Type ℓ} (xs ys : List A) → xs ++ ys ≡ [] → (xs ≡ []) × (ys ≡ [])
append-nil-left [] ys h = (refl, h)
append-nil-left (x ∷ xs) ys h = absurd (cc)

no_notes→All :
    (current d : Dict String) → all_repository_notes current d ≡ [] → All (IsCurrent current) d
unfolding all_repository_notes
no_notes→All current [] h = tt
no_notes→All current (e ∷ d) h =
    let (here, rest) = append-nil-left (repository_notes current e) _ h in
    (no_notes→IsCurrent current e here, no_notes→All current d rest)

All→no_notes :
    (current d : Dict String) → All (IsCurrent current) d → all_repository_notes current d ≡ []
unfolding all_repository_notes
All→no_notes current [] h = refl
All→no_notes current (e ∷ d) h = rw (IsCurrent→no_notes current e h.0, All→no_notes current d h.1)

module _ (files : Files) (root : files.FilePath) where
  open files use {FilePath, is_file, size, sha256, resolve}

  -- The file of the material is there, is not empty and has the frozen hash.
  abbrev pub IsUnchanged : Material → Type 0
  IsUnchanged m =
      (path : FilePath) × (resolve root m.path ≡ some path)
      × (is_file path ≡ true)
      × (size path ≢ 0)
      × (sha256 path ≡ some m.sha256)

  file_notes→IsUnchanged :
      (m : Material) (path : FilePath)
      → file_notes files m path ≡ proceed []
      → (is_file path ≡ true) × (size path ≢ 0) × (sha256 path ≡ some m.sha256)
  unfolding file_notes
  file_notes→IsUnchanged m path h = elim (Option-cases (sha256 path)) [
    | inl unreadable ↦ absurd (ground arith)
    | inr (observed, e) ↦
        (ground arith, λ z. ground arith, ground (arith, eq_iff observed m.sha256))
  ]

  material_notes→IsUnchanged :
      (m : Material) → material_notes files root m ≡ proceed [] → IsUnchanged m
  unfolding material_notes
  material_notes→IsUnchanged m h =
      let (path, found, rest) = >>=-eq-proceed _ (file_notes files m) h in
      let (there, full, same) = file_notes→IsUnchanged m path rest in
      (path, require_some-eq-proceed _ _ _ found, there, full, same)

  IsUnchanged→material_notes :
      (m : Material) → IsUnchanged m → material_notes files root m ≡ proceed []
  unfolding material_notes file_notes ◌>>=◌ require_some
  IsUnchanged→material_notes m (path, found, there, full, same) =
      rw found (ground (arith, eq_iff m.sha256 m.sha256))

  no_notes→All-IsUnchanged :
      (ms : List Material) → all_material_notes files root ms ≡ proceed [] → All IsUnchanged ms
  unfolding all_material_notes
  no_notes→All-IsUnchanged [] h = tt
  no_notes→All-IsUnchanged (m ∷ ms) h =
      let (notes, here, h') = >>=-eq-proceed (material_notes files root m) _ h in
      let (rest, there, h'') = >>=-eq-proceed (all_material_notes files root ms) _ h' in
      let (none_here, none_there) = append-nil-left notes rest (ground arith) in
      (
        material_notes→IsUnchanged m (here ∙ ap proceed none_here),
        no_notes→All-IsUnchanged ms (there ∙ ap proceed none_there),
      )

  All-IsUnchanged→no_notes :
      (ms : List Material) → All IsUnchanged ms → all_material_notes files root ms ≡ proceed []
  unfolding all_material_notes ◌>>=◌
  All-IsUnchanged→no_notes [] h = refl
  All-IsUnchanged→no_notes (m ∷ ms) h =
      rw (IsUnchanged→material_notes m h.0, All-IsUnchanged→no_notes ms h.1)

  module _ (current : Dict String) (c : Contract) where
    check_drift→ :
        {u : Unit {0}}
        → check_drift files root current c ≡ proceed u
        → All (IsCurrent current) c.repositories × All IsUnchanged c.materials
    unfolding check_drift
    check_drift→ h =
        let (changed, e, h') = >>=-eq-proceed (all_material_notes files root c.materials) _ h in
        let none_at_all = require_no_drift-eq-proceed _ h' in
        let (stale, moved) = append-nil-left (all_repository_notes current _) changed none_at_all in
        (
          All-of_sort_items (IsCurrent current) c.repositories (no_notes→All current _ stale),
          no_notes→All-IsUnchanged c.materials (e ∙ ap proceed moved),
        )

    →check_drift :
        All (IsCurrent current) c.repositories
        → All IsUnchanged c.materials
        → check_drift files root current c ≡ proceed tt
    unfolding check_drift ◌>>=◌ require_no_drift
    →check_drift h k = rw (
      All-IsUnchanged→no_notes c.materials k,
      All→no_notes current _ (All-sort_items (IsCurrent current) c.repositories h),
    )

check_sha-Refuses : (name : String) (sha : Json) → Refuses (check_sha name sha)
unfolding check_sha
check_sha-Refuses name sha = search refusal_rules depth 12

check_shas-Refuses : (d : Dict Json) → Refuses (check_shas d)
unfolding check_shas
check_shas-Refuses [] = Refuses-proceed []
check_shas-Refuses ((name, sha) ∷ d) =
    Refuses-bind (check_sha name sha) _ (check_sha-Refuses name sha)
      λ s. Refuses-bind (check_shas d) _ (check_shas-Refuses d) (λ rest. Refuses-proceed _)

check_material-Refuses : (seen : List String) (item : Json) → Refuses (check_material seen item)
unfolding check_material
check_material-Refuses seen item = search refusal_rules depth 12

check_materials-Refuses :
    (items : List Json) (seen : List String) → Refuses (check_materials seen items)
unfolding check_materials
check_materials-Refuses [] seen = search refusal_rules
check_materials-Refuses (item ∷ items) seen =
    Refuses-bind (check_material seen item) _ (check_material-Refuses seen item) λ m.
      Refuses-bind (check_materials (m.path ∷ seen) items) _
        (check_materials-Refuses items (m.path ∷ seen)) (λ rest. Refuses-proceed (m ∷ rest))

check_payload-Refuses :
    (is_blank : String → Bool) (payload : Json) → Refuses (check_payload is_blank payload)
unfolding check_payload
check_payload-Refuses is_blank payload =
    search (refusal_rules, check_shas-Refuses, check_materials-Refuses) depth 20

finish-pass :
    (m : Step (Unit {0})) {v : FreezeVerification}
    → Refuses m
    → finish m ≡ some v
    → v.status ≡ FreezeStatus.pass
    → (u : Unit {0}) × (m ≡ proceed u)
finish-pass (proceed u) r h p = (u, refl)
finish-pass (return w) r h p = absurd (r.at w refl (ground arith))
finish-pass raised r h p = absurd (cc)

module _ (files : Files) where
  open files use {FilePath, is_blank}

  open_freeze-Refuses : (freeze checksum : FilePath) → Refuses (open_freeze files freeze checksum)
  unfolding open_freeze
  open_freeze-Refuses freeze checksum = search refusal_rules depth 16

  file_notes-Refuses : (m : Material) (path : FilePath) → Refuses (file_notes files m path)
  unfolding file_notes
  file_notes-Refuses m path = record { at = λ v e. absurd (ground arith) }

  all_material_notes-Refuses :
      (root : FilePath) (ms : List Material) → Refuses (all_material_notes files root ms)
  unfolding all_material_notes material_notes
  all_material_notes-Refuses root [] = Refuses-proceed []
  all_material_notes-Refuses root (m ∷ ms) =
      Refuses-bind _ _
        (Refuses-bind _ _ (Refuses-require_some _ _ _ invalid-ne-pass) (file_notes-Refuses m))
        λ notes. Refuses-bind _ _ (all_material_notes-Refuses root ms) (λ rest. Refuses-proceed _)

  verify_steps-Refuses :
      (freeze checksum root : FilePath) (current : Dict String)
      → Refuses (verify_steps files freeze checksum root current)
  unfolding verify_steps check_drift
  verify_steps-Refuses freeze checksum root current =
      search (refusal_rules, open_freeze-Refuses, check_payload-Refuses, all_material_notes-Refuses)

  module _ (freeze checksum root : FilePath) (current : Dict String) where
    -- The freeze and checksum files are there and agree, the payload is accepted as this contract,
    -- each frozen repository is at its frozen SHA, and each frozen file is unchanged.
    pub record IsIntact (payload : Json) (c : Contract) : Type 0 where
      pub opened : IsOpened files freeze checksum payload
      pub accepted : IsAccepted is_blank payload c
      pub current_shas : All (IsCurrent current) c.repositories
      pub unchanged : All (IsUnchanged files root) c.materials

    pub pass→IsIntact :
        (v : FreezeVerification)
        → verify_contract_freeze files freeze checksum root current ≡ some v
        → v.status ≡ FreezeStatus.pass
        → (payload : Json) × (c : Contract) × IsIntact payload c
    unfolding verify_contract_freeze
    pass→IsIntact v h p =
        let (u, done) =
          finish-pass (verify_steps files freeze checksum root current)
            (verify_steps-Refuses freeze checksum root current) h p in
        let (payload, opened, h') = >>=-eq-proceed (open_freeze files freeze checksum) _ done in
        let (c, accepted, h'') = >>=-eq-proceed (check_payload is_blank payload) _ h' in
        let (shas, same) = check_drift→ files root current c h'' in
        (
          payload,
          c,
          record {
            opened = open_freeze→ files freeze checksum payload opened;
            accepted = check_payload→ is_blank payload c accepted;
            current_shas = shas;
            unchanged = same;
          },
        )

    pub IsIntact→pass :
        (payload : Json) (c : Contract)
        → IsIntact payload c
        → verify_contract_freeze files freeze checksum root current
          ≡ some (record { status = FreezeStatus.pass; drift = [] })
    unfolding verify_contract_freeze ◌>>=◌
    IsIntact→pass payload c i = rw (
      →open_freeze files freeze checksum payload i.opened,
      →check_payload is_blank payload c i.accepted,
      →check_drift files root current c i.current_shas i.unchanged,
    )

    -- A freeze is verified as PASS exactly when the freeze file and its checksum file are there, the
    -- checksum file has the digest of the freeze file and its name, its payload is well formed and
    -- complete, every frozen repository is still at its frozen SHA, and every frozen file
    -- is there, is not empty and still has its frozen hash.
    pub verify_pass_iff :
        ((v : FreezeVerification) × (verify_contract_freeze files freeze checksum root current
            ≡ some v)
          × (v.status ≡ FreezeStatus.pass))
        ↔ ((payload : Json) × (c : Contract) × IsIntact payload c)
    verify_pass_iff =
        (λ (v, h, p). pass→IsIntact v h p, λ (payload, c, i). (_, IsIntact→pass payload c i, refl))
