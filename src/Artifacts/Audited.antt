-- ===== src/Artifacts/Audited.antt =====
-- What a scored artifact requires.
use mesa_e2e_certification.Prelude.{
  All, Bool, Bool-cases, Dict, List, Option, Option-cases, String, [], ap, arith, collect, false,
  filter, if◌then◌else◌, inl, inr, keys, map, none, refl, some, sort_items, sorted, subst, true, ℕ,
  ◌&&◌, ◌<>◌, ◌==◌, ◌∙◌, ◌∷◌, ◌≡◌,
}
use mesa_e2e_certification.Json.{Json, Fields, as_object, get, to_items}
use mesa_e2e_certification.Oracle.{RawEntry, RawManifest}
use mesa_e2e_certification.Artifacts.{
  StoreError, Stored, ok, err, ◌>>=◌, ◌>>◌, require, Disk, Codec, verify_seal, audit_path, is_text,
  equals_number, persist, digest_of, or_fail,
}
use mesa_e2e_certification.Artifacts.Manifest.{
  compute_raw_manifest, require_passing_oracle_audit, raw_entry, raw_entries, entry_of, entry_json,
}
use mesa_e2e_certification.Artifacts.Persisting.{persist_scored, scored_request, lane_of, same_run}
use mesa_e2e_certification.Artifacts.Sealed.{>>=-ok, IsSealed, verify_seal→IsSealed, Stored-cases}

as_object→ :
    (payload : Json) (fs : Fields) → as_object (some payload) ≡ some fs → payload ≡ Json.object fs
as_object→ (Json.object gs) fs h = ground arith
as_object→ Json.null fs h = absurd (ground arith)
as_object→ (Json.bool b) fs h = absurd (ground arith)
as_object→ (Json.number n) fs h = absurd (ground arith)
as_object→ (Json.string t) fs h = absurd (ground arith)
as_object→ (Json.array xs) fs h = absurd (ground arith)

-- the tests of the audit, over any of them
tests→ :
    (a b c : Bool) (m : Stored RawManifest) (t : RawManifest → Bool) (u : Unit {0})
    → (require a StoreError.audit_run_id
        >> (require (b && c) StoreError.audit_not_pass
            >> (m >>= λ x. require (t x) StoreError.audit_stale)))
      ≡ ok u
    → (a ≡ true) × (b ≡ true) × (c ≡ true) × (x : RawManifest) × (m ≡ ok x) × (t x ≡ true)
tests→ true true true (ok x) t u h = (refl, refl, refl, x, refl, last (t x) h)
  where
    last : (b : Bool) → require b StoreError.audit_stale ≡ ok u → b ≡ true
    last true h = refl
    last false h = absurd (ground arith)
tests→ true true true (err e) t u h = absurd (ground arith)
tests→ true true false m t u h = absurd (ground arith)
tests→ true false c m t u h = absurd (ground arith)
tests→ false b c m t u h = absurd (ground arith)

module _ (codec : Codec) (run_id : String) (max_response_bytes : ℕ) where
  -- An entry of the raw manifest: a sealed file of this run, with its digest.
  pub record IsEntry (disk : Disk) (e : String × String) : Type 0 where
    pub seal : IsSealed codec e.0 disk e.1
    pub fields : Fields
    pub parsed : codec.loads seal.content ≡ some (Json.object fields)
    pub of_run : is_text (get "run_id" fields) run_id ≡ true

  raw_entry→IsEntry :
      (disk : Disk) (path : String) (e : String × String)
      → raw_entry codec run_id disk path ≡ ok e
      → (e.0 ≡ path) × IsEntry disk e
  unfolding raw_entry
  raw_entry→IsEntry disk path e h = elim (Stored-cases (verify_seal codec path disk)) [
    | inl (x, broken) ↦ absurd (ground arith)
    | inr (digest, intact) ↦
        let seal = verify_seal→IsSealed codec path disk digest intact in
        elim (Option-cases (codec.loads seal.content)) [
          | inl unreadable ↦ absurd (clash (rw (intact, seal.there, unreadable, raw_entry) at h))
          | inr (payload, parsed) ↦ elim (Option-cases (as_object (some payload))) [
            | inl other ↦ absurd (clash (rw (intact, seal.there, parsed, other, raw_entry) at h))
            | inr (fs, fields) ↦ elim (Bool-cases (is_text (get "run_id" fs) run_id)) [
              | inr stranger ↦
                  absurd (clash (rw (intact, seal.there, parsed, fields, stranger, raw_entry) at h))
              | inl same ↦
                  entry digest seal fs (parsed ∙ ap some (as_object→ payload fs fields)) same
                    (rw (intact, seal.there, parsed, fields, same, raw_entry) at h)
            ]
          ]
        ]
  ]
    where
      clash : {x : StoreError} → err x ≡ ok e → ⊥
      clash p = ground arith

      entry :
          (digest : String) (seal : IsSealed codec path disk digest) (fs : Fields)
          → codec.loads seal.content ≡ some (Json.object fs)
          → is_text (get "run_id" fs) run_id ≡ true
          → ok (path, digest) ≡ ok e
          → (e.0 ≡ path) × IsEntry disk e
      entry digest seal fs parsed same p =
          subst (λ e. (e.0 ≡ path) × IsEntry disk e) (chosen (path, digest) p)
            (refl, record { seal = seal; fields = fs; parsed = parsed; of_run = same })
        where
          chosen : (a : String × String) → ok a ≡ ok e → a ≡ e
          chosen a q = ground arith

  -- The entries are of these files, in this order.
  abbrev pub AreEntries : Disk → List String → Dict String → Type 0
  AreEntries disk paths found = (map (λ e. e.0) found ≡ paths) × All (IsEntry disk) found

  raw_entries→ :
      (disk : Disk) (paths : List String) (found : Dict String)
      → raw_entries codec run_id disk paths ≡ ok found
      → AreEntries disk paths found
  unfolding raw_entries
  raw_entries→ disk [] found h = subst (AreEntries disk []) (nothing found h) (refl, tt)
    where
      nothing : (d : Dict String) → ok [] ≡ ok d → [] ≡ d
      nothing d p = ground arith
  raw_entries→ disk (path ∷ paths) found h =
      let (e, here, h') = >>=-ok (raw_entry codec run_id disk path) _ found h in
      let (rest, there, h'') = >>=-ok (raw_entries codec run_id disk paths) _ found h' in
      let (is_path, entry) = raw_entry→IsEntry disk path e here in
      let (are_paths, entries) = raw_entries→ disk paths rest there in
      subst (AreEntries disk (path ∷ paths)) (chosen (e ∷ rest) found h'')
        (ap2 is_path are_paths, (entry, entries))
    where
      chosen : (a b : Dict String) → ok a ≡ ok b → a ≡ b
      chosen a b q = ground arith

      ap2 : {x y : String} {xs ys : List String} → x ≡ y → xs ≡ ys → x ∷ xs ≡ y ∷ ys
      ap2 p q = cc

  -- The manifest of the raw artifacts as they are: every JSON file of the lanes is sealed and of
  -- this run, and the manifest is built of their paths and digests.
  pub record IsCurrent (session : Option (List RawEntry → Option RawManifest)) (disk : Disk)
      (m : RawManifest) : Type 0 where
    pub found : Dict String
    pub entries :
        AreEntries disk
          (collect
            (λ dir.
              sorted (filter (λ p. codec.parent p == dir && codec.ends_with p ".json") (keys disk)))
            ("raw/retrieval" ∷ "raw/answers" ∷ "raw/provider" ∷ "raw/context" ∷ "raw/scope"
              ∷ "raw/graph" ∷ "raw/state" ∷ "raw/sessions" ∷ []))
          found
    pub built :
        (build : List RawEntry → Option RawManifest)
        → session ≡ some build
        → build (map entry_of (sort_items found)) ≡ some m
    pub hashed :
        session ≡ none
        → (bytes : String) × (codec.canonical
              (Json.array (to_items (map entry_json (sort_items found))))
            ≡ some bytes)
          × (m.manifest_hash ≡ codec.sha256 bytes)

  -- An oracle audit of this run that is sealed, passed without a finding and is of the raw artifacts
  -- as they are.
  pub record IsAudited (session : Option (List RawEntry → Option RawManifest)) (disk : Disk)
      : Type 0 where
    pub digest : String
    pub sealed : IsSealed codec "oracle-leakage-audit.json" disk digest
    pub report : Fields
    pub parsed : codec.loads sealed.content ≡ some (Json.object report)
    pub same_run : is_text (get "run_id" report) run_id ≡ true
    pub passed : is_text (get "status" report) "PASS" ≡ true
    pub no_findings : equals_number codec (get "finding_count" report) 0 ≡ true
    pub manifest : RawManifest
    pub current : IsCurrent session disk manifest
    pub of_current : is_text (get "raw_manifest_hash" report) manifest.manifest_hash ≡ true

  compute_raw_manifest→ :
      (session : Option (List RawEntry → Option RawManifest)) (disk : Disk) (m : RawManifest)
      → compute_raw_manifest codec run_id session disk ≡ ok m
      → IsCurrent session disk m
  unfolding compute_raw_manifest
  compute_raw_manifest→ (some build) disk m h =
      let (found, read, h') = >>=-ok (raw_entries codec run_id disk _) _ m h in
      record {
        found = found;
        entries = raw_entries→ disk _ found read;
        built = λ b e.
            subst (λ f. f (map entry_of (sort_items found)) ≡ some m) (same b e)
              (answered (build (map entry_of (sort_items found))) h');
        hashed = λ e. absurd (clash e);
      }
    where
      same : (b : List RawEntry → Option RawManifest) → some build ≡ some b → build ≡ b
      same b e = cc

      clash : ◌≡◌ {A = Option (List RawEntry → Option RawManifest)} (some build) none → ⊥
      clash e = cc

      answered : (o : Option RawManifest) → or_fail o StoreError.session_failed ≡ ok m → o ≡ some m
      answered none e = absurd (ground arith)
      answered (some x) e = ground arith
  compute_raw_manifest→ none disk m h =
      let (found, read, h') = >>=-ok (raw_entries codec run_id disk _) _ m h in
      let (hash, made, h'') =
        >>=-ok (digest_of codec (Json.array (to_items (map entry_json (sort_items found))))) _ m
          h' in
      let (bytes, text, h3) =
        >>=-ok
          (or_fail (codec.canonical (Json.array (to_items (map entry_json (sort_items found)))))
            StoreError.not_canonical_json)
          _ hash made in
      record {
        found = found;
        entries = raw_entries→ disk _ found read;
        built = λ b e. absurd (clash b e);
        hashed = λ e. (bytes, fine _ bytes text, hash_of hash h'' ∙ same hash bytes h3);
      }
    where
      clash :
          (b : List RawEntry → Option RawManifest)
          → ◌≡◌ {A = Option (List RawEntry → Option RawManifest)} none (some b)
          → ⊥
      clash b e = cc

      fine :
          (o : Option String) (bytes : String)
          → or_fail o StoreError.not_canonical_json ≡ ok bytes
          → o ≡ some bytes
      fine none bytes e = absurd (ground arith)
      fine (some x) bytes e = ground arith

      same : (hash bytes : String) → ok (codec.sha256 bytes) ≡ ok hash → hash ≡ codec.sha256 bytes
      same hash bytes e = ground arith

      hash_of :
          (hash : String) {es : List RawEntry}
          → ok (record { manifest_hash = hash; entries = es }) ≡ ok m
          → m.manifest_hash ≡ hash
      hash_of hash e = ground arith

  require_passing-IsAudited :
      (session : Option (List RawEntry → Option RawManifest)) (disk : Disk) (u : Unit {0})
      → require_passing_oracle_audit codec run_id session disk ≡ ok u
      → IsAudited session disk
  unfolding require_passing_oracle_audit
  require_passing-IsAudited session disk u h =
      elim (Stored-cases (verify_seal codec audit_path disk)) [
        | inl (e, broken) ↦ absurd (ground arith)
        | inr (digest, intact) ↦
            let seal = verify_seal→IsSealed codec audit_path disk digest intact in
            elim (Option-cases (codec.loads seal.content)) [
              | inl unreadable ↦
                  absurd
                    (clash (rw (intact, seal.there, unreadable, require_passing_oracle_audit) at h))
              | inr (payload, parsed) ↦ elim (Option-cases (as_object (some payload))) [
                | inl other ↦ absurd (
                    clash
                      (rw (intact, seal.there, parsed, other, require_passing_oracle_audit) at h))
                | inr (report, fields) ↦
                    let (same_run, passed, none_found, manifest, current, of_current) =
                      tests→ _ _ _ _ (λ m. is_text (get "raw_manifest_hash" report) m.manifest_hash)
                        u
                        (rw (intact, seal.there, parsed, fields, require_passing_oracle_audit) at
                          h) in
                    record {
                      digest = digest;
                      sealed = seal;
                      report = report;
                      parsed = parsed ∙ ap some (as_object→ payload report fields);
                      same_run = same_run;
                      passed = passed;
                      no_findings = none_found;
                      manifest = manifest;
                      current = compute_raw_manifest→ session disk manifest current;
                      of_current = of_current;
                    }
              ]
            ]
      ]
    where
      clash : {x : StoreError} → err x ≡ ok u → ⊥
      clash p = ground arith

  -- A score is persisted only for a raw artifact of its lane that is sealed, under a sealed oracle
  -- audit of this run that passed without a finding, and whose manifest hash is that of the raw
  -- artifacts as they are, each of which is sealed and of this run.
  pub persist_scored-IsAudited :
      (session : Option (List RawEntry → Option RawManifest)) (lane query_id path : String)
      (score : Json) (disk : Disk)
      → (persist_scored codec run_id max_response_bytes session lane query_id score disk).0
        ≡ ok path
      → IsAudited session disk
        × (digest : String) × IsSealed codec
            (("raw/" <> (if lane == "retrieval" then "retrieval" else "answers"))
              <> "/"
              <> query_id
              <> ".json")
            disk
            digest
  unfolding persist_scored scored_request
  persist_scored-IsAudited session lane query_id path score disk h =
      elim (Stored-cases
        (scored_request codec run_id max_response_bytes session lane query_id score disk)) [
          | inl (e, refused) ↦ absurd (clash (rw (refused, persist_scored, persist) at h))
          | inr (request, made) ↦
              let (u, audited, h1) =
                >>=-ok (require_passing_oracle_audit codec run_id session disk) _ request made in
              elim (Bool-cases (codec.is_query_id query_id)) [
                | inr unsafe ↦ absurd (refuses (rw unsafe at h1))
                | inl safe ↦
                    let (digest, intact, h2) =
                      >>=-ok
                        (verify_seal codec
                          (("raw/" <> lane_of codec run_id max_response_bytes lane)
                            <> "/"
                            <> query_id
                            <> ".json")
                          disk)
                        _ request (rw safe at h1) in
                    (
                      require_passing-IsAudited session disk u audited,
                      digest,
                      verify_seal→IsSealed codec _ disk digest intact,
                    )
              ]
        ]
    where
      clash : {x : StoreError} → err x ≡ ok path → ⊥
      clash p = ground arith

      refuses : {x : StoreError} {r : String × Json} → err x ≡ ok r → ⊥
      refuses p = ground arith
