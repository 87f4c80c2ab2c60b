-- ===== src/Artifacts/Sealed.antt =====
-- What the store keeps: written contents, their seals, and the order of audit and scores.
use Prim.Native.String.{count}
use text.Mathlib.TextLemmas
use mesa_e2e_certification.Prelude.{
  ◌+◌, String, ◌==◌, eq_iff, eq_refl, ◌≡◌, ◌⊎◌, refl, sym, ap, ◌∙◌, subst, inl, inr, Bool, true,
  false, none, some, ◌<>◌, List, [], ◌∷◌, arith, if◌then◌else◌, Bool-cases, Option-cases, lookup,
  insert, lookup-insert,
}
use mesa_e2e_certification.Json.{Json}
use mesa_e2e_certification.Artifacts.{
  StoreError, Stored, ok, err, ◌>>=◌, ◌>>◌, require, Disk, Codec, sidecar, seal_text, put, is_seal,
  verify_seal, write_immutable_json,
}

module _ {A B : Type 0} where
  -- A sequence that returned: its first part returned, and the rest went on from there.
  pub >>=-ok :
      (m : Stored A) (f : A → Stored B) (b : B)
      → (m >>= f) ≡ ok b
      → (a : A) × (m ≡ ok a) × (f a ≡ ok b)
  >>=-ok (ok a) f b h = (a, refl, h)
  >>=-ok (err e) f b h = absurd (ground arith)

pub Stored-cases :
    {A : Type 0} (m : Stored A) → ((e : StoreError) × (m ≡ err e)) ⊎ ((a : A) × (m ≡ ok a))
Stored-cases (ok a) = inr (a, refl)
Stored-cases (err e) = inl (e, refl)

pub sidecar_apart : (path : String) → (sidecar path == path) ≡ false
sidecar_apart path = elim (Bool-cases (sidecar path == path)) [
  | inr e ↦ e
  | inl e ↦ absurd (
      longer (
        sym (TextLemmas.length-append path ".SHA256")
        ∙ ap count ((eq_iff (sidecar path) path).0 e)))
]
  where
    longer : count path + 7 ≡ count path → ⊥
    longer e = omega (arith, e)

other : {A : Type 0} (b : Bool) (x y : A) → b ≡ false → (if b then x else y) ≡ y
other b x y h = rw h refl

chosen : {A : Type 0} (b : Bool) (x y : A) → b ≡ true → (if b then x else y) ≡ x
chosen b x y h = rw h refl

kept-cases :
    (b : Bool) (v : Stored String) (disk after : Disk)
    → (require b StoreError.new_bytes >> (v >>= λ _. ok disk)) ≡ ok after
    → (b ≡ true) × (digest : String) × (v ≡ ok digest) × (after ≡ disk)
kept-cases false v disk after h = absurd (ground arith)
kept-cases true (err e) disk after h = absurd (ground arith)
kept-cases true (ok digest) disk after h = (refl, digest, refl, ground arith)

-- A seal that verifies is the digest of the content.
verify_seal-digest :
    (codec : Codec) (path : String) (disk : Disk) (content digest : String)
    → lookup path disk ≡ some content
    → verify_seal codec path disk ≡ ok digest
    → digest ≡ codec.sha256 content
unfolding verify_seal
verify_seal-digest codec path disk content digest e h =
    elim (Option-cases (lookup (sidecar path) disk)) [
      | inl absent ↦ absurd (ground arith)
      | inr (seal, there) ↦ last _ (rw (e, there, verify_seal) at h)
    ]
  where
    last :
        (b : Bool)
        → (require b StoreError.artifact_mutated >>= λ _. ok (codec.sha256 content)) ≡ ok digest
        → digest ≡ codec.sha256 content
    last true h = ground arith
    last false h = absurd (ground arith)

-- The file is there with the digest of its content, and beside it a file of the digest and the name.
pub record IsSealed (codec : Codec) (path : String) (disk : Disk) (digest : String) : Type 0 where
  pub content : String
  pub there : lookup path disk ≡ some content
  pub of_content : digest ≡ codec.sha256 content
  pub seal : String
  pub beside : lookup (path <> ".SHA256") disk ≡ some seal
  pub says : codec.words seal ≡ digest ∷ codec.name path ∷ []

is_seal→ :
    (parts : List String) (name observed : String)
    → is_seal parts name observed ≡ true
    → parts ≡ observed ∷ name ∷ []
unfolding is_seal
is_seal→ [] name observed h = absurd (ground arith)
is_seal→ (digest ∷ []) name observed h = absurd (ground arith)
is_seal→ (digest ∷ file ∷ part ∷ parts) name observed h = absurd (ground arith)
is_seal→ (digest ∷ file ∷ []) name observed h =
    ap2 ((eq_iff digest observed).0 (ground arith)) ((eq_iff file name).0 (ground arith))
  where
    ap2 : {a b c d : String} → a ≡ b → c ≡ d → a ∷ c ∷ [] ≡ b ∷ d ∷ []
    ap2 p q = cc

pub verify_seal→IsSealed :
    (codec : Codec) (path : String) (disk : Disk) (digest : String)
    → verify_seal codec path disk ≡ ok digest
    → IsSealed codec path disk digest
unfolding verify_seal
verify_seal→IsSealed codec path disk digest h = elim (Option-cases (lookup path disk)) [
  | inl absent ↦ absurd (ground arith)
  | inr (content, there) ↦ elim (Option-cases (lookup (sidecar path) disk)) [
    | inl alone ↦ absurd (ground arith)
    | inr (seal, beside) ↦
        elim (Bool-cases (is_seal (codec.words seal) (codec.name path) (codec.sha256 content))) [
          | inr broken ↦ absurd (clash (rw (there, beside, broken, verify_seal) at h))
          | inl intact ↦
              let same = verify_seal-digest codec path disk content digest there h in
              record {
                content = content;
                there = there;
                of_content = same;
                seal = seal;
                beside = beside;
                says =
                    is_seal→ (codec.words seal) (codec.name path) (codec.sha256 content) intact
                    ∙ ap (λ d. d ∷ codec.name path ∷ []) (sym same);
              }
        ]
  ]
]
  where
    clash : {e : StoreError} → err e ≡ ok digest → ⊥
    clash p = ground arith

-- A content and the text of its seal verify.
seal-verifies :
    (codec : Codec) (path content : String) (disk : Disk)
    → lookup path disk ≡ some content
    → lookup (sidecar path) disk ≡ some (seal_text codec path content)
    → codec.words (seal_text codec path content) ≡ codec.sha256 content ∷ codec.name path ∷ []
    → verify_seal codec path disk ≡ ok (codec.sha256 content)
unfolding verify_seal is_seal
seal-verifies codec path content disk there seal split =
    rw (there, seal, split, eq_refl (codec.name path), eq_refl (codec.sha256 content)) refl

module _ (codec : Codec) (path : String) (payload : Json) (disk after : Disk) where
  -- A write that returned: the content was there with its seal, or it is there now with one.
  pub write-cases :
      write_immutable_json codec path payload disk ≡ ok after
      → (content : String) × (codec.dumps payload ≡ some content)
        × (((lookup path disk ≡ some content)
              × (verify_seal codec path disk ≡ ok (codec.sha256 content))
              × (after ≡ disk))
            ⊎ ((lookup path disk ≡ none) × (after ≡ put codec path content disk)))
  unfolding write_immutable_json
  write-cases h = elim (Option-cases (codec.dumps payload)) [
    | inl e ↦ absurd (ground arith)
    | inr (content, e) ↦ elim (Option-cases (lookup path disk)) [
      | inl absent ↦ (content, e, inr (absent, ground arith))
      | inr (present, there) ↦
          let (same, digest, verified, unchanged) =
            kept-cases (present == content) (verify_seal codec path disk) disk after
              (rw (e, there, write_immutable_json) at h) in
          let equal = (eq_iff present content).0 same in
          (
            content,
            e,
            inl (
              there ∙ ap some equal,
              verified
                  ∙ ap ok (
                      verify_seal-digest codec path disk present digest there verified
                      ∙ ap codec.sha256 equal),
              unchanged,
            ),
          )
    ]
  ]

  -- A file that is there before a write that returns is there after it with the same content,
  -- unless it is the sidecar of the path.
  pub write-keeps :
      (file content : String)
      → write_immutable_json codec path payload disk ≡ ok after
      → lookup file disk ≡ some content
      → (sidecar path == file) ≡ false
      → lookup file after ≡ some content
  write-keeps file content h there apart =
      let (serialized, e, cases) = write-cases h in
      elim cases [
        | inl (same, verified, unchanged) ↦ rw unchanged there
        | inr (absent, written) ↦ rw written (
            lookup-insert (sidecar path) file _ (insert path serialized disk)
            ∙ other (sidecar path == file) _ _ apart
            ∙ lookup-insert path file serialized disk
            ∙ other (path == file) _ _ (new_file absent)
            ∙ there)
      ]
    where
      clash : none ≡ some content → ⊥
      clash e = ground arith

      new_file : lookup path disk ≡ none → (path == file) ≡ false
      new_file absent = elim (Bool-cases (path == file)) [
        | inr e ↦ e
        | inl e ↦ absurd (
            clash (sym (subst (λ p. lookup p disk ≡ none) ((eq_iff path file).0 e) absent) ∙ there))
      ]

  write-verifies :
      (content : String)
      → codec.words (seal_text codec path content) ≡ codec.sha256 content ∷ codec.name path ∷ []
      → codec.dumps payload ≡ some content
      → write_immutable_json codec path payload disk ≡ ok after
      → (lookup path after ≡ some content)
        × (verify_seal codec path after ≡ ok (codec.sha256 content))
  write-verifies content split e h =
      let (serialized, e', cases) = write-cases h in
      let same = same_content serialized (sym e' ∙ e) in
      elim cases [
        | inl (there, verified, unchanged) ↦ (
          rw unchanged (there ∙ ap some same),
          rw unchanged (verified ∙ ap (λ c. ok (codec.sha256 c)) same),
        )
        | inr (absent, written) ↦
            rw (written, same)
              (
                content_there,
                seal-verifies codec path content (put codec path content disk) content_there
                    seal_there split,
              )
      ]
    where
      same_content : (c : String) → some c ≡ some content → c ≡ content
      same_content c e = ground arith

      content_there : lookup path (put codec path content disk) ≡ some content
      content_there =
          lookup-insert (sidecar path) path (seal_text codec path content)
            (insert path content disk)
          ∙ other (sidecar path == path) _ _ (sidecar_apart path)
          ∙ lookup-insert path path content disk
          ∙ chosen (path == path) _ _ (eq_refl path)

      seal_there :
          lookup (sidecar path) (put codec path content disk) ≡ some (seal_text codec path content)
      seal_there =
          lookup-insert (sidecar path) (sidecar path) (seal_text codec path content)
            (insert path content disk)
          ∙ chosen (sidecar path == sidecar path) _ _ (eq_refl (sidecar path))

  -- After a write that returned, the file holds the text of the payload, its seal verifies with the
  -- digest of the text, and the file beside it reads as this digest and the name of the file, where
  -- splitting two words that two spaces part, with a line end, gives back the words.
  pub write-IsSealed :
      (content : String)
      → codec.words (codec.sha256 content <> "  " <> codec.name path <> "\n")
        ≡ codec.sha256 content ∷ codec.name path ∷ []
      → codec.dumps payload ≡ some content
      → write_immutable_json codec path payload disk ≡ ok after
      → (lookup path after ≡ some content)
        × (verify_seal codec path after ≡ ok (codec.sha256 content))
        × IsSealed codec path after (codec.sha256 content)
  write-IsSealed content split e h =
      let (there, verified) = write-verifies content split e h in
      (there, verified, verify_seal→IsSealed codec path after (codec.sha256 content) verified)
