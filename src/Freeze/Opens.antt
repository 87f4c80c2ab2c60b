-- ===== src/Freeze/Opens.antt =====
-- What `verify_contract_freeze` reads of the freeze file and of its checksum file.
use mesa_e2e_certification.Prelude.{
  String, ◌==◌, eq_iff, eq_refl, ◌≡◌, refl, sym, ap, ◌∙◌, ◌&&◌, Bool, true, some, List, [], ◌∷◌,
  arith, inl, inr, Bool-cases,
}
use mesa_e2e_certification.Json.{Json}
use mesa_e2e_certification.Freeze.{
  Files, proceed, ◌>>=◌, ◌>>◌, require, require_some, expected_digest, open_freeze,
}
use mesa_e2e_certification.Freeze.Steps.{
  >>=-eq-proceed, >>-eq-proceed, require-eq-proceed, require_some-eq-proceed,
}

module _ (files : Files) (freeze checksum : files.FilePath) (payload : Json) where
  open files use {is_file, sha256, read_text, name, loads, words}

  -- The two files are there, the checksum file reads as the digest and the name of the freeze file,
  -- the digest is that of the freeze file, and the freeze file parses.
  pub record IsOpened : Type 0 where
    pub freeze_there : is_file freeze ≡ true
    pub checksum_there : is_file checksum ≡ true
    pub seal : String
    pub seal_read : read_text checksum ≡ some seal
    pub digest : String
    pub says : words seal ≡ digest ∷ name freeze ∷ []
    pub same : sha256 freeze ≡ some digest
    pub content : String
    pub read : read_text freeze ≡ some content
    pub parsed : loads content ≡ some payload

  expected→ :
      (parts : List String) (digest : String)
      → expected_digest files parts freeze ≡ some digest
      → parts ≡ digest ∷ name freeze ∷ []
  unfolding expected_digest
  expected→ [] digest h = absurd (ground arith)
  expected→ (d ∷ []) digest h = absurd (ground arith)
  expected→ (d ∷ f ∷ x ∷ xs) digest h = absurd (ground arith)
  expected→ (d ∷ f ∷ []) digest h = elim (Bool-cases (f == name freeze)) [
    | inr other ↦ absurd (ground arith)
    | inl same ↦ pair (ground arith) ((eq_iff f (name freeze)).0 same)
  ]
    where
      pair : {a b x y : String} → a ≡ b → x ≡ y → a ∷ x ∷ [] ≡ b ∷ y ∷ []
      pair p q = cc

  pub open_freeze→ : open_freeze files freeze checksum ≡ proceed payload → IsOpened
  unfolding open_freeze
  open_freeze→ h =
      let (u1, there, h1) = >>-eq-proceed (require (is_file freeze && is_file checksum) _ _) _ h in
      let (seal, r, h2) = >>=-eq-proceed (require_some (read_text checksum) _ _) _ h1 in
      let (digest, e, h3) =
        >>=-eq-proceed (require_some (expected_digest files (words seal) freeze) _ _) _ h2 in
      let (observed, o, h4) = >>=-eq-proceed (require_some (sha256 freeze) _ _) _ h3 in
      let (u2, same, h5) = >>-eq-proceed (require (digest == observed) _ _) _ h4 in
      let (content, c, h6) = >>=-eq-proceed (require_some (read_text freeze) _ _) _ h5 in
      record {
        freeze_there = left (is_file freeze) _ (require-eq-proceed _ _ _ there);
        checksum_there = right (is_file freeze) _ (require-eq-proceed _ _ _ there);
        seal = seal;
        seal_read = require_some-eq-proceed _ _ _ r;
        digest = digest;
        says = expected→ (words seal) digest (require_some-eq-proceed _ _ _ e);
        same =
            require_some-eq-proceed _ _ _ o
            ∙ ap some (sym ((eq_iff digest observed).0 (require-eq-proceed _ _ _ same)));
        content = content;
        read = require_some-eq-proceed _ _ _ c;
        parsed = require_some-eq-proceed _ _ _ h6;
      }
    where
      left : (a b : Bool) → (a && b) ≡ true → a ≡ true
      left a b p = ground arith

      right : (a b : Bool) → (a && b) ≡ true → b ≡ true
      right a b p = ground arith

  pub →open_freeze : IsOpened → open_freeze files freeze checksum ≡ proceed payload
  unfolding open_freeze ◌>>=◌ ◌>>◌ require require_some expected_digest
  →open_freeze o =
      rw
        (
          o.freeze_there,
          o.checksum_there,
          o.seal_read,
          o.says,
          eq_refl (name freeze),
          o.same,
          eq_refl o.digest,
          o.read,
          o.parsed,
        )
        refl
