-- ===== src/Freeze/Payload.antt =====
-- What a freeze payload that is accepted contains.
use mesa_e2e_certification.Prelude.{
  All-map, String, eq_iff, ◌≡◌, refl, ◌∙◌, ap, sym, Bool, true, false, List, [], ◌∷◌, map, arith,
  All, Dict, keys, elem, subset, Nodup, is_empty, is_empty-difference, difference,
}
use mesa_e2e_certification.Json.{Json, members, elements}
use mesa_e2e_certification.Freeze.{
  proceed, Material, Contract, is_repository_sha, is_material_sha, check_sha, check_shas,
  check_material, check_materials, categories, check_payload, mandatory_repositories,
  mandatory_material_categories,
}
use mesa_e2e_certification.Freeze.Steps.{
  Ensures, Ensures-proceed, Ensures-bind, Ensures-some, Ensures-require,
}

abbrev pub paths : List Material → List String
paths ms = map (λ m. m.path) ms

-- The repositories and materials of a freeze are complete, distinct and well formed.
pub record IsComplete (c : Contract) : Type 0 where
  pub repositories : subset mandatory_repositories (keys c.repositories) ≡ true
  pub repository_shas : All (λ e. is_repository_sha e.1 ≡ true) c.repositories
  pub categories : subset mandatory_material_categories (map (λ m. m.category) c.materials) ≡ true
  pub distinct : Nodup (paths c.materials)
  pub material_shas : All (λ m. is_material_sha m.sha256 ≡ true) c.materials

check_sha-Ensures :
    (name : String) (sha : Json) → Ensures (λ s. is_repository_sha s ≡ true) (check_sha name sha)
unfolding check_sha
check_sha-Ensures name sha =
    Ensures-some _ _ _ _ λ s _. Ensures-require _ _ _ _ λ valid. Ensures-proceed s valid

abbrev SameKeys : Dict Json → Dict String → Type 0
SameKeys d e = (keys e ≡ keys d) × All (λ p. is_repository_sha p.1 ≡ true) e

check_shas-Ensures : (d : Dict Json) → Ensures (SameKeys d) (check_shas d)
unfolding check_shas
check_shas-Ensures [] = Ensures-proceed [] (refl, tt)
check_shas-Ensures ((name, sha) ∷ d) =
    Ensures-bind (check_sha name sha) _ (check_sha-Ensures name sha) λ s valid.
      Ensures-bind (check_shas d) _ (check_shas-Ensures d)
        λ rest (same, all_valid). Ensures-proceed _ (ap (λ ks. name ∷ ks) same, (valid, all_valid))

abbrev IsNew : List String → Material → Type 0
IsNew seen m = (elem m.path seen ≡ false) × (is_material_sha m.sha256 ≡ true)

check_material-Ensures :
    (seen : List String) (item : Json) → Ensures (IsNew seen) (check_material seen item)
unfolding check_material
check_material-Ensures seen item = Ensures-some _ _ _ _ λ fs _. Ensures-some _ _ _ _ λ category _.
    Ensures-some _ _ _ _ λ path _. Ensures-some _ _ _ _ λ sha _.
      Ensures-require _ _ _ _
        λ valid. Ensures-require _ _ _ _ λ new. Ensures-proceed _ (ground arith, valid)

abbrev AreNew : List String → List Material → Type 0
AreNew seen ms = Nodup (paths ms) × All (IsNew seen) ms

unseen :
    (p : String) (seen : List String) (ms : List Material)
    → All (IsNew (p ∷ seen)) ms
    → (elem p (paths ms) ≡ false) × All (IsNew seen) ms
unseen p seen [] h = (refl, tt)
unseen p seen (m ∷ ms) ((new, valid), others) =
    let (absent, rest) = unseen p seen ms others in
    (ground (arith, eq_iff p m.path, eq_iff m.path p), ((ground arith, valid), rest))

AreNew-cons :
    (seen : List String) (m : Material) (ms : List Material)
    → IsNew seen m
    → AreNew (m.path ∷ seen) ms
    → AreNew seen (m ∷ ms)
AreNew-cons seen m ms new (nodup, others) =
    let (absent, rest) = unseen m.path seen ms others in ((absent, nodup), (new, rest))

check_materials-Ensures :
    (items : List Json) (seen : List String) → Ensures (AreNew seen) (check_materials seen items)
unfolding check_materials
check_materials-Ensures [] seen = Ensures-proceed [] (tt, tt)
check_materials-Ensures (item ∷ items) seen =
    Ensures-bind (check_material seen item) _ (check_material-Ensures seen item) λ m new.
      Ensures-bind (check_materials (m.path ∷ seen) items) _
        (check_materials-Ensures items (m.path ∷ seen))
        λ ms others. Ensures-proceed (m ∷ ms) (AreNew-cons seen m ms new others)

payload-IsComplete :
    (shas : Dict Json) (repositories : Dict String) (materials : List Material)
    → is_empty (difference mandatory_repositories (keys shas)) ≡ true
    → SameKeys shas repositories
    → AreNew [] materials
    → is_empty (difference mandatory_material_categories (categories materials)) ≡ true
    → IsComplete (record { repositories = repositories; materials = materials })
payload-IsComplete shas repositories materials all_there valid new none_absent = record {
  repositories =
      ap (subset mandatory_repositories) valid.0
      ∙ sym (is_empty-difference mandatory_repositories (keys shas))
      ∙ all_there;
  repository_shas = valid.1;
  categories =
      sym (is_empty-difference mandatory_material_categories (categories materials)) ∙ none_absent;
  distinct = new.0;
  material_shas = All-map (λ m n. n.1) materials new.1;
}

check_payload-Ensures :
    (is_blank : String → Bool) (payload : Json)
    → Ensures IsComplete (check_payload is_blank payload)
unfolding check_payload
check_payload-Ensures is_blank payload = Ensures-some _ _ _ _ λ fs _. Ensures-require _ _ _ _ λ _.
    Ensures-require _ _ _ _ λ _. Ensures-some _ _ _ _ λ run_id _. Ensures-require _ _ _ _ λ _.
      Ensures-some _ _ _ _ λ shas _. Ensures-require _ _ _ _ λ all_there.
        Ensures-bind (check_shas (members shas)) _ (check_shas-Ensures (members shas))
          λ repositories valid. Ensures-some _ _ _ _ λ items _.
            Ensures-bind (check_materials [] (elements items)) _
              (check_materials-Ensures (elements items) [])
              λ materials new. Ensures-require _ _ _ _ λ none_absent. Ensures-proceed _ (
                payload-IsComplete (members shas) repositories materials all_there valid new
                  none_absent)

-- Every freeze payload that is accepted freezes the three mandatory repositories and the ten
-- mandatory categories of material, with well-formed SHAs, and no path twice.
pub accepted-IsComplete :
    (is_blank : String → Bool) (payload : Json) (c : Contract)
    → check_payload is_blank payload ≡ proceed c
    → IsComplete c
accepted-IsComplete is_blank payload c h = (check_payload-Ensures is_blank payload).at c h
