-- ===== src/Examples/Reuses.antt =====
-- An artifact of an earlier run that an authorization covers.
use mesa_e2e_certification.Prelude.{
  insert, ◌==◌, ◌≡◌, refl, inl, true, false, none, some, [], ◌∷◌, lookup, if◌then◌else◌,
}
use mesa_e2e_certification.Json.{members, Json, Fields, to_fields}
use mesa_e2e_certification.Evidence.{
  is_covered, Texts, File, Reading, Authorization, validate_run_id_consistency,
}
use mesa_e2e_certification.Evidence.Covered.{Names, in_payload, IsReused, passing-IsReused}

abbrev old_fields : Fields
old_fields = to_fields (("run_id", Json.string "run-1") ∷ [])

abbrev texts : Texts
texts = record {
  loads = λ t. if t == "old" then some (Json.object old_fields) else none;
  splitlines = λ t. t ∷ [];
  strip = λ t. t;
  fnmatch = λ name pattern. name == pattern;
  ends_with = λ text suffix. false;
  repr = λ x. "";
  is_zero = λ t. t == "0";
  decimal = λ n. "1";
}

abbrev old_file : File
old_file = record {
  relative = "raw/old.json";
  name = "old.json";
  sha256 = "ab";
  reading = Reading.content "old";
}

abbrev authorization : Authorization
authorization =
    ("path", "raw/old.json")
    ∷ ("source_run_id", "run-1")
    ∷ ("reuse_reason", "baseline")
    ∷ ("expected_sha256", "ab")
    ∷ ("authorization", "owner")
    ∷ []

old_passes :
    (validate_run_id_consistency texts "run-2" (old_file ∷ []) (authorization ∷ []) []).passes
    ≡ true
unfolding validate_run_id_consistency lookup members to_fields insert is_covered
old_passes = refl

-- The same artifact with another content.
other_content :
    (validate_run_id_consistency texts "run-2"
      (record old_file { sha256 = "cd" } ∷ [])
      (authorization ∷ [])
      []).passes
    ≡ false
unfolding validate_run_id_consistency lookup members to_fields insert is_covered
other_content = refl

old_file-Names : Names texts old_file "run-1"
unfolding lookup members to_fields
old_file-Names = in_payload "old" old_fields (Json.string "run-1") refl refl refl (inl refl) refl

passing-IsReused_example : IsReused texts old_file "run-1" (authorization ∷ [])
passing-IsReused_example =
    passing-IsReused texts "run-2" (old_file ∷ []) (authorization ∷ []) [] old_file "run-1"
      old_passes (inl refl) old_file-Names refl
