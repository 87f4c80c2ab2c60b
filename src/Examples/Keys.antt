-- ===== src/Examples/Keys.antt =====
-- Values with a forbidden key.
use mesa_e2e_certification.Prelude.{
  sort_items, String, ◌≡◌, ◌↔◌, refl, true, none, some, [], ◌∷◌, ◌==◌, is_some, elem,
}
use mesa_e2e_certification.Oracle.{Matching, check_empty, oracle_values, audit_oracle_surfaces}
use mesa_e2e_certification.Oracle.Leaks.{Leaks, audit_pass_iff}
use mesa_e2e_certification.Json.{Json, Fields, nil, cons, end, field}
use mesa_e2e_certification.Secrets.{
  secret_field_names, forbidden_holdout_keys, find_secret_field, find_forbidden_key,
}
use mesa_e2e_certification.Secrets.Found.{HasKey, secret_field_iff, forbidden_key_iff}

abbrev leak : Json
leak = Json.object (
    field "provider" (Json.array (cons (Json.object (field "api_key" (Json.string "k") end)) nil))
      end)

secret_field_iff_example :
    (is_some (find_secret_field (λ k. k) (λ k. k) leak) ≡ true)
    ↔ ((k : String) × HasKey (λ k. elem k secret_field_names) k leak)
secret_field_iff_example = secret_field_iff (λ k. k) (λ k. k) leak refl refl

forbidden_key_iff_example :
    (is_some (find_forbidden_key (λ k. k) leak) ≡ true)
    ↔ ((k : String) × HasKey (λ k. elem k forbidden_holdout_keys) k leak)
forbidden_key_iff_example = forbidden_key_iff (λ k. k) leak refl

abbrev word_matching : Matching
word_matching = record { search = λ p t. p == t; escape = λ t. t; casefold = λ t. t }

abbrev surfaces : Fields
surfaces = field "prompt" (Json.string "What is the capital?") end

audit_pass_iff_example :
    (check_empty word_matching surfaces none ≡ [])
    × (¬ Leaks word_matching (oracle_values word_matching ("Ankara" ∷ [])) (Json.object surfaces))
unfolding audit_oracle_surfaces sort_items
audit_pass_iff_example =
    (audit_pass_iff word_matching surfaces ("Ankara" ∷ []) none (some "run-1")).0 refl
