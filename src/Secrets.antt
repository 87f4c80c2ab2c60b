-- ===== src/Secrets.antt =====
-- The searches for forbidden keys: `_find_secret_field` of harness/operations.py, and
-- `_find_forbidden_key` of harness/gt_governance.py.
pub mod Found
use mesa_e2e_certification.Prelude.{
  String, ◌==◌, Bool, true, false, Option, none, some, List, [], ◌∷◌, elem, if◌then◌else◌,
}
use mesa_e2e_certification.Json.{Json, Items, nil, cons, Fields, end, field}

-- SECRET_FIELD_NAMES
abbrev pub secret_field_names : List String
secret_field_names =
    "access_token" ∷ "api_key" ∷ "authorization" ∷ "bearer_token" ∷ "password" ∷ "refresh_token"
    ∷ "secret" ∷ []

-- FORBIDDEN_HOLDOUT_KEYS
abbrev pub forbidden_holdout_keys : List String
forbidden_holdout_keys =
    "qrel" ∷ "qrels" ∷ "query" ∷ "queries" ∷ "query_id" ∷ "question" ∷ "questions"
    ∷ "expected_answer" ∷ "required_facts" ∷ "gold_evidence_ids" ∷ []

-- `found or rest`: an empty text counts as nothing found.
unfoldable pub or_else : Option String → Option String → Option String
or_else none rest = rest
or_else (some k) rest = if k == "" then rest else some k

-- Both searches, for the test of a key that they make.
module _ (is_forbidden : String → Bool) where
  unfoldable mutual
    pub find_key : Json → Option String
    find_key (Json.object fs) = find_field fs
    find_key (Json.array xs) = find_item xs
    find_key Json.null = none
    find_key (Json.bool b) = none
    find_key (Json.number n) = none
    find_key (Json.string s) = none

    pub find_item : Items → Option String
    find_item nil = none
    find_item (cons x xs) = or_else (find_key x) (find_item xs)

    pub find_field : Fields → Option String
    find_field end = none
    find_field (field k v fs) =
        if is_forbidden k then some k else or_else (find_key v) (find_field fs)

-- `casefold` is the method of `str`, and `underscored` replaces `-` by `_`.
unfoldable pub find_secret_field : (String → String) → (String → String) → Json → Option String
find_secret_field casefold underscored =
    find_key (λ k. elem (underscored (casefold k)) secret_field_names)

unfoldable pub find_forbidden_key : (String → String) → Json → Option String
find_forbidden_key casefold = find_key (λ k. elem (casefold k) forbidden_holdout_keys)
