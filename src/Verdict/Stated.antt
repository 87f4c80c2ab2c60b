-- ===== src/Verdict/Stated.antt =====
-- What a run manifest with a valid lifecycle states.
use mesa_e2e_certification.Prelude.{
  String, ◌==◌, eq_iff, ◌≡◌, refl, ap, ◌∙◌, Bool, true, false, Bool-cases, inl, inr, sym, not, ◌&&◌,
  ◌≢◌, elem, subst, Option, none, some, List, [], ◌∷◌, arith,
}
use mesa_e2e_certification.Json.{Json, Items, Fields, get}
use mesa_e2e_certification.Verdict.{lifecycle_is_valid, is_one_of, is_false, is_unhashable}

-- The status of the manifest is one of a finished run.
pub data IsFinished : String → Type 0 where
  native : IsFinished "PASS_NATIVE"
  finalizing : IsFinished "FINALIZING"
  completed : IsFinished "COMPLETED"

-- What the manifest may hold as its lifecycle status: anything but the statuses of a run that did
-- not succeed, lists and objects.
pub data IsLost : Json → Type 0 where
  fail : IsLost (Json.string "FAIL")
  invalidated : IsLost (Json.string "INVALIDATED")
  blocked : IsLost (Json.string "BLOCKED")
  invalid : IsLost (Json.string "INVALID")
  list : (xs : Items) → IsLost (Json.array xs)
  dict : (fs : Fields) → IsLost (Json.object fs)

-- The manifest states a finished run, does not say that its lifecycle is invalid, and states no
-- lost lifecycle status.
pub record StatesSuccess (manifest : Option Json) : Type 0 where
  pub fields : Fields
  pub there : manifest ≡ some (Json.object fields)
  pub status : String
  pub stated : get "status" fields ≡ some (Json.string status)
  pub finished : IsFinished status
  pub not_false : get "lifecycle_valid" fields ≢ some (Json.bool false)
  pub not_lost : (j : Json) → get "lifecycle_status" fields ≡ some j → IsLost j → ⊥

finished→ :
    (s : String) → elem s ("PASS_NATIVE" ∷ "FINALIZING" ∷ "COMPLETED" ∷ []) ≡ true → IsFinished s
finished→ s h = elim (Bool-cases ("PASS_NATIVE" == s)) [
  | inl e ↦ subst IsFinished ((eq_iff "PASS_NATIVE" s).0 e) native
  | inr a ↦ elim (Bool-cases ("FINALIZING" == s)) [
    | inl e ↦ subst IsFinished ((eq_iff "FINALIZING" s).0 e) finalizing
    | inr b ↦ elim (Bool-cases ("COMPLETED" == s)) [
      | inl e ↦ subst IsFinished ((eq_iff "COMPLETED" s).0 e) completed
      | inr c ↦ absurd (ground arith)
    ]
  ]
]

lost_tests : Option Json → Bool
lost_tests status =
    not (is_unhashable status)
    && not (is_one_of status ("FAIL" ∷ "INVALIDATED" ∷ "BLOCKED" ∷ "INVALID" ∷ []))

IsLost→ : (j : Json) → IsLost j → lost_tests (some j) ≡ false
unfolding lost_tests
IsLost→ j (list xs) = refl
IsLost→ j (dict fs) = refl
IsLost→ j fail = refl
IsLost→ j e = refl

lost→ : (o : Option Json) → ((j : Json) → o ≡ some j → IsLost j → ⊥) → lost_tests o ≡ true
unfolding lost_tests
lost→ none h = refl
lost→ (some Json.null) h = refl
lost→ (some (Json.bool b)) h = refl
lost→ (some (Json.number n)) h = refl
lost→ (some (Json.array xs)) h = absurd (h _ refl (list xs))
lost→ (some (Json.object fs)) h = absurd (h _ refl (dict fs))
lost→ (some (Json.string s)) h = elim (Bool-cases ("FAIL" == s)) [
  | inl e ↦ absurd (h _ (ap (λ t. some (Json.string t)) (sym ((eq_iff "FAIL" s).0 e))) fail)
  | inr a ↦ elim (Bool-cases ("INVALIDATED" == s)) [
    | inl e ↦
        absurd
          (h _ (ap (λ t. some (Json.string t)) (sym ((eq_iff "INVALIDATED" s).0 e))) invalidated)
    | inr b ↦ elim (Bool-cases ("BLOCKED" == s)) [
      | inl e ↦
          absurd (h _ (ap (λ t. some (Json.string t)) (sym ((eq_iff "BLOCKED" s).0 e))) blocked)
      | inr c ↦ elim (Bool-cases ("INVALID" == s)) [
        | inl e ↦
            absurd (h _ (ap (λ t. some (Json.string t)) (sym ((eq_iff "INVALID" s).0 e))) invalid)
        | inr d ↦ ground arith
      ]
    ]
  ]
]

status→ :
    (o : Option Json) (values : List String)
    → is_one_of o values ≡ true
    → (s : String) × (o ≡ some (Json.string s)) × (elem s values ≡ true)
status→ none values h = absurd (ground arith)
status→ (some (Json.string s)) values h = (s, refl, h)
status→ (some Json.null) values h = absurd (ground arith)
status→ (some (Json.bool b)) values h = absurd (ground arith)
status→ (some (Json.number n)) values h = absurd (ground arith)
status→ (some (Json.array xs)) values h = absurd (ground arith)
status→ (some (Json.object fs)) values h = absurd (ground arith)

false→ : (o : Option Json) → is_false o ≡ false → o ≢ some (Json.bool false)
false→ o h e = ground (arith, ap is_false e)

→false : (o : Option Json) → o ≢ some (Json.bool false) → is_false o ≡ false
→false none h = refl
→false (some (Json.bool true)) h = refl
→false (some (Json.bool false)) h = absurd (h refl)
→false (some Json.null) h = refl
→false (some (Json.number n)) h = refl
→false (some (Json.string n)) h = refl
→false (some (Json.array xs)) h = refl
→false (some (Json.object fs)) h = refl

finished-elem :
    {s : String} → IsFinished s → elem s ("PASS_NATIVE" ∷ "FINALIZING" ∷ "COMPLETED" ∷ []) ≡ true
finished-elem native = refl
finished-elem finalizing = refl
finished-elem completed = refl

pub valid→ : (manifest : Option Json) → lifecycle_is_valid manifest ≡ true → StatesSuccess manifest
unfolding lifecycle_is_valid lost_tests
valid→ (some (Json.object m)) h =
    let (s, stated, known) =
      status→ (get "status" m) ("PASS_NATIVE" ∷ "FINALIZING" ∷ "COMPLETED" ∷ []) (ground arith) in
    record {
      fields = m;
      there = refl;
      status = s;
      stated = stated;
      finished = finished→ s known;
      not_false = false→ (get "lifecycle_valid" m) (ground arith);
      not_lost = λ j e lost. clash (IsLost→ j lost) (ap lost_tests (sym e) ∙ passed);
    }
  where
    passed : lost_tests (get "lifecycle_status" m) ≡ true
    passed = ground arith

    clash : {b : Bool} → b ≡ false → b ≡ true → ⊥
    clash e f = ground arith
valid→ none h = absurd (ground arith)
valid→ (some Json.null) h = absurd (ground arith)
valid→ (some (Json.bool b)) h = absurd (ground arith)
valid→ (some (Json.number n)) h = absurd (ground arith)
valid→ (some (Json.string s)) h = absurd (ground arith)
valid→ (some (Json.array xs)) h = absurd (ground arith)

pub →valid : (manifest : Option Json) → StatesSuccess manifest → lifecycle_is_valid manifest ≡ true
unfolding lifecycle_is_valid lost_tests
→valid manifest m =
    rw (m.there, lifecycle_is_valid, m.stated)
      (ground (
        arith,
        finished-elem m.finished,
        →false (get "lifecycle_valid" m.fields) m.not_false,
        lost→ (get "lifecycle_status" m.fields) m.not_lost,
      ))
