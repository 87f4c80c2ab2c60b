-- ===== src/Freeze/Steps.antt =====
-- Inversion of the early returns of `verify_contract_freeze`.
use mesa_e2e_certification.Prelude.{
  ◌≡◌, ◌≢◌, subst, List, [], ◌∷◌, refl, Bool, true, false, Option, none, some, arith,
}
use mesa_e2e_certification.Freeze.{
  FreezeStatus, FreezeVerification, Note, Step, proceed, return, raised, ◌>>=◌, ◌>>◌, require,
  require_some, require_no_drift,
}

pub >>=-eq-proceed {ℓ κ} :
    {A : Type ℓ} {B : Type κ} (m : Step A) (f : A → Step B) {b : B}
    → (m >>= f) ≡ proceed b
    → (a : A) × (m ≡ proceed a) × (f a ≡ proceed b)
unfolding ◌>>=◌
>>=-eq-proceed (proceed a) f h = (a, refl, h)
>>=-eq-proceed (return v) f h = absurd (ground arith)
>>=-eq-proceed raised f h = absurd (ground arith)

pub >>-eq-proceed :
    {B : Type 0} (m : Step (Unit {0})) (k : Step B) {b : B}
    → (m >> k) ≡ proceed b
    → (u : Unit {0}) × (m ≡ proceed u) × (k ≡ proceed b)
unfolding ◌>>◌
>>-eq-proceed m k h = >>=-eq-proceed m (λ _. k) h

pub require-eq-proceed :
    (b : Bool) (status : FreezeStatus) (note : Note) {u : Unit {0}}
    → require b status note ≡ proceed u
    → b ≡ true
unfolding require
require-eq-proceed true status note h = refl
require-eq-proceed false status note h = absurd (ground arith)

pub require_some-eq-proceed {ℓ} :
    {A : Type ℓ} (o : Option A) (status : FreezeStatus) (note : Note) {a : A}
    → require_some o status note ≡ proceed a
    → o ≡ some a
unfolding require_some
require_some-eq-proceed none status note h = absurd (cc)
require_some-eq-proceed (some a) status note h = cc

pub require_no_drift-eq-proceed :
    (notes : List Note) {u : Unit {0}} → require_no_drift notes ≡ proceed u → notes ≡ []
unfolding require_no_drift
require_no_drift-eq-proceed [] h = refl
require_no_drift-eq-proceed (n ∷ ns) h = absurd (cc)

-- A step that returns early does not return a pass.
pub record Refuses {ℓ} {A : Type ℓ} (m : Step A) : Type ℓ where
  pub at : (v : FreezeVerification) → m ≡ return v → v.status ≢ FreezeStatus.pass

module _ {ℓ} {A : Type ℓ} where
  pub Refuses-proceed : (a : A) → Refuses (proceed a)
  Refuses-proceed a = record { at = λ v e. absurd (cc) }

  pub Refuses-raised : Refuses {A = A} raised
  Refuses-raised = record { at = λ v e. absurd (cc) }

  pub Refuses-require_some :
      (o : Option A) (status : FreezeStatus) (note : Note)
      → status ≢ FreezeStatus.pass
      → Refuses (require_some o status note)
  unfolding require_some
  Refuses-require_some none status note h = record { at = λ v e p. h (ground arith) }
  Refuses-require_some (some a) status note h = Refuses-proceed a

pub Refuses-require :
    (b : Bool) (status : FreezeStatus) (note : Note)
    → status ≢ FreezeStatus.pass
    → Refuses (require b status note)
unfolding require
Refuses-require true status note h = Refuses-proceed tt
Refuses-require false status note h = record { at = λ v e p. h (ground arith) }

pub Refuses-require_no_drift : (notes : List Note) → Refuses (require_no_drift notes)
unfolding require_no_drift
Refuses-require_no_drift [] = Refuses-proceed tt
Refuses-require_no_drift (n ∷ ns) = record { at = λ v e p. ground arith }

pub Refuses-bind {ℓ κ} :
    {A : Type ℓ} {B : Type κ} (m : Step A) (f : A → Step B)
    → Refuses m
    → ((a : A) → Refuses (f a))
    → Refuses (m >>= f)
unfolding ◌>>=◌
Refuses-bind (proceed a) f rm rf = rf a
Refuses-bind (return v) f rm rf = record { at = λ w e. rm.at w (ground arith) }
Refuses-bind raised f rm rf = Refuses-raised

pub Refuses-then {κ} :
    {B : Type κ} (m : Step (Unit {0})) (k : Step B) → Refuses m → Refuses k → Refuses (m >> k)
unfolding ◌>>◌
Refuses-then m k rm rk = Refuses-bind m (λ _. k) rm (λ _. rk)

pub invalid-ne-pass : FreezeStatus.freeze_invalid ≢ FreezeStatus.pass
invalid-ne-pass e = cc

pub identity_missing-ne-pass : FreezeStatus.freeze_repository_identity_missing ≢ FreezeStatus.pass
identity_missing-ne-pass e = cc

pub material_missing-ne-pass : FreezeStatus.freeze_missing_required_material ≢ FreezeStatus.pass
material_missing-ne-pass e = cc

pub missing-ne-pass : FreezeStatus.missing_freeze ≢ FreezeStatus.pass
missing-ne-pass e = cc

pub mismatch-ne-pass : FreezeStatus.freeze_hash_mismatch ≢ FreezeStatus.pass
mismatch-ne-pass e = cc

pub ruleset refusal_rules = (
  Refuses-proceed, Refuses-raised, Refuses-require_some, Refuses-require, Refuses-require_no_drift,
  Refuses-bind, Refuses-then, invalid-ne-pass, identity_missing-ne-pass, material_missing-ne-pass,
  missing-ne-pass, mismatch-ne-pass,
)

-- A step that goes on does so with a value that has the property.
pub record Ensures {ℓ κ} {A : Type ℓ} (P : A → Type κ) (m : Step A) : Type (ℓ ⊔ κ) where
  pub at : (a : A) → m ≡ proceed a → P a

module _ {ℓ κ} {A : Type ℓ} {P : A → Type κ} where
  pub Ensures-proceed : (a : A) → P a → Ensures P (proceed a)
  Ensures-proceed a p = record { at = λ b e. subst (Holds P) e p }
    where
      Holds : (A → Type κ) → Step A → Type κ
      Holds Q (proceed a') = Q a'
      Holds Q (return v) = Q a
      Holds Q raised = Q a

  pub Ensures-return : (v : FreezeVerification) → Ensures P (return v)
  Ensures-return v = record { at = λ a e. absurd (cc) }

  pub Ensures-raised : Ensures P raised
  Ensures-raised = record { at = λ a e. absurd (cc) }

module _ {ℓ κ μ} {A : Type ℓ} {B : Type κ} {Q : B → Type μ} where
  pub Ensures-bind {ν} :
      {P : A → Type ν} (m : Step A) (f : A → Step B)
      → Ensures P m
      → ((a : A) → P a → Ensures Q (f a))
      → Ensures Q (m >>= f)
  unfolding ◌>>=◌
  Ensures-bind (proceed a) f pm pf = pf a (pm.at a refl)
  Ensures-bind (return v) f pm pf = Ensures-return v
  Ensures-bind raised f pm pf = Ensures-raised

  pub Ensures-some :
      (o : Option A) (status : FreezeStatus) (note : Note) (f : A → Step B)
      → ((a : A) → o ≡ some a → Ensures Q (f a))
      → Ensures Q (require_some o status note >>= f)
  unfolding ◌>>=◌ require_some
  Ensures-some none status note f h = Ensures-return _
  Ensures-some (some a) status note f h = h a refl

pub Ensures-require {κ μ} :
    {B : Type κ} {Q : B → Type μ} (b : Bool) (status : FreezeStatus) (note : Note) (k : Step B)
    → (b ≡ true → Ensures Q k)
    → Ensures Q (require b status note >> k)
unfolding ◌>>◌ require
Ensures-require true status note k h = h refl
Ensures-require false status note k h = Ensures-return _
