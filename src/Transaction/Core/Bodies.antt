-- ===== src/Transaction/Core/Bodies.antt =====
-- What a body that returned has done, statement by statement.
use mesa_e2e_certification.Prelude.{◌≡◌, refl, Bool, true, false, Option, none, some, arith}
use mesa_e2e_certification.Models.{RunStatus}
use mesa_e2e_certification.Values.{Floats}
use mesa_e2e_certification.Lifecycle.{LifecycleError, RunLifecycle, transition}
use mesa_e2e_certification.Lifecycle.Steps.{transition_outcome, ◌⟶◌}
use mesa_e2e_certification.Transaction.{Problem, Services}
use mesa_e2e_certification.Transaction.Core.{
  Outcome, continued, returned, raised, refused, Body, ◌>>=◌, or_raise, raise_if, refuse_if, move,
  Run, or_lifecycle, call_to,
}

module _ {S A B : Type 0} where
  continued-returned :
      (o : Outcome A) (t : S) (f : A → Body S B) (b : B)
      → (continued o t f).0 ≡ returned b
      → (a : A) × (o ≡ returned a) × (continued o t f ≡ f a t)
  continued-returned (returned a) t f b h = (a, refl, refl)
  continued-returned (raised e) t f b h = absurd (ground arith)
  continued-returned (refused e) t f b h = absurd (ground arith)

  -- A sequence that returned: its first statement returned, and the rest went on from there.
  pub >>=-returned :
      (m : Body S A) (f : A → Body S B) (s : S) (b : B)
      → ((m >>= f) s).0 ≡ returned b
      → (a : A) × ((m s).0 ≡ returned a) × ((m >>= f) s ≡ f a (m s).1)
  >>=-returned m f s b h = continued-returned (m s).0 (m s).1 f b h

module _ {S A : Type 0} where
  pub or_raise-returned :
      (o : Option A) (problem : Problem) (s : S) (a : A)
      → (or_raise {S = S} o problem s).0 ≡ returned a
      → o ≡ some a
  or_raise-returned none problem s a h = absurd (ground arith)
  or_raise-returned (some x) problem s a h = ground arith

module _ {S : Type 0} where
  pub raise_if-returned :
      (b : Bool) (problem : Problem) (s : S) (u : Unit {0})
      → (raise_if {S = S} b problem s).0 ≡ returned u
      → b ≡ false
  raise_if-returned true problem s u h = absurd (ground arith)
  raise_if-returned false problem s u h = refl

  pub refuse_if-returned :
      (b : Bool) (problem : Problem) (s : S) (u : Unit {0})
      → (refuse_if {S = S} b problem s).0 ≡ returned u
      → b ≡ false
  refuse_if-returned true problem s u h = absurd (ground arith)
  refuse_if-returned false problem s u h = refl

or_lifecycle-returned :
    (e : Option LifecycleError) (u : Unit {0}) → or_lifecycle e ≡ returned u → e ≡ none
or_lifecycle-returned none u h = refl
or_lifecycle-returned (some e) u h = absurd (ground arith)

module _ {floats : Floats} {services : Services floats} where
  -- A transition that returned followed the diagram, and changed nothing but the lifecycle.
  pub move-returned :
      (status : RunStatus) (r : Run floats services) (u : Unit {0})
      → (move {services = services} status r).0 ≡ returned u
      → (s : RunLifecycle) × ((move {services = services} status r).1 ≡ record r { lifecycle = s })
        × (s.status ≡ status)
        × (r.lifecycle.status ⟶ status)
  unfolding move
  move-returned status r u h =
      let call = call_to floats services status r.world none in
      let (returns, moves, overflows, strays, keeps) =
        transition_outcome services.clock r.lifecycle call in
      let fine = or_lifecycle-returned (transition services.clock r.lifecycle call).1 u h in
      (_, refl, (moves fine).status, (returns.0 fine).0.0)
