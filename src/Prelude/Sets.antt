-- ===== src/Prelude/Sets.antt =====
-- Python's sets of strings, as lists that are read up to membership, and `sorted`.
use Prim.Native.Nat.{◌≤◌}
use Prim.Native.String.{String, compare}
use mathlib.Core.Path.{◌≡◌, refl, sym, ap, ◌∙◌}
use mathlib.Core.Bool.{Bool, true, false, not, ◌||◌, ◌&&◌}
use mathlib.Core.Logic.{inl, inr}
use mathlib.Core.List.{List, [], ◌∷◌}
use text.Mathlib.Text.{◌==◌, is_le}
use text.Mathlib.TextEquality.{eq_iff}
use native.Mathlib.Omega.{arith}
use mesa_e2e_certification.Prelude.Tests.{if◌then◌else◌, eqb, Bool-cases}
use mesa_e2e_certification.Prelude.Lists.{length, is_empty, any, all, filter, Member}

-- `s in xs`
abbrev pub elem : String → List String → Bool
elem s xs = any (λ t. t == s) xs

-- `xs <= ys` of sets
abbrev pub subset : List String → List String → Bool
subset xs ys = all (λ x. elem x ys) xs

-- `xs == ys` of sets
abbrev pub same_set : List String → List String → Bool
same_set xs ys = subset xs ys && subset ys xs

-- `xs & ys` of sets
abbrev pub intersection : List String → List String → List String
intersection xs ys = filter (λ x. elem x ys) xs

-- `xs - ys` of sets
abbrev pub difference : List String → List String → List String
difference xs ys = filter (λ x. not (elem x ys)) xs

-- `set(xs)`: one occurrence of each member is kept.
unfoldable pub to_set : List String → List String
to_set [] = []
to_set (x ∷ xs) = let rest = to_set xs in if elem x xs then rest else x ∷ rest

abbrev pub Nodup : List String → Type 0
Nodup [] = Unit
Nodup (x ∷ xs) = (elem x xs ≡ false) × Nodup xs

unfoldable pub insert_sorted : String → List String → List String
insert_sorted x [] = x ∷ []
insert_sorted x (y ∷ ys) =
    let rest = insert_sorted x ys in if is_le (compare x y) then x ∷ y ∷ ys else y ∷ rest

-- `sorted(xs)`: texts are compared by code points.
unfoldable pub sorted : List String → List String
unfolding insert_sorted
sorted [] = []
sorted (x ∷ xs) = insert_sorted x (sorted xs)

is_empty-insert_sorted : (x : String) (ys : List String) → is_empty (insert_sorted x ys) ≡ false
unfolding insert_sorted
is_empty-insert_sorted x [] = refl
is_empty-insert_sorted x (y ∷ ys) = ground arith

pub is_empty-sorted : (xs : List String) → is_empty (sorted xs) ≡ is_empty xs
unfolding sorted
is_empty-sorted [] = refl
is_empty-sorted (x ∷ xs) = is_empty-insert_sorted x (sorted xs)

elem-insert_sorted :
    (s x : String) (ys : List String) → elem s (insert_sorted x ys) ≡ (x == s || elem s ys)
unfolding insert_sorted
elem-insert_sorted s x [] = refl
elem-insert_sorted s x (y ∷ ys) = ground (arith, elem-insert_sorted s x ys)

pub elem-sorted : (s : String) (xs : List String) → elem s (sorted xs) ≡ elem s xs
unfolding sorted
elem-sorted s [] = refl
elem-sorted s (x ∷ xs) = ground (arith, elem-insert_sorted s x (sorted xs), elem-sorted s xs)

pub length-to_set : (xs : List String) → length (to_set xs) ≤ length xs
unfolding to_set
length-to_set [] = omega arith
length-to_set (x ∷ xs) = ground (arith, length-to_set xs)

-- `len(xs) == len(set(xs))` decides that nothing occurs twice.
pub length-to_set→Nodup :
    (xs : List String) → eqb (length xs) (length (to_set xs)) ≡ true → Nodup xs
unfolding to_set
length-to_set→Nodup [] h = tt
length-to_set→Nodup (x ∷ xs) h =
    (ground (arith, length-to_set xs), length-to_set→Nodup xs (ground (arith, length-to_set xs)))

pub Nodup→length-to_set :
    (xs : List String) → Nodup xs → eqb (length xs) (length (to_set xs)) ≡ true
unfolding to_set
Nodup→length-to_set [] h = refl
Nodup→length-to_set (x ∷ xs) h = ground (arith, Nodup→length-to_set xs h.1, h.0)

pub elem-to_set : (s : String) (xs : List String) → elem s (to_set xs) ≡ elem s xs
unfolding to_set
elem-to_set s [] = refl
elem-to_set s (x ∷ xs) = ground (arith, elem-to_set s xs, eq_iff x s)

-- `not (xs - ys)` is `xs <= ys`.
pub is_empty-difference : (xs ys : List String) → is_empty (difference xs ys) ≡ subset xs ys
is_empty-difference [] ys = refl
is_empty-difference (x ∷ xs) ys = ground (arith, is_empty-difference xs ys)

pub elem_of_Member : (s : String) (xs : List String) → Member s xs → elem s xs ≡ true
elem_of_Member s [] m = absurd (m tt)
elem_of_Member s (x ∷ xs) (inl e) = ground (arith, eq_iff x s)
elem_of_Member s (x ∷ xs) (inr m) = ground (arith, elem_of_Member s xs m)

pub any-elem :
    (p : String → Bool) (xs : List String) (s : String)
    → any p xs ≡ false
    → elem s xs ≡ true
    → p s ≡ false
any-elem p [] s h e = absurd (ground arith)
any-elem p (x ∷ xs) s h e = elim (Bool-cases (x == s)) [
  | inl same ↦ ap p (sym ((eq_iff x s).0 same)) ∙ ground arith
  | inr other ↦ any-elem p xs s (ground arith) (ground arith)
]
