-- ===== src/Values.antt =====
-- The values that a gate compares: Python's `bool`, `int` and `float`, and anything else.
use mesa_e2e_certification.Prelude.{ℕ, String, Bool, true, false, leb, eqb}

-- `negsuc n` is -(n + 1).
pub data ℤ : Type 0 where
  pos : ℕ → ℤ
  negsuc : ℕ → ℤ

unfoldable pub le_ℤ : ℤ → ℤ → Bool
le_ℤ (pos a) (pos b) = leb a b
le_ℤ (pos a) (negsuc b) = false
le_ℤ (negsuc a) (pos b) = true
le_ℤ (negsuc a) (negsuc b) = leb b a

unfoldable pub eq_ℤ : ℤ → ℤ → Bool
eq_ℤ (pos a) (pos b) = eqb a b
eq_ℤ (negsuc a) (negsuc b) = eqb a b
eq_ℤ _ _ = false

-- Python's floats: `math.isfinite`, and the comparisons `<=`, `>=` and `==` between two floats
-- and between a float and an int.
pub record Floats : Type 1 where
  pub Float : Type 0
  pub is_finite : Float → Bool
  pub le_float_float : Float → Float → Bool
  pub le_float_int : Float → ℤ → Bool
  pub le_int_float : ℤ → Float → Bool
  pub eq_float_float : Float → Float → Bool
  pub eq_float_int : Float → ℤ → Bool

module _ (floats : Floats) where
  open floats use {
    Float, is_finite, le_float_float, le_float_int, le_int_float, eq_float_float, eq_float_int,
  }

  pub data Number : Type 0 where
    int : ℤ → Number
    float : Float → Number

  -- What an observed metric may hold; `other` is any value that is no bool and no number.
  pub data Value : Type 0 where
    bool : Bool → Value
    number : Number → Value
    other : String → Value

  -- `a <= b`, which is also `b >= a`
  unfoldable pub le_number : Number → Number → Bool
  unfolding le_ℤ
  le_number (int a) (int b) = le_ℤ a b
  le_number (int a) (float y) = le_int_float a y
  le_number (float x) (int b) = le_float_int x b
  le_number (float x) (float y) = le_float_float x y

  unfoldable pub eq_number : Number → Number → Bool
  unfolding eq_ℤ
  eq_number (int a) (int b) = eq_ℤ a b
  eq_number (int a) (float y) = eq_float_int y a
  eq_number (float x) (int b) = eq_float_int x b
  eq_number (float x) (float y) = eq_float_float x y

  -- False of the floats `inf`, `-inf` and `nan` alone.
  unfoldable pub is_finite_number : Number → Bool
  is_finite_number (int a) = true
  is_finite_number (float x) = is_finite x
