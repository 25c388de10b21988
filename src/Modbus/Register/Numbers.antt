-- ===== src/Modbus/Register/Numbers.antt =====
-- Python's comparisons of `int | float | bool` values, for instro/modbus.
use instro.Prelude.{Bool, true, false, not, ◌&&◌, ◌||◌, if◌then◌else◌}
use instro.Prelude.Int.{ℤ, pos, ltb_ℤ}
use instro.Float.{Floats, Number}

abbrev pub of_bool : Bool → ℤ
of_bool b = if b then pos 1 else pos 0

abbrev eq_ℤ : ℤ → ℤ → Bool
eq_ℤ a b = not (ltb_ℤ a b) && not (ltb_ℤ b a)

module _ (fl : Floats) where
  -- the integer that a number is, unless it is a float
  abbrev pub as_whole : Number fl → ℤ
  as_whole (Number.int z) = z
  as_whole (Number.bool b) = of_bool b
  as_whole (Number.float x) = pos 0

  abbrev pub is_float_number : Number fl → Bool
  is_float_number (Number.float x) = true
  is_float_number _ = false

  -- a < b
  unfoldable pub lt_number : Number fl → Number fl → Bool
  lt_number (Number.float x) (Number.float y) = fl.lt x y
  lt_number (Number.float x) b = fl.lt_fi x (as_whole b)
  lt_number a (Number.float y) = fl.lt_if (as_whole a) y
  lt_number a b = ltb_ℤ (as_whole a) (as_whole b)

  -- a == b
  unfoldable pub eq_number : Number fl → Number fl → Bool
  eq_number (Number.float x) (Number.float y) = fl.eq x y
  eq_number (Number.float x) b = fl.eq_if (as_whole b) x
  eq_number a (Number.float y) = fl.eq_if (as_whole a) y
  eq_number a b = eq_ℤ (as_whole a) (as_whole b)

  -- a bool, or an int that is 0 or 1
  abbrev pub is_zero_one : Number fl → Bool
  is_zero_one (Number.bool b) = true
  is_zero_one (Number.int z) = eq_ℤ z (pos 0) || eq_ℤ z (pos 1)
  is_zero_one (Number.float x) = false
