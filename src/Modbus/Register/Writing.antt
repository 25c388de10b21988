-- ===== src/Modbus/Register/Writing.antt =====
-- What `ModbusDevice.write` of instro/modbus/modbus.py makes of a value before it is sent.
use instro.Prelude.{
  ◌>>=◌, ◌>>◌, ℕ, zero, suc, ◌+◌, ◌-◌, ◌*◌, ◌/◌, ◌%◌, ◌^◌, ◌≤◌, ◌<◌, min, String, ◌≡◌, refl, sym,
  ap, ap₂, subst, fun_ext, ◌∙◌, ◌≢◌, ◌↔◌, ◌⊎◌, inl, inr, Bool, true, false, not, ◌&&◌, ◌||◌, Option,
  none, some, List, [], ◌∷◌, ◌++◌, map, append-nil, append_assoc, arith, eq_iff, eq_refl, dec_lt,
  ℕ_discrete, ltb, leb, ◌==◌, if◌then◌else◌, Bool-cases, Option-cases, length, get_elem?, set, take,
  drop, replicate, last, length-append, length-take, length-drop, length-last, last-min, drop_all,
  take_all, take-append-drop, last_all, last-append_last, Result, ok, err, guard, Error,
  Result-cases, map_ok,
}
use instro.Prelude.Int.{ℤ, pos, negsuc, ltb_ℤ}
use instro.Prelude.Dict.{Dict, item}
use instro.Float.{Floats, Number}
use instro.Modbus.{
  RegisterType, holding, input, coil, discrete, DataType, float32, float64, bool, integer_range,
}
use instro.Modbus.Register.Numbers.{is_zero_one, of_bool}
use instro.Modbus.Register.{
  LinearScale, RegisterDef, is_bool_type, is_coil, below, above, raw_of, is_fractional,
}
pub mod Accepted
mod Encodes

abbrev pub is_read_only : RegisterType → Bool
is_read_only input = true
is_read_only discrete = true
is_read_only _ = false

abbrev pub is_float_type : DataType → Bool
is_float_type float32 = true
is_float_type float64 = true
is_float_type _ = false

module _ (fl : Floats) where
  abbrev pub is_bool_number : Number fl → Bool
  is_bool_number (Number.bool b) = true
  is_bool_number _ = false

  -- int(value)
  unfoldable pub int_of : Number fl → Result ℤ
  int_of (Number.int z) = ok z
  int_of (Number.float x) = fl.trunc x
  int_of (Number.bool b) = ok (of_bool b)

  abbrev pub in_range : ℤ × ℤ → ℤ → Result (Unit {0})
  in_range (lo, hi) z = guard (not (ltb_ℤ z lo || ltb_ℤ hi z)) Error.value_error

  -- `value != int(value)` for a float without a scale
  abbrev pub whole_or_type_error : Option (LinearScale fl) → Number fl → Result (Unit {0})
  whole_or_type_error none (Number.float x) = do
    z ← fl.trunc x
    guard (fl.eq_if z x) Error.type_error
  whole_or_type_error _ _ = ok tt

  abbrev pub unscaled_range : Option (LinearScale fl) → ℤ × ℤ → Number fl → Result (Unit {0})
  unscaled_range none r value = do z ← int_of value; in_range r z
  unscaled_range (some s) r value = ok tt

  -- the branch for an integer register, then those for floats
  abbrev pub check_kind : RegisterDef fl → Option (ℤ × ℤ) → Number fl → Result (Unit {0})
  check_kind d (some r) value = do
    guard (not (is_bool_number value)) Error.type_error
    whole_or_type_error d.scale value
    unscaled_range d.scale r value
  check_kind d none value =
      guard (not (is_float_type d.data_type && is_bool_number value)) Error.type_error

  -- `_validate_write_value`
  unfoldable pub validate_write_value : Number fl → RegisterDef fl → Result (Unit {0})
  unfolding int_of
  validate_write_value value d = do
    guard (not (is_read_only d.register_type)) Error.value_error
    guard (not (below fl value d.write_min)) Error.value_error
    guard (not (above fl value d.write_max)) Error.value_error
    if is_bool_type d.data_type || is_coil d.register_type
        then guard (is_zero_one fl value) Error.type_error
        else check_kind d (integer_range d.data_type) value

  -- a scaled raw value is rounded, if it is close to an integer
  abbrev pub rounded : Option (LinearScale fl) → Number fl → Result (Number fl)
  rounded (some s) (Number.float x) = do
    z ← fl.round x
    fractional ← is_fractional fl x z
    if fractional then err Error.type_error else ok (Number.int z)
  rounded _ raw = ok raw

  abbrev pub raw_in_range :
      Option (LinearScale fl) → Option (ℤ × ℤ) → Number fl → Result (Number fl)
  raw_in_range scale none raw = ok raw
  raw_in_range scale (some r) raw = do
    raw_value ← rounded scale raw
    int_raw ← int_of raw_value
    in_range r int_raw
    ok raw_value

  -- `_validate_raw_value_range`
  unfoldable pub validate_raw_value_range : Number fl → RegisterDef fl → Result (Number fl)
  unfolding int_of
  validate_raw_value_range raw d = raw_in_range d.scale (integer_range d.data_type) raw

  -- the middle of `write`: checks, scaling, checks
  unfoldable pub raw_for_write : RegisterDef fl → Number fl → Result (Number fl)
  unfolding validate_write_value validate_raw_value_range
  raw_for_write d value = do
    validate_write_value value d
    raw ← raw_of fl d.scale value
    validate_raw_value_range raw d

  -- `bool(raw_value) if reg.register_type == "coil" else raw_value` needs no more of the value
  abbrev pub map_item : Option (Dict (Number fl)) → String → Result (Number fl)
  map_item none label = err Error.key_error
  map_item (some m) label = item m label
