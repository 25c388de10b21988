-- ===== src/Modbus/Register.antt =====
-- `RegisterDef` of instro/modbus/types.py with its validator, and `LinearScale` of
-- instro/lib/types.py. What pydantic checks of a single field has happened: an address is at most
-- 65535, a bit index at most 15, and a value map holds numbers.
use instro.Prelude.{
  ◌>>=◌, ◌>>◌, ℕ, zero, suc, ◌+◌, ◌-◌, ◌*◌, ◌/◌, ◌%◌, ◌^◌, ◌≤◌, ◌<◌, min, String, ◌≡◌, refl, sym,
  ap, ap₂, subst, fun_ext, ◌∙◌, ◌≢◌, ◌↔◌, ◌⊎◌, inl, inr, Bool, true, false, not, ◌&&◌, ◌||◌, Option,
  none, some, List, [], ◌∷◌, ◌++◌, map, append-nil, append_assoc, arith, eq_iff, eq_refl, dec_lt,
  ℕ_discrete, ltb, leb, ◌==◌, if◌then◌else◌, Bool-cases, Option-cases, length, get_elem?, set, take,
  drop, replicate, last, length-append, length-take, length-drop, length-last, last-min, drop_all,
  take_all, take-append-drop, last_all, last-append_last, Result, ok, err, guard, Error,
  Result-cases, map_ok,
}
use instro.Prelude.Int.{ℤ, pos, negsuc, ltb_ℤ}
use instro.Prelude.Dict.{Dict}
use instro.Float.{Floats, Number}
use instro.Modbus.{
  RegisterType, holding, input, coil, discrete, DataType, uint16, int16, uint32, int32, uint64,
  int64, float32, float64, bool, register_count, integer_range,
}
use instro.Modbus.Codec.{round_number, to_float}
use instro.Modbus.Register.Numbers.{as_whole, lt_number, eq_number, is_float_number, is_zero_one}
pub mod Numbers
pub mod Validation
pub mod Writing
pub mod Sound
pub mod Example
mod Tests

pub record BitDef : Type 0 where
  pub name : String
  pub bit_index : ℕ

-- `data_type in ("uint16", "int16", "bool")`, and the like
abbrev pub is_short : DataType → Bool
is_short t = register_count t == 1

abbrev pub is_long : DataType → Bool
is_long t = register_count t == 4

abbrev pub is_bool_type : DataType → Bool
is_bool_type bool = true
is_bool_type _ = false

abbrev pub is_bit_type : RegisterType → Bool
is_bit_type coil = true
is_bit_type discrete = true
is_bit_type _ = false

abbrev pub is_holding : RegisterType → Bool
is_holding holding = true
is_holding _ = false

abbrev pub is_coil : RegisterType → Bool
is_coil coil = true
is_coil _ = false

abbrev pub is_uint16 : DataType → Bool
is_uint16 uint16 = true
is_uint16 _ = false

abbrev pub is_given : {A : Type 0} → Option A → Bool
is_given none = false
is_given (some a) = true

module _ (fl : Floats) where
  open fl use {F, eq, sub, div, add, mul, zero_f, of_int, lt, abs, millionth}

  pub record LinearScale : Type 0 where
    pub gain : F
    pub offset : F

  -- LinearScale(gain=..., offset=...)
  unfoldable pub new_scale : F → F → Result LinearScale
  new_scale g o =
      if eq g zero_f then err Error.value_error else ok (record { gain = g; offset = o })

  unfoldable pub to_physical : LinearScale → Number fl → Result F
  to_physical s raw = do x ← to_float fl raw; ok (add s.offset (mul s.gain x))

  unfoldable pub to_raw : LinearScale → Number fl → Result F
  to_raw s physical = do x ← to_float fl physical; div (sub x s.offset) s.gain

  pub record RegisterDef : Type 0 where
    pub name : String
    pub starting_address : ℕ
    pub register_type : RegisterType
    pub data_type : DataType
    -- "data_type" in self.model_fields_set
    pub data_type_set : Bool
    pub byte_swap : Bool
    pub word_swap : Bool
    pub long_swap : Bool
    pub scale : Option LinearScale
    pub bitmap : Option (List BitDef)
    pub poll : Bool
    pub write_min : Option (Number fl)
    pub write_max : Option (Number fl)
    pub write_value_map : Option (Dict (Number fl))
    pub read_group : Option String

  -- `scale.to_raw(v) if scale is not None else v`
  unfoldable pub raw_of : Option LinearScale → Number fl → Result (Number fl)
  raw_of none v = ok v
  raw_of (some s) v = map_ok Number.float (to_raw s v)

  -- raise a ValueError if the condition holds
  abbrev pub reject : Bool → Result (Unit {0})
  reject b = guard (not b) Error.value_error

  -- v < lo or v > hi
  abbrev pub outside : Number fl → ℤ × ℤ → Bool
  outside v (lo, hi) = lt_number fl v (Number.int lo) || lt_number fl (Number.int hi) v

  abbrev pub below : Number fl → Option (Number fl) → Bool
  below v none = false
  below v (some m) = lt_number fl v m

  abbrev pub above : Number fl → Option (Number fl) → Bool
  above v none = false
  above v (some m) = lt_number fl m v

  abbrev pub check_limit : Option LinearScale → ℤ × ℤ → Option (Number fl) → Result (Unit {0})
  check_limit scale r none = ok tt
  check_limit scale r (some v) = do raw ← raw_of scale v; reject (outside raw r)

  unfoldable pub check_limits : RegisterDef → Option (ℤ × ℤ) → Result (Unit {0})
  check_limits d none = ok tt
  check_limits d (some r) = do check_limit d.scale r d.write_min; check_limit d.scale r d.write_max

  -- `abs(x - round(x)) > 1e-6`
  unfoldable pub is_fractional : F → ℤ → Result Bool
  is_fractional x z = do y ← of_int z; ok (lt millionth (abs (sub x y)))

  -- `raw != int(raw)` for a float without a scale
  abbrev pub check_whole : Option LinearScale → Number fl → Result (Unit {0})
  check_whole none (Number.float x) = do z ← fl.trunc x; reject (not (fl.eq_if z x))
  check_whole _ _ = ok tt

  abbrev pub check_close : Option LinearScale → Number fl → Result (Unit {0})
  check_close (some s) (Number.float x) = do z ← fl.round x; f ← is_fractional x z; reject f
  check_close _ _ = ok tt

  -- the range of the integer type, if it is one
  abbrev pub check_integer : Option LinearScale → Option (ℤ × ℤ) → Number fl → Result (Unit {0})
  check_integer scale none raw = ok tt
  check_integer scale (some (lo, hi)) raw = do
    check_whole scale raw
    raw_check ← raw_of scale raw
    check_close scale raw_check
    z ← round_number fl raw_check
    reject (ltb_ℤ z lo || ltb_ℤ hi z)

  abbrev pub seen_before : Number fl → List (Number fl) → Bool
  seen_before v [] = false
  seen_before v (w ∷ ws) = eq_number fl v w || seen_before v ws

  -- the body of the loop over `write_value_map`
  unfoldable pub check_entry : RegisterDef → List (Number fl) → Number fl → Result (Unit {0})
  check_entry d seen raw = do
    reject (seen_before raw seen)
    if is_bool_type d.data_type || is_coil d.register_type
        then reject (not (is_zero_one fl raw))
        else check_integer d.scale (integer_range d.data_type) raw
    reject (below raw d.write_min)
    reject (above raw d.write_max)

  unfoldable pub check_entries :
      RegisterDef → List (Number fl) → Dict (Number fl) → Result (Unit {0})
  unfolding check_entry
  check_entries d seen [] = ok tt
  check_entries d seen ((label, raw) ∷ rest) = do
    check_entry d seen raw
    check_entries d (raw ∷ seen) rest
