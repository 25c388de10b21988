-- ===== src/Modbus/Register/Validation.antt =====
-- `RegisterDef._validate_register_type_constraints` of instro/modbus/types.py, in its order.
use instro.Prelude.{
  ◌>>◌, ℕ, ◌+◌, ◌-◌, Bool, true, false, not, ◌&&◌, ◌||◌, Option, none, some, List, [], ◌∷◌, map,
  ltb, ◌==◌, if◌then◌else◌, Result, ok, err, Error,
}
use instro.Prelude.Dict.{Dict}
use instro.Float.{Floats, Number}
use instro.Modbus.{RegisterType, holding, input, DataType, bool, register_count, integer_range}
use instro.Modbus.Register.Numbers.{lt_number}
use instro.Modbus.Register.{
  RegisterDef, BitDef, is_short, is_long, is_bool_type, is_bit_type, is_holding, is_uint16,
  is_given, reject, check_limits, check_entries,
}

-- `reg.register_count` of a register; `count1` of the overlap check is 1 for bits
abbrev pub end_address : ℕ → DataType → ℕ
end_address a t = a + register_count t - 1

abbrev pub is_word_type : RegisterType → Bool
is_word_type holding = true
is_word_type input = true
is_word_type _ = false

abbrev pub elem : ℕ → List ℕ → Bool
elem i [] = false
elem i (j ∷ js) = (i == j) || elem i js

-- len(xs) != len(set(xs))
abbrev pub has_duplicate : List ℕ → Bool
has_duplicate [] = false
has_duplicate (i ∷ is) = elem i is || has_duplicate is

module _ (fl : Floats) where
  abbrev pub limits_cross : Option (Number fl) → Option (Number fl) → Bool
  limits_cross (some lo) (some hi) = lt_number fl hi lo
  limits_cross _ _ = false

  unfoldable pub check_map : RegisterDef fl → Option (Dict (Number fl)) → Result (Unit {0})
  check_map d none = ok tt
  check_map d (some m) = check_entries fl d [] m

  unfoldable pub check_bitmap : RegisterDef fl → Option (List BitDef) → Result (Unit {0})
  check_bitmap d none = ok tt
  check_bitmap d (some bits) = do
    reject fl (not (is_uint16 d.data_type))
    reject fl (not (is_word_type d.register_type))
    reject fl (has_duplicate (map (λ b. BitDef.bit_index b) bits))

  -- a bit register without a data type gets `bool`
  abbrev pub coerce_type : RegisterDef fl → Result (RegisterDef fl)
  coerce_type d =
      if is_bit_type d.register_type && not (is_bool_type d.data_type)
      then (if d.data_type_set then err Error.value_error else ok (record d { data_type = bool }))
      else ok d

  unfoldable pub validate_register : RegisterDef fl → Result (RegisterDef fl)
  validate_register d = do
    reject fl (is_bit_type d.register_type && is_given d.scale)
    reject fl (d.word_swap && is_short d.data_type)
    reject fl (d.long_swap && not (is_long d.data_type))
    reject fl (ltb 65535 (end_address d.starting_address d.data_type))
    reject fl (
        (is_given d.write_min || is_given d.write_max || is_given d.write_value_map)
        && not (is_holding d.register_type))
    reject fl (limits_cross d.write_min d.write_max)
    check_limits fl d (integer_range d.data_type)
    check_map d d.write_value_map
    check_bitmap d d.bitmap
    coerce_type d
