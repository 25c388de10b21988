-- ===== src/Modbus/Register/Tests.antt =====
-- A register with a value map, and what is written for its labels.
use instro.Prelude.{◌≡◌, refl, inl, ok}
use instro.Prelude.Int.{pos}
use instro.Prelude.Dict.{get}
use instro.Float.{Number}
use instro.Float.Two.{two}
use instro.Modbus.{holding, uint16}
use instro.Modbus.Register.{RegisterDef, reject, check_entries}
use instro.Modbus.Register.Example.{mode, modes}
use instro.Modbus.Register.Validation.{validate_register}
use instro.Modbus.Register.Sound.{IsSound, validate_register_lem}
use instro.Modbus.Register.Writing.{raw_for_write}
use instro.Modbus.Register.Writing.Accepted.{Fits, raw_for_write-validate_register}

accepts_mode : validate_register two mode ≡ ok mode
unfolding validate_register instro.Modbus.register_count instro.Modbus.Register.check_limits
    instro.Modbus.Register.raw_of instro.Modbus.Register.Numbers.lt_number
    instro.Modbus.Register.Validation.check_map check_entries instro.Modbus.Codec.round_number
    instro.Modbus.Register.Numbers.eq_number instro.Modbus.Register.Validation.check_bitmap
accepts_mode = refl

raw_for_write-validate_register_example :
    (x : Number two) × (raw_for_write two mode (Number.int (pos 7)) ≡ ok x) × Fits two uint16 x
unfolding get
raw_for_write-validate_register_example =
    raw_for_write-validate_register two mode mode modes "on" (Number.int (pos 7)) accepts_mode refl
      refl (inl refl) (inl refl)

validate_register_lem_example : IsSound two mode
validate_register_lem_example = validate_register_lem two mode mode accepts_mode (inl refl)
