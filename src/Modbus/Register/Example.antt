-- ===== src/Modbus/Register/Example.antt =====
-- A register with a value map, as an example.
use instro.Prelude.{true, false, none, some, [], ◌∷◌}
use instro.Prelude.Int.{pos}
use instro.Prelude.Dict.{Dict}
use instro.Float.{Number}
use instro.Float.Two.{two}
use instro.Modbus.{holding, uint16}
use instro.Modbus.Register.{RegisterDef}

abbrev pub modes : Dict (Number two)
modes = ("off", Number.int (pos 0)) ∷ ("on", Number.int (pos 7)) ∷ []

abbrev pub mode : RegisterDef two
mode = record {
  name = "mode";
  starting_address = 12;
  register_type = holding;
  data_type = uint16;
  data_type_set = true;
  byte_swap = false;
  word_swap = false;
  long_swap = false;
  scale = none;
  bitmap = none;
  poll = true;
  write_min = none;
  write_max = some (Number.int (pos 9));
  write_value_map = some modes;
  read_group = none;
}
