-- ===== src/Modbus/Config/Groups/Example.antt =====
-- A configuration with a group of two registers, out of order.
use instro.Prelude.{◌≡◌, refl, some, List, [], ◌∷◌, ok}
use instro.Float.Two.{two}
use instro.Prelude.Dict
use instro.Modbus.{uint32, register_count}
use instro.Modbus.Register.{RegisterDef}
use instro.Modbus.Register.Example.{mode}
use instro.Modbus.Config.{
  validate_no_register_overlap, of_type, insert, sort, end_of, overlaps, check_after, check_pairs,
}
use instro.Modbus.Config.Groups.{
  validate_config, validate_unique_register_names, validate_unique_bitmap_names, names_of,
  bit_names, has_repeat, check_group_types, check_spans, check_span, collect, build_group_index,
  last_of, span, read_limit,
}

abbrev pub grouped : RegisterDef two
grouped = record mode { read_group = some "fast" }

abbrev pub level : RegisterDef two
level = record grouped { name = "level"; starting_address = 10; data_type = uint32 }

abbrev pub registers : List (RegisterDef two)
registers = grouped ∷ level ∷ []

pub accepted : validate_config two registers ≡ ok tt
unfolding validate_config validate_unique_register_names validate_unique_bitmap_names names_of
    bit_names has_repeat validate_no_register_overlap of_type insert sort end_of overlaps
    check_after check_pairs register_count check_group_types Dict.get Dict.put check_spans
    check_span collect build_group_index last_of span read_limit
accepted = refl

pub index_of_fast : Dict.get (build_group_index two registers) "fast" ≡ some (level ∷ grouped ∷ [])
unfolding Dict.get Dict.put collect build_group_index insert sort
index_of_fast = refl
