-- ===== src/Modbus/Config/Tests.antt =====
-- Two holding registers, the second before the first.
use instro.Prelude.{◌≡◌, refl, List, [], ◌∷◌, ok}
use instro.Float.Two.{two}
use instro.Modbus.{holding, uint32, register_count}
use instro.Modbus.Register.{RegisterDef}
use instro.Modbus.Register.Example.{mode}
use instro.Modbus.Config.{
  of_type, insert, sort, end_of, overlaps, check_after, check_pairs, validate_no_register_overlap,
}
use instro.Modbus.Config.Disjoint.{Disjoint, validate_no_register_overlap_lem}

abbrev registers : List (RegisterDef two)
registers = mode ∷ record mode { name = "level"; starting_address = 10; data_type = uint32 } ∷ []

no_overlap : validate_no_register_overlap two registers ≡ ok tt
unfolding validate_no_register_overlap of_type insert sort end_of overlaps check_after check_pairs
    register_count
no_overlap = refl

validate_no_register_overlap_lem_example : Disjoint two (of_type two holding registers)
validate_no_register_overlap_lem_example =
    validate_no_register_overlap_lem two holding registers no_overlap
