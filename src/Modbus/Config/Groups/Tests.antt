-- ===== src/Modbus/Config/Groups/Tests.antt =====
-- The checks of a configuration with a group of two registers.
use instro.Prelude.{◌≤◌, ◌≡◌, [], ◌∷◌, ok}
use instro.Float.Two.{two}
use instro.Modbus.Config.Groups.{last_of, span, read_limit, get_register}
use instro.Modbus.Config.Groups.Spans.{All}
use instro.Modbus.Config.Groups.Bounds.{IsRead, validate_config_lem}
use instro.Modbus.Config.Groups.Names.{get_register_lem}
use instro.Modbus.Config.Groups.Example.{grouped, level, registers, accepted, index_of_fast}

validate_config_lem_example :
    All two (IsRead two level (last_of two level (grouped ∷ []))) (level ∷ grouped ∷ [])
    × (span two level (last_of two level (grouped ∷ [])) ≤ read_limit two level)
validate_config_lem_example =
    validate_config_lem two registers "fast" level (grouped ∷ []) accepted index_of_fast

get_register_lem_example : get_register two registers "level" ≡ ok level
get_register_lem_example = get_register_lem two (grouped ∷ []) [] level accepted
