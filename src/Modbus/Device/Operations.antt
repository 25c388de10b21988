-- ===== src/Modbus/Device/Operations.antt =====
-- The write of `ModbusDevice` in instro/modbus/modbus.py, what its background thread polls, and the
-- unit address that it talks to.
use instro.Prelude.{
  ℕ, zero, String, Bool, true, false, not, ◌&&◌, ◌||◌, Option, none, some, List, [], ◌∷◌, ◌++◌, map,
  ◌==◌, if◌then◌else◌, Result, ok, err, Error,
}
use instro.Float.{Floats, Number}
use instro.Prelude.Dict.{Dict}
use instro.Prelude.Words.{same}
use instro.Prelude.Int.{pos}
use instro.Prelude.Exec.{Exec, pure, lift, ◌>>=◌, ◌>>◌}
use instro.Modbus.{RegisterType, coil}
use instro.Modbus.Register.{RegisterDef}
use instro.Modbus.Register.Writing.{raw_for_write, map_item}
use instro.Modbus.Config.Groups.{get_register, build_group_index, names_of}
use instro.Modbus.Line.{Pymodbus, check_unit_id}
use instro.Modbus.Line.Typed.{write_typed}
use instro.Modbus.Device.{Device, and_then, swaps_of, require_ready, on_line}

-- a value that is written, or a label of the register's map
pub data Given (fl : Floats) : Type 0 where
  number : Number fl → Given fl
  label : String → Given fl

-- a call that the background thread makes: `_read_group` or `read`
pub data Poll : Type 0 where
  group single : String → Poll

-- `connection`: a transport that several devices may share, or a description with its unit, if any
pub data Connection : Type 0 where
  shared : Connection
  described : Option ℕ → Connection

module _ (fl : Floats) where
  -- bool(x)
  abbrev pub truth : Number fl → Bool
  truth (Number.int (pos zero)) = false
  truth (Number.int z) = true
  truth (Number.float x) = not (fl.eq x (fl.lit 0))
  truth (Number.bool b) = b

  abbrev pub resolved : RegisterDef fl → Given fl → Result (Number fl)
  resolved r (number n) = ok n
  resolved r (label s) = map_item fl r.write_value_map s

  abbrev pub wire_value : RegisterType → Number fl → Number fl
  wire_value coil raw = Number.bool (truth raw)
  wire_value _ raw = raw

  abbrev is_listed : String → List String → Bool
  is_listed n [] = false
  is_listed n (m ∷ ms) = same m n || is_listed n ms

  -- `grouped_registers`
  unfoldable pub grouped_names : Dict (List (RegisterDef fl)) → List String
  grouped_names [] = []
  grouped_names ((g, rs) ∷ index) = names_of fl rs ++ grouped_names index

  unfoldable pub single_polls : List String → List (RegisterDef fl) → List Poll
  single_polls grouped [] = []
  single_polls grouped (r ∷ rs) =
      let rest = single_polls grouped rs in
      if r.poll && not (is_listed r.name grouped) then single r.name ∷ rest else rest

  -- `_define_background_daemon`
  unfoldable pub polls : List (RegisterDef fl) → List Poll
  unfolding grouped_names single_polls
  polls registers =
      let index = build_group_index fl registers in
      map (λ e. group e.0) index ++ single_polls (grouped_names index) registers

  module _ {W : Type 0} (py : Pymodbus W) (max_unit_id unit_id : ℕ) where
    -- `write`, up to the value of the command that it publishes
    unfoldable pub write : List (RegisterDef fl) → String → Given fl → Exec (Device W) (Number fl)
    write registers alias given = do
      r ← lift (get_register fl registers alias)
      value ← lift (resolved r given)
      raw ← lift (raw_for_write fl r value)
      require_ready py max_unit_id unit_id fl
      on_line py max_unit_id unit_id fl (
          write_typed py max_unit_id fl r.register_type r.starting_address
            (wire_value r.register_type raw) r.data_type unit_id (swaps_of fl r))
      pure value

-- the description that is used, with whether the transport may be shared
abbrev pub chosen : Option Connection → Option (Option ℕ) → Result (Bool × Option ℕ)
chosen (some shared) config = ok (true, none)
chosen (some (described u)) config = ok (false, u)
chosen none (some u) = ok (false, u)
chosen none none = err Error.value_error

abbrev conflict : Option ℕ → Option ℕ → Bool
conflict (some a) (some b) = not (a == b)
conflict _ _ = false

-- the unit from the constructor or the connection; a private transport has 1 by default
abbrev pub unit_of : Option ℕ → Bool × Option ℕ → Result ℕ
unit_of (some a) c = ok a
unit_of none (is_shared, some b) = ok b
unit_of none (true, none) = err Error.value_error
unit_of none (false, none) = ok 1

-- `_resolve_connection`, the unit; `config` is the unit of the configuration's connection, if it has
-- a connection
unfoldable pub resolve_unit :
    {W : Type 0} → Pymodbus W → ℕ → Option Connection → Option (Option ℕ) → Option ℕ → Result ℕ
resolve_unit py max_unit_id connection config unit_id = and_then (chosen connection config) (λ c.
    if conflict unit_id c.1
    then err Error.value_error
    else and_then (unit_of unit_id c) (λ u. check_unit_id py max_unit_id u))
