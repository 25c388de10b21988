-- ===== src/Modbus/Device.antt =====
-- The reads of `ModbusDevice` of instro/modbus/modbus.py, up to the measurement that they publish. An
-- action runs under the line's lock.
use instro.Prelude.{
  ℕ, zero, suc, ◌+◌, ◌-◌, ◌*◌, ◌/◌, ◌%◌, ◌^◌, ◌≤◌, ◌<◌, min, String, ◌≡◌, refl, sym, ap, ap₂, subst,
  fun_ext, ◌∙◌, ◌≢◌, ◌↔◌, ◌⊎◌, inl, inr, Bool, true, false, not, ◌&&◌, ◌||◌, Option, none, some,
  List, [], ◌∷◌, ◌++◌, map, append-nil, append_assoc, arith, eq_iff, eq_refl, dec_lt, ℕ_discrete,
  ltb, leb, ◌==◌, if◌then◌else◌, Bool-cases, Option-cases, length, get_elem?, set, take, drop,
  replicate, last, length-append, length-take, length-drop, length-last, last-min, drop_all,
  take_all, take-append-drop, last_all, last-append_last, Result, ok, err, guard, Error,
  Result-cases, map_ok,
}
use instro.Float.{Floats, Number}
use instro.Prelude.Dict
use instro.Prelude.Dict.{Dict}
use instro.Prelude.Words.{join}
use instro.Prelude.Int.{ℤ, pos, negsuc}
use instro.Prelude.Exec.{Exec, pure, raise, lift, ◌>>=◌, ◌>>◌}
use instro.Modbus.{RegisterType, holding, input, coil, discrete, DataType, register_count}
use instro.Modbus.Codec.{decode_registers}
use instro.Modbus.Register.{RegisterDef, BitDef, LinearScale, to_physical, is_bit_type}
use instro.Modbus.Register.Writing.{int_of}
use instro.Modbus.Config.Groups.{get_register, get_group, last_of, span}
use instro.Modbus.Line.{
  Pymodbus, Line, read_holding_registers, read_input_registers, read_coils_op, read_discrete_inputs,
}
use instro.Modbus.Line.Typed.{Swaps, read_typed}
pub mod Words
pub mod Operations
pub mod Grouped
mod Tests

pub record Device (W : Type 0) : Type 0 where
  pub line : Line W
  pub opened : Bool
  -- `_background_stop_event` is set
  pub stop_event : Bool

-- what follows a value, if there is one
abbrev pub and_then : {A B : Type 0} → Result A → (A → Result B) → Result B
and_then (err e) next = err e
and_then (ok a) next = next a

-- (z >> i) & 1
abbrev pub bit_at : ℤ → ℕ → ℕ
bit_at (pos n) i = n / 2 ^ i % 2
bit_at (negsuc n) i = 1 - n / 2 ^ i % 2

module _ (fl : Floats) where
  abbrev pub swaps_of : RegisterDef fl → Swaps
  swaps_of r = record { byte_swap = r.byte_swap; word_swap = r.word_swap; long_swap = r.long_swap }

  abbrev pub scaled : Option (LinearScale fl) → Number fl → Result (Number fl)
  scaled none raw = ok raw
  scaled (some s) raw = map_ok Number.float (to_physical fl s raw)

  unfoldable pub apply_scaling : Number fl → RegisterDef fl → Result (Number fl)
  apply_scaling raw r = scaled r.scale raw

  -- the loop over the bits
  unfoldable pub put_bits :
      String → ℤ → List BitDef → Dict (List (Number fl)) → Dict (List (Number fl))
  put_bits name z [] d = d
  put_bits name z (b ∷ bs) d =
      put_bits name z bs
        (Dict.put d (join name (join "." b.name)) (Number.int (pos (bit_at z b.bit_index)) ∷ []))

  abbrev pub with_bits :
      Option (List BitDef)
      → String
      → Number fl
      → Dict (List (Number fl))
      → Result (Dict (List (Number fl)))
  with_bits none name raw d = ok d
  with_bits (some []) name raw d = ok d
  with_bits (some (b ∷ bs)) name raw d = map_ok (λ z. put_bits name z (b ∷ bs) d) (int_of fl raw)

  unfoldable pub build_register_channels :
      String → RegisterDef fl → Number fl → Number fl → Result (Dict (List (Number fl)))
  unfolding put_bits
  build_register_channels name r raw scaled_value =
      with_bits r.bitmap name raw ((join name (join "." r.name), scaled_value ∷ []) ∷ [])

  -- the channels of a register from its raw value
  unfoldable pub channels_of :
      String → RegisterDef fl → Number fl → Result (Dict (List (Number fl)))
  unfolding apply_scaling build_register_channels
  channels_of name r raw =
      and_then (apply_scaling raw r) (λ value. build_register_channels name r raw value)

  -- one round of the loop over a group of registers, on the words that were read
  unfoldable pub word_member :
      String → ℕ → List ℕ → RegisterDef fl → Result (Dict (List (Number fl)))
  unfolding channels_of
  word_member name start raw_regs r =
      and_then
        (decode_registers fl
          (take (register_count r.data_type) (drop (r.starting_address - start) raw_regs))
          r.data_type r.byte_swap r.word_swap r.long_swap)
        (λ raw. channels_of name r raw)

  -- raw_bits[offset]
  abbrev pub bit_or_error : Option Bool → Result (Number fl)
  bit_or_error none = err Error.index_error
  bit_or_error (some b) = ok (Number.bool b)

  unfoldable pub bit_member :
      String → ℕ → List Bool → RegisterDef fl → Result (Dict (List (Number fl)))
  unfolding build_register_channels
  bit_member name start raw_bits r =
      and_then (bit_or_error (get_elem? raw_bits (r.starting_address - start)))
        (λ raw. build_register_channels name r raw raw)

  -- the loop over the members, with the channels so far
  unfoldable pub gather :
      (RegisterDef fl → Result (Dict (List (Number fl))))
      → List (RegisterDef fl)
      → Dict (List (Number fl))
      → Result (Dict (List (Number fl)))
  gather member [] acc = ok acc
  gather member (r ∷ rs) acc = and_then (member r) (λ d. gather member rs (Dict.update acc d))

module _ {W : Type 0} (py : Pymodbus W) (max_unit_id : ℕ) (unit_id : ℕ) (fl : Floats) where
  unfoldable pub require_ready : Exec (Device W) (Unit {0})
  require_ready s =
      if s.stop_event
      then (err Error.runtime_error, s)
      else if not s.opened || not s.line.client
      then (err Error.runtime_error, s)
      else (ok tt, s)

  abbrev pub on_line : {A : Type 0} → Exec (Line W) A → Exec (Device W) A
  on_line m s = ((m s.line).0, record s { line = (m s.line).1 })

  unfoldable pub read_value : RegisterDef fl → Exec (Device W) (Number fl)
  unfolding require_ready
  read_value r = do
    require_ready
    on_line (
        read_typed py max_unit_id fl r.register_type r.starting_address r.data_type unit_id
          (swaps_of fl r))

  -- `read`, up to the channels of its measurement
  unfoldable pub read :
      List (RegisterDef fl) → String → String → Exec (Device W) (Dict (List (Number fl)))
  unfolding read_value
  read registers name alias = do
    r ← lift (get_register fl registers alias)
    raw ← read_value r
    lift (channels_of fl name r raw)

  -- one request for all the registers of a group
  unfoldable pub read_members :
      String
      → RegisterType
      → ℕ
      → ℕ
      → List (RegisterDef fl)
      → Exec (Device W) (Dict (List (Number fl)))
  unfolding require_ready
  read_members name holding start count regs = do
    require_ready
    raw_regs ← on_line (read_holding_registers py max_unit_id start count unit_id)
    lift (gather fl (word_member fl name start raw_regs) regs [])
  read_members name input start count regs = do
    require_ready
    raw_regs ← on_line (read_input_registers py max_unit_id start count unit_id)
    lift (gather fl (word_member fl name start raw_regs) regs [])
  read_members name coil start count regs = do
    require_ready
    raw_bits ← on_line (read_coils_op py max_unit_id start count unit_id)
    lift (gather fl (bit_member fl name start raw_bits) regs [])
  read_members name discrete start count regs = do
    require_ready
    raw_bits ← on_line (read_discrete_inputs py max_unit_id start count unit_id)
    lift (gather fl (bit_member fl name start raw_bits) regs [])

  abbrev pub read_sorted :
      String → List (RegisterDef fl) → Exec (Device W) (Dict (List (Number fl)))
  read_sorted name [] = raise Error.index_error
  read_sorted name (first ∷ rest) =
      read_members name first.register_type first.starting_address
        (span fl first (last_of fl first rest)) (first ∷ rest)

  -- `_read_group`, up to the channels of its measurement
  unfoldable pub read_group :
      List (RegisterDef fl) → String → String → Exec (Device W) (Dict (List (Number fl)))
  unfolding read_members
  read_group registers name group_id = do
    regs ← lift (get_group fl registers group_id)
    read_sorted name regs
