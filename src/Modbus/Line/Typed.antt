-- ===== src/Modbus/Line/Typed.antt =====
-- `read_typed` and `write_typed` of instro/lib/transports/modbus.py.
use instro.Prelude.{
  ℕ, ◌≤◌, ◌≡◌, Bool, true, false, List, [], ◌∷◌, arith, length, Result, ok, err, guard, Error,
  map_ok,
}
use instro.Prelude.Exec.{Exec, raise, lift, ◌>>=◌, ◌>>◌}
use instro.Float.{Floats, Number}
use instro.Modbus.{
  RegisterType, holding, input, coil, discrete, DataType, bool, register_count, InRange,
}
use instro.Modbus.Codec.{encode_value, decode_registers}
use instro.Prelude.Int.{ℤ}
use instro.Modbus.Codec.RoundTrip.{decode-encode_int}
use instro.Modbus.Line.{
  write_registers, write_register, read_holding, done, registers, Pymodbus, Line,
  read_holding_registers, read_input_registers, write_holding_register, write_holding_registers,
  read_coils_op, write_coil_op, read_discrete_inputs,
}

-- the three swap options of a register
pub record Swaps : Type 0 where
  pub byte_swap : Bool
  pub word_swap : Bool
  pub long_swap : Bool

abbrev pub is_bool : DataType → Bool
is_bool bool = true
is_bool _ = false

-- `bool(xs[0])`
abbrev pub first_bit : List Bool → Result Bool
first_bit [] = err Error.index_error
first_bit (b ∷ bs) = ok b

module _ {W : Type 0} (py : Pymodbus W) (max_unit_id : ℕ) (fl : Floats) where
  unfoldable pub read_typed : RegisterType → ℕ → DataType → ℕ → Swaps → Exec (Line W) (Number fl)
  unfolding register_count
  read_typed holding address t unit_id s = do
    raw_regs ← read_holding_registers py max_unit_id address (register_count t) unit_id
    lift (decode_registers fl raw_regs t s.byte_swap s.word_swap s.long_swap)
  read_typed input address t unit_id s = do
    raw_regs ← read_input_registers py max_unit_id address (register_count t) unit_id
    lift (decode_registers fl raw_regs t s.byte_swap s.word_swap s.long_swap)
  read_typed coil address t unit_id s = do
    lift (guard (is_bool t) Error.value_error)
    bits ← read_coils_op py max_unit_id address 1 unit_id
    lift (map_ok Number.bool (first_bit bits))
  read_typed discrete address t unit_id s = do
    lift (guard (is_bool t) Error.value_error)
    bits ← read_discrete_inputs py max_unit_id address 1 unit_id
    lift (map_ok Number.bool (first_bit bits))

  -- one register by FC06, any other number of them by FC16
  unfoldable pub write_encoded : ℕ → ℕ → List ℕ → Exec (Line W) (Unit {0})
  write_encoded address unit_id (r ∷ []) = write_holding_register py max_unit_id address r unit_id
  write_encoded address unit_id rs = write_holding_registers py max_unit_id address rs unit_id

  unfoldable pub write_bool : ℕ → ℕ → Number fl → Exec (Line W) (Unit {0})
  write_bool address unit_id (Number.bool b) = write_coil_op py max_unit_id address b unit_id
  write_bool address unit_id _ = raise Error.value_error

  unfoldable pub write_typed :
      RegisterType → ℕ → Number fl → DataType → ℕ → Swaps → Exec (Line W) (Unit {0})
  unfolding write_encoded write_bool
  write_typed holding address value t unit_id s = do
    encoded ← lift (encode_value fl value t s.byte_swap s.word_swap s.long_swap)
    write_encoded address unit_id encoded
  write_typed coil address value t unit_id s = do
    lift (guard (is_bool t) Error.value_error)
    write_bool address unit_id value
  write_typed input address value t unit_id s = raise Error.value_error
  write_typed discrete address value t unit_id s = raise Error.value_error

  -- The devices on the line keep what is written to holding registers of unit `u` at `a`: reading
  -- as many registers straight afterwards answers with those values.
  pub record Keeps (a u : ℕ) : Type 0 where
    pub many :
        (vs : List ℕ) (w : W)
        → let (resp, w') = py.call (write_registers a vs) u w in
          (resp ≡ done) × ((py.call (read_holding a (length vs)) u w').0 ≡ registers vs)
    pub one :
        (v : ℕ) (w : W)
        → let (resp, w') = py.call (write_register a v) u w in
          (resp ≡ done) × ((py.call (read_holding a 1) u w').0 ≡ registers (v ∷ []))

  write-read_encoded :
      (a u : ℕ) (regs : List ℕ) (l : Line W)
      → Keeps a u
      → u ≤ max_unit_id
      → l.client ≡ true
      → let (r, l') = write_encoded a u regs l in
        (r ≡ ok tt) × ((read_holding_registers py max_unit_id a (length regs) u l').0 ≡ ok regs)
  unfolding write_encoded write_holding_register write_holding_registers read_holding_registers
  write-read_encoded a u [] l k h c = ground (arith, k.many [] l.world)
  write-read_encoded a u (v ∷ []) l k h c = ground (arith, k.one v l.world)
  write-read_encoded a u (v ∷ w ∷ r) l k h c = ground (arith, k.many (v ∷ w ∷ r) l.world)

  -- On an open line whose devices keep what they are sent, writing an integer in its type's range
  -- to holding registers succeeds, and reading it back with the same type and swaps gives it.
  pub write-read_typed :
      (a u : ℕ) (t : DataType) (z : ℤ) (s : Swaps) (l : Line W)
      → Keeps a u
      → InRange t z
      → u ≤ max_unit_id
      → l.client ≡ true
      → let (r, l') = write_typed holding a (Number.int z) t u s l in
        (r ≡ ok tt) × ((read_typed holding a t u s l').0 ≡ ok (Number.int z))
  unfolding write_typed read_typed
  write-read_typed a u t z s l k h le c =
      let (regs, e, n, d) = decode-encode_int fl t z s.byte_swap s.word_swap s.long_swap h in
      let (w, r) = write-read_encoded a u regs l k le c in (rw e w, rw (← n, e, r) d)
