-- ===== src/Modbus/Line.antt =====
-- `ModbusTransport` of instro/lib/transports/modbus.py: one line, its session and its operations.
-- pymodbus is not part of the repository: `Pymodbus` is its client, the wire and the devices.
use instro.Prelude.{
  ℕ, zero, suc, ◌+◌, ◌-◌, ◌*◌, ◌/◌, ◌%◌, ◌^◌, ◌≤◌, ◌<◌, min, String, ◌≡◌, refl, sym, ap, ap₂, subst,
  fun_ext, ◌∙◌, ◌≢◌, ◌↔◌, ◌⊎◌, inl, inr, Bool, true, false, not, ◌&&◌, ◌||◌, Option, none, some,
  List, [], ◌∷◌, ◌++◌, map, append-nil, append_assoc, arith, eq_iff, eq_refl, dec_lt, ℕ_discrete,
  ltb, leb, ◌==◌, if◌then◌else◌, Bool-cases, Option-cases, length, get_elem?, set, take, drop,
  replicate, last, length-append, length-take, length-drop, length-last, last-min, drop_all,
  take_all, take-append-drop, last_all, last-append_last, Result, ok, err, guard, Error,
  Result-cases, map_ok,
}
pub mod Behaviour
pub mod Sharing
pub mod Typed
mod Tests
use instro.Prelude.Exec.{Exec, pure, raise, lift, modify, gets, ◌>>=◌, ◌>>◌}
use instro.Transport.{Session}

-- a call of the pymodbus client, beside the unit it is addressed to
pub data Request : Type 0 where
  read_holding read_input read_coils read_discrete : ℕ → ℕ → Request
  write_register : ℕ → ℕ → Request
  write_registers : ℕ → List ℕ → Request
  write_coil : ℕ → Bool → Request
  write_coils : ℕ → List Bool → Request

-- what the client returns or raises; `is_error` is a response whose `isError()` holds
pub data Response : Type 0 where
  registers : List ℕ → Response
  bits : List Bool → Response
  done : Response
  is_error : Response
  raised : Error → Response

pub record Pymodbus (W : Type 0) : Type 0 where
  -- build a client and connect it; the Boolean is the result of `connect()`
  pub connect : W → Bool × W
  -- `client.close()`
  pub close_client : W → W
  pub call : Request → ℕ → W → Response × W

-- `_client is not None` is all that the code asks of its slot; the client itself is in the world.
pub record Line (W : Type 0) : Type 0 where
  pub client : Bool
  pub world : W

-- `isinstance(e, (OSError, ConnectionError, PymodbusConnectionException))`
abbrev pub is_transport_error : Error → Bool
is_transport_error Error.os_error = true
is_transport_error Error.connection_error = true
is_transport_error Error.pymodbus_connection = true
is_transport_error _ = false

module _ {W : Type 0} (py : Pymodbus W) where
  open py use {connect, close_client, call}

  -- `_connect` of both subclasses: a client that does not connect is closed again
  unfoldable pub connect_client : W → Result (Unit {0}) × W
  connect_client w =
      let (connected, w') = connect w in
      if connected then (ok tt, w') else (err Error.connection_error, close_client w')

  unfoldable pub open_session : Exec (Line W) (Unit {0})
  unfolding connect_client
  open_session l =
      if l.client
      then (ok tt, l)
      else (let (r, w) = connect_client l.world in
          elim r [
            | ok _ ↦ (ok tt, record { client = true; world = w })
            | err e ↦ (err e, record l { world = w })
          ])

  unfoldable pub teardown_session : Exec (Line W) (Unit {0})
  teardown_session l =
      if l.client
      then (ok tt, record { client = false; world = close_client l.world })
      else (ok tt, l)

  -- `_max_unit_id`: 255, and 247 on a serial line
  module _ (max_unit_id : ℕ) where
    -- A negative unit is refused as one above the range is; here units are numbers.
    unfoldable pub check_unit_id : ℕ → Result ℕ
    check_unit_id unit_id = if leb unit_id max_unit_id then ok unit_id else err Error.value_error

    -- the body of `_modbus_op` that runs under the lock, for an operation that sends one request
    unfoldable pub send : Request → ℕ → Exec (Line W) Response
    send req unit_id l =
        if not l.client
        then (err Error.runtime_error, l)
        else (let (resp, w) = call req unit_id l.world in
            elim resp [
              | raised e ↦
                  (err e, record l { world = if is_transport_error e then close_client w else w })
              | is_error ↦ (err Error.runtime_error, record l { world = w })
              | answer ↦ (ok answer, record l { world = w })
            ])

    unfoldable pub modbus_op : Request → ℕ → Exec (Line W) Response
    unfolding check_unit_id send
    modbus_op req unit_id = do _ ← lift (check_unit_id unit_id); send req unit_id

    -- `list(result.registers)`, `list(result.bits[:count])`: the fields of the answer
    unfoldable pub registers_of : Response → Result (List ℕ)
    registers_of (registers rs) = ok rs
    registers_of _ = err Error.foreign

    unfoldable pub bits_of : ℕ → Response → Result (List Bool)
    bits_of count (bits bs) = ok (take count bs)
    bits_of count _ = err Error.foreign

    unfoldable pub read_holding_registers : ℕ → ℕ → ℕ → Exec (Line W) (List ℕ)
    unfolding modbus_op registers_of
    read_holding_registers address count unit_id = do
      result ← modbus_op (read_holding address count) unit_id
      lift (registers_of result)

    unfoldable pub read_input_registers : ℕ → ℕ → ℕ → Exec (Line W) (List ℕ)
    unfolding modbus_op registers_of
    read_input_registers address count unit_id = do
      result ← modbus_op (read_input address count) unit_id
      lift (registers_of result)

    unfoldable pub write_holding_register : ℕ → ℕ → ℕ → Exec (Line W) (Unit {0})
    unfolding modbus_op
    write_holding_register address value unit_id = do
      _ ← modbus_op (write_register address value) unit_id
      pure tt

    unfoldable pub write_holding_registers : ℕ → List ℕ → ℕ → Exec (Line W) (Unit {0})
    unfolding modbus_op
    write_holding_registers address values unit_id = do
      _ ← modbus_op (write_registers address values) unit_id
      pure tt

    unfoldable pub read_coils_op : ℕ → ℕ → ℕ → Exec (Line W) (List Bool)
    unfolding modbus_op bits_of
    read_coils_op address count unit_id = do
      result ← modbus_op (read_coils address count) unit_id
      lift (bits_of count result)

    unfoldable pub write_coil_op : ℕ → Bool → ℕ → Exec (Line W) (Unit {0})
    unfolding modbus_op
    write_coil_op address value unit_id = do
      _ ← modbus_op (write_coil address value) unit_id
      pure tt

    unfoldable pub write_coils_op : ℕ → List Bool → ℕ → Exec (Line W) (Unit {0})
    unfolding modbus_op
    write_coils_op address values unit_id = do
      _ ← modbus_op (write_coils address values) unit_id
      pure tt

    unfoldable pub read_discrete_inputs : ℕ → ℕ → ℕ → Exec (Line W) (List Bool)
    unfolding modbus_op bits_of
    read_discrete_inputs address count unit_id = do
      result ← modbus_op (read_discrete address count) unit_id
      lift (bits_of count result)
