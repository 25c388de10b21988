-- ===== src/Modbus/Line/Sharing.antt =====
-- A Modbus line that several instruments share: `open` and `close` of `TransportBase` with the
-- operations of `ModbusTransport` between them.
use instro.Prelude.{
  ℕ, ◌≡◌, ◌⊎◌, Bool, true, false, some, List, [], ◌∷◌, if◌then◌else◌, Result, ok, err, Error,
}
use instro.Transport.{Transport, open_transport, close_transport}
use instro.Modbus.Line.{
  Request, Response, raised, is_error, Pymodbus, Line, is_transport_error, modbus_op,
}
use instro.Modbus.Line.Behaviour.{line_session}

-- what instruments do with the line that they share
pub data Use : Type 0 where
  opens closes : ℕ → Use
  operates : Request → ℕ → Use

-- a response that reports no error
abbrev pub is_answer : Response → Bool
is_answer is_error = false
is_answer (raised e) = false
is_answer _ = true

module _ {W : Type 0} (py : Pymodbus W) (max_unit_id : ℕ) where
  open py use {call, close_client}

  abbrev pub step : Use → Transport (Line W) → Transport (Line W)
  step (opens h) t = (open_transport (line_session py) (some h) t).1
  step (closes h) t = (close_transport (line_session py) (some h) t).1
  step (operates req u) t = record t { session = (modbus_op py max_unit_id req u t.session).1 }

  unfoldable pub run : List Use → Transport (Line W) → Transport (Line W)
  run [] t = t
  run (c ∷ cs) t = run cs (step c t)

  -- a line that nobody has opened
  abbrev pub unopened : W → Transport (Line W)
  unopened w = record { holders = []; session = record { client = false; world = w } }

  -- What an operation on an open line may come to: the client's exception, after which a transport
  -- error has closed the client, or a response that reports an error, or an answer.
  abbrev pub Exchange : Request → ℕ → Line W → Result Response × Line W → Type 0
  Exchange req u l (r, l') =
      let (resp, w) = call req u l.world in
      ((e : Error) × (resp ≡ raised e)
        × (r ≡ err e)
        × (l' ≡ record l { world = if is_transport_error e then close_client w else w }))
      ⊎ ((resp ≡ is_error) × (r ≡ err Error.runtime_error) × (l' ≡ record l { world = w }))
      ⊎ ((is_answer resp ≡ true) × (r ≡ ok resp) × (l' ≡ record l { world = w }))
