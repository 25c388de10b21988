-- ===== src/Modbus/Line/Behaviour.antt =====
-- The Modbus line is a session that transports can share.
use instro.Modbus.Line.{Pymodbus, Line, open_session, teardown_session}
use instro.Prelude.{arith, ◌≡◌, true, false, ok, err, Error}
use instro.Transport.{Session}

module _ {W : Type 0} (py : Pymodbus W) where
  pub opens : (l : Line W) → (open_session py l).0 ≡ ok tt → (open_session py l).1.client ≡ true
  unfolding open_session
  opens l h = ground arith

  pub open_fails :
      (l : Line W) (e : Error)
      → (open_session py l).0 ≡ err e
      → (open_session py l).1.client ≡ l.client
  unfolding open_session
  open_fails l e h = ground arith

  pub tears_down : (l : Line W) → (teardown_session py l).1.client ≡ false
  unfolding teardown_session
  tears_down l = ground arith

  -- The Modbus line meets the contract of `TransportBase`.
  abbrev pub line_session : Session (Line W)
  line_session = record {
    open_session = open_session py;
    teardown_session = teardown_session py;
    is_open = λ l. l.client;
    opens = opens;
    open_fails = open_fails;
    tears_down = tears_down;
  }
