-- ===== src/Modbus/Device/Tests.antt =====
-- A group read on a line whose device holds the numbers of its addresses.
use instro.Prelude.{ℕ, ◌≡◌, refl, true, false, [], ◌∷◌, arith}
use instro.Float.Two.{two}
use instro.Modbus.Line.{Pymodbus, Request, Response, registers, done, read_holding}
use instro.Modbus.Config.Groups.Example.{grouped, level, accepted, index_of_fast}
use instro.Modbus.Config.Groups.Example
use instro.Modbus.Device.{Device, read_group}
use instro.Modbus.Device.Words.{window}
use instro.Modbus.Device.Grouped.{read_singly, read_group_lem}

abbrev address : ℕ → ℕ
address a = a

abbrev respond : Request → Response
respond (read_holding a n) = registers (window address a n)
respond _ = done

abbrev bank : Pymodbus (Unit {0})
bank = record {
  connect = λ w. (true, w);
  close_client = λ w. w;
  call = λ req u w. (respond req, w);
}

abbrev device : Device (Unit {0})
device = record { line = record { client = true; world = tt }; opened = true; stop_event = false }

read_group_lem_example :
    (read_group bank 247 1 two Example.registers "plc" "fast" device).0
    ≡ (read_singly bank 247 1 two "plc" (level ∷ grouped ∷ []) [] device).0
read_group_lem_example =
    read_group_lem bank 247 1 two address Example.registers "plc" "fast" level (grouped ∷ []) device
      accepted index_of_fast refl (λ a n w. refl) (omega arith)
      (record { running = refl; is_open = refl; connected = refl })
