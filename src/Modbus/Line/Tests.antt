-- ===== src/Modbus/Line/Tests.antt =====
-- A device that keeps the last registers it was sent, on a line that can fail.
use instro.Prelude.{ℕ, ◌+◌, ◌≡◌, refl, true, false, List, [], ◌∷◌, arith, ok, Error}
use instro.Prelude.Int.{negsuc}
use instro.Float.{Number}
use instro.Float.Two.{two}
use instro.Modbus.{holding, int32}
use instro.Modbus.Line.Sharing.{Use, opens, closes, operates}
use instro.Modbus.Line.{
  Request, Response, raised, done, registers, read_holding, write_registers, write_register,
  Pymodbus, Line,
}
use instro.Modbus.Line.Typed.{Swaps, Keeps, read_typed, write_typed, write-read_typed}

-- what the device holds, and how often the client was closed
abbrev Wire : Type 0
Wire = List ℕ × ℕ

abbrev answer : Request → ℕ → Wire → Response × Wire
answer (read_holding a n) u (kept, closed) = (registers kept, (kept, closed))
answer (write_register a v) u (kept, closed) = (done, (v ∷ [], closed))
answer (write_registers a vs) u (kept, closed) = (done, (vs, closed))
answer _ u w = (raised Error.os_error, w)

abbrev wire : Pymodbus Wire
wire = record { connect = λ w. (true, w); close_client = λ w. (w.0, w.1 + 1); call = answer }

abbrev open_line : Line Wire
open_line = record { client = true; world = ([], 0) }

abbrev swaps : Swaps
swaps = record { byte_swap = true; word_swap = false; long_swap = false }

wire-Keeps : (a u : ℕ) → Keeps wire 255 two a u
wire-Keeps a u = record { many = λ vs w. (refl, refl); one = λ v w. (refl, refl) }

write-read_typed_example :
    ((write_typed wire 255 two holding 4 (Number.int (negsuc 70000)) int32 1 swaps open_line).0
      ≡ ok tt)
    × ((read_typed wire 255 two holding 4 int32 1 swaps
          (write_typed wire 255 two holding 4
            (Number.int (negsuc 70000))
            int32
            1
            swaps
            open_line).1).0
        ≡ ok (Number.int (negsuc 70000)))
write-read_typed_example =
    write-read_typed wire 255 two 4 1 int32 (negsuc 70000) swaps open_line (wire-Keeps 4 1)
      (ground arith) (omega arith) refl

-- one instrument opens the line, another one joins, the first one leaves
abbrev some_uses : List Use
some_uses = opens 7 ∷ opens 8 ∷ operates (write_register 0 5) 1 ∷ closes 7 ∷ []
