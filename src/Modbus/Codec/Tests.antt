-- ===== src/Modbus/Codec/Tests.antt =====
-- Registers of concrete values, and the round trips at them.
use instro.Modbus.Codec.{encode_value, decode_registers}
use instro.Prelude.{◌≡◌, refl, true, false, List, [], ◌∷◌, ℕ, arith, length, ok, err, Error}
use instro.Prelude.Int.{pos, negsuc}
use instro.Float.{Number}
use instro.Float.Two.{two}
use instro.Modbus.{uint16, int32, float64, register_count}
use instro.Modbus.Codec.RoundTrip.{
  decode-encode_int, decode-encode_float64, encode_out_of_range, encode-decode_int,
}

decode-encode_int_example :
    (regs : List ℕ) × (encode_value two (Number.int (negsuc 99999)) int32 true true false ≡ ok regs)
    × (length regs ≡ register_count int32)
    × (decode_registers two regs int32 true true false ≡ ok (Number.int (negsuc 99999)))
decode-encode_int_example =
    decode-encode_int two int32 (negsuc 99999) true true false (ground arith)

decode-encode_float64_example :
    (regs : List ℕ) × (encode_value two (Number.float true) float64 false true true ≡ ok regs)
    × (length regs ≡ 4)
    × (decode_registers two regs float64 false true true ≡ ok (Number.float true))
decode-encode_float64_example = decode-encode_float64 two true false true true

encode_out_of_range_example :
    encode_value two (Number.int (pos 65536)) uint16 false false false ≡ err Error.struct_error
encode_out_of_range_example =
    encode_out_of_range two uint16 (pos 65536) false false false tt (λ h. ground arith)

encode-decode_int_example :
    (z : _) × (decode_registers two (1 ∷ 65535 ∷ []) int32 false true false ≡ ok (Number.int z))
    × (encode_value two (Number.int z) int32 false true false ≡ ok (1 ∷ 65535 ∷ []))
unfolding register_count
encode-decode_int_example =
    encode-decode_int two int32 (1 ∷ 65535 ∷ []) false true false tt (ground arith) refl
