-- ===== src/Modbus/Codec/RoundTrip.antt =====
-- `encode_value` and `decode_registers` undo each other, for every choice of swaps.
use instro.Prelude.{
  ℕ, ◌*◌, ◌≡◌, refl, ap, ◌∙◌, ◌≢◌, Bool, List, arith, length, ok, err, Error, map_ok,
}
use instro.Prelude.Int.{ℤ, pos, negsuc}
use instro.Float.{Floats, Number, int}
use instro.Modbus.{DataType, float32, float64, bool, register_count, InRange, IsInteger}
use instro.Modbus.Bytes.{AllBytes}
use instro.Modbus.Codec.{
  to_registers, round_number, to_float, pack, encode_value, unpack, decode_registers,
}
use instro.Modbus.Codec.Struct.{pack_uint, pack_int}
use instro.Modbus.Codec.Registers.{
  AllRegisters, unswap, unswap-swap, unswap-AllBytes, length-unswap, read_registers,
  regs_bytes-to_registers, to_registers-unswap,
}
use instro.Modbus.Codec.Packing.{packed_int, unpacked_int}

pub not_bool : (t : DataType) (z : ℤ) → InRange t z → t ≢ bool
not_bool bool z h = absurd h
not_bool _ z h = λ e. cc

integer_not_bool : (t : DataType) → IsInteger t → t ≢ bool
integer_not_bool bool h = absurd h
integer_not_bool _ h = λ e. cc

module _ (fl : Floats) where
  open fl use {F, pack64, length-pack64, pack64-AllBytes, unpack64-pack64}

  pub encode-eq :
      (v : Number fl) (t : DataType) (b w l : Bool)
      → t ≢ bool
      → encode_value fl v t b w l ≡ map_ok (to_registers b w l) (pack fl v t)
  unfolding encode_value
  encode-eq v bool b w l ne = absurd (ne refl)
  encode-eq v _ b w l ne = ground arith

  encode_registers :
      (v : Number fl) (t : DataType) (b w l : Bool) (raw : List ℕ)
      → t ≢ bool
      → pack fl v t ≡ ok raw
      → encode_value fl v t b w l ≡ ok (to_registers b w l raw)
  encode_registers v t b w l raw ne e = encode-eq v t b w l ne ∙ ap (map_ok (to_registers b w l)) e

  -- what `decode_registers` unpacks, when it is given what `encode_value` has packed
  decode-to_registers :
      (t : DataType) (b w l : Bool) (raw : List ℕ)
      → AllBytes raw
      → length raw ≡ register_count t * 2
      → (decode_registers fl (to_registers b w l raw) t b w l
          ≡ unpack fl (to_registers b w l raw) t raw)
        × (length (to_registers b w l raw) ≡ register_count t)
  unfolding decode_registers
  decode-to_registers t b w l raw a e =
      let (back, n) = regs_bytes-to_registers b w l (register_count t) raw a e in
      (rw back (ap (unpack fl (to_registers b w l raw) t) (unswap-swap b w l raw)), n)

  -- An integer in its type's range is encoded into as many registers as the type spans, for every
  -- choice of swaps, and the same swaps decode them to that integer.
  pub decode-encode_int :
      (t : DataType) (z : ℤ) (b w l : Bool)
      → InRange t z
      → (regs : List ℕ) × (encode_value fl (int z) t b w l ≡ ok regs)
        × (length regs ≡ register_count t)
        × (decode_registers fl regs t b w l ≡ ok (int z))
  decode-encode_int t z b w l h =
      let p = packed_int fl t z h in
      let (d, n) = decode-to_registers t b w l p.raw p.all_bytes p.size in
      (
        to_registers b w l p.raw,
        encode_registers (int z) t b w l p.raw (not_bool t z h) p.packed,
        n,
        d ∙ p.unpacked (to_registers b w l p.raw),
      )

  -- A float64 survives the registers, for every choice of swaps.
  pub decode-encode_float64 :
      (x : F) (b w l : Bool)
      → (regs : List ℕ) × (encode_value fl (Number.float x) float64 b w l ≡ ok regs)
        × (length regs ≡ 4)
        × (decode_registers fl regs float64 b w l ≡ ok (Number.float x))
  unfolding pack to_float unpack register_count
  decode-encode_float64 x b w l =
      let raw = pack64 x in
      let (d, n) = decode-to_registers float64 b w l raw (pack64-AllBytes x) (length-pack64 x) in
      (
        to_registers b w l raw,
        encode_registers (Number.float x) float64 b w l raw (λ e. cc) refl,
        n,
        d ∙ rw (length-pack64 x, unpack64-pack64 x),
      )

  -- An integer outside its type's range is refused, as `struct` does.
  pub encode_out_of_range :
      (t : DataType) (z : ℤ) (b w l : Bool)
      → IsInteger t
      → ¬ InRange t z
      → encode_value fl (int z) t b w l ≡ err Error.struct_error
  unfolding encode_value pack round_number pack_uint pack_int
  encode_out_of_range float32 z b w l i h = absurd i
  encode_out_of_range float64 z b w l i h = absurd i
  encode_out_of_range bool z b w l i h = absurd i
  encode_out_of_range _ (pos n) b w l i h = ground arith
  encode_out_of_range _ (negsuc n) b w l i h = ground arith

  -- Any registers of the right number decode, as any integer type, to an integer that encodes to
  -- the same registers.
  pub encode-decode_int :
      (t : DataType) (regs : List ℕ) (b w l : Bool)
      → IsInteger t
      → AllRegisters regs
      → length regs ≡ register_count t
      → (z : ℤ) × (decode_registers fl regs t b w l ≡ ok (int z))
        × (encode_value fl (int z) t b w l ≡ ok regs)
  unfolding decode_registers
  encode-decode_int t regs b w l i a n =
      let r = read_registers regs a in
      let raw = unswap b w l r.bytes in
      let (z, u, p) =
        unpacked_int fl t regs raw i (unswap-AllBytes b w l r.bytes r.all_bytes)
          (length-unswap b w l r.bytes ∙ r.size ∙ ap (λ k. k * 2) n) in
      (
        z,
        rw r.read u,
        encode_registers (int z) t b w l raw (integer_not_bool t i) p
            ∙ ap ok (to_registers-unswap b w l r.bytes ∙ r.back),
      )
