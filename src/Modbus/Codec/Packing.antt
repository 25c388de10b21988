-- ===== src/Modbus/Codec/Packing.antt =====
-- Packing and unpacking an integer of each data type.
use instro.Prelude.{ℕ, ◌-◌, ◌*◌, ◌/◌, ◌^◌, ◌<◌, ◌≡◌, ap, List, arith, length, ok, map_ok}
use instro.Prelude.Int.{ℤ, pos, negsuc, ◌≤ℤ◌}
use instro.Float.{Floats, Number, int}
use instro.Modbus.{
  DataType, uint16, int16, uint32, int32, uint64, int64, float32, float64, bool, register_count,
  InRange, IsInteger,
}
use instro.Modbus.Bytes.{AllBytes, be_bytes, be_value}
use instro.Modbus.Codec.{round_number, pack, unpack}
use instro.Modbus.Codec.Struct.{
  pack_uint, pack_int, unpack_uint, unpack_int, length-pack_uint, length-pack_int, signed,
  pack_uint-AllBytes, pack_int-AllBytes, unpack-pack_uint, unpack-pack_int, pack-unpack_uint,
  pack-unpack_int,
}

-- what packing an integer gives for one data type
pub record Packed (fl : Floats) (z : ℤ) (t : DataType) : Type 0 where
  pub raw : List ℕ
  pub packed : pack fl (int z) t ≡ ok raw
  pub all_bytes : AllBytes raw
  pub size : length raw ≡ register_count t * 2
  pub unpacked : (regs : List ℕ) → unpack fl regs t raw ≡ ok (int z)

pack_uint_total :
    (w m : ℕ) (z : ℤ)
    → m < 256 ^ w
    → pos 0 ≤ℤ z
    → z ≤ℤ pos m
    → (bs : List ℕ) × (pack_uint w z ≡ ok bs)
unfolding pack_uint
pack_uint_total w m (pos n) p lo hi = (be_bytes w n, ground arith)
pack_uint_total w m (negsuc n) p lo hi = absurd (omega arith)

pack_int_total :
    (w m : ℕ) (z : ℤ)
    → m < 256 ^ w / 2
    → negsuc m ≤ℤ z
    → z ≤ℤ pos m
    → (bs : List ℕ) × (pack_int w z ≡ ok bs)
unfolding pack_int
pack_int_total w m (pos n) p lo hi = (be_bytes w n, ground arith)
pack_int_total w m (negsuc n) p lo hi = (be_bytes w (256 ^ w - 1 - n), ground arith)

module _ (fl : Floats) where
  open fl use {F, pack64, length-pack64, pack64-AllBytes, unpack64-pack64}

  pub packed_int : (t : DataType) (z : ℤ) → InRange t z → Packed fl z t
  unfolding pack unpack round_number register_count
  packed_int uint16 z h =
      let (bs, e) = pack_uint_total 2 65535 z (omega arith) h.0 h.1 in
      record {
        raw = bs;
        packed = e;
        all_bytes = pack_uint-AllBytes 2 z bs e;
        size = length-pack_uint 2 z bs e;
        unpacked = λ regs. ap (map_ok int) (unpack-pack_uint 2 z bs e);
      }
  packed_int int16 z h =
      let (bs, e) = pack_int_total 2 32767 z (omega arith) h.0 h.1 in
      record {
        raw = bs;
        packed = e;
        all_bytes = pack_int-AllBytes 2 z bs e;
        size = length-pack_int 2 z bs e;
        unpacked = λ regs. ap (map_ok int) (unpack-pack_int 2 z bs e);
      }
  packed_int uint32 z h =
      let (bs, e) = pack_uint_total 4 4294967295 z (omega arith) h.0 h.1 in
      record {
        raw = bs;
        packed = e;
        all_bytes = pack_uint-AllBytes 4 z bs e;
        size = length-pack_uint 4 z bs e;
        unpacked = λ regs. ap (map_ok int) (unpack-pack_uint 4 z bs e);
      }
  packed_int int32 z h =
      let (bs, e) = pack_int_total 4 2147483647 z (omega arith) h.0 h.1 in
      record {
        raw = bs;
        packed = e;
        all_bytes = pack_int-AllBytes 4 z bs e;
        size = length-pack_int 4 z bs e;
        unpacked = λ regs. ap (map_ok int) (unpack-pack_int 4 z bs e);
      }
  packed_int uint64 z h =
      let (bs, e) = pack_uint_total 8 18446744073709551615 z (omega arith) h.0 h.1 in
      record {
        raw = bs;
        packed = e;
        all_bytes = pack_uint-AllBytes 8 z bs e;
        size = length-pack_uint 8 z bs e;
        unpacked = λ regs. ap (map_ok int) (unpack-pack_uint 8 z bs e);
      }
  packed_int int64 z h =
      let (bs, e) = pack_int_total 8 9223372036854775807 z (omega arith) h.0 h.1 in
      record {
        raw = bs;
        packed = e;
        all_bytes = pack_int-AllBytes 8 z bs e;
        size = length-pack_int 8 z bs e;
        unpacked = λ regs. ap (map_ok int) (unpack-pack_int 8 z bs e);
      }
  packed_int float32 z h = absurd h
  packed_int float64 z h = absurd h
  packed_int bool z h = absurd h

  from_uint :
      (w : ℕ) (raw : List ℕ)
      → AllBytes raw
      → length raw ≡ w
      → (z : ℤ) × (map_ok {B = Number fl} int (unpack_uint w raw) ≡ ok (int z))
        × (pack_uint w z ≡ ok raw)
  from_uint w raw a e =
      let u : unpack_uint w raw ≡ ok (pos (be_value 0 raw)) = unfold unpack_uint in ground arith in
      (pos (be_value 0 raw), ap (map_ok int) u, pack-unpack_uint w (pos (be_value 0 raw)) raw a u)

  from_int :
      (w : ℕ) (raw : List ℕ)
      → 0 < w
      → AllBytes raw
      → length raw ≡ w
      → (z : ℤ) × (map_ok {B = Number fl} int (unpack_int w raw) ≡ ok (int z))
        × (pack_int w z ≡ ok raw)
  from_int w raw p a e =
      let z = signed w (be_value 0 raw) in
      let u : unpack_int w raw ≡ ok z = unfold unpack_int in ground arith in
      (z, ap (map_ok int) u, pack-unpack_int w z raw p a u)

  pub unpacked_int :
      (t : DataType) (regs raw : List ℕ)
      → IsInteger t
      → AllBytes raw
      → length raw ≡ register_count t * 2
      → (z : ℤ) × (unpack fl regs t raw ≡ ok (int z)) × (pack fl (int z) t ≡ ok raw)
  unfolding unpack pack round_number register_count
  unpacked_int uint16 regs raw i a e = from_uint 2 raw a e
  unpacked_int uint32 regs raw i a e = from_uint 4 raw a e
  unpacked_int uint64 regs raw i a e = from_uint 8 raw a e
  unpacked_int int16 regs raw i a e = from_int 2 raw (omega arith) a e
  unpacked_int int32 regs raw i a e = from_int 4 raw (omega arith) a e
  unpacked_int int64 regs raw i a e = from_int 8 raw (omega arith) a e
  unpacked_int float32 regs raw i a e = absurd i
  unpacked_int float64 regs raw i a e = absurd i
  unpacked_int bool regs raw i a e = absurd i
