-- ===== src/Modbus/Codec/Struct.antt =====
-- `struct.pack` and `struct.unpack` of big-endian integers of `w` bytes: range check and two's
-- complement.
use instro.Prelude.{
  ℕ, zero, suc, ◌-◌, ◌/◌, ◌%◌, ◌^◌, ◌<◌, ◌≡◌, List, arith, ltb, ◌==◌, if◌then◌else◌, length, Result,
  ok, err, Error,
}
use instro.Prelude.Int.{ℤ, pos, negsuc}
use native.Mathlib.Nat.{pow-suc}
use instro.Modbus.Bytes.{
  be_bytes-AllBytes, AllBytes, be_bytes, be_value, length-be_bytes, be_value-be_bytes,
  be_bytes-be_value, be_value-lt,
}

unfoldable pub pack_uint : ℕ → ℤ → Result (List ℕ)
pack_uint w (pos n) = if ltb n (256 ^ w) then ok (be_bytes w n) else err Error.struct_error
pack_uint w (negsuc n) = err Error.struct_error

unfoldable pub pack_int : ℕ → ℤ → Result (List ℕ)
pack_int w (pos n) = if ltb n (256 ^ w / 2) then ok (be_bytes w n) else err Error.struct_error
pack_int w (negsuc n) =
    if ltb n (256 ^ w / 2) then ok (be_bytes w (256 ^ w - 1 - n)) else err Error.struct_error

unfoldable pub unpack_uint : ℕ → List ℕ → Result ℤ
unpack_uint w bs = if length bs == w then ok (pos (be_value 0 bs)) else err Error.struct_error

-- the integer that a bit pattern of `w` bytes stands for
abbrev pub signed : ℕ → ℕ → ℤ
signed w n = if ltb n (256 ^ w / 2) then pos n else negsuc (256 ^ w - 1 - n)

unfoldable pub unpack_int : ℕ → List ℕ → Result ℤ
unpack_int w bs = if length bs == w then ok (signed w (be_value 0 bs)) else err Error.struct_error

even_pow : (w : ℕ) → 0 < w → 256 ^ w % 2 ≡ 0
even_pow zero h = absurd (omega arith)
even_pow (suc k) h = omega (arith, pow-suc 256 k)

pub length-pack_uint : (w : ℕ) (z : ℤ) (bs : List ℕ) → pack_uint w z ≡ ok bs → length bs ≡ w
unfolding pack_uint
length-pack_uint w (pos n) bs h = ground (arith, length-be_bytes w n)
length-pack_uint w (negsuc n) bs h = cc

pub length-pack_int : (w : ℕ) (z : ℤ) (bs : List ℕ) → pack_int w z ≡ ok bs → length bs ≡ w
unfolding pack_int
length-pack_int w (pos n) bs h = ground (arith, length-be_bytes w n)
length-pack_int w (negsuc n) bs h = ground (arith, length-be_bytes w (256 ^ w - 1 - n))

pub pack_uint-AllBytes : (w : ℕ) (z : ℤ) (bs : List ℕ) → pack_uint w z ≡ ok bs → AllBytes bs
unfolding pack_uint
pack_uint-AllBytes w (pos n) bs h = ground (arith, be_bytes-AllBytes w n)
pack_uint-AllBytes w (negsuc n) bs h = cc

pub pack_int-AllBytes : (w : ℕ) (z : ℤ) (bs : List ℕ) → pack_int w z ≡ ok bs → AllBytes bs
unfolding pack_int
pack_int-AllBytes w (pos n) bs h = ground (arith, be_bytes-AllBytes w n)
pack_int-AllBytes w (negsuc n) bs h = ground (arith, be_bytes-AllBytes w (256 ^ w - 1 - n))

pub unpack-pack_uint :
    (w : ℕ) (z : ℤ) (bs : List ℕ) → pack_uint w z ≡ ok bs → unpack_uint w bs ≡ ok z
unfolding pack_uint unpack_uint
unpack-pack_uint w (pos n) bs h = ground (arith, be_value-be_bytes w n, length-be_bytes w n)
unpack-pack_uint w (negsuc n) bs h = cc

pub pack-unpack_uint :
    (w : ℕ) (z : ℤ) (bs : List ℕ) → AllBytes bs → unpack_uint w bs ≡ ok z → pack_uint w z ≡ ok bs
unfolding pack_uint unpack_uint
pack-unpack_uint w (pos n) bs a h = ground (arith, be_bytes-be_value bs a, be_value-lt 0 bs a)
pack-unpack_uint w (negsuc n) bs a h = ground arith

pub unpack-pack_int : (w : ℕ) (z : ℤ) (bs : List ℕ) → pack_int w z ≡ ok bs → unpack_int w bs ≡ ok z
unfolding pack_int unpack_int
unpack-pack_int w (pos n) bs h = ground (arith, be_value-be_bytes w n, length-be_bytes w n)
unpack-pack_int w (negsuc n) bs h =
    ground (arith, be_value-be_bytes w (256 ^ w - 1 - n), length-be_bytes w (256 ^ w - 1 - n))

pub pack-unpack_int :
    (w : ℕ) (z : ℤ) (bs : List ℕ)
    → 0 < w
    → AllBytes bs
    → unpack_int w bs ≡ ok z
    → pack_int w z ≡ ok bs
unfolding pack_int unpack_int
pack-unpack_int w (pos n) bs p a h = ground (arith, be_bytes-be_value bs a, be_value-lt 0 bs a)
pack-unpack_int w (negsuc n) bs p a h =
    ground (arith, be_bytes-be_value bs a, be_value-lt 0 bs a, even_pow w p)
