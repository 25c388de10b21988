-- ===== src/Modbus/Codec.antt =====
-- `decode_registers` and `encode_value` of instro/lib/transports/modbus.py.
use instro.Prelude.{
  ◌>>=◌, ℕ, zero, suc, ◌+◌, ◌-◌, ◌*◌, ◌/◌, ◌%◌, ◌^◌, ◌≤◌, ◌<◌, min, String, ◌≡◌, refl, sym, ap, ap₂,
  subst, fun_ext, ◌∙◌, ◌≢◌, ◌↔◌, ◌⊎◌, inl, inr, Bool, true, false, not, ◌&&◌, ◌||◌, Option, none,
  some, List, [], ◌∷◌, ◌++◌, map, append-nil, append_assoc, arith, eq_iff, eq_refl, dec_lt,
  ℕ_discrete, ltb, leb, ◌==◌, if◌then◌else◌, Bool-cases, Option-cases, length, get_elem?, set, take,
  drop, replicate, last, length-append, length-take, length-drop, length-last, last-min, drop_all,
  take_all, take-append-drop, last_all, last-append_last, Result, ok, err, guard, Error,
  Result-cases, map_ok,
}
pub mod RoundTrip
mod Struct
mod Registers
mod Packing
mod Tests
use instro.Prelude.Int.{ℤ, pos, negsuc}
use instro.Float.{Floats, Number}
use instro.Modbus.{DataType, uint16, int16, uint32, int32, uint64, int64, float32, float64, bool}
use instro.Modbus.Bytes.{be_bytes, be_value, byte_swapped, word_swapped, long_swapped}
use Struct.{pack_uint, pack_int, unpack_uint, unpack_int}

-- reg.to_bytes(2, "big")
abbrev pub reg_bytes : ℕ → Result (List ℕ)
reg_bytes reg = if ltb reg 65536 then ok (be_bytes 2 reg) else err Error.overflow_error

unfoldable pub regs_bytes : List ℕ → Result (List ℕ)
regs_bytes [] = ok []
regs_bytes (reg ∷ regs) = do b ← reg_bytes reg; bs ← regs_bytes regs; ok (b ++ bs)

-- [int.from_bytes(raw_bytes[i : i + 2], "big") for i in range(0, len(raw_bytes), 2)]
unfoldable pub words : List ℕ → List ℕ
words [] = []
words (a ∷ []) = be_value 0 (a ∷ []) ∷ []
words (a ∷ b ∷ r) = be_value 0 (a ∷ b ∷ []) ∷ words r

-- the end of `encode_value`: swaps in the order long, word, byte, then registers
unfoldable pub to_registers : Bool → Bool → Bool → List ℕ → List ℕ
to_registers byte_swap word_swap long_swap raw =
    words (byte_swapped byte_swap (word_swapped word_swap (long_swapped long_swap raw)))

module _ (fl : Floats) where
  open fl use {F, of_int, round, eq, zero_f, pack64, unpack64, pack32, unpack32}

  -- round(value)
  unfoldable pub round_number : Number fl → Result ℤ
  round_number (Number.int z) = ok z
  round_number (Number.float x) = round x
  round_number (Number.bool b) = ok (if b then pos 1 else pos 0)

  -- float(value)
  unfoldable pub to_float : Number fl → Result F
  to_float (Number.int z) = of_int z
  to_float (Number.float x) = ok x
  to_float (Number.bool b) = of_int (if b then pos 1 else pos 0)

  -- `1 if value else 0`
  unfoldable pub truth : Number fl → Bool
  truth (Number.int (pos zero)) = false
  truth (Number.int (pos (suc n))) = true
  truth (Number.int (negsuc n)) = true
  truth (Number.float x) = not (eq x zero_f)
  truth (Number.bool b) = b

  -- the packing branches of `encode_value`; `bool` is not among them
  unfoldable pub pack : Number fl → DataType → Result (List ℕ)
  pack value uint16 = do z ← round_number value; pack_uint 2 z
  pack value int16 = do z ← round_number value; pack_int 2 z
  pack value uint32 = do z ← round_number value; pack_uint 4 z
  pack value int32 = do z ← round_number value; pack_int 4 z
  pack value uint64 = do z ← round_number value; pack_uint 8 z
  pack value int64 = do z ← round_number value; pack_int 8 z
  pack value float32 = do x ← to_float value; pack32 x
  pack value float64 = do x ← to_float value; ok (pack64 x)
  pack value bool = err Error.value_error

  unfoldable pub encode_value : Number fl → DataType → Bool → Bool → Bool → Result (List ℕ)
  unfolding pack to_registers
  encode_value value bool byte_swap word_swap long_swap = ok ((if truth value then 1 else 0) ∷ [])
  encode_value value data_type byte_swap word_swap long_swap = do
    raw ← pack value data_type
    ok (to_registers byte_swap word_swap long_swap raw)

  -- `struct.unpack(...)[0]` for each type; `bool` looks at the registers
  unfoldable pub unpack : List ℕ → DataType → List ℕ → Result (Number fl)
  unpack regs uint16 raw = map_ok Number.int (unpack_uint 2 raw)
  unpack regs int16 raw = map_ok Number.int (unpack_int 2 raw)
  unpack regs uint32 raw = map_ok Number.int (unpack_uint 4 raw)
  unpack regs int32 raw = map_ok Number.int (unpack_int 4 raw)
  unpack regs uint64 raw = map_ok Number.int (unpack_uint 8 raw)
  unpack regs int64 raw = map_ok Number.int (unpack_int 8 raw)
  unpack regs float32 raw =
      if length raw == 4 then ok (Number.float (unpack32 raw)) else err Error.struct_error
  unpack regs float64 raw =
      if length raw == 8 then ok (Number.float (unpack64 raw)) else err Error.struct_error
  unpack [] bool raw = err Error.index_error
  unpack (r ∷ regs) bool raw = ok (Number.int (if r == 0 then pos 0 else pos 1))

  unfoldable pub decode_registers : List ℕ → DataType → Bool → Bool → Bool → Result (Number fl)
  unfolding unpack
  decode_registers regs data_type byte_swap word_swap long_swap = do
    raw ← regs_bytes regs
    unpack regs data_type
        (long_swapped long_swap (word_swapped word_swap (byte_swapped byte_swap raw)))
