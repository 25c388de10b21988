-- ===== src/Modbus.antt =====
-- The vocabulary of instro/lib/transports/modbus.py.
pub mod Bytes
mod Swaps
pub mod Codec
pub mod Line
pub mod Register
pub mod Config
pub mod Device
use instro.Prelude.Int.{◌≤ℤ◌, ℤ, pos, negsuc}
use instro.Prelude.{Option, some, none, ℕ}

pub data RegisterType : Type 0 where
  holding input coil discrete : RegisterType

pub data DataType : Type 0 where
  uint16 int16 uint32 int32 uint64 int64 float32 float64 bool : DataType

-- Number of 16-bit registers that a value spans.
unfoldable pub register_count : DataType → ℕ
register_count uint16 = 1
register_count int16 = 1
register_count bool = 1
register_count uint32 = 2
register_count int32 = 2
register_count float32 = 2
register_count uint64 = 4
register_count int64 = 4
register_count float64 = 4

-- INTEGER_RANGES of instro/modbus/types.py; the types it has no entry for are no integers.
abbrev pub integer_range : DataType → Option (ℤ × ℤ)
integer_range uint16 = some (pos 0, pos 65535)
integer_range int16 = some (negsuc 32767, pos 32767)
integer_range uint32 = some (pos 0, pos 4294967295)
integer_range int32 = some (negsuc 2147483647, pos 2147483647)
integer_range uint64 = some (pos 0, pos 18446744073709551615)
integer_range int64 = some (negsuc 9223372036854775807, pos 9223372036854775807)
integer_range _ = none

abbrev pub Within : Option (ℤ × ℤ) → ℤ → Type 0
Within none z = ⊥
Within (some (lo, hi)) z = (lo ≤ℤ z) × (z ≤ℤ hi)

-- `z` is a raw value that the integer type can hold
abbrev pub InRange : DataType → ℤ → Type 0
InRange t z = Within (integer_range t) z

abbrev pub Ranged : Option (ℤ × ℤ) → Type 0
Ranged none = ⊥
Ranged (some r) = Unit

abbrev pub IsInteger : DataType → Type 0
IsInteger t = Ranged (integer_range t)
