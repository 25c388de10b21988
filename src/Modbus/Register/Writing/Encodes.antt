-- ===== src/Modbus/Register/Writing/Encodes.antt =====
-- A raw value that `_validate_raw_value_range` lets through fits the registers of its integer type.
use instro.Modbus.Register.Writing.{map_ok, in_range}
use instro.Prelude.{ℕ, ◌≡◌, refl, sym, ap, subst, ◌∙◌, Bool, some, List, arith, length, ok}
use instro.Prelude.Int.{ℤ}
use instro.Float.{Floats, Number}
use instro.Modbus.{DataType, bool, float32, float64, integer_range, Within, InRange, register_count}
use instro.Modbus.Codec.{to_registers, round_number, pack, encode_value}
use instro.Modbus.Codec.RoundTrip.{encode-eq, not_bool, decode-encode_int}

in_range-Within : (fl : Floats) (r : ℤ × ℤ) (z : ℤ) → in_range fl r z ≡ ok tt → Within (some r) z
in_range-Within fl (lo, hi) z h = (ground (arith, h), ground (arith, h))

module _ (fl : Floats) where
  -- for all swaps `encode_value` returns, with the registers of the type
  abbrev pub Encodes : DataType → Number fl → Type 0
  Encodes t x =
      (b w l : Bool)
      → (regs : List ℕ) × (encode_value fl x t b w l ≡ ok regs) × (length regs ≡ register_count t)

  -- an integer type packs what a number rounds to
  pack-round :
      (t : DataType) (x : Number fl) (z : ℤ)
      → InRange t z
      → round_number fl x ≡ ok z
      → pack fl x t ≡ pack fl (Number.int z) t
  unfolding pack round_number
  pack-round float32 x z i e = absurd i
  pack-round float64 x z i e = absurd i
  pack-round bool x z i e = absurd i
  pack-round _ x z i e = rw e refl

  pub encode_rounded :
      (t : DataType) (r : ℤ × ℤ) (x : Number fl) (z : ℤ)
      → integer_range t ≡ some r
      → in_range fl r z ≡ ok tt
      → round_number fl x ≡ ok z
      → Encodes t x
  encode_rounded t r x z e f h b w l =
      let i = subst (λ o. Within o z) (sym e) (in_range-Within fl r z f) in
      let (regs, got, n, back) = decode-encode_int fl t z b w l i in
      let ne = not_bool t z i in
      (
        regs,
        encode-eq fl x t b w l ne
            ∙ ap (map_ok (to_registers b w l)) (pack-round t x z i h)
            ∙ sym (encode-eq fl (Number.int z) t b w l ne)
            ∙ got,
        n,
      )

  pub encode_bool : (x : Number fl) → Encodes bool x
  unfolding encode_value register_count
  encode_bool x b w l = (_, refl, refl)
