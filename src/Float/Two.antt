-- ===== src/Float/Two.antt =====
-- Two floats, 0.0 and 1.0, as an instance of the interface, to run the code on.
use instro.Prelude.{
  ℕ, zero, suc, ◌≤◌, ◌≡◌, refl, Bool, true, false, not, ◌&&◌, ◌||◌, List, [], ◌∷◌, arith, ◌==◌,
  if◌then◌else◌, length, Result, ok, err, Error, value_error,
}
use instro.Prelude.Int.{negsuc, ltb_ℤ, ℤ, pos}
use instro.Modbus.Bytes.{AllBytes}
use instro.Float.{Floats}

abbrev bit_of : ℤ → Bool
bit_of (pos zero) = false
bit_of _ = true

abbrev whole : Bool → ℤ
whole false = pos 0
whole true = pos 1

abbrev same : ℤ → Bool → Bool
same (pos zero) x = not x
same (pos (suc zero)) x = x
same _ x = false

pub round_same : (x : Bool) (z : ℤ) → same z x ≡ true → Path (Result ℤ) (ok (whole x)) (ok z)
round_same false (pos zero) h = refl
round_same true (pos zero) h = cc
round_same false (pos (suc zero)) h = cc
round_same true (pos (suc zero)) h = refl
round_same x (pos (suc (suc n))) h = cc
round_same x (negsuc n) h = cc

-- "\x3f\xf0" starts the packed 1.0
abbrev packed : Bool → List ℕ
packed false = 0 ∷ 0 ∷ 0 ∷ 0 ∷ 0 ∷ 0 ∷ 0 ∷ 0 ∷ []
packed true = 63 ∷ 240 ∷ 0 ∷ 0 ∷ 0 ∷ 0 ∷ 0 ∷ 0 ∷ []

abbrev packed_single : Bool → List ℕ
packed_single false = 0 ∷ 0 ∷ 0 ∷ 0 ∷ []
packed_single true = 63 ∷ 128 ∷ 0 ∷ 0 ∷ []

abbrev unpacked : List ℕ → Bool
unpacked (b ∷ bs) = b == 63
unpacked [] = false

pub packed-AllBytes : (x : Bool) → AllBytes (packed x)
packed-AllBytes false = ground arith
packed-AllBytes true = ground arith

pub length-packed : (x : Bool) → length (packed x) ≡ 8
length-packed false = refl
length-packed true = refl

pub unpacked-packed : (x : Bool) → unpacked (packed x) ≡ x
unpacked-packed false = refl
unpacked-packed true = refl

pub length-packed_single : (x : Bool) (bs : List ℕ) → ok (packed_single x) ≡ ok bs → length bs ≡ 4
length-packed_single false bs e = ground arith
length-packed_single true bs e = ground arith

abbrev lit_bit : ℕ → Bool
lit_bit zero = false
lit_bit (suc n) = true

-- "0" and "1"
abbrev parse_bit : List ℕ → Result Bool
parse_bit (b ∷ []) = if b == b'0' then ok false else if b == b'1' then ok true else err value_error
parse_bit _ = err value_error

pub lt-le_bit : (x y : Bool) → (not x || y) ≡ true → (not y && x) ≡ false
lt-le_bit x y h = ground arith

pub lt-lit_bit : (a b : ℕ) → a ≤ b → (not (lit_bit b) && lit_bit a) ≡ false
lt-lit_bit zero b h = ground arith
lt-lit_bit (suc a) zero h = absurd (omega arith)
lt-lit_bit (suc a) (suc b) h = refl

pub parse_bit_raises : (s : List ℕ) (e : Error) → parse_bit s ≡ err e → e ≡ value_error
parse_bit_raises [] e h = ground arith
parse_bit_raises (a ∷ []) e h = ground arith
parse_bit_raises (a ∷ b ∷ s) e h = ground arith

abbrev pub two : Floats
two = record {
  F = Bool;
  of_int = λ z. ok (bit_of z);
  round = λ x. ok (whole x);
  trunc = λ x. ok (whole x);
  lt = λ x y. not x && y;
  eq = λ x y. if x then y else not y;
  le = λ x y. not x || y;
  lt_if = λ z x. ltb_ℤ z (whole x);
  lt_fi = λ x z. ltb_ℤ (whole x) z;
  eq_if = λ z x. same z x;
  add = λ x y. x || y;
  sub = λ x y. x && not y;
  mul = λ x y. x && y;
  div = λ x y. if y then ok x else err value_error;
  over = λ x y. x;
  abs = λ x. x;
  lit = lit_bit;
  inf = true;
  is_finite = λ x. true;
  parse = parse_bit;
  parse_raises = parse_bit_raises;
  lt-le = lt-le_bit;
  lt-lit = lt-lit_bit;
  zero_f = false;
  millionth = false;
  pack64 = packed;
  unpack64 = unpacked;
  pack32 = λ x. ok (packed_single x);
  unpack32 = unpacked;
  round_whole = round_same;
  trunc_whole = round_same;
  length-pack64 = length-packed;
  pack64-AllBytes = packed-AllBytes;
  unpack64-pack64 = unpacked-packed;
  length-pack32 = length-packed_single;
}
