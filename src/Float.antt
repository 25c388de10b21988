-- ===== src/Float.antt =====
-- Python's `float`, which the repository does not implement, as an interface: the operations that
-- its code calls. The laws say what is documented of packing, of rounding whole numbers, and of comparing.
use instro.Prelude.{
  ℕ, zero, suc, ◌+◌, ◌-◌, ◌*◌, ◌/◌, ◌%◌, ◌^◌, ◌≤◌, ◌<◌, min, String, ◌≡◌, refl, sym, ap, ap₂, subst,
  fun_ext, ◌∙◌, ◌≢◌, ◌↔◌, ◌⊎◌, inl, inr, Bool, true, false, not, ◌&&◌, ◌||◌, Option, none, some,
  List, [], ◌∷◌, ◌++◌, map, append-nil, append_assoc, arith, eq_iff, eq_refl, dec_lt, ℕ_discrete,
  ltb, leb, ◌==◌, if◌then◌else◌, Bool-cases, Option-cases, length, get_elem?, set, take, drop,
  replicate, last, length-append, length-take, length-drop, length-last, last-min, drop_all,
  take_all, take-append-drop, last_all, last-append_last, Result, ok, err, guard, Error,
  Result-cases, map_ok, value_error,
}
pub mod Two
use instro.Modbus.Bytes.{AllBytes}
use instro.Prelude.Int.{ℤ}

pub record Floats : Type 1 where
  pub F : Type 0
  -- float(n)
  pub of_int : ℤ → Result F
  -- round(x) and int(x), which raise for NaN and the infinities
  pub round : F → Result ℤ
  pub trunc : F → Result ℤ
  -- x < y, x == y, x <= y
  pub lt : F → F → Bool
  pub eq : F → F → Bool
  pub le : F → F → Bool
  -- n < x, x < n, n == x for an integer n, which Python compares exactly
  pub lt_if : ℤ → F → Bool
  pub lt_fi : F → ℤ → Bool
  pub eq_if : ℤ → F → Bool
  pub add : F → F → F
  pub sub : F → F → F
  pub mul : F → F → F
  -- x / y, which raises for y == 0
  pub div : F → F → Result F
  -- the value of x / y, where y is not 0
  pub over : F → F → F
  pub abs : F → F
  -- the literal n.0
  pub lit : ℕ → F
  pub inf : F
  pub is_finite : F → Bool
  -- float(s) of an ASCII text, a ValueError if it is no number
  pub parse : List ℕ → Result F
  pub zero_f : F
  -- 1e-6
  pub millionth : F
  -- struct.pack(">d", x), struct.unpack(">d", b)[0]
  pub pack64 : F → List ℕ
  pub unpack64 : List ℕ → F
  -- struct.pack(">f", x), an OverflowError for what a float32 cannot hold
  pub pack32 : F → Result (List ℕ)
  pub unpack32 : List ℕ → F
  pub parse_raises : (s : List ℕ) (e : Error) → parse s ≡ err e → e ≡ value_error
  pub lt-le : (x y : F) → le x y ≡ true → lt y x ≡ false
  pub lt-lit : (a b : ℕ) → a ≤ b → lt (lit b) (lit a) ≡ false
  -- a float that equals an integer is rounded and truncated to it
  pub round_whole : (x : F) (z : ℤ) → eq_if z x ≡ true → round x ≡ ok z
  pub trunc_whole : (x : F) (z : ℤ) → eq_if z x ≡ true → trunc x ≡ ok z
  pub length-pack64 : (x : F) → length (pack64 x) ≡ 8
  pub pack64-AllBytes : (x : F) → AllBytes (pack64 x)
  pub unpack64-pack64 : (x : F) → unpack64 (pack64 x) ≡ x
  pub length-pack32 : (x : F) (bs : List ℕ) → pack32 x ≡ ok bs → length bs ≡ 4

-- an `int | float | bool`, as Python tells them apart
pub data Number (fl : Floats) : Type 0 where
  int : ℤ → Number fl
  float : Floats.F fl → Number fl
  bool : Bool → Number fl
