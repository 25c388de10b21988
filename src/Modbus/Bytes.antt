-- ===== src/Modbus/Bytes.antt =====
-- Big-endian bytes of numbers, and the reorderings of bytes in instro/lib/transports/modbus.py.
use instro.Prelude.{
  ℕ, zero, suc, ◌+◌, ◌*◌, ◌/◌, ◌%◌, ◌^◌, ◌<◌, ◌≡◌, refl, sym, ap, ap₂, ◌∙◌, Bool, ◌&&◌, List, [],
  ◌∷◌, ◌++◌, append-nil, append_assoc, arith, leb, ◌==◌, if◌then◌else◌, length, take, drop,
  length-append,
}
use native.Mathlib.Nat.{pow-suc, mul-le-mul_right}

-- the `k` low bytes of `n`, highest first
unfoldable pub be_bytes : ℕ → ℕ → List ℕ
be_bytes zero n = []
be_bytes (suc k) n = be_bytes k (n / 256) ++ (n % 256 ∷ [])

-- int.from_bytes(bs, "big"), after the bytes that make up `acc`
unfoldable pub be_value : ℕ → List ℕ → ℕ
be_value acc [] = acc
be_value acc (b ∷ bs) = be_value (acc * 256 + b) bs

abbrev pub AllBytes : List ℕ → Type 0
AllBytes [] = Unit {0}
AllBytes (b ∷ bs) = (b < 256) × AllBytes bs

pub length-be_bytes : (k n : ℕ) → length (be_bytes k n) ≡ k
unfolding be_bytes
length-be_bytes zero n = refl
length-be_bytes (suc k) n =
    omega (arith, length-append (be_bytes k (n / 256)) (n % 256 ∷ []), length-be_bytes k (n / 256))

be_bytes-snoc : (xs : List ℕ) (b : ℕ) → AllBytes xs → b < 256 → AllBytes (xs ++ (b ∷ []))
be_bytes-snoc [] b h lt = (lt, tt)
be_bytes-snoc (x ∷ xs) b h lt = (h.0, be_bytes-snoc xs b h.1 lt)

pub be_bytes-AllBytes : (k n : ℕ) → AllBytes (be_bytes k n)
unfolding be_bytes
be_bytes-AllBytes zero n = tt
be_bytes-AllBytes (suc k) n =
    be_bytes-snoc (be_bytes k (n / 256)) (n % 256) (be_bytes-AllBytes k (n / 256)) (omega arith)

be_value-append :
    (acc b : ℕ) (bs : List ℕ) → be_value acc (bs ++ (b ∷ [])) ≡ be_value acc bs * 256 + b
unfolding be_value
be_value-append acc b [] = refl
be_value-append acc b (c ∷ bs) = be_value-append (acc * 256 + c) b bs

pub be_value-be_bytes : (k n : ℕ) → n < 256 ^ k → be_value 0 (be_bytes k n) ≡ n
unfolding be_bytes
be_value-be_bytes zero n h = unfold be_value in omega arith
be_value-be_bytes (suc k) n h = omega (
  arith,
  be_value-append 0 (n % 256) (be_bytes k (n / 256)),
  pow-suc 256 k,
  be_value-be_bytes k (n / 256) (omega (arith, pow-suc 256 k)),
)

be_bytes-value :
    (j acc : ℕ) (bs : List ℕ)
    → AllBytes bs
    → be_bytes (length bs + j) (be_value acc bs) ≡ be_bytes j acc ++ bs
unfolding be_value be_bytes
be_bytes-value j acc [] h =
    ap (λ k. be_bytes k acc) {x = 0 + j} {y = j} (omega arith) ∙ sym (append-nil (be_bytes j acc))
be_bytes-value j acc (b ∷ bs) h =
    ap (λ k. be_bytes k (be_value (acc * 256 + b) bs)) {x = suc (length bs) + j}
      {y = length bs + suc j} (omega arith)
    ∙ be_bytes-value (suc j) (acc * 256 + b) bs h.1
    ∙ ap₂ (λ q d. (be_bytes j q ++ (d ∷ [])) ++ bs) {y = acc} {v = b} (omega (arith, h))
        (omega (arith, h))
    ∙ append_assoc (be_bytes j acc) (b ∷ []) bs

pub be_bytes-be_value : (bs : List ℕ) → AllBytes bs → be_bytes (length bs) (be_value 0 bs) ≡ bs
be_bytes-be_value bs h =
    ap (λ k. be_bytes k (be_value 0 bs)) (omega arith)
    ∙ be_bytes-value 0 0 bs h
    ∙ (unfold be_bytes in refl)

pub be_value-lt :
    (acc : ℕ) (bs : List ℕ) → AllBytes bs → be_value acc bs < (acc + 1) * 256 ^ length bs
unfolding be_value
be_value-lt acc [] h = omega arith
be_value-lt acc (b ∷ bs) h = omega (
  arith,
  be_value-lt (acc * 256 + b) bs h.1,
  mul-le-mul_right {m = acc * 256 + b + 1} {n = (acc + 1) * 256} (256 ^ length bs)
      (omega (arith, h)),
  pow-suc 256 (length bs),
  ap (λ (k : ℕ). (acc + 1) * k) (pow-suc 256 (length bs)),
)

-- `raw[i : i + 2][::-1]` for each i
unfoldable pub swap_bytes : List ℕ → List ℕ
swap_bytes [] = []
swap_bytes (a ∷ []) = a ∷ []
swap_bytes (a ∷ b ∷ r) = b ∷ a ∷ swap_bytes r

-- `chunk[2:4] + chunk[0:2]` for each whole chunk of four
unfoldable pub swap_chunks : List ℕ → List ℕ
swap_chunks [] = []
swap_chunks (a ∷ []) = a ∷ []
swap_chunks (a ∷ b ∷ []) = a ∷ b ∷ []
swap_chunks (a ∷ b ∷ c ∷ []) = a ∷ b ∷ c ∷ []
swap_chunks (a ∷ b ∷ c ∷ d ∷ r) = c ∷ d ∷ a ∷ b ∷ swap_chunks r

-- the three options, under their guards
unfoldable pub byte_swapped : Bool → List ℕ → List ℕ
byte_swapped on raw = if on then swap_bytes raw else raw

unfoldable pub word_swapped : Bool → List ℕ → List ℕ
word_swapped on raw = if on && leb 4 (length raw) then swap_chunks raw else raw

unfoldable pub long_swapped : Bool → List ℕ → List ℕ
long_swapped on raw = if on && length raw == 8 then drop 4 raw ++ take 4 raw else raw
