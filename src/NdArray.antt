-- ===== src/NdArray.antt =====
-- What instro/lib/publishers/channel_buffer.py uses of numpy: one-dimensional arrays of one dtype.
-- numpy is not part of the repository, so it is an interface, with its documented behaviour on
-- shapes that fit as laws, and lists as one way to meet them.
use instro.Prelude.{ℕ, ◌+◌, ◌-◌, ◌≤◌, List, ◌++◌, map, ◌≡◌, refl, length, take, drop, replicate}

-- `V` holds the values that callers pass, `E` what an element of the dtype can hold.
pub record NdArray (V E : Type 0) : Type 1 where
  pub Arr : Type 0
  -- arr.tolist()
  pub elems : Arr → List E
  pub zero_elem : E
  -- the conversion to the dtype
  pub cast : V → E
  -- np.zeros(n, dtype)
  pub zeros : ℕ → Arr
  -- np.asarray(values, dtype)
  pub asarray : List V → Arr
  -- a[i : i + len(v)] = v
  pub assign : Arr → ℕ → Arr → Arr
  -- a[i:j], 0 <= i
  pub slice : Arr → ℕ → ℕ → Arr
  -- np.concatenate([a, b])
  pub concatenate : Arr → Arr → Arr
  pub elems-zeros : (n : ℕ) → elems (zeros n) ≡ replicate n zero_elem
  pub elems-asarray : (vs : List V) → elems (asarray vs) ≡ map cast vs
  pub elems-assign :
      (a v : Arr) (i : ℕ)
      → i + length (elems v) ≤ length (elems a)
      → elems (assign a i v)
        ≡ take i (elems a) ++ (elems v ++ drop (i + length (elems v)) (elems a))
  pub elems-slice : (a : Arr) (i j : ℕ) → elems (slice a i j) ≡ take (j - i) (drop i (elems a))
  pub elems-concatenate : (a b : Arr) → elems (concatenate a b) ≡ elems a ++ elems b

-- Lists, written with the conversion `f`.
abbrev pub list_array : {V E : Type 0} → E → (V → E) → NdArray V E
list_array {V} {E} z f = record {
  Arr = List E;
  elems = λ a. a;
  zero_elem = z;
  cast = f;
  zeros = λ n. replicate n z;
  asarray = map f;
  assign = λ a i v. take i a ++ (v ++ drop (i + length v) a);
  slice = λ a i j. take (j - i) (drop i a);
  concatenate = λ a b. a ++ b;
  elems-zeros = λ n. refl;
  elems-asarray = λ vs. refl;
  elems-assign = λ a v i h. refl;
  elems-slice = λ a i j. refl;
  elems-concatenate = λ a b. refl;
}
