-- ===== src/Ring/Bounds.antt =====
-- The representation invariant of `NumpyRingBuffer`: indices in range, the storage never resized.
use instro.Prelude.{
  ℕ, ◌+◌, ◌-◌, ◌≤◌, ◌<◌, ◌≡◌, List, ◌++◌, take, drop, length, length-append, length-take,
  length-drop, length-replicate, ap, ◌∙◌, arith,
}
use instro.NdArray.{NdArray}
use instro.Ring.{Ring, new, extend, place, len_arr, tail_slice}

-- Overwriting a part of a list.
abbrev pub splice {ℓ} : {A : Type ℓ} → ℕ → List A → List A → List A
splice i v b = take i b ++ (v ++ drop (i + length v) b)

pub length-splice {ℓ} :
    {A : Type ℓ} (i : ℕ) (v b : List A) → i + length v ≤ length b → length (splice i v b) ≡ length b
length-splice i v b h = omega (
  arith,
  length-append (take i b) (v ++ drop (i + length v) b),
  length-append v (drop (i + length v) b),
  length-take i b,
  length-drop (i + length v) b,
)

module _ {V E : Type 0} (np : NdArray V E) where
  open np use {Arr, elems, zeros, asarray, assign, slice, elems-zeros, elems-assign, elems-slice}

  pub record IsValid (r : Ring np) : Type 0 where
    pub storage : len_arr np r.buffer ≡ r.maxlen
    pub pos : 0 < r.maxlen
    pub index_in : r.index < r.maxlen
    pub size_in : r.size ≤ r.maxlen

  pub new-IsValid : (maxlen : ℕ) → 0 < maxlen → IsValid (new np maxlen)
  unfolding new
  new-IsValid maxlen h = record {
    storage = ap length (elems-zeros maxlen) ∙ length-replicate maxlen np.zero_elem;
    pos = h;
    index_in = h;
    size_in = omega arith;
  }

  pub length-assign :
      (a v : Arr) (i : ℕ)
      → i + len_arr np v ≤ len_arr np a
      → len_arr np (assign a i v) ≡ len_arr np a
  length-assign a v i h = ap length (elems-assign a v i h) ∙ length-splice i (elems v) (elems a) h

  pub length-slice :
      (a : Arr) (i j : ℕ) → i ≤ j → j ≤ len_arr np a → len_arr np (slice a i j) ≡ j - i
  length-slice a i j h k = omega (
    arith,
    ap length (elems-slice a i j),
    length-take (j - i) (drop i (elems a)),
    length-drop i (elems a),
  )

  -- the branch in which the new values fill the buffer
  pub length-tail_slice :
      (k : ℕ) (a : Arr) → 0 < k → k ≤ len_arr np a → len_arr np (tail_slice np k a) ≡ k
  length-tail_slice k a h le = ground (arith, length-slice a (len_arr np a - k) (len_arr np a))

  -- Both ways of writing keep the storage's length.
  pub length-place :
      {r : Ring np} (values : Arr)
      → IsValid r
      → len_arr np values < r.maxlen
      → len_arr np (place np r values (len_arr np values)) ≡ r.maxlen
  unfolding place
  length-place {r} values v h =
      let first = r.maxlen - r.index in
      ground (
        arith,
        v,
        length-assign r.buffer values r.index,
        length-slice values 0 first,
        length-slice values first (len_arr np values),
        length-assign r.buffer (slice values 0 first) r.index,
        length-assign (assign r.buffer r.index (slice values 0 first))
            (slice values first (len_arr np values)) 0,
      )

  -- `extend` keeps the invariant, whatever the number of new values.
  pub extend-IsValid : {r : Ring np} (vs : List V) → IsValid r → IsValid (extend np r vs)
  unfolding extend
  extend-IsValid {r} vs v =
      let values = asarray vs in
      ground (
        arith,
        v,
        length-place values v,
        length-tail_slice r.maxlen values,
        length-assign r.buffer (tail_slice np r.maxlen values) 0,
      )
