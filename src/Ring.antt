-- ===== src/Ring.antt =====
-- `NumpyRingBuffer` of instro/lib/publishers/channel_buffer.py. `dtype` is the choice of `np`.
pub mod Bounds
pub mod Rotate
mod Place
pub mod Refine
mod Tests
use instro.Prelude.{
  ℕ, ◌+◌, ◌-◌, ◌%◌, min, List, map, length, take, drop, ltb, leb, ◌==◌, if◌then◌else◌,
}
use instro.NdArray.{NdArray}

module _ {V E : Type 0} (np : NdArray V E) where
  open np use {Arr, elems, zeros, asarray, assign, slice, concatenate}

  pub record Ring : Type 0 where
    -- `_buffer`
    pub buffer : Arr
    pub maxlen : ℕ
    -- `_index`, the next write position
    pub index : ℕ
    -- `_size`
    pub size : ℕ

  unfoldable pub new : ℕ → Ring
  new maxlen = record { buffer = zeros maxlen; maxlen = maxlen; index = 0; size = 0 }

  -- the length of a numpy array
  abbrev pub len_arr : Arr → ℕ
  len_arr a = length (elems a)

  -- `values[-k:]`, which is the whole array for k = 0
  abbrev pub tail_slice : ℕ → Arr → Arr
  tail_slice k a = if k == 0 then slice a 0 (len_arr a) else slice a (len_arr a - k) (len_arr a)

  -- The write that fits beside what is already there, in one piece or round the end.
  unfoldable pub place : Ring → Arr → ℕ → Arr
  place r values n =
      let first = r.maxlen - r.index in
      if leb (r.index + n) r.maxlen
      then assign r.buffer r.index values
      else assign (assign r.buffer r.index (slice values 0 first)) 0 (slice values first n)

  unfoldable pub extend : Ring → List V → Ring
  unfolding place
  extend r vs =
      let values = asarray vs in
      let n = len_arr values in
      if n == 0
      then r
      else if leb r.maxlen n
      then record r {
        buffer = assign r.buffer 0 (tail_slice r.maxlen values);
        index = 0;
        size = r.maxlen;
      }
      else record r {
        buffer = place r values n;
        index = (r.index + n) % r.maxlen;
        size = min (r.size + n) r.maxlen;
      }

  -- `(self._index - n) % self._maxlen`: Python's remainder is not negative. Here n <= maxlen.
  abbrev pub start_of : Ring → ℕ → ℕ
  start_of r n = (r.index + r.maxlen - n) % r.maxlen

  -- the last `k` values, 0 < k, in one slice or two
  unfoldable pub read : Ring → ℕ → Arr
  read r k =
      let start = start_of r k in
      if ltb start r.index
      then slice r.buffer start r.index
      else concatenate (slice r.buffer start (len_arr r.buffer)) (slice r.buffer 0 r.index)

  unfoldable pub get_latest : Ring → ℕ → Arr
  get_latest r n = let k = min n r.size in if k == 0 then zeros 0 else read r k

  -- `__len__`
  unfoldable pub len : Ring → ℕ
  len r = r.size
