-- ===== src/Ring/Refine.antt =====
-- A valid `NumpyRingBuffer` behaves as the list of its newest `maxlen` values.
use mathlib.Core.List.{map-append}
use native.Mathlib.Nat.{mod-eq_of_lt, mod-eq-sub-mod}
use instro.Prelude.{
  ℕ, ◌+◌, ◌-◌, ◌%◌, ◌≤◌, ◌<◌, ◌≡◌, refl, sym, min, List, [], ◌∷◌, ◌++◌, map, take, drop, last,
  length, length-drop, length-last, last-append_right, last-last, last_all, drop_all, take_all,
  append_assoc, ap, ap₂, ◌∙◌, arith, le→leb, gt→leb, dec_lt, last-append_last, pos→==, zero→==,
  ge→ltb, lt→ltb, length-zero, append-nil,
}
use instro.NdArray.{NdArray}
use instro.Ring.{Ring, new, extend, place, get_latest, read, start_of, len_arr, tail_slice}
use instro.Ring.Bounds.{IsValid, splice, length-tail_slice, extend-IsValid, new-IsValid}
use instro.Ring.Place.{rotate-place}
use instro.Ring.Rotate.{rotate, length-rotate, last-rotate_one, last-rotate_two, last-push}

module _ {V E : Type 0} (np : NdArray V E) where
  open np use {
    Arr, elems, zeros, asarray, assign, slice, cast, elems-zeros, elems-asarray, elems-assign,
    elems-slice, elems-concatenate,
  }

  -- what the ring holds, oldest first
  abbrev pub contents : Ring np → List E
  contents r = last r.size (rotate r.index (elems r.buffer))

  pub length-contents : {r : Ring np} → IsValid np r → length (contents r) ≡ r.size
  length-contents {r} v =
      length-last r.size (rotate r.index (elems r.buffer))
      ∙ omega (arith, length-rotate r.index (elems r.buffer), v)

  contents-extend_full :
      {r : Ring np} (a : Arr)
      → IsValid np r
      → r.maxlen ≤ len_arr np a
      → last r.maxlen (rotate 0 (elems (assign r.buffer 0 (tail_slice np r.maxlen a))))
        ≡ last r.maxlen (contents r ++ elems a)
  contents-extend_full {r} a v h =
      let m = r.maxlen in
      let n = len_arr np a in
      let t = tail_slice np m a in
      let et : elems t ≡ last m (elems a) = rw (pos→== m (omega (arith, v))) (
        elems-slice a (n - m) n
        ∙ take_all (n - (n - m)) (last m (elems a))
            (omega (arith, length-drop (n - m) (elems a)))) in
      let lt : length (elems t) ≡ m = length-tail_slice np m a (omega (arith, v)) h in
      ap (λ d. last m (d ++ [])) (elems-assign r.buffer t 0 (omega (arith, lt, v)))
      ∙ ap (last m) (append-nil (splice 0 (elems t) (elems r.buffer)))
      ∙ ap (λ d. last m (elems t ++ d))
          (drop_all (0 + length (elems t)) (elems r.buffer) (omega (arith, lt, v)))
      ∙ ap (last m) (append-nil (elems t) ∙ et)
      ∙ last-last m m (elems a)
      ∙ ap (λ k. last k (elems a)) {y = m} (omega arith)
      ∙ sym (last-append_right m (contents r) (elems a) h)

  contents-extend_part :
      {r : Ring np} (a : Arr)
      → IsValid np r
      → len_arr np a < r.maxlen
      → last
          (min (r.size + len_arr np a) r.maxlen)
          (rotate ((r.index + len_arr np a) % r.maxlen) (elems (place np r a (len_arr np a))))
        ≡ last r.maxlen (contents r ++ elems a)
  contents-extend_part {r} a v h =
      let b = rotate r.index (elems r.buffer) in
      let e : length b ≡ r.maxlen = omega (arith, v, length-rotate r.index (elems r.buffer)) in
      rw rotate-place (
        ap (λ m. last (min (r.size + len_arr np a) m) (drop (len_arr np a) b ++ elems a)) (sym e)
        ∙ last-push r.size b (elems a) (omega (arith, v)) (omega (arith, v))
        ∙ ap (λ m. last m (contents r ++ elems a)) e)

  -- Extending a valid ring appends the converted values and forgets all but the newest `maxlen`.
  pub contents-extend :
      {r : Ring np} (vs : List V)
      → IsValid np r
      → contents (extend np r vs) ≡ last r.maxlen (contents r ++ map cast vs)
  unfolding extend
  contents-extend {r} vs v =
      let a = asarray vs in
      let n = len_arr np a in
      rw (← elems-asarray vs) (elim (dec_lt 0 n) [
        | no empty ↦ rw (zero→== n (omega arith)) (
            sym (
              ap (λ d. last r.maxlen (contents r ++ d)) (length-zero (elems a) (omega arith))
              ∙ ap (last r.maxlen) (append-nil (contents r))
              ∙ last_all r.maxlen (contents r) (omega (arith, length-contents v, v))))
        | yes some_new ↦ rw (pos→== n some_new) (elim (dec_lt n r.maxlen) [
          | yes part ↦ rw (gt→leb r.maxlen n part) (contents-extend_part a v part)
          | no full ↦ rw (le→leb r.maxlen n (omega arith)) (contents-extend_full a v (omega arith))
        ])
      ])

  -- the two ways of reading, on the number `k` of values that are there
  get_latest_one :
      {r : Ring np} (k : ℕ)
      → IsValid np r
      → 0 < k
      → k ≤ r.index
      → elems (read np r k) ≡ last k (rotate r.index (elems r.buffer))
  unfolding read
  get_latest_one {r} k v pos le =
      let i = r.index in
      let b = elems r.buffer in
      let start : start_of np r k ≡ i - k =
        mod-eq-sub-mod {n = i + r.maxlen - k} {m = r.maxlen} (omega arith)
        ∙ mod-eq_of_lt {n = i + r.maxlen - k - r.maxlen} {m = r.maxlen} (omega (arith, v))
        ∙ omega arith in
      rw (start, lt→ltb (i - k) i (omega arith))
        (elems-slice r.buffer (i - k) i ∙ sym (last-rotate_one k i b (omega (arith, v)) le))

  get_latest_wrap :
      {r : Ring np} (k : ℕ)
      → IsValid np r
      → 0 < k
      → r.index < k
      → k ≤ r.maxlen
      → elems (read np r k) ≡ last k (rotate r.index (elems r.buffer))
  unfolding read
  get_latest_wrap {r} k v pos lt le =
      let i = r.index in
      let b = elems r.buffer in
      let m = r.maxlen in
      let start : start_of np r k ≡ i + m - k =
        mod-eq_of_lt {n = i + m - k} {m = m} (omega (arith, v)) in
      rw (start, ge→ltb (i + m - k) i (omega arith))
        (elems-concatenate (slice r.buffer (i + m - k) (len_arr np r.buffer)) (slice r.buffer 0 i)
          ∙ ap₂ ◌++◌
              (elems-slice r.buffer (i + m - k) (len_arr np r.buffer)
                ∙ take_all (len_arr np r.buffer - (i + m - k)) (drop (i + m - k) b)
                    (omega (arith, length-drop (i + m - k) b)))
              (elems-slice r.buffer 0 i ∙ ap (λ d. take d b) (omega arith))
          ∙ ap (λ d. drop d b ++ take i b) {y = i + length b - k} (omega (arith, v))
          ∙ sym (last-rotate_two k i b (omega (arith, v)) (omega arith) (omega (arith, v))))

  -- Reading `n` values gives the newest `n` that the ring holds, oldest of them first.
  pub get_latest_lem :
      {r : Ring np} (n : ℕ) → IsValid np r → elems (get_latest np r n) ≡ last n (contents r)
  unfolding get_latest
  get_latest_lem {r} n v =
      let k = min n r.size in
      let i = r.index in
      let m = r.maxlen in
      let b = elems r.buffer in
      let goal : last n (contents r) ≡ last k (rotate i b) = last-last n r.size (rotate i b) in
      rw goal (elim (dec_lt 0 k) [
        | no nothing ↦
            rw (zero→== k (omega arith))
              (elems-zeros 0 ∙ sym (drop_all (length (rotate i b) - k) (rotate i b) (omega arith)))
        | yes more ↦ rw (pos→== k more) (elim (dec_lt i k) [
          | yes wraps ↦ get_latest_wrap k v more wraps (omega (arith, v))
          | no one ↦ get_latest_one k v more (omega arith)
        ])
      ])

  contents-new : (maxlen : ℕ) → contents (new np maxlen) ≡ []
  unfolding new
  contents-new maxlen =
      let b = elems (zeros maxlen) in drop_all (length (rotate 0 b) - 0) (rotate 0 b) (omega arith)

  -- a history of batches
  unfoldable pub extend_all : Ring np → List (List V) → Ring np
  extend_all r [] = r
  extend_all r (vs ∷ rest) = extend_all (extend np r vs) rest

  abbrev pub joined : List (List V) → List V
  joined [] = []
  joined (vs ∷ rest) = vs ++ joined rest

  maxlen-extend : (r : Ring np) (vs : List V) → (extend np r vs).maxlen ≡ r.maxlen
  unfolding extend
  maxlen-extend r vs = ground arith

  maxlen-new : (maxlen : ℕ) → (new np maxlen).maxlen ≡ maxlen
  unfolding new
  maxlen-new maxlen = refl

  extend_all-IsValid :
      {r : Ring np} (batches : List (List V)) → IsValid np r → IsValid np (extend_all r batches)
  unfolding extend_all
  extend_all-IsValid [] v = v
  extend_all-IsValid {r} (vs ∷ rest) v =
      extend_all-IsValid {r = extend np r vs} rest (extend-IsValid np vs v)

  contents-extend_all :
      {r : Ring np} (batches : List (List V))
      → IsValid np r
      → contents (extend_all r batches) ≡ last r.maxlen (contents r ++ map cast (joined batches))
  unfolding extend_all
  contents-extend_all {r} [] v = sym (
      ap (last r.maxlen) (append-nil (contents r))
      ∙ last_all r.maxlen (contents r) (omega (arith, length-contents v, v)))
  contents-extend_all {r} (vs ∷ rest) v =
      let m = r.maxlen in
      let c = contents r in
      let tail = map cast (joined rest) in
      contents-extend_all {r = extend np r vs} rest (extend-IsValid np vs v)
      ∙ ap₂ (λ k d. last k (d ++ tail)) (maxlen-extend r vs) (contents-extend vs v)
      ∙ last-append_last m (c ++ map cast vs) tail
      ∙ ap (last m) (append_assoc c (map cast vs) tail)
      ∙ ap (λ d. last m (c ++ d)) (sym (map-append cast vs (joined rest)))

  -- After any history of batches, `get_latest(n)` on a new ring of positive length returns the
  -- newest min(n, maxlen) of all values ever added, converted, in the order of their arrival.
  pub get_latest-extend_all :
      (maxlen n : ℕ) (batches : List (List V))
      → 0 < maxlen
      → elems (get_latest np (extend_all (new np maxlen) batches) n)
        ≡ last (min n maxlen) (map cast (joined batches))
  get_latest-extend_all maxlen n batches h =
      let r = extend_all (new np maxlen) batches in
      get_latest_lem n (extend_all-IsValid batches (new-IsValid np maxlen h))
      ∙ ap (last n) (contents-extend_all batches (new-IsValid np maxlen h))
      ∙ ap (λ c. last n (last (new np maxlen).maxlen (c ++ map cast (joined batches))))
          (contents-new maxlen)
      ∙ ap (λ m. last n (last m (map cast (joined batches)))) (maxlen-new maxlen)
      ∙ last-last n maxlen (map cast (joined batches))
