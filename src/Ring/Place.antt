-- ===== src/Ring/Place.antt =====
-- The two ways in which `extend` writes values that do not fill the ring.
use native.Mathlib.Nat.{mod-eq_of_lt, mod-eq-sub-mod, mod_self}
use instro.Prelude.{
  ◌+◌, ◌-◌, ◌%◌, ◌≤◌, ◌<◌, ◌≡◌, ◌++◌, take, drop, length, length-take, length-drop,
  take-append-drop, take_all, ap, ap₂, ◌∙◌, arith, le→leb, gt→leb, dec_lt,
}
use instro.NdArray.{NdArray}
use instro.Ring.{Ring, place, len_arr}
use instro.Ring.Bounds.{IsValid, splice, length-splice}
use instro.Ring.Rotate.{rotate, rotate-splice_fit, rotate-splice_end, rotate-splice_wrap}

module _ {V E : Type 0} (np : NdArray V E) where
  open np use {
    Arr, elems, zeros, asarray, assign, slice, cast, elems-zeros, elems-asarray, elems-assign,
    elems-slice, elems-concatenate,
  }

  -- what the two branches of `place` leave in the storage
  pub place-fit :
      {r : Ring np} (a : Arr)
      → IsValid np r
      → r.index + len_arr np a ≤ r.maxlen
      → elems (place np r a (len_arr np a)) ≡ splice r.index (elems a) (elems r.buffer)
  unfolding place
  place-fit {r} a v h =
      rw (le→leb (r.index + len_arr np a) r.maxlen h)
        (elems-assign r.buffer a r.index (omega (arith, v)))

  place-wrap :
      {r : Ring np} (a : Arr)
      → IsValid np r
      → len_arr np a < r.maxlen
      → r.maxlen < r.index + len_arr np a
      → let first = r.maxlen - r.index in
        elems (place np r a (len_arr np a))
        ≡ splice 0 (drop first (elems a)) (splice r.index (take first (elems a)) (elems r.buffer))
  unfolding place
  place-wrap {r} a v short h =
      let first = r.maxlen - r.index in
      let n = len_arr np a in
      let p = slice a 0 first in
      let q = slice a first n in
      let one = assign r.buffer r.index p in
      let ep : elems p ≡ take first (elems a) =
        elems-slice a 0 first ∙ ap (λ k. take k (elems a)) (omega arith) in
      let eq : elems q ≡ drop first (elems a) =
        elems-slice a first n
        ∙ take_all (n - first) (drop first (elems a))
            (omega (arith, length-drop first (elems a))) in
      let e1 : elems one ≡ splice r.index (elems p) (elems r.buffer) =
        elems-assign r.buffer p r.index
          (omega (arith, v, ap length ep, length-take first (elems a))) in
      rw (gt→leb (r.index + n) r.maxlen h) (
        elems-assign one q 0 (
          omega (
            arith,
            v,
            ap length eq,
            ap length e1,
            ap length ep,
            length-take first (elems a),
            length-drop first (elems a),
            length-splice r.index (elems p) (elems r.buffer),
          ))
        ∙ ap₂ (splice 0) eq (e1 ∙ ap (λ d. splice r.index d (elems r.buffer)) ep))

  -- the ring read oldest first, after a write that leaves old values in place
  pub rotate-place :
      {r : Ring np} (a : Arr)
      → IsValid np r
      → len_arr np a < r.maxlen
      → rotate ((r.index + len_arr np a) % r.maxlen) (elems (place np r a (len_arr np a)))
        ≡ drop (len_arr np a) (rotate r.index (elems r.buffer)) ++ elems a
  rotate-place {r} a v h =
      let i = r.index in
      let n = len_arr np a in
      let m = r.maxlen in
      let b = elems r.buffer in
      let first = m - i in
      elim (dec_lt (i + n) m) [
        | yes fit ↦
            rw (mod-eq_of_lt fit, place-fit a v (omega arith))
              (rotate-splice_fit i (elems a) b (omega (arith, v)))
        | no over ↦ elim (dec_lt m (i + n)) [
          | yes wraps ↦
              ap₂ rotate
                (mod-eq-sub-mod {n = i + n} {m = m} (omega arith)
                  ∙ mod-eq_of_lt {n = i + n - m} {m = m} (omega (arith, v))
                  ∙ omega (arith, length-drop first (elems a), v))
                (place-wrap a v h wraps)
              ∙ rotate-splice_wrap i (take first (elems a)) (drop first (elems a)) b
                  (omega (arith, v, length-take first (elems a)))
                  (omega (arith, v, length-drop first (elems a)))
              ∙ ap₂ (λ d e. drop d (rotate i b) ++ e)
                  (omega (arith, length-take first (elems a), length-drop first (elems a), v))
                  (take-append-drop first (elems a))
          | no here ↦
              ap₂ rotate (ap (λ d. d % m) {y = m} (omega arith) ∙ mod_self m)
                (place-fit a v (omega arith))
              ∙ rotate-splice_end i (elems a) b (omega (arith, v))
        ]
      ]
