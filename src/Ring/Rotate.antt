-- ===== src/Ring/Rotate.antt =====
-- Writing into a list that is read as a ring: what the oldest-first reading becomes.
use instro.Prelude.{
  ℕ, ◌+◌, ◌-◌, ◌≤◌, ◌≡◌, sym, min, List, ◌++◌, take, drop, last, length, length-append, length-take,
  length-drop, drop-append_left, drop-append_right, take-append_right, drop_all, drop-drop,
  drop-take, append-nil, append_assoc, ap, ap₂, ◌∙◌, arith,
}
use instro.Ring.Bounds.{splice}

module _ {ℓ} {A : Type ℓ} where
  -- from index `i` on, round to it
  abbrev pub rotate : ℕ → List A → List A
  rotate i b = drop i b ++ take i b

  pub length-rotate : (i : ℕ) (b : List A) → length (rotate i b) ≡ length b
  length-rotate i b =
      omega (arith, length-append (drop i b) (take i b), length-drop i b, length-take i b)

  take-front : (i : ℕ) (xs ys : List A) → length xs ≡ i → take i (xs ++ ys) ≡ xs
  take-front i xs ys e =
      take-append_right i xs ys (omega arith)
      ∙ ap (λ k. xs ++ take k ys) {y = 0} (omega arith)
      ∙ append-nil xs

  drop-front : (i : ℕ) (xs ys : List A) → length xs ≡ i → drop i (xs ++ ys) ≡ ys
  drop-front i xs ys e =
      drop-append_right i xs ys (omega arith) ∙ ap (λ k. drop k ys) {y = 0} (omega arith)

  pub rotate-append : (i : ℕ) (xs ys : List A) → length xs ≡ i → rotate i (xs ++ ys) ≡ ys ++ xs
  rotate-append i xs ys e = ap₂ ◌++◌ (drop-front i xs ys e) (take-front i xs ys e)

  -- a write that ends before the end of the storage
  pub rotate-splice_fit :
      (i : ℕ) (v b : List A)
      → i + length v ≤ length b
      → rotate (i + length v) (splice i v b) ≡ drop (length v) (rotate i b) ++ v
  rotate-splice_fit i v b h =
      let x = take i b in
      let y = drop i b in
      ap (rotate (i + length v)) (sym (append_assoc x v (drop (i + length v) b)))
      ∙ rotate-append (i + length v) (x ++ v) (drop (i + length v) b)
          (omega (arith, length-append x v, length-take i b))
      ∙ sym (append_assoc (drop (i + length v) b) x v)
      ∙ ap (λ d. (d ++ x) ++ v) (sym (drop-drop (length v) i b))
      ∙ ap (λ d. d ++ v) (sym (drop-append_left (length v) y x (omega (arith, length-drop i b))))

  -- a write that ends exactly there
  pub rotate-splice_end :
      (i : ℕ) (v b : List A)
      → i + length v ≡ length b
      → rotate 0 (splice i v b) ≡ drop (length v) (rotate i b) ++ v
  rotate-splice_end i v b h =
      append-nil (splice i v b)
      ∙ ap (λ d. take i b ++ (v ++ d)) (drop_all (i + length v) b (omega arith))
      ∙ ap (◌++◌ (take i b)) (append-nil v)
      ∙ ap (λ d. d ++ v)
          (sym (drop-front (length v) (drop i b) (take i b) (omega (arith, length-drop i b))))

  -- a write in two pieces, round the end
  pub rotate-splice_wrap :
      (i : ℕ) (p q b : List A)
      → i + length p ≡ length b
      → length q ≤ i
      → rotate (length q) (splice 0 q (splice i p b))
        ≡ drop (length p + length q) (rotate i b) ++ (p ++ q)
  rotate-splice_wrap i p q b h k =
      let x = take i b in
      let y = drop i b in
      let lq = length q in
      ap (λ d. rotate lq (q ++ drop (0 + lq) (x ++ (p ++ d))))
        (drop_all (i + length p) b (omega arith))
      ∙ ap (λ d. rotate lq (q ++ drop (0 + lq) (x ++ d))) (append-nil p)
      ∙ rotate-append lq q (drop (0 + lq) (x ++ p)) (omega arith)
      ∙ ap (λ d. drop d (x ++ p) ++ q) {y = lq} (omega arith)
      ∙ ap (λ d. d ++ q) (drop-append_left lq x p (omega (arith, length-take i b)))
      ∙ append_assoc (drop lq x) p q
      ∙ ap (λ d. drop lq d ++ (p ++ q))
          (sym (drop-front (length p) y x (omega (arith, length-drop i b))))
      ∙ ap (λ d. d ++ (p ++ q)) (drop-drop lq (length p) (y ++ x))

  -- the newest `k` items in a ring, in one piece or in two
  pub last-rotate_one :
      (k i : ℕ) (b : List A)
      → i ≤ length b
      → k ≤ i
      → last k (rotate i b) ≡ take (i - (i - k)) (drop (i - k) b)
  last-rotate_one k i b h le =
      drop-append_right (length (rotate i b) - k) (drop i b) (take i b)
        (omega (arith, length-rotate i b, length-drop i b))
      ∙ ap (λ d. drop d (take i b)) {y = i - k} (omega (arith, length-rotate i b, length-drop i b))
      ∙ drop-take (i - k) i b

  pub last-rotate_two :
      (k i : ℕ) (b : List A)
      → i ≤ length b
      → i ≤ k
      → k ≤ length b
      → last k (rotate i b) ≡ drop (i + length b - k) b ++ take i b
  last-rotate_two k i b h le up =
      drop-append_left (length (rotate i b) - k) (drop i b) (take i b)
        (omega (arith, length-rotate i b, length-drop i b))
      ∙ ap (λ d. d ++ take i b) (drop-drop (length (rotate i b) - k) i b)
      ∙ ap (λ d. drop d b ++ take i b) (omega (arith, length-rotate i b))

  -- Dropping the `length v` oldest of a full ring makes room for `v`: seen through the `s` newest.
  pub last-push :
      (s : ℕ) (b v : List A)
      → s ≤ length b
      → length v ≤ length b
      → last (min (s + length v) (length b)) (drop (length v) b ++ v)
        ≡ last (length b) (last s b ++ v)
  last-push s b v h k =
      let m = length b in
      let n = length v in
      let t = m - min (s + n) m in
      ap (λ d. drop d (drop n b ++ v)) {y = t}
        (omega (arith, length-append (drop n b) v, length-drop n b))
      ∙ drop-append_left t (drop n b) v (omega (arith, length-drop n b))
      ∙ ap (λ d. d ++ v) (drop-drop t n b)
      ∙ ap (λ d. drop d b ++ v) {y = (m - s) + (s + n - m)} (omega arith)
      ∙ ap (λ d. d ++ v) (sym (drop-drop (s + n - m) (m - s) b))
      ∙ sym (drop-append_left (s + n - m) (last s b) v (omega (arith, length-drop (m - s) b)))
      ∙ ap (λ d. drop d (last s b ++ v))
          (omega (arith, length-append (last s b) v, length-drop (m - s) b))
