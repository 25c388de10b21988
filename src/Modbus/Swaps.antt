-- ===== src/Modbus/Swaps.antt =====
-- The three reorderings undo themselves, keep the number of bytes and keep bytes bytes.
use instro.Prelude.{
  take-append-drop, ℕ, zero, suc, ◌≡◌, refl, ap, ◌∙◌, Bool, List, [], ◌∷◌, ◌++◌, arith, length,
  take, drop, length-drop,
}
use instro.Modbus.Bytes.{
  AllBytes, swap_bytes, swap_chunks, byte_swapped, word_swapped, long_swapped,
}
use instro.Ring.Rotate.{rotate, length-rotate, rotate-append}

pub swap_bytes-swap_bytes : (bs : List ℕ) → swap_bytes (swap_bytes bs) ≡ bs
unfolding swap_bytes
swap_bytes-swap_bytes [] = refl
swap_bytes-swap_bytes (a ∷ []) = refl
swap_bytes-swap_bytes (a ∷ b ∷ r) = ap (λ t. a ∷ b ∷ t) (swap_bytes-swap_bytes r)

length-swap_bytes : (bs : List ℕ) → length (swap_bytes bs) ≡ length bs
unfolding swap_bytes
length-swap_bytes [] = refl
length-swap_bytes (a ∷ []) = refl
length-swap_bytes (a ∷ b ∷ r) = ap (λ n. suc (suc n)) (length-swap_bytes r)

swap_bytes-AllBytes : (bs : List ℕ) → AllBytes bs → AllBytes (swap_bytes bs)
unfolding swap_bytes
swap_bytes-AllBytes [] h = h
swap_bytes-AllBytes (a ∷ []) h = h
swap_bytes-AllBytes (a ∷ b ∷ r) h = (h.1.0, (h.0, swap_bytes-AllBytes r h.1.1))

swap_chunks-swap_chunks : (bs : List ℕ) → swap_chunks (swap_chunks bs) ≡ bs
unfolding swap_chunks
swap_chunks-swap_chunks [] = refl
swap_chunks-swap_chunks (a ∷ []) = refl
swap_chunks-swap_chunks (a ∷ b ∷ []) = refl
swap_chunks-swap_chunks (a ∷ b ∷ c ∷ []) = refl
swap_chunks-swap_chunks (a ∷ b ∷ c ∷ d ∷ r) =
    ap (λ t. a ∷ b ∷ c ∷ d ∷ t) (swap_chunks-swap_chunks r)

length-swap_chunks : (bs : List ℕ) → length (swap_chunks bs) ≡ length bs
unfolding swap_chunks
length-swap_chunks [] = refl
length-swap_chunks (a ∷ []) = refl
length-swap_chunks (a ∷ b ∷ []) = refl
length-swap_chunks (a ∷ b ∷ c ∷ []) = refl
length-swap_chunks (a ∷ b ∷ c ∷ d ∷ r) = ap (λ n. suc (suc (suc (suc n)))) (length-swap_chunks r)

swap_chunks-AllBytes : (bs : List ℕ) → AllBytes bs → AllBytes (swap_chunks bs)
unfolding swap_chunks
swap_chunks-AllBytes [] h = h
swap_chunks-AllBytes (a ∷ []) h = h
swap_chunks-AllBytes (a ∷ b ∷ []) h = h
swap_chunks-AllBytes (a ∷ b ∷ c ∷ []) h = h
swap_chunks-AllBytes (a ∷ b ∷ c ∷ d ∷ r) h =
    (h.1.1.0, (h.1.1.1.0, (h.0, (h.1.0, swap_chunks-AllBytes r h.1.1.1.1))))

-- on exactly eight bytes, `raw[4:8] + raw[0:4]` twice
swap_halves : (bs : List ℕ) → length bs ≡ 8 → rotate 4 (rotate 4 bs) ≡ bs
swap_halves bs l =
    rotate-append 4 (drop 4 bs) (take 4 bs) (omega (arith, length-drop 4 bs))
    ∙ take-append-drop 4 bs

AllBytes-append : (xs ys : List ℕ) → AllBytes xs → AllBytes ys → AllBytes (xs ++ ys)
AllBytes-append [] ys h k = k
AllBytes-append (x ∷ xs) ys h k = (h.0, AllBytes-append xs ys h.1 k)

AllBytes-take : (n : ℕ) (xs : List ℕ) → AllBytes xs → AllBytes (take n xs)
AllBytes-take zero xs h = tt
AllBytes-take (suc n) [] h = tt
AllBytes-take (suc n) (x ∷ xs) h = (h.0, AllBytes-take n xs h.1)

AllBytes-drop : (n : ℕ) (xs : List ℕ) → AllBytes xs → AllBytes (drop n xs)
AllBytes-drop zero xs h = h
AllBytes-drop (suc n) [] h = tt
AllBytes-drop (suc n) (x ∷ xs) h = AllBytes-drop n xs h.1

swap_halves-AllBytes : (bs : List ℕ) → AllBytes bs → AllBytes (rotate 4 bs)
swap_halves-AllBytes bs h =
    AllBytes-append (drop 4 bs) (take 4 bs) (AllBytes-drop 4 bs h) (AllBytes-take 4 bs h)

pub length-byte_swapped : (on : Bool) (bs : List ℕ) → length (byte_swapped on bs) ≡ length bs
unfolding byte_swapped
length-byte_swapped on bs = ground (arith, length-swap_bytes bs)

pub length-word_swapped : (on : Bool) (bs : List ℕ) → length (word_swapped on bs) ≡ length bs
unfolding word_swapped
length-word_swapped on bs = ground (arith, length-swap_chunks bs)

pub length-long_swapped : (on : Bool) (bs : List ℕ) → length (long_swapped on bs) ≡ length bs
unfolding long_swapped
length-long_swapped on bs = ground (arith, length-rotate 4 bs)

pub byte_swapped_twice : (on : Bool) (bs : List ℕ) → byte_swapped on (byte_swapped on bs) ≡ bs
unfolding byte_swapped
byte_swapped_twice on bs = ground (arith, swap_bytes-swap_bytes bs)

pub word_swapped_twice : (on : Bool) (bs : List ℕ) → word_swapped on (word_swapped on bs) ≡ bs
unfolding word_swapped
word_swapped_twice on bs = ground (arith, swap_chunks-swap_chunks bs, length-swap_chunks bs)

pub long_swapped_twice : (on : Bool) (bs : List ℕ) → long_swapped on (long_swapped on bs) ≡ bs
unfolding long_swapped
long_swapped_twice on bs = ground (arith, swap_halves bs, length-rotate 4 bs)

pub byte_swapped-AllBytes : (on : Bool) (bs : List ℕ) → AllBytes bs → AllBytes (byte_swapped on bs)
unfolding byte_swapped
byte_swapped-AllBytes on bs h = ground (arith, swap_bytes-AllBytes bs h)

pub word_swapped-AllBytes : (on : Bool) (bs : List ℕ) → AllBytes bs → AllBytes (word_swapped on bs)
unfolding word_swapped
word_swapped-AllBytes on bs h = ground (arith, swap_chunks-AllBytes bs h)

pub long_swapped-AllBytes : (on : Bool) (bs : List ℕ) → AllBytes bs → AllBytes (long_swapped on bs)
unfolding long_swapped
long_swapped-AllBytes on bs h = ground (arith, swap_halves-AllBytes bs h)
