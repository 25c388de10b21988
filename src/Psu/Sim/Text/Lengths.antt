-- ===== src/Psu/Sim/Text/Lengths.antt =====
-- The text functions make nothing longer, so only a long line has a number that int() refuses.
use instro.Prelude.{
  length-map, ℕ, ◌+◌, ◌≤◌, ◌<◌, ◌≡◌, refl, ◌⊎◌, inl, inr, List, [], ◌∷◌, ◌++◌, arith, ltb, ◌==◌,
  Bool-cases, length, length-append, ok, err, Error,
}
use instro.Psu.Sim.Text.{
  Text, upper, upper_char, lstrip, rstrip, strip, partition, split_from, split_digits, decimal,
  int_of_digits, max_str_digits, drop_mark, drop_colon, is_empty, normalize_parts, normalize_header,
  join_colon,
}

length-lstrip : (s : Text) → length (lstrip s) ≤ length s
unfolding lstrip
length-lstrip [] = omega arith
length-lstrip (c ∷ s) = ground (arith, length-lstrip s)

length-rstrip : (s : Text) → length (rstrip s) ≤ length s
unfolding rstrip
length-rstrip [] = omega arith
length-rstrip (c ∷ s) = ground (arith, length-rstrip s)

pub length-strip : (s : Text) → length (strip s) ≤ length s
unfolding strip
length-strip s = omega (arith, length-rstrip (lstrip s), length-lstrip s)

pub length-partition : (s : Text) → length (partition s).0 ≤ length s
unfolding partition
length-partition [] = omega arith
length-partition (c ∷ s) = ground (arith, length-partition s)

pub length-drop_mark : (s : Text) → length (drop_mark s).0 ≤ length s
unfolding drop_mark
length-drop_mark [] = omega arith
length-drop_mark (c ∷ []) = ground arith
length-drop_mark (c ∷ d ∷ s) = ground (arith, length-drop_mark (d ∷ s))

length-drop_colon : (s : Text) → length (drop_colon s) ≤ length s
length-drop_colon [] = omega arith
length-drop_colon (c ∷ s) = ground arith

length-split_digits : (s : Text) → length (split_digits s).1 ≤ length s
unfolding split_digits
length-split_digits [] = omega arith
length-split_digits (c ∷ s) = ground (arith, length-split_digits s)

-- no part has more than `n` characters
abbrev Short : ℕ → List Text → Type 0
Short n [] = Unit {0}
Short n (p ∷ ps) = (length p ≤ n) × Short n ps

split_from-Short :
    (n sep : ℕ) (part s : Text) → length part + length s ≤ n → Short n (split_from sep part s)
unfolding split_from
split_from-Short n sep part [] h = (omega arith, tt)
split_from-Short n sep part (c ∷ s) h = elim (Bool-cases (c == sep)) [
  | inl e ↦ rw e (omega arith, split_from-Short n sep [] s (omega arith))
  | inr e ↦
      rw e
        (split_from-Short n sep (part ++ (c ∷ [])) s (omega (arith, length-append part (c ∷ []))))
]

int_of_digits-ends :
    (s : Text)
    → ((x : ℕ) × (int_of_digits s ≡ ok x))
      ⊎ ((int_of_digits s ≡ err Error.value_error) × (max_str_digits < length s))
unfolding int_of_digits
int_of_digits-ends s = elim (Bool-cases (ltb max_str_digits (length s))) [
  | inl e ↦ rw e (inr (refl, ground arith))
  | inr e ↦ rw e (inl (decimal 0 s, refl))
]

-- the loop returns, or a number stands in a part that is over the limit
normalize_parts-ends :
    (n i : ℕ) (ps : List Text)
    → Short n ps
    → ((x : List Text × ℕ) × (normalize_parts i ps ≡ ok x))
      ⊎ ((normalize_parts i ps ≡ err Error.value_error) × (max_str_digits < n))
unfolding normalize_parts
normalize_parts-ends n i [] h = inl (([], i), refl)
normalize_parts-ends n i (p ∷ ps) h =
    let digits = (split_digits (upper p)).1 in
    let base = (split_digits (upper p)).0 in
    elim (Bool-cases (is_empty digits)) [
      | inl e ↦ elim (normalize_parts-ends n i ps h.1) [
        | inl (x, r) ↦ inl ((base ∷ x.0, x.1), rw (e, r) refl)
        | inr (r, l) ↦ inr (rw (e, r) refl, l)
      ]
      | inr e ↦ elim (int_of_digits-ends digits) [
        | inr (r, l) ↦ inr (
          rw (e, r) refl,
          omega (arith, length-split_digits (upper p), length-map p upper_char, h.0),
        )
        | inl (k, q) ↦ elim (normalize_parts-ends n k ps h.1) [
          | inl (x, r) ↦ inl ((base ∷ x.0, x.1), rw (e, q, r) refl)
          | inr (r, l) ↦ inr (rw (e, q, r) refl, l)
        ]
      ]
    ]

-- A header is read, or it is longer than the digits that int() takes.
pub normalize_header-ends :
    (header : Text)
    → ((x : Text × ℕ) × (normalize_header header ≡ ok x))
      ⊎ ((normalize_header header ≡ err Error.value_error) × (max_str_digits < length header))
unfolding normalize_header
normalize_header-ends header =
    let parts = split_from b':' [] (drop_colon header) in
    elim (normalize_parts-ends (length header) 1 parts (
      split_from-Short (length header) b':' [] (drop_colon header)
        (omega (arith, length-drop_colon header)))) [
          | inl (x, r) ↦ inl ((join_colon x.0, x.1), rw r refl)
          | inr (r, l) ↦ inr (rw r refl, l)
        ]
