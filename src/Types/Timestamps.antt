-- ===== src/Types/Timestamps.antt =====
-- `Measurement.create_timestamps_from_dt` of instro/lib/types.py.
use instro.Prelude.{
  ◌∙◌, ◌-◌, ℕ, zero, suc, ◌+◌, ◌<◌, Bool, true, false, List, [], ◌∷◌, length, get_elem?, some, ◌≡◌,
  refl, ap, arith, if◌then◌else◌,
}
use instro.Prelude.Int.{ℤ, pos, ◌+ℤ◌, ◌-ℤ◌, ◌*ℤ◌, sub_ℕ}

-- `[t0 + i * dt for i in range(a, a + n)]`
spaced : ℤ → ℤ → ℕ → ℕ → List ℤ
spaced t0 dt a zero = []
spaced t0 dt a (suc n) = (t0 +ℤ pos a *ℤ dt) ∷ spaced t0 dt (suc a) n

-- `dt * (length - 1)` at length 0 is `-dt`, so the difference is an integer.
unfoldable pub create_timestamps_from_dt : ℤ → ℤ → ℕ → Bool → List ℤ
unfolding spaced
create_timestamps_from_dt t0 dt length backstamp =
    let start = if backstamp then t0 -ℤ dt *ℤ sub_ℕ length 1 else t0 in spaced start dt 0 length

length-spaced : (t0 dt : ℤ) (a n : ℕ) → length (spaced t0 dt a n) ≡ n
unfolding spaced
length-spaced t0 dt a zero = refl
length-spaced t0 dt a (suc n) = ap suc (length-spaced t0 dt (suc a) n)

get_elem?-spaced :
    (t0 dt : ℤ) (a n i : ℕ)
    → i < n
    → get_elem? (spaced t0 dt a n) i ≡ some (t0 +ℤ pos (a + i) *ℤ dt)
unfolding spaced
get_elem?-spaced t0 dt a zero i h = absurd (omega arith)
get_elem?-spaced t0 dt a (suc n) zero h = ap (λ k. some (t0 +ℤ pos k *ℤ dt)) (omega arith)
get_elem?-spaced t0 dt a (suc n) (suc i) h =
    get_elem?-spaced t0 dt (suc a) n i (omega arith)
    ∙ ap (λ k. some (t0 +ℤ pos k *ℤ dt)) {x = suc a + i} {y = a + suc i} (omega arith)

spaced_from_zero :
    (t0 dt : ℤ) (n i : ℕ) → i < n → get_elem? (spaced t0 dt 0 n) i ≡ some (t0 +ℤ pos i *ℤ dt)
spaced_from_zero t0 dt n i h =
    get_elem?-spaced t0 dt 0 n i h ∙ ap (λ j. some (t0 +ℤ pos j *ℤ dt)) (omega arith)

back_and_forth : (t0 dt : ℤ) (k : ℕ) → t0 -ℤ dt *ℤ pos k +ℤ pos k *ℤ dt ≡ t0
unfolding ◌+ℤ◌ ◌-ℤ◌ ◌*ℤ◌
back_and_forth t0 dt k = ground arith

times_zero : (t0 dt : ℤ) → t0 +ℤ pos 0 *ℤ dt ≡ t0
unfolding ◌+ℤ◌ ◌*ℤ◌
times_zero t0 dt = ground arith

-- For at least one sample: the list has one timestamp per sample; every sample lies `dt` after the
-- one before it, sample `i` being `i * dt` after the first; and the first sample is at t0, or, with
-- `backstamp`, the last one is.
pub create_timestamps_lem :
    (t0 dt : ℤ) (n : ℕ) (backstamp : Bool)
    → 0 < n
    → let ts = create_timestamps_from_dt t0 dt n backstamp in
      (length ts ≡ n)
      × ((first : ℤ) × ((i : ℕ) → i < n → get_elem? ts i ≡ some (first +ℤ pos i *ℤ dt)))
      × (get_elem? ts (if backstamp then n - 1 else 0) ≡ some t0)
unfolding create_timestamps_from_dt
create_timestamps_lem t0 dt zero b h = absurd (omega arith)
create_timestamps_lem t0 dt (suc k) true h =
    let first = t0 -ℤ dt *ℤ sub_ℕ (suc k) 1 in
    (
      length-spaced first dt 0 (suc k),
      (first, spaced_from_zero first dt (suc k)),
      get_elem?-spaced first dt 0 (suc k) (suc k - 1) (omega arith)
          ∙ ap (λ j. some (first +ℤ pos j *ℤ dt)) {y = k} (omega arith)
          ∙ ap (λ j. some (t0 -ℤ dt *ℤ j +ℤ pos k *ℤ dt)) {y = pos k} (ground arith)
          ∙ ap some (back_and_forth t0 dt k),
    )
create_timestamps_lem t0 dt (suc k) false h = (
  length-spaced t0 dt 0 (suc k),
  (t0, spaced_from_zero t0 dt (suc k)),
  ap some (times_zero t0 dt),
)
