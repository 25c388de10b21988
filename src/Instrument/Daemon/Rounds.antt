-- ===== src/Instrument/Daemon/Rounds.antt =====
-- What passes of the background thread of instro/lib/instrument.py do.
use instro.Prelude.{
  ℕ, suc, ◌+◌, ◌≤◌, ◌<◌, ◌≡◌, refl, ◌⊎◌, inl, inr, Bool, true, false, not, ◌&&◌, ◌||◌, List, [],
  ◌∷◌, arith, if◌then◌else◌, Bool-cases, length, take, length-append, length-drop,
}
use instro.Float.{Floats}
use instro.Prelude.Exec.{Exec}
use instro.Instrument.{Instrument}
use instro.Instrument.Daemon.{check_achievable_interval, append_work_time, reset_daemon_timing}

module _ (fl : Floats) where
  open fl use {F}

  length-append_work_time :
      (t : F) (ts : List F) → length (append_work_time fl t ts) ≤ length ts + 1
  length-append_work_time t ts = rw (length-drop, length-append) (omega arith)

module _ (fl : Floats) {P B M W : Type 0} where
  open fl use {F, lit, le}

  module _ (call : M → Exec (Instrument F P B M W) (Unit {0})) where
    -- every function called once, whatever it raises
    unfoldable pub call_each : List M → Instrument F P B M W → Instrument F P B M W
    call_each [] s = s
    call_each (m ∷ ms) s = call_each ms (call m s).1

    -- the state after a pass: that after calls of the first functions
    abbrev Reached : List M → Instrument F P B M W → Instrument F P B M W → Type 0
    Reached ms s t =
        (k : ℕ) × (t ≡ call_each (take k ms) s) × ((k ≡ length ms) ⊎ (t.stop_event ≡ true))

  -- how many warnings passes log that take these times
  unfoldable pub warnings : List F → Instrument F P B M W → ℕ
  warnings [] s = 0
  warnings (t ∷ ts) s =
      let (warned, next) = check_achievable_interval fl t s in
      let rest = warnings ts next in if warned then suc rest else rest

  -- what one check does, by whether it warns
  record Checked (s : Instrument F P B M W) (r : Bool × Instrument F P B M W) : Type 0 where
    warned_once : (r.0 && not r.1.interval_warning_issued) ≡ false
    stays : (s.interval_warning_issued && (r.0 || not r.1.interval_warning_issued)) ≡ false
    filled : r.0 ≡ true → 9 ≤ length s.work_times
    grows : length r.1.work_times ≤ length s.work_times + 1

  check-Checked : (t : F) (s : Instrument F P B M W) → Checked s (check_achievable_interval fl t s)
  unfolding check_achievable_interval
  check-Checked t s = record {
    warned_once = ground arith;
    stays = ground arith;
    filled = ground (arith, length-append_work_time fl t s.work_times);
    grows = ground (arith, length-append_work_time fl t s.work_times);
  }

  no_more :
      (ts : List F) (s : Instrument F P B M W)
      → s.interval_warning_issued ≡ true
      → warnings ts s ≡ 0
  unfolding warnings
  no_more [] s h = refl
  no_more (t ∷ ts) s h =
      let next = check_achievable_interval fl t s in
      let silent : next.0 ≡ false = ground (arith, h, (check-Checked t s).stays) in
      rw silent (no_more ts next.1 (ground (arith, h, (check-Checked t s).stays)))

  at_most_one : (ts : List F) (s : Instrument F P B M W) → warnings ts s ≤ 1
  unfolding warnings
  at_most_one [] s = omega arith
  at_most_one (t ∷ ts) s = elim (Bool-cases (check_achievable_interval fl t s).0) [
    | inl e ↦
        let next = check_achievable_interval fl t s in
        rw (e, no_more ts next.1 (ground (arith, e, (check-Checked t s).warned_once))) (omega arith)
    | inr e ↦ rw e (at_most_one ts (check_achievable_interval fl t s).1)
  ]

  early :
      (ts : List F) (s : Instrument F P B M W)
      → length s.work_times + length ts < 10
      → warnings ts s ≡ 0
  unfolding warnings
  early [] s h = refl
  early (t ∷ ts) s h = elim (Bool-cases (check_achievable_interval fl t s).0) [
    | inl e ↦ absurd (let full = (check-Checked t s).filled e in omega arith)
    | inr e ↦
        let grows = (check-Checked t s).grows in
        rw e (early ts (check_achievable_interval fl t s).1 (omega arith))
  ]

  -- However often the interval is checked after the timing was reset, at most one warning is logged,
  -- and none in fewer than ten passes.
  pub warnings_lem :
      (ts : List F) (s : Instrument F P B M W)
      → (warnings ts (reset_daemon_timing fl s) ≤ 1)
        × (length ts < 10 → warnings ts (reset_daemon_timing fl s) ≡ 0)
  unfolding reset_daemon_timing
  warnings_lem ts s = (at_most_one ts _, λ h. early ts (reset_daemon_timing fl s) (omega arith))
