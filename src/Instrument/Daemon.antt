-- ===== src/Instrument/Daemon.antt =====
-- One pass of the background thread of instro/lib/instrument.py: it calls the registered functions,
-- checks the interval and publishes how long that took. How long it took is a parameter. A flag that
-- another thread sets is a change of the state by one of the functions called.
use instro.Prelude.{
  ℕ, zero, suc, ◌+◌, ◌-◌, ◌*◌, ◌/◌, ◌%◌, ◌^◌, ◌≤◌, ◌<◌, min, String, ◌≡◌, refl, sym, ap, ap₂, subst,
  fun_ext, ◌∙◌, ◌≢◌, ◌↔◌, ◌⊎◌, inl, inr, Bool, true, false, not, ◌&&◌, ◌||◌, Option, none, some,
  List, [], ◌∷◌, ◌++◌, map, append-nil, append_assoc, arith, eq_iff, eq_refl, dec_lt, ℕ_discrete,
  ltb, leb, ◌==◌, if◌then◌else◌, Bool-cases, Option-cases, length, get_elem?, set, take, drop,
  replicate, last, length-append, length-take, length-drop, length-last, last-min, drop_all,
  take_all, take-append-drop, last_all, last-append_last, Result, ok, err, guard, Error,
  Result-cases, map_ok,
}
use instro.Float.{Floats}
use instro.Prelude.Exec.{Exec, pure, modify, ◌>>=◌, ◌>>◌}
use instro.Instrument.{Instrument}
pub mod Rounds

module _ (fl : Floats) where
  open fl use {F, lit, add, over}

  -- append to a deque of at most 10
  abbrev pub append_work_time : F → List F → List F
  append_work_time x xs = let longer = xs ++ (x ∷ []) in drop (length longer - 10) longer

  unfoldable pub sum_of : F → List F → F
  sum_of a [] = a
  sum_of a (x ∷ xs) = sum_of (add a x) xs

  -- sum(work_times) / len(work_times)
  abbrev pub average : List F → F
  average xs = over (sum_of (lit 0) xs) (lit (length xs))

module _ (fl : Floats) {P B M W : Type 0} where
  open fl use {F, lit, le, add, over}

  unfoldable pub reset_daemon_timing : Instrument F P B M W → Instrument F P B M W
  reset_daemon_timing s = record s { work_times = []; interval_warning_issued = false }

  -- the setter of `background_interval`
  unfoldable pub set_background_interval : F → Instrument F P B M W → Instrument F P B M W
  unfolding reset_daemon_timing
  set_background_interval seconds s = reset_daemon_timing (record s { interval = seconds })

  unfoldable pub add_background_daemon_function : M → Instrument F P B M W → Instrument F P B M W
  unfolding reset_daemon_timing
  add_background_daemon_function method s =
      reset_daemon_timing (record s { background_methods = s.background_methods ++ (method ∷ []) })

  unfoldable pub define_background_daemon : M → Instrument F P B M W → Instrument F P B M W
  unfolding add_background_daemon_function
  define_background_daemon method s =
      add_background_daemon_function method (record s { background_methods = [] })

  -- `_check_achievable_interval`, and whether it logs the warning
  unfoldable pub check_achievable_interval : F → Instrument F P B M W → Bool × Instrument F P B M W
  check_achievable_interval work_time s =
      if le s.interval (lit 0)
      then (false, s)
      else (let kept = append_work_time fl work_time s.work_times in
          let next = record s { work_times = kept } in
          if s.interval_warning_issued || not (length kept == 10)
          then (false, next)
          else if le (average fl kept) s.interval
          then (false, next)
          else (true, record next { interval_warning_issued = true }))

  -- a function that raised ends the pass if the thread is to stop
  abbrev pub next_state :
      Result (Unit {0}) → Instrument F P B M W → Instrument F P B M W → Instrument F P B M W
  next_state (ok u) next rest = rest
  next_state (err e) next rest = if next.stop_event then next else rest

  -- `_background_daemon`; `call` runs a registered function
  unfoldable pub background_daemon :
      (M → Exec (Instrument F P B M W) (Unit {0}))
      → List M
      → Instrument F P B M W
      → Instrument F P B M W
  background_daemon call [] s = s
  background_daemon call (m ∷ ms) s =
      next_state (call m s).0 (call m s).1 (background_daemon call ms (call m s).1)
