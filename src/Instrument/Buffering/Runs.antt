-- ===== src/Instrument/Buffering/Runs.antt =====
-- An instrument of instro/lib/instrument.py over any sequence of uses.
use instro.Prelude.{
  if-cases, ℕ, ◌≤◌, String, ◌≡◌, refl, sym, ap, ◌∙◌, Bool, true, false, not, ◌&&◌, Option, none,
  some, List, [], ◌∷◌, ◌++◌, arith, if◌then◌else◌, Result, ok, err, Error,
}
use instro.Float.{Floats}
use instro.Publishers.{Publisher}
use instro.Types.{Published}
use instro.Prelude.Exec.{resume}
use instro.Instrument.{Instrument, Buffer, Slot, given, channel_buffer, add_publisher}
use instro.Instrument.Daemon.{
  reset_daemon_timing, set_background_interval, add_background_daemon_function,
  define_background_daemon, check_achievable_interval,
}
use instro.Instrument.Publishing.{publish}
use instro.Instrument.Buffering.{
  without_buffer, drop_slot, forget, drop_buffer, has_buffer, setup_channel_buffer, start, stop,
  get_channel, read_buffer, close_publishers, close,
}
use instro.Instrument.Buffering.Wiring.{
  is_some, places, places-append, has_buffer-places, places-without_buffer, expected_places,
  offer_all-Kept, close_slots-Kept,
}

-- uses of an instrument; `dies` is the end of the thread by an exception that nothing catches
pub data Use (F V P M : Type 0) : Type 0 where
  starts stops closes dies : Use F V P M
  adds_publisher : P → Use F V P M
  publishes : Published V → Use F V P M
  reads : String → ℕ → Bool → F → Use F V P M
  sets_interval : F → Use F V P M
  adds_function : M → Use F V P M
  defines_function : M → Use F V P M
  checks_interval : F → Use F V P M

module _ {B : Type 0} where
  some-expected : (a b : Option B) → expected_places a ≡ expected_places b → is_some a ≡ is_some b
  some-expected none none h = refl
  some-expected none (some b) h = absurd (omega arith)
  some-expected (some a) none h = absurd (omega arith)
  some-expected (some a) (some b) h = refl

  at_most_one : (b : Option B) → expected_places b ≤ 1
  at_most_one none = omega arith
  at_most_one (some b) = omega arith

module _ {P B : Type 0} where
  setup_places :
      (b : Option B) (ps : List (Slot P))
      → places ps ≡ expected_places b
      → places (if has_buffer ps then ps else ps ++ (channel_buffer ∷ [])) ≡ 1
  unfolding places
  setup_places b ps h =
      if-cases (λ qs. places qs ≡ 1) (has_buffer ps) ps (ps ++ (channel_buffer ∷ []))
        (λ e. ground (arith, e, h, at_most_one b, has_buffer-places ps))
        (λ e. places-append ps (channel_buffer ∷ []) ∙ ground (arith, e, has_buffer-places ps))

module _ {P : Type 0} where
  drop_places : (ps : List (Slot P)) → places ps ≤ 1 → places (drop_slot ps) ≡ 0
  drop_places ps h =
      if-cases (λ qs. places qs ≡ 0) (has_buffer ps) (without_buffer ps) ps
        (λ e. places-without_buffer ps ∙ omega arith) (λ e. ground (arith, e, has_buffer-places ps))

module _ (fl : Floats) {V P B M W : Type 0} (publisher : Publisher P (Published V))
    (buffer : Buffer (Floats.F fl) V B) where
  open fl use {F}

  -- The channel buffer stands once among the publishers if there is one and never otherwise, and
  -- there is one while the thread runs.
  pub record Wired (s : Instrument F P B M W) : Type 0 where
    pub once : places s.publishers ≡ expected_places s.buffer
    pub running : (s.alive && not (is_some s.buffer)) ≡ false

  abbrev pub step : Use F V P M → Instrument F P B M W → Instrument F P B M W
  step starts s = start fl buffer s
  step stops s = (stop fl buffer s).1
  step closes s = (close fl publisher buffer s).1
  step dies s = record s { alive = false }
  step (adds_publisher p) s = add_publisher fl p s
  step (publishes d) s = (publish publisher buffer d s).1
  step (reads channel n wait timeout) s = (get_channel fl buffer channel n wait timeout s).1
  step (sets_interval x) s = set_background_interval fl x s
  step (adds_function m) s = add_background_daemon_function fl m s
  step (defines_function m) s = define_background_daemon fl m s
  step (checks_interval t) s = (check_achievable_interval fl t s).1

  unfoldable pub run : List (Use F V P M) → Instrument F P B M W → Instrument F P B M W
  run [] s = s
  run (u ∷ us) s = run us (step u s)

  start-Wired : (s : Instrument F P B M W) → Wired s → Wired (start fl buffer s)
  unfolding start setup_channel_buffer reset_daemon_timing
  start-Wired s h =
      if-cases Wired s.alive s _ (λ e. h)
        (λ e. record { once = setup_places s.buffer s.publishers h.once; running = refl })

  forget-Wired :
      (r : Result (Unit {0})) (s : Instrument F P B M W)
      → s.alive ≡ false
      → Wired s
      → Wired (forget fl buffer r s).1
  forget-Wired (err e) s d h = h
  forget-Wired (ok u) s d h = record {
    once = drop_places s.publishers (rw h.once (at_most_one s.buffer));
    running = ground (arith, d);
  }

  drop_buffer-Wired :
      (b : Option B) (s : Instrument F P B M W)
      → s.alive ≡ false
      → places s.publishers ≡ expected_places b
      → s.buffer ≡ b
      → Wired (drop_buffer fl buffer b s).1
  drop_buffer-Wired none s d o e = record {
    once = o ∙ ap expected_places (sym e);
    running = ground (arith, d);
  }
  drop_buffer-Wired (some b) s d o e =
      forget-Wired _ (record s { buffer = some (buffer.close b).1 }) d
        (record { once = o; running = ground (arith, d) })

  stop-Wired : (s : Instrument F P B M W) → Wired s → Wired (stop fl buffer s).1
  unfolding stop
  stop-Wired s h =
      if-cases (λ r. Wired r.1) s.alive
        (drop_buffer fl buffer s.buffer (record s { stop_event = true; alive = false })) (ok tt, s)
        (λ e.
          drop_buffer-Wired s.buffer (record s { stop_event = true; alive = false }) refl h.once
            refl)
        (λ e. h)

  close_publishers-Wired :
      (s : Instrument F P B M W) → Wired s → Wired (close_publishers fl publisher buffer s).1
  unfolding close_publishers
  close_publishers-Wired s h =
      let k = close_slots-Kept publisher buffer s.publishers s.buffer in
      record {
        once = k.places_same ∙ h.once ∙ sym k.buffer_same;
        running = rw (some-expected _ _ k.buffer_same) h.running;
      }

  after_stop :
      (r : Result (Unit {0})) (s : Instrument F P B M W)
      → Wired s
      → Wired (resume (λ u. close_publishers fl publisher buffer) r s).1
  after_stop (ok u) s h = close_publishers-Wired s h
  after_stop (err e) s h = h

  close-Wired : (s : Instrument F P B M W) → Wired s → Wired (close fl publisher buffer s).1
  unfolding close
  close-Wired s h = after_stop (stop fl buffer s).0 (stop fl buffer s).1 (stop-Wired s h)

  publish-Wired :
      (d : Published V) (s : Instrument F P B M W)
      → Wired s
      → Wired (publish publisher buffer d s).1
  unfolding publish
  publish-Wired d s h =
      let k = offer_all-Kept publisher buffer d s.publishers s.buffer in
      record {
        once = k.places_same ∙ h.once ∙ sym k.buffer_same;
        running = rw (some-expected _ _ k.buffer_same) h.running;
      }

  read_buffer-Wired :
      (b : Option B) (channel : String) (n : ℕ) (wait : Bool) (timeout : F)
      (s : Instrument F P B M W)
      → s.buffer ≡ b
      → Wired s
      → Wired (read_buffer fl buffer b channel n wait timeout s).1
  read_buffer-Wired none channel n wait timeout s e h = h
  read_buffer-Wired (some b) channel n wait timeout s e h = record {
    once = h.once ∙ ap expected_places e;
    running = ground arith;
  }

  get_channel-Wired :
      (channel : String) (n : ℕ) (wait : Bool) (timeout : F) (s : Instrument F P B M W)
      → Wired s
      → Wired (get_channel fl buffer channel n wait timeout s).1
  unfolding get_channel
  get_channel-Wired channel n wait timeout s h =
      if-cases (λ r. Wired r.1) s.alive (read_buffer fl buffer s.buffer _ n wait timeout s)
        (err Error.runtime_error, s) (λ e. read_buffer-Wired s.buffer _ n wait timeout s refl h)
        (λ e. h)

  check_achievable_interval-Wired :
      (t : F) (s : Instrument F P B M W) → Wired s → Wired (check_achievable_interval fl t s).1
  unfolding check_achievable_interval
  check_achievable_interval-Wired t s h = record {
    once = ground (arith, h.once);
    running = ground (arith, h.running);
  }

  step-Wired : (u : Use F V P M) (s : Instrument F P B M W) → Wired s → Wired (step u s)
  unfolding add_publisher set_background_interval add_background_daemon_function
      define_background_daemon reset_daemon_timing places
  step-Wired starts s h = start-Wired s h
  step-Wired stops s h = stop-Wired s h
  step-Wired closes s h = close-Wired s h
  step-Wired dies s h = record { once = h.once; running = refl }
  step-Wired (adds_publisher p) s h = record {
    once = places-append s.publishers (given p ∷ []) ∙ (let o = h.once in omega arith);
    running = h.running;
  }
  step-Wired (publishes d) s h = publish-Wired d s h
  step-Wired (reads channel n wait timeout) s h = get_channel-Wired channel n wait timeout s h
  step-Wired (sets_interval x) s h = record { once = h.once; running = h.running }
  step-Wired (adds_function m) s h = record { once = h.once; running = h.running }
  step-Wired (defines_function m) s h = record { once = h.once; running = h.running }
  step-Wired (checks_interval t) s h = check_achievable_interval-Wired t s h

  -- Over any uses of an instrument, the channel buffer stands once among its publishers while the
  -- instrument holds one and not otherwise, and the instrument holds one while its thread runs.
  pub run-Wired : (us : List (Use F V P M)) (s : Instrument F P B M W) → Wired s → Wired (run us s)
  unfolding run
  run-Wired [] s h = h
  run-Wired (u ∷ us) s h = run-Wired us (step u s) (step-Wired u s h)
