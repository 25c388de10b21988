-- ===== src/Instrument/Buffering.antt =====
-- The channel buffer of an instrument while its background thread runs: `start`, `stop`, `close` and
-- the reads, of instro/lib/instrument.py. What the thread does before it ends stands before the stop.
use instro.Prelude.{
  ℕ, zero, suc, ◌+◌, ◌-◌, ◌*◌, ◌/◌, ◌%◌, ◌^◌, ◌≤◌, ◌<◌, min, String, ◌≡◌, refl, sym, ap, ap₂, subst,
  fun_ext, ◌∙◌, ◌≢◌, ◌↔◌, ◌⊎◌, inl, inr, Bool, true, false, not, ◌&&◌, ◌||◌, Option, none, some,
  List, [], ◌∷◌, ◌++◌, map, append-nil, append_assoc, arith, eq_iff, eq_refl, dec_lt, ℕ_discrete,
  ltb, leb, ◌==◌, if◌then◌else◌, Bool-cases, Option-cases, length, get_elem?, set, take, drop,
  replicate, last, length-append, length-take, length-drop, length-last, last-min, drop_all,
  take_all, take-append-drop, last_all, last-append_last, Result, ok, err, guard, Error,
  Result-cases, map_ok,
}
use instro.Float.{Floats}
use instro.Publishers.{Publisher}
use instro.Types.{Measurement, Published, latest}
use instro.Prelude.Words.{join, has_prefix}
use instro.Prelude.Exec.{Exec, pure, raise, lift, modify, ◌>>=◌, ◌>>◌}
use instro.Instrument.{Instrument, Buffer, Slot, given, channel_buffer}
use instro.Instrument.Publishing.{go_on}
use instro.Instrument.Daemon.{reset_daemon_timing}
pub mod Wiring
pub mod Runs

module _ {P : Type 0} where
  -- self._channel_buffer in self.publishers
  unfoldable pub has_buffer : List (Slot P) → Bool
  has_buffer [] = false
  has_buffer (given p ∷ ps) = has_buffer ps
  has_buffer (channel_buffer ∷ ps) = true

  -- self.publishers.remove(self._channel_buffer)
  unfoldable pub without_buffer : List (Slot P) → List (Slot P)
  without_buffer [] = []
  without_buffer (given p ∷ ps) = given p ∷ without_buffer ps
  without_buffer (channel_buffer ∷ ps) = ps

  -- the removal, if the buffer is among the publishers
  abbrev pub drop_slot : List (Slot P) → List (Slot P)
  drop_slot ps = if has_buffer ps then without_buffer ps else ps

-- a RuntimeError is raised again, any other exception is no value
abbrev unless_runtime : {A : Type 0} → Result A → Result (Option A)
unless_runtime (ok a) = ok (some a)
unless_runtime (err Error.runtime_error) = err Error.runtime_error
unless_runtime (err e) = ok none

module _ {F V B : Type 0} (buffer : Buffer F V B) where
  -- the buffer there is, or a new one
  abbrev held : ℕ → Option B → B
  held n none = buffer.new n
  held n (some b) = b

module _ (fl : Floats) {V P B M W : Type 0} (buffer : Buffer (Floats.F fl) V B) where
  open fl use {F, lit}

  unfoldable pub setup_channel_buffer : ℕ → Instrument F P B M W → Instrument F P B M W
  unfolding has_buffer
  setup_channel_buffer n s = record s {
    buffer = some (held buffer n s.buffer);
    publishers =
        if has_buffer s.publishers then s.publishers else s.publishers ++ (channel_buffer ∷ []);
  }

  unfoldable pub start : Instrument F P B M W → Instrument F P B M W
  unfolding setup_channel_buffer
  start s = if s.alive then s else record (reset_daemon_timing fl (setup_channel_buffer 10 s)) {
    stop_event = false;
    alive = true;
  }

  -- what follows the close of the buffer
  abbrev pub forget : Result (Unit {0}) → Exec (Instrument F P B M W) (Unit {0})
  forget (err e) t = (err e, t)
  forget (ok u) t = (ok tt, record t { publishers = drop_slot t.publishers; buffer = none })

  -- `stop` once the thread has ended, with the buffer that it asserts
  abbrev pub drop_buffer : Option B → Exec (Instrument F P B M W) (Unit {0})
  drop_buffer none s = (err Error.assertion_error, s)
  drop_buffer (some b) s = forget (buffer.close b).0 (record s { buffer = some (buffer.close b).1 })

  unfoldable pub stop : Exec (Instrument F P B M W) (Unit {0})
  stop s =
      if s.alive
      then drop_buffer s.buffer (record s { stop_event = true; alive = false })
      else (ok tt, s)

  -- `get_channel`, with the buffer that it asserts
  abbrev pub read_buffer :
      Option B → String → ℕ → Bool → F → Exec (Instrument F P B M W) (Measurement V)
  read_buffer none channel n wait timeout s = (err Error.assertion_error, s)
  read_buffer (some b) channel n wait timeout s = (
    (buffer.get channel n wait timeout b).0,
    record s { buffer = some (buffer.get channel n wait timeout b).1 },
  )

  unfoldable pub get_channel : String → ℕ → Bool → F → Exec (Instrument F P B M W) (Measurement V)
  get_channel channel n wait timeout s =
      if s.alive
      then read_buffer s.buffer
          (if has_prefix channel (join s.name ".") then channel else join s.name (join "." channel))
          n wait timeout s
      else (err Error.runtime_error, s)

  unfoldable pub get_single_channel_value : String → Exec (Instrument F P B M W) (Option V)
  unfolding get_channel
  get_single_channel_value channel s =
      let (r, next) = (do m ← get_channel channel 1 false (lit 0); lift (latest m)) s in
      (unless_runtime r, next)

module _ {F V P B : Type 0} (publisher : Publisher P (Published V)) (buffer : Buffer F V B) where
  unfoldable pub close_slot : Slot P → Option B → Result (Unit {0}) × (Slot P × Option B)
  close_slot (given p) b = ((publisher.close p).0, (given (publisher.close p).1, b))
  close_slot channel_buffer none = (ok tt, (channel_buffer, none))
  close_slot channel_buffer (some b) =
      ((buffer.close b).0, (channel_buffer, some (buffer.close b).1))

  unfoldable pub close_slots :
      List (Slot P) → Option B → Result (Unit {0}) × (List (Slot P) × Option B)
  unfolding close_slot
  close_slots [] b = (ok tt, ([], b))
  close_slots (p ∷ ps) b =
      let (r, (q, c)) = close_slot p b in go_on publisher buffer r q (ps, c) (close_slots ps c)

module _ (fl : Floats) {V P B M W : Type 0} (publisher : Publisher P (Published V))
    (buffer : Buffer (Floats.F fl) V B) where
  unfoldable pub close_publishers : Exec (Instrument (Floats.F fl) P B M W) (Unit {0})
  unfolding close_slots
  close_publishers s =
      let (r, (ps, b)) = close_slots publisher buffer s.publishers s.buffer in
      (r, record s { publishers = ps; buffer = b })

  unfoldable pub close : Exec (Instrument (Floats.F fl) P B M W) (Unit {0})
  unfolding stop close_publishers
  close = do stop fl buffer; close_publishers
