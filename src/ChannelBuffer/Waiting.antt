-- ===== src/ChannelBuffer/Waiting.antt =====
-- The readers of `ChannelBufferPublisher`. A reader holds the condition's lock except while it waits
-- in `wait_for`, so what other threads do to the buffer is given as what happens at each wait.
use instro.Prelude.{
  ℕ, ◌+◌, min, String, Bool, true, not, ◌||◌, none, List, [], ◌∷◌, leb, if◌then◌else◌, Result, ok,
  err, guard, Error, map_ok,
}
use instro.Prelude.Exec.{Exec, pure, raise, lift, gets, modify, ◌>>=◌, ◌>>◌}
use instro.Prelude.Dict
use instro.Types.{Measurement, Published}
use instro.ChannelBuffer.{Base, Hooks, publish, close, added}

-- what another thread does to the buffer in one go
pub data Event (V : Type 0) : Type 0 where
  publishes : Published V → Event V
  closes : Event V

-- The other threads' part in one call of `get`. A wait is the list of what happens before each
-- time that the waiting thread looks again, until its time is up.
pub record Others (V : Type 0) : Type 0 where
  -- before the call takes the lock
  pub before : List (Event V)
  -- while it waits for the channel
  pub for_channel : List (List (Event V))
  -- between the two stretches in which `get(wait_for_new_samples=True)` holds the lock
  pub between : List (Event V)
  -- whether `remaining > 0` after the first wait
  pub time_left : Bool
  -- while it waits for the samples
  pub for_samples : List (List (Event V))

module _ {V VS TS : Type 0} (hooks : Hooks V VS TS) where
  open hooks use {get_values, get_timestamps, points_in_buffer}

  unfoldable pub happen : Event V → Base VS TS → Base VS TS
  happen (publishes p) s = (publish hooks p s).1
  happen closes s = close s

  unfoldable pub happen_all : List (Event V) → Base VS TS → Base VS TS
  unfolding happen
  happen_all [] s = s
  happen_all (e ∷ es) s = happen_all es (happen e s)

  -- `Condition.wait_for(predicate, timeout)`: looks, and looks again after each notification, until
  -- the predicate holds or the time is up. It returns the predicate's last value; an exception of
  -- the predicate leaves it.
  unfoldable pub wait_for :
      (Base VS TS → Result Bool) → List (List (Event V)) → Exec (Base VS TS) Bool
  wait_for predicate [] s = (predicate s, s)
  wait_for predicate (es ∷ rest) s =
      let again = wait_for predicate rest (happen_all es s) in
      elim (predicate s) [ err e ↦ (err e, s) | ok b ↦ if b then (ok true, s) else again ]

  abbrev pub check : Bool → Error → Exec (Base VS TS) (Unit {0})
  check b e = lift (guard b e)

  -- `channel_name in self._values or self._closed`
  abbrev pub channel_known : String → Base VS TS → Result Bool
  channel_known channel s = ok (Dict.has s.values channel || s.closed)

  -- `self._points_in_buffer(channel_name) >= length or self._closed`
  abbrev pub enough_points : String → ℕ → Base VS TS → Result Bool
  enough_points channel n s = map_ok (λ p. leb n p || s.closed) (points_in_buffer channel s)

  -- `self._total_added_count[channel_name] >= target_count or self._closed`
  abbrev pub enough_new : String → ℕ → Base VS TS → Result Bool
  enough_new channel target s = ok (leb target (added s channel) || s.closed)

  -- The end of both readers: the newest min(n, points) samples.
  unfoldable pub extract : String → ℕ → Exec (Base VS TS) (Measurement V)
  extract channel n = do
    s ← gets (λ s. s)
    points ← lift (points_in_buffer channel s)
    values ← lift (get_values channel (min n points) s)
    timestamps ← lift (get_timestamps channel (min n points) s)
    pure (record { channel_data = (channel, values) ∷ []; timestamps = timestamps; tags = none })

  -- the wait for samples, which is skipped when no time is left
  unfoldable pub wait_for_points : String → ℕ → Others V → Exec (Base VS TS) (Unit {0})
  unfolding wait_for
  wait_for_points channel n o =
      if o.time_left
      then (do
        found ← wait_for (enough_points channel n) o.for_samples
        -- the message of the error reads the count once more
        s ← gets (λ s. s)
        if found
            then pure tt
            else (do _ ← lift (points_in_buffer channel s); raise Error.channel_value_timeout))
      else pure tt

  -- `if self._closed: ...`, after the wait for samples
  unfoldable pub check_not_short : String → ℕ → Exec (Base VS TS) (Unit {0})
  check_not_short channel n = do
    s ← gets (λ s. s)
    if s.closed
        then (do
          points ← lift (points_in_buffer channel s)
          check (leb n points) Error.channel_value_timeout)
        else pure tt

  unfoldable pub get_with_buffer_wait : String → ℕ → Others V → Exec (Base VS TS) (Measurement V)
  unfolding wait_for wait_for_points check_not_short extract
  get_with_buffer_wait channel n o = do
    known ← wait_for (channel_known channel) o.for_channel
    check known Error.channel_not_found
    s ← gets (λ s. s)
    check (not s.closed) Error.value_error
    wait_for_points channel n o
    check_not_short channel n
    extract channel n

  unfoldable pub get_with_wait : String → ℕ → Others V → Exec (Base VS TS) (Measurement V)
  unfolding wait_for extract
  get_with_wait channel n o = do
    start_count ← gets (λ s. added s channel)
    found ← wait_for (enough_new channel (start_count + n)) o.for_samples
    check found Error.channel_value_timeout
    s ← gets (λ s. s)
    check (not s.closed || leb (start_count + n) (added s channel)) Error.channel_value_timeout
    extract channel n

  -- the wait for a channel that is not there at the first, unlocked look
  unfoldable pub wait_for_channel : String → Others V → Exec (Base VS TS) (Unit {0})
  unfolding wait_for
  wait_for_channel channel o = do
    s ← gets (λ s. s)
    if Dict.has s.values channel then pure tt else (do
      known ← wait_for (channel_known channel) o.for_channel
      check known Error.channel_not_found
      t ← gets (λ t. t)
      check (not t.closed) Error.value_error)

  unfoldable pub get : String → ℕ → Bool → Others V → Exec (Base VS TS) (Measurement V)
  unfolding get_with_buffer_wait get_with_wait wait_for_channel
  get channel n wait_for_new_samples o = do
    modify (happen_all o.before)
    if wait_for_new_samples
        then (do
          wait_for_channel channel o
          modify (happen_all o.between)
          get_with_wait channel n o)
        else get_with_buffer_wait channel n o
