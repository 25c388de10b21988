-- ===== src/ChannelBuffer/DequeStore/Tests.antt =====
-- A publisher of two channels, and the theorems about it at concrete inputs. A value is a number.
use instro.Prelude.{
  ℕ, ◌+◌, ◌≤◌, min, String, ◌≡◌, refl, true, false, none, [], ◌∷◌, ◌++◌, arith, length, last, ok,
  err, Error,
}
use instro.Prelude.Int.{pos}
use instro.Prelude.Dict
use instro.Prelude.Dict.{Dict}
use instro.Deque
use instro.Types.{Measurement, measurement}
use instro.ChannelBuffer.{publish, store_channels, store_channel, count, added, close}
use instro.ChannelBuffer.Waiting.{
  publishes, closes, Others, channel_known, happen_all, happen, wait_for, extract, wait_for_points,
  check_not_short, get_with_buffer_wait, get_with_wait,
}
use instro.ChannelBuffer.DequeStore.{
  Buffer, hooks, ensure_channel, extend_values, extend_timestamps, get_values, get_timestamps,
  points_in_buffer,
}
use instro.ChannelBuffer.DequeStore.Content.{IsValid, samples, stamps}
use instro.ChannelBuffer.DequeStore.Publish.{sent, publish_lem}
use instro.ChannelBuffer.DequeStore.Reading.{
  get_with_buffer_wait_lem, get_with_wait_lem, get_with_buffer_wait_closed, IsShort, seen,
}

abbrev three : Measurement ℕ
three = record {
  channel_data = ("a", 1 ∷ 2 ∷ 3 ∷ []) ∷ ("b", 4 ∷ 5 ∷ 6 ∷ []) ∷ [];
  timestamps = pos 10 ∷ pos 20 ∷ pos 30 ∷ [];
  tags = none;
}

abbrev empty_buffer : Buffer ℕ
empty_buffer = record { maxlen = 2; values = []; timestamps = []; total = []; closed = false }

-- what one `publish` leaves in it
abbrev filled : Buffer ℕ
filled = record {
  maxlen = 2;
  values =
      ("a", record { maxlen = 2; items = 2 ∷ 3 ∷ [] })
      ∷ ("b", record { maxlen = 2; items = 5 ∷ 6 ∷ [] })
      ∷ [];
  timestamps =
      ("a", record { maxlen = 2; items = pos 20 ∷ pos 30 ∷ [] })
      ∷ ("b", record { maxlen = 2; items = pos 20 ∷ pos 30 ∷ [] })
      ∷ [];
  total = ("a", 3) ∷ ("b", 3) ∷ [];
  closed = false;
}

publish-three : publish hooks (measurement three) empty_buffer ≡ (ok tt, filled)
unfolding publish store_channels store_channel count ensure_channel extend_values extend_timestamps
    Dict.put Dict.get Dict.has Dict.item Deque.extend Deque.empty
publish-three = refl

empty_buffer-IsValid : IsValid empty_buffer
unfolding Dict.get
empty_buffer-IsValid = record { at = λ j. tt }

-- nobody else does anything
abbrev alone : Others ℕ
alone = record { before = []; for_channel = []; between = []; time_left = true; for_samples = [] }

publish_lem_example :
    (s' : Buffer ℕ) × (publish hooks (measurement three) empty_buffer ≡ (ok tt, s'))
    × IsValid s'
    × (s'.maxlen ≡ 2)
    × ((j : String) → samples s' j ≡ last 2 (samples empty_buffer j ++ sent three.channel_data j))
    × ((j : String) → added s' j ≡ added empty_buffer j + length (sent three.channel_data j))
publish_lem_example = publish_lem empty_buffer three empty_buffer-IsValid

abbrev newest_two : Measurement ℕ
newest_two = record {
  channel_data = ("a", 2 ∷ 3 ∷ []) ∷ [];
  timestamps = pos 20 ∷ pos 30 ∷ [];
  tags = none;
}

read_two : get_with_buffer_wait hooks "a" 2 alone filled ≡ (ok newest_two, filled)
unfolding get_with_buffer_wait wait_for wait_for_points check_not_short extract get_values
    get_timestamps points_in_buffer Dict.get Dict.has Dict.item Deque.newest
read_two = refl

get_with_buffer_wait_lem_example :
    (2 ≤ length (samples filled "a"))
    × (newest_two.channel_data ≡ ("a", last 2 (samples filled "a")) ∷ [])
    × (newest_two.timestamps ≡ last 2 (stamps filled "a"))
get_with_buffer_wait_lem_example =
    get_with_buffer_wait_lem "a" 2 alone filled filled newest_two refl read_two

-- another thread publishes while the reader waits
abbrev publishing : Others ℕ
publishing = record alone { for_samples = (publishes (measurement three) ∷ []) ∷ [] }

after : Buffer ℕ
unfolding publish store_channels store_channel count ensure_channel extend_values extend_timestamps
    Dict.put Dict.get Dict.has Dict.item Deque.extend Deque.empty
after = (publish hooks (measurement three) filled).1

read_new : get_with_wait hooks "a" 2 publishing filled ≡ (ok newest_two, after)
unfolding after get_with_wait wait_for happen happen_all added extract get_values get_timestamps
    points_in_buffer Dict.get Dict.has Dict.item Deque.newest
read_new = refl

get_with_wait_lem_example :
    (added filled "a" + 2 ≤ added after "a")
    × (newest_two.channel_data ≡ ("a", last 2 (samples after "a")) ∷ [])
    × (newest_two.timestamps ≡ last (min 2 (length (samples after "a"))) (stamps after "a"))
get_with_wait_lem_example = get_with_wait_lem "a" 2 publishing filled after newest_two read_new

-- while the reader waits for the third sample of "a", another thread publishes, and then publishes
-- once more and closes the publisher
abbrev closing : Others ℕ
closing = record alone {
  for_samples =
      (publishes (measurement three) ∷ []) ∷ (publishes (measurement three) ∷ closes ∷ []) ∷ [];
}

filled-IsShort : IsShort "a" 3 filled
unfolding Dict.get Dict.has
filled-IsShort = record { known = refl; is_open = refl; few = omega arith }

after-IsShort : IsShort "a" 3 after
unfolding after Dict.get Dict.has
after-IsShort = record { known = refl; is_open = refl; few = omega arith }

known_at_once : wait_for hooks (channel_known hooks "a") [] filled ≡ (ok true, filled)
unfolding wait_for Dict.has Dict.get
known_at_once = refl

happened-IsShort : IsShort "a" 3 (happen_all hooks (publishes (measurement three) ∷ []) filled)
unfolding happen_all happen after
happened-IsShort = after-IsShort

get_with_buffer_wait_closed_example : get_with_buffer_wait hooks "a" 3 closing filled ≡ (
  err Error.key_error,
  close (
      happen_all hooks
        (publishes (measurement three) ∷ [])
        (seen ((publishes (measurement three) ∷ []) ∷ []) filled)),
)
get_with_buffer_wait_closed_example =
    get_with_buffer_wait_closed "a" 3 closing filled filled
      ((publishes (measurement three) ∷ []) ∷ []) (publishes (measurement three) ∷ []) []
      known_at_once (filled-IsShort, happened-IsShort) refl refl
