-- ===== src/ChannelBuffer.antt =====
-- `ChannelBufferPublisher` of instro/lib/publishers/channel_buffer.py, the base class. A method
-- runs under the condition's lock, so it is one action; what other threads do while a reader waits
-- is in `Waiting`.
use instro.Prelude.{ℕ, zero, ◌+◌, String, Bool, true, false, List, [], ◌∷◌, map, length, Result}
pub mod DequeStore
pub mod Waiting
use instro.Prelude.{Option, none, some}
use instro.Prelude.Exec.{Exec, pure, modify, ◌>>=◌, ◌>>◌}
use instro.Prelude.Int.{ℤ}
use instro.Prelude.Dict
use instro.Prelude.Dict.{Dict}
use instro.Types.{Measurement, Published, measurement, command}

-- `VS` and `TS` are the stores of one channel's values and timestamps.
pub record Base (VS TS : Type 0) : Type 0 where
  pub maxlen : ℕ
  pub values : Dict VS
  pub timestamps : Dict TS
  -- `_total_added_count`, a Counter
  pub total : Dict ℕ
  pub closed : Bool

-- a Counter's item is 0 where it is missing
abbrev pub count_of : Option ℕ → ℕ
count_of none = 0
count_of (some n) = n

-- the abstract methods
pub record Hooks (V VS TS : Type 0) : Type 0 where
  pub ensure_channel : String → List V → Exec (Base VS TS) (Unit {0})
  pub extend_values : String → List V → Exec (Base VS TS) (Unit {0})
  pub extend_timestamps : String → List ℤ → Exec (Base VS TS) (Unit {0})
  pub get_values : String → ℕ → Base VS TS → Result (List V)
  pub get_timestamps : String → ℕ → Base VS TS → Result (List ℤ)
  pub points_in_buffer : String → Base VS TS → Result ℕ

module _ {VS TS : Type 0} where
  unfoldable pub new : ℕ → Base VS TS
  new maxlen = record { maxlen = maxlen; values = []; timestamps = []; total = []; closed = false }

  unfoldable pub added : Base VS TS → String → ℕ
  added s channel = count_of (Dict.get s.total channel)

  unfoldable pub count : String → ℕ → Base VS TS → Base VS TS
  unfolding added
  count channel n s = record s { total = Dict.put s.total channel (added s channel + n) }

  unfoldable pub close : Base VS TS → Base VS TS
  close s = record s { closed = true; values = []; timestamps = []; total = [] }

  unfoldable pub channel_names : Base VS TS → List String
  channel_names s = Dict.keys s.values

module _ {V VS TS : Type 0} (hooks : Hooks V VS TS) where
  open hooks use {ensure_channel, extend_values, extend_timestamps}

  -- one round of the loop in `publish`
  unfoldable pub store_channel : List ℤ → String → List V → Exec (Base VS TS) (Unit {0})
  store_channel timestamps channel values = do
    ensure_channel channel values
    extend_values channel values
    extend_timestamps channel timestamps
    modify (count channel (length values))

  unfoldable pub store_channels : List ℤ → Dict (List V) → Exec (Base VS TS) (Unit {0})
  store_channels timestamps [] = pure tt
  store_channels timestamps ((channel, values) ∷ rest) = do
    store_channel timestamps channel values
    store_channels timestamps rest

  unfoldable pub publish : Published V → Exec (Base VS TS) (Unit {0})
  publish (measurement m) = store_channels m.timestamps m.channel_data
  publish (command c) = pure tt
