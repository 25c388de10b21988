-- ===== src/ChannelBuffer/DequeStore.antt =====
-- `DequeInMemoryPublisher` of instro/lib/publishers/channel_buffer.py.
pub mod Content
pub mod Publish
pub mod Reading
mod Tests
use instro.Prelude.{map_ok}
use instro.Prelude.{ℕ, String, List, length, if◌then◌else◌, Result, ok}
use instro.Prelude.Exec.{Exec, lift, gets, modify, ◌>>=◌}
use instro.Prelude.Int.{ℤ}
use instro.Prelude.Dict
use instro.Prelude.Dict.{Dict}
use instro.Deque
use instro.Deque.{Deque}
use instro.ChannelBuffer.{Base, Hooks}

abbrev pub Buffer : Type 0 → Type 0
Buffer V = Base (Deque V) (Deque ℤ)

-- `d[k].extend(xs)`, a KeyError if the key is missing
unfoldable pub extend_item :
    {A : Type 0} → Dict (Deque A) → String → List A → Result (Dict (Deque A))
extend_item d k xs = map_ok (λ q. Dict.put d k (Deque.extend q xs)) (Dict.item d k)

module _ {V : Type 0} where
  unfoldable pub ensure_channel : String → List V → Exec (Buffer V) (Unit {0})
  ensure_channel channel values s = if Dict.has s.values channel then (ok tt, s) else (
    ok tt,
    record s {
      values = Dict.put s.values channel (Deque.empty s.maxlen);
      timestamps = Dict.put s.timestamps channel (Deque.empty s.maxlen);
    },
  )

  unfoldable pub extend_values : String → List V → Exec (Buffer V) (Unit {0})
  unfolding extend_item
  extend_values channel xs = do
    old ← gets (λ s. s.values)
    new ← lift (extend_item old channel xs)
    modify (λ s. record s { values = new })

  unfoldable pub extend_timestamps : String → List ℤ → Exec (Buffer V) (Unit {0})
  unfolding extend_item
  extend_timestamps channel xs = do
    old ← gets (λ s. s.timestamps)
    new ← lift (extend_item old channel xs)
    modify (λ s. record s { timestamps = new })

  unfoldable pub get_values : String → ℕ → Buffer V → Result (List V)
  get_values channel n s = map_ok (λ q. Deque.newest q n) (Dict.item s.values channel)

  unfoldable pub get_timestamps : String → ℕ → Buffer V → Result (List ℤ)
  get_timestamps channel n s = map_ok (λ q. Deque.newest q n) (Dict.item s.timestamps channel)

  unfoldable pub points_in_buffer : String → Buffer V → Result ℕ
  points_in_buffer channel s = map_ok (λ q. length q.items) (Dict.item s.values channel)

  abbrev pub hooks : Hooks V (Deque V) (Deque ℤ)
  hooks = record {
    ensure_channel = ensure_channel;
    extend_values = extend_values;
    extend_timestamps = extend_timestamps;
    get_values = get_values;
    get_timestamps = get_timestamps;
    points_in_buffer = points_in_buffer;
  }
