-- ===== src/Deque.antt =====
-- `collections.deque` with a `maxlen`, as instro/lib/publishers/channel_buffer.py uses it.
use instro.Prelude.{ℕ, List, [], ◌++◌, length, last, min, ◌==◌, if◌then◌else◌}

pub record Deque (A : Type 0) : Type 0 where
  pub maxlen : ℕ
  pub items : List A

module _ {A : Type 0} where
  unfoldable pub empty : ℕ → Deque A
  empty maxlen = record { maxlen = maxlen; items = [] }

  unfoldable pub extend : Deque A → List A → Deque A
  extend d xs = record d { items = last d.maxlen (d.items ++ xs) }

  -- `n = min(length, len(d)); list(d)[-n:] if n else []`
  unfoldable pub newest : Deque A → ℕ → List A
  newest d k = let n = min k (length d.items) in if n == 0 then [] else last n d.items
