-- ===== src/ChannelBuffer/DequeStore/Content.antt =====
-- What `publish` leaves in each channel of a `DequeInMemoryPublisher`.
use instro.Prelude.{◌≤◌}
use instro.Prelude.{length-last}
use text.Mathlib.Text.{◌==◌}
use instro.Prelude.{ℕ, ◌+◌, String, List, [], ◌++◌, length, last, ◌≡◌, refl, Option, none, some}
use instro.Prelude.{ok, if◌then◌else◌, arith, eq_iff, eq_refl}
use instro.Prelude.Int.{ℤ}
use instro.Prelude.Dict
use instro.Prelude.Dict.{Dict, get-put, has-eq, item-eq}
use instro.Deque
use instro.Deque.{Deque}
use instro.ChannelBuffer.{store_channel, added, count}
use instro.ChannelBuffer.DequeStore.{
  Buffer, hooks, ensure_channel, extend_values, extend_timestamps,
}

module _ {V : Type 0} where
  -- A channel has both deques or none, each with the publisher's length limit and within it.
  abbrev pub Fits : ℕ → Option (Deque V) → Option (Deque ℤ) → Type 0
  Fits m none none = Unit {0}
  Fits m (some d) (some t) =
      (d.maxlen ≡ m) × (t.maxlen ≡ m) × (length d.items ≤ m) × (length t.items ≤ m)
  Fits m none (some t) = ⊥
  Fits m (some d) none = ⊥

  pub record IsValid (s : Buffer V) : Type 0 where
    pub at : (j : String) → Fits s.maxlen (Dict.get s.values j) (Dict.get s.timestamps j)

abbrev pub items_of : {A : Type 0} → Option (Deque A) → List A
items_of none = []
items_of (some d) = d.items

module _ {V : Type 0} where
  -- the samples that a channel holds, none if there is no such channel
  abbrev pub samples : Buffer V → String → List V
  samples s j = items_of (Dict.get s.values j)

  abbrev pub stamps : Buffer V → String → List ℤ
  stamps s j = items_of (Dict.get s.timestamps j)

  pub record Stored (s s' : Buffer V) (ch : String) (ts : List ℤ) (vs : List V) : Type 0 where
    pub valid : IsValid s'
    pub limit : s'.maxlen ≡ s.maxlen
    pub samples_at :
        (j : String)
        → samples s' j ≡ (if ch == j then last s.maxlen (samples s j ++ vs) else samples s j)
    pub stamps_at :
        (j : String)
        → stamps s' j ≡ (if ch == j then last s.maxlen (stamps s j ++ ts) else stamps s j)
    pub added_at :
        (j : String) → added s' j ≡ (if ch == j then added s j + length vs else added s j)

  Stored-old :
      (s : Buffer V) (ts : List ℤ) (ch : String) (vs : List V) (d : Deque V) (t : Deque ℤ)
      → IsValid s
      → Dict.get s.values ch ≡ some d
      → Dict.get s.timestamps ch ≡ some t
      → Fits s.maxlen (some d) (some t)
      → Stored s
          (record s {
            values = Dict.put s.values ch (Deque.extend d vs);
            timestamps = Dict.put s.timestamps ch (Deque.extend t ts);
            total = Dict.put s.total ch (added s ch + length vs);
          })
          ch
          ts
          vs
  unfolding Deque.extend added
  Stored-old s ts ch vs d t v eo ep f = record {
    valid = record {
      at = λ j. simp get-put (
          ground (
            arith,
            v.at j,
            f,
            length-last s.maxlen (d.items ++ vs),
            length-last s.maxlen (t.items ++ ts),
          ));
    };
    limit = refl;
    samples_at = λ j. simp get-put (ground (arith, eq_iff ch j, f, eo));
    stamps_at = λ j. simp get-put (ground (arith, eq_iff ch j, f, ep));
    added_at = λ j. simp get-put (ground (arith, eq_iff ch j));
  }

  Stored-new :
      (s : Buffer V) (ts : List ℤ) (ch : String) (vs : List V)
      → IsValid s
      → Dict.get s.values ch ≡ none
      → Dict.get s.timestamps ch ≡ none
      → Stored s
          (record s {
            values =
                Dict.put
                  (Dict.put s.values ch (Deque.empty s.maxlen))
                  ch
                  (Deque.extend (Deque.empty s.maxlen) vs);
            timestamps =
                Dict.put
                  (Dict.put s.timestamps ch (Deque.empty s.maxlen))
                  ch
                  (Deque.extend (Deque.empty s.maxlen) ts);
            total = Dict.put s.total ch (added s ch + length vs);
          })
          ch
          ts
          vs
  unfolding Deque.extend Deque.empty added
  Stored-new s ts ch vs v eo ep = record {
    valid = record {
      at = λ j.
          simp get-put (ground (arith, v.at j, length-last s.maxlen vs, length-last s.maxlen ts));
    };
    limit = refl;
    samples_at = λ j. simp get-put (ground (arith, eq_iff ch j, eo));
    stamps_at = λ j. simp get-put (ground (arith, eq_iff ch j, ep));
    added_at = λ j. simp get-put (ground (arith, eq_iff ch j));
  }

  pub store_channel-Stored :
      (s : Buffer V) (ts : List ℤ) (ch : String) (vs : List V)
      → IsValid s
      → (s' : Buffer V) × (store_channel hooks ts ch vs s ≡ (ok tt, s')) × Stored s s' ch ts vs
  unfolding store_channel count ensure_channel extend_values extend_timestamps
  store_channel-Stored s ts ch vs v =
      go (Dict.get s.values ch) (Dict.get s.timestamps ch) refl refl (v.at ch)
    where
      go :
          (o : Option (Deque V)) (p : Option (Deque ℤ))
          → Dict.get s.values ch ≡ o
          → Dict.get s.timestamps ch ≡ p
          → Fits s.maxlen o p
          → (s' : Buffer V) × (store_channel hooks ts ch vs s ≡ (ok tt, s')) × Stored s s' ch ts vs
      go none none eo ep f = (
        record s {
          values =
              Dict.put (Dict.put s.values ch (Deque.empty s.maxlen)) ch
                (Deque.extend (Deque.empty s.maxlen) vs);
          timestamps =
              Dict.put (Dict.put s.timestamps ch (Deque.empty s.maxlen)) ch
                (Deque.extend (Deque.empty s.maxlen) ts);
          total = Dict.put s.total ch (added s ch + length vs);
        },
        simp (has-eq, item-eq, eo, ep, get-put, eq_refl),
        Stored-new s ts ch vs v eo ep,
      )
      go (some d) (some t) eo ep f = (
        record s {
          values = Dict.put s.values ch (Deque.extend d vs);
          timestamps = Dict.put s.timestamps ch (Deque.extend t ts);
          total = Dict.put s.total ch (added s ch + length vs);
        },
        simp (has-eq, item-eq, eo, ep),
        Stored-old s ts ch vs d t v eo ep f,
      )
      go none (some t) eo ep f = absurd f
      go (some d) none eo ep f = absurd f
