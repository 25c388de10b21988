-- ===== src/ChannelBuffer/DequeStore/Publish.antt =====
-- `publish` of a whole measurement to a `DequeInMemoryPublisher`.
use instro.ChannelBuffer.DequeStore.{Deque}
use instro.Prelude.Dict
use instro.Prelude.{
  ℕ, ◌+◌, ◌≤◌, String, ◌≡◌, refl, sym, ap, ap₂, ◌∙◌, Bool, true, false, Option, none, some, List,
  [], ◌∷◌, ◌++◌, append-nil, append_assoc, arith, if◌then◌else◌, length, last, length-append,
  last_all, last-append_last, ok,
}
use instro.ChannelBuffer.{ℤ}
use instro.ChannelBuffer.{length}
use instro.ChannelBuffer.{String}
use instro.ChannelBuffer.{List}
use instro.ChannelBuffer.{Dict}
use text.Mathlib.Text.{◌==◌}
use instro.Types.{Measurement, measurement}
use instro.ChannelBuffer.{publish, store_channels, added}
use instro.ChannelBuffer.DequeStore.{Buffer, hooks}
use instro.ChannelBuffer.DequeStore.Content.{IsValid, Fits, samples, items_of, store_channel-Stored}

-- The values that a measurement carries for a channel: those of its entry, none if it has no entry.
-- (A dict has one entry for a key at most; of several, all would be appended.)
abbrev pub sent {ℓ} : {A : Type ℓ} → Dict (List A) → String → List A
sent [] j = []
sent ((k, vs) ∷ rest) j = if k == j then vs ++ sent rest j else sent rest j

-- one channel's batch, then the rest
merge {ℓ} :
    {A : Type ℓ} (m : ℕ) (here : Bool) (xs vs rest : List A)
    → last m ((if here then last m (xs ++ vs) else xs) ++ rest)
      ≡ last m (xs ++ (if here then vs ++ rest else rest))
merge m true xs vs rest = last-append_last m (xs ++ vs) rest ∙ ap (last m) (append_assoc xs vs rest)
merge m false xs vs rest = refl

module _ {V : Type 0} where
  samples-le : {s : Buffer V} (j : String) → IsValid s → length (samples s j) ≤ s.maxlen
  samples-le {s} j v = go (Dict.get s.values j) (Dict.get s.timestamps j) (v.at j)
    where
      go :
          (o : Option (Deque V)) (p : Option (Deque ℤ))
          → Fits s.maxlen o p
          → length (items_of o) ≤ s.maxlen
      go none none f = omega arith
      go (some d) (some t) f = f.2
      go none (some t) f = absurd f
      go (some d) none f = absurd f

  store_channels_lem :
      (s : Buffer V) (ts : List ℤ) (data' : Dict (List V))
      → IsValid s
      → (s' : Buffer V) × (store_channels hooks ts data' s ≡ (ok tt, s'))
        × IsValid s'
        × (s'.maxlen ≡ s.maxlen)
        × ((j : String) → samples s' j ≡ last s.maxlen (samples s j ++ sent data' j))
        × ((j : String) → added s' j ≡ added s j + length (sent data' j))
  unfolding store_channels
  store_channels_lem s ts [] v = (
    s,
    refl,
    v,
    refl,
    λ j. sym (
        ap (last s.maxlen) (append-nil (samples s j))
        ∙ last_all s.maxlen (samples s j) (samples-le j v)),
    λ j. omega arith,
  )
  store_channels_lem s ts ((ch, vs) ∷ rest) v =
      let (s1, e1, d) = store_channel-Stored s ts ch vs v in
      let (s2, e2, v2, l2, at2, n2) = store_channels_lem s1 ts rest d.valid in
      (
        s2,
        rw e1 e2,
        v2,
        l2 ∙ d.limit,
        λ j.
            at2 j
            ∙ ap₂ (λ m c. last m (c ++ sent rest j)) d.limit (d.samples_at j)
            ∙ merge s.maxlen (ch == j) (samples s j) vs (sent rest j),
        λ j. ground (arith, n2 j, d.added_at j, length-append vs (sent rest j)),
      )

  -- Publishing a measurement never raises. It leaves in every channel the newest `maxlen` of what
  -- the channel held and of what the measurement carries for it, keeps the deques within their
  -- limit, and counts each new value.
  pub publish_lem :
      (s : Buffer V) (m : Measurement V)
      → IsValid s
      → (s' : Buffer V) × (publish hooks (measurement m) s ≡ (ok tt, s'))
        × IsValid s'
        × (s'.maxlen ≡ s.maxlen)
        × ((j : String) → samples s' j ≡ last s.maxlen (samples s j ++ sent m.channel_data j))
        × ((j : String) → added s' j ≡ added s j + length (sent m.channel_data j))
  unfolding publish
  publish_lem s m v = store_channels_lem s m.timestamps m.channel_data v
