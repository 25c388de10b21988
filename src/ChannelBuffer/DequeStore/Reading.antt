-- ===== src/ChannelBuffer/DequeStore/Reading.antt =====
-- What the readers of a `DequeInMemoryPublisher` return.
use instro.ChannelBuffer.Waiting.{
  enough_new, closes, channel_known, get_with_wait, get_with_buffer_wait, Event, Others, happen_all,
  happen, wait_for, enough_points, extract, wait_for_points, check_not_short,
}
use instro.Prelude.{
  ap, ◌∙◌, ℕ, ◌+◌, ◌-◌, ◌≤◌, ◌<◌, min, String, ◌≡◌, refl, Bool, true, false, List, [], ◌∷◌, ◌++◌,
  arith, length, last, last-min, drop_all, Result, ok, err, Error,
}
use instro.ChannelBuffer.{added, close}
use instro.Prelude.Dict
use instro.Prelude.Dict.{item-eq, has-eq}
use instro.Types.{Measurement}
use instro.Deque
use instro.Deque.{Deque}
use instro.ChannelBuffer.DequeStore.{Buffer, hooks, get_values, get_timestamps, points_in_buffer}
use instro.ChannelBuffer.DequeStore.Content.{samples, stamps}

newest-eq-last : {A : Type 0} (d : Deque A) (k : ℕ) → Deque.newest d k ≡ last k d.items
unfolding Deque.newest
newest-eq-last d k =
    ground (arith, last-min k d.items, drop_all (length d.items - min k (length d.items)) d.items)

module _ {V : Type 0} where
  -- A wait that succeeds ends in a state in which the predicate holds.
  wait_for-ok :
      (p : Buffer V → Result Bool) (ev : List (List (Event V))) (s : Buffer V)
      → (wait_for hooks p ev s).0 ≡ ok true
      → p (wait_for hooks p ev s).1 ≡ ok true
  unfolding wait_for
  wait_for-ok p [] s h = h
  wait_for-ok p (es ∷ rest) s h = ground (arith, wait_for-ok p rest (happen_all hooks es s))

  extract-ok :
      (ch : String) (n : ℕ) (s s' : Buffer V) (m : Measurement V)
      → extract hooks ch n s ≡ (ok m, s')
      → (s' ≡ s)
        × (m.channel_data ≡ (ch, last (min n (length (samples s ch))) (samples s ch)) ∷ [])
        × (m.timestamps ≡ last (min n (length (samples s ch))) (stamps s ch))
  unfolding extract get_values get_timestamps points_in_buffer
  extract-ok ch n s s' m h = let h' = simp (item-eq, newest-eq-last) at h in ground (arith, h')

  wait_for_points-ok :
      (ch : String) (n : ℕ) (o : Others V) (s : Buffer V)
      → o.time_left ≡ true
      → (wait_for_points hooks ch n o s).0 ≡ ok tt
      → enough_points hooks ch n (wait_for_points hooks ch n o s).1 ≡ ok true
  unfolding wait_for_points
  wait_for_points-ok ch n o s t h =
      ground (arith, wait_for-ok (enough_points hooks ch n) o.for_samples s)

  check_not_short-ok :
      (ch : String) (n : ℕ) (s : Buffer V)
      → (check_not_short hooks ch n s).0 ≡ ok tt
      → enough_points hooks ch n s ≡ ok true
      → (n ≤ length (samples s ch)) × ((check_not_short hooks ch n s).1 ≡ s)
  unfolding check_not_short points_in_buffer
  check_not_short-ok ch n s h e =
      let h' = simp item-eq at h in
      let e' = simp item-eq at e in ground (arith, h', e', item-eq s.values ch)

  -- A read with time left, when it returns at all, returns exactly the newest `n` samples that the
  -- channel holds at that time, and as many of its newest timestamps.
  pub get_with_buffer_wait_lem :
      (ch : String) (n : ℕ) (o : Others V) (s s' : Buffer V) (m : Measurement V)
      → o.time_left ≡ true
      → get_with_buffer_wait hooks ch n o s ≡ (ok m, s')
      → (n ≤ length (samples s' ch))
        × (m.channel_data ≡ (ch, last n (samples s' ch)) ∷ [])
        × (m.timestamps ≡ last n (stamps s' ch))
  unfolding get_with_buffer_wait
  get_with_buffer_wait_lem ch n o s s' m t h =
      let s1 = (wait_for hooks (channel_known hooks ch) o.for_channel s).1 in
      let s2 = (wait_for_points hooks ch n o s1).1 in
      let s3 = (check_not_short hooks ch n s2).1 in
      ground
        (arith, wait_for_points-ok ch n o s1 t, check_not_short-ok ch n s2, extract-ok ch n s3 s' m)

  -- A read that waits for new samples, when it returns, has seen at least `n` values arrive since
  -- it began to wait, and returns the newest min(n, held) samples of the channel.
  pub get_with_wait_lem :
      (ch : String) (n : ℕ) (o : Others V) (s s' : Buffer V) (m : Measurement V)
      → get_with_wait hooks ch n o s ≡ (ok m, s')
      → (added s ch + n ≤ added s' ch)
        × (m.channel_data ≡ (ch, last n (samples s' ch)) ∷ [])
        × (m.timestamps ≡ last (min n (length (samples s' ch))) (stamps s' ch))
  unfolding get_with_wait
  get_with_wait_lem ch n o s s' m h =
      let p = enough_new hooks ch (added s ch + n) in
      let s1 = (wait_for hooks p o.for_samples s).1 in
      ground
        (arith, wait_for-ok p o.for_samples s, extract-ok ch n s1 s' m, last-min n (samples s' ch))

  -- the channel is there, and the buffer is open and holds fewer than `n` samples of it
  pub record IsShort (ch : String) (n : ℕ) (s : Buffer V) : Type 0 where
    pub known : Dict.has s.values ch ≡ true
    pub is_open : s.closed ≡ false
    pub few : length (samples s ch) < n

  -- the buffer after what happened before each of these looks
  abbrev pub seen : List (List (Event V)) → Buffer V → Buffer V
  seen [] s = s
  seen (es ∷ looks) s = seen looks (happen_all hooks es s)

  -- it is short at the first look and at each of these
  abbrev pub StaysShort : String → ℕ → List (List (Event V)) → Buffer V → Type 0
  StaysShort ch n [] s = IsShort ch n s
  StaysShort ch n (es ∷ looks) s = IsShort ch n s × StaysShort ch n looks (happen_all hooks es s)

  closed_points :
      (ch : String) (n : ℕ) (s : Buffer V)
      → enough_points hooks ch n (close s) ≡ err Error.key_error
  unfolding points_in_buffer close Dict.item Dict.get
  closed_points ch n s = refl

  raised_at_once :
      (p : Buffer V → Result Bool) (e : Error) (looks : List (List (Event V))) (s : Buffer V)
      → p s ≡ err e
      → wait_for hooks p looks s ≡ (err e, s)
  unfolding wait_for
  raised_at_once p e [] s h = ground arith
  raised_at_once p e (es ∷ looks) s h = ground arith

  still_waits :
      (p : Buffer V → Result Bool) (es : List (Event V)) (looks : List (List (Event V)))
      (s : Buffer V)
      → p s ≡ ok false
      → wait_for hooks p (es ∷ looks) s ≡ wait_for hooks p looks (happen_all hooks es s)
  unfolding wait_for
  still_waits p es looks s h = ground arith

  IsShort-waits :
      (ch : String) (n : ℕ) (s : Buffer V) → IsShort ch n s → enough_points hooks ch n s ≡ ok false
  unfolding points_in_buffer
  IsShort-waits ch n s h = let k = simp has-eq at h.known in simp item-eq (ground (arith, k, h))

  happen_all-close :
      (es : List (Event V)) (s : Buffer V)
      → happen_all hooks (es ++ (closes ∷ [])) s ≡ close (happen_all hooks es s)
  unfolding happen_all
  happen_all-close [] s = refl
  happen_all-close (e ∷ es) s = happen_all-close es (happen hooks e s)

  -- a wait that leaves with what the predicate raises over the closed buffer
  wait_for-close :
      (ch : String) (n : ℕ) (looks : List (List (Event V))) (es : List (Event V))
      (rest : List (List (Event V))) (s : Buffer V)
      → StaysShort ch n looks s
      → wait_for hooks (enough_points hooks ch n) (looks ++ ((es ++ (closes ∷ [])) ∷ rest)) s
        ≡ (err Error.key_error, close (happen_all hooks es (seen looks s)))
  wait_for-close ch n [] es rest s h =
      let p = enough_points hooks ch n in
      let last = happen_all hooks es s in
      still_waits p (es ++ (closes ∷ [])) rest s (IsShort-waits ch n s h)
      ∙ ap (wait_for hooks p rest) (happen_all-close es s)
      ∙ raised_at_once p Error.key_error rest (close last) (closed_points ch n last)
  wait_for-close ch n (fs ∷ looks) es rest s (h, t) =
      let more = looks ++ ((es ++ (closes ∷ [])) ∷ rest) in
      still_waits (enough_points hooks ch n) fs more s (IsShort-waits ch n s h)
      ∙ wait_for-close ch n looks es rest (happen_all hooks fs s) t

  StaysShort-first :
      (ch : String) (n : ℕ) (looks : List (List (Event V))) (s : Buffer V)
      → StaysShort ch n looks s
      → IsShort ch n s
  StaysShort-first ch n [] s h = h
  StaysShort-first ch n (es ∷ looks) s h = h.0

  -- A reader that does not ask for new samples has found its channel, in a buffer `t`, with time
  -- left, and at each of some looks the open buffer holds fewer samples than it waits for. If at its
  -- next look the buffer has been closed after all else that happened, it gets a KeyError, not the
  -- ChannelValueTimeoutError that the code has for it.
  pub get_with_buffer_wait_closed :
      (ch : String) (n : ℕ) (o : Others V) (s t : Buffer V) (looks : List (List (Event V)))
      (es : List (Event V)) (rest : List (List (Event V)))
      → wait_for hooks (channel_known hooks ch) o.for_channel s ≡ (ok true, t)
      → StaysShort ch n looks t
      → o.time_left ≡ true
      → o.for_samples ≡ looks ++ ((es ++ (closes ∷ [])) ∷ rest)
      → get_with_buffer_wait hooks ch n o s
        ≡ (err Error.key_error, close (happen_all hooks es (seen looks t)))
  unfolding get_with_buffer_wait wait_for_points
  get_with_buffer_wait_closed ch n o s t looks es rest known short left ev = simp (
    known,
    left,
    ev,
    (StaysShort-first ch n looks t short).is_open,
    wait_for-close ch n looks es rest t short,
  )
