-- ===== src/Publishers/Queued/Delivery.antt =====
-- A close that waits for the queue delivers what was accepted, and closes the publisher after it.
use instro.Prelude.{
  ℕ, ◌≡◌, refl, sym, ap, subst, ◌∙◌, ◌⊎◌, inl, inr, true, false, List, [], ◌∷◌, ◌++◌, append-nil,
  arith, Bool-cases,
}
use instro.Publishers.{Publisher}
use instro.Publishers.Buffered.Delivery.{sent, sent-append}
use instro.Publishers.Queued.{
  Queued, Worker, exited, died, publishing, new, Step, submits, puts, tests, takes, times_out,
  publishes, stops, joins, Steps, start, more,
}
use instro.Publishers.Queued.Order.{new-InOrder}

-- the worker is still running: its loop has not ended
abbrev pub Running : {D : Type 0} → Worker D → Type 0
Running exited = ⊥
Running died = ⊥
Running _ = Unit {0}

not_empty : {D : Type 0} (xs : List D) (d : D) (ys : List D) → xs ++ (d ∷ ys) ≡ [] → ⊥
not_empty [] d ys e = cc
not_empty (x ∷ xs) d ys e = cc

module _ {P D : Type 0} (ops : Publisher P D) (max_queue_size : ℕ) where
  -- a close is under way, no `publish` is half done, and a worker that has ended left nothing
  record Closing (items : List D) (s : Queued P D) : Type 0 where
    stopped : s.stop_event ≡ true
    nothing_pending : s.pending ≡ []
    accepted_all : s.accepted ≡ items
    left_nothing : s.worker ≡ exited → s.queue ≡ []

  Step-Closing :
      {s t : Queued P D} (items : List D)
      → Step ops max_queue_size true s t
      → Closing items s
      → Closing items t
  Step-Closing items (submits {s} d) h = rw h.stopped (record {
    stopped = refl;
    nothing_pending = h.nothing_pending;
    accepted_all = h.accepted_all;
    left_nothing = h.left_nothing;
  })
  Step-Closing items (puts {s} before d after e r) h =
      absurd (not_empty before d after (sym e ∙ h.nothing_pending))
  Step-Closing items (tests {s} e) h = record {
    stopped = h.stopped;
    nothing_pending = h.nothing_pending;
    accepted_all = h.accepted_all;
    left_nothing = ground arith;
  }
  Step-Closing items (takes {s} d ds e q) h = record {
    stopped = h.stopped;
    nothing_pending = h.nothing_pending;
    accepted_all = h.accepted_all;
    left_nothing = λ x. cc;
  }
  Step-Closing items (times_out {s} e q) h = record {
    stopped = h.stopped;
    nothing_pending = h.nothing_pending;
    accepted_all = h.accepted_all;
    left_nothing = λ x. cc;
  }
  Step-Closing items (publishes {s} d e) h = record {
    stopped = h.stopped;
    nothing_pending = h.nothing_pending;
    accepted_all = h.accepted_all;
    left_nothing = ground arith;
  }
  Step-Closing items (stops {s}) h = record {
    stopped = refl;
    nothing_pending = h.nothing_pending;
    accepted_all = h.accepted_all;
    left_nothing = h.left_nothing;
  }
  Step-Closing items (joins {s} e c w) h = record {
    stopped = h.stopped;
    nothing_pending = h.nothing_pending;
    accepted_all = h.accepted_all;
    left_nothing = h.left_nothing;
  }

  Steps-Closing :
      {s t : Queued P D} (items : List D)
      → Steps ops max_queue_size true s t
      → Closing items s
      → Closing items t
  Steps-Closing items start h = h
  Steps-Closing items (more ss x) h = Step-Closing items x (Steps-Closing items ss h)

  -- the item in the worker's hands counts as received
  abbrev in_flight : Worker D → P → P
  in_flight (publishing d) p = (Publisher.publish ops d p).1
  in_flight _ p = p

  -- the publisher received what the worker took, and `close` after that
  data Received (p : P) : Queued P D → Type 0 where
    so_far :
        {s : Queued P D}
        → s.is_closed ≡ false
        → in_flight s.worker s.publisher ≡ sent ops s.given p
        → Received p s
    closed_after :
        {s : Queued P D}
        → s.is_closed ≡ true
        → (s.worker ≡ exited) ⊎ (s.worker ≡ died)
        → s.publisher ≡ (Publisher.close ops (sent ops s.given p)).1
        → Received p s

  Step-Received :
      {s t : Queued P D} (p : P) → Step ops max_queue_size true s t → Received p s → Received p t
  Step-Received p (submits {s} d) (so_far c e) = elim (Bool-cases s.stop_event) [
    | inl y ↦ rw y (so_far c e)
    | inr y ↦ rw y (so_far c e)
  ]
  Step-Received p (submits {s} d) (closed_after c w e) = elim (Bool-cases s.stop_event) [
    | inl y ↦ rw y (closed_after c w e)
    | inr y ↦ rw y (closed_after c w e)
  ]
  Step-Received p (puts before d after e r) (so_far c x) = so_far c x
  Step-Received p (puts before d after e r) (closed_after c w x) = closed_after c w x
  Step-Received p (tests {s} e) (so_far c x) = so_far c (ground (arith, e, x))
  Step-Received p (tests e) (closed_after c w x) = ground arith
  Step-Received p (takes {s} d ds e q) (so_far c x) = so_far c (
      ap (λ y. (Publisher.publish ops d y).1) (ap (λ w. in_flight w s.publisher) (sym e) ∙ x)
      ∙ sym (sent-append ops s.given (d ∷ []) p))
  Step-Received p (takes d ds e q) (closed_after c w x) = ground arith
  Step-Received p (times_out e q) (so_far c x) = so_far c (ground (arith, e, x))
  Step-Received p (times_out e q) (closed_after c w x) = ground arith
  Step-Received p (publishes d e) (so_far c x) = so_far c (ground (arith, e, x))
  Step-Received p (publishes d e) (closed_after c w x) = ground arith
  Step-Received p stops (so_far c x) = so_far c x
  Step-Received p stops (closed_after c w x) = closed_after c w x
  Step-Received p (joins e n w) (so_far c x) =
      closed_after refl w (ap (λ y. (Publisher.close ops y).1) (ground (arith, w, x)))
  Step-Received p (joins e n w) (closed_after c v x) = ground arith

  Steps-Received :
      {s t : Queued P D} (p : P) → Steps ops max_queue_size true s t → Received p s → Received p t
  Steps-Received p start h = h
  Steps-Received p (more ss x) h = Step-Received p x (Steps-Received p ss h)

  append-Steps :
      {s t u : Queued P D}
      → Steps ops max_queue_size true s t
      → Steps ops max_queue_size true t u
      → Steps ops max_queue_size true s u
  append-Steps ss start = ss
  append-Steps ss (more ts x) = more (append-Steps ss ts) x

  -- For a queued publisher that waits for its queue: if, in a state it can get into, the stop event
  -- is set, no `publish` call is half done and the worker runs, then in any later state in which
  -- the worker has left its loop and `close` has returned, the publisher has received every item
  -- that was accepted, in order, and then `close`; the queue is empty.
  pub closed_lem :
      (p : P) (s t : Queued P D)
      → Steps ops max_queue_size true (new ops max_queue_size true p) s
      → s.stop_event ≡ true
      → s.pending ≡ []
      → Running s.worker
      → Steps ops max_queue_size true s t
      → t.worker ≡ exited
      → t.is_closed ≡ true
      → (t.publisher ≡ (Publisher.close ops (sent ops s.accepted p)).1) × (t.queue ≡ [])
  unfolding new
  closed_lem p s t before stop pending running after ended closed =
      let whole = append-Steps before after in
      let c = Steps-Closing s.accepted after (record {
        stopped = stop;
        nothing_pending = pending;
        accepted_all = refl;
        left_nothing = λ e. absurd (subst Running e running);
      }) in
      let empty = c.left_nothing ended in
      let o = (new-InOrder ops max_queue_size true p t whole).order in
      let all_given =
        sym (append-nil t.given) ∙ ap (λ q. t.given ++ q) (sym empty) ∙ o ∙ c.accepted_all in
      (
        received t closed (Steps-Received p whole (so_far refl refl))
            ∙ ap (λ g. (Publisher.close ops (sent ops g p)).1) all_given,
        empty,
      )
    where
      received :
          (t : Queued P D)
          → t.is_closed ≡ true
          → Received p t
          → t.publisher ≡ (Publisher.close ops (sent ops t.given p)).1
      received t closed (so_far c x) = absurd (ground arith)
      received t closed (closed_after c w x) = x
