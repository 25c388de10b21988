-- ===== src/Publishers/Queued/Order.antt =====
-- The queue keeps the order of its items, and its bound.
use instro.Prelude.{
  ℕ, ◌≤◌, ◌≡◌, refl, sym, ap, ◌∙◌, ◌⊎◌, inl, inr, Bool, [], ◌∷◌, ◌++◌, append_assoc, arith,
  Bool-cases, length, length-append,
}
use instro.Publishers.{Publisher}
use instro.Publishers.Queued.{
  Queued, new, Step, submits, puts, tests, takes, times_out, publishes, stops, joins, Steps, start,
  more,
}

module _ {P D : Type 0} (ops : Publisher P D) (max_queue_size : ℕ) (wait_for_queue : Bool) where
  pub record InOrder (s : Queued P D) : Type 0 where
    pub order : s.given ++ s.queue ≡ s.accepted
    pub bound : (max_queue_size ≡ 0) ⊎ (length s.queue ≤ max_queue_size)

  Step-InOrder :
      {s t : Queued P D} → Step ops max_queue_size wait_for_queue s t → InOrder s → InOrder t
  Step-InOrder (submits {s} d) h = elim (Bool-cases s.stop_event) [
    | inl e ↦ rw e (record { order = h.order; bound = h.bound })
    | inr e ↦ rw e (record { order = h.order; bound = h.bound })
  ]
  Step-InOrder (puts {s} before d after e r) h = record {
    order = sym (append_assoc s.given s.queue (d ∷ [])) ∙ ap (λ xs. xs ++ (d ∷ [])) h.order;
    bound = ground (arith, length-append s.queue (d ∷ []));
  }
  Step-InOrder (tests e) h = record { order = h.order; bound = h.bound }
  Step-InOrder (takes {s} d ds e q) h = record {
    order = append_assoc s.given (d ∷ []) ds ∙ ap (λ xs. s.given ++ xs) (sym q) ∙ h.order;
    bound = ground (arith, ap length q);
  }
  Step-InOrder (times_out e q) h = record { order = h.order; bound = h.bound }
  Step-InOrder (publishes d e) h = record { order = h.order; bound = h.bound }
  Step-InOrder stops h = record { order = h.order; bound = h.bound }
  Step-InOrder (joins e c w) h = record { order = h.order; bound = h.bound }

  Steps-InOrder :
      {s t : Queued P D} → Steps ops max_queue_size wait_for_queue s t → InOrder s → InOrder t
  Steps-InOrder start h = h
  Steps-InOrder (more ss x) h = Step-InOrder x (Steps-InOrder ss h)

  -- In any state that a new queued publisher can get into, whatever its threads do, the items that
  -- the worker took and those in the queue are the accepted ones in order, and the queue is within
  -- its bound.
  pub new-InOrder :
      (p : P) (t : Queued P D)
      → Steps ops max_queue_size wait_for_queue (new ops max_queue_size wait_for_queue p) t
      → InOrder t
  unfolding new
  new-InOrder p t ss = Steps-InOrder ss (record { order = refl; bound = inr (omega arith) })
