-- ===== src/Publishers/Queued/Progress.antt =====
-- What the publisher behind a queue has received at any time.
use instro.Prelude.{
  ℕ, ◌≡◌, refl, sym, ap, ◌∙◌, ◌⊎◌, inl, inr, Bool, true, false, List, [], ◌∷◌, ◌++◌, append-nil,
  append_assoc, arith, Bool-cases, Result, ok, err,
}
use instro.Publishers.{Publisher}
use instro.Publishers.Buffered.Delivery.{sent, sent-append}
use instro.Publishers.Queued.{
  Queued, Worker, testing, getting, exited, died, publishing, after_publish, new, Step, submits,
  puts, tests, takes, times_out, publishes, stops, joins, Steps, start, more,
}
use instro.Publishers.Queued.Order.{new-InOrder}

-- the item that the worker has taken and not yet published
abbrev pub in_hand : {D : Type 0} → Worker D → List D
in_hand (publishing d) = d ∷ []
in_hand _ = []

module _ {P D : Type 0} (ops : Publisher P D) (max_queue_size : ℕ) (wait_for_queue : Bool) where
  open ops use {publish, close}

  -- the publisher was sent `handed`, and after that perhaps closed
  abbrev pub Received : P → List D → Queued P D → Type 0
  Received p handed s =
      ((s.is_closed ≡ false) × (s.publisher ≡ sent ops handed p))
      ⊎ ((s.is_closed ≡ true) × (s.publisher ≡ (close (sent ops handed p)).1))

  record Delivers (p : P) (s : Queued P D) : Type 0 where
    handed : List D
    taken : handed ++ in_hand s.worker ≡ s.given
    received : Received p handed s
    joined : (s.is_closed ≡ false) ⊎ ((s.worker ≡ exited) ⊎ (s.worker ≡ died))

  in_hand-after_publish :
      (r : Result (Unit {0})) → in_hand (after_publish ops max_queue_size wait_for_queue r) ≡ []
  in_hand-after_publish (ok u) = refl
  in_hand-after_publish (err e) = refl

  -- a worker that is at work has not been joined
  not_joined :
      (s : Queued P D) (w : Worker D)
      → s.worker ≡ w
      → ((w ≡ exited) ⊎ (w ≡ died) → ⊥)
      → (s.is_closed ≡ false) ⊎ ((s.worker ≡ exited) ⊎ (s.worker ≡ died))
      → s.is_closed ≡ false
  not_joined s w e n (inl c) = c
  not_joined s w e n (inr (inl x)) = absurd (n (inl (sym e ∙ x)))
  not_joined s w e n (inr (inr x)) = absurd (n (inr (sym e ∙ x)))

  sent_while_open :
      (p : P) (handed : List D) (s : Queued P D)
      → s.is_closed ≡ false
      → Received p handed s
      → s.publisher ≡ sent ops handed p
  sent_while_open p handed s c (inl (x, e)) = e
  sent_while_open p handed s c (inr (x, e)) = absurd (ground arith)

  -- the part of the items that the worker of a kind has out of its hands
  taken_by :
      (p : P) (s : Queued P D) (w : Worker D)
      → s.worker ≡ w
      → (h : Delivers p s) → h.handed ++ in_hand w ≡ s.given
  taken_by p s w e h = ap (λ v. h.handed ++ in_hand v) (sym e) ∙ h.taken

  Step-Delivers :
      {s t : Queued P D} (p : P)
      → Step ops max_queue_size wait_for_queue s t
      → Delivers p s
      → Delivers p t
  Step-Delivers p (submits {s} d) h = elim (Bool-cases s.stop_event) [
    | inl e ↦
        rw e
          (record { handed = h.handed; taken = h.taken; received = h.received; joined = h.joined })
    | inr e ↦
        rw e
          (record { handed = h.handed; taken = h.taken; received = h.received; joined = h.joined })
  ]
  Step-Delivers p (puts before d after e r) h = record {
    handed = h.handed;
    taken = h.taken;
    received = h.received;
    joined = h.joined;
  }
  Step-Delivers p (tests {s} e) h = record {
    handed = h.handed;
    taken = ground (arith, taken_by p s testing e h);
    received = h.received;
    joined = inl (not_joined s testing e (λ x. ground arith) h.joined);
  }
  Step-Delivers p (takes {s} d ds e q) h = record {
    handed = h.handed;
    taken = ap (λ xs. xs ++ (d ∷ [])) (sym (append-nil h.handed) ∙ taken_by p s getting e h);
    received = h.received;
    joined = inl (not_joined s getting e (λ x. ground arith) h.joined);
  }
  Step-Delivers p (times_out {s} e q) h = record {
    handed = h.handed;
    taken = taken_by p s getting e h;
    received = h.received;
    joined = inl (not_joined s getting e (λ x. ground arith) h.joined);
  }
  Step-Delivers p (publishes {s} d e) h =
      let c = not_joined s (publishing d) e (λ x. ground arith) h.joined in
      record {
        handed = h.handed ++ (d ∷ []);
        taken =
            ap (λ xs. (h.handed ++ (d ∷ [])) ++ xs)
              (in_hand-after_publish (publish d s.publisher).0)
            ∙ append-nil (h.handed ++ (d ∷ []))
            ∙ taken_by p s (publishing d) e h;
        received = inl (
          c,
          ap (λ y. (publish d y).1) (sent_while_open p h.handed s c h.received)
              ∙ sym (sent-append ops h.handed (d ∷ []) p),
        );
        joined = inl c;
      }
  Step-Delivers p stops h = record {
    handed = h.handed;
    taken = h.taken;
    received = h.received;
    joined = h.joined;
  }
  Step-Delivers p (joins {s} e n w) h = record {
    handed = h.handed;
    taken = h.taken;
    received = inr (refl, ap (λ y. (close y).1) (sent_while_open p h.handed s n h.received));
    joined = inr w;
  }

  Steps-Delivers :
      {s t : Queued P D} (p : P)
      → Steps ops max_queue_size wait_for_queue s t
      → Delivers p s
      → Delivers p t
  Steps-Delivers p start h = h
  Steps-Delivers p (more ss x) h = Step-Delivers p x (Steps-Delivers p ss h)

  -- In any state that a new queued publisher can get into, whatever its threads do and whether or
  -- not it waits for its queue: the publisher was sent, one after the other, exactly the accepted
  -- items but the one that the worker has in hand and those in the queue, in the order in which the
  -- queue accepted them, and it was closed after them if `close` has returned and not otherwise.
  pub new_delivers :
      (p : P) (t : Queued P D)
      → Steps ops max_queue_size wait_for_queue (new ops max_queue_size wait_for_queue p) t
      → (handed : List D) × (handed ++ (in_hand t.worker ++ t.queue) ≡ t.accepted)
        × Received p handed t
  unfolding new
  new_delivers p t ss =
      let h =
        Steps-Delivers p ss
          (record { handed = []; taken = refl; received = inl (refl, refl); joined = inl refl }) in
      (
        h.handed,
        sym (append_assoc h.handed (in_hand t.worker) t.queue)
            ∙ ap (λ xs. xs ++ t.queue) h.taken
            ∙ (new-InOrder ops max_queue_size wait_for_queue p t ss).order,
        h.received,
      )
