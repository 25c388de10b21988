-- ===== src/Publishers/Buffered/Delivery.antt =====
-- Buffering keeps the order and loses nothing, as long as the publisher does not raise.
use instro.Prelude.{
  ℕ, ◌<◌, ◌≡◌, refl, sym, ap, ◌∙◌, ◌⊎◌, inl, inr, true, false, List, [], ◌∷◌, ◌++◌, append-nil,
  append_assoc, arith, leb, Bool-cases, length, ok,
}
use instro.Publishers.{Publisher}
use instro.Publishers.Buffered.{Buffered, new, publish_each, publish_buffered, close_buffered}

-- neither method of the wrapped publisher raises
pub record Quiet {P D : Type 0} (ops : Publisher P D) : Type 0 where
  pub publishes : (d : D) (p : P) → (Publisher.publish ops d p).0 ≡ ok tt
  pub closes : (p : P) → (Publisher.close ops p).0 ≡ ok tt

module _ {P D : Type 0} (ops : Publisher P D) where
  open ops use {publish, close}

  -- the publisher after it was sent each item directly
  abbrev pub sent : List D → P → P
  sent [] p = p
  sent (d ∷ ds) p = sent ds (publish d p).1

  pub sent-append : (xs ys : List D) (p : P) → sent (xs ++ ys) p ≡ sent ys (sent xs p)
  sent-append [] ys p = refl
  sent-append (x ∷ xs) ys p = sent-append xs ys (publish x p).1

module _ {P D K : Type 0} (ops : Publisher P (D × K)) (no_kwargs : K) where
  open ops use {publish, close}

  -- the publisher after it was sent each item directly, with no keyword arguments
  abbrev pub sent_bare : List D → P → P
  sent_bare [] p = p
  sent_bare (d ∷ ds) p = sent_bare ds (publish (d, no_kwargs) p).1

  sent_bare-append :
      (xs ys : List D) (p : P) → sent_bare (xs ++ ys) p ≡ sent_bare ys (sent_bare xs p)
  sent_bare-append [] ys p = refl
  sent_bare-append (x ∷ xs) ys p = sent_bare-append xs ys (publish (x, no_kwargs) p).1

  -- publish each item with its keyword arguments in turn, to the buffer
  abbrev pub publish_all : List (D × K) → Buffered P D → Buffered P D
  publish_all [] b = b
  publish_all ((d, kwargs) ∷ ds) b = publish_all ds (publish_buffered ops no_kwargs d kwargs b).1

  -- the data of calls, without the keyword arguments
  abbrev pub data_of : List (D × K) → List D
  data_of [] = []
  data_of ((d, kwargs) ∷ ds) = d ∷ data_of ds

  -- what was sent to `p` and what the buffer holds make up `items`, and the buffer is not full
  pub record Holds (p : P) (n : ℕ) (items : List D) (b : Buffered P D) : Type 0 where
    pub delivered : List D
    pub all : delivered ++ b.buffer ≡ items
    pub received : b.publisher ≡ sent_bare delivered p
    pub size : b.buffer_size ≡ n
    pub room : (length b.buffer < n) ⊎ (b.buffer ≡ [])
    pub not_closed : b.is_closed ≡ false

  module _ (q : Quiet ops) where
    pub publish_each-eq :
        (ds : List D) (p : P) → publish_each ops no_kwargs ds p ≡ (ok tt, sent_bare ds p)
    unfolding publish_each
    publish_each-eq [] p = refl
    publish_each-eq (d ∷ ds) p =
        rw (q.publishes (d, no_kwargs) p) (publish_each-eq ds (publish (d, no_kwargs) p).1)

    publish-Holds :
        (p : P) (n : ℕ) (items : List D) (d : D) (kwargs : K) (b : Buffered P D)
        → Holds p n items b
        → Holds p n (items ++ (d ∷ [])) (publish_buffered ops no_kwargs d kwargs b).1
    unfolding publish_buffered
    publish-Holds p n items d kwargs b h =
        let next = b.buffer ++ (d ∷ []) in
        let together =
          sym (append_assoc h.delivered b.buffer (d ∷ [])) ∙ ap (λ xs. xs ++ (d ∷ [])) h.all in
        elim (Bool-cases (leb b.buffer_size (length next))) [
          | inl full ↦
              rw (h.not_closed, full, publish_each-eq)
                (record {
                  delivered = h.delivered ++ next;
                  all = append-nil (h.delivered ++ next) ∙ together;
                  received =
                      ap (sent_bare next) h.received ∙ sym (sent_bare-append h.delivered next p);
                  size = h.size;
                  room = inr refl;
                  not_closed = refl;
                })
          | inr free ↦
              rw (h.not_closed, free)
                (record {
                  delivered = h.delivered;
                  all = together;
                  received = h.received;
                  size = h.size;
                  room = inl (ground (arith, h.size));
                  not_closed = refl;
                })
        ]

    publish_all-Holds :
        (p : P) (n : ℕ) (items : List D) (ds : List (D × K)) (b : Buffered P D)
        → Holds p n items b
        → Holds p n (items ++ data_of ds) (publish_all ds b)
    publish_all-Holds p n items [] b h = rw append-nil h
    publish_all-Holds p n items ((d, kwargs) ∷ ds) b h =
        rw (← append_assoc items (d ∷ []) (data_of ds)) (
          publish_all-Holds p n (items ++ (d ∷ [])) ds (publish_buffered ops no_kwargs d kwargs b).1
            (publish-Holds p n items d kwargs b h))

    -- Whatever data is published to a new buffer over a publisher that does not raise has reached
    -- that publisher or is in the buffer, in order, and the buffer holds fewer items than its size,
    -- or none. The keyword arguments of the calls are dropped: the publisher gets each item with
    -- none.
    pub publish_all_lem :
        (p : P) (n : ℕ) (ds : List (D × K))
        → Holds p n (data_of ds) (publish_all ds (new ops no_kwargs p n))
    unfolding new
    publish_all_lem p n ds = publish_all-Holds p n [] ds (new ops no_kwargs p n) (record {
      delivered = [];
      all = refl;
      received = refl;
      size = refl;
      room = inr refl;
      not_closed = refl;
    })

    close-eq :
        (b : Buffered P D)
        → b.is_closed ≡ false
        → (close_buffered ops no_kwargs b).1 ≡ record b {
          publisher = (close (sent_bare b.buffer b.publisher)).1;
          buffer = [];
          is_closed = true;
        }
    unfolding close_buffered
    close-eq b c = rw (c, publish_each-eq, q.closes (sent_bare b.buffer b.publisher)) refl

    publish_closed :
        (d : D) (kwargs : K) (b : Buffered P D)
        → b.is_closed ≡ true
        → (publish_buffered ops no_kwargs d kwargs b).1 ≡ b
    unfolding publish_buffered
    publish_closed d kwargs b c = ground arith

    closed_stays :
        (later : List (D × K)) (b : Buffered P D)
        → b.is_closed ≡ true
        → (close_buffered ops no_kwargs (publish_all later b)).1 ≡ b
    unfolding close_buffered
    closed_stays [] b c = ground arith
    closed_stays ((d, kwargs) ∷ ds) b c =
        ap (λ x. (close_buffered ops no_kwargs (publish_all ds x)).1) (publish_closed d kwargs b c)
        ∙ closed_stays ds b c

    -- Over a publisher that does not raise: once the buffer is closed, the publisher has received
    -- the data of every call in order, without keyword arguments, and then `close`, and it receives
    -- nothing more from later calls.
    pub close-publish_all :
        (p : P) (n : ℕ) (ds later : List (D × K))
        → let b = (close_buffered ops no_kwargs (publish_all ds (new ops no_kwargs p n))).1 in
          let c = (close_buffered ops no_kwargs (publish_all later b)).1 in
          (b.publisher ≡ (close (sent_bare (data_of ds) p)).1) × (b.buffer ≡ []) × (c ≡ b)
    close-publish_all p n ds later =
        let h = publish_all_lem p n ds in
        let b = publish_all ds (new ops no_kwargs p n) in
        let all_sent =
          sym (sent_bare-append h.delivered b.buffer p) ∙ ap (λ xs. sent_bare xs p) h.all in
        let got = ap (sent_bare b.buffer) h.received ∙ all_sent in
        let e = close-eq b h.not_closed in
        (
          ap (λ c. c.publisher) e ∙ ap (λ x. (close x).1) got,
          ap (λ c. c.buffer) e,
          closed_stays later (close_buffered ops no_kwargs b).1 (ap (λ c. c.is_closed) e),
        )
