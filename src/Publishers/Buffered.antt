-- ===== src/Publishers/Buffered.antt =====
-- `BufferedPublisher`, with the `publish_batch` of `BasicBufferedPublisher`. Its `publish` takes
-- keyword arguments and buffers the data without them; the publisher below is called with none.
use instro.Prelude.{
  ℕ, zero, suc, ◌+◌, ◌-◌, ◌*◌, ◌/◌, ◌%◌, ◌^◌, ◌≤◌, ◌<◌, min, String, ◌≡◌, refl, sym, ap, ap₂, subst,
  fun_ext, ◌∙◌, ◌≢◌, ◌↔◌, ◌⊎◌, inl, inr, Bool, true, false, not, ◌&&◌, ◌||◌, Option, none, some,
  List, [], ◌∷◌, ◌++◌, map, append-nil, append_assoc, arith, eq_iff, eq_refl, dec_lt, ℕ_discrete,
  ltb, leb, ◌==◌, if◌then◌else◌, Bool-cases, Option-cases, length, get_elem?, set, take, drop,
  replicate, last, length-append, length-take, length-drop, length-last, last-min, drop_all,
  take_all, take-append-drop, last_all, last-append_last, Result, ok, err, guard, Error,
  Result-cases, map_ok,
}
use instro.Publishers.{Publisher}
use instro.Prelude.Exec.{Exec, ◌>>◌, modify, pure}
pub mod Delivery
mod Tests

pub record Buffered (P D : Type 0) : Type 0 where
  pub publisher : P
  pub buffer : List D
  pub buffer_size : ℕ
  pub is_closed : Bool

module _ {P D K : Type 0} (ops : Publisher P (D × K)) (no_kwargs : K) where
  open ops use {publish, close}

  unfoldable pub new : P → ℕ → Buffered P D
  new p n = record { publisher = p; buffer = []; buffer_size = n; is_closed = false }

  -- for data in buffer: publisher.publish(data)
  unfoldable pub publish_each : List D → Exec P (Unit {0})
  publish_each [] = pure tt
  publish_each (d ∷ ds) = do publish (d, no_kwargs); publish_each ds

  abbrev pub on_publisher : Exec P (Unit {0}) → Exec (Buffered P D) (Unit {0})
  on_publisher m b = ((m b.publisher).0, record b { publisher = (m b.publisher).1 })

  unfoldable pub publish_batch : Exec (Buffered P D) (Unit {0})
  publish_batch b = on_publisher (publish_each b.buffer) b

  abbrev pub clear : Exec (Buffered P D) (Unit {0})
  clear = modify (λ b. record b { buffer = [] })

  unfoldable pub flush : Exec (Buffered P D) (Unit {0})
  unfolding publish_batch
  flush = do publish_batch; clear

  unfoldable pub publish_buffered : D → K → Exec (Buffered P D) (Unit {0})
  unfolding flush
  publish_buffered d kwargs b =
      if b.is_closed
      then (ok tt, b)
      else (let kept = record b { buffer = b.buffer ++ (d ∷ []) } in
          if leb kept.buffer_size (length kept.buffer) then flush kept else (ok tt, kept))

  abbrev pub close_publisher : Exec (Buffered P D) (Unit {0})
  close_publisher = on_publisher close

  unfoldable pub close_buffered : Exec (Buffered P D) (Unit {0})
  unfolding flush
  close_buffered b =
      if b.is_closed
      then (ok tt, b)
      else (do flush; close_publisher; modify (λ c. record c { is_closed = true })) b
