-- ===== src/Publishers/Queued.antt =====
-- `QueuedPublisher` as the steps of its threads: callers of `publish`, the worker, and one caller
-- of `close`. A step is what happens between two points where another thread can come in. Two
-- histories, `accepted` and `given`, say what went into the queue and what the worker took out.
use instro.Prelude.{
  ℕ, zero, suc, ◌+◌, ◌-◌, ◌*◌, ◌/◌, ◌%◌, ◌^◌, ◌≤◌, ◌<◌, min, String, ◌≡◌, refl, sym, ap, ap₂, subst,
  fun_ext, ◌∙◌, ◌≢◌, ◌↔◌, ◌⊎◌, inl, inr, Bool, true, false, not, ◌&&◌, ◌||◌, Option, none, some,
  List, [], ◌∷◌, ◌++◌, map, append-nil, append_assoc, arith, eq_iff, eq_refl, dec_lt, ℕ_discrete,
  ltb, leb, ◌==◌, if◌then◌else◌, Bool-cases, Option-cases, length, get_elem?, set, take, drop,
  replicate, last, length-append, length-take, length-drop, length-last, last-min, drop_all,
  take_all, take-append-drop, last_all, last-append_last, Result, ok, err, guard, Error,
  Result-cases, map_ok,
}
use instro.Publishers.{Publisher}
pub mod Order
pub mod Progress
pub mod Delivery
mod Tests

-- where the worker is: at its loop's test, in `queue.get`, in `publisher.publish`, or gone, by the
-- test or by an exception
pub data Worker (D : Type 0) : Type 0 where
  testing getting exited died : Worker D
  publishing : D → Worker D

pub record Queued (P D : Type 0) : Type 0 where
  pub publisher : P
  pub queue : List D
  pub stop_event : Bool
  pub worker : Worker D
  -- the items of `publish` calls that have passed the test of the stop event
  pub pending : List D
  -- `close` has returned
  pub is_closed : Bool
  pub accepted : List D
  pub given : List D

module _ {P D : Type 0} (ops : Publisher P D) (max_queue_size : ℕ) (wait_for_queue : Bool) where
  open ops use {publish, close}

  unfoldable pub new : P → Queued P D
  new p = record {
    publisher = p;
    queue = [];
    stop_event = false;
    worker = testing;
    pending = [];
    is_closed = false;
    accepted = [];
    given = [];
  }

  -- `publish` up to the queue: an item that comes after the stop event is dropped
  abbrev pub submit : D → Queued P D → Queued P D
  submit d s = if s.stop_event then s else record s { pending = s.pending ++ (d ∷ []) }

  -- `queue.put` of one of the pending items
  abbrev pub put : List D → D → List D → Queued P D → Queued P D
  put before d after s = record s {
    pending = before ++ after;
    queue = s.queue ++ (d ∷ []);
    accepted = s.accepted ++ (d ∷ []);
  }

  -- the queue has no bound for `maxsize=0`
  abbrev pub HasRoom : List D → Type 0
  HasRoom q = (max_queue_size ≡ 0) ⊎ (length q < max_queue_size)

  abbrev pub is_nil : List D → Bool
  is_nil [] = true
  is_nil (d ∷ ds) = false

  -- the test of the worker's loop
  abbrev pub goes_on : Queued P D → Bool
  goes_on s = not s.stop_event || (wait_for_queue && not (is_nil s.queue))

  abbrev pub test : Queued P D → Queued P D
  test s = record s { worker = if goes_on s then getting else exited }

  -- `queue.get(timeout=0.1)` returns an item, or raises `Empty` and the loop continues
  abbrev pub take_item : D → List D → Queued P D → Queued P D
  take_item d ds s = record s { worker = publishing d; queue = ds; given = s.given ++ (d ∷ []) }

  -- an exception of the publisher ends the worker
  abbrev pub after_publish : Result (Unit {0}) → Worker D
  after_publish (ok u) = testing
  after_publish (err e) = died

  abbrev pub publish_item : D → Queued P D → Queued P D
  publish_item d s = record s {
    publisher = (publish d s.publisher).1;
    worker = after_publish (publish d s.publisher).0;
  }

  abbrev pub finish : Queued P D → Queued P D
  finish s = record s { publisher = (close s.publisher).1; is_closed = true }

  pub data Step : Queued P D → Queued P D → Type 0 where
    submits : {s : Queued P D} (d : D) → Step s (submit d s)
    puts :
        {s : Queued P D} (before : List D) (d : D) (after : List D)
        → s.pending ≡ before ++ (d ∷ after)
        → HasRoom s.queue
        → Step s (put before d after s)
    tests : {s : Queued P D} → s.worker ≡ testing → Step s (test s)
    takes :
        {s : Queued P D} (d : D) (ds : List D)
        → s.worker ≡ getting
        → s.queue ≡ d ∷ ds
        → Step s (take_item d ds s)
    times_out :
        {s : Queued P D}
        → s.worker ≡ getting
        → s.queue ≡ []
        → Step s (record s { worker = testing })
    publishes : {s : Queued P D} (d : D) → s.worker ≡ publishing d → Step s (publish_item d s)
    stops : {s : Queued P D} → Step s (record s { stop_event = true })
    joins :
        {s : Queued P D}
        → s.stop_event ≡ true
        → s.is_closed ≡ false
        → (s.worker ≡ exited) ⊎ (s.worker ≡ died)
        → Step s (finish s)

  pub data Steps : Queued P D → Queued P D → Type 0 where
    start : {s : Queued P D} → Steps s s
    more : {s t u : Queued P D} → Steps s t → Step t u → Steps s u
