-- ===== src/Publishers/Queued/Tests.antt =====
-- One item goes through the queue of a logging publisher while it is closed.
use instro.Prelude.{ℕ, ◌≡◌, refl, true, false, List, [], ◌∷◌, inl, inr, arith, ◌++◌}
use instro.Publishers.{Publisher}
use instro.Publishers.Queued.{
  Queued, testing, new, submits, puts, tests, takes, publishes, stops, joins, Steps, start, more,
  test, take_item, publish_item, finish,
}
use instro.Publishers.Queued.Progress.{Received, new_delivers}
use instro.Publishers.Queued.Delivery.{closed_lem}
use instro.Publishers.Shared.Log.{Event, recorder, published, closed}

abbrev log : Publisher (List (Event ℕ)) ℕ
log = recorder

abbrev fresh : Queued (List (Event ℕ)) ℕ
fresh = record {
  publisher = [];
  queue = [];
  stop_event = false;
  worker = testing;
  pending = [];
  is_closed = false;
  accepted = [];
  given = [];
}

new-fresh : new log 2 true [] ≡ fresh
unfolding new
new-fresh = refl

-- the item is in the queue, and `close` has set the stop event
abbrev stopping : Queued (List (Event ℕ)) ℕ
stopping = record fresh { queue = 7 ∷ []; accepted = 7 ∷ []; stop_event = true }

to_stopping : Steps log 2 true (new log 2 true []) stopping
unfolding new
to_stopping = more (more (more start (submits 7)) (puts [] 7 [] refl (inr (omega arith)))) stops

abbrev ended : Queued (List (Event ℕ)) ℕ
ended = finish log 2 true (
    test log 2 true
      (publish_item log 2 true 7 (take_item log 2 true 7 [] (test log 2 true stopping))))

to_ended : Steps log 2 true stopping ended
to_ended =
    more
      (more (more (more (more start (tests refl)) (takes 7 [] refl refl)) (publishes 7 refl))
        (tests refl))
      (joins refl refl (inl refl))

-- the worker has taken the item and has not published it yet
abbrev holding : Queued (List (Event ℕ)) ℕ
holding = take_item log 2 true 7 [] (test log 2 true stopping)

to_holding : Steps log 2 true (new log 2 true []) holding
to_holding = more (more to_stopping (tests refl)) (takes 7 [] refl refl)

new_delivers_example :
    (handed : List ℕ) × (handed ++ (7 ∷ []) ≡ 7 ∷ []) × Received log 2 true [] handed holding
new_delivers_example = new_delivers log 2 true [] holding to_holding

closed_lem_example : (ended.publisher ≡ closed ∷ published 7 ∷ []) × (ended.queue ≡ [])
closed_lem_example = closed_lem log 2 [] stopping ended to_stopping refl refl tt to_ended refl refl
