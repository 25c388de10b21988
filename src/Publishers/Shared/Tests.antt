-- ===== src/Publishers/Shared/Tests.antt =====
-- Handles of a logging publisher.
use instro.Prelude.{ℕ, ◌≡◌, refl, true, false, List, [], ◌∷◌}
use instro.Publishers.Shared.{Handles, new, clone, close_handle, publish_handle}
use instro.Publishers.Shared.Counting.{
  live, Action, clones, closes, publishes, run, IsCounted, Closes, run-IsCounted, close_handle_lem,
}
use instro.Publishers.Shared.Log.{Event, recorder, published, closed, IsLog, run-IsLog}

abbrev two_handles : Handles (List (Event ℕ))
two_handles = record { state = true ∷ true ∷ []; block = record { count = 2; publisher = [] } }

abbrev calls : List (Action ℕ)
calls = clones 0 ∷ closes 0 ∷ publishes 1 7 ∷ closes 1 ∷ closes 1 ∷ publishes 1 8 ∷ []

-- the last handle closes the publisher, and later calls do not reach it
shared : run recorder calls (new recorder []) ≡ record {
  state = false ∷ false ∷ [];
  block = record { count = 0; publisher = closed ∷ published 7 ∷ [] };
}
unfolding run new clone close_handle publish_handle
shared = refl

run-IsLog_example :
    IsLog
      (live (run recorder calls (new recorder [])).state)
      (run recorder calls (new recorder [])).block.publisher
run-IsLog_example = run-IsLog calls

run-IsCounted_example : IsCounted recorder (run recorder calls two_handles)
run-IsCounted_example = run-IsCounted recorder calls two_handles refl

close_handle_lem_example : Closes recorder 0 two_handles
close_handle_lem_example = close_handle_lem recorder 0 two_handles refl
