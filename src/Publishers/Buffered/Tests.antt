-- ===== src/Publishers/Buffered/Tests.antt =====
-- A buffer of two items over a publisher that keeps a log.
use instro.Prelude.{ℕ, ◌≡◌, refl, Bool, true, false, List, [], ◌∷◌}
use instro.Publishers.{Publisher}
use instro.Publishers.Buffered.{new, close_buffered, publish_buffered, publish_each}
use instro.Publishers.Buffered.Delivery.{
  Quiet, Holds, publish_all, publish_all_lem, close-publish_all,
}
use instro.Publishers.Shared.Log.{Event, recorder, published, closed}

-- an item is a number, with a Boolean for its keyword arguments
abbrev log : Publisher (List (Event (ℕ × Bool))) (ℕ × Bool)
log = recorder

recorder-Quiet : Quiet log
recorder-Quiet = record { publishes = λ d p. refl; closes = λ p. refl }

abbrev three : List (ℕ × Bool)
three = (1, true) ∷ (2, false) ∷ (3, true) ∷ []

third_waits : publish_all log false three (new log false [] 2) ≡ record {
  publisher = published (2, false) ∷ published (1, false) ∷ [];
  buffer = 3 ∷ [];
  buffer_size = 2;
  is_closed = false;
}
unfolding new publish_buffered publish_each
third_waits = refl

publish_all_lem_example :
    Holds log false [] 2 (1 ∷ 2 ∷ 3 ∷ []) (publish_all log false three (new log false [] 2))
publish_all_lem_example = publish_all_lem log false recorder-Quiet [] 2 three

close-publish_all_example :
    let b = (close_buffered log false (publish_all log false three (new log false [] 2))).1 in
    let c = (close_buffered log false (publish_all log false ((4, true) ∷ []) b)).1 in
    (b.publisher ≡ closed ∷ published (3, false) ∷ published (2, false) ∷ published (1, false) ∷ [])
    × (b.buffer ≡ [])
    × (c ≡ b)
close-publish_all_example = close-publish_all log false recorder-Quiet [] 2 three ((4, true) ∷ [])
