-- ===== src/Ring/Tests.antt =====
-- Runs of the ring buffer over lists, and the theorems at concrete rings.
use instro.Prelude.{ℕ, ◌≡◌, refl, List, [], ◌∷◌, arith, last}
use instro.NdArray.{NdArray, list_array}
use instro.Ring.{Ring, new, extend, get_latest, read}
use instro.Ring.Bounds.{IsValid, extend-IsValid}
use instro.Ring.Refine.{contents, contents-extend, extend_all, get_latest-extend_all}

abbrev np : NdArray ℕ ℕ
np = list_array 0 (λ x. x)

-- three slots, two values in it, the next write at the end of the storage
abbrev nearly_full : Ring np
nearly_full = record { buffer = 7 ∷ 8 ∷ 0 ∷ []; maxlen = 3; index = 2; size = 2 }

nearly_full-IsValid : IsValid np nearly_full
nearly_full-IsValid = omega arith

abbrev batches : List (List ℕ)
batches = (1 ∷ 2 ∷ []) ∷ (3 ∷ 4 ∷ []) ∷ [] ∷ (5 ∷ []) ∷ []

wraps :
    extend np nearly_full (1 ∷ 2 ∷ [])
    ≡ record { buffer = 2 ∷ 8 ∷ 1 ∷ []; maxlen = 3; index = 1; size = 3 }
unfolding extend
wraps = refl

latest_two : get_latest np (extend_all np (new np 3) batches) 2 ≡ 4 ∷ 5 ∷ []
unfolding extend_all new extend get_latest read
latest_two = refl

extend-IsValid_example : IsValid np (extend np nearly_full (1 ∷ 2 ∷ []))
extend-IsValid_example = extend-IsValid np (1 ∷ 2 ∷ []) nearly_full-IsValid

contents-extend_example :
    contents np (extend np nearly_full (1 ∷ 2 ∷ [])) ≡ last 3 (7 ∷ 8 ∷ 1 ∷ 2 ∷ [])
contents-extend_example = contents-extend np (1 ∷ 2 ∷ []) nearly_full-IsValid

get_latest-extend_all_example :
    get_latest np (extend_all np (new np 3) batches) 2 ≡ last 2 (1 ∷ 2 ∷ 3 ∷ 4 ∷ 5 ∷ [])
get_latest-extend_all_example = get_latest-extend_all np 3 2 batches (omega arith)
