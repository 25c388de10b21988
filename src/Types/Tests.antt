-- ===== src/Types/Tests.antt =====
-- The timestamps of a finite acquisition, at concrete inputs.
use instro.Prelude.{ℕ, ◌<◌, ◌≡◌, refl, true, some, [], ◌∷◌, arith, length, get_elem?}
use instro.Prelude.Int.{ℤ, pos, negsuc, ◌+ℤ◌, ◌-ℤ◌, ◌*ℤ◌}
use instro.Types.Timestamps.{create_timestamps_from_dt, create_timestamps_lem}

ends_at_t0 :
    create_timestamps_from_dt (pos 10) (pos 4) 4 true ≡ negsuc 1 ∷ pos 2 ∷ pos 6 ∷ pos 10 ∷ []
unfolding create_timestamps_from_dt ◌+ℤ◌ ◌-ℤ◌ ◌*ℤ◌
ends_at_t0 = refl

create_timestamps_lem_example :
    let ts = create_timestamps_from_dt (pos 10) (pos 4) 4 true in
    (length ts ≡ 4)
    × ((first : ℤ) × ((i : ℕ) → i < 4 → get_elem? ts i ≡ some (first +ℤ pos i *ℤ pos 4)))
    × (get_elem? ts 3 ≡ some (pos 10))
create_timestamps_lem_example = create_timestamps_lem (pos 10) (pos 4) 4 true (omega arith)
