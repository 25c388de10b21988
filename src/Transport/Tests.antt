-- ===== src/Transport/Tests.antt =====
-- A session that is a flag, and two owners that share it.
use instro.Transport.Ownership.{Call, opens, closes, IsOwned, run, run-IsOwned, close_lem, Released}
use instro.Prelude.{
  ◌≡◌, refl, some, arith, Bool, true, false, List, [], ◌∷◌, ok, err, Error, Result,
}
use instro.Transport.{Session, Transport, open_transport, holder_index, close_transport, del}

flag_opens : (s : Bool) (e : Error) → Path (Result (Unit {0})) (ok tt) (err e) → true ≡ s
flag_opens s e h = cc

abbrev flag : Session Bool
flag = record {
  open_session = λ s. (ok tt, true);
  teardown_session = λ s. (ok tt, false);
  is_open = λ s. s;
  opens = λ s h. refl;
  open_fails = flag_opens;
  tears_down = λ s. refl;
}

abbrev fresh : Transport Bool
fresh = record { holders = []; session = false }

abbrev calls : List Call
calls = opens 7 ∷ opens 8 ∷ opens 7 ∷ closes 7 ∷ []

shared : run flag calls fresh ≡ record { holders = 8 ∷ []; session = true }
unfolding run open_transport holder_index close_transport del
shared = refl

fresh-IsOwned : IsOwned flag fresh
fresh-IsOwned = record { distinct = tt; held = refl }

run-IsOwned_example : IsOwned flag (run flag calls fresh)
run-IsOwned_example = run-IsOwned flag calls fresh fresh-IsOwned

abbrev pair : Transport Bool
pair = record { holders = 8 ∷ 9 ∷ []; session = true }

close_lem_example : Released flag 8 pair (close_transport flag (some 8) pair)
close_lem_example =
    close_lem flag 8 pair (record { distinct = ((λ e. ground arith, tt), (tt, tt)); held = refl })
