-- ===== src/Instrument/Publishing/Sent.antt =====
-- What it means to publish several data in turn with `publish` of instro/lib/instrument.py.
use instro.Prelude.{◌≡◌, refl, List, [], ◌∷◌, Result, ok, err, Error}
use instro.Publishers.{Publisher}
use instro.Types.{Published}
use instro.Prelude.Exec.{resume}
use instro.Instrument.{Instrument, Buffer}
use instro.Instrument.Publishing.{publish, publish_each}

module _ {F V P B M W : Type 0} (publisher : Publisher P (Published V))
    (buffer : Buffer F V B) where
  -- Data published in turn, one after the other while publishing returns: what it came to, and the
  -- instrument afterwards.
  pub data Sent
      : Instrument F P B M W
        → List (Published V)
        → Result (Unit {0})
        → Instrument F P B M W
        → Type 0 where
    all_sent : {s : Instrument F P B M W} → Sent s [] (ok tt) s
    stops :
        {s next : Instrument F P B M W} {d : Published V} {ds : List (Published V)} (e : Error)
        → publish publisher buffer d s ≡ (err e, next)
        → Sent s (d ∷ ds) (err e) next
    sends :
        {s t next : Instrument F P B M W} {d : Published V} {ds : List (Published V)}
        {p : Result (Unit {0})}
        → publish publisher buffer d s ≡ (ok tt, t)
        → Sent t ds p next
        → Sent s (d ∷ ds) p next

  then-Sent :
      (q : Result (Unit {0})) (t : Instrument F P B M W) (d : Published V) (ds : List (Published V))
      (s : Instrument F P B M W)
      → publish publisher buffer d s ≡ (q, t)
      → ((t : Instrument F P B M W)
          → (let o = publish_each publisher buffer ds t in Sent t ds o.0 o.1))
      → (let o = resume (λ _. publish_each publisher buffer ds) q t in Sent s (d ∷ ds) o.0 o.1)
  then-Sent (err e) t d ds s h rest = stops e h
  then-Sent (ok u) t d ds s h rest = sends h (rest t)

  pub publish_each-Sent :
      (ds : List (Published V)) (s : Instrument F P B M W)
      → (let o = publish_each publisher buffer ds s in Sent s ds o.0 o.1)
  unfolding publish_each
  publish_each-Sent [] s = all_sent
  publish_each-Sent (d ∷ ds) s =
      then-Sent (publish publisher buffer d s).0 (publish publisher buffer d s).1 d ds s refl
        (publish_each-Sent ds)
