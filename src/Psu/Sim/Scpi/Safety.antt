-- ===== src/Psu/Sim/Scpi/Safety.antt =====
-- Whatever text the simulated power supply receives, it stays safe, and answers if it can read it.
use instro.Prelude.{
  ℕ, ◌≡◌, refl, inl, inr, Bool, not, ◌&&◌, Option, none, some, List, [], ◌∷◌, ◌++◌, if◌then◌else◌,
  Bool-cases, Result, ok, err, Error, ◌<◌, ◌⊎◌, arith, length,
}
use instro.Psu.Sim.Scpi.{
  dispatch_stripped, none_of, lookup, command_table, catch_value_error, call_handler, dispatch,
  process_scpi_command,
}
use instro.Float.{Floats}
use instro.Psu.Sim.{Supply, push_error}
use instro.Psu.Sim.Text.{Text, strip, partition, drop_mark, positional_args, max_str_digits}
use instro.Psu.Sim.Text.Lengths.{
  length-strip, length-partition, length-drop_mark, normalize_header-ends,
}
use instro.Psu.Sim.Handlers.{Response, Handler, nothing}
use instro.Psu.Sim.Commands.{Safe, Fine}
use instro.Psu.Sim.Scpi.Table.{SafeOption, lookup-SafeOption, command_table-Safe}

module _ (fl : Floats) (gauss : fl.F → fl.F → fl.F) where
  -- `_dispatch` answers
  abbrev Answers : Result (Response fl gauss) × Supply fl → Type 0
  Answers (r, s) = Safe fl gauss s × ((a : Response fl gauss) × (r ≡ ok a))

  catch-Answers :
      (r : Result (Response fl gauss)) (s : Supply fl)
      → Safe fl gauss s
      → Fine fl gauss r
      → Answers (catch_value_error fl gauss (r, s))
  unfolding push_error
  catch-Answers (ok a) s h f = (h, (a, refl))
  catch-Answers (err Error.value_error) s h f = (h, (nothing, refl))
  catch-Answers (err _) s h f = absurd (cc)

  call_handler-Answers :
      (o : Option (Handler fl gauss)) (q : Bool) (i : ℕ) (args : List Text) (s : Supply fl)
      → SafeOption fl gauss o
      → Safe fl gauss s
      → Answers (call_handler fl gauss o q i args s)
  unfolding call_handler push_error
  call_handler-Answers none q i args s o h = (h, (nothing, refl))
  call_handler-Answers (some k) q i args s o h = elim (Bool-cases (q && not (none_of args))) [
    | inl e ↦ rw e (h, (nothing, refl))
    | inr e ↦ rw e (let (x, f) = o i args s h in catch-Answers (k i args s).0 (k i args s).1 x f)
  ]

  -- what a line may come to: an answer, or a ValueError over a line that is too long
  abbrev pub Ended : Text → Supply fl → Result (Response fl gauss) × Supply fl → Type 0
  Ended cmd s (r, s') =
      Safe fl gauss s'
      × (((a : Response fl gauss) × (r ≡ ok a))
          ⊎ ((r ≡ err Error.value_error) × (s' ≡ s) × (max_str_digits < length cmd)))

  answer-Ended :
      (cmd : Text) (s : Supply fl) (o : Result (Response fl gauss) × Supply fl)
      → Answers o
      → Ended cmd s o
  answer-Ended cmd s (r, s') (h, a) = (h, inl a)

  dispatch-Ended :
      (cmd : Text) (s : Supply fl) → Safe fl gauss s → Ended cmd s (dispatch fl gauss cmd s)
  unfolding dispatch
  dispatch-Ended cmd s h =
      let (first, rest) = partition cmd in
      let (header, q) = drop_mark first in
      elim (normalize_header-ends header) [
        | inl ((canonical, i), e) ↦
            let key = canonical ++ (if q then b'?' ∷ [] else []) in
            rw e (
              answer-Ended cmd s _ (
                call_handler-Answers (lookup fl gauss (command_table fl gauss) key) q i
                  (positional_args (strip rest)) s
                  (lookup-SafeOption fl gauss (command_table fl gauss) key
                    (command_table-Safe fl gauss))
                  h))
        | inr (e, l) ↦
            rw e
              (h, inr (refl, refl, omega (arith, l, length-drop_mark first, length-partition cmd)))
      ]

  stripped-Ended :
      (t : Text) (s : Supply fl) → Safe fl gauss s → Ended t s (dispatch_stripped fl gauss t s)
  stripped-Ended [] s h = (h, inl (nothing, refl))
  stripped-Ended (c ∷ t) s h = dispatch-Ended (c ∷ t) s h

  -- Whatever ASCII text a safe supply receives, it is safe afterwards, and it raises nothing, but
  -- for a text of more than 4,300 characters: over such a one it may raise a ValueError, and is then
  -- unchanged.
  pub process_scpi_command_lem :
      (cmd : Text) (s : Supply fl)
      → Safe fl gauss s
      → let (r, s') = process_scpi_command fl gauss cmd s in
        Safe fl gauss s'
        × (((a : Response fl gauss) × (r ≡ ok a))
            ⊎ ((r ≡ err Error.value_error) × (s' ≡ s) × (4300 < length cmd)))
  unfolding process_scpi_command
  process_scpi_command_lem cmd s h =
      let (x, o) = stripped-Ended (strip cmd) s h in
      elim o [
        | inl a ↦ (x, inl a)
        | inr (r, e, l) ↦ (x, inr (r, e, omega (arith, l, length-strip cmd)))
      ]
