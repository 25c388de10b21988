-- ===== src/Psu/Instro/Landed.antt =====
-- What `InstroPSU.apply` of instro/psu/psu.py publishes.
use instro.Prelude.{
  ap, some, ℕ, String, ◌≡◌, refl, ◌⊎◌, inl, inr, Bool, List, [], ◌∷◌, Result, ok, err, Error,
  fun_ext, subst,
}
use instro.Psu.Instro.{Polled, command_descriptor}
use instro.Instrument.{merged, Instrument, Buffer, Value, as_value, full_name, package_command}
use instro.Float.{Floats}
use instro.Publishers.{Publisher}
use instro.Prelude.Exec.{◌>>◌}
use instro.Instrument.Publishing.{publish_each, publish}
use instro.Instrument.Publishing.Sent.{Sent, publish_each-Sent}
use instro.Types.{Command, Published, command}
use instro.Prelude.Int.{ℤ}
use instro.Prelude.Dict.{Dict}
use instro.Psu.Driver.{PsuDriver}
use instro.Psu.Instro.Steps.{
  Step, after_step, run_steps, apply_steps, publish_commands, finish, apply,
}

module _ (fl : Floats) {P B W : Type 0} (publisher : Publisher P (Published (Value (Floats.F fl))))
    (buffer : Buffer (Floats.F fl) (Value (Floats.F fl)) B) (driver : PsuDriver (Floats.F fl) W)
    (time_ns : W → ℤ) where
  open fl use {F}

  -- the command of a step that returned and left the driver in state `w`
  abbrev pub step_command :
      Instrument F P B Polled W → ℕ → Dict String → W → Step F W → Command (Value F)
  step_command s channel kwargs w x = record {
    channel_data =
        (
          full_name fl s
              (command_descriptor s.legacy_naming channel x.channel_suffix x.legacy_suffix),
          as_value fl x.value,
        )
        ∷ [];
    timestamp = time_ns w;
    tags = some (merged s.default_tags kwargs);
  }

  -- Steps run in turn on the driver of `s`, one after the other while they return: what they came
  -- to, the commands of those that returned, each packaged with the clock after its step, and the
  -- instrument afterwards.
  pub data Landed (channel : ℕ) (kwargs : Dict String)
      : Instrument F P B Polled W
        → List (Step F W)
        → Result (Unit {0})
        → List (Command (Value F))
        → Instrument F P B Polled W
        → Type 0 where
    done : {s : Instrument F P B Polled W} → Landed channel kwargs s [] (ok tt) [] s
    fails :
        {s : Instrument F P B Polled W} {x : Step F W} {xs : List (Step F W)} (e : Error) (w : W)
        → x.act s.device ≡ (err e, w)
        → Landed channel kwargs s (x ∷ xs) (err e) [] (record s { device = w })
    lands :
        {s next : Instrument F P B Polled W} {x : Step F W} {xs : List (Step F W)}
        {r : Result (Unit {0})} {cs : List (Command (Value F))} (w : W)
        → x.act s.device ≡ (ok tt, w)
        → Landed channel kwargs (record s { device = w }) xs r cs next
        → Landed channel kwargs s (x ∷ xs) r (step_command s channel kwargs w x ∷ cs) next

  -- what the caller gets: the commands, or what publishing raised, or else what a step raised
  abbrev pub Outcome :
      Result (Unit {0})
      → Result (Unit {0})
      → List (Command (Value F))
      → Result (List (Command (Value F)))
      → Type 0
  Outcome r p cs o =
      ((r ≡ ok tt) × (p ≡ ok tt) × (o ≡ ok cs))
      ⊎ ((e : Error) × (p ≡ err e) × (o ≡ err e))
      ⊎ ((e : Error) × (p ≡ ok tt) × (r ≡ err e) × (o ≡ err e))

  step-Landed :
      (r : Result (Unit {0})) (w : W) (x : Step F W) (xs : List (Step F W)) (channel : ℕ)
      (kwargs : Dict String) (s : Instrument F P B Polled W)
      → x.act s.device ≡ (r, w)
      → ((t : Instrument F P B Polled W)
          → (let o = run_steps fl publisher buffer driver time_ns xs channel kwargs t in
              Landed channel kwargs t xs o.0.0 o.0.1 o.1))
      → (let next = record s { device = w } in
          let o =
            after_step fl publisher buffer driver time_ns r
              (step_command s channel kwargs w x)
              next
              (run_steps fl publisher buffer driver time_ns xs channel kwargs next) in
          Landed channel kwargs s (x ∷ xs) o.0.0 o.0.1 o.1)
  step-Landed (err e) w x xs channel kwargs s h rest = fails e w h
  step-Landed (ok u) w x xs channel kwargs s h rest = lands w h (rest (record s { device = w }))

  run_steps-Landed :
      (xs : List (Step F W)) (channel : ℕ) (kwargs : Dict String) (s : Instrument F P B Polled W)
      → (let o = run_steps fl publisher buffer driver time_ns xs channel kwargs s in
          Landed channel kwargs s xs o.0.0 o.0.1 o.1)
  unfolding run_steps package_command
  run_steps-Landed [] channel kwargs s = done
  run_steps-Landed (x ∷ xs) channel kwargs s =
      let (r, w) = x.act s.device in
      step-Landed r w x xs channel kwargs s refl (run_steps-Landed xs channel kwargs)

  -- the commands, as they are published
  abbrev pub data_of : List (Command (Value F)) → List (Published (Value F))
  data_of [] = []
  data_of (c ∷ cs) = command c ∷ data_of cs

  publish_commands-data_of :
      (cs : List (Command (Value F))) (s : Instrument F P B Polled W)
      → publish_each publisher buffer (data_of cs) s
        ≡ publish_commands fl publisher buffer driver time_ns cs s
  unfolding publish_commands publish_each
  publish_commands-data_of [] s = refl
  publish_commands-data_of (c ∷ cs) s =
      ap (λ f. (publish publisher buffer (command c) >> f) s)
        (fun_ext (publish_commands-data_of cs))

  publish_commands-Sent :
      (cs : List (Command (Value F))) (s : Instrument F P B Polled W)
      → (let o = publish_commands fl publisher buffer driver time_ns cs s in
          Sent publisher buffer s (data_of cs) o.0 o.1)
  publish_commands-Sent cs s =
      subst (λ o. Sent publisher buffer s (data_of cs) o.0 o.1) (publish_commands-data_of cs s)
        (publish_each-Sent publisher buffer (data_of cs) s)

  finish-Outcome :
      (r p : Result (Unit {0})) (cs : List (Command (Value F))) (s : Instrument F P B Polled W)
      → Outcome r p cs (finish fl publisher buffer driver time_ns r cs (p, s)).0
  finish-Outcome r (err e) cs s = inr (inl (e, refl, refl))
  finish-Outcome (err e) (ok u) cs s = inr (inr (e, refl, refl, refl))
  finish-Outcome (ok v) (ok u) cs s = inl (refl, refl, refl)

  finish-state :
      (r p : Result (Unit {0})) (cs : List (Command (Value F))) (s : Instrument F P B Polled W)
      → (finish fl publisher buffer driver time_ns r cs (p, s)).1 ≡ s
  finish-state r (err e) cs s = refl
  finish-state (err e) (ok u) cs s = refl
  finish-state (ok v) (ok u) cs s = refl

  -- `apply` runs its steps on the driver in turn, up to the first that raises. It then publishes, in
  -- order, one command for each step that returned, packaged with the step's channel and value and
  -- the clock after it, up to one whose publishing raises; it does so also if a step raised. It
  -- returns these commands if nothing raised, and raises what publishing raised, or else what the
  -- failing step raised.
  pub apply_lem :
      (x v : F) (enable : Bool) (channel : ℕ) (kwargs : Dict String) (s : Instrument F P B Polled W)
      → let steps = apply_steps fl publisher buffer driver time_ns x v enable channel in
        let (o, last) = apply fl publisher buffer driver time_ns x v enable channel kwargs s in
        (r : Result (Unit {0})) × (p : Result (Unit {0})) × (cs : List (Command (Value F)))
        × (next : Instrument F P B Polled W) × Landed channel kwargs s steps r cs next
        × Sent publisher buffer next (data_of cs) p last
        × Outcome r p cs o
  unfolding apply
  apply_lem x v enable channel kwargs s =
      let steps = apply_steps fl publisher buffer driver time_ns x v enable channel in
      let ((r, cs), next) = run_steps fl publisher buffer driver time_ns steps channel kwargs s in
      let (p, last) = publish_commands fl publisher buffer driver time_ns cs next in
      (
        r,
        p,
        cs,
        next,
        run_steps-Landed steps channel kwargs s,
        rw (finish-state r p cs last) (publish_commands-Sent cs next),
        finish-Outcome r p cs last,
      )
