-- ===== src/Psu/Instro/Apply.antt =====
-- The order in which `InstroPSU.apply` of instro/psu/psu.py acts on the supply.
use instro.Prelude.{
  ℕ, String, ◌≡◌, refl, sym, subst, ◌∙◌, Bool, true, false, List, [], ◌∷◌, Result, ok, err,
}
use instro.Float.{Floats}
use instro.Publishers.{Publisher}
use instro.Types.{Command, Published, command}
use instro.Prelude.Exec.{Exec, resume}
use instro.Prelude.Int.{ℤ}
use instro.Prelude.Dict.{Dict}
use instro.Instrument.{Instrument, Buffer, Value}
use instro.Instrument.Publishing.{publish}
use instro.Psu.Driver.{PsuDriver}
use instro.Psu.Instro.{Polled, on_driver}
use instro.Psu.Instro.Steps.{
  limit_step, level_step, output_step, Step, after_step, run_steps, apply_steps, publish_commands,
  finish, apply,
}

module _ (fl : Floats) {P B W : Type 0} (publisher : Publisher P (Published (Value (Floats.F fl))))
    (buffer : Buffer (Floats.F fl) (Value (Floats.F fl)) B) (driver : PsuDriver (Floats.F fl) W)
    (time_ns : W → ℤ) (Good : W → Type 0) where
  open fl use {F}

  -- a call that keeps `Good` where `Before` holds, and after which `After` holds if it returns
  pub record Call (Before After : W → Type 0) (m : Exec W (Unit {0})) : Type 0 where
    pub keeps : (w : W) → Good w → Before w → Good (m w).1
    pub returns : (w : W) → Good w → Before w → (m w).0 ≡ ok tt → After (m w).1

  kept_after :
      (r : Result (Unit {0})) (landed : Command (Value F)) (next : Instrument F P B Polled W)
      (rest : (Result (Unit {0}) × List (Command (Value F))) × Instrument F P B Polled W)
      → Good next.device
      → (r ≡ ok tt → Good rest.1.device)
      → Good (after_step fl publisher buffer driver time_ns r landed next rest).1.device
  kept_after (err e) landed next rest g f = g
  kept_after (ok u) landed next rest g f = f refl

  run_step :
      {Before After : W → Type 0} (x : Step F W) (xs : List (Step F W)) (channel : ℕ)
      (kwargs : Dict String) (s : Instrument F P B Polled W)
      → Call Before After x.act
      → Good s.device
      → Before s.device
      → ((t : Instrument F P B Polled W)
          → Good t.device
          → After t.device
          → Good (run_steps fl publisher buffer driver time_ns xs channel kwargs t).1.device)
      → Good (run_steps fl publisher buffer driver time_ns (x ∷ xs) channel kwargs s).1.device
  unfolding run_steps
  run_step x xs channel kwargs s c g b f =
      kept_after (x.act s.device).0 _ (on_driver fl publisher buffer driver time_ns x.act s).1
        (run_steps fl publisher buffer driver time_ns xs channel kwargs
          (on_driver fl publisher buffer driver time_ns x.act s).1)
        (c.keeps s.device g b)
        (λ e.
          f (on_driver fl publisher buffer driver time_ns x.act s).1 (c.keeps s.device g b)
            (c.returns s.device g b e))

  resumed_device :
      (r : Result (Unit {0})) (f : Exec (Instrument F P B Polled W) (Unit {0}))
      (s : Instrument F P B Polled W)
      → ((t : Instrument F P B Polled W) → (f t).1.device ≡ t.device)
      → (resume (λ u. f) r s).1.device ≡ s.device
  resumed_device (ok u) f s h = h s
  resumed_device (err e) f s h = refl

  publish_device :
      (d : Published (Value F)) (s : Instrument F P B Polled W)
      → (publish publisher buffer d s).1.device ≡ s.device
  unfolding publish
  publish_device d s = refl

  publish_commands-device :
      (cs : List (Command (Value F))) (s : Instrument F P B Polled W)
      → (publish_commands fl publisher buffer driver time_ns cs s).1.device ≡ s.device
  unfolding publish_commands
  publish_commands-device [] s = refl
  publish_commands-device (c ∷ cs) s =
      resumed_device (publish publisher buffer (command c) s).0 _
        (publish publisher buffer (command c) s).1 (publish_commands-device cs)
      ∙ publish_device (command c) s

  finish_device :
      (r : Result (Unit {0})) (cs : List (Command (Value F)))
      (t : Result (Unit {0}) × Instrument F P B Polled W)
      → (finish fl publisher buffer driver time_ns r cs t).1.device ≡ t.1.device
  finish_device r cs (err e, s) = refl
  finish_device (err e) cs (ok u, s) = refl
  finish_device (ok v) cs (ok u, s) = refl

  apply_device :
      (x v : F) (enable : Bool) (channel : ℕ) (kwargs : Dict String) (s : Instrument F P B Polled W)
      → Good
          (run_steps fl publisher buffer driver time_ns
            (apply_steps fl publisher buffer driver time_ns x v enable channel)
            channel
            kwargs
            s).1.device
      → Good (apply fl publisher buffer driver time_ns x v enable channel kwargs s).1.device
  unfolding apply
  apply_device x v enable channel kwargs s g =
      let t =
        run_steps fl publisher buffer driver time_ns
          (apply_steps fl publisher buffer driver time_ns x v enable channel) channel kwargs s in
      subst Good
        (sym (
          finish_device t.0.0 t.0.1 (publish_commands fl publisher buffer driver time_ns t.0.1 t.1)
          ∙ publish_commands-device t.0.1 t.1))
        g

  -- Without `enable`, a setpoint is only written after output_enable(False) has returned: whatever
  -- holds of the supply and is kept by turning the output off, and by setpoints written to an output
  -- that this has turned off, is kept by `apply`, also if a step or a publisher raises.
  pub apply-off :
      (Off : W → Type 0) (x v : F) (channel : ℕ) (kwargs : Dict String)
      (s : Instrument F P B Polled W)
      → Call (λ w. Unit {0}) Off (driver.output_enable false channel)
      → Call Off Off (driver.set_current_limit x channel)
      → Call Off Off (driver.set_voltage v channel)
      → Good s.device
      → Good (apply fl publisher buffer driver time_ns x v false channel kwargs s).1.device
  unfolding apply_steps run_steps
  apply-off Off x v channel kwargs s off limit level g =
      let lim : Step F W = limit_step fl publisher buffer driver time_ns x channel in
      let lev : Step F W = level_step fl publisher buffer driver time_ns v channel in
      let out : Step F W = output_step fl publisher buffer driver time_ns false channel in
      apply_device x v false channel kwargs s (
        run_step out (lim ∷ lev ∷ []) channel kwargs s off g tt (λ s₁ g₁ o₁.
          run_step lim (lev ∷ []) channel kwargs s₁ limit g₁ o₁
            (λ s₂ g₂ o₂. run_step lev [] channel kwargs s₂ level g₂ o₂ (λ s₃ g₃ o₃. g₃))))

  -- With `enable`, the output is only turned on after both setpoints have been accepted: whatever
  -- holds of the supply and is kept by writing the setpoints, and by turning on an output whose
  -- limit and voltage have been set, is kept by `apply`.
  pub apply-on :
      (Limited Ready : W → Type 0) (x v : F) (channel : ℕ) (kwargs : Dict String)
      (s : Instrument F P B Polled W)
      → Call (λ w. Unit {0}) Limited (driver.set_current_limit x channel)
      → Call Limited Ready (driver.set_voltage v channel)
      → Call Ready (λ w. Unit {0}) (driver.output_enable true channel)
      → Good s.device
      → Good (apply fl publisher buffer driver time_ns x v true channel kwargs s).1.device
  unfolding apply_steps run_steps
  apply-on Limited Ready x v channel kwargs s limit level on g =
      let lim : Step F W = limit_step fl publisher buffer driver time_ns x channel in
      let lev : Step F W = level_step fl publisher buffer driver time_ns v channel in
      let out : Step F W = output_step fl publisher buffer driver time_ns true channel in
      apply_device x v true channel kwargs s (
        run_step lim (lev ∷ out ∷ []) channel kwargs s limit g tt (λ s₁ g₁ o₁.
          run_step lev (out ∷ []) channel kwargs s₁ level g₁ o₁
            (λ s₂ g₂ o₂. run_step out [] channel kwargs s₂ on g₂ o₂ (λ s₃ g₃ o₃. g₃))))
