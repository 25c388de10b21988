-- ===== src/Psu/Instro/Steps.antt =====
-- `apply` of `InstroPSU` in instro/psu/psu.py, and the steps that it takes.
use instro.Prelude.{ℕ, String, Bool, true, false, List, [], ◌∷◌, if◌then◌else◌, Result, ok, err}
use instro.Float.{Floats}
use instro.Publishers.{Publisher}
use instro.Types.{Command, Published, command}
use instro.Prelude.Exec.{Exec, pure, ◌>>◌}
use instro.Prelude.Int.{ℤ}
use instro.Prelude.Dict.{Dict}
use instro.Instrument.{Instrument, Buffer, Raw, plain, flag, Value, package_command}
use instro.Instrument.Publishing.{publish}
use instro.Psu.Driver.{PsuDriver}
use instro.Psu.Instro.{Polled, command_descriptor, on_driver}

-- one entry of `steps` in `apply`
pub record Step (F W : Type 0) : Type 0 where
  pub act : Exec W (Unit {0})
  pub value : Raw F
  pub channel_suffix : String
  pub legacy_suffix : String

module _ (fl : Floats) {P B W : Type 0} (publisher : Publisher P (Published (Value (Floats.F fl))))
    (buffer : Buffer (Floats.F fl) (Value (Floats.F fl)) B) (driver : PsuDriver (Floats.F fl) W)
    (time_ns : W → ℤ) where
  open fl use {F}

  abbrev pub after_step :
      Result (Unit {0})
      → Command (Value F)
      → Instrument F P B Polled W
      → (Result (Unit {0}) × List (Command (Value F))) × Instrument F P B Polled W
      → (Result (Unit {0}) × List (Command (Value F))) × Instrument F P B Polled W
  after_step (err e) landed next rest = ((err e, []), next)
  after_step (ok u) landed next rest = ((rest.0.0, landed ∷ rest.0.1), rest.1)

  -- the loop of `apply` over its steps: what it raised, if anything, and the commands that landed
  unfoldable pub run_steps :
      List (Step F W)
      → ℕ
      → Dict String
      → Instrument F P B Polled W
      → (Result (Unit {0}) × List (Command (Value F))) × Instrument F P B Polled W
  run_steps [] channel kwargs s = ((ok tt, []), s)
  run_steps (x ∷ xs) channel kwargs s =
      let (r, next) = on_driver fl publisher buffer driver time_ns x.act s in
      let landed =
        package_command fl
          (command_descriptor next.legacy_naming channel x.channel_suffix x.legacy_suffix) x.value
          (time_ns next.device) kwargs next in
      let rest = run_steps xs channel kwargs next in after_step r landed next rest

  abbrev pub limit_step : F → ℕ → Step F W
  limit_step x channel = record {
    act = driver.set_current_limit x channel;
    value = plain x;
    channel_suffix = "current";
    legacy_suffix = "i";
  }

  abbrev pub level_step : F → ℕ → Step F W
  level_step v channel = record {
    act = driver.set_voltage v channel;
    value = plain v;
    channel_suffix = "voltage";
    legacy_suffix = "v";
  }

  abbrev pub output_step : Bool → ℕ → Step F W
  output_step enable channel = record {
    act = driver.output_enable enable channel;
    value = flag enable;
    channel_suffix = "enabled";
    legacy_suffix = "en";
  }

  -- `steps`
  unfoldable pub apply_steps : F → F → Bool → ℕ → List (Step F W)
  apply_steps current_limit voltage enable channel =
      if enable
      then limit_step current_limit channel
        ∷ level_step voltage channel
        ∷ output_step true channel
        ∷ []
      else output_step false channel
        ∷ limit_step current_limit channel
        ∷ level_step voltage channel
        ∷ []

  unfoldable pub publish_commands :
      List (Command (Value F)) → Exec (Instrument F P B Polled W) (Unit {0})
  publish_commands [] = pure tt
  publish_commands (c ∷ cs) = do publish publisher buffer (command c); publish_commands cs

  -- the end of `apply`: what publishing raises takes the place of what a step raised
  abbrev pub finish :
      Result (Unit {0})
      → List (Command (Value F))
      → Result (Unit {0}) × Instrument F P B Polled W
      → Result (List (Command (Value F))) × Instrument F P B Polled W
  finish r commands (err e, s) = (err e, s)
  finish (err e) commands (ok u, s) = (err e, s)
  finish (ok v) commands (ok u, s) = (ok commands, s)

  unfoldable pub apply :
      F → F → Bool → ℕ → Dict String → Exec (Instrument F P B Polled W) (List (Command (Value F)))
  unfolding run_steps apply_steps publish_commands
  apply current_limit voltage enable channel kwargs s =
      let ((r, commands), next) =
        run_steps (apply_steps current_limit voltage enable channel) channel kwargs s in
      finish r commands (publish_commands commands next)
