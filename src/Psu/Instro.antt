-- ===== src/Psu/Instro.antt =====
-- `InstroPSU` of instro/psu/psu.py. A call that holds the resource lock is one action. `time_ns` is
-- time.time_ns(), read from the world `W` that the driver acts on.
use instro.Prelude.{
  ℕ, zero, suc, ◌+◌, ◌-◌, ◌*◌, ◌/◌, ◌%◌, ◌^◌, ◌≤◌, ◌<◌, min, String, ◌≡◌, refl, sym, ap, ap₂, subst,
  fun_ext, ◌∙◌, ◌≢◌, ◌↔◌, ◌⊎◌, inl, inr, Bool, true, false, not, ◌&&◌, ◌||◌, Option, none, some,
  List, [], ◌∷◌, ◌++◌, map, append-nil, append_assoc, arith, eq_iff, eq_refl, dec_lt, ℕ_discrete,
  ltb, leb, ◌==◌, if◌then◌else◌, Bool-cases, Option-cases, length, get_elem?, set, take, drop,
  replicate, last, length-append, length-take, length-drop, length-last, last-min, drop_all,
  take_all, take-append-drop, last_all, last-append_last, Result, ok, err, guard, Error,
  Result-cases, map_ok,
}
use instro.Float.{Floats}
use instro.Publishers.{Publisher}
use instro.Types.{Measurement, Command, Published, measurement, command}
use instro.Prelude.Exec.{Exec, pure, raise, lift, gets, modify, resume, ◌>>=◌, ◌>>◌}
use instro.Prelude.Words.{join, str}
use instro.Prelude.Int.{ℤ}
use instro.Prelude.Dict.{Dict}
use instro.Instrument.{
  Instrument, Buffer, Raw, plain, flag, word, Value, package_command, package_measurement,
}
use instro.Instrument.Daemon.{add_background_daemon_function}
use instro.Instrument.Publishing.{
  Item, measured, Returned, one, Answer, commanded, publish, publish_command, publish_measurement,
}
use instro.Instrument.Buffering
use instro.Psu.Driver.{PsuDriver, Reading, raw, enumerated}
pub mod Steps
pub mod Operations
pub mod Apply
pub mod Landed
mod Tests

-- a function that the background thread of a supply calls
pub data Polled : Type 0 where
  polls_voltage polls_current polls_output : ℕ → Polled

-- val.value if isinstance(val, Enum) else val
abbrev pub value_of : {F : Type 0} → Reading F → Raw F
value_of (raw r) = r
value_of (enumerated s) = word s

-- `_command_descriptor`
unfoldable pub command_descriptor : Bool → ℕ → String → String → String
command_descriptor legacy_naming channel channel_suffix legacy_suffix =
    if legacy_naming
    then join (join "ch" (str channel)) (join "_" (join legacy_suffix ".cmd"))
    else join (join "ch" (str channel)) (join "." (join channel_suffix ".cmd"))

unfoldable pub measurement_descriptor : Bool → ℕ → String → String → String
measurement_descriptor legacy_naming channel channel_suffix legacy_suffix =
    if legacy_naming
    then join (join "ch" (str channel)) (join "_" legacy_suffix)
    else join (join "ch" (str channel)) (join "." channel_suffix)

module _ (fl : Floats) {P B W : Type 0} (publisher : Publisher P (Published (Value (Floats.F fl))))
    (buffer : Buffer (Floats.F fl) (Value (Floats.F fl)) B) (driver : PsuDriver (Floats.F fl) W)
    (time_ns : W → ℤ) where
  open fl use {F}

  -- a driver's method, called by the instrument
  abbrev pub on_driver : {A : Type 0} → Exec W A → Exec (Instrument F P B Polled W) A
  on_driver m s = ((m s.device).0, record s { device = (m s.device).1 })

  -- a packaged value is a float or a string
  abbrev is_plain : Value F → Bool
  is_plain v = true

  -- the body of a command, before it is published
  unfoldable pub run_command :
      Exec W (Unit {0})
      → Raw F
      → ℕ
      → String
      → String
      → Dict String
      → Exec (Instrument F P B Polled W) (Answer (Value F))
  run_command act value channel channel_suffix legacy_suffix kwargs = do
    on_driver act
    s ← gets (λ s. s)
    pure (
        commanded (
          package_command fl
            (command_descriptor s.legacy_naming channel channel_suffix legacy_suffix) value
            (time_ns s.device) kwargs s))

  unfoldable pub execute_command :
      Exec W (Unit {0})
      → Raw F
      → ℕ
      → String
      → String
      → Dict String
      → Exec (Instrument F P B Polled W) (Command (Value F))
  unfolding run_command
  execute_command act value channel channel_suffix legacy_suffix kwargs =
      publish_command publisher buffer
        (run_command act value channel channel_suffix legacy_suffix kwargs)

  -- the body of a measurement, before it is published
  unfoldable pub run_measurement :
      Exec W (Reading F)
      → ℕ
      → String
      → String
      → Dict String
      → Exec (Instrument F P B Polled W) (Returned (Value F))
  run_measurement act channel channel_suffix legacy_suffix kwargs = do
    val ← on_driver act
    s ← gets (λ s. s)
    pure (
        one (
          measured (
            package_measurement fl
              (measurement_descriptor s.legacy_naming channel channel_suffix legacy_suffix)
              (value_of val) (time_ns s.device) kwargs s)))

  unfoldable pub execute_measurement :
      Exec W (Reading F)
      → ℕ
      → String
      → String
      → Dict String
      → Exec (Instrument F P B Polled W) (Returned (Value F))
  unfolding run_measurement
  execute_measurement act channel channel_suffix legacy_suffix kwargs =
      publish_measurement publisher buffer is_plain
        (run_measurement act channel channel_suffix legacy_suffix kwargs)

  unfoldable pub open_psu : Exec (Instrument F P B Polled W) (Unit {0})
  open_psu = on_driver driver.open_driver

  unfoldable pub close_psu : Exec (Instrument F P B Polled W) (Unit {0})
  close_psu = do Buffering.close fl publisher buffer; on_driver driver.close_driver
