-- ===== src/Psu/Instro/Operations.antt =====
-- The settings and the queries of `InstroPSU` in instro/psu/psu.py, and what its background thread
-- polls.
use instro.Prelude.{ℕ, zero, suc, String, Bool, true, []}
use instro.Float.{Floats}
use instro.Publishers.{Publisher}
use instro.Types.{Command, Published}
use instro.Prelude.Exec.{Exec}
use instro.Prelude.Int.{ℤ}
use instro.Prelude.Dict.{Dict}
use instro.Instrument.{Instrument, Buffer, plain, flag, Value}
use instro.Instrument.Daemon.{add_background_daemon_function}
use instro.Instrument.Publishing.{Returned}
use instro.Psu.Driver.{PsuDriver}
use instro.Psu.Instro.{
  Polled, polls_voltage, polls_current, polls_output, execute_command, execute_measurement,
}

module _ (fl : Floats) {P B W : Type 0} (publisher : Publisher P (Published (Value (Floats.F fl))))
    (buffer : Buffer (Floats.F fl) (Value (Floats.F fl)) B) (driver : PsuDriver (Floats.F fl) W)
    (time_ns : W → ℤ) where
  open fl use {F}

  unfoldable pub set_voltage :
      F → ℕ → Dict String → Exec (Instrument F P B Polled W) (Command (Value F))
  unfolding execute_command
  set_voltage value channel kwargs =
      execute_command fl publisher buffer driver time_ns (driver.set_voltage value channel)
        (plain value) channel "voltage" "v" kwargs

  unfoldable pub set_current_limit :
      F → ℕ → Dict String → Exec (Instrument F P B Polled W) (Command (Value F))
  unfolding execute_command
  set_current_limit value channel kwargs =
      execute_command fl publisher buffer driver time_ns (driver.set_current_limit value channel)
        (plain value) channel "current" "i" kwargs

  unfoldable pub output_enable :
      Bool → ℕ → Dict String → Exec (Instrument F P B Polled W) (Command (Value F))
  unfolding execute_command
  output_enable value channel kwargs =
      execute_command fl publisher buffer driver time_ns (driver.output_enable value channel)
        (flag value) channel "enabled" "en" kwargs

  unfoldable pub set_overvoltage_protection_level :
      F → ℕ → Dict String → Exec (Instrument F P B Polled W) (Command (Value F))
  unfolding execute_command
  set_overvoltage_protection_level value channel kwargs =
      execute_command fl publisher buffer driver time_ns
        (driver.set_overvoltage_protection_level value channel) (plain value) channel "ovp" "ovp"
        kwargs

  unfoldable pub set_overvoltage_protection_enabled :
      Bool → ℕ → Dict String → Exec (Instrument F P B Polled W) (Command (Value F))
  unfolding execute_command
  set_overvoltage_protection_enabled value channel kwargs =
      execute_command fl publisher buffer driver time_ns
        (driver.set_overvoltage_protection_enabled value channel) (flag value) channel "ovp.enabled"
        "ovp_en" kwargs

  unfoldable pub set_overvoltage_protection_delay :
      F → ℕ → Dict String → Exec (Instrument F P B Polled W) (Command (Value F))
  unfolding execute_command
  set_overvoltage_protection_delay value channel kwargs =
      execute_command fl publisher buffer driver time_ns
        (driver.set_overvoltage_protection_delay value channel) (plain value) channel "ovp.delay"
        "ovp_delay" kwargs

  unfoldable pub set_overcurrent_protection_level :
      F → ℕ → Dict String → Exec (Instrument F P B Polled W) (Command (Value F))
  unfolding execute_command
  set_overcurrent_protection_level value channel kwargs =
      execute_command fl publisher buffer driver time_ns
        (driver.set_overcurrent_protection_level value channel) (plain value) channel "ocp" "ocp"
        kwargs

  unfoldable pub set_overcurrent_protection_enabled :
      Bool → ℕ → Dict String → Exec (Instrument F P B Polled W) (Command (Value F))
  unfolding execute_command
  set_overcurrent_protection_enabled value channel kwargs =
      execute_command fl publisher buffer driver time_ns
        (driver.set_overcurrent_protection_enabled value channel) (flag value) channel "ocp.enabled"
        "ocp_en" kwargs

  unfoldable pub set_remote_sense_enabled :
      Bool → ℕ → Dict String → Exec (Instrument F P B Polled W) (Command (Value F))
  unfolding execute_command
  set_remote_sense_enabled value channel kwargs =
      execute_command fl publisher buffer driver time_ns
        (driver.set_remote_sense_enabled value channel) (flag value) channel "remote_sense" "rs"
        kwargs

  unfoldable pub get_voltage :
      ℕ → Dict String → Exec (Instrument F P B Polled W) (Returned (Value F))
  unfolding execute_measurement
  get_voltage channel kwargs =
      execute_measurement fl publisher buffer driver time_ns (driver.get_voltage channel) channel
        "voltage" "v" kwargs

  unfoldable pub get_current :
      ℕ → Dict String → Exec (Instrument F P B Polled W) (Returned (Value F))
  unfolding execute_measurement
  get_current channel kwargs =
      execute_measurement fl publisher buffer driver time_ns (driver.get_current channel) channel
        "current" "i" kwargs

  unfoldable pub get_output_status :
      ℕ → Dict String → Exec (Instrument F P B Polled W) (Returned (Value F))
  unfolding execute_measurement
  get_output_status channel kwargs =
      execute_measurement fl publisher buffer driver time_ns (driver.get_output_status channel)
        channel "enabled" "en" kwargs

  unfoldable pub get_voltage_setpoint :
      ℕ → Dict String → Exec (Instrument F P B Polled W) (Returned (Value F))
  unfolding execute_measurement
  get_voltage_setpoint channel kwargs =
      execute_measurement fl publisher buffer driver time_ns (driver.get_voltage_setpoint channel)
        channel "voltage.setpoint" "v_set" kwargs

  unfoldable pub get_operating_mode :
      ℕ → Dict String → Exec (Instrument F P B Polled W) (Returned (Value F))
  unfolding execute_measurement
  get_operating_mode channel kwargs =
      execute_measurement fl publisher buffer driver time_ns (driver.get_operating_mode channel)
        channel "operating_mode" "operating_mode" kwargs

  unfoldable pub get_current_setpoint :
      ℕ → Dict String → Exec (Instrument F P B Polled W) (Returned (Value F))
  unfolding execute_measurement
  get_current_setpoint channel kwargs =
      execute_measurement fl publisher buffer driver time_ns (driver.get_current_setpoint channel)
        channel "current.setpoint" "i_set" kwargs

  unfoldable pub get_overvoltage_protection_level :
      ℕ → Dict String → Exec (Instrument F P B Polled W) (Returned (Value F))
  unfolding execute_measurement
  get_overvoltage_protection_level channel kwargs =
      execute_measurement fl publisher buffer driver time_ns
        (driver.get_overvoltage_protection_level channel) channel "ovp" "ovp" kwargs

  unfoldable pub get_overvoltage_protection_enabled :
      ℕ → Dict String → Exec (Instrument F P B Polled W) (Returned (Value F))
  unfolding execute_measurement
  get_overvoltage_protection_enabled channel kwargs =
      execute_measurement fl publisher buffer driver time_ns
        (driver.get_overvoltage_protection_enabled channel) channel "ovp.enabled" "ovp_en" kwargs

  unfoldable pub get_overvoltage_protection_delay :
      ℕ → Dict String → Exec (Instrument F P B Polled W) (Returned (Value F))
  unfolding execute_measurement
  get_overvoltage_protection_delay channel kwargs =
      execute_measurement fl publisher buffer driver time_ns
        (driver.get_overvoltage_protection_delay channel) channel "ovp.delay" "ovp_delay" kwargs

  unfoldable pub get_overcurrent_protection_level :
      ℕ → Dict String → Exec (Instrument F P B Polled W) (Returned (Value F))
  unfolding execute_measurement
  get_overcurrent_protection_level channel kwargs =
      execute_measurement fl publisher buffer driver time_ns
        (driver.get_overcurrent_protection_level channel) channel "ocp" "ocp" kwargs

  unfoldable pub get_overcurrent_protection_enabled :
      ℕ → Dict String → Exec (Instrument F P B Polled W) (Returned (Value F))
  unfolding execute_measurement
  get_overcurrent_protection_enabled channel kwargs =
      execute_measurement fl publisher buffer driver time_ns
        (driver.get_overcurrent_protection_enabled channel) channel "ocp.enabled" "ocp_en" kwargs

  unfoldable pub get_overvoltage_protection_tripped :
      ℕ → Dict String → Exec (Instrument F P B Polled W) (Returned (Value F))
  unfolding execute_measurement
  get_overvoltage_protection_tripped channel kwargs =
      execute_measurement fl publisher buffer driver time_ns
        (driver.get_overvoltage_protection_tripped channel) channel "ovp.tripped" "ovp_tripped"
        kwargs

  unfoldable pub get_overcurrent_protection_tripped :
      ℕ → Dict String → Exec (Instrument F P B Polled W) (Returned (Value F))
  unfolding execute_measurement
  get_overcurrent_protection_tripped channel kwargs =
      execute_measurement fl publisher buffer driver time_ns
        (driver.get_overcurrent_protection_tripped channel) channel "ocp.tripped" "ocp_tripped"
        kwargs

  unfoldable pub get_remote_sense_enabled :
      ℕ → Dict String → Exec (Instrument F P B Polled W) (Returned (Value F))
  unfolding execute_measurement
  get_remote_sense_enabled channel kwargs =
      execute_measurement fl publisher buffer driver time_ns
        (driver.get_remote_sense_enabled channel) channel "remote_sense" "rs" kwargs

  unfoldable pub clear_protection :
      ℕ → Dict String → Exec (Instrument F P B Polled W) (Command (Value F))
  unfolding execute_command
  clear_protection channel kwargs =
      execute_command fl publisher buffer driver time_ns (driver.clear_protection channel)
        (flag true) channel "protection.clear" "protection_clear" kwargs

  -- the loop of `_define_background_daemon`, from channel k on
  unfoldable pub define_polling : ℕ → ℕ → Instrument F P B Polled W → Instrument F P B Polled W
  define_polling k zero s = s
  define_polling k (suc n) s = define_polling (suc k) n (
      add_background_daemon_function fl (polls_output k) (
        add_background_daemon_function fl (polls_current k)
          (add_background_daemon_function fl (polls_voltage k) s)))

  -- a call of a registered function
  abbrev pub poll : Polled → Exec (Instrument F P B Polled W) (Returned (Value F))
  poll (polls_voltage channel) = get_voltage channel []
  poll (polls_current channel) = get_current channel []
  poll (polls_output channel) = get_output_status channel []
