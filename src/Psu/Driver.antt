-- ===== src/Psu/Driver.antt =====
-- The contract of a power supply's driver, `PSUDriverBase` of instro/psu/psu.py. `W` is the driver
-- with the device behind it; each method may raise. A query answers a float, a bool or a member of an
-- enumeration, which is published by its value.
use instro.Prelude.{ℕ, Bool, String}
use instro.Prelude.Exec.{Exec}
use instro.Instrument.{Raw}

pub data Reading (F : Type 0) : Type 0 where
  raw : Raw F → Reading F
  enumerated : String → Reading F

pub record PsuDriver (F W : Type 0) : Type 0 where
  pub open_driver : Exec W (Unit {0})
  pub close_driver : Exec W (Unit {0})
  pub set_voltage : F → ℕ → Exec W (Unit {0})
  pub get_voltage : ℕ → Exec W (Reading F)
  pub set_current_limit : F → ℕ → Exec W (Unit {0})
  pub get_current : ℕ → Exec W (Reading F)
  pub output_enable : Bool → ℕ → Exec W (Unit {0})
  pub get_output_status : ℕ → Exec W (Reading F)
  pub get_voltage_setpoint : ℕ → Exec W (Reading F)
  pub get_current_setpoint : ℕ → Exec W (Reading F)
  pub get_operating_mode : ℕ → Exec W (Reading F)
  pub set_overvoltage_protection_level : F → ℕ → Exec W (Unit {0})
  pub get_overvoltage_protection_level : ℕ → Exec W (Reading F)
  pub set_overvoltage_protection_enabled : Bool → ℕ → Exec W (Unit {0})
  pub get_overvoltage_protection_enabled : ℕ → Exec W (Reading F)
  pub set_overvoltage_protection_delay : F → ℕ → Exec W (Unit {0})
  pub get_overvoltage_protection_delay : ℕ → Exec W (Reading F)
  pub set_overcurrent_protection_level : F → ℕ → Exec W (Unit {0})
  pub get_overcurrent_protection_level : ℕ → Exec W (Reading F)
  pub set_overcurrent_protection_enabled : Bool → ℕ → Exec W (Unit {0})
  pub get_overcurrent_protection_enabled : ℕ → Exec W (Reading F)
  pub clear_protection : ℕ → Exec W (Unit {0})
  pub get_overvoltage_protection_tripped : ℕ → Exec W (Reading F)
  pub get_overcurrent_protection_tripped : ℕ → Exec W (Reading F)
  pub set_remote_sense_enabled : Bool → ℕ → Exec W (Unit {0})
  pub get_remote_sense_enabled : ℕ → Exec W (Reading F)
