-- ===== src/Psu/Sim.antt =====
-- The state of the simulated power supply of instro/psu/scpi_sim_server.py. `SimulatedPSU` is
-- `Supply`; the log that the text interface shows is left out.
use instro.Prelude.{
  ℕ, zero, suc, ◌+◌, ◌-◌, ◌*◌, ◌/◌, ◌%◌, ◌^◌, ◌≤◌, ◌<◌, min, String, ◌≡◌, refl, sym, ap, ap₂, subst,
  fun_ext, ◌∙◌, ◌≢◌, ◌↔◌, ◌⊎◌, inl, inr, Bool, true, false, not, ◌&&◌, ◌||◌, Option, none, some,
  List, [], ◌∷◌, ◌++◌, map, append-nil, append_assoc, arith, eq_iff, eq_refl, dec_lt, ℕ_discrete,
  ltb, leb, ◌==◌, if◌then◌else◌, Bool-cases, Option-cases, length, get_elem?, set, take, drop,
  replicate, last, length-append, length-take, length-drop, length-last, last-min, drop_all,
  take_all, take-append-drop, last_all, last-append_last, Result, ok, err, guard, Error,
  Result-cases, map_ok,
}
use instro.Float.{Floats}
pub mod Physics
pub mod Text
pub mod Handlers
pub mod Safe
pub mod Commands
pub mod Scpi
pub mod Panel

pub data ScpiError : Type 0 where
  no_error undefined_header parameter_not_allowed missing_parameter : ScpiError
  header_suffix_out_of_range invalid_character_data data_out_of_range : ScpiError
  illegal_parameter_value pv_above_ovp pc_above_ocp ovp_below_pv ocp_below_pc : ScpiError
  overcurrent_protection_tripped overvoltage_protection_tripped : ScpiError

-- `SimOperatingMode`: off, regulating the voltage, regulating the current
pub data Mode : Type 0 where
  off cv cc : Mode

module _ (fl : Floats) where
  open fl use {F, lit}

  -- `SimulatedLoad`
  pub record Load : Type 0 where
    pub resistance : F
    pub emf : F
    pub probe_resistance : F

  -- `SimulatedPSUChannel`
  pub record Channel : Type 0 where
    pub channel_id : ℕ
    pub voltage_max : F
    pub current_max : F
    pub voltage_setpoint : F
    pub current_limit : F
    pub overvoltage_protection_level : F
    pub overvoltage_protection_enabled : Bool
    pub overcurrent_protection_level : F
    pub overcurrent_protection_enabled : Bool
    pub remote_sense : Bool
    pub output_enabled : Bool
    pub load : Load
    pub terminal_voltage : F
    pub load_voltage : F
    pub current : F
    pub mode : Mode
    pub overvoltage_tripped : Bool
    pub overcurrent_tripped : Bool
    pub protection_latched : Bool

  unfoldable pub default_load : Load
  default_load = record { resistance = lit 1000; emf = lit 0; probe_resistance = lit 10 }

  -- SimulatedPSUChannel(channel_id, load)
  unfoldable pub new_channel : ℕ → Load → Channel
  new_channel i l = record {
    channel_id = i;
    voltage_max = lit 60;
    current_max = lit 10;
    voltage_setpoint = lit 0;
    current_limit = lit 0;
    overvoltage_protection_level = lit 60;
    overvoltage_protection_enabled = false;
    overcurrent_protection_level = lit 10;
    overcurrent_protection_enabled = false;
    remote_sense = false;
    output_enabled = false;
    load = l;
    terminal_voltage = lit 0;
    load_voltage = lit 0;
    current = lit 0;
    mode = off;
    overvoltage_tripped = false;
    overcurrent_tripped = false;
    protection_latched = false;
  }

  pub record Supply : Type 0 where
    pub channels : List Channel
    pub error_queue : List ScpiError

  -- [SimulatedPSUChannel(i) for i in range(k, k + n)]
  unfoldable pub channels_from : ℕ → ℕ → List Channel
  channels_from k zero = []
  channels_from k (suc n) = new_channel k default_load ∷ channels_from (suc k) n

  -- SimulatedPSU(num_channels)
  unfoldable pub new_supply : ℕ → Supply
  new_supply n = record { channels = channels_from 1 n; error_queue = [] }

  -- `_channel`: the first channel with the id
  unfoldable pub find_channel : ℕ → List Channel → Option Channel
  find_channel i [] = none
  find_channel i (c ∷ cs) = if c.channel_id == i then some c else find_channel i cs

  -- an assignment to the attributes of that channel
  unfoldable pub change_channel : ℕ → (Channel → Channel) → List Channel → List Channel
  change_channel i f [] = []
  change_channel i f (c ∷ cs) = if c.channel_id == i then f c ∷ cs else c ∷ change_channel i f cs

  unfoldable pub push_error : ScpiError → Supply → Supply
  push_error e s = record s { error_queue = s.error_queue ++ (e ∷ []) }
