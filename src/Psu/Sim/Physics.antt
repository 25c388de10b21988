-- ===== src/Psu/Sim/Physics.antt =====
-- `_update` and what it calls, of instro/psu/scpi_sim_server.py.
use instro.Prelude.{true, false, not, ◌&&◌, ◌||◌, List, [], ◌∷◌, ◌++◌, if◌then◌else◌}
use instro.Float.{Floats}
use instro.Psu.Sim.{
  ScpiError, overcurrent_protection_tripped, overvoltage_protection_tripped, off, cv, cc, Channel,
  Supply,
}

module _ (fl : Floats) where
  open fl use {F, lit, add, sub, mul, over, eq, le, lt, inf, is_finite, abs}

  -- `r_total`
  abbrev pub total_resistance : Channel fl → F
  total_resistance c =
      if c.remote_sense then c.load.resistance else add c.load.resistance c.load.probe_resistance

  -- `i_demand`
  unfoldable pub demand : Channel fl → F
  demand c =
      let drive = sub c.voltage_setpoint c.load.emf in
      let r = total_resistance c in
      if eq r (lit 0)
      then (if not (eq drive (lit 0)) then inf else lit 0)
      else if not (is_finite r)
      then lit 0
      else over drive r

  unfoldable pub regulate_voltage : F → Channel fl → Channel fl
  regulate_voltage i c =
      let drop = mul i c.load.probe_resistance in
      record c {
        mode = cv;
        current = i;
        load_voltage = if c.remote_sense then c.voltage_setpoint else sub c.voltage_setpoint drop;
        terminal_voltage =
            if c.remote_sense then add c.voltage_setpoint drop else c.voltage_setpoint;
      }

  unfoldable pub regulate_current : Channel fl → Channel fl
  regulate_current c =
      let at_load = add (mul c.current_limit c.load.resistance) c.load.emf in
      let at_terminal = add at_load (mul c.current_limit c.load.probe_resistance) in
      record c {
        mode = cc;
        current = c.current_limit;
        load_voltage = if is_finite c.load.resistance then at_load else lit 0;
        terminal_voltage = if is_finite c.load.resistance then at_terminal else lit 0;
      }

  unfoldable pub update_voltage_source : Channel fl → Channel fl
  unfolding demand regulate_voltage regulate_current
  update_voltage_source c =
      if le (demand c) c.current_limit then regulate_voltage (demand c) c else regulate_current c

  unfoldable pub sense_voltage : Channel fl → F
  sense_voltage c = if c.remote_sense then c.load_voltage else c.terminal_voltage

  -- nothing at the terminals
  abbrev pub shut : Channel fl → Channel fl
  shut c = record c { terminal_voltage = lit 0; load_voltage = lit 0; current = lit 0; mode = off }

  abbrev pub trip : Channel fl → Channel fl
  trip c = record (shut c) { protection_latched = true; output_enabled = false }

  -- the protections, on a channel whose source is up to date
  unfoldable pub protect : Channel fl → Channel fl × List ScpiError
  protect c =
      if c.overvoltage_protection_enabled && lt c.overvoltage_protection_level (sense_voltage c)
      then (record (trip c) { overvoltage_tripped = true }, overvoltage_protection_tripped ∷ [])
      else if c.overcurrent_protection_enabled && lt c.overcurrent_protection_level (abs c.current)
      then (record (trip c) { overcurrent_tripped = true }, overcurrent_protection_tripped ∷ [])
      else (c, [])

  -- `_update_channel`, with the errors that it pushes
  unfoldable pub update_channel : Channel fl → Channel fl × List ScpiError
  unfolding protect update_voltage_source
  update_channel c =
      if not c.output_enabled || c.protection_latched
      then (shut c, [])
      else protect (update_voltage_source c)

  unfoldable pub update_all : List (Channel fl) → List (Channel fl) × List ScpiError
  unfolding update_channel
  update_all [] = ([], [])
  update_all (c ∷ cs) =
      let rest = update_all cs in ((update_channel c).0 ∷ rest.0, (update_channel c).1 ++ rest.1)

  -- `_update`
  unfoldable pub update : Supply fl → Supply fl
  unfolding update_all
  update s =
      let (channels, errors) = update_all s.channels in
      record { channels = channels; error_queue = s.error_queue ++ errors }
