-- ===== src/Psu/Sim/Commands/Setters.antt =====
-- The handlers that change a channel keep the channels safe.
use instro.Prelude.{◌≡◌, refl, Bool, true, false, arith, if◌then◌else◌}
use instro.Psu.Sim.Commands.{
  KeepsSafe, ranged-Ends, switch-Ends, on_channel-Ends, assign-Ends, IsSafe-Sound,
}
use instro.Float.{Floats}
use instro.Psu.Sim.{Channel}
use instro.Psu.Sim.Safe.{Sound}
use instro.Psu.Sim.Handlers.{
  nothing, set_voltage, set_current, set_ocp_level, set_ocp_state, set_ovp_level, set_ovp_state,
  unlatched, set_output, clear_protection_latch, set_remote_sense,
}

module _ (fl : Floats) (gauss : fl.F → fl.F → fl.F) where
  -- new setpoints and levels that do not conflict
  levels-Sound :
      (c : Channel fl) (v i ov oc : fl.F)
      → Sound fl c
      → fl.lt ov v ≡ false
      → fl.lt oc i ≡ false
      → Sound fl (record c {
        voltage_setpoint = v;
        current_limit = i;
        overvoltage_protection_level = ov;
        overcurrent_protection_level = oc;
      })
  levels-Sound c v i ov oc k x y = record {
    latch = k.latch;
    tripped = k.tripped;
    voltage = x;
    current = y;
    voltage_limit = k.voltage_limit;
    current_limit = k.current_limit;
  }

  pub set_voltage-KeepsSafe : KeepsSafe fl gauss (set_voltage fl gauss)
  unfolding set_voltage
  set_voltage-KeepsSafe i args s h =
      ranged-Ends fl gauss i args s (λ c. c.voltage_max) _ _ _
        (λ c v x k. levels-Sound c v _ _ _ k x k.current) h

  pub set_current-KeepsSafe : KeepsSafe fl gauss (set_current fl gauss)
  unfolding set_current
  set_current-KeepsSafe i args s h =
      ranged-Ends fl gauss i args s (λ c. c.current_max) _ _ _
        (λ c v x k. levels-Sound c _ v _ _ k k.voltage x) h

  pub set_ocp_level-KeepsSafe : KeepsSafe fl gauss (set_ocp_level fl gauss)
  unfolding set_ocp_level
  set_ocp_level-KeepsSafe i args s h =
      ranged-Ends fl gauss i args s (λ c. c.current_max) _ _ _
        (λ c v x k. levels-Sound c _ _ _ v k k.voltage x) h

  pub set_ovp_level-KeepsSafe : KeepsSafe fl gauss (set_ovp_level fl gauss)
  unfolding set_ovp_level
  set_ovp_level-KeepsSafe i args s h =
      ranged-Ends fl gauss i args s (λ c. c.voltage_max) _ _ _
        (λ c v x k. levels-Sound c _ _ v _ k x k.current) h

  -- the parts of a channel that soundness speaks about stay as they are
  same-Sound :
      (c : Channel fl) (ov oc sense : Bool)
      → Sound fl c
      → Sound fl (record c {
        overvoltage_protection_enabled = ov;
        overcurrent_protection_enabled = oc;
        remote_sense = sense;
      })
  same-Sound c ov oc sense k = record {
    latch = k.latch;
    tripped = k.tripped;
    voltage = k.voltage;
    current = k.current;
    voltage_limit = k.voltage_limit;
    current_limit = k.current_limit;
  }

  pub set_ocp_state-KeepsSafe : KeepsSafe fl gauss (set_ocp_state fl gauss)
  unfolding set_ocp_state
  set_ocp_state-KeepsSafe i args s h =
      switch-Ends fl gauss i args s _ _ (λ c b k. same-Sound c _ b c.remote_sense k) h

  pub set_ovp_state-KeepsSafe : KeepsSafe fl gauss (set_ovp_state fl gauss)
  unfolding set_ovp_state
  set_ovp_state-KeepsSafe i args s h =
      switch-Ends fl gauss i args s _ _ (λ c b k. same-Sound c b _ c.remote_sense k) h

  pub set_remote_sense-KeepsSafe : KeepsSafe fl gauss (set_remote_sense fl gauss)
  unfolding set_remote_sense
  set_remote_sense-KeepsSafe i args s h =
      switch-Ends fl gauss i args s _ _ (λ c b k. same-Sound c _ _ b k) h

  unlatched-Sound : (c : Channel fl) → Sound fl c → Sound fl (unlatched fl gauss c)
  unlatched-Sound c k = record {
    latch = refl;
    tripped = refl;
    voltage = k.voltage;
    current = k.current;
    voltage_limit = k.voltage_limit;
    current_limit = k.current_limit;
  }

  output-Sound :
      (c : Channel fl) (b : Bool)
      → Sound fl c
      → Sound fl (record (if b then unlatched fl gauss c else c) { output_enabled = b })
  output-Sound c true k = record {
    latch = refl;
    tripped = refl;
    voltage = k.voltage;
    current = k.current;
    voltage_limit = k.voltage_limit;
    current_limit = k.current_limit;
  }
  output-Sound c false k = record {
    latch = ground arith;
    tripped = k.tripped;
    voltage = k.voltage;
    current = k.current;
    voltage_limit = k.voltage_limit;
    current_limit = k.current_limit;
  }

  pub set_output-KeepsSafe : KeepsSafe fl gauss (set_output fl gauss)
  unfolding set_output
  set_output-KeepsSafe i args s h = switch-Ends fl gauss i args s _ _ output-Sound h

  pub clear_protection_latch-KeepsSafe : KeepsSafe fl gauss (clear_protection_latch fl gauss)
  unfolding clear_protection_latch
  clear_protection_latch-KeepsSafe i args s h = on_channel-Ends fl gauss i nothing _ s h (λ c found.
      assign-Ends fl gauss i _ c s found (unlatched-Sound c (IsSafe-Sound fl gauss i c s found h))
        h)
