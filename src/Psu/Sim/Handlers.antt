-- ===== src/Psu/Sim/Handlers.antt =====
-- The command handlers of `SimulatedPSU` in instro/psu/scpi_sim_server.py. A handler gets the channel
-- of the header and the arguments; a ValueError that it raises is caught by the dispatch.
use instro.Prelude.{
  ℕ, String, Bool, true, false, not, ◌&&◌, ◌||◌, Option, none, some, List, [], ◌∷◌, map,
  if◌then◌else◌, Result, ok, map_ok,
}
use instro.Float.{Floats}
use instro.Prelude.Exec.{Exec, pure, lift, modify, ◌>>=◌, ◌>>◌}
use instro.Psu.Sim.Text.{Text, codes, eq_text, upper}
use instro.Psu.Sim.{
  ScpiError, no_error, missing_parameter, header_suffix_out_of_range, data_out_of_range,
  illegal_parameter_value, pv_above_ovp, pc_above_ocp, ovp_below_pv, ocp_below_pc, Mode, off,
  Channel, Supply, new_channel, find_channel, change_channel, push_error,
}
use instro.Psu.Sim.Physics.{update}

abbrev pub one_of : Text → List String → Bool
one_of t [] = false
one_of t (s ∷ ss) = eq_text t (codes s) || one_of t ss

-- `gauss` is `random.gauss`, whose draws may be any numbers.
module _ (fl : Floats) (gauss : fl.F → fl.F → fl.F) where
  open fl use {F, lit, le, lt, mul, abs, over, is_finite, parse}

  -- what the server sends back, if anything
  pub data Response : Type 0 where
    nothing identity : Response
    error : ScpiError → Response
    value : F → Response
    flag : Bool → Response
    in_mode : Mode → Response
    remote : Bool → Response

  abbrev pub Handler : Type 0
  Handler = ℕ → List Text → Exec (Supply fl) Response

  -- add_noise(value, 0.005), where 0.005 is 5.0 / 1000.0
  unfoldable pub add_noise : F → F
  add_noise v =
      if not (is_finite v)
      then v
      else gauss v (over (mul (abs v) (over (lit 5) (lit 1000))) (lit 3))

  unfoldable pub require_channel : ℕ → Exec (Supply fl) (Option (Channel fl))
  require_channel i s =
      let found = find_channel fl i s.channels in
      elim found [
        | none ↦ (ok none, push_error fl header_suffix_out_of_range s)
        | some c ↦ (ok (some c), s)
      ]

  -- ch = self._require_channel(channel); if ch is None: return
  abbrev pub on_channel :
      ℕ → Response → (Channel fl → Exec (Supply fl) Response) → Exec (Supply fl) Response
  on_channel i missing body = do
    found ← require_channel i
    elim found [ none ↦ pure missing | some c ↦ body c ]

  abbrev pub refuse : ScpiError → Exec (Supply fl) Response
  refuse e = do modify (push_error fl e); pure nothing

  -- if not self._require_args(args): return, else the first argument
  abbrev pub on_arg : List Text → (Text → Exec (Supply fl) Response) → Exec (Supply fl) Response
  on_arg [] body = refuse missing_parameter
  on_arg (a ∷ args) body = body a

  abbrev pub on_parsed :
      {A : Type 0}
      → Option A
      → ScpiError
      → (A → Exec (Supply fl) Response)
      → Exec (Supply fl) Response
  on_parsed none e body = refuse e
  on_parsed (some a) e body = body a

  unfoldable pub parse_bool : Text → Option Bool
  parse_bool token =
      if one_of (upper token) ("1" ∷ "ON" ∷ [])
      then some true
      else if one_of (upper token) ("0" ∷ "OFF" ∷ [])
      then some false
      else none

  unfoldable pub parse_remote_sense_state : Text → Option Bool
  parse_remote_sense_state token =
      if one_of (upper token) ("REM" ∷ [])
      then some true
      else if one_of (upper token) ("LOC" ∷ [])
      then some false
      else none

  abbrev in_range : F → F → F → Option F
  in_range lo hi v = if le lo v && le v hi then some v else none

  -- `none` where the source pushes DATA_OUT_OF_RANGE
  unfoldable pub parse_ranged_value : Text → F → F → Result (Option F)
  parse_ranged_value token lo hi =
      if one_of (upper token) ("MAX" ∷ "MAXIMUM" ∷ [])
      then ok (some hi)
      else if one_of (upper token) ("MIN" ∷ "MINIMUM" ∷ "DEF" ∷ "DEFAULT" ∷ [])
      then ok (some lo)
      else map_ok (in_range lo hi) (parse token)

  -- assign to the channel, then `_update`
  unfoldable pub assign : ℕ → (Channel fl → Channel fl) → Exec (Supply fl) Response
  assign i f s = (ok nothing, update fl (record s { channels = change_channel fl i f s.channels }))

  unfoldable pub set_voltage : Handler
  set_voltage i args = on_channel i nothing (λ c. on_arg args (λ a. do
    parsed ← lift (parse_ranged_value a (lit 0) c.voltage_max)
    on_parsed parsed data_out_of_range (λ v.
        if lt c.overvoltage_protection_level v
        then refuse pv_above_ovp
        else assign i (λ d. record d { voltage_setpoint = v }))))

  unfoldable pub query_voltage : Handler
  query_voltage i args = on_channel i (value (lit 0)) (λ c. pure (value c.voltage_setpoint))

  unfoldable pub set_current : Handler
  set_current i args = on_channel i nothing (λ c. on_arg args (λ a. do
    parsed ← lift (parse_ranged_value a (lit 0) c.current_max)
    on_parsed parsed data_out_of_range (λ v.
        if lt c.overcurrent_protection_level v
        then refuse pc_above_ocp
        else assign i (λ d. record d { current_limit = v }))))

  unfoldable pub query_current : Handler
  query_current i args = on_channel i (value (lit 0)) (λ c. pure (value c.current_limit))

  unfoldable pub set_ocp_level : Handler
  set_ocp_level i args = on_channel i nothing (λ c. on_arg args (λ a. do
    parsed ← lift (parse_ranged_value a (lit 0) c.current_max)
    on_parsed parsed data_out_of_range (λ v.
        if lt v c.current_limit
        then refuse ocp_below_pc
        else assign i (λ d. record d { overcurrent_protection_level = v }))))

  unfoldable pub query_ocp_level : Handler
  query_ocp_level i args =
      on_channel i (value (lit 0)) (λ c. pure (value c.overcurrent_protection_level))

  unfoldable pub set_ovp_level : Handler
  set_ovp_level i args = on_channel i nothing (λ c. on_arg args (λ a. do
    parsed ← lift (parse_ranged_value a (lit 0) c.voltage_max)
    on_parsed parsed data_out_of_range (λ v.
        if lt v c.voltage_setpoint
        then refuse ovp_below_pv
        else assign i (λ d. record d { overvoltage_protection_level = v }))))

  unfoldable pub query_ovp_level : Handler
  query_ovp_level i args =
      on_channel i (value (lit 0)) (λ c. pure (value c.overvoltage_protection_level))

  unfoldable pub set_ocp_state : Handler
  set_ocp_state i args = on_channel i nothing (λ c. on_arg args (λ a.
      on_parsed (parse_bool a) illegal_parameter_value
        (λ b. assign i (λ d. record d { overcurrent_protection_enabled = b }))))

  unfoldable pub query_ocp_state : Handler
  query_ocp_state i args =
      on_channel i (flag false) (λ c. pure (flag c.overcurrent_protection_enabled))

  unfoldable pub set_ovp_state : Handler
  set_ovp_state i args = on_channel i nothing (λ c. on_arg args (λ a.
      on_parsed (parse_bool a) illegal_parameter_value
        (λ b. assign i (λ d. record d { overvoltage_protection_enabled = b }))))

  unfoldable pub query_ovp_state : Handler
  query_ovp_state i args =
      on_channel i (flag false) (λ c. pure (flag c.overvoltage_protection_enabled))

  -- enabling the output clears what has tripped
  abbrev pub unlatched : Channel fl → Channel fl
  unlatched d = record d {
    protection_latched = false;
    overvoltage_tripped = false;
    overcurrent_tripped = false;
  }

  unfoldable pub set_output : Handler
  set_output i args = on_channel i nothing (λ c. on_arg args (λ a.
      on_parsed (parse_bool a) illegal_parameter_value
        (λ b. assign i (λ d. record (if b then unlatched d else d) { output_enabled = b }))))

  unfoldable pub query_output : Handler
  query_output i args = on_channel i (flag false) (λ c. pure (flag c.output_enabled))

  unfoldable pub query_mode : Handler
  query_mode i args = do modify (update fl); on_channel i (in_mode off) (λ c. pure (in_mode c.mode))

  unfoldable pub clear_protection_latch : Handler
  clear_protection_latch i args = on_channel i nothing (λ c. assign i unlatched)

  unfoldable pub query_protection_tripped : Handler
  query_protection_tripped i args =
      on_channel i (flag false)
        (λ c. pure (flag (c.protection_latched || c.overvoltage_tripped || c.overcurrent_tripped)))

  unfoldable pub set_remote_sense : Handler
  set_remote_sense i args = on_channel i nothing (λ c. on_arg args (λ a.
      on_parsed (parse_remote_sense_state a) illegal_parameter_value
        (λ b. assign i (λ d. record d { remote_sense = b }))))

  unfoldable pub query_remote_sense : Handler
  query_remote_sense i args = on_channel i (remote false) (λ c. pure (remote c.remote_sense))

  unfoldable pub measure_voltage : Handler
  measure_voltage i args = do
    modify (update fl)
    on_channel i (value (lit 0)) (λ c.
        pure (value (add_noise (if c.remote_sense then c.load_voltage else c.terminal_voltage))))

  unfoldable pub measure_current : Handler
  measure_current i args = do
    modify (update fl)
    on_channel i (value (lit 0)) (λ c. pure (value (add_noise c.current)))

  unfoldable pub get_id : Handler
  get_id i args = pure identity

  -- `popleft`, or NO_ERROR from an empty queue
  abbrev pub pop_error : List ScpiError → Exec (Supply fl) Response
  pop_error [] s = (ok (error no_error), s)
  pop_error (e ∷ es) s = (ok (error e), record s { error_queue = es })

  unfoldable pub get_error : Handler
  get_error i args s = pop_error s.error_queue s

  -- one round of the loop of `_reset`
  unfoldable pub reset_channel : Channel fl → Channel fl
  reset_channel c = record (new_channel fl c.channel_id c.load) {
    voltage_max = c.voltage_max;
    current_max = c.current_max;
    remote_sense = c.remote_sense;
    overvoltage_protection_level = c.voltage_max;
    overcurrent_protection_level = c.current_max;
  }

  unfoldable pub reset : Handler
  reset i args s =
      (ok nothing, record { channels = map (reset_channel) s.channels; error_queue = [] })

  unfoldable pub clear_status : Handler
  clear_status i args s = (ok nothing, record s { error_queue = [] })
