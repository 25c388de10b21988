-- ===== src/Psu/Sim/Scpi/Tests.antt =====
-- Runs of the simulated power supply on concrete text, with the two floats 0.0 and 1.0.
use instro.Psu.Sim.Scpi.{eq_text, process_scpi_command}
use instro.Prelude.{err, Error, length, ◌<◌, ◌⊎◌, String, ◌≡◌, Bool, ok, List, [], ◌∷◌, refl, true}
use instro.Psu.Sim.Panel.{Event, receives, sets_load, adds_channel, emf, run}
use instro.Psu.Sim.Panel.Runs
use instro.Psu.Sim.Panel.Runs.{run-IsSafe}
use instro.Psu.Sim.Commands.Readback.{query_voltage-set_voltage}
use instro.Psu.Sim.Handlers.{query_voltage, set_voltage, value, parse_ranged_value, Response}
use instro.Psu.Sim.Text.{upper, codes}
use instro.Psu.Sim.{
  new_channel, default_load, channels_from, find_channel, Supply, new_supply, undefined_header,
}
use instro.Float.Two.{two}
use instro.Psu.Sim.Scpi.Safety.{process_scpi_command_lem}
use instro.Psu.Sim.Safe.{new_supply-IsSafe}
use instro.Psu.Sim.Commands.{Safe}

abbrev no_noise : Bool → Bool → Bool
no_noise mu sigma = mu

abbrev one_channel : Supply two
one_channel = new_supply two 1

abbrev sends : String → Supply two → Supply two
sends line s = (process_scpi_command two no_noise (codes line) s).1

process_scpi_command_lem_example :
    let (r, s') = process_scpi_command two no_noise (codes "SOUR1:VOLT 1") one_channel in
    Safe two no_noise s'
    × (((a : Response two no_noise) × (r ≡ ok a))
        ⊎ ((r ≡ err Error.value_error)
            × (s' ≡ one_channel)
            × (4300 < length (codes "SOUR1:VOLT 1"))))
process_scpi_command_lem_example =
    process_scpi_command_lem two no_noise (codes "SOUR1:VOLT 1") one_channel
      (new_supply-IsSafe two 1)

-- a panel that raises the electromotive force and removes the channel, around two client lines
abbrev some_events : List (Event two)
some_events =
    receives (codes "OUTP ON") no_noise
    ∷ sets_load 1 emf true
    ∷ receives (codes "VOLT 1") no_noise
    ∷ adds_channel
    ∷ []

run-IsSafe_example : Runs.Safe two (run two some_events (new_supply two 1))
run-IsSafe_example = run-IsSafe two 1 some_events

query_voltage-set_voltage_example :
    (query_voltage two no_noise 1 [] (set_voltage two no_noise 1 (codes "1" ∷ []) one_channel).1).0
    ≡ ok (value true)
unfolding new_supply channels_from new_channel find_channel parse_ranged_value
    instro.Psu.Sim.Text.eq_text
query_voltage-set_voltage_example =
    query_voltage-set_voltage two no_noise 1 (codes "1") true one_channel
      (new_channel two 1 (default_load two)) refl refl refl

-- long, short and optional keywords are one command, and a wrong one is an error
asked :
    (process_scpi_command two no_noise
      (codes ":SOURce1:VOLTage:LEVel?")
      (sends "sour:volt max" one_channel)).0
    ≡ ok (value true)
unfolding instro.Psu.Sim.default_load instro.Psu.Sim.new_channel instro.Psu.Sim.channels_from
    instro.Psu.Sim.new_supply instro.Psu.Sim.find_channel instro.Psu.Sim.change_channel
    instro.Psu.Sim.push_error instro.Psu.Sim.Text.eq_text instro.Psu.Sim.Text.lstrip
    instro.Psu.Sim.Text.rstrip instro.Psu.Sim.Text.strip instro.Psu.Sim.Text.partition
    instro.Psu.Sim.Text.split_from instro.Psu.Sim.Text.join_colon instro.Psu.Sim.Text.split_digits
    instro.Psu.Sim.Text.decimal instro.Psu.Sim.Text.int_of_digits instro.Psu.Sim.Text.drop_mark
    instro.Psu.Sim.Text.normalize_parts instro.Psu.Sim.Text.normalize_header
    instro.Psu.Sim.Text.stripped instro.Psu.Sim.Text.positional_args instro.Psu.Sim.Physics.demand
    instro.Psu.Sim.Physics.regulate_voltage instro.Psu.Sim.Physics.regulate_current
    instro.Psu.Sim.Physics.update_voltage_source instro.Psu.Sim.Physics.sense_voltage
    instro.Psu.Sim.Physics.protect instro.Psu.Sim.Physics.update_channel
    instro.Psu.Sim.Physics.update_all instro.Psu.Sim.Physics.update instro.Psu.Sim.Scpi.leading
    instro.Psu.Sim.Scpi.required_run instro.Psu.Sim.Scpi.all_optional
    instro.Psu.Sim.Scpi.split_segments instro.Psu.Sim.Scpi.capitals
    instro.Psu.Sim.Scpi.keyword_forms instro.Psu.Sim.Scpi.extend_paths
    instro.Psu.Sim.Scpi.paths_from instro.Psu.Sim.Scpi.longer_headers instro.Psu.Sim.Scpi.all_paths
    instro.Psu.Sim.Scpi.headers instro.Psu.Sim.Scpi.lookup instro.Psu.Sim.Scpi.register_headers
    instro.Psu.Sim.Scpi.register_all instro.Psu.Sim.Scpi.scpi_commands
    instro.Psu.Sim.Scpi.command_table instro.Psu.Sim.Scpi.call_handler instro.Psu.Sim.Scpi.dispatch
    instro.Psu.Sim.Scpi.process_scpi_command instro.Psu.Sim.Handlers.add_noise
    instro.Psu.Sim.Handlers.require_channel instro.Psu.Sim.Handlers.parse_bool
    instro.Psu.Sim.Handlers.parse_remote_sense_state instro.Psu.Sim.Handlers.parse_ranged_value
    instro.Psu.Sim.Handlers.assign instro.Psu.Sim.Handlers.set_voltage
    instro.Psu.Sim.Handlers.query_voltage instro.Psu.Sim.Handlers.set_current
    instro.Psu.Sim.Handlers.query_current instro.Psu.Sim.Handlers.set_ocp_level
    instro.Psu.Sim.Handlers.query_ocp_level instro.Psu.Sim.Handlers.set_ovp_level
    instro.Psu.Sim.Handlers.query_ovp_level instro.Psu.Sim.Handlers.set_ocp_state
    instro.Psu.Sim.Handlers.query_ocp_state instro.Psu.Sim.Handlers.set_ovp_state
    instro.Psu.Sim.Handlers.query_ovp_state instro.Psu.Sim.Handlers.set_output
    instro.Psu.Sim.Handlers.query_output instro.Psu.Sim.Handlers.query_mode
    instro.Psu.Sim.Handlers.clear_protection_latch instro.Psu.Sim.Handlers.query_protection_tripped
    instro.Psu.Sim.Handlers.set_remote_sense instro.Psu.Sim.Handlers.query_remote_sense
    instro.Psu.Sim.Handlers.measure_voltage instro.Psu.Sim.Handlers.measure_current
    instro.Psu.Sim.Handlers.get_id instro.Psu.Sim.Handlers.get_error
    instro.Psu.Sim.Handlers.reset_channel instro.Psu.Sim.Handlers.reset
    instro.Psu.Sim.Handlers.clear_status
asked = refl

unknown : (sends "SOUR:VOLTS 1" one_channel).error_queue ≡ undefined_header ∷ []
unfolding instro.Psu.Sim.default_load instro.Psu.Sim.new_channel instro.Psu.Sim.channels_from
    instro.Psu.Sim.new_supply instro.Psu.Sim.find_channel instro.Psu.Sim.change_channel
    instro.Psu.Sim.push_error instro.Psu.Sim.Text.eq_text instro.Psu.Sim.Text.lstrip
    instro.Psu.Sim.Text.rstrip instro.Psu.Sim.Text.strip instro.Psu.Sim.Text.partition
    instro.Psu.Sim.Text.split_from instro.Psu.Sim.Text.join_colon instro.Psu.Sim.Text.split_digits
    instro.Psu.Sim.Text.decimal instro.Psu.Sim.Text.int_of_digits instro.Psu.Sim.Text.drop_mark
    instro.Psu.Sim.Text.normalize_parts instro.Psu.Sim.Text.normalize_header
    instro.Psu.Sim.Text.stripped instro.Psu.Sim.Text.positional_args instro.Psu.Sim.Physics.demand
    instro.Psu.Sim.Physics.regulate_voltage instro.Psu.Sim.Physics.regulate_current
    instro.Psu.Sim.Physics.update_voltage_source instro.Psu.Sim.Physics.sense_voltage
    instro.Psu.Sim.Physics.protect instro.Psu.Sim.Physics.update_channel
    instro.Psu.Sim.Physics.update_all instro.Psu.Sim.Physics.update instro.Psu.Sim.Scpi.leading
    instro.Psu.Sim.Scpi.required_run instro.Psu.Sim.Scpi.all_optional
    instro.Psu.Sim.Scpi.split_segments instro.Psu.Sim.Scpi.capitals
    instro.Psu.Sim.Scpi.keyword_forms instro.Psu.Sim.Scpi.extend_paths
    instro.Psu.Sim.Scpi.paths_from instro.Psu.Sim.Scpi.longer_headers instro.Psu.Sim.Scpi.all_paths
    instro.Psu.Sim.Scpi.headers instro.Psu.Sim.Scpi.lookup instro.Psu.Sim.Scpi.register_headers
    instro.Psu.Sim.Scpi.register_all instro.Psu.Sim.Scpi.scpi_commands
    instro.Psu.Sim.Scpi.command_table instro.Psu.Sim.Scpi.call_handler instro.Psu.Sim.Scpi.dispatch
    instro.Psu.Sim.Scpi.process_scpi_command instro.Psu.Sim.Handlers.add_noise
    instro.Psu.Sim.Handlers.require_channel instro.Psu.Sim.Handlers.parse_bool
    instro.Psu.Sim.Handlers.parse_remote_sense_state instro.Psu.Sim.Handlers.parse_ranged_value
    instro.Psu.Sim.Handlers.assign instro.Psu.Sim.Handlers.set_voltage
    instro.Psu.Sim.Handlers.query_voltage instro.Psu.Sim.Handlers.set_current
    instro.Psu.Sim.Handlers.query_current instro.Psu.Sim.Handlers.set_ocp_level
    instro.Psu.Sim.Handlers.query_ocp_level instro.Psu.Sim.Handlers.set_ovp_level
    instro.Psu.Sim.Handlers.query_ovp_level instro.Psu.Sim.Handlers.set_ocp_state
    instro.Psu.Sim.Handlers.query_ocp_state instro.Psu.Sim.Handlers.set_ovp_state
    instro.Psu.Sim.Handlers.query_ovp_state instro.Psu.Sim.Handlers.set_output
    instro.Psu.Sim.Handlers.query_output instro.Psu.Sim.Handlers.query_mode
    instro.Psu.Sim.Handlers.clear_protection_latch instro.Psu.Sim.Handlers.query_protection_tripped
    instro.Psu.Sim.Handlers.set_remote_sense instro.Psu.Sim.Handlers.query_remote_sense
    instro.Psu.Sim.Handlers.measure_voltage instro.Psu.Sim.Handlers.measure_current
    instro.Psu.Sim.Handlers.get_id instro.Psu.Sim.Handlers.get_error
    instro.Psu.Sim.Handlers.reset_channel instro.Psu.Sim.Handlers.reset
    instro.Psu.Sim.Handlers.clear_status
unknown = refl
