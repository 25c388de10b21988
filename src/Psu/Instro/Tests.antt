-- ===== src/Psu/Instro/Tests.antt =====
-- `apply` on a supply that remembers whether a setpoint was ever written to a live output.
use instro.Prelude.{
  ◌≡◌, refl, Bool, true, false, not, ◌&&◌, ◌||◌, none, List, [], ◌∷◌, ◌++◌, arith, Result, ok, err,
  Error,
}
use instro.Float.Two.{two}
use instro.Publishers.{Publisher}
use instro.Instrument.Publishing.Sent.{Sent}
use instro.Types.{Command, Published}
use instro.Prelude.Exec.{Exec}
use instro.Prelude.Int.{ℤ, pos}
use instro.Instrument.{Instrument, Buffer, given, Value, plain}
use instro.Psu.Driver.{PsuDriver, Reading, raw}
use instro.Psu.Instro.{Polled}
use instro.Psu.Instro.Steps.{apply, apply_steps}
use instro.Psu.Instro.Apply.{apply-off, apply-on}
use instro.Psu.Instro.Landed.{Outcome, data_of, Landed, apply_lem}

record Box : Type 0 where
  live : Bool
  limited : Bool
  ready : Bool
  wrong : Bool

abbrev Log : Type 0
Log = List (Published (Value Bool))

abbrev keeping : Publisher Log (Published (Value Bool))
keeping = record { publish = λ d log. (ok tt, log ++ (d ∷ [])); close = λ log. (ok tt, log) }

abbrev kept : Buffer Bool (Value Bool) Log
kept = record {
  new = λ n. [];
  publish = λ d log. (ok tt, log ++ (d ∷ []));
  close = λ log. (ok tt, []);
  get = λ channel n wait timeout log. (err Error.channel_not_found, log);
}

abbrev unused : Exec Box (Unit {0})
unused b = (ok tt, b)

abbrev unknown : Exec Box (Reading Bool)
unknown b = (ok (raw (plain false)), b)

abbrev box_driver : PsuDriver Bool Box
box_driver = record {
  open_driver = unused;
  close_driver = unused;
  set_voltage = λ v i b. (ok tt, record b { wrong = b.wrong || b.live; ready = b.limited });
  get_voltage = λ i. unknown;
  set_current_limit = λ x i b. (ok tt, record b { wrong = b.wrong || b.live; limited = true });
  get_current = λ i. unknown;
  output_enable = λ e i b. (ok tt, record b { live = e });
  get_output_status = λ i. unknown;
  get_voltage_setpoint = λ i. unknown;
  get_current_setpoint = λ i. unknown;
  get_operating_mode = λ i. unknown;
  set_overvoltage_protection_level = λ v i. unused;
  get_overvoltage_protection_level = λ i. unknown;
  set_overvoltage_protection_enabled = λ e i. unused;
  get_overvoltage_protection_enabled = λ i. unknown;
  set_overvoltage_protection_delay = λ d i. unused;
  get_overvoltage_protection_delay = λ i. unknown;
  set_overcurrent_protection_level = λ v i. unused;
  get_overcurrent_protection_level = λ i. unknown;
  set_overcurrent_protection_enabled = λ e i. unused;
  get_overcurrent_protection_enabled = λ i. unknown;
  clear_protection = λ i. unused;
  get_overvoltage_protection_tripped = λ i. unknown;
  get_overcurrent_protection_tripped = λ i. unknown;
  set_remote_sense_enabled = λ e i. unused;
  get_remote_sense_enabled = λ i. unknown;
}

abbrev clock : Box → ℤ
clock b = pos 7

abbrev bench : Instrument Bool Log Log Polled Box
bench = record {
  name = "bench";
  legacy_naming = false;
  publishers = given [] ∷ [];
  default_tags = [];
  interval = true;
  background_methods = [];
  work_times = [];
  interval_warning_issued = false;
  buffer = none;
  alive = false;
  stop_event = false;
  device = record { live = true; limited = false; ready = false; wrong = false };
}

abbrev idle : Instrument Bool Log Log Polled Box
idle = record bench {
  device = record { live = false; limited = false; ready = false; wrong = false };
}

-- no setpoint was written to a live output
abbrev Untouched : Box → Type 0
Untouched b = b.wrong ≡ false

apply-off_example :
    Untouched (apply two keeping kept box_driver clock true true false 1 [] bench).1.device
apply-off_example =
    apply-off two keeping kept box_driver clock Untouched (λ b. b.live ≡ false) true true 1 [] bench
      (record { keeps = λ b g o. g; returns = λ b g o e. refl })
      (record { keeps = λ b g o. rw (g, o) refl; returns = λ b g o e. o })
      (record { keeps = λ b g o. rw (g, o) refl; returns = λ b g o e. o }) refl

-- an output that is on has its limit and voltage set
abbrev Prepared : Box → Type 0
Prepared b = (b.live && not b.ready) ≡ false

apply-on_example :
    Prepared (apply two keeping kept box_driver clock true true true 1 [] idle).1.device
apply-on_example =
    apply-on two keeping kept box_driver clock Prepared (λ b. b.limited ≡ true)
      (λ b. b.ready ≡ true) true true 1 [] idle
      (record { keeps = λ b g o. g; returns = λ b g o e. refl })
      (record { keeps = λ b g o. rw o (ground arith); returns = λ b g o e. o })
      (record { keeps = λ b g o. rw o refl; returns = λ b g o e. tt }) refl

apply_lem_example :
    let steps = apply_steps two keeping kept box_driver clock true true true 1 in
    let (o, last) = apply two keeping kept box_driver clock true true true 1 [] bench in
    (r : Result (Unit {0})) × (p : Result (Unit {0})) × (cs : List (Command (Value Bool)))
    × (next : Instrument Bool Log Log Polled Box) × Landed two keeping kept box_driver clock 1 []
        bench steps r cs next
    × Sent keeping kept next (data_of two keeping kept box_driver clock cs) p last
    × Outcome two keeping kept box_driver clock r p cs o
apply_lem_example = apply_lem two keeping kept box_driver clock true true true 1 [] bench
