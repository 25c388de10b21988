-- ===== src/Instrument/Tests.antt =====
-- Runs of an instrument, with publishers and a buffer that keep what they are given.
use instro.Prelude.{
  ℕ, ◌≤◌, ◌<◌, ◌≡◌, refl, ◌⊎◌, Bool, true, false, not, none, List, [], ◌∷◌, ◌++◌, ◌==◌,
  if◌then◌else◌, ok, err, Error, map_ok, Result,
}
use instro.Float.Two.{two}
use instro.Publishers.{Publisher}
use instro.Instrument.Publishing.Sent.{Sent}
use instro.Types.{Measurement, Published, measurement}
use instro.Prelude.Exec.{Exec, raise, modify}
use instro.Instrument.{Instrument, Buffer, given}
use instro.Instrument.Publishing.{Returned, many, measured, other, items_of, publish_measurement}
use instro.Instrument.Publishing.Checks.{ArePublishable, publish_measurement_lem}
use instro.Instrument.Daemon.{background_daemon, reset_daemon_timing}
use instro.Instrument.Daemon.Rounds.{warnings, warnings_lem}
use instro.Instrument.Buffering.Wiring.{places}
use instro.Instrument.Buffering.Runs.{Wired, starts, stops, publishes, run, run-Wired}

abbrev Log : Type 0
Log = List (Published ℕ)

abbrev keeping : Publisher Log (Published ℕ)
keeping = record { publish = λ d log. (ok tt, log ++ (d ∷ [])); close = λ log. (ok tt, log) }

abbrev kept : Buffer Bool ℕ Log
kept = record {
  new = λ n. [];
  publish = λ d log. (ok tt, log ++ (d ∷ []));
  close = λ log. (ok tt, []);
  get = λ channel n wait timeout log. (err Error.channel_not_found, log);
}

abbrev meter : Instrument Bool Log Log ℕ (Unit {0})
meter = record {
  name = "meter";
  legacy_naming = false;
  publishers = given [] ∷ [];
  default_tags = [];
  interval = true;
  background_methods = 1 ∷ 2 ∷ [];
  work_times = [];
  interval_warning_issued = false;
  buffer = none;
  alive = false;
  stop_event = false;
  device = tt;
}

abbrev reading : Measurement ℕ
reading = record { channel_data = ("meter.v", 5 ∷ []) ∷ []; timestamps = []; tags = none }

abbrev plain : ℕ → Bool
plain v = not (v == 0)

-- two items, of which the second one is no measurement
abbrev mixed : Exec (Instrument Bool Log Log ℕ (Unit {0})) (Returned ℕ)
mixed s = (ok (many (measured reading ∷ other ∷ [])), s)

publish_measurement_lem_example :
    (ArePublishable plain (measured reading ∷ other ∷ [])
      × ((p : Result (Unit {0})) × (next : Instrument Bool Log Log ℕ (Unit {0})) × Sent keeping kept
            meter
            (measurement reading ∷ [])
            p
            next
          × (publish_measurement keeping kept plain mixed meter
              ≡ (map_ok (λ _. many (measured reading ∷ other ∷ [])) p, next))))
    ⊎ ((ArePublishable plain (measured reading ∷ other ∷ []) → ⊥)
        × (publish_measurement keeping kept plain mixed meter ≡ (err Error.type_error, meter)))
unfolding items_of
publish_measurement_lem_example =
    publish_measurement_lem keeping kept plain mixed (many (measured reading ∷ other ∷ [])) meter
      meter refl

-- function 1 raises, and function 2 counts itself by a publisher
abbrev call : ℕ → Exec (Instrument Bool Log Log ℕ (Unit {0})) (Unit {0})
call n = if n == 1 then raise Error.value_error else modify (λ s. record s { publishers = [] })

goes_on : (background_daemon two call (1 ∷ 2 ∷ []) meter).publishers ≡ []
unfolding background_daemon
goes_on = refl

warnings_lem_example :
    (warnings two (true ∷ true ∷ []) (reset_daemon_timing two meter) ≤ 1)
    × (2 < 10 → warnings two (true ∷ true ∷ []) (reset_daemon_timing two meter) ≡ 0)
warnings_lem_example = warnings_lem two (true ∷ true ∷ []) meter

meter-Wired : Wired two keeping kept meter
unfolding places
meter-Wired = record { once = refl; running = refl }

run-Wired_example :
    Wired two keeping kept
      (run two keeping kept (starts ∷ publishes (measurement reading) ∷ stops ∷ []) meter)
run-Wired_example =
    run-Wired two keeping kept (starts ∷ publishes (measurement reading) ∷ stops ∷ []) meter
      meter-Wired
