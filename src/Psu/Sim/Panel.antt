-- ===== src/Psu/Sim/Panel.antt =====
-- What the text interface of instro/psu/scpi_sim_server.py does to the simulated power supply: the
-- actions of its panel, on the value that was typed. Each runs under the server's lock.
use instro.Prelude.{
  ℕ, zero, suc, ◌+◌, ◌-◌, ◌*◌, ◌/◌, ◌%◌, ◌^◌, ◌≤◌, ◌<◌, min, String, ◌≡◌, refl, sym, ap, ap₂, subst,
  fun_ext, ◌∙◌, ◌≢◌, ◌↔◌, ◌⊎◌, inl, inr, Bool, true, false, not, ◌&&◌, ◌||◌, Option, none, some,
  List, [], ◌∷◌, ◌++◌, map, append-nil, append_assoc, arith, eq_iff, eq_refl, dec_lt, ℕ_discrete,
  ltb, leb, ◌==◌, if◌then◌else◌, Bool-cases, Option-cases, length, get_elem?, set, take, drop,
  replicate, last, length-append, length-take, length-drop, length-last, last-min, drop_all,
  take_all, take-append-drop, last_all, last-append_last, Result, ok, err, guard, Error,
  Result-cases, map_ok,
}
use instro.Float.{Floats}
use instro.Psu.Sim.{Load, Channel, Supply, default_load, new_channel, find_channel, change_channel}
use instro.Psu.Sim.Physics.{update}
use instro.Psu.Sim.Handlers.{reset_channel}
use instro.Psu.Sim.Text.{Text}
use instro.Psu.Sim.Scpi.{process_scpi_command}
pub mod Runs

pub data LoadParam : Type 0 where
  load emf probe : LoadParam

module _ (fl : Floats) where
  open fl use {F, lit, lt}

  abbrev pub set_param : LoadParam → F → Load fl → Load fl
  set_param load v l = record l { resistance = v }
  set_param emf v l = record l { emf = v }
  set_param probe v l = record l { probe_resistance = v }

  -- `_on_value` of `_prompt_set`
  unfoldable pub set_load : ℕ → LoadParam → F → Supply fl → Supply fl
  set_load i p v s = elim (find_channel fl i s.channels) as (λ _. Supply fl) [
    | none ↦ s
    | some c ↦ update fl (record s {
      channels = change_channel fl i (λ d. record d { load = set_param p v d.load }) s.channels;
    })
  ]

  abbrev pub set_max : Bool → F → Channel fl → Channel fl
  set_max true v d = record d { voltage_max = v }
  set_max false v d = record d { current_max = v }

  -- `_on_value` of `_prompt_set_limit`, for the voltage or the current; it ends with `_reset`
  unfoldable pub set_limit : ℕ → Bool → F → Supply fl → Supply fl
  set_limit i is_voltage v s =
      if lt v (lit 0) then s else elim (find_channel fl i s.channels) as (λ _. Supply fl) [
        | none ↦ s
        | some c ↦ record {
          channels =
              map (reset_channel fl (λ x y. x))
                (change_channel fl i (set_max is_voltage v) s.channels);
          error_queue = [];
        }
      ]

  -- max((c.channel_id for c in channels), default=0)
  unfoldable pub largest_id : List (Channel fl) → ℕ
  largest_id [] = 0
  largest_id (c ∷ cs) =
      let rest = largest_id cs in if ltb rest c.channel_id then c.channel_id else rest

  unfoldable pub add_channel : Supply fl → Supply fl
  unfolding largest_id
  add_channel s = record s {
    channels = s.channels ++ (new_channel fl (largest_id s.channels + 1) (default_load fl) ∷ []);
  }

  unfoldable pub without : ℕ → List (Channel fl) → List (Channel fl)
  without i [] = []
  without i (c ∷ cs) = let rest = without i cs in if c.channel_id == i then rest else c ∷ rest

  unfoldable pub remove_channel : ℕ → Supply fl → Supply fl
  unfolding without
  remove_channel i s = record s { channels = without i s.channels }

  -- what happens to the supply: a line from a client, with the draws of `random.gauss` while it is
  -- answered, or an action of the panel
  pub data Event : Type 0 where
    receives : Text → (F → F → F) → Event
    sets_load : ℕ → LoadParam → F → Event
    sets_limit : ℕ → Bool → F → Event
    adds_channel : Event
    removes_channel : ℕ → Event

  abbrev pub step : Event → Supply fl → Supply fl
  step (receives line gauss) s = (process_scpi_command fl gauss line s).1
  step (sets_load i p v) s = set_load i p v s
  step (sets_limit i is_voltage v) s = set_limit i is_voltage v s
  step adds_channel s = add_channel s
  step (removes_channel i) s = remove_channel i s

  unfoldable pub run : List Event → Supply fl → Supply fl
  run [] s = s
  run (e ∷ es) s = run es (step e s)
