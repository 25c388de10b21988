-- ===== src/Psu/Sim/Scpi/Table.antt =====
-- Every command of the simulator's table keeps its channels safe.
use instro.Prelude.{false, ◌≡◌, refl, inl, inr, Option, none, some, List, [], ◌∷◌, map, Bool-cases}
use instro.Psu.Sim.Scpi.{
  Command, Table, lookup, enter, headers, register_headers, register_all, scpi_commands,
  command_table,
}
use instro.Float.{Floats}
use instro.Psu.Sim.{Supply, Channel, new_channel, ScpiError}
use instro.Psu.Sim.Physics.{update}
use instro.Psu.Sim.Text.{Text, eq_text}
use instro.Psu.Sim.Safe.{IsSafe, All}
use instro.Psu.Sim.Handlers.{
  Handler, query_voltage, query_current, query_ocp_level, query_ocp_state, query_ovp_level,
  query_ovp_state, query_output, query_mode, query_protection_tripped, query_remote_sense,
  measure_voltage, measure_current, get_id, get_error, reset_channel, reset, clear_status,
  pop_error,
}
use instro.Psu.Sim.Commands.{Safe, Ends, KeepsSafe, query-Ends, updated}
use instro.Psu.Sim.Commands.Setters.{
  set_voltage-KeepsSafe, set_current-KeepsSafe, set_ocp_level-KeepsSafe, set_ovp_level-KeepsSafe,
  set_ocp_state-KeepsSafe, set_ovp_state-KeepsSafe, set_remote_sense-KeepsSafe,
  set_output-KeepsSafe, clear_protection_latch-KeepsSafe,
}

module _ (fl : Floats) (gauss : fl.F → fl.F → fl.F) where
  open fl use {lt, lit}

  abbrev pub SafeOption : Option (Handler fl gauss) → Type 0
  SafeOption none = Unit {0}
  SafeOption (some h) = KeepsSafe fl gauss h

  abbrev pub SafeTable : Table fl gauss → Type 0
  SafeTable [] = Unit {0}
  SafeTable ((k, h) ∷ t) = KeepsSafe fl gauss h × SafeTable t

  abbrev SafeCommands : List (Command fl gauss) → Type 0
  SafeCommands [] = Unit {0}
  SafeCommands (c ∷ cs) = (SafeOption c.write × SafeOption c.query) × SafeCommands cs

  enter-SafeTable :
      (key : Text) (o : Option (Handler fl gauss)) (t : Table fl gauss)
      → SafeOption o
      → SafeTable t
      → SafeTable (enter fl gauss key o t)
  enter-SafeTable key none t o h = h
  enter-SafeTable key (some k) t o h = (o, h)

  register_headers-SafeTable :
      (hs : List Text) (c : Command fl gauss) (t : Table fl gauss)
      → SafeOption c.write × SafeOption c.query
      → SafeTable t
      → SafeTable (register_headers fl gauss hs c t)
  unfolding register_headers
  register_headers-SafeTable [] c t o h = h
  register_headers-SafeTable (k ∷ hs) c t o h =
      register_headers-SafeTable hs c _ o
        (enter-SafeTable _ c.query _ o.1 (enter-SafeTable k c.write t o.0 h))

  register_all-SafeTable :
      (cs : List (Command fl gauss)) (t : Table fl gauss)
      → SafeCommands cs
      → SafeTable t
      → SafeTable (register_all fl gauss cs t)
  unfolding register_all
  register_all-SafeTable [] t o h = h
  register_all-SafeTable (c ∷ cs) t o h =
      register_all-SafeTable cs _ o.1 (register_headers-SafeTable (headers c.command) c t o.0 h)

  pub lookup-SafeOption :
      (t : Table fl gauss) (key : Text) → SafeTable t → SafeOption (lookup fl gauss t key)
  unfolding lookup
  lookup-SafeOption [] key h = tt
  lookup-SafeOption ((k, f) ∷ t) key h = elim (Bool-cases (eq_text k key)) [
    | inl e ↦ rw e h.0
    | inr e ↦ rw e (lookup-SafeOption t key h.1)
  ]

  pub reset_channel-IsSafe :
      (c : Channel fl)
      → lt c.voltage_max (lit 0) ≡ false
      → lt c.current_max (lit 0) ≡ false
      → IsSafe fl (reset_channel fl gauss c)
  unfolding reset_channel new_channel
  reset_channel-IsSafe c v i = record {
    sound = record {
      latch = refl;
      tripped = refl;
      voltage = v;
      current = i;
      voltage_limit = v;
      current_limit = i;
    };
    settled = record { quiet = inr (refl, refl, refl, refl); voltage = refl; current = refl };
  }

  abbrev pub Limited : Channel fl → Type 0
  Limited c = (lt c.voltage_max (lit 0) ≡ false) × (lt c.current_max (lit 0) ≡ false)

  pub reset-IsSafe :
      (cs : List (Channel fl))
      → All fl Limited cs
      → All fl (IsSafe fl) (map (reset_channel fl gauss) cs)
  reset-IsSafe [] h = tt
  reset-IsSafe (c ∷ cs) h = (reset_channel-IsSafe c h.0.0 h.0.1, reset-IsSafe cs h.1)

  pub Safe-Limited : (cs : List (Channel fl)) → All fl (IsSafe fl) cs → All fl Limited cs
  Safe-Limited [] h = tt
  Safe-Limited (c ∷ cs) h =
      ((h.0.sound.voltage_limit, h.0.sound.current_limit), Safe-Limited cs h.1)

  pop_error-Ends :
      (q : List ScpiError) (s : Supply fl)
      → Safe fl gauss s
      → Ends fl gauss (pop_error fl gauss q) s
  pop_error-Ends [] s h = (h, tt)
  pop_error-Ends (e ∷ es) s h = (h, tt)

  get_error-KeepsSafe : KeepsSafe fl gauss (get_error fl gauss)
  unfolding get_error
  get_error-KeepsSafe i args s h = pop_error-Ends s.error_queue s h

  scpi_commands-Safe : SafeCommands (scpi_commands fl gauss)
  unfolding scpi_commands query_voltage query_current query_ocp_level query_ocp_state
      query_ovp_level query_ovp_state query_output query_mode query_protection_tripped
      query_remote_sense measure_voltage measure_current get_id reset clear_status
  scpi_commands-Safe = (
    (tt, λ i args s h. (h, tt)),
    (
      (λ i args s h. (reset-IsSafe s.channels (Safe-Limited s.channels h), tt), tt),
      (
        (λ i args s h. (h, tt), tt),
        (
          (tt, get_error-KeepsSafe),
          (
            (set_output-KeepsSafe fl gauss, λ i args s h. query-Ends fl gauss i _ _ s h),
            (
              (clear_protection_latch-KeepsSafe fl gauss, tt),
              (
                (tt, λ i args s h. query-Ends fl gauss i _ _ s h),
                (
                  (
                    tt,
                    λ i args s h. query-Ends fl gauss i _ _ (update fl s) (updated fl gauss s h),
                  ),
                  (
                    (
                      tt,
                      λ i args s h. query-Ends fl gauss i _ _ (update fl s) (updated fl gauss s h),
                    ),
                    (
                      (
                        tt,
                        λ i args s h.
                            query-Ends fl gauss i _ _ (update fl s) (updated fl gauss s h),
                      ),
                      (
                        (
                          set_voltage-KeepsSafe fl gauss,
                          λ i args s h. query-Ends fl gauss i _ _ s h,
                        ),
                        (
                          (
                            set_current-KeepsSafe fl gauss,
                            λ i args s h. query-Ends fl gauss i _ _ s h,
                          ),
                          (
                            (
                              set_ocp_level-KeepsSafe fl gauss,
                              λ i args s h. query-Ends fl gauss i _ _ s h,
                            ),
                            (
                              (
                                set_ocp_state-KeepsSafe fl gauss,
                                λ i args s h. query-Ends fl gauss i _ _ s h,
                              ),
                              (
                                (
                                  set_ovp_level-KeepsSafe fl gauss,
                                  λ i args s h. query-Ends fl gauss i _ _ s h,
                                ),
                                (
                                  (
                                    set_ovp_state-KeepsSafe fl gauss,
                                    λ i args s h. query-Ends fl gauss i _ _ s h,
                                  ),
                                  (
                                    (
                                      set_remote_sense-KeepsSafe fl gauss,
                                      λ i args s h. query-Ends fl gauss i _ _ s h,
                                    ),
                                    tt,
                                  ),
                                ),
                              ),
                            ),
                          ),
                        ),
                      ),
                    ),
                  ),
                ),
              ),
            ),
          ),
        ),
      ),
    ),
  )

  pub command_table-Safe : SafeTable (command_table fl gauss)
  unfolding command_table
  command_table-Safe = register_all-SafeTable (scpi_commands fl gauss) [] scpi_commands-Safe tt
