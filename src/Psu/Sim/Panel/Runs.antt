-- ===== src/Psu/Sim/Panel/Runs.antt =====
-- Whatever the clients and the panel do, the simulated power supply stays safe.
use instro.Prelude.{
  ℕ, ◌≡◌, refl, inl, inr, Bool, true, false, Option, none, some, List, [], ◌∷◌, ◌++◌, map, ◌==◌,
  Bool-cases, Option-cases,
}
use instro.Float.{Floats}
use instro.Psu.Sim.{Channel, Supply, find_channel, change_channel, new_supply}
use instro.Psu.Sim.Panel.{
  Event, LoadParam, step, run, set_load, set_limit, set_max, set_param, add_channel, remove_channel,
  without, receives, sets_load, sets_limit, adds_channel, removes_channel,
}
use instro.Psu.Sim.Safe.{
  IsSafe, Sound, All, Safe-Sound, update-IsSafe, All-change_channel, found-All, new_channel-IsSafe,
  new_supply-IsSafe,
}
use instro.Psu.Sim.Scpi.Safety.{process_scpi_command_lem}
use instro.Psu.Sim.Scpi.Table.{Limited, reset-IsSafe, Safe-Limited}
use instro.Psu.Sim.Physics.{update}
use instro.Psu.Sim.Handlers.{reset_channel}

module _ (fl : Floats) where
  open fl use {F, lit, lt}

  -- every channel is safe
  abbrev pub Safe : Supply fl → Type 0
  Safe s = All fl (IsSafe fl) s.channels

  load-Sound :
      (p : LoadParam) (v : F) (c : Channel fl)
      → Sound fl c
      → Sound fl (record c { load = set_param fl p v c.load })
  load-Sound p v c h = record {
    latch = h.latch;
    tripped = h.tripped;
    voltage = h.voltage;
    current = h.current;
    voltage_limit = h.voltage_limit;
    current_limit = h.current_limit;
  }

  loaded-Safe :
      (i : ℕ) (p : LoadParam) (v : F) (s : Supply fl) (o : Option (Channel fl))
      → find_channel fl i s.channels ≡ o
      → Safe s
      → Safe (elim o as (λ _. Supply fl) [
        | none ↦ s
        | some c ↦ update fl (record s {
          channels =
              change_channel fl i (λ d. record d { load = set_param fl p v d.load }) s.channels;
        })
      ])
  loaded-Safe i p v s none e h = h
  loaded-Safe i p v s (some c) e h =
      let sound = Safe-Sound fl s.channels h in
      update-IsSafe fl _ (
        All-change_channel fl (Sound fl) i _ s.channels c e
          (load-Sound p v c (found-All fl (Sound fl) i s.channels c e sound)) sound)

  set_load-Safe :
      (i : ℕ) (p : LoadParam) (v : F) (s : Supply fl) → Safe s → Safe (set_load fl i p v s)
  unfolding set_load
  set_load-Safe i p v s h = loaded-Safe i p v s (find_channel fl i s.channels) refl h

  set_max-Limited :
      (b : Bool) (v : F) (c : Channel fl)
      → lt v (lit 0) ≡ false
      → Limited fl (λ x y. x) c
      → Limited fl (λ x y. x) (set_max fl b v c)
  set_max-Limited true v c n h = (n, h.1)
  set_max-Limited false v c n h = (h.0, n)

  limited_reset :
      (i : ℕ) (b : Bool) (v : F) (s : Supply fl)
      → lt v (lit 0) ≡ false
      → Safe s
      → (c : Channel fl) → find_channel fl i s.channels ≡ some c
      → All fl
          (IsSafe fl)
          (map (reset_channel fl (λ x y. x)) (change_channel fl i (set_max fl b v) s.channels))
  limited_reset i b v s n h c e =
      let limited = Safe-Limited fl (λ x y. x) s.channels h in
      reset-IsSafe fl (λ x y. x) _
        (All-change_channel fl (Limited fl (λ x y. x)) i _ s.channels c e
          (set_max-Limited b v c n (found-All fl (Limited fl (λ x y. x)) i s.channels c e limited))
          limited)

  set_limit-Safe : (i : ℕ) (b : Bool) (v : F) (s : Supply fl) → Safe s → Safe (set_limit fl i b v s)
  unfolding set_limit
  set_limit-Safe i b v s h = elim (Bool-cases (lt v (lit 0))) [
    | inl n ↦ rw n h
    | inr n ↦ elim (Option-cases (find_channel fl i s.channels)) [
      | inl e ↦ rw (n, e) h
      | inr (c, e) ↦ rw (n, e) (limited_reset i b v s n h c e)
    ]
  ]

  All-append :
      (xs ys : List (Channel fl))
      → All fl (IsSafe fl) xs
      → All fl (IsSafe fl) ys
      → All fl (IsSafe fl) (xs ++ ys)
  All-append [] ys h k = k
  All-append (x ∷ xs) ys h k = (h.0, All-append xs ys h.1 k)

  add_channel-Safe : (s : Supply fl) → Safe s → Safe (add_channel fl s)
  unfolding add_channel
  add_channel-Safe s h = All-append s.channels _ h (new_channel-IsSafe fl _ _, tt)

  without-IsSafe :
      (i : ℕ) (cs : List (Channel fl))
      → All fl (IsSafe fl) cs
      → All fl (IsSafe fl) (without fl i cs)
  unfolding without
  without-IsSafe i [] h = tt
  without-IsSafe i (c ∷ cs) h = elim (Bool-cases (c.channel_id == i)) [
    | inl e ↦ rw e (without-IsSafe i cs h.1)
    | inr e ↦ rw e (h.0, without-IsSafe i cs h.1)
  ]

  remove_channel-Safe : (i : ℕ) (s : Supply fl) → Safe s → Safe (remove_channel fl i s)
  unfolding remove_channel
  remove_channel-Safe i s h = without-IsSafe i s.channels h

  step-Safe : (e : Event fl) (s : Supply fl) → Safe s → Safe (step fl e s)
  step-Safe (receives line gauss) s h = (process_scpi_command_lem fl gauss line s h).0
  step-Safe (sets_load i p v) s h = set_load-Safe i p v s h
  step-Safe (sets_limit i b v) s h = set_limit-Safe i b v s h
  step-Safe adds_channel s h = add_channel-Safe s h
  step-Safe (removes_channel i) s h = remove_channel-Safe i s h

  run_from : (es : List (Event fl)) (s : Supply fl) → Safe s → Safe (run fl es s)
  unfolding run
  run_from [] s h = h
  run_from (e ∷ es) s h = run_from es (step fl e s) (step-Safe e s h)

  -- After any sequence of lines from clients and actions of the panel, every channel of a supply
  -- that started with some number of channels is safe: a channel whose protection is latched has its
  -- output off, a tripped channel is latched, the setpoints are within the protection levels, a
  -- channel that is off has nothing at its terminals, and no enabled protection level is exceeded by
  -- a channel that is on.
  pub run-IsSafe : (n : ℕ) (es : List (Event fl)) → Safe (run fl es (new_supply fl n))
  run-IsSafe n es = run_from es (new_supply fl n) (new_supply-IsSafe fl n)
