-- ===== src/Psu/Sim/Commands/Readback.antt =====
-- What the queries of the simulated power supply answer after a setting.
use instro.Psu.Sim.{
  header_suffix_out_of_range, push_error, Channel, Supply, find_channel, change_channel,
}
use instro.Prelude.{
  ℕ, ◌≡◌, refl, sym, ap, ◌∙◌, inl, inr, true, false, Option, none, some, List, [], ◌∷◌, arith, ◌==◌,
  Bool-cases, Result, ok,
}
use instro.Float.{Floats}
use instro.Psu.Sim.Physics.{
  update, update_all, update_channel, update_voltage_source, regulate_voltage, regulate_current,
  protect,
}
use instro.Psu.Sim.Handlers.{
  value, set_voltage, query_voltage, parse_ranged_value, require_channel, assign,
}
use instro.Psu.Sim.Text.{Text}

module _ (fl : Floats) where
  open fl use {F, lit, lt}

  unwrap : {a b : Channel fl} → some a ≡ some b → a ≡ b
  unwrap e = cc

  test :
      (c d : Channel fl) (i : ℕ)
      → c.channel_id ≡ d.channel_id
      → (c.channel_id == i) ≡ (d.channel_id == i)
  test c d i e = ap (λ x. x == i) e

  head :
      (i : ℕ) (d c : Channel fl) (cs : List (Channel fl))
      → (d.channel_id == i) ≡ true
      → find_channel fl i (d ∷ cs) ≡ some c
      → d ≡ c
  unfolding find_channel
  head i d c cs y e = unwrap (sym (rw y refl) ∙ e)

  -- an assignment that keeps the id is found again
  pub find-change_channel :
      (i : ℕ) (f : Channel fl → Channel fl) (cs : List (Channel fl)) (c : Channel fl)
      → ((d : Channel fl) → (f d).channel_id ≡ d.channel_id)
      → find_channel fl i cs ≡ some c
      → find_channel fl i (change_channel fl i f cs) ≡ some (f c)
  unfolding find_channel change_channel
  find-change_channel i f [] c k e = absurd (cc)
  find-change_channel i f (d ∷ cs) c k e = elim (Bool-cases (d.channel_id == i)) [
    | inl y ↦ rw (y, test (f d) d i (k d) ∙ y) (ap (λ x. some (f x)) (head i d c cs y e))
    | inr n ↦ rw (n, n) (find-change_channel i f cs c k (sym (rw n refl) ∙ e))
  ]

  -- what `_update` leaves of a channel alone
  pub record Kept (c d : Channel fl) : Type 0 where
    pub id : d.channel_id ≡ c.channel_id
    pub voltage : d.voltage_setpoint ≡ c.voltage_setpoint
    pub current : d.current_limit ≡ c.current_limit

  update_channel-Kept : (c : Channel fl) → Kept c (update_channel fl c).0
  unfolding update_channel protect update_voltage_source regulate_voltage regulate_current
  update_channel-Kept c = record {
    id = ground arith;
    voltage = ground arith;
    current = ground arith;
  }

  find-update_all :
      (i : ℕ) (cs : List (Channel fl)) (c : Channel fl)
      → find_channel fl i cs ≡ some c
      → find_channel fl i (update_all fl cs).0 ≡ some (update_channel fl c).0
  unfolding find_channel update_all
  find-update_all i [] c e = absurd (cc)
  find-update_all i (d ∷ cs) c e = elim (Bool-cases (d.channel_id == i)) [
    | inl y ↦
        rw (test (update_channel fl d).0 d i (update_channel-Kept d).id ∙ y)
          (ap (λ x. some (update_channel fl x).0) (head i d c cs y e))
    | inr n ↦
        rw (test (update_channel fl d).0 d i (update_channel-Kept d).id ∙ n)
          (find-update_all i cs c (sym (rw n refl) ∙ e))
  ]

  -- the channel that is found after an assignment
  pub find-assign :
      (i : ℕ) (f : Channel fl → Channel fl) (s : Supply fl) (c : Channel fl)
      → ((d : Channel fl) → (f d).channel_id ≡ d.channel_id)
      → find_channel fl i s.channels ≡ some c
      → (d : Channel fl) × (find_channel fl i
            (update fl (record s { channels = change_channel fl i f s.channels })).channels
          ≡ some d)
        × Kept (f c) d
  unfolding update
  find-assign i f s c k e = (
    (update_channel fl (f c)).0,
    find-update_all i _ _ (find-change_channel i f s.channels c k e),
    update_channel-Kept (f c),
  )

  module _ (gauss : F → F → F) where
    found-require :
        (i : ℕ) (s : Supply fl) (c : Channel fl)
        → find_channel fl i s.channels ≡ some c
        → require_channel fl gauss i s ≡ (ok (some c), s)
    unfolding require_channel
    found-require i s c e =
        ap
          (λ o. elim o as (λ _. Result (Option (Channel fl)) × Supply fl) [
            | none ↦ (ok none, push_error fl header_suffix_out_of_range s)
            | some d ↦ (ok (some d), s)
          ])
          e

    -- A voltage that is in range and does not exceed the protection level is what the channel's
    -- query answers next, whatever the protections do on the update.
    pub query_voltage-set_voltage :
        (i : ℕ) (token : Text) (v : F) (s : Supply fl) (c : Channel fl)
        → find_channel fl i s.channels ≡ some c
        → parse_ranged_value fl gauss token (lit 0) c.voltage_max ≡ ok (some v)
        → lt c.overvoltage_protection_level v ≡ false
        → (query_voltage fl gauss i [] (set_voltage fl gauss i (token ∷ []) s).1).0 ≡ ok (value v)
    unfolding set_voltage query_voltage assign
    query_voltage-set_voltage i token v s c e p n =
        let f : Channel fl → Channel fl = λ x. record x { voltage_setpoint = v } in
        let after = update fl (record s { channels = change_channel fl i f s.channels }) in
        let (d, found, kept) = find-assign i f s c (λ x. refl) e in
        rw (found-require i s c e, p, n, found-require i after d found)
          (ap (λ x. ok (value x)) kept.voltage)
