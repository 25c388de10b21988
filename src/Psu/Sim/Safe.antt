-- ===== src/Psu/Sim/Safe.antt =====
-- What holds of every channel of the simulated power supply between two commands.
use instro.Prelude.{
  ℕ, zero, suc, ◌≡◌, refl, sym, subst, ◌∙◌, ◌⊎◌, inl, inr, Bool, true, false, not, ◌&&◌, ◌||◌, some,
  List, [], ◌∷◌, arith, ◌==◌, Bool-cases,
}
use instro.Float.{Floats}
use instro.Psu.Sim.{
  off, Channel, Load, Supply, new_channel, channels_from, new_supply, find_channel, change_channel,
}
use instro.Psu.Sim.Physics.{
  update_voltage_source, regulate_voltage, regulate_current, demand, sense_voltage, shut, trip,
  protect, update_channel, update_all, update,
}

and_false : (a b c : Bool) → (b && c) ≡ false → (a && b && c) ≡ false
and_false a b c h = ground arith

module _ (fl : Floats) where
  open fl use {F, lit, lt, abs}

  -- A latched channel is off, a channel that has tripped is latched, and the setpoints are within
  -- the protection levels, whose largest values are not negative.
  pub record Sound (c : Channel fl) : Type 0 where
    pub latch : (c.protection_latched && c.output_enabled) ≡ false
    pub tripped :
        ((c.overvoltage_tripped || c.overcurrent_tripped) && not c.protection_latched) ≡ false
    pub voltage : lt c.overvoltage_protection_level c.voltage_setpoint ≡ false
    pub current : lt c.overcurrent_protection_level c.current_limit ≡ false
    pub voltage_limit : lt c.voltage_max (lit 0) ≡ false
    pub current_limit : lt c.current_max (lit 0) ≡ false

  abbrev pub IsQuiet : Channel fl → Type 0
  IsQuiet c =
      (c.mode ≡ off) × (c.terminal_voltage ≡ lit 0) × (c.load_voltage ≡ lit 0) × (c.current ≡ lit 0)

  -- Without output there is nothing at the terminals, and with output no protection that is enabled
  -- is exceeded.
  pub record Settled (c : Channel fl) : Type 0 where
    pub quiet : (c.output_enabled ≡ true) ⊎ IsQuiet c
    pub voltage :
        (c.output_enabled
          && c.overvoltage_protection_enabled
          && lt c.overvoltage_protection_level (sense_voltage fl c))
        ≡ false
    pub current :
        (c.output_enabled
          && c.overcurrent_protection_enabled
          && lt c.overcurrent_protection_level (abs c.current))
        ≡ false

  pub record IsSafe (c : Channel fl) : Type 0 where
    pub sound : Sound c
    pub settled : Settled c

  abbrev pub All : (Channel fl → Type 0) → List (Channel fl) → Type 0
  All P [] = Unit {0}
  All P (c ∷ cs) = P c × All P cs

  unwrap : {a b : Channel fl} → some a ≡ some b → a ≡ b
  unwrap e = cc

  module _ (P : Channel fl → Type 0) where
    pub found-All :
        (i : ℕ) (cs : List (Channel fl)) (c : Channel fl)
        → find_channel fl i cs ≡ some c
        → All P cs
        → P c
    unfolding find_channel
    found-All i [] c e h = absurd (cc)
    found-All i (d ∷ cs) c e h = elim (Bool-cases (d.channel_id == i)) [
      | inl y ↦ subst P (unwrap (sym (rw y refl) ∙ e)) h.0
      | inr n ↦ found-All i cs c (sym (rw n refl) ∙ e) h.1
    ]

    -- an assignment to the channel that was found keeps what it keeps of that channel
    pub All-change_channel :
        (i : ℕ) (f : Channel fl → Channel fl) (cs : List (Channel fl)) (c : Channel fl)
        → find_channel fl i cs ≡ some c
        → P (f c)
        → All P cs
        → All P (change_channel fl i f cs)
    unfolding find_channel change_channel
    All-change_channel i f [] c e k h = absurd (cc)
    All-change_channel i f (d ∷ cs) c e k h = elim (Bool-cases (d.channel_id == i)) [
      | inl y ↦ rw y (subst (λ x. P (f x)) (sym (unwrap (sym (rw y refl) ∙ e))) k, h.1)
      | inr n ↦ rw n (h.0, All-change_channel i f cs c (sym (rw n refl) ∙ e) k h.1)
    ]

  source-Sound : (c : Channel fl) → Sound c → Sound (update_voltage_source fl c)
  unfolding update_voltage_source regulate_voltage regulate_current
  source-Sound c h = elim (Bool-cases (fl.le (demand fl c) c.current_limit)) [
    | inl e ↦ rw e (record {
      latch = h.latch;
      tripped = h.tripped;
      voltage = h.voltage;
      current = h.current;
      voltage_limit = h.voltage_limit;
      current_limit = h.current_limit;
    })
    | inr e ↦ rw e (record {
      latch = h.latch;
      tripped = h.tripped;
      voltage = h.voltage;
      current = h.current;
      voltage_limit = h.voltage_limit;
      current_limit = h.current_limit;
    })
  ]

  protect-IsSafe : (c : Channel fl) → Sound c → c.output_enabled ≡ true → IsSafe (protect fl c).0
  unfolding protect
  protect-IsSafe c h e =
      elim (Bool-cases (
        c.overvoltage_protection_enabled
        && lt c.overvoltage_protection_level (sense_voltage fl c))) [
          | inl v ↦ rw v (tripped_IsSafe true c.overcurrent_tripped)
          | inr v ↦
              elim (Bool-cases (
                c.overcurrent_protection_enabled
                && lt c.overcurrent_protection_level (abs c.current))) [
                  | inl i ↦ rw (v, i) (tripped_IsSafe c.overvoltage_tripped true)
                  | inr i ↦
                      rw (v, i)
                        (record {
                          sound = h;
                          settled = record {
                            quiet = inl e;
                            voltage = and_false c.output_enabled _ _ v;
                            current = and_false c.output_enabled _ _ i;
                          };
                        })
                ]
        ]
    where
      tripped_IsSafe :
          (ov oc : Bool)
          → IsSafe (record (trip fl c) { overvoltage_tripped = ov; overcurrent_tripped = oc })
      tripped_IsSafe ov oc = record {
        sound = record {
          latch = refl;
          tripped = ground arith;
          voltage = h.voltage;
          current = h.current;
          voltage_limit = h.voltage_limit;
          current_limit = h.current_limit;
        };
        settled = record { quiet = inr (refl, refl, refl, refl); voltage = refl; current = refl };
      }

  source_output : (c : Channel fl) → (update_voltage_source fl c).output_enabled ≡ c.output_enabled
  unfolding update_voltage_source regulate_voltage regulate_current
  source_output c = ground arith

  shut-IsSafe :
      (c : Channel fl)
      → Sound c
      → (not c.output_enabled || c.protection_latched) ≡ true
      → IsSafe (shut fl c)
  shut-IsSafe c h e = record {
    sound = record {
      latch = h.latch;
      tripped = h.tripped;
      voltage = h.voltage;
      current = h.current;
      voltage_limit = h.voltage_limit;
      current_limit = h.current_limit;
    };
    settled = record {
      quiet = inr (refl, refl, refl, refl);
      voltage = ground (arith, e, h.latch);
      current = ground (arith, e, h.latch);
    };
  }

  update_channel-IsSafe : (c : Channel fl) → Sound c → IsSafe (update_channel fl c).0
  unfolding update_channel
  update_channel-IsSafe c h = elim (Bool-cases (not c.output_enabled || c.protection_latched)) [
    | inl e ↦ rw e (shut-IsSafe c h e)
    | inr e ↦ rw e (
        protect-IsSafe (update_voltage_source fl c) (source-Sound c h)
          (source_output c ∙ ground (arith, e)))
  ]

  pub update_all-IsSafe : (cs : List (Channel fl)) → All Sound cs → All IsSafe (update_all fl cs).0
  unfolding update_all
  update_all-IsSafe [] h = tt
  update_all-IsSafe (c ∷ cs) h = (update_channel-IsSafe c h.0, update_all-IsSafe cs h.1)

  pub Safe-Sound : (cs : List (Channel fl)) → All IsSafe cs → All Sound cs
  Safe-Sound [] h = tt
  Safe-Sound (c ∷ cs) h = (h.0.sound, Safe-Sound cs h.1)

  pub new_channel-IsSafe : (i : ℕ) (l : Load fl) → IsSafe (new_channel fl i l)
  unfolding new_channel
  new_channel-IsSafe i l = record {
    sound = record {
      latch = refl;
      tripped = refl;
      voltage = fl.lt-lit 0 60 (omega arith);
      current = fl.lt-lit 0 10 (omega arith);
      voltage_limit = fl.lt-lit 0 60 (omega arith);
      current_limit = fl.lt-lit 0 10 (omega arith);
    };
    settled = record { quiet = inr (refl, refl, refl, refl); voltage = refl; current = refl };
  }

  channels_from-IsSafe : (k n : ℕ) → All IsSafe (channels_from fl k n)
  unfolding channels_from
  channels_from-IsSafe k zero = tt
  channels_from-IsSafe k (suc n) = (new_channel-IsSafe k _, channels_from-IsSafe (suc k) n)

  pub new_supply-IsSafe : (n : ℕ) → All IsSafe (new_supply fl n).channels
  unfolding new_supply
  new_supply-IsSafe n = channels_from-IsSafe 1 n

  pub update-IsSafe : (s : Supply fl) → All Sound s.channels → All IsSafe (update fl s).channels
  unfolding update
  update-IsSafe s h = update_all-IsSafe s.channels h
