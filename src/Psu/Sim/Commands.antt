-- ===== src/Psu/Sim/Commands.antt =====
-- What a handler of the simulated power supply is made of keeps the channels safe.
use instro.Prelude.{
  ℕ, zero, suc, ◌+◌, ◌-◌, ◌*◌, ◌/◌, ◌%◌, ◌^◌, ◌≤◌, ◌<◌, min, String, ◌≡◌, refl, sym, ap, ap₂, subst,
  fun_ext, ◌∙◌, ◌≢◌, ◌↔◌, ◌⊎◌, inl, inr, Bool, true, false, not, ◌&&◌, ◌||◌, Option, none, some,
  List, [], ◌∷◌, ◌++◌, map, append-nil, append_assoc, arith, eq_iff, eq_refl, dec_lt, ℕ_discrete,
  ltb, leb, ◌==◌, if◌then◌else◌, Bool-cases, Option-cases, length, get_elem?, set, take, drop,
  replicate, last, length-append, length-take, length-drop, length-last, last-min, drop_all,
  take_all, take-append-drop, last_all, last-append_last, Result, ok, err, guard, Error,
  Result-cases, map_ok,
}
pub mod Setters
pub mod Readback
use instro.Float.{Floats}
use instro.Prelude.Exec.{Exec, pure, lift, resume, ◌>>=◌}
use instro.Psu.Sim.Text.{Text}
use instro.Psu.Sim.{
  ScpiError, header_suffix_out_of_range, data_out_of_range, illegal_parameter_value, Channel,
  Supply, find_channel, push_error,
}
use instro.Psu.Sim.Physics.{update}
use instro.Psu.Sim.Safe.{
  Sound, IsSafe, All, found-All, All-change_channel, update-IsSafe, Safe-Sound,
}
use instro.Psu.Sim.Handlers.{
  Response, Handler, nothing, require_channel, on_channel, refuse, on_arg, on_parsed,
  parse_ranged_value, assign, set_voltage, set_current, set_ocp_level, set_ocp_state, set_ovp_level,
  set_ovp_state, unlatched, set_output, clear_protection_latch, set_remote_sense,
}

module _ (fl : Floats) (gauss : fl.F → fl.F → fl.F) where
  abbrev pub Safe : Supply fl → Type 0
  Safe s = All fl (IsSafe fl) s.channels

  -- returned, or raised a ValueError
  abbrev pub Fine : {A : Type 0} → Result A → Type 0
  Fine (ok a) = Unit {0}
  Fine (err e) = e ≡ Error.value_error

  -- the method leaves safe channels, and if it raises, then a ValueError
  abbrev pub Ends : Exec (Supply fl) (Response fl gauss) → Supply fl → Type 0
  Ends m s = Safe (m s).1 × Fine (m s).0

  abbrev pub KeepsSafe : Handler fl gauss → Type 0
  KeepsSafe h = (i : ℕ) (args : List Text) (s : Supply fl) → Safe s → Ends (h i args) s

  require_channel-eq :
      (i : ℕ) (s : Supply fl) (found : Option (Channel fl))
      → find_channel fl i s.channels ≡ found
      → require_channel fl gauss i s ≡ elim found [
        | none ↦ (ok none, push_error fl header_suffix_out_of_range s)
        | some c ↦ (ok (some c), s)
      ]
  unfolding require_channel
  require_channel-eq i s found e =
      ap
        (λ (f : Option (Channel fl)). elim f as (λ _. Result (Option (Channel fl)) × Supply fl) [
          | none ↦ (ok none, push_error fl header_suffix_out_of_range s)
          | some c ↦ (ok (some c), s)
        ])
        e

  pub on_channel-Ends :
      (i : ℕ) (missing : Response fl gauss)
      (body : Channel fl → Exec (Supply fl) (Response fl gauss)) (s : Supply fl)
      → Safe s
      → ((c : Channel fl) → find_channel fl i s.channels ≡ some c → Ends (body c) s)
      → Ends (on_channel fl gauss i missing body) s
  unfolding push_error
  on_channel-Ends i missing body s h k = elim (Option-cases (find_channel fl i s.channels)) [
    | inl e ↦ subst after (sym (require_channel-eq i s none e)) (h, tt)
    | inr (c, e) ↦ subst after (sym (require_channel-eq i s (some c) e)) (k c e)
  ]
    where
      after : Result (Option (Channel fl)) × Supply fl → Type 0
      after r =
          let q = resume (λ found. elim found [ none ↦ pure missing | some c ↦ body c ]) r.0 r.1 in
          Safe q.1 × Fine q.0

  on_arg-Ends :
      (args : List Text) (body : Text → Exec (Supply fl) (Response fl gauss)) (s : Supply fl)
      → Safe s
      → ((a : Text) → Ends (body a) s)
      → Ends (on_arg fl gauss args body) s
  unfolding push_error
  on_arg-Ends [] body s h k = (h, tt)
  on_arg-Ends (a ∷ args) body s h k = k a

  on_parsed-Ends :
      {A : Type 0} (p : Option A) (e : ScpiError) (body : A → Exec (Supply fl) (Response fl gauss))
      (s : Supply fl)
      → Safe s
      → ((a : A) → Ends (body a) s)
      → Ends (on_parsed fl gauss p e body) s
  unfolding push_error
  on_parsed-Ends none e body s h k = (h, tt)
  on_parsed-Ends (some a) e body s h k = k a

  lift-Ends :
      {A : Type 0} (r : Result A) (body : A → Exec (Supply fl) (Response fl gauss)) (s : Supply fl)
      → Safe s
      → Fine r
      → ((a : A) → Ends (body a) s)
      → Ends (lift r >>= body) s
  lift-Ends (err e) body s h f k = (h, f)
  lift-Ends (ok a) body s h f k = k a

  Fine-raises :
      {A : Type 0} (r : Result A) → ((e : Error) → r ≡ err e → e ≡ Error.value_error) → Fine r
  Fine-raises (ok a) k = tt
  Fine-raises (err e) k = k e refl

  parse_ranged_value_raises :
      (t : Text) (lo hi : fl.F) (e : Error)
      → parse_ranged_value fl gauss t lo hi ≡ err e
      → e ≡ Error.value_error
  unfolding parse_ranged_value
  parse_ranged_value_raises t lo hi e h = ground (arith, fl.parse_raises t e, h)

  refuse-Ends : (e : ScpiError) (s : Supply fl) → Safe s → Ends (refuse fl gauss e) s
  unfolding push_error
  refuse-Ends e s h = (h, tt)

  if-Ends :
      (b : Bool) (m n : Exec (Supply fl) (Response fl gauss)) (s : Supply fl)
      → (b ≡ true → Ends m s)
      → (b ≡ false → Ends n s)
      → Ends (if b then m else n) s
  if-Ends true m n s k l = k refl
  if-Ends false m n s k l = l refl

  pub assign-Ends :
      (i : ℕ) (f : Channel fl → Channel fl) (c : Channel fl) (s : Supply fl)
      → find_channel fl i s.channels ≡ some c
      → Sound fl (f c)
      → Safe s
      → Ends (assign fl gauss i f) s
  unfolding assign
  assign-Ends i f c s e k h = (
    update-IsSafe fl _
        (All-change_channel fl (Sound fl) i f s.channels c e k (Safe-Sound fl s.channels h)),
    tt,
  )

  pub IsSafe-Sound :
      (i : ℕ) (c : Channel fl) (s : Supply fl)
      → find_channel fl i s.channels ≡ some c
      → Safe s
      → Sound fl c
  IsSafe-Sound i c s e h = (found-All fl (IsSafe fl) i s.channels c e h).sound

  -- a handler of a setpoint or a level: parse, refuse or assign
  pub ranged-Ends :
      (i : ℕ) (args : List Text) (s : Supply fl) (hi : Channel fl → fl.F) (e : ScpiError)
      (conflict : Channel fl → fl.F → Bool) (f : fl.F → Channel fl → Channel fl)
      → ((c : Channel fl) (v : fl.F) → conflict c v ≡ false → Sound fl c → Sound fl (f v c))
      → Safe s
      → Ends
          (on_channel fl gauss i nothing (λ c. on_arg fl gauss args (λ a.
            lift (parse_ranged_value fl gauss a (fl.lit 0) (hi c)) >>= λ parsed.
            on_parsed fl gauss parsed data_out_of_range
              (λ v. if conflict c v then refuse fl gauss e else assign fl gauss i (f v)))))
          s
  ranged-Ends i args s hi e conflict f keep h = on_channel-Ends i nothing _ s h (λ c found.
      on_arg-Ends args _ s h (λ a.
        lift-Ends (parse_ranged_value fl gauss a (fl.lit 0) (hi c)) _ s h
          (Fine-raises _ (parse_ranged_value_raises a (fl.lit 0) (hi c)))
          (λ p. on_parsed-Ends p data_out_of_range _ s h (λ v.
            if-Ends (conflict c v) _ _ s (λ x. refuse-Ends e s h)
              (λ x. assign-Ends i (f v) c s found (keep c v x (IsSafe-Sound i c s found h)) h)))))

  -- a handler of a switch
  pub switch-Ends :
      (i : ℕ) (args : List Text) (s : Supply fl) (parse : Text → Option Bool)
      (f : Bool → Channel fl → Channel fl)
      → ((c : Channel fl) (b : Bool) → Sound fl c → Sound fl (f b c))
      → Safe s
      → Ends
          (on_channel fl gauss i nothing (λ c. on_arg fl gauss args (λ a.
            on_parsed fl gauss (parse a) illegal_parameter_value (λ b. assign fl gauss i (f b)))))
          s
  switch-Ends i args s parse f keep h = on_channel-Ends i nothing _ s h (λ c found.
      on_arg-Ends args _ s h (λ a.
        on_parsed-Ends (parse a) illegal_parameter_value _ s h
          (λ b. assign-Ends i (f b) c s found (keep c b (IsSafe-Sound i c s found h)) h)))

  pub query-Ends :
      (i : ℕ) (missing : Response fl gauss) (answer : Channel fl → Response fl gauss)
      (s : Supply fl)
      → Safe s
      → Ends (on_channel fl gauss i missing (λ c. pure (answer c))) s
  query-Ends i missing answer s h = on_channel-Ends i missing _ s h (λ c found. (h, tt))

  pub updated : (s : Supply fl) → Safe s → Safe (update fl s)
  updated s h = update-IsSafe fl s (Safe-Sound fl s.channels h)
