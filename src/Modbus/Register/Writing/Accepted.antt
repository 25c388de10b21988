-- ===== src/Modbus/Register/Writing/Accepted.antt =====
-- What the configuration accepts in a value map passes the checks of the device when it is written.
use text.Mathlib.Text.{◌==◌}
use instro.Prelude.{
  ◌>>=◌, sym, ◌∙◌, ◌≡◌, refl, subst, ◌⊎◌, inl, inr, true, false, Option, none, some, List, [], ◌∷◌,
  arith, Bool-cases, Option-cases, ok, Result-cases, String,
}
use instro.Prelude.Int.{ℤ}
use instro.Prelude.Dict.{Dict, get}
use instro.Float.{Floats, Number}
use instro.Modbus.Register.Writing.Encodes.{Encodes, encode_rounded, encode_bool}
use instro.Modbus.Register.Writing.{
  is_float_type, in_range, is_read_only, is_bool_number, int_of, whole_or_type_error,
  unscaled_range, validate_write_value, raw_in_range, validate_raw_value_range, raw_for_write,
}
use instro.Modbus.{
  float32, float64, input, coil, discrete, RegisterType, holding, DataType, bool, integer_range,
}
use instro.Modbus.Codec.{round_number}
use instro.Modbus.Register.{
  is_bit_type, LinearScale, RegisterDef, is_bool_type, is_coil, is_holding, below, above, raw_of,
  to_raw, is_fractional, check_integer, check_entry, check_entries,
}
use instro.Modbus.Register.Numbers.{is_zero_one}
use instro.Modbus.Register.Validation.{validate_register, check_map, coerce_type}

module _ (fl : Floats) where
  -- what the device asks of a value for an integer register holds
  record Accepts (s : Option (LinearScale fl)) (r : ℤ × ℤ) (v : Number fl) : Type 0 where
    whole : whole_or_type_error fl s v ≡ ok tt
    ranged : unscaled_range fl s r v ≡ ok tt
    raw : Number fl
    written : (raw_of fl s v >>= λ x. raw_in_range fl s (some r) x) ≡ ok raw
    rounded_to : ℤ
    rounds : round_number fl raw ≡ ok rounded_to
    fits : in_range fl r rounded_to ≡ ok tt

  accept_plain :
      (r : ℤ × ℤ) (v : Number fl)
      → check_integer fl none (some r) v ≡ ok tt
      → is_bool_number fl v ≡ false
      → Accepts none r v
  unfolding raw_of int_of round_number
  accept_plain (lo, hi) (Number.int z) h b = record {
    whole = refl;
    ranged = h;
    raw = Number.int z;
    written = rw h refl;
    rounded_to = z;
    rounds = refl;
    fits = h;
  }
  accept_plain (lo, hi) (Number.bool c) h b = absurd (cc)
  accept_plain (lo, hi) (Number.float x) h b = elim (Result-cases (fl.trunc x)) [
    | inr (e, t) ↦ absurd (ground (arith, t, h))
    | inl (z, t) ↦ elim (Bool-cases (fl.eq_if z x)) [
      | inr e ↦ absurd (ground (arith, t, e, h))
      | inl e ↦
          let u = fl.round_whole x z e in
          record {
            whole = ground (arith, t, e);
            ranged = ground (arith, t, e, u, h);
            raw = Number.float x;
            written = ground (arith, t, e, u, h);
            rounded_to = z;
            rounds = u;
            fits = ground (arith, t, e, u, h);
          }
    ]
  ]

  accept_scaled :
      (s : LinearScale fl) (r : ℤ × ℤ) (v : Number fl)
      → check_integer fl (some s) (some r) v ≡ ok tt
      → Accepts (some s) r v
  unfolding raw_of int_of round_number
  accept_scaled s (lo, hi) v h = elim (Result-cases (to_raw fl s v)) [
    | inr (e, t) ↦ absurd (ground (arith, t, h))
    | inl (y, t) ↦ elim (Result-cases (fl.round y)) [
      | inr (e, u) ↦ absurd (ground (arith, t, u, h))
      | inl (z, u) ↦ elim (Result-cases (is_fractional fl y z)) [
        | inr (e, w) ↦ absurd (ground (arith, t, u, w, h))
        | inl (f, w) ↦ record {
          whole = refl;
          ranged = refl;
          raw = Number.int z;
          written = ground (arith, t, u, w, h);
          rounded_to = z;
          rounds = refl;
          fits = ground (arith, t, u, w, h);
        }
      ]
    ]
  ]

  accept_integer :
      (s : Option (LinearScale fl)) (r : ℤ × ℤ) (v : Number fl)
      → check_integer fl s (some r) v ≡ ok tt
      → is_bool_number fl v ≡ false
      → Accepts s r v
  accept_integer none r v h b = accept_plain r v h b
  accept_integer (some s) r v h b = accept_scaled s r v h

  -- unless the register holds a float, the raw value is encoded, whatever the swaps
  abbrev pub Fits : DataType → Number fl → Type 0
  Fits t x = (is_float_type t ≡ true) ⊎ Encodes fl t x

  -- the scaling and the checks after it return a raw value, which is encoded
  abbrev Raw : RegisterDef fl → Number fl → Type 0
  Raw d v =
      (x : Number fl) × ((raw_of fl d.scale v >>= λ x.
      raw_in_range fl d.scale (integer_range d.data_type) x)
        ≡ ok x)
      × Fits d.data_type x

  no_range-Fits : (t : DataType) (x : Number fl) → integer_range t ≡ none → Fits t x
  no_range-Fits float32 x e = inl refl
  no_range-Fits float64 x e = inl refl
  no_range-Fits bool x e = inr (encode_bool fl x)
  no_range-Fits _ x e = absurd (cc)

  -- a value that passes both checks of the device is written
  raw_value :
      (d : RegisterDef fl) (v : Number fl)
      → validate_write_value fl v d ≡ ok tt
      → Raw d v
      → (x : Number fl) × (raw_for_write fl d v ≡ ok x) × Fits d.data_type x
  unfolding raw_for_write validate_raw_value_range
  raw_value d v e (x, q, f) = (x, rw e q, f)

  holding_writes :
      (t : RegisterType)
      → is_holding t ≡ true
      → (is_read_only t ≡ false) × (is_coil t ≡ false) × (is_bit_type t ≡ false)
  holding_writes holding h = (refl, refl, refl)
  holding_writes input h = absurd (cc)
  holding_writes coil h = absurd (cc)
  holding_writes discrete h = absurd (cc)

  accept_value :
      (d : RegisterDef fl) (seen : List (Number fl)) (v : Number fl)
      → check_entry fl d seen v ≡ ok tt
      → is_holding d.register_type ≡ true
      → (is_bool_number fl v ≡ false) ⊎ (is_bool_type d.data_type ≡ true)
      → validate_write_value fl v d ≡ ok tt
  unfolding check_entry validate_write_value
  accept_value d seen v h hold b =
      let lo : below fl v d.write_min ≡ false = ground (arith, h) in
      let hi : above fl v d.write_max ≡ false = ground (arith, h) in
      let (ro, co, bit) = holding_writes d.register_type hold in
      elim (Bool-cases (is_bool_type d.data_type)) [
        | inl t ↦
            (let z : is_zero_one fl v ≡ true = ground (arith, t, h) in rw (ro, lo, hi, t, z) refl)
        | inr f ↦
            let nb : is_bool_number fl v ≡ false = ground (arith, b, f) in
            elim (Option-cases (integer_range d.data_type)) [
              | inl e ↦ rw (ro, lo, hi, f, co, e, nb) (ground arith)
              | inr (r, e) ↦
                  let c : check_integer fl d.scale (some r) v ≡ ok tt =
                    ground (arith, f, hold, e, h) in
                  let a = accept_integer d.scale r v c nb in
                  rw (ro, lo, hi, f, co, e, nb, a.whole) a.ranged
            ]
      ]

  integer_not_bool : (t : DataType) (r : ℤ × ℤ) → integer_range t ≡ some r → is_bool_type t ≡ false
  integer_not_bool bool r e = absurd (cc)
  integer_not_bool _ r e = refl

  accept_raw :
      (d : RegisterDef fl) (seen : List (Number fl)) (v : Number fl)
      → check_entry fl d seen v ≡ ok tt
      → is_holding d.register_type ≡ true
      → (is_bool_number fl v ≡ false) ⊎ (is_bool_type d.data_type ≡ true)
      → (d.scale ≡ none) ⊎ ((r : ℤ × ℤ) × (integer_range d.data_type ≡ some r))
      → Raw d v
  unfolding check_entry
  accept_raw d seen v h hold b i = elim (Option-cases (integer_range d.data_type)) [
    | inl e ↦
        let s : d.scale ≡ none = ground (arith, i, e) in
        (v, rw (s, e) (unfold raw_of in refl), no_range-Fits d.data_type v e)
    | inr (r, e) ↦
        let f = integer_not_bool d.data_type r e in
        let nb : is_bool_number fl v ≡ false = ground (arith, b, f) in
        let c : check_integer fl d.scale (some r) v ≡ ok tt = ground (arith, f, hold, e, h) in
        let a = accept_integer d.scale r v c nb in
        (
          a.raw,
          rw e a.written,
          inr (encode_rounded fl d.data_type r a.raw a.rounded_to e a.fits a.rounds),
        )
  ]

  entry_checked :
      (d : RegisterDef fl) (seen : List (Number fl)) (m : Dict (Number fl)) (label : String)
      (v : Number fl)
      → check_entries fl d seen m ≡ ok tt
      → get m label ≡ some v
      → (earlier : List (Number fl)) × (check_entry fl d earlier v ≡ ok tt)
  unfolding check_entries get
  entry_checked d seen [] label v h g = absurd (cc)
  entry_checked d seen ((k, w) ∷ m) label v h g =
      let here : check_entry fl d seen w ≡ ok tt = ground (arith, h) in
      let rest : check_entries fl d (w ∷ seen) m ≡ ok tt = ground (arith, h) in
      elim (Bool-cases (k == label)) [
        | inl e ↦ (seen, ground (arith, e, g, here))
        | inr e ↦ entry_checked d (w ∷ seen) m label v rest (ground (arith, e, g))
      ]

  unwrap : {a b : RegisterDef fl} → ok a ≡ ok b → a ≡ b
  unwrap e = cc

  accepted_map :
      (d r : RegisterDef fl) (m : Dict (Number fl))
      → validate_register fl d ≡ ok r
      → d.write_value_map ≡ some m
      → (r ≡ d) × (is_holding d.register_type ≡ true) × (check_entries fl d [] m ≡ ok tt)
  unfolding validate_register
  accepted_map d r m h e =
      let hold : is_holding d.register_type ≡ true = ground (arith, h, e) in
      let c : check_map fl d d.write_value_map ≡ ok tt = ground (arith, h) in
      let q : coerce_type fl d ≡ ok r = ground (arith, h) in
      let (ro, co, bit) = holding_writes d.register_type hold in
      (
        unwrap (sym q ∙ rw bit refl),
        hold,
        unfold check_map in subst (λ w. check_map fl d w ≡ ok tt) e c,
      )

  -- What an accepted configuration maps a label to passes the checks of the device: of a map entry,
  -- `write` makes a raw value without raising, and unless the data type is a float, that value is
  -- encoded without raising, for any swaps, into as many registers as the type spans. The entry is
  -- no bool unless the register is a bool, and the register is of an integer type or has no scale.
  -- For a float register nothing is claimed of the encoding.
  pub raw_for_write-validate_register :
      (d r : RegisterDef fl) (m : Dict (Number fl)) (label : String) (v : Number fl)
      → validate_register fl d ≡ ok r
      → d.write_value_map ≡ some m
      → get m label ≡ some v
      → (is_bool_number fl v ≡ false) ⊎ (is_bool_type d.data_type ≡ true)
      → (d.scale ≡ none) ⊎ ((z : ℤ × ℤ) × (integer_range d.data_type ≡ some z))
      → (x : Number fl) × (raw_for_write fl r v ≡ ok x) × Fits r.data_type x
  raw_for_write-validate_register d r m label v h e g b i =
      let (same, hold, c) = accepted_map d r m h e in
      let (seen, k) = entry_checked d [] m label v c g in
      subst (λ r. (x : Number fl) × (raw_for_write fl r v ≡ ok x) × Fits r.data_type x) (sym same)
        (raw_value d v (accept_value d seen v k hold b) (accept_raw d seen v k hold b i))
