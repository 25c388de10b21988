-- ===== src/Modbus/Register/Sound.antt =====
-- What a register definition that the validator returns can be relied on for.
use instro.Prelude.{
  ℕ, ◌≤◌, ◌≡◌, refl, sym, ap, subst, ◌∙◌, ◌⊎◌, inl, inr, true, false, not, ◌&&◌, Option, none, some,
  List, [], map, arith, Bool-cases, ok,
}
use instro.Float.{Floats}
use instro.Modbus.{
  holding, input, RegisterType, DataType, uint16, uint32, int32, uint64, int64, float32, float64,
  bool, register_count,
}
use instro.Modbus.Register.{
  RegisterDef, BitDef, is_short, is_long, is_bool_type, is_bit_type, is_given, is_uint16,
}
use instro.Modbus.Register.Validation.{
  end_address, has_duplicate, validate_register, check_bitmap, coerce_type, is_word_type,
}

abbrev pub bits_of : Option (List BitDef) → List ℕ
bits_of none = []
bits_of (some bs) = map (λ b. BitDef.bit_index b) bs

module _ (fl : Floats) where
  -- Its registers are in the address space, its swaps apply to its type, a bit register is a bool
  -- without a scale, and the bits of its bitmap are distinct and those of a 16-bit word.
  pub record IsSound (d : RegisterDef fl) : Type 0 where
    pub in_space : end_address d.starting_address d.data_type ≤ 65535
    pub words : (d.word_swap ≡ false) ⊎ (2 ≤ register_count d.data_type)
    pub longs : (d.long_swap ≡ false) ⊎ (register_count d.data_type ≡ 4)
    pub bits :
        (is_bit_type d.register_type ≡ false) ⊎ ((d.data_type ≡ bool) × (is_given d.scale ≡ false))
    pub bitmap : has_duplicate (bits_of d.bitmap) ≡ false
    pub bitmap_type :
        (is_given d.bitmap ≡ false)
        ⊎ ((d.data_type ≡ uint16) × (is_word_type d.register_type ≡ true))

  bool_type : (t : DataType) → is_bool_type t ≡ true → t ≡ bool
  bool_type bool e = refl
  bool_type _ e = absurd (cc)

  uint16_type : (t : DataType) → is_uint16 t ≡ true → t ≡ uint16
  uint16_type uint16 e = refl
  uint16_type _ e = absurd (cc)

  not_short : (t : DataType) → is_short t ≡ false → 2 ≤ register_count t
  unfolding register_count
  not_short uint32 e = omega arith
  not_short int32 e = omega arith
  not_short uint64 e = omega arith
  not_short int64 e = omega arith
  not_short float32 e = omega arith
  not_short float64 e = omega arith
  not_short _ e = absurd (cc)

  -- the bitmap is sound, if there is one
  bitmap_sound :
      (d : RegisterDef fl) (o : Option (List BitDef))
      → check_bitmap fl d o ≡ ok tt
      → (has_duplicate (bits_of o) ≡ false)
        × ((is_given o ≡ false) ⊎ ((d.data_type ≡ uint16) × (is_word_type d.register_type ≡ true)))
  unfolding check_bitmap
  bitmap_sound d none h = (refl, inl refl)
  bitmap_sound d (some bs) h =
      (ground (arith, h), inr (uint16_type d.data_type (ground (arith, h)), ground (arith, h)))

  unwrap : {a b : RegisterDef fl} → ok a ≡ ok b → a ≡ b
  unwrap e = cc

  word_not_bit : (t : RegisterType) → is_word_type t ≡ true → is_bit_type t ≡ false
  word_not_bit holding e = refl
  word_not_bit input e = refl
  word_not_bit _ e = absurd (cc)

  -- the definition as it was given, when its type needs no coercion
  as_given :
      (d : RegisterDef fl)
      → (is_bit_type d.register_type && is_given d.scale) ≡ false
      → (d.word_swap && is_short d.data_type) ≡ false
      → (d.long_swap && not (is_long d.data_type)) ≡ false
      → end_address d.starting_address d.data_type ≤ 65535
      → check_bitmap fl d d.bitmap ≡ ok tt
      → (is_bit_type d.register_type && not (is_bool_type d.data_type)) ≡ false
      → IsSound d
  as_given d a b c e m n =
      let (distinct, kind) = bitmap_sound d d.bitmap m in
      record {
        in_space = e;
        words = elim (Bool-cases d.word_swap) [
          | inl w ↦ inr (not_short d.data_type (ground (arith, b, w)))
          | inr w ↦ inl w
        ];
        longs = ground (arith, c);
        bits = elim (Bool-cases (is_bit_type d.register_type)) [
          | inl w ↦ inr (bool_type d.data_type (ground (arith, n, w)), ground (arith, a, w))
          | inr w ↦ inl w
        ];
        bitmap = distinct;
        bitmap_type = kind;
      }

  -- the coerced one, whose type was the default
  as_bool :
      (d : RegisterDef fl)
      → (is_bit_type d.register_type && is_given d.scale) ≡ false
      → (d.word_swap && is_short d.data_type) ≡ false
      → (d.long_swap && not (is_long d.data_type)) ≡ false
      → end_address d.starting_address d.data_type ≤ 65535
      → check_bitmap fl d d.bitmap ≡ ok tt
      → is_bit_type d.register_type ≡ true
      → d.data_type ≡ uint16
      → IsSound (record d { data_type = bool })
  unfolding register_count
  as_bool d a b c e m w t =
      let (distinct, kind) = bitmap_sound d d.bitmap m in
      let one : register_count d.data_type ≡ 1 = ap register_count t in
      record {
        in_space = omega (arith, e, one);
        words = inl (ground (arith, b, one));
        longs = inl (ground (arith, c, one));
        bits = inr (refl, ground (arith, a, w));
        bitmap = distinct;
        bitmap_type = elim kind [
          | inl k ↦ inl k
          | inr (u, k) ↦ absurd (let f = word_not_bit d.register_type k in cc)
        ];
      }

  -- Whatever register definition the validator returns is sound, where an omitted data type is the
  -- default.
  pub validate_register_lem :
      (d r : RegisterDef fl)
      → validate_register fl d ≡ ok r
      → (d.data_type_set ≡ true) ⊎ (d.data_type ≡ uint16)
      → IsSound r
  unfolding validate_register
  validate_register_lem d r h s =
      let a : (is_bit_type d.register_type && is_given d.scale) ≡ false = ground (arith, h) in
      let b : (d.word_swap && is_short d.data_type) ≡ false = ground (arith, h) in
      let c : (d.long_swap && not (is_long d.data_type)) ≡ false = ground (arith, h) in
      let e : end_address d.starting_address d.data_type ≤ 65535 = ground (arith, h) in
      let m : check_bitmap fl d d.bitmap ≡ ok tt = ground (arith, h) in
      let q : coerce_type fl d ≡ ok r = ground (arith, h) in
      elim (Bool-cases (is_bit_type d.register_type && not (is_bool_type d.data_type))) [
        | inr n ↦ subst IsSound (unwrap (sym (rw n refl) ∙ q)) (as_given d a b c e m n)
        | inl n ↦
            let bit : is_bit_type d.register_type ≡ true = ground (arith, n) in
            elim (Bool-cases d.data_type_set) [
              | inl t ↦ absurd (ground (arith, n, t, q))
              | inr t ↦
                  let u : d.data_type ≡ uint16 = ground (arith, s, t) in
                  subst IsSound (unwrap (sym (rw (n, t) refl) ∙ q)) (as_bool d a b c e m bit u)
            ]
      ]
