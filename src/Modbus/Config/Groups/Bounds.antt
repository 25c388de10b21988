-- ===== src/Modbus/Config/Groups/Bounds.antt =====
-- A read group fits one read: the bounds that `model_post_init` of instro/modbus/types.py ensures.
use instro.Prelude.{
  then-ok, ◌+◌, ◌≤◌, String, ◌≡◌, refl, sym, ap, subst, ◌∙◌, inl, inr, Option, none, some, List, [],
  ◌∷◌, map, arith, Bool-cases, last, ok,
}
use instro.Float.{Floats}
use instro.Prelude.Dict
use instro.Prelude.Dict.{Dict}
use instro.Prelude.Words.{same}
use instro.Modbus.{RegisterType}
use instro.Modbus.Register.{RegisterDef}
use instro.Modbus.Config.{sort, validate_no_register_overlap}
use instro.Modbus.Config.Disjoint.{validate_no_register_overlap_lem}
use instro.Modbus.Config.Groups.{
  check_group_types, collect, build_group_index, last_of, width, span, read_limit, check_span,
  check_spans, validate_config, validate_unique_register_names, validate_unique_bitmap_names,
}
use instro.Modbus.Config.Groups.Spans.{
  All, All-map, All-sort, last-All, Ordered, Ordered-sort, ends_inside,
}
use instro.Modbus.Config.Groups.Members.{
  of_group, extended, get-collect, OneType, check_group_types-OneType, Disjoint-of_group,
}

abbrev map_some : {A B : Type 0} → (A → B) → Option A → Option B
map_some f none = none
map_some f (some a) = some (f a)

module _ (fl : Floats) where
  get-sorted :
      (d : Dict (List (RegisterDef fl))) (g : String)
      → Dict.get (map (λ e. (e.0, sort fl e.1)) d) g ≡ map_some (sort fl) (Dict.get d g)
  unfolding Dict.get
  get-sorted [] g = refl
  get-sorted ((k, rs) ∷ d) g = elim (Bool-cases (same k g)) [
    | inl e ↦ rw e refl
    | inr e ↦ rw e (get-sorted d g)
  ]

  check_spans-get :
      (d : Dict (List (RegisterDef fl))) (g : String) (rs : List (RegisterDef fl))
      → check_spans fl d ≡ ok tt
      → Dict.get d g ≡ some rs
      → check_span fl rs ≡ ok tt
  unfolding check_spans Dict.get
  check_spans-get [] g rs h e = absurd (cc)
  check_spans-get ((k, xs) ∷ d) g rs h e =
      let (one, more) = then-ok (check_span fl xs) (check_spans fl d) tt h in
      elim (Bool-cases (same k g)) [
        | inl y ↦
            let same_list : xs ≡ rs = unwrap (sym (rw y refl) ∙ e) in
            subst (λ x. check_span fl x ≡ ok tt) same_list one
        | inr n ↦ check_spans-get d g rs more (sym (rw n refl) ∙ e)
      ]
    where
      unwrap : {a b : List (RegisterDef fl)} → some a ≡ some b → a ≡ b
      unwrap q = cc

  -- a group with members is what the index holds, sorted
  group_sorted :
      (rs xs : List (RegisterDef fl))
      → map_some (sort fl) (extended fl none rs) ≡ some xs
      → xs ≡ sort fl rs
  group_sorted [] xs h = absurd (cc)
  group_sorted (r ∷ rs) xs h = cc

  same_types :
      (rs : List (RegisterDef fl))
      → OneType fl rs
      → (t : RegisterType) × All fl (λ r. r.register_type ≡ t) rs
  same_types [] h = (RegisterType.holding, tt)
  same_types (r ∷ rs) h = (r.register_type, (refl, h))

  -- a member lies in the addresses of the read of its group
  abbrev pub IsRead : RegisterDef fl → RegisterDef fl → RegisterDef fl → Type 0
  IsRead first last r =
      (first.starting_address ≤ r.starting_address)
      × (r.starting_address + width fl r ≤ first.starting_address + span fl first last)
      × (r.register_type ≡ first.register_type)

  span-width :
      (a b : RegisterDef fl)
      → a.register_type ≡ b.register_type
      → a.starting_address ≤ b.starting_address
      → a.starting_address + span fl a b ≡ b.starting_address + width fl b
  unfolding span width
  span-width a b e l = rw e (ground (arith, l))

  members-IsRead :
      (t : RegisterType) (first : RegisterDef fl) (rest : List (RegisterDef fl))
      → All fl (λ r. r.register_type ≡ t) (first ∷ rest)
      → Ordered fl (first ∷ rest)
      → All fl (IsRead first (last_of fl first rest)) (first ∷ rest)
  members-IsRead t first rest u o =
      let last = last_of fl first rest in
      let type_of : last.register_type ≡ t =
        last-All fl (λ r. r.register_type ≡ t) first rest u.0 u.1 in
      let starts =
        All-map fl _ (λ x. first.starting_address ≤ x.starting_address) rest (λ r k. k.0) o.0 in
      let after : first.starting_address ≤ last.starting_address =
        last-All fl (λ x. first.starting_address ≤ x.starting_address) first rest (omega arith)
          starts in
      let whole = span-width first last (u.0 ∙ sym type_of) after in
      gather (first ∷ rest) u (omega arith, starts) (ends_inside fl first rest o) whole
    where
      gather :
          (xs : List (RegisterDef fl))
          → All fl (λ r. r.register_type ≡ t) xs
          → All fl (λ x. first.starting_address ≤ x.starting_address) xs
          → All fl
              (λ x.
                x.starting_address + width fl x
                ≤ (last_of fl first rest).starting_address + width fl (last_of fl first rest))
              xs
          → first.starting_address + span fl first (last_of fl first rest)
            ≡ (last_of fl first rest).starting_address + width fl (last_of fl first rest)
          → All fl (IsRead first (last_of fl first rest)) xs
      gather [] p q r s = tt
      gather (x ∷ xs) p q r s =
          ((q.0, (let k = r.0 in omega arith), p.0 ∙ sym u.0), gather xs p.1 q.1 r.1 s)

  -- In an accepted configuration, the registers of a read group are of one type and lie in the
  -- addresses of the one read that is sent for the group, from the first register to the end of the
  -- last one, and that read asks for at most 125 registers, or 2,000 bits.
  pub validate_config_lem :
      (registers : List (RegisterDef fl)) (g : String) (first : RegisterDef fl)
      (rest : List (RegisterDef fl))
      → validate_config fl registers ≡ ok tt
      → Dict.get (build_group_index fl registers) g ≡ some (first ∷ rest)
      → All fl (IsRead first (last_of fl first rest)) (first ∷ rest)
        × (span fl first (last_of fl first rest) ≤ read_limit fl first)
  unfolding validate_config build_group_index check_span Dict.get
  validate_config_lem registers g first rest h e =
      let (names, h₁) = then-ok (validate_unique_register_names fl registers) _ tt h in
      let (bits, h₂) = then-ok (validate_unique_bitmap_names fl registers) _ tt h₁ in
      let (apart, h₃) = then-ok (validate_no_register_overlap fl registers) _ tt h₂ in
      let (types, spans) = then-ok (check_group_types fl registers []) _ tt h₃ in
      let sorted = group_sorted (of_group fl g registers) (first ∷ rest) (
        sym (
          get-sorted (collect fl registers []) g
          ∙ ap (map_some (sort fl)) (get-collect fl g registers []))
        ∙ e) in
      let (t, u) =
        same_types (of_group fl g registers)
          (check_group_types-OneType fl g registers [] refl types) in
      let ordered = Ordered-sort fl (of_group fl g registers) (
        Disjoint-of_group fl t g registers u
          (validate_no_register_overlap_lem fl t registers apart)) in
      (
        members-IsRead t first rest
            (subst (All fl (λ r. r.register_type ≡ t)) (sym sorted)
              (All-sort fl _ (of_group fl g registers) u))
            (subst (Ordered fl) (sym sorted) ordered),
        (let fine = check_spans-get (build_group_index fl registers) g (first ∷ rest) spans e in
            ground (arith, fine)),
      )
