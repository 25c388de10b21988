-- ===== src/Modbus/Config/Groups/Members.antt =====
-- The members of a read group: what the index holds, and what the checks say of them.
use instro.Prelude.{
  then-ok, eq_iff, if-cases, String, ◌≡◌, refl, sym, ap, subst, ◌∙◌, inl, inr, Bool, true, false,
  not, Option, none, some, List, [], ◌∷◌, ◌++◌, append-nil, append_assoc, arith, if◌then◌else◌,
  Bool-cases, ok,
}
use instro.Float.{Floats}
use instro.Prelude.Dict
use instro.Prelude.Dict.{Dict, get-put}
use instro.Modbus.{RegisterType}
use instro.Modbus.Register.{RegisterDef, reject}
use instro.Modbus.Config.{same_type, of_type}
use instro.Modbus.Config.Disjoint.{Clear, Disjoint}
use instro.Prelude.Words.{same}
use instro.Modbus.Config.Groups.{
  agrees, or_first, noted, fits, check_group_types, appended, put_in, collect,
}
use instro.Modbus.Config.Groups.Spans.{All, same_type-eq, same_type_refl}

module _ (fl : Floats) where
  abbrev pub is_member : String → Option String → Bool
  is_member g none = false
  is_member g (some h) = same h g

  -- the registers of a group, in the order of the configuration
  unfoldable pub of_group : String → List (RegisterDef fl) → List (RegisterDef fl)
  of_group g [] = []
  of_group g (r ∷ rs) =
      let rest = of_group g rs in if is_member g r.read_group then r ∷ rest else rest

  -- what the index holds once these registers are added
  abbrev pub extended :
      Option (List (RegisterDef fl)) → List (RegisterDef fl) → Option (List (RegisterDef fl))
  extended none [] = none
  extended none (r ∷ rs) = some (r ∷ rs)
  extended (some xs) rs = some (xs ++ rs)

  extended_next :
      (o : Option (List (RegisterDef fl))) (r : RegisterDef fl) (rs : List (RegisterDef fl))
      → extended (some (appended fl o r)) rs ≡ extended o (r ∷ rs)
  extended_next none r rs = refl
  extended_next (some xs) r rs = ap some (append_assoc xs (r ∷ []) rs)

  extended_nil : (o : Option (List (RegisterDef fl))) → extended o [] ≡ o
  extended_nil none = refl
  extended_nil (some xs) = ap some (append-nil xs)

  get-put_in :
      (o : Option String) (r : RegisterDef fl) (d : Dict (List (RegisterDef fl))) (g : String)
      → Dict.get (put_in fl o r d) g
        ≡ (if is_member g o then some (appended fl (Dict.get d g) r) else Dict.get d g)
  get-put_in none r d g = refl
  get-put_in (some h) r d g =
      get-put d h g (appended fl (Dict.get d h) r) ∙ elim (Bool-cases (same h g)) [
        | inl e ↦ rw e (ap (λ k. some (appended fl (Dict.get d k) r)) ((eq_iff h g).0 e))
        | inr e ↦ rw e refl
      ]

  pub get-collect :
      (g : String) (rs : List (RegisterDef fl)) (d : Dict (List (RegisterDef fl)))
      → Dict.get (collect fl rs d) g ≡ extended (Dict.get d g) (of_group g rs)
  unfolding collect of_group
  get-collect g [] d = sym (extended_nil (Dict.get d g))
  get-collect g (r ∷ rs) d =
      get-collect g rs (put_in fl r.read_group r d)
      ∙ rw (get-put_in r.read_group r d g) (elim (Bool-cases (is_member g r.read_group)) [
        | inl e ↦ rw e (extended_next (Dict.get d g) r (of_group g rs))
        | inr e ↦ rw e refl
      ])

  get-noted :
      (o : Option String) (u : RegisterType) (d : Dict RegisterType) (g : String)
      → Dict.get (noted fl o u d) g
        ≡ (if is_member g o then some (or_first fl u (Dict.get d g)) else Dict.get d g)
  get-noted none u d g = refl
  get-noted (some h) u d g =
      get-put d h g (or_first fl u (Dict.get d h)) ∙ elim (Bool-cases (same h g)) [
        | inl e ↦ rw e (ap (λ k. some (or_first fl u (Dict.get d k))) ((eq_iff h g).0 e))
        | inr e ↦ rw e refl
      ]

  -- a group that has a type keeps it
  noted_kept :
      (o : Option String) (u t : RegisterType) (d : Dict RegisterType) (g : String)
      → Dict.get d g ≡ some t
      → Dict.get (noted fl o u d) g ≡ some t
  noted_kept o u t d g e =
      get-noted o u d g ∙ if-cases (λ x. x ≡ some t) (is_member g o) _ _ (λ m. rw e refl) (λ m. e)

  member_type :
      (o : Option String) (r : RegisterDef fl) (t : RegisterType) (d : Dict RegisterType)
      (g : String)
      → fits fl o r d ≡ true
      → is_member g o ≡ true
      → Dict.get d g ≡ some t
      → r.register_type ≡ t
  member_type none r t d g f m e = absurd (cc)
  member_type (some h) r t d g f m e =
      let here : Dict.get d h ≡ some t = ap (Dict.get d) ((eq_iff h g).0 m) ∙ e in
      let agreed : agrees fl r.register_type (Dict.get d h) ≡ true = ground (arith, f) in
      sym (same_type-eq t r.register_type (sym (rw here refl) ∙ agreed))

  fits_of :
      (r : RegisterDef fl) (d : Dict RegisterType)
      → reject fl (not (fits fl r.read_group r d)) ≡ ok tt
      → fits fl r.read_group r d ≡ true
  fits_of r d h = ground (arith, h)

  -- the registers that pass the check of the types, in a group that has a type already
  typed_so_far :
      (t : RegisterType) (g : String) (rs : List (RegisterDef fl)) (d : Dict RegisterType)
      → Dict.get d g ≡ some t
      → check_group_types fl rs d ≡ ok tt
      → All fl (λ r. r.register_type ≡ t) (of_group g rs)
  unfolding check_group_types of_group
  typed_so_far t g [] d e h = tt
  typed_so_far t g (r ∷ rs) d e h =
      let (fine, rest) = then-ok (reject fl (not (fits fl r.read_group r d))) _ tt h in
      let more = typed_so_far t g rs _ (noted_kept r.read_group r.register_type t d g e) rest in
      if-cases (All fl (λ x. x.register_type ≡ t)) (is_member g r.read_group) (r ∷ of_group g rs)
        (of_group g rs) (λ m. (member_type r.read_group r t d g (fits_of r d fine) m e, more))
        (λ m. more)

  -- all have the type of the first
  abbrev pub OneType : List (RegisterDef fl) → Type 0
  OneType [] = Unit {0}
  OneType (r ∷ rs) = All fl (λ x. x.register_type ≡ r.register_type) rs

  pub check_group_types-OneType :
      (g : String) (rs : List (RegisterDef fl)) (d : Dict RegisterType)
      → Dict.get d g ≡ none
      → check_group_types fl rs d ≡ ok tt
      → OneType (of_group g rs)
  unfolding check_group_types of_group
  check_group_types-OneType g [] d e h = tt
  check_group_types-OneType g (r ∷ rs) d e h =
      let (fine, rest) = then-ok (reject fl (not (fits fl r.read_group r d))) _ tt h in
      let next = noted fl r.read_group r.register_type d in
      let now = get-noted r.read_group r.register_type d g in
      if-cases OneType (is_member g r.read_group) (r ∷ of_group g rs) (of_group g rs)
        (λ m. typed_so_far r.register_type g rs next (now ∙ rw (m, e) refl) rest)
        (λ m. check_group_types-OneType g rs next (now ∙ rw (m, e) refl) rest)

  abbrev Shrinks : (C : List (RegisterDef fl) → Type 0) → Type 0
  Shrinks C = (r : RegisterDef fl) (xs : List (RegisterDef fl)) → C (r ∷ xs) → C xs

  tail :
      (C : List (RegisterDef fl) → Type 0) (b : Bool) (r : RegisterDef fl)
      (xs : List (RegisterDef fl))
      → Shrinks C
      → C (if b then r ∷ xs else xs)
      → C xs
  tail C true r xs f h = f r xs h
  tail C false r xs f h = h

  -- a group of one type is apart if the registers of that type are
  Clear-of_group :
      (t : RegisterType) (g : String) (a : RegisterDef fl) (rs : List (RegisterDef fl))
      → All fl (λ r. r.register_type ≡ t) (of_group g rs)
      → Clear fl a (of_type fl t rs)
      → Clear fl a (of_group g rs)
  unfolding of_type of_group
  Clear-of_group t g a [] u c = tt
  Clear-of_group t g a (r ∷ rs) u c =
      let group = of_group g rs in
      let same_of = of_type fl t rs in
      if-cases (Clear fl a) (is_member g r.read_group) (r ∷ group) group
        (λ m.
          let v =
            subst (λ b. All fl (λ x. x.register_type ≡ t) (if b then r ∷ group else group)) m u in
          let w =
            subst (λ b. Clear fl a (if b then r ∷ same_of else same_of))
              (ap (λ k. same_type k t) v.0 ∙ same_type_refl t) c in
          (w.0, Clear-of_group t g a rs v.1 w.1))
        (λ m.
          let v =
            subst (λ b. All fl (λ x. x.register_type ≡ t) (if b then r ∷ group else group)) m u in
          Clear-of_group t g a rs v
            (tail (Clear fl a) (same_type r.register_type t) r same_of (λ x xs h. h.1) c))

  pub Disjoint-of_group :
      (t : RegisterType) (g : String) (rs : List (RegisterDef fl))
      → All fl (λ r. r.register_type ≡ t) (of_group g rs)
      → Disjoint fl (of_type fl t rs)
      → Disjoint fl (of_group g rs)
  unfolding of_type of_group
  Disjoint-of_group t g [] u c = tt
  Disjoint-of_group t g (r ∷ rs) u c =
      let group = of_group g rs in
      let same_of = of_type fl t rs in
      if-cases (Disjoint fl) (is_member g r.read_group) (r ∷ group) group
        (λ m.
          let v =
            subst (λ b. All fl (λ x. x.register_type ≡ t) (if b then r ∷ group else group)) m u in
          let w =
            subst (λ b. Disjoint fl (if b then r ∷ same_of else same_of))
              (ap (λ k. same_type k t) v.0 ∙ same_type_refl t) c in
          (Clear-of_group t g r rs v.1 w.0, Disjoint-of_group t g rs v.1 w.1))
        (λ m.
          let v =
            subst (λ b. All fl (λ x. x.register_type ≡ t) (if b then r ∷ group else group)) m u in
          Disjoint-of_group t g rs v
            (tail (Disjoint fl) (same_type r.register_type t) r same_of (λ x xs h. h.1) c))
