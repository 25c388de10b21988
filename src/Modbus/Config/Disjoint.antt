-- ===== src/Modbus/Config/Disjoint.antt =====
-- Registers of one type do not share an address.
use instro.Prelude.{
  ◌<◌, ◌≡◌, subst, ◌⊎◌, inl, inr, false, List, [], ◌∷◌, arith, leb, if◌then◌else◌, Bool-cases, ok,
}
use instro.Float.{Floats}
use instro.Modbus.{RegisterType, holding, input, coil, discrete}
use instro.Modbus.Register.{RegisterDef}
use instro.Modbus.Config.{
  of_type, insert, sort, end_of, overlaps, check_after, check_pairs, validate_no_register_overlap,
}

module _ (fl : Floats) where
  -- one of the two ends before the other starts
  abbrev pub Apart : RegisterDef fl → RegisterDef fl → Type 0
  Apart a b = (end_of fl a < b.starting_address) ⊎ (end_of fl b < a.starting_address)

  abbrev pub Clear : RegisterDef fl → List (RegisterDef fl) → Type 0
  Clear a [] = Unit {0}
  Clear a (b ∷ bs) = Apart a b × Clear a bs

  -- no two registers of the list overlap
  abbrev pub Disjoint : List (RegisterDef fl) → Type 0
  Disjoint [] = Unit {0}
  Disjoint (a ∷ rs) = Clear a rs × Disjoint rs

  Apart-sym : (a b : RegisterDef fl) → Apart a b → Apart b a
  Apart-sym a b (inl h) = inr h
  Apart-sym a b (inr h) = inl h

  overlaps-Apart : (a b : RegisterDef fl) → overlaps fl a b ≡ false → Apart a b
  unfolding overlaps
  overlaps-Apart a b h = ground (arith, h)

  Clear-insert :
      (a r : RegisterDef fl) (xs : List (RegisterDef fl))
      → Clear a (insert fl r xs)
      → Apart a r × Clear a xs
  unfolding insert
  Clear-insert a r [] h = h
  Clear-insert a r (x ∷ xs) h = elim (Bool-cases (leb r.starting_address x.starting_address)) [
    | inl e ↦ subst (λ b. Clear a (if b then r ∷ x ∷ xs else x ∷ insert fl r xs)) e h
    | inr e ↦
        let k = subst (λ b. Clear a (if b then r ∷ x ∷ xs else x ∷ insert fl r xs)) e h in
        let (o, c) = Clear-insert a r xs k.1 in (o, (k.0, c))
  ]

  Disjoint-insert :
      (r : RegisterDef fl) (xs : List (RegisterDef fl))
      → Disjoint (insert fl r xs)
      → Clear r xs × Disjoint xs
  unfolding insert
  Disjoint-insert r [] h = h
  Disjoint-insert r (x ∷ xs) h = elim (Bool-cases (leb r.starting_address x.starting_address)) [
    | inl e ↦ subst (λ b. Disjoint (if b then r ∷ x ∷ xs else x ∷ insert fl r xs)) e h
    | inr e ↦
        let k = subst (λ b. Disjoint (if b then r ∷ x ∷ xs else x ∷ insert fl r xs)) e h in
        let (o, c) = Clear-insert x r xs k.0 in
        let (d, ds) = Disjoint-insert r xs k.1 in ((Apart-sym x r o, d), (c, ds))
  ]

  Clear-sort : (a : RegisterDef fl) (xs : List (RegisterDef fl)) → Clear a (sort fl xs) → Clear a xs
  unfolding sort
  Clear-sort a [] h = tt
  Clear-sort a (x ∷ xs) h = let (o, c) = Clear-insert a x (sort fl xs) h in (o, Clear-sort a xs c)

  Disjoint-sort : (xs : List (RegisterDef fl)) → Disjoint (sort fl xs) → Disjoint xs
  unfolding sort
  Disjoint-sort [] h = tt
  Disjoint-sort (x ∷ xs) h =
      let (c, d) = Disjoint-insert x (sort fl xs) h in (Clear-sort x xs c, Disjoint-sort xs d)

  check_after-Clear :
      (a : RegisterDef fl) (xs : List (RegisterDef fl)) → check_after fl a xs ≡ ok tt → Clear a xs
  unfolding check_after
  check_after-Clear a [] h = tt
  check_after-Clear a (x ∷ xs) h =
      (overlaps-Apart a x (ground (arith, h)), check_after-Clear a xs (ground (arith, h)))

  check_pairs-Disjoint : (xs : List (RegisterDef fl)) → check_pairs fl xs ≡ ok tt → Disjoint xs
  unfolding check_pairs
  check_pairs-Disjoint [] h = tt
  check_pairs-Disjoint (x ∷ xs) h =
      (check_after-Clear x xs (ground (arith, h)), check_pairs-Disjoint xs (ground (arith, h)))

  -- If a configuration passes the check, no two of its registers of one type share an address,
  -- wherever they stand in the configuration.
  pub validate_no_register_overlap_lem :
      (t : RegisterType) (registers : List (RegisterDef fl))
      → validate_no_register_overlap fl registers ≡ ok tt
      → Disjoint (of_type fl t registers)
  unfolding validate_no_register_overlap
  validate_no_register_overlap_lem holding rs h =
      Disjoint-sort _ (check_pairs-Disjoint (sort fl (of_type fl holding rs)) (ground (arith, h)))
  validate_no_register_overlap_lem input rs h =
      Disjoint-sort _ (check_pairs-Disjoint (sort fl (of_type fl input rs)) (ground (arith, h)))
  validate_no_register_overlap_lem coil rs h =
      Disjoint-sort _ (check_pairs-Disjoint (sort fl (of_type fl coil rs)) (ground (arith, h)))
  validate_no_register_overlap_lem discrete rs h =
      Disjoint-sort _ (check_pairs-Disjoint (sort fl (of_type fl discrete rs)) (ground (arith, h)))
