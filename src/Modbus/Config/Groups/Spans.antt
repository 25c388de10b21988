-- ===== src/Modbus/Config/Groups/Spans.antt =====
-- The registers of a read group lie in the addresses that its one read asks for.
use instro.Prelude.{if-cases, ◌+◌, ◌≤◌, ◌≡◌, refl, inl, inr, true, List, [], ◌∷◌, arith, leb, last}
use instro.Float.{Floats}
use instro.Modbus.{RegisterType, holding, input, coil, discrete, register_count, DataType}
use instro.Modbus.Register.{RegisterDef}
use instro.Modbus.Config.{same_type, insert, sort, end_of}
use instro.Modbus.Config.Disjoint.{Apart, Clear, Disjoint}
use instro.Modbus.Config.Groups.{last_of, width}

pub same_type-eq : (t u : RegisterType) → same_type t u ≡ true → t ≡ u
same_type-eq holding holding h = refl
same_type-eq input input h = refl
same_type-eq coil coil h = refl
same_type-eq discrete discrete h = refl
same_type-eq holding input h = cc
same_type-eq holding coil h = cc
same_type-eq holding discrete h = cc
same_type-eq input holding h = cc
same_type-eq input coil h = cc
same_type-eq input discrete h = cc
same_type-eq coil holding h = cc
same_type-eq coil input h = cc
same_type-eq coil discrete h = cc
same_type-eq discrete holding h = cc
same_type-eq discrete input h = cc
same_type-eq discrete coil h = cc

pub same_type_refl : (t : RegisterType) → same_type t t ≡ true
same_type_refl holding = refl
same_type_refl input = refl
same_type_refl coil = refl
same_type_refl discrete = refl

register_count-pos : (t : DataType) → 1 ≤ register_count t
unfolding register_count
register_count-pos t = ground arith

module _ (fl : Floats) where
  abbrev pub All : (RegisterDef fl → Type 0) → List (RegisterDef fl) → Type 0
  All Q [] = Unit {0}
  All Q (r ∷ rs) = Q r × All Q rs

  pub All-map :
      (Q R : RegisterDef fl → Type 0) (rs : List (RegisterDef fl))
      → ((r : RegisterDef fl) → Q r → R r)
      → All Q rs
      → All R rs
  All-map Q R [] f h = tt
  All-map Q R (r ∷ rs) f h = (f r h.0, All-map Q R rs f h.1)

  -- sorting keeps what holds of all
  All-insert :
      (Q : RegisterDef fl → Type 0) (r : RegisterDef fl) (xs : List (RegisterDef fl))
      → Q r
      → All Q xs
      → All Q (insert fl r xs)
  unfolding insert
  All-insert Q r [] q h = (q, tt)
  All-insert Q r (x ∷ xs) q h =
      if-cases (All Q) (leb r.starting_address x.starting_address) (r ∷ x ∷ xs) (x ∷ insert fl r xs)
        (λ e. (q, h)) (λ e. (h.0, All-insert Q r xs q h.1))

  pub All-sort :
      (Q : RegisterDef fl → Type 0) (xs : List (RegisterDef fl)) → All Q xs → All Q (sort fl xs)
  unfolding sort
  All-sort Q [] h = tt
  All-sort Q (x ∷ xs) h = All-insert Q x (sort fl xs) h.0 (All-sort Q xs h.1)

  Clear-All :
      (a : RegisterDef fl) (xs : List (RegisterDef fl)) → Clear fl a xs → All (Apart fl a) xs
  Clear-All a [] h = tt
  Clear-All a (x ∷ xs) h = (h.0, Clear-All a xs h.1)

  -- sorted by address, and apart
  abbrev pub Ordered : List (RegisterDef fl) → Type 0
  Ordered [] = Unit {0}
  Ordered (r ∷ rs) =
      All (λ x. (r.starting_address ≤ x.starting_address) × Apart fl r x) rs × Ordered rs

  flip : (a b : RegisterDef fl) → Apart fl a b → Apart fl b a
  flip a b (inl h) = inr h
  flip a b (inr h) = inl h

  Ordered-insert :
      (r : RegisterDef fl) (xs : List (RegisterDef fl))
      → All (Apart fl r) xs
      → Ordered xs
      → Ordered (insert fl r xs)
  unfolding insert
  Ordered-insert r [] a o = (tt, tt)
  Ordered-insert r (x ∷ xs) a o =
      if-cases Ordered (leb r.starting_address x.starting_address) (r ∷ x ∷ xs) (x ∷ insert fl r xs)
        (λ e. ((((ground (arith, e)), a.0), both xs (ground (arith, e)) a.1 o.0), o))
        (λ e.
          (All-insert _ r xs (ground (arith, e), flip r x a.0) o.0, Ordered-insert r xs a.1 o.1))
    where
      both :
          (ys : List (RegisterDef fl))
          → r.starting_address ≤ x.starting_address
          → All (Apart fl r) ys
          → All (λ y. (x.starting_address ≤ y.starting_address) × Apart fl x y) ys
          → All (λ y. (r.starting_address ≤ y.starting_address) × Apart fl r y) ys
      both [] l p q = tt
      both (y ∷ ys) l p q = ((let k = q.0.0 in omega arith, p.0), both ys l p.1 q.1)

  pub Ordered-sort : (xs : List (RegisterDef fl)) → Disjoint fl xs → Ordered (sort fl xs)
  unfolding sort
  Ordered-sort [] h = tt
  Ordered-sort (x ∷ xs) h =
      Ordered-insert x (sort fl xs) (All-sort (Apart fl x) xs (Clear-All x xs h.0))
        (Ordered-sort xs h.1)

  -- the addresses of a register, from the first of `first` to the end of `last`
  abbrev pub Inside : RegisterDef fl → RegisterDef fl → RegisterDef fl → Type 0
  Inside first last r =
      (first.starting_address ≤ r.starting_address)
      × (r.starting_address + width fl r ≤ last.starting_address + width fl last)

  pub end_of-width : (r : RegisterDef fl) → end_of fl r + 1 ≡ r.starting_address + width fl r
  unfolding end_of width
  end_of-width r = ground (arith, register_count-pos r.data_type)

  pub width-pos : (r : RegisterDef fl) → 1 ≤ width fl r
  unfolding width
  width-pos r = ground (arith, register_count-pos r.data_type)

  before-end :
      (a b : RegisterDef fl)
      → a.starting_address ≤ b.starting_address
      → Apart fl a b
      → a.starting_address + width fl a ≤ b.starting_address + width fl b
  before-end a b l (inl h) = let e = end_of-width a in omega arith
  before-end a b l (inr h) = let e = end_of-width b in let p = width-pos b in omega arith

  pub last-All :
      (Q : RegisterDef fl → Type 0) (r : RegisterDef fl) (xs : List (RegisterDef fl))
      → Q r
      → All Q xs
      → Q (last_of fl r xs)
  unfolding last_of
  last-All Q r [] q h = q
  last-All Q r (x ∷ xs) q h = last-All Q x xs h.0 h.1

  pub ends_inside :
      (r : RegisterDef fl) (xs : List (RegisterDef fl))
      → Ordered (r ∷ xs)
      → All
          (λ x.
            x.starting_address + width fl x
            ≤ (last_of fl r xs).starting_address + width fl (last_of fl r xs))
          (r ∷ xs)
  unfolding last_of
  ends_inside r [] o = (omega arith, tt)
  ends_inside r (x ∷ xs) o =
      let rest = ends_inside x xs o.1 in
      ((let k = rest.0 in let m = before-end r x o.0.0.0 o.0.0.1 in omega arith), rest)
