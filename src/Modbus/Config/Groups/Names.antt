-- ===== src/Modbus/Config/Groups/Names.antt =====
-- Names of registers are unique in an accepted configuration of instro/modbus/types.py.
use instro.Prelude.{
  then-ok, String, ◌≡◌, refl, sym, ap, ◌∙◌, inl, inr, true, false, some, List, [], ◌∷◌, ◌++◌, arith,
  eq_iff, Bool-cases, ok,
}
use instro.Float.{Floats}
use instro.Prelude.Dict
use instro.Prelude.Dict.{Dict, get-put, item-eq, or_key_error}
use instro.Prelude.Words.{same}
use instro.Modbus.Register.{RegisterDef}
use instro.Modbus.Config.Groups.{
  was_seen, has_repeat, names_of, register_index, get_register, validate_unique_register_names,
  validate_config,
}

-- a name that was seen is not met again
not_again :
    (k : String) (seen ns : List String)
    → was_seen k seen ≡ true
    → has_repeat seen ns ≡ false
    → was_seen k ns ≡ false
unfolding has_repeat
not_again k seen [] s h = refl
not_again k seen (n ∷ ns) s h = elim (Bool-cases (same n k)) [
  | inl e ↦ absurd (
      let met : was_seen n seen ≡ true = ap (λ x. was_seen x seen) ((eq_iff n k).0 e) ∙ s in
      ground (arith, met, h))
  | inr e ↦ rw e (not_again k (n ∷ seen) ns (rw e s) (ground (arith, h)))
]

later :
    (xs : List String) (k : String) (ys seen : List String)
    → has_repeat seen (xs ++ (k ∷ ys)) ≡ false
    → was_seen k ys ≡ false
unfolding has_repeat
later [] k ys seen h = not_again k (k ∷ seen) ys (ground (arith, eq_iff k k)) (ground (arith, h))
later (x ∷ xs) k ys seen h = later xs k ys (x ∷ seen) (ground (arith, h))

module _ (fl : Floats) where
  names_of-append :
      (xs ys : List (RegisterDef fl)) → names_of fl (xs ++ ys) ≡ names_of fl xs ++ names_of fl ys
  unfolding names_of
  names_of-append [] ys = refl
  names_of-append (x ∷ xs) ys = ap (λ ns. x.name ∷ ns) (names_of-append xs ys)

  unlisted :
      (rs : List (RegisterDef fl)) (d : Dict (RegisterDef fl)) (k : String)
      → was_seen k (names_of fl rs) ≡ false
      → Dict.get (register_index fl rs d) k ≡ Dict.get d k
  unfolding register_index names_of
  unlisted [] d k h = refl
  unlisted (r ∷ rs) d k h =
      unlisted rs (Dict.put d r.name r) k (ground (arith, h))
      ∙ get-put d r.name k r
      ∙ (let other : same r.name k ≡ false = ground (arith, h) in rw other refl)

  listed :
      (xs ys : List (RegisterDef fl)) (r : RegisterDef fl) (d : Dict (RegisterDef fl))
      → was_seen r.name (names_of fl ys) ≡ false
      → Dict.get (register_index fl (xs ++ (r ∷ ys)) d) r.name ≡ some r
  unfolding register_index
  listed [] ys r d h =
      unlisted ys (Dict.put d r.name r) r.name h
      ∙ get-put d r.name r.name r
      ∙ (let own : same r.name r.name ≡ true = ground (arith, eq_iff r.name r.name) in rw own refl)
  listed (x ∷ xs) ys r d h = listed xs ys r (Dict.put d x.name x) h

  -- In an accepted configuration, get_register finds every register by its name, wherever it stands.
  pub get_register_lem :
      (xs ys : List (RegisterDef fl)) (r : RegisterDef fl)
      → validate_config fl (xs ++ (r ∷ ys)) ≡ ok tt
      → get_register fl (xs ++ (r ∷ ys)) r.name ≡ ok r
  unfolding validate_config validate_unique_register_names get_register names_of
  get_register_lem xs ys r h =
      let (names, rest) = then-ok (validate_unique_register_names fl (xs ++ (r ∷ ys))) _ tt h in
      let unique : has_repeat [] (names_of fl (xs ++ (r ∷ ys))) ≡ false = ground (arith, names) in
      let split : has_repeat [] (names_of fl xs ++ (r.name ∷ names_of fl ys)) ≡ false =
        ap (has_repeat []) (sym (names_of-append xs (r ∷ ys))) ∙ unique in
      item-eq (register_index fl (xs ++ (r ∷ ys)) []) r.name
      ∙ ap or_key_error
          (listed xs ys r [] (later (names_of fl xs) r.name (names_of fl ys) [] split))
