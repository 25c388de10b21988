-- ===== src/Instrument/Publishing/Checks.antt =====
-- What @publish_measurement of instro/lib/instrument.py lets through.
use instro.Prelude.{
  ◌≡◌, refl, ap, fun_ext, ◌∙◌, ◌⊎◌, inl, inr, Bool, true, List, [], ◌∷◌, Bool-cases, ok, err, Error,
  Result-cases, map_ok, Result,
}
use instro.Publishers.{Publisher}
use instro.Instrument.Publishing.Sent.{Sent, publish_each-Sent}
use instro.Types.{Published, measurement}
use instro.Prelude.Dict.{Dict}
use instro.Prelude.Exec.{Exec, pure, ◌>>◌}
use instro.Instrument.{Instrument, Buffer}
use instro.Instrument.Publishing.{
  Item, measured, other, Returned, items_of, check_channels, check_item, check_items, publish,
  publish_items, publish_each, publish_measurement,
}

module _ {V : Type 0} where
  -- the measurements among the items, as they are published
  abbrev pub data_of : List (Item V) → List (Published V)
  data_of [] = []
  data_of (measured m ∷ is) = measurement m ∷ data_of is
  data_of (other ∷ is) = data_of is

module _ {V : Type 0} (is_plain : V → Bool) where
  -- the first value is an int, a float or a string, if there is one
  abbrev pub StartsPlain : List V → Type 0
  StartsPlain [] = Unit {0}
  StartsPlain (v ∷ vs) = is_plain v ≡ true

  abbrev pub AllStartPlain : Dict (List V) → Type 0
  AllStartPlain [] = Unit {0}
  AllStartPlain ((k, vs) ∷ d) = StartsPlain vs × AllStartPlain d

  -- measurements whose channels start with a value of a valid type
  abbrev pub ArePublishable : List (Item V) → Type 0
  ArePublishable [] = Unit {0}
  ArePublishable (measured m ∷ is) = AllStartPlain m.channel_data × ArePublishable is
  ArePublishable (other ∷ is) = ⊥

  check_channels-cases :
      (d : Dict (List V))
      → ((check_channels is_plain d ≡ ok tt) × AllStartPlain d)
        ⊎ ((check_channels is_plain d ≡ err Error.type_error) × (AllStartPlain d → ⊥))
  unfolding check_channels
  check_channels-cases [] = inl (refl, tt)
  check_channels-cases ((k, []) ∷ d) = elim (check_channels-cases d) [
    | inl (e, h) ↦ inl (e, (tt, h))
    | inr (e, n) ↦ inr (e, λ h. n h.1)
  ]
  check_channels-cases ((k, v ∷ vs) ∷ d) = elim (Bool-cases (is_plain v)) [
    | inl p ↦ elim (check_channels-cases d) [
      | inl (e, h) ↦ inl (rw (p, e) refl, (p, h))
      | inr (e, n) ↦ inr (rw (p, e) refl, λ h. n h.1)
    ]
    | inr p ↦ inr (rw p refl, λ h. cc)
  ]

  check_items-cases :
      (is : List (Item V))
      → ((check_items is_plain is ≡ ok tt) × ArePublishable is)
        ⊎ ((check_items is_plain is ≡ err Error.type_error) × (ArePublishable is → ⊥))
  unfolding check_items check_item
  check_items-cases [] = inl (refl, tt)
  check_items-cases (other ∷ is) = inr (refl, λ h. h)
  check_items-cases (measured m ∷ is) = elim (check_channels-cases m.channel_data) [
    | inl (e, h) ↦ elim (check_items-cases is) [
      | inl (f, k) ↦ inl (rw (e, f) refl, (h, k))
      | inr (f, n) ↦ inr (rw (e, f) refl, λ k. n k.1)
    ]
    | inr (e, n) ↦ inr (rw e refl, λ k. n k.0)
  ]

then_pure :
    {S A : Type 0} (m : Exec S (Unit {0})) (a : A) (s : S)
    → (m >> pure a) s ≡ (map_ok (λ _. a) (m s).0, (m s).1)
then_pure m a s = elim (Result-cases (m s).0) [ inl (u, e) ↦ rw e refl | inr (x, e) ↦ rw e refl ]

module _ {F V P B M W : Type 0} (publisher : Publisher P (Published V))
    (buffer : Buffer F V B) where
  publish_items-data_of :
      (is : List (Item V)) (s : Instrument F P B M W)
      → publish_items publisher buffer is s ≡ publish_each publisher buffer (data_of is) s
  unfolding publish_items publish_each
  publish_items-data_of [] s = refl
  publish_items-data_of (measured m ∷ is) s =
      ap (λ f. (publish publisher buffer (measurement m) >> f) s)
        (fun_ext (publish_items-data_of is))
  publish_items-data_of (other ∷ is) s = publish_items-data_of is s

  -- Of a method that returns something, all items are checked before any is published. If every
  -- item is a measurement whose channels each start with a value of a valid type, they are published
  -- in order, up to one whose publishing raises; what the method returned is returned if none does,
  -- and otherwise that exception is raised. If some item is not, a TypeError is raised and nothing
  -- is published.
  pub publish_measurement_lem :
      (is_plain : V → Bool) (func : Exec (Instrument F P B M W) (Returned V)) (r : Returned V)
      (s s' : Instrument F P B M W)
      → func s ≡ (ok r, s')
      → (ArePublishable is_plain (items_of r)
          × ((p : Result (Unit {0})) × (next : Instrument F P B M W) × Sent publisher buffer s'
                (data_of (items_of r))
                p
                next
              × (publish_measurement publisher buffer is_plain func s ≡ (map_ok (λ _. r) p, next))))
        ⊎ ((ArePublishable is_plain (items_of r) → ⊥)
            × (publish_measurement publisher buffer is_plain func s ≡ (err Error.type_error, s')))
  unfolding publish_measurement
  publish_measurement_lem is_plain func r s s' e =
      let ds = data_of (items_of r) in
      elim (check_items-cases is_plain (items_of r)) [
        | inl (f, k) ↦ inl (
          k,
          (
            (publish_each publisher buffer ds s').0,
            (publish_each publisher buffer ds s').1,
            publish_each-Sent publisher buffer ds s',
            rw (e, f)
                (then_pure (publish_items publisher buffer (items_of r)) r s'
                  ∙ rw (publish_items-data_of (items_of r) s') refl),
          ),
        )
        | inr (f, n) ↦ inr (n, rw (e, f) refl)
      ]
