-- ===== src/Prelude/Dict.antt =====
-- Python's `dict` with string keys, in insertion order: assigning to a present key keeps its place.
use Prim.Native.String.{String}
use mathlib.Core.Path.{◌≡◌, refl}
use mathlib.Core.Bool.{Bool, true, false}
use mathlib.Core.Option.{Option, none, some}
use mathlib.Core.List.{List, [], ◌∷◌, map}
use native.Mathlib.Omega.{arith}
use text.Mathlib.Text.{◌==◌}
use text.Mathlib.TextEquality.{eq_iff}
use instro.Prelude.Results.{Result, ok, err, key_error}
use instro.Prelude.Tests.{if◌then◌else◌}

abbrev pub Dict {ℓ} : Type ℓ → Type ℓ
Dict V = List (String × V)

abbrev pub is_some {ℓ} : {A : Type ℓ} → Option A → Bool
is_some none = false
is_some (some a) = true

module _ {ℓ} {V : Type ℓ} where
  unfoldable pub get : Dict V → String → Option V
  get [] k = none
  get ((j, v) ∷ d) k = if j == k then some v else get d k

  -- d[k] = v
  unfoldable pub put : Dict V → String → V → Dict V
  put [] k v = (k, v) ∷ []
  put ((j, w) ∷ d) k v = if j == k then (j, v) ∷ d else (j, w) ∷ put d k v

  abbrev pub keys : Dict V → List String
  keys d = map (λ e. e.0) d

  pub get-put :
      (d : Dict V) (k j : String) (v : V) → get (put d k v) j ≡ (if k == j then some v else get d j)
  unfolding get put
  get-put [] k j v = refl
  get-put ((i, w) ∷ d) k j v = ground (arith, eq_iff k j, eq_iff i k, eq_iff i j, get-put d k j v)

  -- d[k], a KeyError if it is missing
  unfoldable pub item : Dict V → String → Result V
  unfolding get
  item d k = elim (get d k) [ none ↦ err key_error | some v ↦ ok v ]

  -- k in d
  unfoldable pub has : Dict V → String → Bool
  unfolding get
  has d k = is_some (get d k)

  pub has-put :
      (d : Dict V) (k j : String) (v : V) → has (put d k v) j ≡ (if k == j then true else has d j)
  unfolding has
  has-put d k j v = rw get-put (ground arith)

  -- `has` and `item` through `get`, for rewriting
  pub has-eq : (d : Dict V) (k : String) → has d k ≡ is_some (get d k)
  unfolding has
  has-eq d k = refl

  abbrev pub or_key_error : Option V → Result V
  or_key_error none = err key_error
  or_key_error (some v) = ok v

  pub item-eq : (d : Dict V) (k : String) → item d k ≡ or_key_error (get d k)
  unfolding item
  item-eq d k = ground arith

  -- d.update(e)
  unfoldable pub update : Dict V → Dict V → Dict V
  unfolding put
  update d [] = d
  update d ((k, v) ∷ e) = update (put d k v) e
