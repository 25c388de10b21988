-- ===== src/Prelude/Results.antt =====
-- Python exceptions as values. A function that may raise returns a `Result`.
use mathlib.Core.Path.{◌≡◌, refl}
use mathlib.Core.Logic.{◌⊎◌, inl, inr}
use mathlib.Core.Bool.{Bool, true, false}

-- The class of the exception. `foreign` is one that a library the code calls has raised.
pub data Error : Type 0 where
  value_error type_error key_error index_error runtime_error overflow_error : Error
  struct_error os_error connection_error assertion_error unknown_holder : Error
  channel_not_found channel_value_timeout pymodbus_connection : Error
  foreign : Error

pub data Result {ℓ} (A : Type ℓ) : Type ℓ where
  ok : A → Result A
  err : Error → Result A

-- `if not b: raise e`
abbrev pub guard : Bool → Error → Result (Unit {0})
guard b e = elim b [ true ↦ ok tt | false ↦ err e ]

-- what a function makes of a returned value, if one is returned
abbrev pub map_ok {ℓ κ} : {A : Type ℓ} {B : Type κ} → (A → B) → Result A → Result B
map_ok f (err e) = err e
map_ok f (ok a) = ok (f a)

infixl 5 ◌>>=◌ ◌>>◌
abbrev pub ◌>>=◌ {ℓ κ} : {A : Type ℓ} {B : Type κ} → Result A → (A → Result B) → Result B
err e >>= next = err e
ok a >>= next = next a

-- a step that returns nothing, then the rest
abbrev pub ◌>>◌ {ℓ} : {B : Type ℓ} → Result (Unit {0}) → Result B → Result B
check >> rest = elim check [ err e ↦ err e | ok _ ↦ rest ]

pub Result-cases {ℓ} :
    {A : Type ℓ} (r : Result A) → ((a : A) × (r ≡ ok a)) ⊎ ((e : Error) × (r ≡ err e))
Result-cases (err e) = inr (e, refl)
Result-cases (ok a) = inl (a, refl)

-- what a chain that returns has done on its way
pub bind-ok {ℓ κ} :
    {A : Type ℓ} {B : Type κ} (r : Result A) (f : A → Result B) (b : B)
    → (r >>= f) ≡ ok b
    → (a : A) × (r ≡ ok a) × (f a ≡ ok b)
bind-ok (err e) f b h = absurd (cc)
bind-ok (ok a) f b h = (a, refl, h)

pub then-ok {ℓ} :
    {B : Type ℓ} (r : Result (Unit {0})) (rest : Result B) (b : B)
    → (r >> rest) ≡ ok b
    → (r ≡ ok tt) × (rest ≡ ok b)
then-ok (err e) rest b h = absurd (cc)
then-ok (ok u) rest b h = (refl, h)

pub guard-ok : (b : Bool) (e : Error) → guard b e ≡ ok tt → b ≡ true
guard-ok true e h = refl
guard-ok false e h = cc
