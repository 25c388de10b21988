-- ===== src/Types.antt =====
-- instro/lib/types.py: `Measurement` and `Command`. A value is anything that a channel can carry;
-- a timestamp is an integer number of nanoseconds.
pub mod Timestamps
mod Tests
use instro.Prelude.{ℕ, String, Bool, Option, some, none, List, [], ◌∷◌, length, get_elem?, ◌-◌}
use instro.Prelude.{Result, ok, err, value_error, key_error, index_error, if◌then◌else◌, ◌==◌, not}
use instro.Prelude.Int.{ℤ}
use instro.Prelude.Dict
use instro.Prelude.Dict.{Dict}

pub record Measurement (V : Type 0) : Type 0 where
  pub channel_data : Dict (List V)
  pub timestamps : List ℤ
  pub tags : Option (Dict String)

pub record Command (V : Type 0) : Type 0 where
  pub channel_data : Dict V
  pub timestamp : ℤ
  pub tags : Option (Dict String)

module _ {V : Type 0} where
  abbrev only : Dict (List V) → Result (List V)
  only [] = err value_error
  only ((k, vs) ∷ []) = ok vs
  only (a ∷ b ∷ r) = err value_error

  -- `_get_values`, and the property `values`
  unfoldable pub values : Measurement V → Result (List V)
  values m = only m.channel_data

  -- `xs[-1]`
  abbrev pub last_item : List V → Result V
  last_item [] = err index_error
  last_item (x ∷ []) = ok x
  last_item (x ∷ y ∷ r) = last_item (y ∷ r)

  abbrev pub latest_of : Result (List V) → Result V
  latest_of (ok vs) = last_item vs
  latest_of (err e) = err e

  -- the property `latest`
  unfoldable pub latest : Measurement V → Result V
  unfolding values
  latest m = latest_of (values m)

  abbrev one_channel : Measurement V → String → Option (List V) → Result (Measurement V)
  one_channel m k none = err key_error
  one_channel m k (some vs) = ok (record m { channel_data = (k, vs) ∷ [] })

  -- `_get_channel`
  unfoldable pub get_channel : Measurement V → String → Result (Measurement V)
  get_channel m channel = one_channel m channel (Dict.get m.channel_data channel)

-- what a publisher is given
pub data Published (V : Type 0) : Type 0 where
  measurement : Measurement V → Published V
  command : Command V → Published V
