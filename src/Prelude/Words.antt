-- ===== src/Prelude/Words.antt =====
-- Operations on strings under names that do not meet those on lists.
use Prim.Native.String.{String, ◌++◌}
use text.Mathlib.Text.{◌==◌, starts_with}
use mathlib.Core.Bool.{Bool}
use Prim.Native.Nat.{ℕ, zero, suc, ◌/◌, ◌%◌}
use mathlib.Core.Option.{Option, none, some}
use mathlib.Core.Path.{◌≡◌, refl}
use mathlib.Core.List.{List, [], ◌∷◌}
use instro.Prelude.Lists.{get_elem?}
use instro.Prelude.Tests.{ltb, if◌then◌else◌}

-- f"{a}{b}"
abbrev pub join : String → String → String
join a b = a ++ b

abbrev pub same : String → String → Bool
same a b = a == b

-- s.startswith(t)
abbrev pub has_prefix : String → String → Bool
has_prefix s t = starts_with s t

abbrev digits : List String
digits = "0" ∷ "1" ∷ "2" ∷ "3" ∷ "4" ∷ "5" ∷ "6" ∷ "7" ∷ "8" ∷ "9" ∷ []

abbrev or_empty : Option String → String
or_empty none = ""
or_empty (some s) = s

abbrev digit : ℕ → String
digit n = or_empty (get_elem? digits n)

-- the digits of a number before those that are there already; a number has fewer digits than its size
unfoldable pub str_from : ℕ → ℕ → String → String
str_from zero n done = done
str_from (suc fuel) n done =
    let longer = str_from fuel (n / 10) (join (digit (n % 10)) done) in
    if ltb n 10 then join (digit n) done else longer

-- str(n)
unfoldable pub str : ℕ → String
unfolding str_from
str n = str_from (suc n) n ""

forty_two : str 1042 ≡ "1042"
unfolding str
forty_two = refl
