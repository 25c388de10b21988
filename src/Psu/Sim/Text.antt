-- ===== src/Psu/Sim/Text.antt =====
-- Python's operations on the ASCII text of a SCPI command, as lists of character codes, and the
-- text functions of instro/psu/scpi_sim_server.py.
use instro.Prelude.{
  ◌>>=◌, Error, err, length, ok, ltb, Result, ℕ, ◌+◌, ◌-◌, ◌*◌, String, Bool, true, false, ◌&&◌,
  ◌||◌, List, [], ◌∷◌, ◌++◌, map, leb, ◌==◌, if◌then◌else◌,
}
use Prim.Native.Char.{code}
pub mod Lengths

abbrev pub Text : Type 0
Text = List ℕ

-- the codes of a literal
abbrev pub codes : String → Text
codes String.[] = []
codes (String.◌∷◌ c s) = code c ∷ codes s

unfoldable pub eq_text : Text → Text → Bool
eq_text [] [] = true
eq_text (a ∷ s) (b ∷ t) = (a == b) && eq_text s t
eq_text _ _ = false

abbrev pub upper_char : ℕ → ℕ
upper_char c = if leb b'a' c && leb c b'z' then c - 32 else c

-- s.upper()
abbrev pub upper : Text → Text
upper s = map upper_char s

abbrev pub is_digit : ℕ → Bool
is_digit c = leb b'0' c && leb c b'9'

-- space, and tab to carriage return
abbrev pub is_space : ℕ → Bool
is_space c = (c == 32) || (leb 9 c && leb c 13) || (leb 28 c && leb c 31)

unfoldable pub lstrip : Text → Text
lstrip [] = []
lstrip (c ∷ s) = if is_space c then lstrip s else c ∷ s

unfoldable pub rstrip : Text → Text
rstrip [] = []
rstrip (c ∷ s) =
    let rest = rstrip s in elim rest [ [] ↦ if is_space c then [] else c ∷ [] | d ∷ r ↦ c ∷ d ∷ r ]

-- s.strip()
unfoldable pub strip : Text → Text
unfolding lstrip rstrip
strip s = rstrip (lstrip s)

-- header, _, rest = s.partition(" ")
unfoldable pub partition : Text → Text × Text
partition [] = ([], [])
partition (c ∷ s) = let rest = partition s in if c == 32 then ([], s) else (c ∷ rest.0, rest.1)

-- s.split(sep) for a one-character separator, with the part read so far
unfoldable pub split_from : ℕ → Text → Text → List Text
split_from sep part [] = part ∷ []
split_from sep part (c ∷ s) =
    let closed = split_from sep [] s in
    let longer = split_from sep (part ++ (c ∷ [])) s in if c == sep then part ∷ closed else longer

-- ":".join(parts)
unfoldable pub join_colon : List Text → Text
join_colon [] = []
join_colon (p ∷ []) = p
join_colon (p ∷ q ∷ r) = p ++ (b':' ∷ join_colon (q ∷ r))

-- s.rstrip("0123456789"), and what that takes off
unfoldable pub split_digits : Text → Text × Text
split_digits [] = ([], [])
split_digits (c ∷ s) =
    let rest = split_digits s in
    elim rest.0 [
      | [] ↦ if is_digit c then ([], c ∷ rest.1) else (c ∷ [], rest.1)
      | d ∷ r ↦ (c ∷ d ∷ r, rest.1)
    ]

-- the number that decimal digits write, after those read so far
unfoldable pub decimal : ℕ → Text → ℕ
decimal n [] = n
decimal n (c ∷ s) = decimal (n * 10 + (c - b'0')) s

-- sys.get_int_max_str_digits()
abbrev pub max_str_digits : ℕ
max_str_digits = 4300

-- int(digits), with the ValueError for more digits than the limit
unfoldable pub int_of_digits : Text → Result ℕ
unfolding decimal
int_of_digits s = if ltb max_str_digits (length s) then err Error.value_error else ok (decimal 0 s)

-- the end of the header and whether it was there: `endswith("?")` and `[:-1]`
unfoldable pub drop_mark : Text → Text × Bool
drop_mark [] = ([], false)
drop_mark (c ∷ []) = if c == b'?' then ([], true) else (c ∷ [], false)
drop_mark (c ∷ d ∷ s) = let rest = drop_mark (d ∷ s) in (c ∷ rest.0, rest.1)

-- s.removeprefix(":")
abbrev pub drop_colon : Text → Text
drop_colon [] = []
drop_colon (c ∷ s) = if c == b':' then s else c ∷ s

abbrev is_empty : Text → Bool
is_empty [] = true
is_empty (c ∷ s) = false

-- the loop of `_normalize_header`: a later number overwrites an earlier one
unfoldable pub normalize_parts : ℕ → List Text → Result (List Text × ℕ)
unfolding split_digits int_of_digits
normalize_parts channel [] = ok ([], channel)
normalize_parts channel (raw ∷ parts) =
    let (base, suffix) = split_digits (upper raw) in
    do
      next ← if is_empty suffix then ok channel else int_of_digits suffix
      rest ← normalize_parts next parts
      ok (base ∷ rest.0, rest.1)

unfoldable pub normalize_header : Text → Result (Text × ℕ)
unfolding split_from normalize_parts join_colon
normalize_header header = do
  rest ← normalize_parts 1 (split_from b':' [] (drop_colon header))
  ok (join_colon rest.0, rest.1)

-- [a.strip() for a in rest.split(",") if a.strip()]
unfoldable pub stripped : List Text → List Text
unfolding strip
stripped [] = []
stripped (a ∷ rest) =
    let others = stripped rest in if is_empty (strip a) then others else strip a ∷ others

-- `positional`
unfoldable pub positional_args : Text → List Text
unfolding split_from stripped
positional_args rest = if is_empty rest then [] else stripped (split_from b',' [] rest)
