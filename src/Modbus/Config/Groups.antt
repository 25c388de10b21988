-- ===== src/Modbus/Config/Groups.antt =====
-- The names and the read groups of `ModbusConfig`, of instro/modbus/types.py.
use instro.Prelude.{
  ◌>>◌, ℕ, zero, suc, ◌+◌, ◌-◌, ◌*◌, ◌/◌, ◌%◌, ◌^◌, ◌≤◌, ◌<◌, min, String, ◌≡◌, refl, sym, ap, ap₂,
  subst, fun_ext, ◌∙◌, ◌≢◌, ◌↔◌, ◌⊎◌, inl, inr, Bool, true, false, not, ◌&&◌, ◌||◌, Option, none,
  some, List, [], ◌∷◌, ◌++◌, map, append-nil, append_assoc, arith, eq_iff, eq_refl, dec_lt,
  ℕ_discrete, ltb, leb, ◌==◌, if◌then◌else◌, Bool-cases, Option-cases, length, get_elem?, set, take,
  drop, replicate, last, length-append, length-take, length-drop, length-last, last-min, drop_all,
  take_all, take-append-drop, last_all, last-append_last, Result, ok, err, guard, Error,
  Result-cases, map_ok,
}
use instro.Float.{Floats}
use instro.Prelude.Dict
use instro.Prelude.Dict.{Dict}
use instro.Prelude.Words.{same}
use instro.Modbus.{RegisterType, holding, input, coil, discrete, register_count}
use instro.Modbus.Register.{RegisterDef, BitDef, is_bit_type, reject}
use instro.Modbus.Config.{same_type, sort, validate_no_register_overlap}
pub mod Spans
pub mod Members
pub mod Bounds
pub mod Names
pub mod Example
mod Tests

abbrev pub was_seen : String → List String → Bool
was_seen n [] = false
was_seen n (m ∷ ms) = same m n || was_seen n ms

-- whether the loop over the names finds one that it has seen
unfoldable pub has_repeat : List String → List String → Bool
has_repeat seen [] = false
has_repeat seen (n ∷ ns) = let rest = has_repeat (n ∷ seen) ns in was_seen n seen || rest

module _ (fl : Floats) where
  unfoldable pub names_of : List (RegisterDef fl) → List String
  names_of rs = map (λ r. RegisterDef.name r) rs

  abbrev bits_of : Option (List BitDef) → List String
  bits_of none = []
  bits_of (some bits) = map (λ b. BitDef.name b) bits

  unfoldable pub bit_names : List (RegisterDef fl) → List String
  bit_names [] = []
  bit_names (r ∷ rs) = bits_of r.bitmap ++ bit_names rs

  unfoldable pub validate_unique_register_names : List (RegisterDef fl) → Result (Unit {0})
  unfolding has_repeat names_of
  validate_unique_register_names rs = reject fl (has_repeat [] (names_of rs))

  unfoldable pub validate_unique_bitmap_names : List (RegisterDef fl) → Result (Unit {0})
  unfolding has_repeat names_of bit_names
  validate_unique_bitmap_names rs = reject fl (has_repeat [] (names_of rs ++ bit_names rs))

  -- one round of the loop of `_validate_group_register_types`, by the type of the group so far
  abbrev pub agrees : RegisterType → Option RegisterType → Bool
  agrees t none = true
  agrees t (some u) = same_type u t

  abbrev pub or_first : RegisterType → Option RegisterType → RegisterType
  or_first t none = t
  or_first t (some u) = u

  -- `groups` keeps the first type of each group
  abbrev pub noted : Option String → RegisterType → Dict RegisterType → Dict RegisterType
  noted none t groups = groups
  noted (some g) t groups = Dict.put groups g (or_first t (Dict.get groups g))

  abbrev pub fits : Option String → RegisterDef fl → Dict RegisterType → Bool
  fits none r groups = true
  fits (some g) r groups = r.poll && agrees r.register_type (Dict.get groups g)

  unfoldable pub check_group_types : List (RegisterDef fl) → Dict RegisterType → Result (Unit {0})
  check_group_types [] groups = ok tt
  check_group_types (r ∷ rs) groups = do
    reject fl (not (fits r.read_group r groups))
    check_group_types rs (noted r.read_group r.register_type groups)

  -- groups.setdefault(group, []).append(reg)
  abbrev pub appended : Option (List (RegisterDef fl)) → RegisterDef fl → List (RegisterDef fl)
  appended none r = r ∷ []
  appended (some rs) r = rs ++ (r ∷ [])

  abbrev pub put_in :
      Option String → RegisterDef fl → Dict (List (RegisterDef fl)) → Dict (List (RegisterDef fl))
  put_in none r groups = groups
  put_in (some g) r groups = Dict.put groups g (appended (Dict.get groups g) r)

  unfoldable pub collect :
      List (RegisterDef fl) → Dict (List (RegisterDef fl)) → Dict (List (RegisterDef fl))
  collect [] groups = groups
  collect (r ∷ rs) groups = collect rs (put_in r.read_group r groups)

  -- `_build_group_index`
  unfoldable pub build_group_index : List (RegisterDef fl) → Dict (List (RegisterDef fl))
  unfolding collect
  build_group_index rs = map (λ e. (e.0, sort fl e.1)) (collect rs [])

  -- regs[-1] of first and the others
  unfoldable pub last_of : RegisterDef fl → List (RegisterDef fl) → RegisterDef fl
  last_of r [] = r
  last_of r (x ∷ xs) = last_of x xs

  -- how many addresses a register takes
  unfoldable pub width : RegisterDef fl → ℕ
  width r = if is_bit_type r.register_type then 1 else register_count r.data_type

  unfoldable pub span : RegisterDef fl → RegisterDef fl → ℕ
  span first last =
      if is_bit_type first.register_type
      then last.starting_address + 1 - first.starting_address
      else last.starting_address + register_count last.data_type - first.starting_address

  unfoldable pub read_limit : RegisterDef fl → ℕ
  read_limit first = if is_bit_type first.register_type then 2000 else 125

  unfoldable pub check_span : List (RegisterDef fl) → Result (Unit {0})
  unfolding span read_limit last_of
  check_span [] = err Error.index_error
  check_span (first ∷ rest) = reject fl (ltb (read_limit first) (span first (last_of first rest)))

  unfoldable pub check_spans : Dict (List (RegisterDef fl)) → Result (Unit {0})
  unfolding check_span
  check_spans [] = ok tt
  check_spans ((g, regs) ∷ index) = do check_span regs; check_spans index

  -- `model_post_init`, for a configuration whose protocol is modbus
  unfoldable pub validate_config : List (RegisterDef fl) → Result (Unit {0})
  validate_config registers = do
    validate_unique_register_names registers
    validate_unique_bitmap_names registers
    validate_no_register_overlap fl registers
    check_group_types registers []
    check_spans (build_group_index registers)

  -- `_register_index`
  unfoldable pub register_index :
      List (RegisterDef fl) → Dict (RegisterDef fl) → Dict (RegisterDef fl)
  register_index [] index = index
  register_index (r ∷ rs) index = register_index rs (Dict.put index r.name r)

  unfoldable pub get_register : List (RegisterDef fl) → String → Result (RegisterDef fl)
  unfolding register_index
  get_register registers name = Dict.item (register_index registers []) name

  unfoldable pub get_group : List (RegisterDef fl) → String → Result (List (RegisterDef fl))
  unfolding build_group_index
  get_group registers group_id = Dict.item (build_group_index registers) group_id
