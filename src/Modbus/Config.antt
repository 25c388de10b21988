-- ===== src/Modbus/Config.antt =====
-- `ModbusConfig._validate_no_register_overlap` of instro/modbus/types.py.
use instro.Prelude.{
  ◌>>=◌, ◌>>◌, ℕ, zero, suc, ◌+◌, ◌-◌, ◌*◌, ◌/◌, ◌%◌, ◌^◌, ◌≤◌, ◌<◌, min, String, ◌≡◌, refl, sym,
  ap, ap₂, subst, fun_ext, ◌∙◌, ◌≢◌, ◌↔◌, ◌⊎◌, inl, inr, Bool, true, false, not, ◌&&◌, ◌||◌, Option,
  none, some, List, [], ◌∷◌, ◌++◌, map, append-nil, append_assoc, arith, eq_iff, eq_refl, dec_lt,
  ℕ_discrete, ltb, leb, ◌==◌, if◌then◌else◌, Bool-cases, Option-cases, length, get_elem?, set, take,
  drop, replicate, last, length-append, length-take, length-drop, length-last, last-min, drop_all,
  take_all, take-append-drop, last_all, last-append_last, Result, ok, err, guard, Error,
  Result-cases, map_ok,
}
use instro.Float.{Floats}
use instro.Modbus.{RegisterType, holding, input, coil, discrete, register_count}
use instro.Modbus.Register.{RegisterDef, is_bit_type, reject}
pub mod Disjoint
pub mod Groups
mod Tests

abbrev pub same_type : RegisterType → RegisterType → Bool
same_type holding holding = true
same_type input input = true
same_type coil coil = true
same_type discrete discrete = true
same_type _ _ = false

module _ (fl : Floats) where
  -- by_type[t], in the order of the configuration
  unfoldable pub of_type : RegisterType → List (RegisterDef fl) → List (RegisterDef fl)
  of_type t [] = []
  of_type t (r ∷ rs) =
      let rest = of_type t rs in if same_type r.register_type t then r ∷ rest else rest

  -- regs.sort(key=lambda x: x.starting_address), which keeps the order of equal keys
  unfoldable pub insert : RegisterDef fl → List (RegisterDef fl) → List (RegisterDef fl)
  insert r [] = r ∷ []
  insert r (x ∷ xs) =
      let rest = insert r xs in
      if leb r.starting_address x.starting_address then r ∷ x ∷ xs else x ∷ rest

  unfoldable pub sort : List (RegisterDef fl) → List (RegisterDef fl)
  sort [] = []
  sort (r ∷ rs) = insert r (sort rs)

  -- end1, with one address for a bit
  unfoldable pub end_of : RegisterDef fl → ℕ
  end_of r =
      if is_bit_type r.register_type
      then r.starting_address + 1 - 1
      else r.starting_address + register_count r.data_type - 1

  unfoldable pub overlaps : RegisterDef fl → RegisterDef fl → Bool
  overlaps a b = leb a.starting_address (end_of b) && leb b.starting_address (end_of a)

  -- the inner loop
  unfoldable pub check_after : RegisterDef fl → List (RegisterDef fl) → Result (Unit {0})
  check_after a [] = ok tt
  check_after a (b ∷ rest) = do reject fl (overlaps a b); check_after a rest

  unfoldable pub check_pairs : List (RegisterDef fl) → Result (Unit {0})
  check_pairs [] = ok tt
  check_pairs (a ∷ rest) = do check_after a rest; check_pairs rest

  -- The loop over the register types. A type without registers has nothing to check, and the order
  -- of the types only decides which overlap the message names.
  unfoldable pub validate_no_register_overlap : List (RegisterDef fl) → Result (Unit {0})
  validate_no_register_overlap registers = do
    check_pairs (sort (of_type holding registers))
    check_pairs (sort (of_type input registers))
    check_pairs (sort (of_type coil registers))
    check_pairs (sort (of_type discrete registers))
