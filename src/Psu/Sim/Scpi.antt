-- ===== src/Psu/Sim/Scpi.antt =====
-- The command table and the dispatch of `SimulatedPSU` in instro/psu/scpi_sim_server.py. A command
-- pattern is given as `_segments` reads it: its parts, and which of them stand in brackets.
use instro.Prelude.{
  ℕ, zero, suc, ◌+◌, ◌-◌, ◌*◌, ◌/◌, ◌%◌, ◌^◌, ◌≤◌, ◌<◌, min, String, ◌≡◌, refl, sym, ap, ap₂, subst,
  fun_ext, ◌∙◌, ◌≢◌, ◌↔◌, ◌⊎◌, inl, inr, Bool, true, false, not, ◌&&◌, ◌||◌, Option, none, some,
  List, [], ◌∷◌, ◌++◌, map, append-nil, append_assoc, arith, eq_iff, eq_refl, dec_lt, ℕ_discrete,
  ltb, leb, ◌==◌, if◌then◌else◌, Bool-cases, Option-cases, length, get_elem?, set, take, drop,
  replicate, last, length-append, length-take, length-drop, length-last, last-min, drop_all,
  take_all, take-append-drop, last_all, last-append_last, Result, ok, err, guard, Error,
  Result-cases, map_ok,
}
use instro.Float.{Floats}
use instro.Prelude.Exec.{Exec, lift, ◌>>=◌, pure, modify, ◌>>◌}
use instro.Psu.Sim.{
  ScpiError, undefined_header, parameter_not_allowed, invalid_character_data, Supply, push_error,
}
use instro.Psu.Sim.Text.{
  Text, codes, eq_text, upper, strip, partition, drop_mark, normalize_header, positional_args,
  join_colon,
}
use instro.Psu.Sim.Handlers.{
  Response, Handler, nothing, get_id, reset, clear_status, get_error, set_output, query_output,
  clear_protection_latch, query_protection_tripped, query_mode, measure_voltage, measure_current,
  set_voltage, query_voltage, set_current, query_current, set_ocp_level, query_ocp_level,
  set_ocp_state, query_ocp_state, set_ovp_level, query_ovp_level, set_ovp_state, query_ovp_state,
  set_remote_sense, query_remote_sense,
}
pub mod Safety
pub mod Table
mod Tests

-- a part of a pattern, and whether it is optional
pub record Segment : Type 0 where
  pub part : Text
  pub is_optional : Bool

abbrev must : String → Segment
must s = record { part = codes s; is_optional = false }

abbrev may : String → Segment
may s = record { part = codes s; is_optional = true }

-- the segments up to the first required one, and the others
unfoldable pub leading : List Segment → List Text × List Segment
leading [] = ([], [])
leading (s ∷ rest) =
    let more = leading rest in if s.is_optional then (s.part ∷ more.0, more.1) else ([], s ∷ rest)

-- the required segments from there on, and the others
unfoldable pub required_run : List Segment → List Text × List Segment
required_run [] = ([], [])
required_run (s ∷ rest) =
    let more = required_run rest in
    if s.is_optional then ([], s ∷ rest) else (s.part ∷ more.0, more.1)

unfoldable pub all_optional : List Segment → Bool
all_optional [] = true
all_optional (s ∷ rest) = s.is_optional && all_optional rest

abbrev pub none_of : List Text → Bool
none_of [] = true
none_of (t ∷ ts) = false

-- `_split_segments`, with its ValueError for a pattern that has no required part or an optional part
-- between required ones
unfoldable pub split_segments : List Segment → Result (List Text × List Text × List Text)
unfolding leading required_run all_optional
split_segments segments =
    let (prefix, rest) = leading segments in
    let (required, last_ones) = required_run rest in
    if none_of required || not (all_optional last_ones)
    then err Error.value_error
    else ok (prefix, required, map (λ s. Segment.part s) last_ones)

abbrev is_lower : ℕ → Bool
is_lower c = leb b'a' c && leb c b'z'

-- the characters that are no letter or a capital one
unfoldable pub capitals : Text → Text
capitals [] = []
capitals (c ∷ s) = let rest = capitals s in if is_lower c then rest else c ∷ rest

unfoldable pub keyword_forms : Text → List Text
unfolding capitals
keyword_forms t =
    let long = upper t in
    let short = upper (capitals t) in if eq_text short long then short ∷ [] else short ∷ long ∷ []

-- [path + (form,) for path in paths for form in forms]
unfoldable pub extend_paths : List (List Text) → List Text → List (List Text)
extend_paths [] forms = []
extend_paths (p ∷ paths) forms = map (λ f. p ++ (f ∷ [])) forms ++ extend_paths paths forms

unfoldable pub paths_from : List (List Text) → List Text → List (List Text)
unfolding extend_paths keyword_forms
paths_from paths [] = paths
paths_from paths (part ∷ parts) = paths_from (extend_paths paths (keyword_forms part)) parts

-- `_paths_for`
abbrev pub paths_for : List Text → List (List Text)
paths_for parts = paths_from ([] ∷ []) parts

-- [required + suffix[:count] for count in range(k, len(suffix) + 1)], where `done` is suffix[:k]
unfoldable pub longer_headers : List Text → List Text → List (List Text)
longer_headers done [] = done ∷ []
longer_headers done (t ∷ ts) = done ∷ longer_headers (done ++ (t ∷ [])) ts

abbrev pub with_prefix : List Text → List (List Text) → List (List Text)
with_prefix [] hs = hs
with_prefix (p ∷ ps) hs = hs ++ map (λ h. (p ∷ ps) ++ h) hs

unfoldable pub all_paths : List (List Text) → List Text
unfolding join_colon
all_paths [] = []
all_paths (h ∷ hs) = map join_colon (paths_for h) ++ all_paths hs

abbrev headers_of : Result (List Text × List Text × List Text) → List Text
headers_of (err e) = []
headers_of (ok (prefix, required, suffix)) =
    all_paths (with_prefix prefix (longer_headers required suffix))

-- `headers`; a pattern that `_split_segments` refuses, of which there is none, has no headers here
unfoldable pub headers : List Segment → List Text
headers segments = headers_of (split_segments segments)

module _ (fl : Floats) (gauss : fl.F → fl.F → fl.F) where
  -- `_SCPICommand`
  pub record Command : Type 0 where
    pub command : List Segment
    pub write : Option (Handler fl gauss)
    pub query : Option (Handler fl gauss)

  -- a dict whose last assignment to a key stands first
  abbrev pub Table : Type 0
  Table = List (Text × Handler fl gauss)

  unfoldable pub lookup : Table → Text → Option (Handler fl gauss)
  lookup [] key = none
  lookup ((k, h) ∷ t) key = if eq_text k key then some h else lookup t key

  abbrev pub enter : Text → Option (Handler fl gauss) → Table → Table
  enter key none t = t
  enter key (some h) t = (key, h) ∷ t

  unfoldable pub register_headers : List Text → Command → Table → Table
  register_headers [] c t = t
  register_headers (h ∷ hs) c t =
      register_headers hs c (enter (h ++ (b'?' ∷ [])) c.query (enter h c.write t))

  unfoldable pub register_all : List Command → Table → Table
  unfolding register_headers headers
  register_all [] t = t
  register_all (c ∷ cs) t = register_all cs (register_headers (headers c.command) c t)

  abbrev query_only : List Segment → Handler fl gauss → Command
  query_only p q = record { command = p; write = none; query = some q }

  abbrev write_only : List Segment → Handler fl gauss → Command
  write_only p w = record { command = p; write = some w; query = none }

  abbrev both : List Segment → Handler fl gauss → Handler fl gauss → Command
  both p w q = record { command = p; write = some w; query = some q }

  abbrev amplitude : List Segment
  amplitude = may "LEVel" ∷ may "IMMediate" ∷ may "AMPLitude" ∷ []

  -- `_SCPI_COMMANDS`
  unfoldable pub scpi_commands : List Command
  scpi_commands =
      query_only (must "*IDN" ∷ []) (get_id fl gauss)
      ∷ write_only (must "*RST" ∷ []) (reset fl gauss)
      ∷ write_only (must "*CLS" ∷ []) (clear_status fl gauss)
      ∷ query_only (must "SYSTem" ∷ must "ERRor" ∷ []) (get_error fl gauss)
      ∷ both (must "OUTPut" ∷ may "STATe" ∷ []) (set_output fl gauss) (query_output fl gauss)
      ∷ write_only (must "OUTPut" ∷ must "PROTection" ∷ must "CLEar" ∷ [])
          (clear_protection_latch fl gauss)
      ∷ query_only (must "OUTPut" ∷ must "PROTection" ∷ must "TRIPped" ∷ [])
          (query_protection_tripped fl gauss)
      ∷ query_only (must "OUTPut" ∷ must "MODE" ∷ []) (query_mode fl gauss)
      ∷ query_only (must "MEASure" ∷ must "VOLTage" ∷ []) (measure_voltage fl gauss)
      ∷ query_only (must "MEASure" ∷ must "CURRent" ∷ []) (measure_current fl gauss)
      ∷ both (may "SOURce" ∷ must "VOLTage" ∷ amplitude) (set_voltage fl gauss)
          (query_voltage fl gauss)
      ∷ both (may "SOURce" ∷ must "CURRent" ∷ amplitude) (set_current fl gauss)
          (query_current fl gauss)
      ∷ both (may "SOURce" ∷ must "CURRent" ∷ must "PROTection" ∷ may "LEVel" ∷ [])
          (set_ocp_level fl gauss) (query_ocp_level fl gauss)
      ∷ both (may "SOURce" ∷ must "CURRent" ∷ must "PROTection" ∷ must "STATe" ∷ [])
          (set_ocp_state fl gauss) (query_ocp_state fl gauss)
      ∷ both (may "SOURce" ∷ must "VOLTage" ∷ must "PROTection" ∷ may "LEVel" ∷ [])
          (set_ovp_level fl gauss) (query_ovp_level fl gauss)
      ∷ both (may "SOURce" ∷ must "VOLTage" ∷ must "PROTection" ∷ must "STATe" ∷ [])
          (set_ovp_state fl gauss) (query_ovp_state fl gauss)
      ∷ both (must "SYSTem" ∷ must "SENSe" ∷ may "STATe" ∷ []) (set_remote_sense fl gauss)
          (query_remote_sense fl gauss)
      ∷ []

  -- `_COMMAND_TABLE`
  unfoldable pub command_table : Table
  unfolding register_all scpi_commands
  command_table = register_all scpi_commands []

  abbrev pub refused : ScpiError → Exec (Supply fl) (Response fl gauss)
  refused e = do modify (push_error fl e); pure nothing

  -- `except ValueError`
  abbrev pub catch_value_error :
      Result (Response fl gauss) × Supply fl → Result (Response fl gauss) × Supply fl
  catch_value_error (ok r, s) = (ok r, s)
  catch_value_error (err Error.value_error, s) = refused invalid_character_data s
  catch_value_error (err e, s) = (err e, s)

  -- the rest of `_dispatch`, once the handler is looked up
  unfoldable pub call_handler :
      Option (Handler fl gauss) → Bool → ℕ → List Text → Exec (Supply fl) (Response fl gauss)
  call_handler none is_query channel args s = refused undefined_header s
  call_handler (some h) is_query channel args s =
      if is_query && not (none_of args)
      then refused parameter_not_allowed s
      else catch_value_error (h channel args s)

  unfoldable pub dispatch : Text → Exec (Supply fl) (Response fl gauss)
  unfolding lookup call_handler partition drop_mark strip positional_args
  dispatch cmd =
      let (first, rest) = partition cmd in
      let (header, is_query) = drop_mark first in
      do
        (canonical, channel) ← lift (normalize_header header)
        let key = canonical ++ (if is_query then b'?' ∷ [] else [])
        call_handler (lookup command_table key) is_query channel (positional_args (strip rest))

  abbrev pub dispatch_stripped : Text → Exec (Supply fl) (Response fl gauss)
  dispatch_stripped [] = pure nothing
  dispatch_stripped (c ∷ t) = dispatch (c ∷ t)

  unfoldable pub process_scpi_command : Text → Exec (Supply fl) (Response fl gauss)
  unfolding dispatch
  process_scpi_command cmd = dispatch_stripped (strip cmd)
