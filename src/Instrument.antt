-- ===== src/Instrument.antt =====
-- `Instrument` of instro/lib/instrument.py: its publishers, the packaging of data, the decorators
-- that publish, and the channel buffer of the background thread. What a subclass holds (a driver and
-- the device behind it) is `device`. A registered background function is known by a label.
use instro.Prelude.{
  ℕ, zero, suc, ◌+◌, ◌-◌, ◌*◌, ◌/◌, ◌%◌, ◌^◌, ◌≤◌, ◌<◌, min, String, ◌≡◌, refl, sym, ap, ap₂, subst,
  fun_ext, ◌∙◌, ◌≢◌, ◌↔◌, ◌⊎◌, inl, inr, Bool, true, false, not, ◌&&◌, ◌||◌, Option, none, some,
  List, [], ◌∷◌, ◌++◌, map, append-nil, append_assoc, arith, eq_iff, eq_refl, dec_lt, ℕ_discrete,
  ltb, leb, ◌==◌, if◌then◌else◌, Bool-cases, Option-cases, length, get_elem?, set, take, drop,
  replicate, last, length-append, length-take, length-drop, length-last, last-min, drop_all,
  take_all, take-append-drop, last_all, last-append_last, Result, ok, err, guard, Error,
  Result-cases, map_ok,
}
use instro.Publishers.{Publisher}
use instro.Float.{Floats}
use instro.Prelude.Exec.{Exec, pure, raise, lift, gets, modify, ◌>>=◌, ◌>>◌}
use instro.Prelude.Words.{join, same}
use instro.Prelude.Int.{ℤ}
use instro.Prelude.Dict
use instro.Prelude.Dict.{Dict}
use instro.Types.{Measurement, Command, Published, measurement, command}
pub mod Daemon
pub mod Publishing
pub mod Buffering
mod Tests

-- a publisher in the list: one that was given, or the channel buffer, which the instrument holds too
pub data Slot (P : Type 0) : Type 0 where
  given : P → Slot P
  channel_buffer : Slot P

pub record Instrument (F P B M W : Type 0) : Type 0 where
  pub name : String
  pub legacy_naming : Bool
  pub publishers : List (Slot P)
  pub default_tags : Dict String
  -- `_background_config.interval`
  pub interval : F
  pub background_methods : List M
  -- `_daemon_work_times`, a deque of at most 10
  pub work_times : List F
  pub interval_warning_issued : Bool
  pub buffer : Option B
  -- `_background_thread` is alive
  pub alive : Bool
  pub stop_event : Bool
  pub device : W

-- `DequeInMemoryPublisher` as the instrument uses it
pub record Buffer (F V B : Type 0) : Type 0 where
  pub new : ℕ → B
  pub publish : Published V → Exec B (Unit {0})
  pub close : Exec B (Unit {0})
  pub get : String → ℕ → Bool → F → Exec B (Measurement V)

-- what a packaged channel carries
pub data Value (F : Type 0) : Type 0 where
  number : F → Value F
  text : String → Value F

-- what a caller hands to be packaged
pub data Raw (F : Type 0) : Type 0 where
  plain : F → Raw F
  flag : Bool → Raw F
  word : String → Raw F

-- {**a, **b}
unfoldable pub merged : Dict String → Dict String → Dict String
merged a [] = a
merged a ((k, v) ∷ b) = merged (Dict.put a k v) b

module _ (fl : Floats) where
  open fl use {F, lit}

  -- data if isinstance(data, (float, str)) else float(data)
  abbrev pub as_value : Raw F → Value F
  as_value (plain x) = number x
  as_value (flag b) = number (if b then lit 1 else lit 0)
  as_value (word s) = text s

module _ (fl : Floats) {P B M W : Type 0} where
  open fl use {F, lit}

  -- f"{self.name}.{channel}"
  abbrev pub full_name : (Instrument F P B M W) → String → String
  full_name s channel = join s.name (join "." channel)

  unfoldable pub package_command :
      String → Raw F → ℤ → Dict String → (Instrument F P B M W) → Command (Value F)
  package_command channel x timestamp kwargs s = record {
    channel_data = (full_name s channel, as_value fl x) ∷ [];
    timestamp = timestamp;
    tags = some (merged s.default_tags kwargs);
  }

  unfoldable pub package_measurement :
      String → Raw F → ℤ → Dict String → (Instrument F P B M W) → Measurement (Value F)
  package_measurement channel x timestamp kwargs s = record {
    channel_data = (full_name s channel, as_value fl x ∷ []) ∷ [];
    timestamps = timestamp ∷ [];
    tags = some (merged s.default_tags kwargs);
  }

  unfoldable pub add_publisher : P → (Instrument F P B M W) → (Instrument F P B M W)
  add_publisher p s = record s { publishers = s.publishers ++ (given p ∷ []) }

  -- `_process_kwargs`; `core_publisher` is NominalCorePublisher(rid)
  unfoldable pub process_kwargs :
      (String → Result P) → Dict String → Exec (Instrument F P B M W) (Unit {0})
  unfolding add_publisher
  process_kwargs core_publisher [] = pure tt
  process_kwargs core_publisher ((key, value) ∷ kwargs) = do
    (if same key "dataset_rid"
        then (do p ← lift (core_publisher value); modify (add_publisher p))
        else modify (λ s. record s { default_tags = Dict.put s.default_tags key value }))
    process_kwargs core_publisher kwargs

  -- the constructor; `package_tags` is what `_add_package_tags` finds out about the distribution
  unfoldable pub new :
      (String → Result P)
      → Dict String
      → String
      → Option (List P)
      → Option F
      → Bool
      → Dict String
      → W
      → Result (Unit {0}) × (Instrument F P B M W)
  unfolding process_kwargs
  new core_publisher package_tags name publishers interval legacy_naming kwargs device =
      process_kwargs core_publisher kwargs (record {
        name = name;
        legacy_naming = legacy_naming;
        publishers = map given (elim publishers [ none ↦ [] | some ps ↦ ps ]);
        default_tags = package_tags;
        interval = elim interval [ none ↦ lit 1 | some x ↦ x ];
        background_methods = [];
        work_times = [];
        interval_warning_issued = false;
        buffer = none;
        alive = false;
        stop_event = false;
        device = device;
      })
