-- ===== src/Instrument/Publishing.antt =====
-- `publish` and the decorators of instro/lib/instrument.py.
use instro.Prelude.{
  ℕ, zero, suc, ◌+◌, ◌-◌, ◌*◌, ◌/◌, ◌%◌, ◌^◌, ◌≤◌, ◌<◌, min, String, ◌≡◌, refl, sym, ap, ap₂, subst,
  fun_ext, ◌∙◌, ◌≢◌, ◌↔◌, ◌⊎◌, inl, inr, Bool, true, false, not, ◌&&◌, ◌||◌, Option, none, some,
  List, [], ◌∷◌, ◌++◌, map, append-nil, append_assoc, arith, eq_iff, eq_refl, dec_lt, ℕ_discrete,
  ltb, leb, ◌==◌, if◌then◌else◌, Bool-cases, Option-cases, length, get_elem?, set, take, drop,
  replicate, last, length-append, length-take, length-drop, length-last, last-min, drop_all,
  take_all, take-append-drop, last_all, last-append_last, Result, ok, err, guard, Error,
  Result-cases, map_ok,
}
use instro.Publishers.{Publisher}
use instro.Instrument.{Instrument, Buffer, Slot, given, channel_buffer}
use instro.Prelude.Exec.{Exec, pure, raise, lift, gets, modify, resume, ◌>>=◌, ◌>>◌}
use instro.Prelude.Dict.{Dict}
use instro.Types.{Measurement, Command, Published, measurement, command}
pub mod Checks
pub mod Sent

-- one of the items that a measuring method returns, which Python does not type
pub data Item (V : Type 0) : Type 0 where
  measured : Measurement V → Item V
  other : Item V

pub data Returned (V : Type 0) : Type 0 where
  nothing : Returned V
  one : Item V → Returned V
  many : List (Item V) → Returned V

pub data Answer (V : Type 0) : Type 0 where
  commanded : Command V → Answer V
  no_command : Answer V

-- a check, then another if the first raises nothing
abbrev pub and_also : Result (Unit {0}) → Result (Unit {0}) → Result (Unit {0})
and_also (err e) r = err e
and_also (ok u) r = r

module _ {V : Type 0} where
  unfoldable pub items_of : Returned V → List (Item V)
  items_of nothing = []
  items_of (one i) = i ∷ []
  items_of (many is) = is

  -- `is_plain` is isinstance(value, (int, float, str))
  module _ (is_plain : V → Bool) where
    -- the check of one channel's values: the first one stands for all
    abbrev pub check_values : List V → Result (Unit {0})
    check_values [] = ok tt
    check_values (v ∷ vs) = guard (is_plain v) Error.type_error

    unfoldable pub check_channels : Dict (List V) → Result (Unit {0})
    check_channels [] = ok tt
    check_channels ((k, vs) ∷ d) = and_also (check_values vs) (check_channels d)

    unfoldable pub check_item : Item V → Result (Unit {0})
    unfolding check_channels
    check_item (measured m) = check_channels m.channel_data
    check_item other = err Error.type_error

    unfoldable pub check_items : List (Item V) → Result (Unit {0})
    unfolding check_item
    check_items [] = ok tt
    check_items (i ∷ is) = and_also (check_item i) (check_items is)

module _ {F V P B : Type 0} (publisher : Publisher P (Published V)) (buffer : Buffer F V B) where
  -- one round of the loop of `publish`; a channel buffer in the list is the one that the instrument
  -- holds
  unfoldable pub offer : Published V → Slot P → Option B → Result (Unit {0}) × (Slot P × Option B)
  offer d (given p) b = ((publisher.publish d p).0, (given (publisher.publish d p).1, b))
  offer d channel_buffer none = (ok tt, (channel_buffer, none))
  offer d channel_buffer (some b) =
      ((buffer.publish d b).0, (channel_buffer, some (buffer.publish d b).1))

  -- the publishers after the first one, if that one has not raised
  abbrev pub go_on :
      Result (Unit {0})
      → Slot P
      → List (Slot P) × Option B
      → Result (Unit {0}) × (List (Slot P) × Option B)
      → Result (Unit {0}) × (List (Slot P) × Option B)
  go_on (err e) q (ps, c) rest = (err e, (q ∷ ps, c))
  go_on (ok u) q untouched rest = (rest.0, (q ∷ rest.1.0, rest.1.1))

  unfoldable pub offer_all :
      Published V → List (Slot P) → Option B → Result (Unit {0}) × (List (Slot P) × Option B)
  unfolding offer
  offer_all d [] b = (ok tt, ([], b))
  offer_all d (p ∷ ps) b = let (r, (q, c)) = offer d p b in go_on r q (ps, c) (offer_all d ps c)

  module _ {M W : Type 0} where
    unfoldable pub publish : Published V → Exec (Instrument F P B M W) (Unit {0})
    unfolding offer_all
    publish d s =
        let (r, (ps, b)) = offer_all d s.publishers s.buffer in
        (r, record s { publishers = ps; buffer = b })

    unfoldable pub publish_each : List (Published V) → Exec (Instrument F P B M W) (Unit {0})
    publish_each [] = pure tt
    publish_each (d ∷ ds) = do publish d; publish_each ds

    -- the loop that publishes the items, which the checks have let through
    unfoldable pub publish_items : List (Item V) → Exec (Instrument F P B M W) (Unit {0})
    publish_items [] = pure tt
    publish_items (measured m ∷ is) = do publish (measurement m); publish_items is
    publish_items (other ∷ is) = publish_items is

    -- @publish_command
    unfoldable pub publish_command :
        Exec (Instrument F P B M W) (Answer V) → Exec (Instrument F P B M W) (Command V)
    publish_command func = do
      result ← func
      elim result [
        | commanded c ↦ (do publish (command c); pure c)
        | no_command ↦ raise Error.type_error
      ]

    -- @publish_measurement
    unfoldable pub publish_measurement :
        (V → Bool)
        → Exec (Instrument F P B M W) (Returned V)
        → Exec (Instrument F P B M W) (Returned V)
    publish_measurement is_plain func = do
      result ← func
      lift (check_items is_plain (items_of result))
      publish_items (items_of result)
      pure result
