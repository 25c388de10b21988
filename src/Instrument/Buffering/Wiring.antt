-- ===== src/Instrument/Buffering/Wiring.antt =====
-- The channel buffer of an instrument and its place among the publishers, over any use of the
-- instrument of instro/lib/instrument.py.
use instro.Prelude.{
  ℕ, ◌+◌, ◌-◌, ◌≡◌, refl, sym, ap, ◌∙◌, Bool, true, false, Option, none, some, List, [], ◌∷◌, ◌++◌,
  arith, ltb, Result, ok, err,
}
use instro.Publishers.{Publisher}
use instro.Types.{Published}
use instro.Instrument.{Buffer, Slot, given, channel_buffer}
use instro.Instrument.Publishing.{offer, offer_all, go_on}
use instro.Instrument.Buffering.{has_buffer, without_buffer, close_slot, close_slots}

abbrev pub is_some : {A : Type 0} → Option A → Bool
is_some none = false
is_some (some a) = true

module _ {P : Type 0} where
  -- how often the channel buffer stands in the list
  unfoldable pub places : List (Slot P) → ℕ
  places [] = 0
  places (given p ∷ ps) = places ps
  places (channel_buffer ∷ ps) = places ps + 1

  pub places-append : (ps qs : List (Slot P)) → places (ps ++ qs) ≡ places ps + places qs
  unfolding places
  places-append [] qs = omega arith
  places-append (given p ∷ ps) qs = places-append ps qs
  places-append (channel_buffer ∷ ps) qs = rw (places-append ps qs) (omega arith)

  pub has_buffer-places : (ps : List (Slot P)) → has_buffer ps ≡ ltb 0 (places ps)
  unfolding places has_buffer
  has_buffer-places [] = refl
  has_buffer-places (given p ∷ ps) = has_buffer-places ps
  has_buffer-places (channel_buffer ∷ ps) = ground arith

  pub places-without_buffer : (ps : List (Slot P)) → places (without_buffer ps) ≡ places ps - 1
  unfolding places without_buffer
  places-without_buffer [] = refl
  places-without_buffer (given p ∷ ps) = places-without_buffer ps
  places-without_buffer (channel_buffer ∷ ps) = omega arith

  pub without-append :
      (ps : List (Slot P)) → places ps ≡ 0 → without_buffer (ps ++ (channel_buffer ∷ [])) ≡ ps
  unfolding places without_buffer
  without-append [] h = refl
  without-append (given p ∷ ps) h = ap (λ qs. given p ∷ qs) (without-append ps h)
  without-append (channel_buffer ∷ ps) h = absurd (omega arith)

abbrev pub expected_places : {B : Type 0} → Option B → ℕ
expected_places none = 0
expected_places (some b) = 1

module _ {F V P B : Type 0} (publisher : Publisher P (Published V)) (buffer : Buffer F V B) where
  -- a loop over the publishers leaves every slot what it was
  pub record Kept (ps qs : List (Slot P)) (b c : Option B) : Type 0 where
    pub places_same : places qs ≡ places ps
    pub buffer_same : expected_places c ≡ expected_places b

  go_on-Kept :
      (r : Result (Unit {0})) (p q : Slot P) (ps : List (Slot P)) (b c : Option B)
      (rest : Result (Unit {0}) × (List (Slot P) × Option B))
      → places (q ∷ []) ≡ places (p ∷ [])
      → expected_places c ≡ expected_places b
      → Kept ps rest.1.0 c rest.1.1
      → (let t = go_on publisher buffer r q (ps, c) rest in Kept (p ∷ ps) t.1.0 b t.1.1)
  go_on-Kept (err e) p q ps b c rest k m h = record {
    places_same = places-append (q ∷ []) ps ∙ rw k (sym (places-append (p ∷ []) ps));
    buffer_same = m;
  }
  go_on-Kept (ok u) p q ps b c rest k m h = record {
    places_same =
        places-append (q ∷ []) rest.1.0 ∙ rw (k, h.places_same) (sym (places-append (p ∷ []) ps));
    buffer_same = h.buffer_same ∙ m;
  }

  pub offer_all-Kept :
      (d : Published V) (ps : List (Slot P)) (b : Option B)
      → (let t = offer_all publisher buffer d ps b in Kept ps t.1.0 b t.1.1)
  unfolding offer_all offer places
  offer_all-Kept d [] b = record { places_same = refl; buffer_same = refl }
  offer_all-Kept d (given p ∷ ps) b =
      go_on-Kept (publisher.publish d p).0 (given p) (given (publisher.publish d p).1) ps b b
        (offer_all publisher buffer d ps b) refl refl (offer_all-Kept d ps b)
  offer_all-Kept d (channel_buffer ∷ ps) none =
      go_on-Kept (ok tt) channel_buffer channel_buffer ps none none
        (offer_all publisher buffer d ps none) refl refl (offer_all-Kept d ps none)
  offer_all-Kept d (channel_buffer ∷ ps) (some b) =
      go_on-Kept (buffer.publish d b).0 channel_buffer channel_buffer ps (some b)
        (some (buffer.publish d b).1)
        (offer_all publisher buffer d ps (some (buffer.publish d b).1)) refl refl
        (offer_all-Kept d ps (some (buffer.publish d b).1))

  pub close_slots-Kept :
      (ps : List (Slot P)) (b : Option B)
      → (let t = close_slots publisher buffer ps b in Kept ps t.1.0 b t.1.1)
  unfolding close_slots close_slot places
  close_slots-Kept [] b = record { places_same = refl; buffer_same = refl }
  close_slots-Kept (given p ∷ ps) b =
      go_on-Kept (publisher.close p).0 (given p) (given (publisher.close p).1) ps b b
        (close_slots publisher buffer ps b) refl refl (close_slots-Kept ps b)
  close_slots-Kept (channel_buffer ∷ ps) none =
      go_on-Kept (ok tt) channel_buffer channel_buffer ps none none
        (close_slots publisher buffer ps none) refl refl (close_slots-Kept ps none)
  close_slots-Kept (channel_buffer ∷ ps) (some b) =
      go_on-Kept (buffer.close b).0 channel_buffer channel_buffer ps (some b)
        (some (buffer.close b).1) (close_slots publisher buffer ps (some (buffer.close b).1)) refl
        refl (close_slots-Kept ps (some (buffer.close b).1))
