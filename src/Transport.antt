-- ===== src/Transport.antt =====
-- instro/lib/transports/transport_base.py: a connection that several owners share. A holder is an
-- object, known by its identity, a number here. A transport gives the session as an interface.
use instro.Prelude.{
  ℕ, zero, suc, ◌+◌, ◌-◌, ◌*◌, ◌/◌, ◌%◌, ◌^◌, ◌≤◌, ◌<◌, min, String, ◌≡◌, refl, sym, ap, ap₂, subst,
  fun_ext, ◌∙◌, ◌≢◌, ◌↔◌, ◌⊎◌, inl, inr, Bool, true, false, not, ◌&&◌, ◌||◌, Option, none, some,
  List, [], ◌∷◌, ◌++◌, map, append-nil, append_assoc, arith, eq_iff, eq_refl, dec_lt, ℕ_discrete,
  ltb, leb, ◌==◌, if◌then◌else◌, Bool-cases, Option-cases, length, get_elem?, set, take, drop,
  replicate, last, length-append, length-take, length-drop, length-last, last-min, drop_all,
  take_all, take-append-drop, last_all, last-append_last, Result, ok, err, guard, Error,
  Result-cases, map_ok,
}
pub mod Ownership
mod Tests
use instro.Prelude.Exec.{Exec, pure, raise, modify, ◌>>=◌, ◌>>◌}

-- `_open_session`, `_teardown_session` and `is_open` of a transport, and what the base relies on.
pub record Session (S : Type 0) : Type 0 where
  pub open_session : Exec S (Unit {0})
  pub teardown_session : Exec S (Unit {0})
  pub is_open : S → Bool
  pub opens : (s : S) → (open_session s).0 ≡ ok tt → is_open (open_session s).1 ≡ true
  pub open_fails :
      (s : S) (e : Error) → (open_session s).0 ≡ err e → is_open (open_session s).1 ≡ is_open s
  pub tears_down : (s : S) → is_open (teardown_session s).1 ≡ false

pub record Transport (S : Type 0) : Type 0 where
  pub holders : List ℕ
  pub session : S

-- `_holder_index`
unfoldable pub index_from : ℕ → ℕ → List ℕ → Option ℕ
index_from i h [] = none
index_from i h (held ∷ rest) = if held == h then some i else index_from (suc i) h rest

unfoldable pub holder_index : ℕ → List ℕ → Option ℕ
unfolding index_from
holder_index h holders = index_from 0 h holders

-- `del self._holders[index]`
unfoldable pub del : ℕ → List ℕ → List ℕ
del i [] = []
del zero (h ∷ hs) = hs
del (suc i) (h ∷ hs) = h ∷ del i hs

abbrev pub is_empty : List ℕ → Bool
is_empty [] = true
is_empty (h ∷ hs) = false

module _ {S : Type 0} (ses : Session S) where
  open ses use {open_session, teardown_session}

  -- an action of the session, on the transport
  abbrev pub on_session : {A : Type 0} → Exec S A → Exec (Transport S) A
  on_session m t = ((m t.session).0, record t { session = (m t.session).1 })

  unfoldable pub admit : ℕ → Option ℕ → Exec (Transport S) Bool
  admit h (some i) = pure false
  admit h none = do
    on_session open_session
    modify (λ t. record t { holders = t.holders ++ (h ∷ []) })
    λ t. (ok (length t.holders == 1), t)

  -- `open(holder)`; `none` is a call without a holder
  unfoldable pub open_transport : Option ℕ → Exec (Transport S) Bool
  unfolding admit
  open_transport none t = (do on_session open_session; pure true) t
  open_transport (some h) t = admit h (holder_index h t.holders) t

  unfoldable pub release : Option ℕ → Exec (Transport S) (Unit {0})
  release none t = if is_empty t.holders then (ok tt, t) else (err Error.unknown_holder, t)
  release (some i) t =
      let left = record t { holders = del i t.holders } in
      if is_empty left.holders then on_session teardown_session left else (ok tt, left)

  -- `close(holder)`
  unfoldable pub close_transport : Option ℕ → Exec (Transport S) (Unit {0})
  unfolding release
  close_transport none t = if is_empty t.holders then on_session teardown_session t else (ok tt, t)
  close_transport (some h) t = release (holder_index h t.holders) t
