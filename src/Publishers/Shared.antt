-- ===== src/Publishers/Shared.antt =====
-- `SharedPublisher`: handles of one publisher, counted in a control block. The handles that exist
-- are a list, `true` for one that still has its control block; a handle is known by its place in
-- it. A `__del__` of a handle is a `close` of it.
use instro.Prelude.Exec.{modify, ◌>>◌, Exec}
use instro.Prelude.{
  ℕ, zero, suc, ◌+◌, ◌-◌, ◌*◌, ◌/◌, ◌%◌, ◌^◌, ◌≤◌, ◌<◌, min, String, ◌≡◌, refl, sym, ap, ap₂, subst,
  fun_ext, ◌∙◌, ◌≢◌, ◌↔◌, ◌⊎◌, inl, inr, Bool, true, false, not, ◌&&◌, ◌||◌, Option, none, some,
  List, [], ◌∷◌, ◌++◌, map, append-nil, append_assoc, arith, eq_iff, eq_refl, dec_lt, ℕ_discrete,
  ltb, leb, ◌==◌, if◌then◌else◌, Bool-cases, Option-cases, length, get_elem?, set, take, drop,
  replicate, last, length-append, length-take, length-drop, length-last, last-min, drop_all,
  take_all, take-append-drop, last_all, last-append_last, Result, ok, err, guard, Error,
  Result-cases, map_ok,
}
use instro.Publishers.{Publisher}
pub mod Counting
pub mod Log
mod Tests

pub record Block (P : Type 0) : Type 0 where
  pub count : ℕ
  pub publisher : P

pub record Handles (P : Type 0) : Type 0 where
  pub state : List Bool
  pub block : Block P

module _ {P D : Type 0} (pub_ops : Publisher P D) where
  open pub_ops use {publish, close}

  -- SharedPublisher(publisher)
  unfoldable pub new : P → Handles P
  new p = record { state = true ∷ []; block = record { count = 1; publisher = p } }

  -- the methods of `_ControlBlock`
  unfoldable pub increment : Exec (Block P) (Unit {0})
  increment b =
      if b.count == 0
      then (err Error.runtime_error, b)
      else (ok tt, record b { count = b.count + 1 })

  abbrev pub on_publisher : Exec P (Unit {0}) → Exec (Block P) (Unit {0})
  on_publisher m b = ((m b.publisher).0, record b { publisher = (m b.publisher).1 })

  unfoldable pub decrement : Exec (Block P) (Unit {0})
  decrement b =
      if leb b.count 0
      then (err Error.runtime_error, b)
      else (let left = record b { count = b.count - 1 } in
          if left.count == 0 then on_publisher close left else (ok tt, left))

  unfoldable pub publish_block : D → Exec (Block P) (Unit {0})
  publish_block item = on_publisher (publish item)

  abbrev pub on_block : Exec (Block P) (Unit {0}) → Exec (Handles P) (Unit {0})
  on_block m s = ((m s.block).0, record s { block = (m s.block).1 })

  -- `_state is not None` of handle `h`; a handle that does not exist has no state either
  abbrev pub has_state : ℕ → Handles P → Bool
  has_state h s = elim (get_elem? s.state h) [ none ↦ false | some b ↦ b ]

  -- `clone`: the new handle is the last one
  unfoldable pub clone : ℕ → Exec (Handles P) (Unit {0})
  unfolding increment
  clone h s =
      if not (has_state h s)
      then (err Error.runtime_error, s)
      else (do on_block increment; modify (λ t. record t { state = t.state ++ (true ∷ []) })) s

  unfoldable pub publish_handle : ℕ → D → Exec (Handles P) (Unit {0})
  unfolding publish_block
  publish_handle h item s =
      if not (has_state h s) then (err Error.runtime_error, s) else on_block (publish_block item) s

  -- `close`; the `finally` forgets the control block also if the decrement raises
  unfoldable pub close_handle : ℕ → Exec (Handles P) (Unit {0})
  unfolding decrement
  close_handle h s =
      if has_state h s
      then (let (r, t) = on_block decrement s in (r, record t { state = set t.state h false }))
      else (ok tt, s)
