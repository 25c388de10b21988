-- ===== src/Publishers/Shared/Log.antt =====
-- What the shared publisher is sent: a publisher that keeps a log, newest call first, shows it.
use instro.Prelude.{ℕ, zero, suc, ◌<◌, refl, ◌↔◌, inl, inr, List, [], ◌∷◌, arith, Bool-cases, ok}
use instro.Publishers.{Publisher}
use instro.Publishers.Shared.{Handles, new, has_state, clone, publish_handle, close_handle}
use instro.Publishers.Shared.Counting.{
  live, Action, clones, closes, publishes, step, run, IsCounted, has_state-live, close_handle_lem,
  clone_lem, run-IsCounted,
}

pub data Event (D : Type 0) : Type 0 where
  published : D → Event D
  closed : Event D

module _ {D : Type 0} where
  abbrev pub recorder : Publisher (List (Event D)) D
  recorder = record {
    publish = λ d log. (ok tt, published d ∷ log);
    close = λ log. (ok tt, closed ∷ log);
  }

  abbrev pub NoClose : List (Event D) → Type 0
  NoClose [] = Unit {0}
  NoClose (published d ∷ log) = NoClose log
  NoClose (closed ∷ log) = ⊥

  -- With handles open the publisher was not closed; with none, closing it was the last call.
  abbrev pub IsLog : ℕ → List (Event D) → Type 0
  IsLog (suc n) log = NoClose log
  IsLog zero [] = ⊥
  IsLog zero (published d ∷ log) = ⊥
  IsLog zero (closed ∷ log) = NoClose log

  IsLog-open : (n : ℕ) (log : List (Event D)) → 0 < n → IsLog n log ↔ NoClose log
  IsLog-open zero log h = absurd (omega arith)
  IsLog-open (suc n) log h = (λ x. x, λ x. x)

  pub record Logged (s : Handles (List (Event D))) : Type 0 where
    pub counted : IsCounted recorder s
    pub logged : IsLog (live s.state) s.block.publisher

  publish-IsLog :
      (h : ℕ) (d : D) (s : Handles (List (Event D)))
      → IsLog (live s.state) s.block.publisher
      → let s' = (publish_handle recorder h d s).1 in IsLog (live s'.state) s'.block.publisher
  unfolding publish_handle
  publish-IsLog h d s l = elim (Bool-cases (has_state recorder h s)) [
    | inl e ↦
        let p = has_state-live recorder h s e in
        rw e
          ((IsLog-open (live s.state) _ p).1 ((IsLog-open (live s.state) s.block.publisher p).0 l))
    | inr e ↦ rw e l
  ]

  clone-IsLog :
      (h : ℕ) (s : Handles (List (Event D)))
      → IsCounted recorder s
      → IsLog (live s.state) s.block.publisher
      → let s' = (clone recorder h s).1 in IsLog (live s'.state) s'.block.publisher
  clone-IsLog h s c l = elim (Bool-cases (has_state recorder h s)) [
    | inl e ↦
        let p = has_state-live recorder h s e in
        let (r, n, q) = clone_lem recorder h s c e in
        rw (n, q) ((IsLog-open (live s.state) s.block.publisher p).0 l)
    | inr e ↦ unfold clone in rw e l
  ]

  close-IsLog :
      (h : ℕ) (s : Handles (List (Event D)))
      → IsCounted recorder s
      → IsLog (live s.state) s.block.publisher
      → let s' = (close_handle recorder h s).1 in IsLog (live s'.state) s'.block.publisher
  close-IsLog h s c l = elim ((close_handle_lem recorder h s c).1) [
    | inl (e, q, r) ↦ rw q l
    | inr (inl (n, p, q, r)) ↦ rw q (
        (IsLog-open _ s.block.publisher p).1
          ((IsLog-open (live s.state) s.block.publisher (omega arith)).0 l))
    | inr (inr (n, z, q, r)) ↦
        rw (z, q) ((IsLog-open (live s.state) s.block.publisher (omega arith)).0 l)
  ]

  run-Logged :
      (acts : List (Action D)) (s : Handles (List (Event D)))
      → Logged s
      → Logged (run recorder acts s)
  unfolding run
  run-Logged [] s l = l
  run-Logged (clones h ∷ acts) s l = run-Logged acts (step recorder (clones h) s) (record {
    counted = run-IsCounted recorder (clones h ∷ []) s l.counted;
    logged = clone-IsLog h s l.counted l.logged;
  })
  run-Logged (closes h ∷ acts) s l = run-Logged acts (step recorder (closes h) s) (record {
    counted = run-IsCounted recorder (closes h ∷ []) s l.counted;
    logged = close-IsLog h s l.counted l.logged;
  })
  run-Logged (publishes h d ∷ acts) s l =
      run-Logged acts (step recorder (publishes h d) s) (record {
        counted = run-IsCounted recorder (publishes h d ∷ []) s l.counted;
        logged = publish-IsLog h d s l.logged;
      })

  -- After any calls on the handles of a new shared publisher, if a handle is still open then the
  -- publisher was never closed; if none is, then it was closed once, and nothing was published
  -- to it afterwards.
  pub run-IsLog :
      (acts : List (Action D))
      → let s = run recorder acts (new recorder []) in IsLog (live s.state) s.block.publisher
  unfolding new
  run-IsLog acts =
      Logged.logged (run-Logged acts (new recorder []) (record { counted = refl; logged = tt }))
