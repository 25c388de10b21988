-- ===== src/Publishers/Shared/Counting.antt =====
-- The count of the control block is the number of handles that are open, and the publisher is
-- closed with the last of them.
use instro.Prelude.{
  ℕ, zero, suc, ◌<◌, ◌≡◌, refl, ap, ◌⊎◌, inl, inr, Bool, true, false, none, some, List, [], ◌∷◌,
  ◌++◌, arith, ◌==◌, Bool-cases, Option-cases, get_elem?, set, ok,
}
use instro.Publishers.{Publisher}
use instro.Publishers.Shared.{Handles, has_state, clone, publish_handle, close_handle}

-- how many handles are open
abbrev pub live : List Bool → ℕ
live [] = 0
live (true ∷ bs) = suc (live bs)
live (false ∷ bs) = live bs

live-snoc : (bs : List Bool) → live (bs ++ (true ∷ [])) ≡ suc (live bs)
live-snoc [] = refl
live-snoc (true ∷ bs) = ap suc (live-snoc bs)
live-snoc (false ∷ bs) = live-snoc bs

live-set :
    (bs : List Bool) (h : ℕ) → get_elem? bs h ≡ some true → live bs ≡ suc (live (set bs h false))
live-set [] h e = cc
live-set (b ∷ bs) zero e = ground arith
live-set (true ∷ bs) (suc h) e = ap suc (live-set bs h e)
live-set (false ∷ bs) (suc h) e = live-set bs h e

get_elem?-set-false :
    (bs : List Bool) (h : ℕ)
    → elim (get_elem? (set bs h false) h) [ none ↦ false | some b ↦ b ] ≡ false
get_elem?-set-false [] h = refl
get_elem?-set-false (b ∷ bs) zero = refl
get_elem?-set-false (b ∷ bs) (suc h) = get_elem?-set-false bs h

-- a call of a handle's method
pub data Action (D : Type 0) : Type 0 where
  clones closes : ℕ → Action D
  publishes : ℕ → D → Action D

module _ {P D : Type 0} (ops : Publisher P D) where
  open ops use {publish, close}

  abbrev pub IsCounted : Handles P → Type 0
  IsCounted s = s.block.count ≡ live s.state

  pub has_state-live : (h : ℕ) (s : Handles P) → has_state ops h s ≡ true → 0 < live s.state
  has_state-live h s e = elim (Option-cases (get_elem? s.state h)) [
    | inl n ↦ ground arith
    | inr (b, n) ↦ omega (arith, live-set s.state h (ground arith))
  ]

  some_state : (h : ℕ) (s : Handles P) → has_state ops h s ≡ true → get_elem? s.state h ≡ some true
  some_state h s e = ground arith

  abbrev pub step : Action D → Handles P → Handles P
  step (clones h) s = (clone ops h s).1
  step (closes h) s = (close_handle ops h s).1
  step (publishes h d) s = (publish_handle ops h d s).1

  unfoldable pub run : List (Action D) → Handles P → Handles P
  run [] s = s
  run (a ∷ acts) s = run acts (step a s)

  clone-IsCounted : (h : ℕ) (s : Handles P) → IsCounted s → IsCounted (clone ops h s).1
  unfolding clone
  clone-IsCounted h s c = elim (Bool-cases (has_state ops h s)) [
    | inl e ↦ (let p = has_state-live h s e in ground (arith, live-snoc s.state))
    | inr e ↦ ground arith
  ]

  publish-IsCounted :
      (h : ℕ) (d : D) (s : Handles P) → IsCounted s → IsCounted (publish_handle ops h d s).1
  unfolding publish_handle
  publish-IsCounted h d s c = ground arith

  close-IsCounted : (h : ℕ) (s : Handles P) → IsCounted s → IsCounted (close_handle ops h s).1
  unfolding close_handle
  close-IsCounted h s c = elim (Bool-cases (has_state ops h s)) [
    | inl e ↦ ground (arith, live-set s.state h (some_state h s e))
    | inr e ↦ ground arith
  ]

  -- After any calls on the handles of a publisher, in any order and failing or not, the count is the
  -- number of open handles.
  pub run-IsCounted :
      (acts : List (Action D)) (s : Handles P) → IsCounted s → IsCounted (run acts s)
  unfolding run
  run-IsCounted [] s c = c
  run-IsCounted (clones h ∷ acts) s c =
      run-IsCounted acts (step (clones h) s) (clone-IsCounted h s c)
  run-IsCounted (closes h ∷ acts) s c =
      run-IsCounted acts (step (closes h) s) (close-IsCounted h s c)
  run-IsCounted (publishes h d ∷ acts) s c =
      run-IsCounted acts (step (publishes h d) s) (publish-IsCounted h d s c)

  -- what closing handle `h` may do: nothing, leave others, or close the publisher
  abbrev pub Closes : ℕ → Handles P → Type 0
  Closes h s =
      let (r, s') = close_handle ops h s in
      let (closed, p) = close s.block.publisher in
      (has_state ops h s' ≡ false)
      × (((has_state ops h s ≡ false) × (s' ≡ s) × (r ≡ ok tt))
          ⊎ ((live s.state ≡ suc (live s'.state))
              × (0 < live s'.state)
              × (s'.block.publisher ≡ s.block.publisher)
              × (r ≡ ok tt))
          ⊎ ((live s.state ≡ 1) × (live s'.state ≡ 0) × (s'.block.publisher ≡ p) × (r ≡ closed)))

  -- Closing a handle, on all branches. A handle that is closed already does nothing. A handle that
  -- is not the last one leaves the publisher as it is. The last one closes the publisher, and its
  -- result is that of the publisher. The handle is closed afterwards in any case.
  pub close_handle_lem : (h : ℕ) (s : Handles P) → IsCounted s → Closes h s
  unfolding close_handle
  close_handle_lem h s c = elim (Bool-cases (has_state ops h s)) [
    | inr e ↦ (ground arith, inl (e, ground arith, ground arith))
    | inl e ↦
        let n = live-set s.state h (some_state h s e) in
        let gone = get_elem?-set-false s.state h in
        elim (Bool-cases (s.block.count == 1)) [
          | inl one ↦ (
            ground (arith, gone),
            inr (inr (ground arith, ground (arith, n), ground (arith, n), ground (arith, n))),
          )
          | inr many ↦ (
            ground (arith, gone),
            inr (inl (ground (arith, n), ground (arith, n), ground (arith, n), ground (arith, n))),
          )
        ]
  ]

  -- An open handle can be cloned, and the clone is one more open handle.
  pub clone_lem :
      (h : ℕ) (s : Handles P)
      → IsCounted s
      → has_state ops h s ≡ true
      → let (r, s') = clone ops h s in
        (r ≡ ok tt)
        × (live s'.state ≡ suc (live s.state))
        × (s'.block.publisher ≡ s.block.publisher)
  unfolding clone
  clone_lem h s c e =
      let p = has_state-live h s e in
      (ground arith, ground (arith, live-snoc s.state), ground arith)
