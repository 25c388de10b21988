-- ===== src/Transport/Ownership.antt =====
-- The session lives as long as it has an owner.
use instro.Prelude.{
  Result-cases, ℕ, zero, suc, ◌+◌, ◌≤◌, ◌≡◌, refl, sym, ap, subst, ◌∙◌, ◌≢◌, ◌⊎◌, inl, inr, true,
  false, not, Option, none, some, List, [], ◌∷◌, ◌++◌, arith, Bool-cases, ok, err, Error, Result,
}
use instro.Transport.{
  Session, Transport, index_from, holder_index, del, is_empty, admit, open_transport, release,
  close_transport,
}

-- a call with a holder
pub data Call : Type 0 where
  opens closes : ℕ → Call

abbrev pub Absent : ℕ → List ℕ → Type 0
Absent h [] = Unit {0}
Absent h (x ∷ xs) = (x ≢ h) × Absent h xs

-- no object is registered twice
abbrev pub Distinct : List ℕ → Type 0
Distinct [] = Unit {0}
Distinct (x ∷ xs) = Absent x xs × Distinct xs

index_from-none : (i h : ℕ) (hs : List ℕ) → index_from i h hs ≡ none → Absent h hs
unfolding index_from
index_from-none i h [] e = tt
index_from-none i h (x ∷ xs) e = ground (arith, index_from-none (suc i) h xs)

Absent-snoc : (x h : ℕ) (hs : List ℕ) → Absent x hs → x ≢ h → Absent x (hs ++ (h ∷ []))
Absent-snoc x h [] a n = (λ e. n (sym e), tt)
Absent-snoc x h (y ∷ hs) a n = (a.0, Absent-snoc x h hs a.1 n)

Distinct-snoc : (h : ℕ) (hs : List ℕ) → Absent h hs → Distinct hs → Distinct (hs ++ (h ∷ []))
Distinct-snoc h [] a d = (tt, tt)
Distinct-snoc h (x ∷ hs) a d = (Absent-snoc x h hs d.0 a.0, Distinct-snoc h hs a.1 d.1)

Absent-del : (x i : ℕ) (hs : List ℕ) → Absent x hs → Absent x (del i hs)
unfolding del
Absent-del x i [] a = tt
Absent-del x zero (y ∷ hs) a = a.1
Absent-del x (suc i) (y ∷ hs) a = (a.0, Absent-del x i hs a.1)

Distinct-del : (i : ℕ) (hs : List ℕ) → Distinct hs → Distinct (del i hs)
unfolding del
Distinct-del i [] d = tt
Distinct-del zero (x ∷ hs) d = d.1
Distinct-del (suc i) (x ∷ hs) d = (Absent-del x i hs d.0, Distinct-del i hs d.1)

le-index_from : (i h j : ℕ) (hs : List ℕ) → index_from i h hs ≡ some j → i ≤ j
unfolding index_from
le-index_from i h j [] e = cc
le-index_from i h j (x ∷ xs) e = ground (arith, le-index_from (suc i) h j xs)

Absent-eq : (x h : ℕ) (hs : List ℕ) → x ≡ h → Absent x hs → Absent h hs
Absent-eq x h hs e a = subst (λ y. Absent y hs) e a

-- what `_holder_index` finds is gone after `del`
index_from-del :
    (i k h : ℕ) (hs : List ℕ) → Distinct hs → index_from i h hs ≡ some (i + k) → Absent h (del k hs)
unfolding index_from del
index_from-del i k h [] d e = tt
index_from-del i zero h (x ∷ xs) d e =
    ground (arith, Absent-eq x h xs, d, le-index_from (suc i) h (i + 0) xs)
index_from-del i (suc k) h (x ∷ xs) d e = ground (arith, index_from-del (suc i) k h xs d.1)

-- what `_holder_index` finds is in the list, and `del` takes just that out
index_from-splits :
    (i k h : ℕ) (hs : List ℕ)
    → index_from i h hs ≡ some (i + k)
    → (before : List ℕ) × (after : List ℕ) × (hs ≡ before ++ (h ∷ after))
      × (del k hs ≡ before ++ after)
unfolding index_from del
index_from-splits i k h [] e = cc
index_from-splits i zero h (x ∷ xs) e =
    ([], xs, ground (arith, le-index_from (suc i) h (i + 0) xs), refl)
index_from-splits i (suc k) h (x ∷ xs) e =
    let (before, after, was, left) = index_from-splits (suc i) k h xs (ground (arith)) in
    (x ∷ before, after, ap (λ l. x ∷ l) was, ap (λ l. x ∷ l) left)

pub is_empty-eq : (hs : List ℕ) → is_empty hs ≡ true → hs ≡ []
is_empty-eq [] e = refl
is_empty-eq (x ∷ hs) e = cc

pub is_empty-ne : (hs : List ℕ) → is_empty hs ≡ false → hs ≢ []
is_empty-ne [] e = cc
is_empty-ne (x ∷ hs) e = λ f. cc

not_empty-del : (i : ℕ) (hs : List ℕ) → is_empty (del i hs) ≡ false → is_empty hs ≡ false
unfolding del
not_empty-del i [] e = e
not_empty-del i (x ∷ hs) e = refl

module _ {S : Type 0} (ses : Session S) where
  open ses use {open_session, teardown_session, is_open}

  -- what giving back a claim of `h` does: it is a stranger, or the others stay
  abbrev pub Released : ℕ → Transport S → (o : Result (Unit {0}) × Transport S) → Type 0
  Released h t (r, t') =
      Absent h t'.holders
      × ((Absent h t.holders
            × (t' ≡ t)
            × (((t.holders ≡ []) × (r ≡ ok tt))
                ⊎ ((t.holders ≢ []) × (r ≡ err Error.unknown_holder))))
          ⊎ ((before : List ℕ) × (after : List ℕ) × (t.holders ≡ before ++ (h ∷ after))
              × (t'.holders ≡ before ++ after)
              × (((t'.holders ≡ [])
                    × (t'.session ≡ (teardown_session t.session).1)
                    × (r ≡ (teardown_session t.session).0))
                  ⊎ ((t'.holders ≢ []) × (t'.session ≡ t.session) × (r ≡ ok tt)))))

  -- The session is open exactly while somebody holds it, and nobody holds it twice.
  pub record IsOwned (t : Transport S) : Type 0 where
    pub distinct : Distinct t.holders
    pub held : is_open t.session ≡ not (is_empty t.holders)

  abbrev pub step : Call → Transport S → Transport S
  step (opens h) t = (open_transport ses (some h) t).1
  step (closes h) t = (close_transport ses (some h) t).1

  unfoldable pub run : List Call → Transport S → Transport S
  run [] t = t
  run (c ∷ cs) t = run cs (step c t)

  is_empty-snoc : (hs : List ℕ) (h : ℕ) → is_empty (hs ++ (h ∷ [])) ≡ false
  is_empty-snoc [] h = refl
  is_empty-snoc (x ∷ hs) h = refl

  admit-IsOwned :
      (h : ℕ) (r : Option ℕ) (t : Transport S)
      → holder_index h t.holders ≡ r
      → IsOwned t
      → IsOwned (admit ses h r t).1
  unfolding admit holder_index
  admit-IsOwned h (some i) t e o = o
  admit-IsOwned h none t e o = elim (Result-cases (open_session t.session).0) [
    | inl (tt, r) ↦ rw r (record {
      distinct = Distinct-snoc h t.holders (index_from-none 0 h t.holders e) o.distinct;
      held = rw is_empty-snoc (ses.opens t.session r);
    })
    | inr (x, r) ↦
        rw r (record { distinct = o.distinct; held = ses.open_fails t.session x r ∙ o.held })
  ]

  pub open-IsOwned :
      (h : ℕ) (t : Transport S) → IsOwned t → IsOwned (open_transport ses (some h) t).1
  unfolding open_transport
  open-IsOwned h t o = admit-IsOwned h (holder_index h t.holders) t refl o

  release-IsOwned : (i : Option ℕ) (t : Transport S) → IsOwned t → IsOwned (release ses i t).1
  unfolding release
  release-IsOwned none t o = ground (arith, o)
  release-IsOwned (some i) t o = elim (Bool-cases (is_empty (del i t.holders))) [
    | inl e ↦ rw e (record {
      distinct = Distinct-del i t.holders o.distinct;
      held = rw e (ses.tears_down t.session);
    })
    | inr e ↦ rw e (record {
      distinct = Distinct-del i t.holders o.distinct;
      held = o.held ∙ ap not (not_empty-del i t.holders e) ∙ sym (ap not e);
    })
  ]

  pub close-IsOwned :
      (h : ℕ) (t : Transport S) → IsOwned t → IsOwned (close_transport ses (some h) t).1
  unfolding close_transport
  close-IsOwned h t o = release-IsOwned (holder_index h t.holders) t o

  step-IsOwned : (c : Call) (t : Transport S) → IsOwned t → IsOwned (step c t)
  step-IsOwned (opens h) t o = open-IsOwned h t o
  step-IsOwned (closes h) t o = close-IsOwned h t o

  -- After any calls of `open` and `close` with holders, failing or not, on a transport that starts
  -- owned, the session is open exactly while the list of holders is not empty, and no object is in
  -- the list twice.
  pub run-IsOwned : (cs : List Call) (t : Transport S) → IsOwned t → IsOwned (run cs t)
  unfolding run
  run-IsOwned [] t o = o
  run-IsOwned (c ∷ cs) t o = run-IsOwned cs (step c t) (step-IsOwned c t o)

  release_lem :
      (h : ℕ) (i : Option ℕ) (t : Transport S)
      → holder_index h t.holders ≡ i
      → IsOwned t
      → Released h t (release ses i t)
  unfolding release holder_index
  release_lem h none t e o =
      let gone = index_from-none 0 h t.holders e in
      elim (Bool-cases (is_empty t.holders)) [
        | inl n ↦ rw n (gone, inl (gone, refl, inl (is_empty-eq t.holders n, refl)))
        | inr n ↦ rw n (gone, inl (gone, refl, inr (is_empty-ne t.holders n, refl)))
      ]
  release_lem h (some i) t e o =
      let found = e ∙ ap some (omega arith) in
      let gone = index_from-del 0 i h t.holders o.distinct found in
      let (before, after, was, left) = index_from-splits 0 i h t.holders found in
      elim (Bool-cases (is_empty (del i t.holders))) [
        | inl n ↦ rw n (
          gone,
          inr (before, after, was, left, inl (is_empty-eq (del i t.holders) n, refl, refl)),
        )
        | inr n ↦ rw n (
          gone,
          inr (before, after, was, left, inr (is_empty-ne (del i t.holders) n, refl, refl)),
        )
      ]

  -- Closing with a holder, on all branches. A holder leaves the list and the others stay, in their
  -- order; the session is torn down if nobody is left, with the result of the teardown, and is left
  -- alone without an error otherwise. A stranger changes nothing, and is an error exactly if there
  -- are holders.
  pub close_lem :
      (h : ℕ) (t : Transport S) → IsOwned t → Released h t (close_transport ses (some h) t)
  unfolding close_transport
  close_lem h t o = release_lem h (holder_index h t.holders) t refl o
