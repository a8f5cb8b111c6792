-- ===== src/Lifecycle/Pending/Compaction.antt =====
-- policy_lifecycle_workflow.go: what the loop over the pending requests leaves in the slice, and
-- what `matched` points at when it is over.
use mathlib.Core.List.{append_assoc, append-nil}
use text.Mathlib.Text.{◌==◌ as str_eq}
use revival_integration.Base.{
  ℕ, zero, suc, ◌<◌, ◌≡◌, refl, sym, ap, ◌∙◌, ◌≢◌, Bool, true, false, not, none, some, List, [],
  ◌∷◌, ◌++◌, String, arith, inl, inr, length, get_elem?, take, keep, any, length-append,
  take-append, get_elem?-append, set-append, length-set, get_elem?-lt, ◌⊎◌, Bool-cases,
}
use revival_integration.Lifecycle.State.{PendingRequest}
use revival_integration.Lifecycle.Pending.{Slots, visit, sweep, deref, take_pending}

-- The requests with another identifier.
abbrev pub others : String → List PendingRequest → List PendingRequest
others key = keep (λ pr. not (str_eq pr.request_id key))

abbrev pub is_pending : String → List PendingRequest → Bool
is_pending key = any (λ pr. str_eq pr.request_id key)

pub sweep-suc :
    (key : String) (n i : ℕ) (l : Slots) (pr : PendingRequest)
    → get_elem? l.slots i ≡ some pr
    → sweep key (suc n) i l ≡ sweep key n (suc i) (visit key i pr l)
unfolding sweep
sweep-suc key n i l pr h = rw h

-- A slice of which `done` is kept and `todo` is not visited yet; `slack` was moved or dropped.
pub record At (done slack todo : List PendingRequest) (i : ℕ) (l : Slots) : Type 0 where
  pub at : i ≡ length (done ++ slack)
  pub split : l.slots ≡ done ++ (slack ++ todo)
  pub front : l.kept ≡ length done

pub At-here :
    (done slack todo : List PendingRequest) (t : PendingRequest) (i : ℕ) (l : Slots)
    → At done slack (t ∷ todo) i l
    → get_elem? l.slots i ≡ some t
At-here done slack todo t i l a =
    rw (a.split, a.at)
      (rw (← append_assoc done slack (t ∷ todo)) (get_elem?-append (done ++ slack) todo t))

pub At-match :
    (key : String) (done slack todo : List PendingRequest) (t : PendingRequest) (i : ℕ) (l : Slots)
    → str_eq t.request_id key ≡ true
    → At done slack (t ∷ todo) i l
    → At done (slack ++ (t ∷ [])) todo (suc i) (visit key i t l)
unfolding visit
At-match key done slack todo t i l e a = rw e (record {
  at = omega (
    arith,
    a.at,
    length-append {0} done slack,
    length-append {0} done (slack ++ (t ∷ [])),
    length-append {0} slack (t ∷ []),
  );
  split = a.split ∙ ap (λ xs. done ++ xs) (sym (append_assoc slack (t ∷ []) todo));
  front = a.front;
})

-- Where the next element is written: over the first of the slack, or over itself.
abbrev pub next_slack : List PendingRequest → PendingRequest → List PendingRequest
next_slack [] t = []
next_slack (s ∷ slack) t = slack ++ (t ∷ [])

pub At-other :
    (key : String) (done slack todo : List PendingRequest) (t : PendingRequest) (i : ℕ) (l : Slots)
    → str_eq t.request_id key ≡ false
    → At done slack (t ∷ todo) i l
    → At (done ++ (t ∷ [])) (next_slack slack t) todo (suc i) (visit key i t l)
unfolding visit
At-other key done [] todo t i l e a = rw e (record {
  at = omega (
    arith,
    a.at,
    length-append {0} done [],
    length-append {0} (done ++ (t ∷ [])) [],
    length-append {0} done (t ∷ []),
  );
  split = rw (a.split, a.front) (set-append done todo t t);
  front = omega (arith, a.front, length-append {0} done (t ∷ []));
})
At-other key done (s ∷ slack) todo t i l e a = rw e (record {
  at = omega (
    arith,
    a.at,
    length-append {0} done (s ∷ slack),
    length-append {0} (done ++ (t ∷ [])) (slack ++ (t ∷ [])),
    length-append {0} done (t ∷ []),
    length-append {0} slack (t ∷ []),
  );
  split =
      rw (a.split, a.front)
        (set-append done (slack ++ (t ∷ todo)) s t
          ∙ ap (λ xs. (done ++ (t ∷ [])) ++ xs) (sym (append_assoc slack (t ∷ []) todo)));
  front = omega (arith, a.front, length-append {0} done (t ∷ []));
})

pub sweep-zero : (key : String) (i : ℕ) (l : Slots) → sweep key zero i l ≡ l
unfolding sweep
sweep-zero key i l = refl

sweep-remaining :
    (key : String) (todo done slack : List PendingRequest) (i : ℕ) (l : Slots)
    → At done slack todo i l
    → take (sweep key (length todo) i l).kept (sweep key (length todo) i l).slots
      ≡ done ++ others key todo
sweep-remaining key [] done slack i l a =
    rw (sweep-zero key i l) (rw (a.split, a.front) (take-append done _ ∙ sym (append-nil done)))
sweep-remaining key (t ∷ todo) done slack i l a =
    rw (sweep-suc key (length todo) i l t (At-here done slack todo t i l a))
      (elim (Bool-cases (str_eq t.request_id key)) [
        | inl e ↦ rw e (
            sweep-remaining key todo done (slack ++ (t ∷ [])) (suc i) (visit key i t l)
              (At-match key done slack todo t i l e a))
        | inr e ↦ rw e (
            sweep-remaining key todo (done ++ (t ∷ [])) (next_slack slack t) (suc i)
              (visit key i t l) (At-other key done slack todo t i l e a)
            ∙ append_assoc done (t ∷ []) (others key todo))
      ])

pub At-start :
    (prs : List PendingRequest) → At [] [] prs 0 (record { slots = prs; kept = 0; matched = none })
At-start prs = record { at = refl; split = refl; front = refl }

-- The compaction in place leaves the requests with another identifier, all of them and in order,
-- however many have the identifier.
pub take_pending-remaining :
    (key : String) (prs : List PendingRequest) → (take_pending key prs).0 ≡ others key prs
unfolding take_pending
take_pending-remaining key prs = sweep-remaining key prs [] [] 0 _ (At-start prs)

-- No round changes the length of the slice.
visit-length :
    (key : String) (i : ℕ) (t : PendingRequest) (l : Slots)
    → length (visit key i t l).slots ≡ length l.slots
unfolding visit
visit-length key i t l = ground (arith, length-set l.slots l.kept t)

-- A match that was found stays found, at an index inside the slice.
IsFound : Slots → Type 0
IsFound l = (j : ℕ) × (l.matched ≡ some j) × (j < length l.slots)

pub At-index :
    (done slack todo : List PendingRequest) (t : PendingRequest) (i : ℕ) (l : Slots)
    → At done slack (t ∷ todo) i l
    → i < length l.slots
At-index done slack todo t i l a = omega (
  arith,
  a.at,
  ap length a.split,
  length-append {0} done slack,
  length-append {0} done (slack ++ (t ∷ todo)),
  length-append {0} slack (t ∷ todo),
)

visit_finds :
    (key : String) (i : ℕ) (t : PendingRequest) (l : Slots)
    → str_eq t.request_id key ≡ true
    → i < length l.slots
    → IsFound (visit key i t l)
unfolding visit IsFound
visit_finds key i t l e h = rw e (i, refl, h)

visit-IsFound :
    (key : String) (i : ℕ) (t : PendingRequest) (l : Slots)
    → str_eq t.request_id key ≡ false
    → IsFound l
    → IsFound (visit key i t l)
unfolding visit IsFound
visit-IsFound key i t l e (j, m, lt) = rw e (j, m, rw (length-set l.slots l.kept t) lt)

sweep-IsFound :
    (key : String) (todo done slack : List PendingRequest) (i : ℕ) (l : Slots)
    → At done slack todo i l
    → (is_pending key todo ≡ true) ⊎ IsFound l
    → IsFound (sweep key (length todo) i l)
sweep-IsFound key [] done slack i l a (inl h) = cc
sweep-IsFound key [] done slack i l a (inr found) = rw (sweep-zero key i l) found
sweep-IsFound key (t ∷ todo) done slack i l a h =
    rw (sweep-suc key (length todo) i l t (At-here done slack todo t i l a))
      (elim (Bool-cases (str_eq t.request_id key)) [
        | inl e ↦
            sweep-IsFound key todo done (slack ++ (t ∷ [])) (suc i) (visit key i t l)
              (At-match key done slack todo t i l e a)
              (inr (visit_finds key i t l e (At-index done slack todo t i l a)))
        | inr e ↦
            sweep-IsFound key todo (done ++ (t ∷ [])) (next_slack slack t) (suc i) (visit key i t l)
              (At-other key done slack todo t i l e a)
              (elim h [
                | inl later ↦ inl (ground arith)
                | inr found ↦ inr (visit-IsFound key i t l e found)
              ])
      ])

deref-IsFound : (l : Slots) → IsFound l → deref l.matched l.slots ≢ none
unfolding IsFound deref
deref-IsFound l (j, m, lt) = rw m (get_elem?-lt l.slots j lt)

-- Where a request with the identifier is pending, `matched` is not nil.
pub take_pending-matched :
    (key : String) (prs : List PendingRequest)
    → is_pending key prs ≡ true
    → (take_pending key prs).1 ≢ none
unfolding take_pending
take_pending-matched key prs h =
    deref-IsFound _ (sweep-IsFound key prs [] [] 0 _ (At-start prs) (inl h))
