-- ===== src/Lifecycle/Pending/Aliasing.antt =====
-- policy_lifecycle_workflow.go: `matched` points into the array that the loop writes over.
use mathlib.Core.List.{append_assoc, append-nil}
use text.Mathlib.Text.{◌==◌ as str_eq}
use revival_integration.Base.{
  ℕ, zero, suc, ◌<◌, ◌≡◌, refl, ◌∙◌, true, false, some, List, [], ◌∷◌, ◌++◌, String, arith, length,
  get_elem?, length-append, get_elem?-set_self, get_elem?-set_after,
}
use revival_integration.Lifecycle.State.{PendingRequest}
use revival_integration.Lifecycle.Pending.{Slots, visit, sweep, deref, take_pending}
use revival_integration.Lifecycle.Pending.Compaction.{
  is_pending, At, At-here, At-match, At-other, At-start, At-index, next_slack, sweep-suc,
  sweep-zero,
}

-- Requests with another identifier are passed by and stay where they are.
sweep_prefix :
    (key : String) (xs rest done : List PendingRequest) (i : ℕ) (l : Slots)
    → is_pending key xs ≡ false
    → At done [] (xs ++ rest) i l
    → (j : ℕ) × (l' : Slots) × At (done ++ xs) [] rest j l'
      × (sweep key (length (xs ++ rest)) i l ≡ sweep key (length rest) j l')
sweep_prefix key [] rest done i l h a = (i, l, rw (append-nil done) a, refl)
sweep_prefix key (x ∷ xs) rest done i l h a =
    let e : str_eq x.request_id key ≡ false = ground arith in
    let (j, l', a', s) =
      sweep_prefix key xs rest (done ++ (x ∷ [])) (suc i) (visit key i x l) (ground arith)
        (At-other key done [] (xs ++ rest) x i l e a) in
    (
      j,
      l',
      rw (append_assoc done (x ∷ []) xs) at a',
      sweep-suc key (length (xs ++ rest)) i l x (At-here done [] (xs ++ rest) x i l a) ∙ s,
    )

-- The match is at index `j`, behind which the loop writes, and the slot holds `v`.
record Holds (j : ℕ) (v : PendingRequest) (l : Slots) : Type 0 where
  at : l.matched ≡ some j
  behind : j < l.kept
  value : get_elem? l.slots j ≡ some v

visit-Holds :
    (key : String) (i j : ℕ) (t v : PendingRequest) (l : Slots)
    → str_eq t.request_id key ≡ false
    → Holds j v l
    → Holds j v (visit key i t l)
unfolding visit
visit-Holds key i j t v l e h = rw e (record {
  at = h.at;
  behind = omega (arith, h.behind);
  value = get_elem?-set_after l.slots j l.kept t h.behind ∙ h.value;
})

deref-Holds :
    (j : ℕ) (v : PendingRequest) (l : Slots) → Holds j v l → deref l.matched l.slots ≡ some v
unfolding deref
deref-Holds j v l hold = rw (hold.at) (hold.value)

sweep-Holds :
    (key : String) (todo done slack : List PendingRequest) (i j : ℕ) (v : PendingRequest)
    (l : Slots)
    → is_pending key todo ≡ false
    → At done slack todo i l
    → Holds j v l
    → deref (sweep key (length todo) i l).matched (sweep key (length todo) i l).slots ≡ some v
sweep-Holds key [] done slack i j v l h a hold = rw (sweep-zero key i l) (deref-Holds j v l hold)
sweep-Holds key (t ∷ todo) done slack i j v l h a hold =
    let e : str_eq t.request_id key ≡ false = ground arith in
    rw (sweep-suc key (length todo) i l t (At-here done slack todo t i l a)) (
      sweep-Holds key todo (done ++ (t ∷ [])) (next_slack slack t) (suc i) j v (visit key i t l)
        (ground arith) (At-other key done slack todo t i l e a) (visit-Holds key i j t v l e hold))

-- At a match with another request behind it, that one moves into the slot of the match.
Holds-next :
    (key : String) (xs ys : List PendingRequest) (m y : PendingRequest) (j : ℕ) (l : Slots)
    → str_eq m.request_id key ≡ true
    → str_eq y.request_id key ≡ false
    → At xs [] (m ∷ y ∷ ys) j l
    → Holds j y (visit key (suc j) y (visit key j m l))
unfolding visit
Holds-next key xs ys m y j l em ey a =
    let front : l.kept ≡ j = omega (arith, a.front, a.at, length-append {0} xs []) in
    rw (em, ey)
      (record {
        at = refl;
        behind = omega (arith, front);
        value = rw front (get_elem?-set_self l.slots j y (At-index xs [] (y ∷ ys) m j l a));
      })

-- The request behind the match, or the match itself if it is the last.
abbrev pub head_or : PendingRequest → List PendingRequest → PendingRequest
head_or m [] = m
head_or m (y ∷ ys) = y

next_of :
    (key : String) (xs ys : List PendingRequest) (m y : PendingRequest)
    → is_pending key xs ≡ false
    → str_eq m.request_id key ≡ true
    → is_pending key (y ∷ ys) ≡ false
    → (take_pending key (xs ++ (m ∷ y ∷ ys))).1 ≡ some y
unfolding take_pending
next_of key xs ys m y hx em hy =
    let ey : str_eq y.request_id key ≡ false = ground arith in
    let hys : is_pending key ys ≡ false = ground arith in
    let (j, l, a, s) = sweep_prefix key xs (m ∷ y ∷ ys) [] 0 _ hx (At-start (xs ++ (m ∷ y ∷ ys))) in
    let am = At-match key xs [] (y ∷ ys) m j l em a in
    let ay = At-other key xs (m ∷ []) ys y (suc j) (visit key j m l) ey am in
    rw
      (
        s,
        sweep-suc key (length (y ∷ ys)) j l m (At-here xs [] (y ∷ ys) m j l a),
        sweep-suc key (length ys) (suc j) (visit key j m l) y
            (At-here xs (m ∷ []) ys y (suc j) _ am),
      )
      (sweep-Holds key ys (xs ++ (y ∷ [])) _ (suc (suc j)) j y _ hys ay
        (Holds-next key xs ys m y j l em ey a))

visit-matched :
    (key : String) (j : ℕ) (m : PendingRequest) (l : Slots)
    → str_eq m.request_id key ≡ true
    → get_elem? l.slots j ≡ some m
    → deref (visit key j m l).matched (visit key j m l).slots ≡ some m
unfolding visit deref
visit-matched key j m l em h = rw em h

last_of :
    (key : String) (xs : List PendingRequest) (m : PendingRequest)
    → is_pending key xs ≡ false
    → str_eq m.request_id key ≡ true
    → (take_pending key (xs ++ (m ∷ []))).1 ≡ some m
unfolding take_pending
last_of key xs m hx em =
    let (j, l, a, s) = sweep_prefix key xs (m ∷ []) [] 0 _ hx (At-start (xs ++ (m ∷ []))) in
    rw
      (
        s,
        sweep-suc key zero j l m (At-here xs [] [] m j l a),
        sweep-zero key (suc j) (visit key j m l),
      )
      (visit-matched key j m l em (At-here xs [] [] m j l a))

-- If one pending request has the identifier, `matched` ends up pointing at the request that stands
-- behind it in the slice, and at the request itself only if it is the last.
pub take_pending-aliased :
    (key : String) (xs ys : List PendingRequest) (m : PendingRequest)
    → is_pending key xs ≡ false
    → str_eq m.request_id key ≡ true
    → is_pending key ys ≡ false
    → (take_pending key (xs ++ (m ∷ ys))).1 ≡ some (head_or m ys)
take_pending-aliased key xs [] m hx em hy = last_of key xs m hx em
take_pending-aliased key xs (y ∷ ys) m hx em hy = next_of key xs ys m y hx em hy
