-- ===== src/Stone/LockFree/FreeList/Calls.antt =====
-- What the calls of the free list return, and what they have done to it.
use recommender.Prelude.{
  ℕ, ◌≡◌, refl, ap, inl, inr, none, some, List, [], ◌∷◌, ◌++◌, ◌==◌, Bool-cases, ==→≡,
}
use recommender.Stone.LockFree.{get_pointer}
use recommender.Stone.LockFree.Ledger.{Asked, Ledger, note_call, note_step}
use recommender.Stone.LockFree.FreeList.{
  FreeList, Pc, step, System, Event, call, act, run, is_outside,
}
use recommender.Stone.LockFree.Stack.Linear.{Operation}

-- The operation that a step takes effect with, if any: the exchanges, and the read that finds nothing.
abbrev pub operation : Pc → Pc → List (Operation ℕ)
operation (Pc.push_exchange x h) Pc.push_size = Operation.push x ∷ []
operation (Pc.pop_exchange h n) (Pc.pop_size x) = Operation.pop x ∷ []
operation Pc.pop_head (Pc.popped none) = Operation.pop_empty ∷ []
operation pc pc' = []

-- What a thread that stands at a place was asked for, and the operations of its call so far. A `Push`
-- that has returned true did one push, of its object; a `Pop` that has returned an object did one pop,
-- of that object, and one that has returned none found the list empty, once. Before its exchange a call
-- has done nothing.
abbrev pub Accords : Pc → Asked ℕ → List (Operation ℕ) → Type 0
Accords Pc.idle a os = Unit {0}
Accords Pc.pushed a os = (x : ℕ) × (a ≡ Asked.push_of x) × (os ≡ (Operation.push x ∷ []))
Accords (Pc.popped none) a os = (a ≡ Asked.pop_of) × (os ≡ (Operation.pop_empty ∷ []))
Accords (Pc.popped (some x)) a os = (a ≡ Asked.pop_of) × (os ≡ (Operation.pop x ∷ []))
Accords (Pc.push_head x) a os = (a ≡ Asked.push_of x) × (os ≡ [])
Accords (Pc.push_next x h) a os = (a ≡ Asked.push_of x) × (os ≡ [])
Accords (Pc.push_exchange x h) a os = (a ≡ Asked.push_of x) × (os ≡ [])
Accords Pc.push_size a os = (x : ℕ) × (a ≡ Asked.push_of x) × (os ≡ (Operation.push x ∷ []))
Accords Pc.pop_head a os = (a ≡ Asked.pop_of) × (os ≡ [])
Accords (Pc.pop_next h) a os = (a ≡ Asked.pop_of) × (os ≡ [])
Accords (Pc.pop_exchange h n) a os = (a ≡ Asked.pop_of) × (os ≡ [])
Accords (Pc.pop_size x) a os = (a ≡ Asked.pop_of) × (os ≡ (Operation.pop x ∷ []))

abbrev pub AllAccord : System → Ledger ℕ (Operation ℕ) → Type 0
AllAccord m l = (t : ℕ) → Accords (m.thread t) (l.asked t) (l.done t)

call-AllAccord :
    (m : System) (l : Ledger ℕ (Operation ℕ)) (t : ℕ) (pc : Pc) (a : Asked ℕ)
    → Accords pc a []
    → AllAccord m l
    → AllAccord (call m t pc) (note_call l (is_outside (m.thread t)) t a)
unfolding call
call-AllAccord m l t pc a new h u = elim (Bool-cases (is_outside (m.thread t))) [
  | inl e ↦ rw e (elim (Bool-cases (t == u)) [ inl q ↦ rw q new | inr q ↦ rw q (h u) ])
  | inr e ↦ rw e (h u)
]

module _ (offset : ℕ) where
  step-Accords :
      (s : FreeList) (pc : Pc) (a : Asked ℕ) (os : List (Operation ℕ))
      → Accords pc a os
      → let pc' = (step offset s pc).1 in Accords pc' a (operation pc pc' ++ os)
  unfolding step
  step-Accords s Pc.idle a os h = h
  step-Accords s Pc.pushed a os h = h
  step-Accords s (Pc.popped none) a os h = h
  step-Accords s (Pc.popped (some x)) a os h = h
  step-Accords s (Pc.push_head x) a os h = h
  step-Accords s (Pc.push_next x n) a os h = h
  step-Accords s (Pc.push_exchange x n) a os h = elim (Bool-cases (s.head == n)) [
    | inl e ↦ rw e (x, h.0, ap (λ l. Operation.push x ∷ l) (h.1))
    | inr e ↦ rw e h
  ]
  step-Accords s Pc.push_size a os h = h
  step-Accords s Pc.pop_head a os h = elim (Bool-cases (get_pointer s.head == 0)) [
    | inl e ↦ rw e (h.0, ap (λ l. Operation.pop_empty ∷ l) (h.1))
    | inr e ↦ rw e h
  ]
  step-Accords s (Pc.pop_next n) a os h = h
  step-Accords s (Pc.pop_exchange n k) a os h = elim (Bool-cases (s.head == n)) [
    | inl e ↦ rw e (h.0, ap (λ l. Operation.pop (get_pointer n) ∷ l) (h.1))
    | inr e ↦ rw e h
  ]
  step-Accords s (Pc.pop_size x) a os h = h

  abbrev note : System → Ledger ℕ (Operation ℕ) → Event → Ledger ℕ (Operation ℕ)
  note m l (Event.call_push t x) = note_call l (is_outside (m.thread t)) t (Asked.push_of x)
  note m l (Event.call_pop t) = note_call l (is_outside (m.thread t)) t Asked.pop_of
  note m l (Event.advance t) =
      note_step l t (operation (m.thread t) (step offset m.list (m.thread t)).1)
  note m l (Event.overwrite x v) = l

  -- The ledger after a schedule.
  unfoldable pub ledger : System → Ledger ℕ (Operation ℕ) → List Event → Ledger ℕ (Operation ℕ)
  ledger m l [] = l
  ledger m l (e ∷ es) = ledger (act offset m e) (note m l e) es

  act-AllAccord :
      (m : System) (l : Ledger ℕ (Operation ℕ)) (e : Event)
      → AllAccord m l
      → AllAccord (act offset m e) (note m l e)
  unfolding act
  act-AllAccord m l (Event.call_push t x) h u = call-AllAccord m l t _ _ (refl, refl) h u
  act-AllAccord m l (Event.call_pop t) h u = call-AllAccord m l t _ _ (refl, refl) h u
  act-AllAccord m l (Event.advance t) h u = elim (Bool-cases (t == u)) [
    | inl q ↦ rw (q, ← ==→≡ t u q) (step-Accords m.list (m.thread t) _ _ (h t))
    | inr q ↦ rw q (h u)
  ]
  act-AllAccord m l (Event.overwrite x v) h u = h u

  pub run-AllAccord :
      (es : List Event) (m : System) (l : Ledger ℕ (Operation ℕ))
      → AllAccord m l
      → AllAccord (run offset m es) (ledger m l es)
  unfolding run ledger
  run-AllAccord [] m l h = h
  run-AllAccord (e ∷ es) m l h =
      run-AllAccord es (act offset m e) (note m l e) (act-AllAccord m l e h)
