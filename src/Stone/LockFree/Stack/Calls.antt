-- ===== src/Stone/LockFree/Stack/Calls.antt =====
-- What the calls of the lock-free stack return, and what they have done to it.
use recommender.Prelude.{
  ℕ, ◌≡◌, refl, ap, inl, inr, true, false, none, some, List, [], ◌∷◌, ◌++◌, ◌==◌, Bool-cases, ==→≡,
}
use recommender.Stone.LockFree.{index_of, lock_free_null_pointer}
use recommender.Stone.LockFree.Ledger.{Asked, Ledger, note_call, note_step}
use recommender.Stone.LockFree.Stack.{LockFreeStack, Pc, step, System, Event, act, is_outside}
use recommender.Stone.LockFree.Stack.Invariant.{Rely}
use recommender.Stone.LockFree.Stack.Linear.{Operation, operation}

module _ {A : Type 0} where
  abbrev pub IsPushing : A → Asked A → List (Operation A) → Type 0
  IsPushing v a os = (a ≡ Asked.push_of v) × (os ≡ [])

  abbrev pub HasPushed : Asked A → List (Operation A) → Type 0
  HasPushed a os = (v : A) × (a ≡ Asked.push_of v) × (os ≡ (Operation.push v ∷ []))

  abbrev pub HasPopped : A → Asked A → List (Operation A) → Type 0
  HasPopped v a os = (a ≡ Asked.pop_of) × (os ≡ (Operation.pop v ∷ []))

  -- What a thread that stands at a place was asked for, and the operations of its call so far. A `Push`
  -- that has returned true put its element on the stack, once, and one that has returned false did
  -- nothing. A `Pop` that has returned an element took that one off, once, and one that has returned
  -- none found the stack empty.
  abbrev pub Accords : LockFreeStack A → Pc A → Asked A → List (Operation A) → Type 0
  Accords s Pc.idle a os = Unit {0}
  Accords s (Pc.pushed true) a os = HasPushed a os
  Accords s (Pc.pushed false) a os = (v : A) × IsPushing v a os
  Accords s (Pc.popped none) a os = (a ≡ Asked.pop_of) × (os ≡ (Operation.pop_empty ∷ []))
  Accords s (Pc.popped (some v)) a os = HasPopped v a os
  Accords s (Pc.acquire_head v) a os = IsPushing v a os
  Accords s (Pc.acquire_next v h) a os = IsPushing v a os
  Accords s (Pc.acquire_exchange v h n) a os = IsPushing v a os
  Accords s (Pc.push_value v k) a os = IsPushing v a os
  Accords s (Pc.push_head v k) a os = IsPushing v a os
  Accords s (Pc.push_next v k h) a os = IsPushing v a os
  Accords s (Pc.push_exchange v k h) a os = IsPushing v a os
  Accords s Pc.push_size a os = HasPushed a os
  Accords s Pc.pop_head a os = (a ≡ Asked.pop_of) × (os ≡ [])
  Accords s (Pc.pop_next h) a os = (a ≡ Asked.pop_of) × (os ≡ [])
  Accords s (Pc.pop_exchange h n) a os = (a ≡ Asked.pop_of) × (os ≡ [])
  Accords s (Pc.pop_value k) a os = HasPopped (s.value k) a os
  Accords s (Pc.release_value k v) a os = HasPopped v a os
  Accords s (Pc.release_head k v) a os = HasPopped v a os
  Accords s (Pc.release_next k v h) a os = HasPopped v a os
  Accords s (Pc.release_exchange k v h) a os = HasPopped v a os
  Accords s (Pc.pop_size v) a os = HasPopped v a os

  -- It stays true while other threads take steps.
  Accords-Rely :
      (s s' : LockFreeStack A) (pc : Pc A) (a : Asked A) (os : List (Operation A))
      → Rely s s' pc
      → Accords s pc a os
      → Accords s' pc a os
  Accords-Rely s s' (Pc.pop_value k) a os r h = rw ((r.node k refl).0) h
  Accords-Rely s s' (Pc.pushed true) a os r h = h
  Accords-Rely s s' (Pc.pushed false) a os r h = h
  Accords-Rely s s' (Pc.popped none) a os r h = h
  Accords-Rely s s' (Pc.popped (some v)) a os r h = h
  Accords-Rely s s' pc a os r h = h

  abbrev pub AllAccord : System A → Ledger A (Operation A) → Type 0
  AllAccord m l = (t : ℕ) → Accords m.stack (m.thread t) (l.asked t) (l.done t)

module _ {A : Type 0} (blank : A) where
  step-Accords :
      (s : LockFreeStack A) (pc : Pc A) (a : Asked A) (os : List (Operation A))
      → Accords s pc a os
      → let (s', pc') = step blank s pc in Accords s' pc' a (operation s pc pc' ++ os)
  unfolding step
  step-Accords s (Pc.pushed true) a os h = h
  step-Accords s (Pc.pushed false) a os h = h
  step-Accords s (Pc.popped none) a os h = h
  step-Accords s (Pc.popped (some v)) a os h = h
  step-Accords s (Pc.acquire_head v) a os h =
      elim (Bool-cases (index_of s.free_node_head == lock_free_null_pointer)) [
        | inl e ↦ rw e (v, h)
        | inr e ↦ rw e h
      ]
  step-Accords s (Pc.acquire_exchange v f n) a os h = elim (Bool-cases (s.free_node_head == f)) [
    | inl e ↦ rw e h
    | inr e ↦ rw e h
  ]
  step-Accords s (Pc.push_exchange v k n) a os h = elim (Bool-cases (s.head == n)) [
    | inl e ↦ rw e (v, h.0, ap (λ l. Operation.push v ∷ l) (h.1))
    | inr e ↦ rw e h
  ]
  step-Accords s Pc.pop_head a os h =
      elim (Bool-cases (index_of s.head == lock_free_null_pointer)) [
        | inl e ↦ rw e (h.0, ap (λ l. Operation.pop_empty ∷ l) (h.1))
        | inr e ↦ rw e h
      ]
  step-Accords s (Pc.pop_exchange n k) a os h = elim (Bool-cases (s.head == n)) [
    | inl e ↦ rw e (h.0, ap (λ l. Operation.pop (s.value (index_of n)) ∷ l) (h.1))
    | inr e ↦ rw e h
  ]
  step-Accords s (Pc.release_exchange k v f) a os h = elim (Bool-cases (s.free_node_head == f)) [
    | inl e ↦ rw e h
    | inr e ↦ rw e h
  ]
  step-Accords s pc a os h = h

  abbrev pub note : System A → Ledger A (Operation A) → Event A → Ledger A (Operation A)
  note m l (Event.call_push t v) = note_call l (is_outside (m.thread t)) t (Asked.push_of v)
  note m l (Event.call_pop t) = note_call l (is_outside (m.thread t)) t Asked.pop_of
  note m l (Event.advance t) =
      note_step l t (operation m.stack (m.thread t) (step blank m.stack (m.thread t)).1)

  -- The ledger after a schedule.
  unfoldable pub ledger :
      System A → Ledger A (Operation A) → List (Event A) → Ledger A (Operation A)
  ledger m l [] = l
  ledger m l (e ∷ es) = ledger (act blank m e) (note m l e) es

  -- What the other threads need while an event happens.
  abbrev pub AllRely : System A → Event A → Type 0
  AllRely m (Event.advance t) =
      (u : ℕ) → (t == u) ≡ false → Rely m.stack (step blank m.stack (m.thread t)).0 (m.thread u)
  AllRely m e = Unit {0}

  pub act-AllAccord :
      (m : System A) (l : Ledger A (Operation A)) (e : Event A)
      → AllRely m e
      → AllAccord m l
      → AllAccord (act blank m e) (note m l e)
  unfolding act
  act-AllAccord m l (Event.call_push t v) r h u = elim (Bool-cases (is_outside (m.thread t))) [
    | inl e ↦ rw e (elim (Bool-cases (t == u)) [ inl q ↦ rw q (refl, refl) | inr q ↦ rw q (h u) ])
    | inr e ↦ rw e (h u)
  ]
  act-AllAccord m l (Event.call_pop t) r h u = elim (Bool-cases (is_outside (m.thread t))) [
    | inl e ↦ rw e (elim (Bool-cases (t == u)) [ inl q ↦ rw q (refl, refl) | inr q ↦ rw q (h u) ])
    | inr e ↦ rw e (h u)
  ]
  act-AllAccord m l (Event.advance t) r h u = elim (Bool-cases (t == u)) [
    | inl q ↦ rw (q, ← ==→≡ t u q) (step-Accords m.stack (m.thread t) _ _ (h t))
    | inr q ↦ rw q (Accords-Rely m.stack _ (m.thread u) _ _ (r u q) (h u))
  ]
