-- ===== src/Stone/LockFree/Queue/Calls.antt =====
-- What the calls of the lock-free queue return, and what they have done to it.
use recommender.Prelude.{
  ℕ, ◌≡◌, refl, ap, inl, inr, true, none, some, List, [], ◌∷◌, ◌++◌, ◌==◌, Bool-cases, ==→≡,
}
use recommender.Stone.LockFree.{get_pointer, get_tag, invalid_tag}
use recommender.Stone.LockFree.Ledger.{Asked, Ledger, note_call, note_step}
use recommender.Stone.LockFree.Queue.{LockFreeQueue, Pc, step, System, Event, act, run, is_outside}
use recommender.Stone.LockFree.Queue.Linear.{Operation, operation}

module _ {A : Type 0} where
  -- Only looks at the queue where it was empty.
  abbrev pub AllEmpty : List (Operation A) → Type 0
  AllEmpty [] = Unit {0}
  AllEmpty (Operation.find_empty ∷ os) = AllEmpty os
  AllEmpty (o ∷ os) = ⊥

  -- One operation, the last, after such looks.
  abbrev pub HasDone : Operation A → List (Operation A) → Type 0
  HasDone o os = (rest : List (Operation A)) × (os ≡ (o ∷ rest)) × AllEmpty rest

  abbrev pub IsPushing : A → Asked A → List (Operation A) → Type 0
  IsPushing v a os = (a ≡ Asked.push_of v) × (os ≡ [])

  abbrev pub HasPushed : Asked A → List (Operation A) → Type 0
  HasPushed a os = (v : A) × (a ≡ Asked.push_of v) × (os ≡ (Operation.enqueue v ∷ []))

  abbrev pub IsPopping : Asked A → List (Operation A) → Type 0
  IsPopping a os = (a ≡ Asked.pop_of) × AllEmpty os

  abbrev pub HasPopped : A → Asked A → List (Operation A) → Type 0
  HasPopped v a os = (a ≡ Asked.pop_of) × HasDone (Operation.dequeue v) os

  -- What a thread that stands at a place was asked for, and the operations of its call so far, the last
  -- first. A `Push` that has returned put its element in, once. A `Pop` that has returned an element
  -- took that one out, and one that has returned none found the queue empty; it may have found it empty
  -- before, where it tried again.
  abbrev pub Accords : Pc A → Asked A → List (Operation A) → Type 0
  Accords Pc.idle a os = Unit {0}
  Accords (Pc.pushed n) a os = HasPushed a os
  Accords (Pc.popped none) a os = (a ≡ Asked.pop_of) × HasDone Operation.find_empty os
  Accords (Pc.popped (some v)) a os = HasPopped v a os
  Accords (Pc.acquire_head v) a os = IsPushing v a os
  Accords (Pc.acquire_next v h) a os = IsPushing v a os
  Accords (Pc.acquire_exchange v h n) a os = IsPushing v a os
  Accords (Pc.push_value v k) a os = IsPushing v a os
  Accords (Pc.push_tail v k) a os = IsPushing v a os
  Accords (Pc.push_next v k t) a os = IsPushing v a os
  Accords (Pc.push_exchange v k t) a os = IsPushing v a os
  Accords (Pc.push_prev k t) a os = HasPushed a os
  Accords Pc.push_size a os = HasPushed a os
  Accords (Pc.pop_prev h t) a os =
      IsPopping a os × ((t == h) ≡ true → HasDone Operation.find_empty os)
  Accords (Pc.pop_check h t p) a os =
      IsPopping a os × ((t == h) ≡ true → HasDone Operation.find_empty os)
  Accords (Pc.release_value k v) a os = HasPopped v a os
  Accords (Pc.release_head k v) a os = HasPopped v a os
  Accords (Pc.release_prev k v f) a os = HasPopped v a os
  Accords (Pc.release_next k v f) a os = HasPopped v a os
  Accords (Pc.release_exchange k v f) a os = HasPopped v a os
  Accords (Pc.pop_size v) a os = HasPopped v a os
  Accords pc a os = IsPopping a os

module _ {A : Type 0} where
  abbrev pub AllAccord : System A → Ledger A (Operation A) → Type 0
  AllAccord m l = (t : ℕ) → Accords (m.thread t) (l.asked t) (l.done t)

module _ {A : Type 0} (blank : A) where
  check-Accords :
      (s : LockFreeQueue A) (h t p new : ℕ) (a : Asked A) (os : List (Operation A))
      → Accords (Pc.pop_check h t p) a os
      → let pc' = (step blank s (Pc.pop_check h t p) new).1 in
        Accords pc' a (operation (Pc.pop_check h t p) pc' ++ os)
  unfolding step
  check-Accords s h t p new a os (i, done) = elim (Bool-cases (s.head == h)) [
    | inr e ↦ rw e i
    | inl e ↦ rw e (elim (Bool-cases (t == h)) [
      | inl e' ↦ rw e' (i.0, done e')
      | inr e' ↦ rw e' (elim (Bool-cases (get_tag p == invalid_tag)) [
        | inl q ↦ rw q i
        | inr q ↦
            rw q (elim (Bool-cases (get_tag p == get_tag h)) [ inl z ↦ rw z i | inr z ↦ rw z i ])
      ])
    ])
  ]

  step-Accords :
      (s : LockFreeQueue A) (pc : Pc A) (new : ℕ) (a : Asked A) (os : List (Operation A))
      → Accords pc a os
      → let pc' = (step blank s pc new).1 in Accords pc' a (operation pc pc' ++ os)
  unfolding step
  step-Accords s (Pc.acquire_head v) new a os h =
      elim (Bool-cases (get_pointer s.free_node_head == 0)) [ inl e ↦ rw e h | inr e ↦ rw e h ]
  step-Accords s (Pc.acquire_exchange v f n) new a os h =
      elim (Bool-cases (s.free_node_head == f)) [ inl e ↦ rw e h | inr e ↦ rw e h ]
  step-Accords s (Pc.push_exchange v k t) new a os h = elim (Bool-cases (s.tail == t)) [
    | inl e ↦ rw e (v, h.0, ap (λ l. Operation.enqueue v ∷ l) (h.1))
    | inr e ↦ rw e h
  ]
  step-Accords s (Pc.pop_tail h) new a os i = elim (Bool-cases (s.tail == h)) [
    | inl e ↦ rw e ((i.0, i.1), λ q. (os, refl, i.1))
    | inr e ↦ rw e (i, λ q. cc q)
  ]
  step-Accords s (Pc.pop_check h t p) new a os i = check-Accords s h t p new a os i
  step-Accords s (Pc.pop_exchange h p v) new a os i = elim (Bool-cases (s.head == h)) [
    | inl e ↦ rw e (i.0, (os, refl, i.1))
    | inr e ↦ rw e i
  ]
  step-Accords s (Pc.fix_head h c) new a os i = elim (Bool-cases (s.head == h)) [
    | inl e ↦ rw e (elim (Bool-cases (c == h)) [ inl q ↦ rw q i | inr q ↦ rw q i ])
    | inr e ↦ rw e i
  ]
  step-Accords s (Pc.release_exchange k v f) new a os h =
      elim (Bool-cases (s.free_node_head == f)) [ inl e ↦ rw e h | inr e ↦ rw e h ]
  step-Accords s pc new a os h = h

  abbrev note : System A → Ledger A (Operation A) → Event A → Ledger A (Operation A)
  note m l (Event.call_push t v) = note_call l (is_outside (m.thread t)) t (Asked.push_of v)
  note m l (Event.call_pop t) = note_call l (is_outside (m.thread t)) t Asked.pop_of
  note m l (Event.advance t new) =
      note_step l t (operation (m.thread t) (step blank m.queue (m.thread t) new).1)

  -- The ledger after a schedule.
  unfoldable pub ledger :
      System A → Ledger A (Operation A) → List (Event A) → Ledger A (Operation A)
  ledger m l [] = l
  ledger m l (e ∷ es) = ledger (act blank m e) (note m l e) es

  act-AllAccord :
      (m : System A) (l : Ledger A (Operation A)) (e : Event A)
      → AllAccord m l
      → AllAccord (act blank m e) (note m l e)
  unfolding act
  act-AllAccord m l (Event.call_push t v) h u = elim (Bool-cases (is_outside (m.thread t))) [
    | inl e ↦ rw e (elim (Bool-cases (t == u)) [ inl q ↦ rw q (refl, refl) | inr q ↦ rw q (h u) ])
    | inr e ↦ rw e (h u)
  ]
  act-AllAccord m l (Event.call_pop t) h u = elim (Bool-cases (is_outside (m.thread t))) [
    | inl e ↦ rw e (elim (Bool-cases (t == u)) [ inl q ↦ rw q (refl, tt) | inr q ↦ rw q (h u) ])
    | inr e ↦ rw e (h u)
  ]
  act-AllAccord m l (Event.advance t new) h u = elim (Bool-cases (t == u)) [
    | inl q ↦ rw (q, ← ==→≡ t u q) (step-Accords m.queue (m.thread t) new _ _ (h t))
    | inr q ↦ rw q (h u)
  ]

  pub run-AllAccord :
      (es : List (Event A)) (m : System A) (l : Ledger A (Operation A))
      → AllAccord m l
      → AllAccord (run blank m es) (ledger m l es)
  unfolding run ledger
  run-AllAccord [] m l h = h
  run-AllAccord (e ∷ es) m l h =
      run-AllAccord es (act blank m e) (note m l e) (act-AllAccord m l e h)
