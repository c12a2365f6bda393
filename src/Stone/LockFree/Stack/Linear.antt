-- ===== src/Stone/LockFree/Stack/Linear.antt =====
-- The runs of the lock-free stack, and the operations on a list that they amount to.
use recommender.Prelude.{
  ==→≡, ℕ, ◌+◌, ◌≤◌, ◌≡◌, refl, inl, inr, arith, none, List, [], ◌∷◌, ◌++◌, ◌==◌, Bool-cases,
}
use recommender.Stone.LockFree.{make_pointer, tag_of, index_of, lock_free_null_pointer}
use recommender.Stone.LockFree.Stack.{LockFreeStack, Pc, tagged_on, step, System, Event, act}
use recommender.Stone.LockFree.Stack.Moves.{Effect}

-- What the stack does as all threads see it.
pub data Operation (A : Type 0) : Type 0 where
  push : A → Operation A
  pop : A → Operation A
  pop_empty : Operation A

pub tag_of-tagged_on : (n h : ℕ) → tag_of (tagged_on n h) ≤ tag_of h + 1
unfolding tag_of make_pointer
tag_of-tagged_on n h = omega arith

module _ {A : Type 0} where
  -- The contents, top first, before and after a sequence of operations.
  abbrev pub Performs : List A → List (Operation A) → List A → Type 0
  Performs c [] c' = c' ≡ c
  Performs c (Operation.push v ∷ os) c' = Performs (v ∷ c) os c'
  Performs c (Operation.pop v ∷ os) c' = (rest : List A) × (c ≡ (v ∷ rest)) × Performs rest os c'
  Performs c (Operation.pop_empty ∷ os) c' = (c ≡ []) × Performs c os c'

  -- The operation that a step takes effect with, if any: the two exchanges on `mHead`, and the read
  -- that finds it null.
  abbrev pub operation : LockFreeStack A → Pc A → Pc A → List (Operation A)
  operation s (Pc.push_exchange v k h) Pc.push_size = Operation.push v ∷ []
  operation s (Pc.pop_exchange h n) (Pc.pop_value k) = Operation.pop (s.value k) ∷ []
  operation s Pc.pop_head (Pc.popped none) = Operation.pop_empty ∷ []
  operation s pc pc' = []

  pub Effect-Performs :
      (s : LockFreeStack A) (pc pc' : Pc A) (c c' : List A)
      → Effect s pc pc' c c'
      → Performs c (operation s pc pc') c'
  Effect-Performs s (Pc.push_exchange v k h) Pc.push_size c c' e = e
  Effect-Performs s (Pc.pop_exchange h n) (Pc.pop_value k) c c' e = (c', e, refl)
  Effect-Performs s Pc.pop_head (Pc.popped none) c c' e = (e.1, e.0)
  Effect-Performs s (Pc.pop_value k) (Pc.release_value j v) c c' e = e.0
  Effect-Performs s pc pc' c c' e = e

  pub Performs-append :
      (c c' c'' : List A) (os os' : List (Operation A))
      → Performs c os c'
      → Performs c' os' c''
      → Performs c (os ++ os') c''
  Performs-append c c' c'' [] os' p q = rw (← p) q
  Performs-append c c' c'' (Operation.push v ∷ os) os' p q =
      Performs-append (v ∷ c) c' c'' os os' p q
  Performs-append c c' c'' (Operation.pop v ∷ os) os' (rest, e, p) q =
      (rest, e, Performs-append rest c' c'' os os' p q)
  Performs-append c c' c'' (Operation.pop_empty ∷ os) os' (e, p) q =
      (e, Performs-append c c' c'' os os' p q)

module _ {A : Type 0} (blank : A) where
  -- A step adds at most one to a tag.
  pub step-tags :
      (s : LockFreeStack A) (pc : Pc A)
      → let s' = (step blank s pc).0 in
        (tag_of s'.free_node_head ≤ tag_of s.free_node_head + 1)
        × (tag_of s'.head ≤ tag_of s.head + 1)
  unfolding step
  step-tags s (Pc.acquire_head v) =
      elim (Bool-cases (index_of s.free_node_head == lock_free_null_pointer)) [
        | inl e ↦ rw e (omega arith, omega arith)
        | inr e ↦ rw e (omega arith, omega arith)
      ]
  step-tags s (Pc.acquire_exchange v h n) = elim (Bool-cases (s.free_node_head == h)) [
    | inl e ↦ rw (e, ==→≡ _ _ e) (tag_of-tagged_on n h, omega arith)
    | inr e ↦ rw e (omega arith, omega arith)
  ]
  step-tags s (Pc.push_exchange v k h) = elim (Bool-cases (s.head == h)) [
    | inl e ↦ rw (e, ==→≡ _ _ e) (omega arith, tag_of-tagged_on k h)
    | inr e ↦ rw e (omega arith, omega arith)
  ]
  step-tags s Pc.pop_head = elim (Bool-cases (index_of s.head == lock_free_null_pointer)) [
    | inl e ↦ rw e (omega arith, omega arith)
    | inr e ↦ rw e (omega arith, omega arith)
  ]
  step-tags s (Pc.pop_exchange h n) = elim (Bool-cases (s.head == h)) [
    | inl e ↦ rw (e, ==→≡ _ _ e) (omega arith, tag_of-tagged_on n h)
    | inr e ↦ rw e (omega arith, omega arith)
  ]
  step-tags s (Pc.release_exchange k v h) = elim (Bool-cases (s.free_node_head == h)) [
    | inl e ↦ rw (e, ==→≡ _ _ e) (tag_of-tagged_on k h, omega arith)
    | inr e ↦ rw e (omega arith, omega arith)
  ]
  step-tags s pc = (omega arith, omega arith)

  -- The operations that a schedule takes effect with.
  unfoldable pub history : System A → List (Event A) → List (Operation A)
  history m [] = []
  history m (Event.advance t ∷ es) =
      operation m.stack (m.thread t) (step blank m.stack (m.thread t)).1
      ++ history (act blank m (Event.advance t)) es
  history m (e ∷ es) = history (act blank m e) es
