-- ===== src/Stone/LockFree/Queue/Linear.antt =====
-- The steps of the lock-free queue, and the operations on a list that they amount to.
use recommender.Prelude.{
  ◌≡◌, refl, inl, inr, List, [], ◌∷◌, ◌++◌, ◌==◌, ==→≡, if◌then◌else◌, Bool-cases,
}
use recommender.Stone.LockFree.Queue.{Pc, step, System, Event, act}
use recommender.Stone.LockFree.Queue.Moves.{Effect}

-- What the queue does as all threads see it.
pub data Operation (A : Type 0) : Type 0 where
  enqueue : A → Operation A
  dequeue : A → Operation A
  find_empty : Operation A

module _ {A : Type 0} where
  -- The contents, first element first, before and after a sequence of operations.
  abbrev pub Performs : List A → List (Operation A) → List A → Type 0
  Performs c [] c' = c' ≡ c
  Performs c (Operation.enqueue v ∷ os) c' = Performs (c ++ (v ∷ [])) os c'
  Performs c (Operation.dequeue v ∷ os) c' =
      (rest : List A) × (c ≡ (v ∷ rest)) × Performs rest os c'
  Performs c (Operation.find_empty ∷ os) c' = (c ≡ []) × Performs c os c'

  -- The operation that a step takes effect with, if any: the exchanges on `mTail` and on `mHead`, which
  -- put the element of the call in and take the element that the call returns out, and the read of
  -- `mTail` where it is the word that was read from `mHead`.
  abbrev pub operation : Pc A → Pc A → List (Operation A)
  operation (Pc.push_exchange v k t) (Pc.push_prev j w) = Operation.enqueue v ∷ []
  operation (Pc.pop_exchange h p v) (Pc.release_value k w) = Operation.dequeue v ∷ []
  operation (Pc.pop_tail h) (Pc.pop_prev h' t) = if t == h then Operation.find_empty ∷ [] else []
  operation pc pc' = []

  pub Effect-Performs :
      (pc pc' : Pc A) (c c' : List A) → Effect pc pc' c c' → Performs c (operation pc pc') c'
  Effect-Performs (Pc.push_exchange v k t) (Pc.push_prev j w) c c' e = e
  Effect-Performs (Pc.pop_exchange h p v) (Pc.release_value k w) c c' e = (c', e.0, refl)
  Effect-Performs (Pc.pop_tail h) (Pc.pop_prev h' t) c c' e = elim (Bool-cases (t == h)) [
    | inl q ↦ rw q (e.1 (==→≡ t h q), e.0)
    | inr q ↦ rw q e.0
  ]
  Effect-Performs pc pc' c c' e = e

  pub Performs-append :
      (c c' c'' : List A) (os os' : List (Operation A))
      → Performs c os c'
      → Performs c' os' c''
      → Performs c (os ++ os') c''
  Performs-append c c' c'' [] os' p q = rw (← p) q
  Performs-append c c' c'' (Operation.enqueue v ∷ os) os' p q =
      Performs-append (c ++ (v ∷ [])) c' c'' os os' p q
  Performs-append c c' c'' (Operation.dequeue v ∷ os) os' (rest, e, p) q =
      (rest, e, Performs-append rest c' c'' os os' p q)
  Performs-append c c' c'' (Operation.find_empty ∷ os) os' (e, p) q =
      (e, Performs-append c c' c'' os os' p q)

module _ {A : Type 0} (blank : A) where
  -- The operations that a schedule takes effect with.
  unfoldable pub history : System A → List (Event A) → List (Operation A)
  history m [] = []
  history m (Event.advance t new ∷ es) =
      operation (m.thread t) (step blank m.queue (m.thread t) new).1
      ++ history (act blank m (Event.advance t new)) es
  history m (e ∷ es) = history (act blank m e) es
