-- ===== src/Stone/LockFree/Queue/Alone.antt =====
-- `Push` of a thread that runs alone.
use recommender.Prelude.{
  ℕ, ◌+◌, ◌^◌, ◌%◌, ◌≤◌, ◌≡◌, arith, length, refl, ◌∙◌, ap, inl, inr, Bool-cases, true, false, List,
  [], ◌∷◌, ◌==◌, ==-refl, at_put,
}
use recommender.Stone.LockFree.{get_pointer}
use recommender.Stone.LockFree.Queue.{LockFreeQueue, Pc, System, Event, tagged_on, step, act, run}

module _ {A : Type 0} (blank : A) where
  -- The steps of one thread, while the others stand still.
  abbrev steps_of : LockFreeQueue A × Pc A → List ℕ → LockFreeQueue A × Pc A
  steps_of r [] = r
  steps_of r (new ∷ news) = steps_of (step blank r.0 r.1 new) news

  -- The schedule in which the thread `t` goes on alone.
  abbrev pub alone : ℕ → List ℕ → List (Event A)
  alone t [] = []
  alone t (new ∷ news) = Event.advance t new ∷ alone t news

  run-alone :
      (news : List ℕ) (m : System A) (t : ℕ)
      → ((run blank m (alone t news)).queue, (run blank m (alone t news)).thread t)
        ≡ steps_of (m.queue, m.thread t) news
  unfolding run act
  run-alone [] m t = refl
  run-alone (new ∷ news) m t =
      let r : LockFreeQueue A × Pc A = step blank m.queue (m.thread t) new in
      let m' : System A = record { queue = r.0; thread = at_put m.thread t r.1 } in
      let th : m'.thread t ≡ r.1 = rw (==-refl t) refl in
      run-alone news m' t ∙ ap (λ pc. steps_of (r.0, pc) news) th

  stays-pushed :
      (news : List ℕ) (s : LockFreeQueue A) (n : ℕ)
      → steps_of (s, Pc.pushed n) news ≡ (s, Pc.pushed n)
  unfolding step
  stays-pushed [] s n = refl
  stays-pushed (new ∷ news) s n = stays-pushed news s n

  tail-step :
      (s : LockFreeQueue A) (v : A) (k new : ℕ)
      → step blank s (Pc.push_exchange v k s.tail) new
        ≡ (record s { tail = tagged_on k s.tail }, Pc.push_prev k s.tail)
  unfolding step
  tail-step s v k new = rw (==-refl s.tail) refl

  free-step :
      (s : LockFreeQueue A) (v : A) (n new : ℕ)
      → step blank s (Pc.acquire_exchange v s.free_node_head n) new ≡ (
        record s { free_node_head = tagged_on n s.free_node_head },
        Pc.push_value v (get_pointer s.free_node_head),
      )
  unfolding step
  free-step s v n new = rw (==-refl s.free_node_head) refl

  -- From the write of the value on.
  push_value-alone :
      (s : LockFreeQueue A) (v : A) (k a b c d e f : ℕ) (news : List ℕ)
      → (steps_of (s, Pc.push_value v k) (a ∷ b ∷ c ∷ d ∷ e ∷ f ∷ news)).1
        ≡ Pc.pushed ((s.size + 1) % 2 ^ 64)
  unfolding step
  push_value-alone s v k a b c d e f news =
      let before : LockFreeQueue A = record s {
        value = at_put s.value k v;
        next = at_put s.next k (tagged_on (get_pointer s.tail) s.tail);
      } in
      ap (λ r. (steps_of r (e ∷ f ∷ news)).1) (tail-step before v k d)
      ∙ ap (λ r. r.1) (stays-pushed news _ _)

  allocate-step :
      (s : LockFreeQueue A) (v : A) (new : ℕ)
      → (get_pointer s.free_node_head == 0) ≡ true
      → step blank s (Pc.acquire_head v) new
        ≡ (record s { next_free_node = at_put s.next_free_node new 0 }, Pc.push_value v new)
  unfolding step
  allocate-step s v new q = rw q refl

  found-step :
      (s : LockFreeQueue A) (v : A) (new : ℕ)
      → (get_pointer s.free_node_head == 0) ≡ false
      → step blank s (Pc.acquire_head v) new ≡ (s, Pc.acquire_next v s.free_node_head)
  unfolding step
  found-step s v new q = rw q refl

  next-step :
      (s : LockFreeQueue A) (v : A) (new : ℕ)
      → step blank s (Pc.acquire_next v s.free_node_head) new ≡ (
        s,
        Pc.acquire_exchange v s.free_node_head (s.next_free_node (get_pointer s.free_node_head)),
      )
  unfolding step
  next-step s v new = refl

  acquire-alone :
      (s : LockFreeQueue A) (v : A) (a b c d e f g h i : ℕ) (news : List ℕ)
      → (steps_of (s, Pc.acquire_head v) (a ∷ b ∷ c ∷ d ∷ e ∷ f ∷ g ∷ h ∷ i ∷ news)).1
        ≡ Pc.pushed ((s.size + 1) % 2 ^ 64)
  acquire-alone s v a b c d e f g h i news = elim (Bool-cases (get_pointer s.free_node_head == 0)) [
    | inl q ↦
        ap (λ r. (steps_of r (b ∷ c ∷ d ∷ e ∷ f ∷ g ∷ h ∷ i ∷ news)).1) (allocate-step s v a q)
        ∙ push_value-alone _ v a b c d e f g (h ∷ i ∷ news)
    | inr q ↦
        ap (λ r. (steps_of r (b ∷ c ∷ d ∷ e ∷ f ∷ g ∷ h ∷ i ∷ news)).1) (found-step s v a q)
        ∙ ap (λ r. (steps_of r (c ∷ d ∷ e ∷ f ∷ g ∷ h ∷ i ∷ news)).1) (next-step s v b)
        ∙ ap (λ r. (steps_of r (d ∷ e ∷ f ∷ g ∷ h ∷ i ∷ news)).1)
            (free-step s v (s.next_free_node (get_pointer s.free_node_head)) c)
        ∙ push_value-alone _ v _ d e f g h i news
  ]

  -- A thread that has called `Push`, and then goes on alone, has returned after 9 steps or more, with
  -- the size of the queue, whatever the state in which the other threads stand still.
  pub push-returns :
      (m : System A) (t : ℕ) (v : A) (news : List ℕ)
      → m.thread t ≡ Pc.acquire_head v
      → 9 ≤ length news
      → (run blank m (alone t news)).thread t ≡ Pc.pushed ((m.queue.size + 1) % 2 ^ 64)
  push-returns m t v (a ∷ b ∷ c ∷ d ∷ e ∷ f ∷ g ∷ h ∷ i ∷ news) here long =
      let first : List ℕ = a ∷ b ∷ c ∷ d ∷ e ∷ f ∷ g ∷ h ∷ i ∷ news in
      ap (λ r. r.1) (run-alone first m t)
      ∙ ap (λ pc. (steps_of (m.queue, pc) first).1) here
      ∙ acquire-alone m.queue v a b c d e f g h i news
  push-returns m t v news here long = absurd (omega (arith, long))
