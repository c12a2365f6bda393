-- ===== src/Stone/LockFree/Queue/Progress.antt =====
-- `Pop` on a queue whose first node has no valid `mPrev`.
use recommender.Prelude.{
  ℕ, ◌≡◌, refl, ◌∙◌, sym, ap, Bool, true, false, List, [], ◌∷◌, ◌==◌, ==-refl, eq→==, at_put,
}
use mathlib.Core.Path.{subst}
use recommender.Stone.LockFree.{get_pointer, get_tag, invalid_tag}
use recommender.Stone.LockFree.Queue.{LockFreeQueue, Pc, System, Event, step, act, run}

-- The steps of one thread alone.
abbrev pub IsAlone : {A : Type 0} → ℕ → List (Event A) → Type 0
IsAlone t [] = Unit {0}
IsAlone t (Event.advance u new ∷ es) = (u ≡ t) × IsAlone t es
IsAlone t (e ∷ es) = ⊥

module _ {A : Type 0} where
  -- There is an element, but the node at the head has the tag that `ReleaseNode` writes.
  pub record IsUnlinked (s : LockFreeQueue A) : Type 0 where
    pub filled : (s.tail == s.head) ≡ false
    pub invalid : get_tag (s.prev (get_pointer s.head)) ≡ invalid_tag

  -- Whether a thread is in the loop of `Pop`, before it takes an element or finds none.
  abbrev pub is_searching : Pc A → Bool
  is_searching Pc.pop_head = true
  is_searching (Pc.pop_tail h) = true
  is_searching (Pc.pop_prev h t) = true
  is_searching (Pc.pop_check h t p) = true
  is_searching _ = false

  -- The words of a thread in that loop are those of the queue.
  abbrev Spins : LockFreeQueue A → Pc A → Type 0
  Spins s Pc.pop_head = Unit {0}
  Spins s (Pc.pop_tail h) = h ≡ s.head
  Spins s (Pc.pop_prev h t) = (h ≡ s.head) × (t ≡ s.tail)
  Spins s (Pc.pop_check h t p) = (h ≡ s.head) × (t ≡ s.tail) × (p ≡ s.prev (get_pointer s.head))
  Spins s pc = ⊥

  Spins-searching : (s : LockFreeQueue A) (pc : Pc A) → Spins s pc → is_searching pc ≡ true
  Spins-searching s Pc.pop_head w = refl
  Spins-searching s (Pc.pop_tail h) w = refl
  Spins-searching s (Pc.pop_prev h t) w = refl
  Spins-searching s (Pc.pop_check h t p) w = refl
  Spins-searching s pc w = absurd w

module _ {A : Type 0} (blank : A) where
  step-Spins :
      (s : LockFreeQueue A) (pc : Pc A) (new : ℕ)
      → IsUnlinked s
      → Spins s pc
      → ((step blank s pc new).0 ≡ s) × Spins s ((step blank s pc new).1)
  unfolding step
  step-Spins s Pc.pop_head new u w = (refl, refl)
  step-Spins s (Pc.pop_tail h) new u w = (refl, (w, refl))
  step-Spins s (Pc.pop_prev h t) new u (e, e') = (refl, (e, e', ap (λ x. s.prev (get_pointer x)) e))
  step-Spins s (Pc.pop_check h t p) new u (e, e', f) =
      rw (e, e', f, ==-refl s.head, u.filled, u.invalid) (refl, tt)
  step-Spins s pc new u w = absurd w

  spin :
      (es : List (Event A)) (m : System A) (t : ℕ)
      → IsAlone t es
      → IsUnlinked m.queue
      → Spins m.queue (m.thread t)
      → ((run blank m es).queue ≡ m.queue) × Spins m.queue ((run blank m es).thread t)
  unfolding run act
  spin [] m t al u w = (refl, w)
  spin (Event.advance v new ∷ es) m t (same, al) u w =
      let r : LockFreeQueue A × Pc A = step blank m.queue (m.thread v) new in
      let (q, w') =
        step-Spins m.queue (m.thread v) new u
          (subst (λ x. Spins m.queue (m.thread x)) (sym same) w) in
      let m' : System A = record { queue = r.0; thread = at_put m.thread v r.1 } in
      let th : m'.thread t ≡ r.1 = rw (eq→== v t same) refl in
      let (e, w'') =
        spin es m' t al (subst IsUnlinked (sym q) u)
          (subst (λ s. Spins s (m'.thread t)) (sym q) (subst (Spins m.queue) (sym th) w')) in
      (e ∙ q, subst (λ s. Spins s ((run blank m' es).thread t)) q w'')
  spin (Event.call_push v x ∷ es) m t al u w = absurd al
  spin (Event.call_pop v ∷ es) m t al u w = absurd al

  -- While there is an element, but the `mPrev` of the node at the head has the tag that `ReleaseNode`
  -- wrote, `Pop` of a thread that runs alone does not return, however many steps it takes, and changes
  -- nothing: it waits for the thread that was about to write that `mPrev`.
  pub pop-waiting :
      (es : List (Event A)) (m : System A) (t : ℕ)
      → IsAlone t es
      → IsUnlinked m.queue
      → m.thread t ≡ Pc.pop_head
      → ((run blank m es).queue ≡ m.queue) × (is_searching ((run blank m es).thread t) ≡ true)
  pop-waiting es m t al u here =
      let (e, w) = spin es m t al u (subst (Spins m.queue) (sym here) tt) in
      (e, Spins-searching m.queue ((run blank m es).thread t) w)
