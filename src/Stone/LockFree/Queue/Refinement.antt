-- ===== src/Stone/LockFree/Queue/Refinement.antt =====
-- The steps of the lock-free queue, one by one: what each keeps.
use mathlib.Core.Path.{subst}
use recommender.Prelude.{
  ℕ, ◌+◌, ◌-◌, ◌^◌, ◌%◌, ◌≡◌, refl, ◌∙◌, ap, inl, inr, arith, Bool, true, false, some, List, ◌∷◌,
  ◌==◌, ==→≡, ==-refl, Bool-cases,
}
use recommender.Stone.IntrusiveList.Sequence.{Absent}
use recommender.Stone.LockFree.{make_tagged, get_pointer, invalid_tag}
use recommender.Stone.LockFree.Queue.{LockFreeQueue, Pc, tagged_on, step}
use recommender.Stone.LockFree.Queue.Allocation.{allocate-Moves, weaken-Moves}
use recommender.Stone.LockFree.Queue.Invariant.{Ghost, IsLink}
use recommender.Stone.LockFree.Queue.Moves.{Moves}
use recommender.Stone.LockFree.Queue.Positions.{IsAddress, get_pointer-seq}
use recommender.Stone.LockFree.Queue.Steps.{
  HasRoom, no_owner, acquired-Moves, pushed-Moves, linked-Moves, taken-Moves, released-Moves,
  tail-Moves, check-Moves,
}
use recommender.Stone.LockFree.Queue.Fix.{fix_head-Moves, fix_next-Moves, fix_prev-Moves}
use recommender.Stone.LockFree.Queue.Writes.{
  IsReady, still-Moves, link-Moves, resize-Moves, value-Moves, next-Moves, next_free-Moves,
  invalid-IsLink,
}

module _ {A : Type 0} where
  -- Whether the next step of a thread calls `new`.
  abbrev allocates : LockFreeQueue A → Pc A → Bool
  allocates s (Pc.acquire_head v) = get_pointer s.free_node_head == 0
  allocates s pc = false

module _ {A : Type 0} (blank : A) where
  old-Moves :
      (s : LockFreeQueue A) (pc : Pc A) (g : Ghost) (used : List ℕ) (new : ℕ)
      → IsReady s pc g used
      → HasRoom s g 1
      → allocates s pc ≡ false
      → Moves s pc g used used (step blank s pc new)
  unfolding step
  old-Moves s (Pc.idle) g used new i room e =
      still-Moves s (Pc.idle) (Pc.idle) g used i (tt) no_owner refl
  old-Moves s (Pc.pushed n) g used new i room e =
      still-Moves s (Pc.pushed n) (Pc.pushed n) g used i (tt) no_owner refl
  old-Moves s (Pc.popped v) g used new i room e =
      still-Moves s (Pc.popped v) (Pc.popped v) g used i (tt) no_owner refl
  old-Moves s (Pc.acquire_head v) g used new i room e = rw e (
      still-Moves s (Pc.acquire_head v) (Pc.acquire_next v s.free_node_head) g used i
        (omega arith, e) no_owner refl)
  old-Moves s (Pc.acquire_next v h) g used new i room e =
      still-Moves s (Pc.acquire_next v h)
        (Pc.acquire_exchange v h (s.next_free_node (get_pointer h))) g used i
        (i.knows.0, i.knows.1, λ e'. refl) no_owner refl
  old-Moves s (Pc.acquire_exchange v h n) g used new i room e =
      elim (Bool-cases (s.free_node_head == h)) [
        | inl e' ↦ rw e' (acquired-Moves s v h n g used i room (==→≡ _ _ e'))
        | inr e' ↦ rw e' (
            still-Moves s (Pc.acquire_exchange v h n) (Pc.acquire_head v) g used i (tt) no_owner
              refl)
      ]
  old-Moves s (Pc.push_value v k) g used new i room e =
      value-Moves s (Pc.push_value v k) (Pc.push_tail v k) g used i k v refl (rw (==-refl k) refl)
        refl refl
  old-Moves s (Pc.push_tail v k) g used new i room e =
      still-Moves s (Pc.push_tail v k) (Pc.push_next v k s.tail) g used i (i.knows) (λ l o. o) refl
  old-Moves s (Pc.push_next v k t) g used new i room e =
      next-Moves s (Pc.push_next v k t) (Pc.push_exchange v k t) g used i k
        (tagged_on (get_pointer t) t) refl (i.knows, rw (==-refl k) refl) refl refl
  old-Moves s (Pc.push_exchange v k t) g used new i room e = elim (Bool-cases (s.tail == t)) [
    | inl e' ↦ rw e' (pushed-Moves s v k t g used i room (==→≡ _ _ e'))
    | inr e' ↦ rw e' (
        still-Moves s (Pc.push_exchange v k t) (Pc.push_tail v k) g used i (i.knows.0) (λ l o. o)
          refl)
  ]
  old-Moves s (Pc.push_prev k t) g used new i room e = linked-Moves s k t g used i
  old-Moves s (Pc.push_size) g used new i room e =
      resize-Moves s Pc.push_size (Pc.pushed ((s.size + 1) % 2 ^ 64)) g used i
        ((s.size + 1) % 2 ^ 64) tt no_owner refl
  old-Moves s (Pc.pop_head) g used new i room e =
      still-Moves s (Pc.pop_head) (Pc.pop_tail s.head) g used i
        (g.first, (i.sound.head_word, omega arith, omega (arith, i.sound.ordered, i.sound.few)))
        no_owner refl
  old-Moves s (Pc.pop_tail h) g used new i room e = tail-Moves s h g used i
  old-Moves s (Pc.pop_prev h t) g used new i room e =
      let (j, was, at) = i.knows in
      still-Moves s (Pc.pop_prev h t) (Pc.pop_check h t (s.prev (get_pointer h))) g used i
        (
          j,
          was,
          subst (λ a. IsLink g a (s.prev (get_pointer h)))
              (ap get_pointer (was.0)
                ∙ get_pointer-seq (g.at j) j
                    ((i.sound.addresses j (omega (arith, was.1, i.sound.ordered))).1)
                    (omega (arith, was.1, i.sound.ordered, i.sound.few)))
              (i.sound.links (get_pointer h)),
          at,
        )
        no_owner refl
  old-Moves s (Pc.pop_check h t p) g used new i room e = elim (Bool-cases (s.head == h)) [
    | inl e' ↦ rw e' (check-Moves s h t p g used i (==→≡ _ _ e'))
    | inr e' ↦ rw e' (still-Moves s (Pc.pop_check h t p) (Pc.pop_head) g used i (tt) no_owner refl)
  ]
  old-Moves s (Pc.pop_value h p) g used new i room e =
      let (j, was, link, tag) = i.knows in
      still-Moves s (Pc.pop_value h p) (Pc.pop_exchange h p (s.value (get_pointer p))) g used i
        (j, was, link, tag, λ now. refl) no_owner refl
  old-Moves s (Pc.pop_exchange h p v) g used new i room e = elim (Bool-cases (s.head == h)) [
    | inl e' ↦ rw e' (taken-Moves s h p v g used i (==→≡ _ _ e'))
    | inr e' ↦
        rw e' (still-Moves s (Pc.pop_exchange h p v) (Pc.pop_head) g used i (tt) no_owner refl)
  ]
  old-Moves s (Pc.fix_head h c) g used new i room e = elim (Bool-cases (s.head == h)) [
    | inl e' ↦ rw e' (fix_head-Moves s h c g used i (==→≡ _ _ e'))
    | inr e' ↦ rw e' (still-Moves s (Pc.fix_head h c) (Pc.pop_head) g used i (tt) no_owner refl)
  ]
  old-Moves s (Pc.fix_next h c) g used new i room e = fix_next-Moves s h c g used i
  old-Moves s (Pc.fix_prev h c n) g used new i room e = fix_prev-Moves s h c n g used i
  old-Moves s (Pc.release_value k v) g used new i room e =
      value-Moves s (Pc.release_value k v) (Pc.release_head k v) g used i k blank refl tt refl refl
  old-Moves s (Pc.release_head k v) g used new i room e =
      still-Moves s (Pc.release_head k v) (Pc.release_prev k v s.free_node_head) g used i (tt)
        (λ l o. o) refl
  old-Moves s (Pc.release_prev k v f) g used new i room e =
      link-Moves s (Pc.release_prev k v f) (Pc.release_next k v f) g used i k
        (make_tagged 0 invalid_tag) (invalid-IsLink g) tt (λ l o. o) refl
  old-Moves s (Pc.release_next k v f) g used new i room e =
      next_free-Moves s (Pc.release_next k v f) (Pc.release_exchange k v f) g used i k
        (get_pointer f) refl (rw (==-refl k) refl) refl refl
  old-Moves s (Pc.release_exchange k v f) g used new i room e =
      elim (Bool-cases (s.free_node_head == f)) [
        | inl e' ↦ rw e' (released-Moves s k f v g used i room (==→≡ _ _ e'))
        | inr e' ↦ rw e' (
            still-Moves s (Pc.release_exchange k v f) (Pc.release_head k v) g used i (tt) (λ l o. o)
              refl)
      ]
  old-Moves s (Pc.pop_size v) g used new i room e =
      resize-Moves s (Pc.pop_size v) (Pc.popped (some v)) g used i
        ((s.size + (2 ^ 64 - 1)) % 2 ^ 64) tt no_owner refl

  allocate-step :
      (s : LockFreeQueue A) (v : A) (g : Ghost) (used : List ℕ) (new : ℕ)
      → IsReady s (Pc.acquire_head v) g used
      → IsAddress new
      → Absent new used
      → (get_pointer s.free_node_head == 0) ≡ true
      → Moves s (Pc.acquire_head v) g used (new ∷ used) (step blank s (Pc.acquire_head v) new)
  unfolding step
  allocate-step s v g used new i address fresh e =
      rw e (allocate-Moves s v g used new i.sound address fresh)

  -- The next step of a thread, with an address for `new` that is not in use.
  pub step-Moves :
      (s : LockFreeQueue A) (pc : Pc A) (g : Ghost) (used : List ℕ) (new : ℕ)
      → IsReady s pc g used
      → HasRoom s g 1
      → IsAddress new
      → Absent new used
      → Moves s pc g used (new ∷ used) (step blank s pc new)
  step-Moves s (Pc.acquire_head v) g used new i room address fresh =
      elim (Bool-cases (get_pointer s.free_node_head == 0)) [
        | inl e ↦ allocate-step s v g used new i address fresh e
        | inr e ↦
            weaken-Moves s _ g used _ new (old-Moves s (Pc.acquire_head v) g used new i room e)
      ]
  step-Moves s pc g used new i room address fresh =
      weaken-Moves s _ g used _ new (old-Moves s pc g used new i room refl)
