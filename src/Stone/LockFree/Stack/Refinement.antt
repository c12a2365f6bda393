-- ===== src/Stone/LockFree/Stack/Refinement.antt =====
-- The steps of the lock-free stack, one by one: what each keeps, and what it does.
use recommender.Prelude.{
  ==→≡, ℕ, ◌+◌, ◌^◌, ◌<◌, ◌≡◌, refl, ap, inl, inr, arith, true, false, none, List, [], ◌∷◌, map,
  ◌==◌, ==-refl, Bool-cases,
}
use recommender.Stone.LockFree.{tag_of, index_of, lock_free_null_pointer}
use recommender.Stone.LockFree.Stack.{LockFreeStack, Pc, step}
use recommender.Stone.LockFree.Stack.Exchanges.{take-Moves, give-Moves, push-Moves, pop-Moves}
use recommender.Stone.LockFree.Stack.Invariant.{Chain}
use recommender.Stone.LockFree.Stack.Moves.{
  IsSound, Moves, still-Moves, put_value-Moves, put_next-Moves, put_next_free-Moves, resize-Moves,
}

-- One more exchange does not bring a tag back to 0.
pub record HasTags {A : Type 0} (s : LockFreeStack A) : Type 0 where
  pub free_tag : tag_of s.free_node_head + 1 < 2 ^ 32
  pub head_tag : tag_of s.head + 1 < 2 ^ 32

null_held :
    (m : ℕ → ℕ) (p : ℕ) (xs : List ℕ)
    → Chain m p xs
    → (p == lock_free_null_pointer) ≡ true
    → xs ≡ []
null_held m p [] c h = refl
null_held m p (x ∷ xs) c h = absurd (omega (arith, ==→≡ _ _ h, c.0, c.1))

module _ {A : Type 0} (blank : A) where
  pub step-Moves :
      (s : LockFreeStack A) (pc : Pc A) (free held : List ℕ)
      → IsSound s pc free held
      → HasTags s
      → Moves s pc free held (step blank s pc)
  unfolding step
  step-Moves s Pc.idle free held i tags = still-Moves s _ _ free held i tt refl refl
  step-Moves s (Pc.pushed b) free held i tags = still-Moves s _ _ free held i tt refl refl
  step-Moves s (Pc.popped v) free held i tags = still-Moves s _ _ free held i tt refl refl
  step-Moves s (Pc.acquire_head v) free held i tags =
      elim (Bool-cases (index_of s.free_node_head == lock_free_null_pointer)) [
        | inl e ↦
            rw e (still-Moves s (Pc.acquire_head v) (Pc.pushed false) free held i tt refl refl)
        | inr e ↦ rw e (
            still-Moves s (Pc.acquire_head v) (Pc.acquire_next v s.free_node_head) free held i
              (e, omega arith) refl refl)
      ]
  step-Moves s (Pc.acquire_next v h) free held i tags =
      still-Moves s _ _ free held i (i.knows, λ e. refl) refl refl
  step-Moves s (Pc.acquire_exchange v h n) free held i tags =
      elim (Bool-cases (s.free_node_head == h)) [
        | inl e ↦
            rw e (take-Moves s v h n free held i (==→≡ _ _ e) (rw (← ==→≡ _ _ e) tags.free_tag))
        | inr e ↦
            rw e (
              still-Moves s (Pc.acquire_exchange v h n) (Pc.acquire_head v) free held i tt refl
                refl)
      ]
  step-Moves s (Pc.push_value v k) free held i tags =
      put_value-Moves s _ _ k free held i refl refl v (rw (==-refl k)) (λ c. refl)
  step-Moves s (Pc.push_head v k) free held i tags = still-Moves s _ _ free held i i.knows refl refl
  step-Moves s (Pc.push_next v k h) free held i tags =
      put_next-Moves s _ _ k free held i refl refl (index_of h) (i.knows, rw (==-refl k))
        (λ c. refl)
  step-Moves s (Pc.push_exchange v k h) free held i tags = elim (Bool-cases (s.head == h)) [
    | inl e ↦ rw e (push-Moves s v k h free held i (==→≡ _ _ e) (rw (← ==→≡ _ _ e) tags.head_tag))
    | inr e ↦ rw e (
        still-Moves s (Pc.push_exchange v k h) (Pc.push_head v k) free held i (i.knows.0) refl refl)
  ]
  step-Moves s Pc.push_size free held i tags = resize-Moves s _ _ _ free held i tt refl (λ c. refl)
  step-Moves s Pc.pop_head free held i tags =
      elim (Bool-cases (index_of s.head == lock_free_null_pointer)) [
        | inl e ↦ rw e (
            still-Moves s Pc.pop_head (Pc.popped none) free held i tt refl
              (refl, ap (map s.value) (null_held s.next _ held i.held_chain e)))
        | inr e ↦
            rw e (
              still-Moves s Pc.pop_head (Pc.pop_next s.head) free held i (e, omega arith) refl refl)
      ]
  step-Moves s (Pc.pop_next h) free held i tags =
      still-Moves s _ _ free held i (i.knows, λ e. refl) refl refl
  step-Moves s (Pc.pop_exchange h n) free held i tags = elim (Bool-cases (s.head == h)) [
    | inl e ↦ rw e (pop-Moves s h n free held i (==→≡ _ _ e) (rw (← ==→≡ _ _ e) tags.head_tag))
    | inr e ↦ rw e (still-Moves s (Pc.pop_exchange h n) Pc.pop_head free held i tt refl refl)
  ]
  step-Moves s (Pc.pop_value k) free held i tags =
      still-Moves s _ _ free held i tt refl (refl, refl)
  step-Moves s (Pc.release_value k v) free held i tags =
      put_value-Moves s _ _ k free held i refl refl blank tt (λ c. refl)
  step-Moves s (Pc.release_head k v) free held i tags = still-Moves s _ _ free held i tt refl refl
  step-Moves s (Pc.release_next k v h) free held i tags =
      put_next_free-Moves s _ _ k free held i refl refl (index_of h) (rw (==-refl k)) (λ c. refl)
  step-Moves s (Pc.release_exchange k v h) free held i tags =
      elim (Bool-cases (s.free_node_head == h)) [
        | inl e ↦
            rw e (give-Moves s k v h free held i (==→≡ _ _ e) (rw (← ==→≡ _ _ e) tags.free_tag))
        | inr e ↦ rw e (
            still-Moves s (Pc.release_exchange k v h) (Pc.release_head k v) free held i tt refl
              refl)
      ]
  step-Moves s (Pc.pop_size v) free held i tags =
      resize-Moves s _ _ _ free held i tt refl (λ c. refl)
