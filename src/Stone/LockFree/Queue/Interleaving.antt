-- ===== src/Stone/LockFree/Queue/Interleaving.antt =====
-- All threads of the lock-free queue: what a step of one of them leaves.
use mathlib.Core.Option.{none-ne-some}
use recommender.Prelude.{
  ==→≡, at_put, ℕ, ◌≡◌, refl, ◌∙◌, sym, inl, inr, arith, true, false, none, some, List, ◌==◌,
  Bool-cases,
}
use recommender.Stone.IntrusiveList.Circle.{==-flip}
use recommender.Stone.LockFree.Queue.{LockFreeQueue, Pc, System, is_outside}
use recommender.Stone.LockFree.Queue.Invariant.{Ghost, owner, IsOut, IsSound, Knows}
use recommender.Stone.LockFree.Queue.Rely.{Rely, Knows-Rely}
use recommender.Stone.LockFree.Queue.Moves.{Foreign}

module _ {A : Type 0} where
  -- The queue, and all threads, which have no node in common.
  pub record IsConsistent (m : System A) (g : Ghost) (used : List ℕ) : Type 0 where
    pub sound : IsSound m.queue g used
    pub knows : (t : ℕ) → Knows m.queue g (m.thread t)
    pub owned : (t k : ℕ) → owner (m.thread t) ≡ some k → IsOut g used k
    pub foreign : (t u : ℕ) → (t == u) ≡ false → Foreign (m.thread t) (m.thread u) g used

  Foreign-flip :
      (p q : Pc A) (g : Ghost) (used : List ℕ)
      → Foreign p q g used
      → ((k : ℕ) → owner p ≡ some k → IsOut g used k)
      → Foreign q p g used
  Foreign-flip p q g used f out k e = (out k e, λ j e'. ==-flip k j ((f j e').1 k e))

  -- The threads after a step of the thread `t`.
  pub moved-IsConsistent :
      (m : System A) (t : ℕ) (r : LockFreeQueue A × Pc A) (g g' : Ghost) (used used' : List ℕ)
      → IsConsistent m g used
      → IsSound r.0 g' used'
      → Knows r.0 g' r.1
      → ((k : ℕ) → owner r.1 ≡ some k → IsOut g' used' k)
      → ((q : Pc A)
          → Foreign (m.thread t) q g used
          → Rely m.queue r.0 g g' q × Foreign r.1 q g' used')
      → IsConsistent (record { queue = r.0; thread = at_put m.thread t r.1 }) g' used'
  moved-IsConsistent m t r g g' used used' h sound kn own others = record {
    sound = sound;
    knows = λ u. elim (Bool-cases (t == u)) [
      | inl e ↦ rw e kn
      | inr e ↦ rw e (
          Knows-Rely m.queue r.0 g g' (m.thread u) ((others (m.thread u) (h.foreign t u e)).0)
            (h.knows u))
    ];
    owned = λ u. elim (Bool-cases (t == u)) [
      | inl e ↦ rw e own
      | inr e ↦ rw e (λ k e'. ((others (m.thread u) (h.foreign t u e)).1 k e').0)
    ];
    foreign = λ u w ne. elim (Bool-cases (t == u)) [
      | inl e ↦
          let ne' : (t == w) ≡ false = rw (==→≡ t u e) ne in
          rw (e, ne') ((others (m.thread w) (h.foreign t w ne')).1)
      | inr e ↦ elim (Bool-cases (t == w)) [
        | inl e' ↦
            rw (e, e')
              (Foreign-flip r.1 (m.thread u) g' used' ((others (m.thread u) (h.foreign t u e)).1)
                own)
        | inr e' ↦
            rw (e, e')
              (λ k q.
                (((others (m.thread w) (h.foreign t w e')).1 k q).0, (h.foreign u w ne k q).1))
      ]
    ];
  }

  pub call-IsConsistent :
      (m : System A) (t : ℕ) (pc : Pc A) (g : Ghost) (used : List ℕ)
      → IsConsistent m g used
      → is_outside (m.thread t) ≡ true
      → owner pc ≡ none
      → Knows m.queue g pc
      → IsConsistent (record m { thread = at_put m.thread t pc }) g used
  call-IsConsistent m t pc g used h out no_node kn =
      moved-IsConsistent m t (m.queue, pc) g g used used h h.sound kn
        (λ k e. absurd (none-ne-some k (sym no_node ∙ e)))
        (λ q f. (
          record {
            ordered = h.sound.ordered;
            first_le = omega arith;
            last_le = omega arith;
            same_at = λ j le. refl;
            free_word = inl (refl, refl);
            values = λ j lt le. refl;
            node = λ k e. (refl, refl, refl);
          },
          λ k e. ((f k e).0, λ j e'. absurd (none-ne-some j (sym no_node ∙ e'))),
        ))
