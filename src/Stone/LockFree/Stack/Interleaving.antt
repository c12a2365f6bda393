-- ===== src/Stone/LockFree/Stack/Interleaving.antt =====
-- All runs of the lock-free stack: any number of threads, in any order.
use mathlib.Core.Option.{none-ne-some}
use recommender.Prelude.{
  ==→≡, at_put, ℕ, ◌≡◌, refl, ◌∙◌, sym, inl, inr, true, false, none, some, List, ◌==◌, Bool-cases,
}
use recommender.Stone.IntrusiveList.Circle.{==-flip}
use recommender.Stone.LockFree.Stack.{LockFreeStack, Pc, System, is_outside}
use recommender.Stone.LockFree.Stack.Invariant.{owner, IsOut, Knows, Rely, Knows-Rely}
use recommender.Stone.LockFree.Stack.Moves.{IsSound, Foreign}

module _ {A : Type 0} where
  -- The chains, and all threads, which have no node in common.
  pub record IsConsistent (m : System A) (free held : List ℕ) : Type 0 where
    pub sound : (t : ℕ) → IsSound m.stack (m.thread t) free held
    pub foreign : (t u : ℕ) → (t == u) ≡ false → Foreign (m.thread t) (m.thread u) free held

  Foreign-flip :
      (p q : Pc A) (free held : List ℕ)
      → Foreign p q free held
      → ((k : ℕ) → owner p ≡ some k → IsOut k free held)
      → Foreign q p free held
  Foreign-flip p q free held f out k e = (out k e, λ j e'. ==-flip k j ((f j e').1 k e))

  -- The threads after a step of the thread `t`.
  pub moved-IsConsistent :
      (m : System A) (t : ℕ) (r : LockFreeStack A × Pc A) (free held free' held' : List ℕ)
      → IsConsistent m free held
      → IsSound r.0 r.1 free' held'
      → ((q : Pc A)
          → Foreign (m.thread t) q free held
          → Rely m.stack r.0 q × Foreign r.1 q free' held')
      → IsConsistent (record { stack = r.0; thread = at_put m.thread t r.1 }) free' held'
  moved-IsConsistent m t r free held free' held' h own others = record {
    sound = λ u. elim (Bool-cases (t == u)) [
      | inl e ↦ rw e own
      | inr e ↦ rw e (
          let (rely, apart) = others (m.thread u) (h.foreign t u e) in
          record {
            free_chain = own.free_chain;
            held_chain = own.held_chain;
            apart = own.apart;
            knows = Knows-Rely m.stack r.0 (m.thread u) rely (h.sound u).knows;
            owned = λ k e'. (apart k e').0;
          })
    ];
    foreign = λ u w ne. elim (Bool-cases (t == u)) [
      | inl e ↦
          let ne' : (t == w) ≡ false = rw (==→≡ t u e) ne in
          rw (e, ne') ((others (m.thread w) (h.foreign t w ne')).1)
      | inr e ↦ elim (Bool-cases (t == w)) [
        | inl e' ↦
            rw (e, e')
              (Foreign-flip r.1 (m.thread u) free' held' ((others (m.thread u) (h.foreign t u e)).1)
                own.owned)
        | inr e' ↦
            rw (e, e')
              (λ k q.
                (((others (m.thread w) (h.foreign t w e')).1 k q).0, (h.foreign u w ne k q).1))
      ]
    ];
  }

  pub call-IsConsistent :
      (m : System A) (t : ℕ) (pc : Pc A) (free held : List ℕ)
      → IsConsistent m free held
      → is_outside (m.thread t) ≡ true
      → owner pc ≡ none
      → Knows m.stack pc
      → IsConsistent (record m { thread = at_put m.thread t pc }) free held
  call-IsConsistent m t pc free held h out no_node kn =
      moved-IsConsistent m t (m.stack, pc) free held free held h
        record {
          free_chain = (h.sound t).free_chain;
          held_chain = (h.sound t).held_chain;
          apart = (h.sound t).apart;
          knows = kn;
          owned = λ k e. absurd (none-ne-some k (sym no_node ∙ e));
        }
        (λ q f. (
          record {
            free_word = inl (refl, refl);
            head_word = inl (refl, refl);
            node = λ k e. (refl, refl, refl);
          },
          λ k e. ((f k e).0, λ j e'. absurd (none-ne-some j (sym no_node ∙ e'))),
        ))
