-- ===== src/Stone/LockFree/Stack/Moves.antt =====
-- The kinds of steps of the lock-free stack, and what each keeps.
use recommender.Prelude.{
  at_put, ℕ, ◌<◌, ◌≡◌, refl, ◌∙◌, sym, ap, inl, arith, false, none, some, List, [], ◌∷◌, map, ◌==◌,
}
use recommender.Stone.IntrusiveList.Sequence.{Absent}
use recommender.Stone.LockFree.{index_of, lock_free_null_pointer}
use recommender.Stone.LockFree.Stack.{LockFreeStack, Pc}
use recommender.Stone.LockFree.Stack.Invariant.{Chain, Apart, owner, IsOut, Knows, Rely}

pub Chain-put :
    (m : ℕ → ℕ) (p k v : ℕ) (xs : List ℕ) → Absent k xs → Chain m p xs → Chain (at_put m k v) p xs
Chain-put m p k v [] out c = c
Chain-put m p k v (x ∷ xs) out (e, lt, ab, c) =
    (e, lt, ab, rw (out.0) (Chain-put m (m x) k v xs (out.1) c))

pub Chain-other :
    (m : ℕ → ℕ) (p k : ℕ) (xs : List ℕ)
    → Absent k xs
    → k < lock_free_null_pointer
    → Chain m p xs
    → (k == p) ≡ false
Chain-other m p k [] out lt c = ground arith
Chain-other m p k (x ∷ xs) out lt (e, lt', ab, c) = rw e (out.0)

module _ {A : Type 0} where
  -- What holds of the stack and one thread: the free nodes `free` and the nodes `held` of the stack.
  pub record IsSound (s : LockFreeStack A) (pc : Pc A) (free held : List ℕ) : Type 0 where
    pub free_chain : Chain s.next_free_node (index_of s.free_node_head) free
    pub held_chain : Chain s.next (index_of s.head) held
    pub apart : Apart free held
    pub knows : Knows s pc
    pub owned : (k : ℕ) → owner pc ≡ some k → IsOut k free held

  -- What a thread `q` other than `pc` has to itself.
  abbrev pub Foreign : Pc A → Pc A → List ℕ → List ℕ → Type 0
  Foreign pc q free held =
      (k : ℕ)
      → owner q ≡ some k
      → IsOut k free held × ((j : ℕ) → owner pc ≡ some j → (j == k) ≡ false)

  -- The values on the stack, before and after a step: the exchange of `Push` puts the element on top,
  -- the exchange of `Pop` takes the top off, where its node holds it still, and no other step changes
  -- them; `Pop` finds nothing only where the stack is empty.
  abbrev pub Effect : LockFreeStack A → Pc A → Pc A → List A → List A → Type 0
  Effect s (Pc.push_exchange v k h) Pc.push_size c c' = c' ≡ (v ∷ c)
  Effect s (Pc.pop_exchange h n) (Pc.pop_value k) c c' = c ≡ (s.value k ∷ c')
  Effect s Pc.pop_head (Pc.popped none) c c' = (c' ≡ c) × (c ≡ [])
  Effect s (Pc.pop_value k) (Pc.release_value j v) c c' = (c' ≡ c) × (v ≡ s.value k)
  Effect s pc pc' c c' = c' ≡ c

  -- What a step from `pc` leaves.
  pub record Moves (s : LockFreeStack A) (pc : Pc A) (free held : List ℕ)
      (r : LockFreeStack A × Pc A) : Type 0 where
    pub free' : List ℕ
    pub held' : List ℕ
    pub sound : IsSound r.0 r.1 free' held'
    pub others : (q : Pc A) → Foreign pc q free held → Rely s r.0 q × Foreign r.1 q free' held'
    pub effect : Effect s pc r.1 (map s.value held) (map r.0.value held')

  Rely-refl : (s : LockFreeStack A) (q : Pc A) → Rely s s q
  Rely-refl s q = record {
    free_word = inl (refl, refl);
    head_word = inl (refl, refl);
    node = λ k e. (refl, refl, refl);
  }

  -- A step that changes no memory, and after which the thread has the same node.
  pub still-Moves :
      (s : LockFreeStack A) (pc pc' : Pc A) (free held : List ℕ)
      → IsSound s pc free held
      → Knows s pc'
      → owner pc' ≡ owner pc
      → Effect s pc pc' (map s.value held) (map s.value held)
      → Moves s pc free held (s, pc')
  still-Moves s pc pc' free held i kn same eff = record {
    free' = free;
    held' = held;
    sound = record {
      free_chain = i.free_chain;
      held_chain = i.held_chain;
      apart = i.apart;
      knows = kn;
      owned = λ k e. i.owned k (sym same ∙ e);
    };
    others = λ q f. (Rely-refl s q, λ k e. ((f k e).0, λ j e'. (f k e).1 j (sym same ∙ e')));
    effect = eff;
  }

  map-put :
      (f : ℕ → A) (k : ℕ) (v : A) (xs : List ℕ) → Absent k xs → map (at_put f k v) xs ≡ map f xs
  map-put f k v [] out = refl
  map-put f k v (x ∷ xs) out = rw (out.0) (ap (λ l. f x ∷ l) (map-put f k v xs (out.1)))

  module _ (s : LockFreeStack A) (pc pc' : Pc A) (k : ℕ) (free held : List ℕ)
      (i : IsSound s pc free held) (own : owner pc ≡ some k) (same : owner pc' ≡ owner pc) where
    kept-IsOut : (j : ℕ) → owner pc' ≡ some j → IsOut j free held
    kept-IsOut j e = i.owned j (sym same ∙ e)

    kept-Foreign : (q : Pc A) → Foreign pc q free held → Foreign pc' q free held
    kept-Foreign q f j e = ((f j e).0, λ j' e'. (f j e).1 j' (sym same ∙ e'))

    -- A write of the value of the thread's node.
    pub put_value-Moves :
        (v : A)
        → Knows (record s { value = at_put s.value k v }) pc'
        → ((c : List A) → Effect s pc pc' c c)
        → Moves s pc free held (record s { value = at_put s.value k v }, pc')
    put_value-Moves v kn eff = record {
      free' = free;
      held' = held;
      sound = record {
        free_chain = i.free_chain;
        held_chain = i.held_chain;
        apart = i.apart;
        knows = kn;
        owned = kept-IsOut;
      };
      others = λ q f. (
        record {
          free_word = inl (refl, refl);
          head_word = inl (refl, refl);
          node = λ j e. (rw ((f j e).1 k own), refl, refl);
        },
        kept-Foreign q f,
      );
      effect = rw (map-put s.value k v held ((i.owned k own).1)) (eff (map s.value held));
    }

    -- A write of `mNext` in the thread's node.
    pub put_next-Moves :
        (v : ℕ)
        → Knows (record s { next = at_put s.next k v }) pc'
        → ((c : List A) → Effect s pc pc' c c)
        → Moves s pc free held (record s { next = at_put s.next k v }, pc')
    put_next-Moves v kn eff =
        let (out, out', lt) = i.owned k own in
        record {
          free' = free;
          held' = held;
          sound = record {
            free_chain = i.free_chain;
            held_chain = Chain-put s.next _ k v held out' i.held_chain;
            apart = i.apart;
            knows = kn;
            owned = kept-IsOut;
          };
          others = λ q f. (
            record {
              free_word = inl (refl, refl);
              head_word = inl (refl, rw (Chain-other s.next _ k held out' lt i.held_chain));
              node = λ j e. (refl, rw ((f j e).1 k own), refl);
            },
            kept-Foreign q f,
          );
          effect = eff (map s.value held);
        }

    -- A write of `mNextFreeNode` in the thread's node.
    pub put_next_free-Moves :
        (v : ℕ)
        → Knows (record s { next_free_node = at_put s.next_free_node k v }) pc'
        → ((c : List A) → Effect s pc pc' c c)
        → Moves s pc free held (record s { next_free_node = at_put s.next_free_node k v }, pc')
    put_next_free-Moves v kn eff =
        let (out, out', lt) = i.owned k own in
        record {
          free' = free;
          held' = held;
          sound = record {
            free_chain = Chain-put s.next_free_node _ k v free out i.free_chain;
            held_chain = i.held_chain;
            apart = i.apart;
            knows = kn;
            owned = kept-IsOut;
          };
          others = λ q f. (
            record {
              free_word =
                  inl (refl, rw (Chain-other s.next_free_node _ k free out lt i.free_chain));
              head_word = inl (refl, refl);
              node = λ j e. (refl, refl, rw ((f j e).1 k own));
            },
            kept-Foreign q f,
          );
          effect = eff (map s.value held);
        }

  -- A change of the size alone.
  pub resize-Moves :
      (s : LockFreeStack A) (pc pc' : Pc A) (n : ℕ) (free held : List ℕ)
      → IsSound s pc free held
      → Knows (record s { size = n }) pc'
      → owner pc' ≡ owner pc
      → ((c : List A) → Effect s pc pc' c c)
      → Moves s pc free held (record s { size = n }, pc')
  resize-Moves s pc pc' n free held i kn same eff = record {
    free' = free;
    held' = held;
    sound = record {
      free_chain = i.free_chain;
      held_chain = i.held_chain;
      apart = i.apart;
      knows = kn;
      owned = λ k e. i.owned k (sym same ∙ e);
    };
    others = λ q f. (
      record {
        free_word = inl (refl, refl);
        head_word = inl (refl, refl);
        node = λ k e. (refl, refl, refl);
      },
      λ k e. ((f k e).0, λ j e'. (f k e).1 j (sym same ∙ e')),
    );
    effect = eff (map s.value held);
  }
