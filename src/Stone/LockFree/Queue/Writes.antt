-- ===== src/Stone/LockFree/Queue/Writes.antt =====
-- The steps of the lock-free queue that read, or write a field of a node: what they keep.
use mathlib.Core.Path.{subst}
use recommender.Prelude.{
  ℕ, ◌+◌, ◌<◌, ◌≡◌, refl, ◌∙◌, sym, ap, inl, inr, arith, some, List, ◌==◌, at_put, Bool-cases,
  false, ==→≡,
}
use recommender.Stone.LockFree.{make_tagged, invalid_tag}
use recommender.Stone.LockFree.Queue.{LockFreeQueue, Pc}
use recommender.Stone.LockFree.Queue.Invariant.{Ghost, IsLink, IsOut, IsSound, owner, Knows}
use recommender.Stone.LockFree.Queue.Moves.{
  Moves, Effect, contents, quiet-Moves, prev-IsQuiet, own-IsQuiet,
}
use recommender.Stone.LockFree.Queue.Positions.{
  max_position, seq, seq-injective, seq-valid, IsAddress, get_tag-seq, get_pointer-seq,
}
use recommender.Stone.LockFree.Tags.{get_tag-make_tagged}

-- The word that `mPrev` of a node gets, and the word that says that it has none.
pub good-IsLink :
    {a : ℕ} (g : Ghost) (j : ℕ)
    → j < g.last
    → j < max_position
    → IsAddress (g.at (j + 1))
    → IsLink g a (make_tagged (g.at (j + 1)) (seq j))
good-IsLink g j lt few address i le lt' z e =
    let same : j ≡ i =
      seq-injective j i (sym (get_tag-seq (g.at (j + 1)) j (omega (arith, few))) ∙ e) in
    (
      omega (arith, lt, same),
      get_pointer-seq (g.at (j + 1)) j (address.1) (omega (arith, few))
          ∙ ap (λ l. g.at (l + 1)) same,
    )

pub invalid-IsLink : {a : ℕ} (g : Ghost) → IsLink g a (make_tagged 0 invalid_tag)
invalid-IsLink g i le lt z e =
    absurd (seq-valid i (sym e ∙ get_tag-make_tagged 0 invalid_tag (omega arith)))

pub put-IsLink :
    (g : Ghost) (prev : ℕ → ℕ) (b w : ℕ)
    → ((a : ℕ) → (b == a) ≡ false → IsLink g a (prev a))
    → IsLink g b w
    → (a : ℕ) → IsLink g a (at_put prev b w a)
put-IsLink g prev b w l h a = elim (Bool-cases (b == a)) [
  | inl e ↦ rw e (subst (λ x. IsLink g x w) (==→≡ b a e) h)
  | inr e ↦ rw e (l a e)
]

module _ {A : Type 0} where
  -- The queue and what its thread `pc` has: all that holds before a step.
  pub record IsReady (s : LockFreeQueue A) (pc : Pc A) (g : Ghost) (used : List ℕ) : Type 0 where
    pub sound : IsSound s g used
    pub owned : (k : ℕ) → owner pc ≡ some k → IsOut g used k
    pub knows : Knows s g pc

  module _ (s : LockFreeQueue A) (pc pc' : Pc A) (g : Ghost) (used : List ℕ)
      (i : IsReady s pc g used) where
    -- A step that changes no node.
    pub still-Moves :
        Knows s g pc'
        → ((k : ℕ) → owner pc' ≡ some k → owner pc ≡ some k)
        → Effect pc pc' (contents s g) (contents s g)
        → Moves s pc g used used (s, pc')
    still-Moves kn same eff =
        quiet-Moves s s pc pc' g used i.sound i.owned
          (prev-IsQuiet s s pc g used i.sound refl i.sound.links) kn same eff

    -- A write of `mPrev` of any node.
    pub link-Moves :
        (b w : ℕ)
        → IsLink g b w
        → Knows (record s { prev = at_put s.prev b w }) g pc'
        → ((k : ℕ) → owner pc' ≡ some k → owner pc ≡ some k)
        → Effect pc pc' (contents s g) (contents s g)
        → Moves s pc g used used (record s { prev = at_put s.prev b w }, pc')
    link-Moves b w l kn same eff =
        quiet-Moves s (record s { prev = at_put s.prev b w }) pc pc' g used i.sound i.owned
          (prev-IsQuiet s (record s { prev = at_put s.prev b w }) pc g used i.sound refl
            (put-IsLink g s.prev b w (λ a ne. i.sound.links a) l))
          kn same eff

    pub resize-Moves :
        (n : ℕ)
        → Knows (record s { size = n }) g pc'
        → ((k : ℕ) → owner pc' ≡ some k → owner pc ≡ some k)
        → Effect pc pc' (contents s g) (contents s g)
        → Moves s pc g used used (record s { size = n }, pc')
    resize-Moves n kn same eff =
        quiet-Moves s (record s { size = n }) pc pc' g used i.sound i.owned
          (prev-IsQuiet s (record s { size = n }) pc g used i.sound refl i.sound.links) kn same eff

    -- A write of a field of the thread's node.
    pub value-Moves :
        (k : ℕ) (v : A)
        → owner pc ≡ some k
        → Knows (record s { value = at_put s.value k v }) g pc'
        → owner pc' ≡ owner pc
        → Effect pc pc' (contents s g) (contents s g)
        → Moves s pc g used used (record s { value = at_put s.value k v }, pc')
    value-Moves k v own kn same eff =
        quiet-Moves s (record s { value = at_put s.value k v }) pc pc' g used i.sound i.owned
          (own-IsQuiet s pc k g used (at_put s.value k v) s.next s.next_free_node i.sound own
            (i.owned k own) (λ a ne. rw ne refl) (λ a ne. refl) (λ a ne. refl))
          kn (λ j e. sym same ∙ e) eff

    pub next-Moves :
        (k v : ℕ)
        → owner pc ≡ some k
        → Knows (record s { next = at_put s.next k v }) g pc'
        → owner pc' ≡ owner pc
        → Effect pc pc' (contents s g) (contents s g)
        → Moves s pc g used used (record s { next = at_put s.next k v }, pc')
    next-Moves k v own kn same eff =
        quiet-Moves s (record s { next = at_put s.next k v }) pc pc' g used i.sound i.owned
          (own-IsQuiet s pc k g used s.value (at_put s.next k v) s.next_free_node i.sound own
            (i.owned k own) (λ a ne. refl) (λ a ne. rw ne refl) (λ a ne. refl))
          kn (λ j e. sym same ∙ e) eff

    pub next_free-Moves :
        (k v : ℕ)
        → owner pc ≡ some k
        → Knows (record s { next_free_node = at_put s.next_free_node k v }) g pc'
        → owner pc' ≡ owner pc
        → Effect pc pc' (contents s g) (contents s g)
        → Moves s pc g used used (record s { next_free_node = at_put s.next_free_node k v }, pc')
    next_free-Moves k v own kn same eff =
        quiet-Moves s (record s { next_free_node = at_put s.next_free_node k v }) pc pc' g used
          i.sound i.owned
          (own-IsQuiet s pc k g used s.value s.next (at_put s.next_free_node k v) i.sound own
            (i.owned k own) (λ a ne. refl) (λ a ne. refl) (λ a ne. rw ne refl))
          kn (λ j e. sym same ∙ e) eff
