-- ===== src/Stone/LockFree/Stack/Construct.antt =====
-- apsara/stone/threading/lockfree/lockfree_stack.h: the constructor of `LockFreeStack`, which no
-- other thread can see yet, so that each exchange of its `ReleaseNode` succeeds at once. The order that
-- `std::random_shuffle` puts the indices in is a parameter.
use recommender.Prelude.{
  at_put, ℕ, ◌^◌, ◌<◌, ◌≡◌, arith, ◌||◌, List, [], ◌∷◌, leb, ◌==◌, ==-refl, if◌then◌else◌,
}
use recommender.Run.{Run, ok, aborted, ◌>>=◌}
use recommender.Stone.IntrusiveList.Circle.{Distinct}
use recommender.Stone.IntrusiveList.Sequence.{Absent}
use recommender.Stone.LockFree.{tag_of, index_of, make_pointer, lock_free_null_pointer}
use recommender.Stone.LockFree.Stack.{LockFreeStack, tagged_on}
use recommender.Stone.LockFree.Stack.Invariant.{Chain}
use recommender.Stone.LockFree.Stack.Moves.{Chain-put}

abbrev pub null_pointer : ℕ
null_pointer = 0xFFFFFFFF00000000

-- `Normalize`, which aborts.
unfoldable pub normalize : ℕ → Run ℕ
normalize size = if size == 0 || leb (2 ^ 24) size then aborted else ok size

module _ {A : Type 0} (blank : A) where
  -- The body of the loop of the constructor.
  unfoldable pub add_node : LockFreeStack A → ℕ → LockFreeStack A
  add_node s k = record s {
    next = at_put s.next k 0;
    value = at_put s.value k blank;
    next_free_node =
        at_put (at_put s.next_free_node k lock_free_null_pointer) k (index_of s.free_node_head);
    free_node_head = tagged_on k s.free_node_head;
  }

  unfoldable pub add_nodes : LockFreeStack A → List ℕ → LockFreeStack A
  add_nodes s [] = s
  add_nodes s (k ∷ ks) = add_nodes (add_node s k) ks

  -- `LockFreeStack(size)`: `junk` is what the memory holds before.
  unfoldable pub construct : LockFreeStack A → (ℕ → List ℕ) → ℕ → Run (LockFreeStack A)
  construct junk shuffled size = do
    limit ← normalize size
    let s = add_nodes (record junk { size = 0; free_node_head = null_pointer }) (shuffled limit)
    ok (record s { head = null_pointer })

-- Indices of nodes, each once.
abbrev pub AllBelow : ℕ → List ℕ → Type 0
AllBelow n [] = Unit {0}
AllBelow n (k ∷ ks) = (k < n) × AllBelow n ks

-- `ks` in the reverse order before `xs`.
abbrev pub onto : List ℕ → List ℕ → List ℕ
onto [] xs = xs
onto (k ∷ ks) xs = onto ks (k ∷ xs)

abbrev pub AllAbsent : List ℕ → List ℕ → Type 0
AllAbsent [] xs = Unit {0}
AllAbsent (k ∷ ks) xs = Absent k xs × AllAbsent ks xs

index_of-tagged_on : (n h : ℕ) → n < 2 ^ 32 → index_of (tagged_on n h) ≡ n
unfolding index_of make_pointer tag_of
index_of-tagged_on n h b = omega arith

AllAbsent-cons : (k : ℕ) (ks xs : List ℕ) → Absent k ks → AllAbsent ks xs → AllAbsent ks (k ∷ xs)
AllAbsent-cons k [] xs out all = tt
AllAbsent-cons k (j ∷ ks) xs out all =
    ((ground (arith, out.0), all.0), AllAbsent-cons k ks xs (out.1) (all.1))

pub AllAbsent-none : (ks : List ℕ) → AllAbsent ks []
AllAbsent-none [] = tt
AllAbsent-none (k ∷ ks) = (tt, AllAbsent-none ks)

module _ {A : Type 0} (blank : A) where
  add_node-Chain :
      (s : LockFreeStack A) (k : ℕ) (xs : List ℕ)
      → k < 2 ^ 24
      → Absent k xs
      → Chain s.next_free_node (index_of s.free_node_head) xs
      → let s' = add_node blank s k in Chain s'.next_free_node (index_of s'.free_node_head) (k ∷ xs)
  unfolding add_node
  add_node-Chain s k xs lt out c = (
    index_of-tagged_on k s.free_node_head (omega arith),
    omega arith,
    out,
    rw (==-refl k) (Chain-put _ _ k _ xs out (Chain-put s.next_free_node _ k _ xs out c)),
  )

  pub add_nodes-Chain :
      (s : LockFreeStack A) (ks xs : List ℕ)
      → AllBelow (2 ^ 24) ks
      → Distinct ks
      → AllAbsent ks xs
      → Chain s.next_free_node (index_of s.free_node_head) xs
      → let s' = add_nodes blank s ks in
        Chain s'.next_free_node (index_of s'.free_node_head) (onto ks xs)
  unfolding add_nodes
  add_nodes-Chain s [] xs small d out c = c
  add_nodes-Chain s (k ∷ ks) xs small d out c =
      add_nodes-Chain (add_node blank s k) ks (k ∷ xs) (small.1) (d.1)
        (AllAbsent-cons k ks xs (d.0) (out.1)) (add_node-Chain s k xs (small.0) (out.0) c)
