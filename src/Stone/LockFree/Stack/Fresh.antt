-- ===== src/Stone/LockFree/Stack/Fresh.antt =====
-- The lock-free stack from its construction on.
use mathlib.Core.Option.{none-ne-some}
use recommender.Prelude.{
  ℕ, ◌+◌, ◌^◌, ◌<◌, ◌≤◌, ◌≡◌, arith, List, [], ◌∷◌, not_le→leb, pos→ne, length,
}
use recommender.Run.{ok}
use recommender.Stone.IntrusiveList.Circle.{Distinct}
use recommender.Stone.LockFree.{tag_of, index_of}
use recommender.Stone.LockFree.Stack.{LockFreeStack, Pc, System, Event, run}
use recommender.Stone.LockFree.Stack.Construct.{
  null_pointer, normalize, add_node, add_nodes, construct, AllBelow, AllAbsent-none,
  add_nodes-Chain, onto,
}
use recommender.Stone.LockFree.Ledger.{no_calls}
use recommender.Stone.LockFree.Stack.Calls.{ledger}
use recommender.Stone.LockFree.Stack.Interleaving.{IsConsistent}
use recommender.Stone.LockFree.Stack.Invariant.{Apart}
use recommender.Stone.LockFree.Stack.Linear.{history, tag_of-tagged_on}
use recommender.Stone.LockFree.Stack.Runs.{Outcome, run-Performs}

-- The stack before any call, with any number of threads.
abbrev pub fresh : {A : Type 0} → LockFreeStack A → System A
fresh s = record { stack = s; thread = λ t. Pc.idle }

-- An order of the indices below `n`.
pub record IsOrder (n : ℕ) (order : List ℕ) : Type 0 where
  pub below : AllBelow n order
  pub distinct : Distinct order
  pub length_lem : length order ≡ n

AllBelow-wider : (n : ℕ) (ks : List ℕ) → n < 2 ^ 24 → AllBelow n ks → AllBelow (2 ^ 24) ks
AllBelow-wider n [] h b = tt
AllBelow-wider n (k ∷ ks) h b = (omega (arith, b.0), AllBelow-wider n ks h (b.1))

Apart-none : (xs : List ℕ) → Apart xs []
Apart-none [] = tt
Apart-none (x ∷ xs) = (tt, Apart-none xs)

module _ {A : Type 0} (blank : A) where
  add_nodes-tag :
      (ks : List ℕ) (s : LockFreeStack A)
      → tag_of (add_nodes blank s ks).free_node_head ≤ tag_of s.free_node_head + length ks
  unfolding add_nodes add_node
  add_nodes-tag [] s = omega arith
  add_nodes-tag (k ∷ ks) s =
      omega (arith, add_nodes-tag ks (add_node blank s k), tag_of-tagged_on k s.free_node_head)

  -- The stack that the constructor leaves.
  abbrev constructed : LockFreeStack A → List ℕ → LockFreeStack A
  constructed junk order =
      record (add_nodes blank (record junk { size = 0; free_node_head = null_pointer }) order) {
        head = null_pointer;
      }

  construct-ok :
      (junk : LockFreeStack A) (shuffled : ℕ → List ℕ) (size : ℕ)
      → 0 < size
      → size < 2 ^ 24
      → construct blank junk shuffled size ≡ ok (constructed junk (shuffled size))
  unfolding construct normalize
  construct-ok junk shuffled size pos small =
      rw (pos→ne size pos, not_le→leb (2 ^ 24) size (omega arith))

  null-index : index_of null_pointer ≡ 0xFFFFFFFF
  unfolding index_of
  null-index = omega arith

  null-tag : tag_of null_pointer ≡ 0
  unfolding tag_of
  null-tag = omega arith

  constructed-IsConsistent :
      (junk : LockFreeStack A) (n : ℕ) (order : List ℕ)
      → n < 2 ^ 24
      → IsOrder n order
      → IsConsistent (fresh (constructed junk order)) (onto order []) []
  constructed-IsConsistent junk n order small o =
      let start = record junk { size = 0; free_node_head = null_pointer } in
      record {
        sound = λ t. record {
          free_chain =
              add_nodes-Chain blank start order [] (AllBelow-wider n order small o.below) o.distinct
                (AllAbsent-none order) null-index;
          held_chain = null-index;
          apart = Apart-none (onto order []);
          knows = tt;
          owned = λ k e. absurd (none-ne-some k e);
        };
        foreign = λ t u ne k e. absurd (none-ne-some k e);
      }

  -- A stack of `size` nodes that is constructed, in whatever order of its nodes, and then called by any
  -- number of threads, whose steps come in any order: its contents are at each time what a sequence of
  -- operations makes of the empty stack, each at one step of its call. `Push` puts its element on top,
  -- `Pop` takes the top off or finds the stack empty. Of these operations a call of `Push` that has
  -- returned true did one, which put its element on, and one that has returned false did none; a call of
  -- `Pop` that has returned an element did one, which took that element off, and one that has returned
  -- none did one, which found the stack empty. `size` is not 0 and below 2 ^ 24, and the steps
  -- are fewer than would bring a tag of 32 bits round.
  pub construct-Performs :
      (junk : LockFreeStack A) (shuffled : ℕ → List ℕ) (size : ℕ) (es : List (Event A))
      → 0 < size
      → size < 2 ^ 24
      → IsOrder size (shuffled size)
      → size + length es < 2 ^ 32
      → (s : LockFreeStack A) × (construct blank junk shuffled size ≡ ok s)
        × Outcome []
            (history blank (fresh s) es)
            (run blank (fresh s) es)
            (ledger blank (fresh s) no_calls es)
  construct-Performs junk shuffled size es pos small o short =
      let order = shuffled size in
      let s = constructed junk order in
      (
        s,
        construct-ok junk shuffled size pos small,
        run-Performs blank es (fresh s) no_calls (onto order []) []
            (constructed-IsConsistent junk size order small o) (λ t. tt)
            record {
              free_room = omega (
                arith,
                add_nodes-tag order (record junk { size = 0; free_node_head = null_pointer }),
                null-tag,
                o.length_lem,
              );
              head_room = omega (arith, null-tag);
            },
      )
