-- ===== src/Stone/LockFree/Stack/Examples.antt =====
-- The lock-free stack with two nodes and two threads.
use recommender.Prelude.{ℕ, ◌≡◌, refl, arith, List, [], ◌∷◌, ◌++◌, ◌==◌, if◌then◌else◌}
use recommender.Run.{ok}
use recommender.Stone.LockFree.{index_of}
use recommender.Stone.LockFree.Stack.{LockFreeStack, Event, act, step, run}
use recommender.Stone.LockFree.Ledger.{no_calls}
use recommender.Stone.LockFree.Stack.Calls.{ledger}
use recommender.Stone.LockFree.Stack.Construct.{construct, null_pointer}
use recommender.Stone.LockFree.Stack.Fresh.{fresh, IsOrder, construct-Performs}
use recommender.Stone.LockFree.Stack.Linear.{Operation, history}
use recommender.Stone.LockFree.Stack.Runs.{Outcome}

-- Memory that was not initialised.
abbrev junk : LockFreeStack ℕ
junk = record {
  next = λ k. 5;
  next_free_node = λ k. 6;
  value = λ k. 9;
  head = 4;
  free_node_head = 3;
  size = 2;
}

abbrev shuffled : ℕ → List ℕ
shuffled n = 1 ∷ 0 ∷ []

shuffled-IsOrder : IsOrder 2 (shuffled 2)
shuffled-IsOrder = record {
  below = (omega arith, (omega arith, tt));
  distinct = ((refl, tt), (tt, tt));
  length_lem = refl;
}

abbrev both : List (Event ℕ)
both = Event.advance 0 ∷ Event.advance 1 ∷ []

-- Two threads push at the same time, step for step, and the second exchange of each pair fails.
abbrev schedule : List (Event ℕ)
schedule =
    Event.call_push 0 7
    ∷ Event.call_push 1 8
    ∷ (both
        ++ (both
            ++ (both
                ++ (both ++ (both ++ (both ++ (both ++ (both ++ (Event.call_pop 0 ∷ both)))))))))

construct-Performs_example :
    (s : LockFreeStack ℕ) × (construct 0 junk shuffled 2 ≡ ok s)
    × Outcome []
        (history 0 (fresh s) schedule)
        (run 0 (fresh s) schedule)
        (ledger 0 (fresh s) no_calls schedule)
construct-Performs_example =
    construct-Performs 0 junk shuffled 2 schedule (omega arith) (omega arith) shuffled-IsOrder
      (omega arith)

-- The stack that this construction leaves.
abbrev two : LockFreeStack ℕ
two = record {
  next = λ k. 0;
  next_free_node = λ k. if k == 0 then 1 else 0xFFFFFFFF;
  value = λ k. 0;
  head = null_pointer;
  free_node_head = 2;
  size = 0;
}

abbrev push_pop : List (Event ℕ)
push_pop =
    Event.call_push 0 7
    ∷ Event.call_pop 1
    ∷ (both ++ (both ++ (both ++ (both ++ (both ++ (both ++ (both ++ both)))))))

-- While one thread pushes, the pop of another finds the stack empty.
history-push_pop : history 0 (fresh two) push_pop ≡ Operation.pop_empty ∷ Operation.push 7 ∷ []
unfolding history act step index_of
history-push_pop = refl
