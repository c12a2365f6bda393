-- ===== src/Stone/LockFree/Stack/Runs.antt =====
-- The runs of the lock-free stack, and sequences of operations on a list.
use recommender.Prelude.{
  at_put, ℕ, ◌+◌, ◌^◌, ◌<◌, refl, inl, inr, arith, List, [], ◌∷◌, map, Bool-cases, length,
}
use recommender.Stone.LockFree.{tag_of}
use recommender.Stone.LockFree.Stack.{LockFreeStack, Pc, step, System, Event, act, run, is_outside}
use recommender.Stone.LockFree.Ledger.{Ledger}
use recommender.Stone.LockFree.Stack.Calls.{AllAccord, ledger, note, act-AllAccord}
use recommender.Stone.LockFree.Stack.Interleaving.{
  IsConsistent, moved-IsConsistent, call-IsConsistent,
}
use recommender.Stone.LockFree.Stack.Linear.{
  Operation, Performs, operation, Effect-Performs, Performs-append, step-tags, history,
}
use recommender.Stone.LockFree.Stack.Refinement.{HasTags, step-Moves}

-- What a run leaves: consistent chains, the contents that the operations `os` make of `c`, and calls that
-- have returned what they did.
pub record Outcome {A : Type 0} (c : List A) (os : List (Operation A)) (m : System A)
    (l : Ledger A (Operation A)) : Type 0 where
  pub free : List ℕ
  pub held : List ℕ
  pub consistent : IsConsistent m free held
  pub performs : Performs c os (map m.stack.value held)
  pub accords : AllAccord m l

-- Neither tag comes back to 0 in `n` exchanges.
pub record HasRoom {A : Type 0} (s : LockFreeStack A) (n : ℕ) : Type 0 where
  pub free_room : tag_of s.free_node_head + n < 2 ^ 32
  pub head_room : tag_of s.head + n < 2 ^ 32

module _ {A : Type 0} (blank : A) where
  -- From consistent chains, whatever the order in which the threads call and take their steps, the
  -- chains stay consistent, and the contents change as by a sequence of operations of a stack, each at
  -- one step of its call: `Push` puts its element on top, `Pop` takes the top off or finds the stack
  -- empty; and each call did what it returns. The steps are fewer than would bring a tag of 32 bits round.
  pub run-Performs :
      (es : List (Event A)) (m : System A) (l : Ledger A (Operation A)) (free held : List ℕ)
      → IsConsistent m free held
      → AllAccord m l
      → HasRoom m.stack (length es)
      → Outcome (map m.stack.value held) (history blank m es) (run blank m es) (ledger blank m l es)
  unfolding run history act ledger
  run-Performs [] m l free held h acc room = record {
    free = free;
    held = held;
    consistent = h;
    performs = refl;
    accords = acc;
  }
  run-Performs (Event.call_push t v ∷ es) m l free held h acc room =
      let next : AllAccord (act blank m (Event.call_push t v))
          (note blank m l (Event.call_push t v)) =
        act-AllAccord blank m l (Event.call_push t v) tt acc in
      let less : HasRoom m.stack (length es) = record {
        free_room = omega (arith, room.free_room);
        head_room = omega (arith, room.head_room);
      } in
      elim (Bool-cases (is_outside (m.thread t))) [
        | inl e ↦ rw e (
            run-Performs es (record m { thread = at_put m.thread t (Pc.acquire_head v) }) _ free
              held (call-IsConsistent m t (Pc.acquire_head v) free held h e refl tt) (rw e at next)
              less)
        | inr e ↦ rw e (run-Performs es m l free held h acc less)
      ]
  run-Performs (Event.call_pop t ∷ es) m l free held h acc room =
      let next : AllAccord (act blank m (Event.call_pop t)) (note blank m l (Event.call_pop t)) =
        act-AllAccord blank m l (Event.call_pop t) tt acc in
      let less : HasRoom m.stack (length es) = record {
        free_room = omega (arith, room.free_room);
        head_room = omega (arith, room.head_room);
      } in
      elim (Bool-cases (is_outside (m.thread t))) [
        | inl e ↦ rw e (
            run-Performs es (record m { thread = at_put m.thread t Pc.pop_head }) _ free held
              (call-IsConsistent m t Pc.pop_head free held h e refl tt) (rw e at next) less)
        | inr e ↦ rw e (run-Performs es m l free held h acc less)
      ]
  run-Performs (Event.advance t ∷ es) m l free held h acc room =
      let tags : HasTags m.stack = record {
        free_tag = omega (arith, room.free_room);
        head_tag = omega (arith, room.head_room);
      } in
      let moves = step-Moves blank m.stack (m.thread t) free held (h.sound t) tags in
      let (grown, grown') = step-tags blank m.stack (m.thread t) in
      let rest =
        run-Performs es (act blank m (Event.advance t)) (note blank m l (Event.advance t))
          moves.free' moves.held'
          (moved-IsConsistent m t (step blank m.stack (m.thread t)) free held moves.free'
            moves.held' h moves.sound moves.others)
          (act-AllAccord blank m l (Event.advance t)
            (λ u ne. (moves.others (m.thread u) (h.foreign t u ne)).0) acc)
          record {
            free_room = omega (arith, room.free_room);
            head_room = omega (arith, room.head_room);
          } in
      record {
        free = rest.free;
        held = rest.held;
        consistent = rest.consistent;
        performs =
            Performs-append _ _ _
              (operation m.stack (m.thread t) (step blank m.stack (m.thread t)).1) _
              (Effect-Performs m.stack (m.thread t) _ _ _ moves.effect) rest.performs;
        accords = rest.accords;
      }
