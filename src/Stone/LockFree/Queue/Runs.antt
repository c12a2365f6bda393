-- ===== src/Stone/LockFree/Queue/Runs.antt =====
-- The runs of the lock-free queue, and sequences of operations on a list.
use recommender.Prelude.{at_put, ℕ, suc, refl, inl, inr, arith, List, [], ◌∷◌, Bool-cases, length}
use recommender.Stone.IntrusiveList.Sequence.{Absent}
use recommender.Stone.LockFree.Queue.{LockFreeQueue, Pc, step, System, Event, act, run, is_outside}
use recommender.Stone.LockFree.Queue.Interleaving.{
  IsConsistent, moved-IsConsistent, call-IsConsistent,
}
use recommender.Stone.LockFree.Queue.Invariant.{Ghost}
use recommender.Stone.LockFree.Queue.Linear.{
  Operation, Performs, operation, Effect-Performs, Performs-append, history,
}
use recommender.Stone.LockFree.Queue.Moves.{contents}
use recommender.Stone.LockFree.Queue.Positions.{IsAddress}
use recommender.Stone.LockFree.Queue.Refinement.{step-Moves}
use recommender.Stone.LockFree.Queue.Steps.{HasRoom}

-- What a run leaves: a consistent state, and the contents that the operations `os` make of `c`.
pub record Outcome {A : Type 0} (c : List A) (os : List (Operation A)) (m : System A) : Type 0 where
  pub ghost : Ghost
  pub used : List ℕ
  pub consistent : IsConsistent m ghost used
  pub performs : Performs c os (contents m.queue ghost)

-- `new` gives addresses, and none twice.
abbrev pub IsNew : {A : Type 0} → List ℕ → List (Event A) → Type 0
IsNew used [] = Unit {0}
IsNew used (Event.advance t new ∷ es) = IsAddress new × Absent new used × IsNew (new ∷ used) es
IsNew used (e ∷ es) = IsNew used es

module _ {A : Type 0} where
  less-HasRoom : (s : LockFreeQueue A) (g : Ghost) (n : ℕ) → HasRoom s g (suc n) → HasRoom s g n
  less-HasRoom s g n room = record {
    free_room = omega (arith, room.free_room);
    last_room = omega (arith, room.last_room);
  }

module _ {A : Type 0} (blank : A) where
  -- From a consistent state, whatever the order in which the threads call and take their steps, the
  -- state stays consistent, and the contents change as by a sequence of operations of a queue.
  pub run-Performs :
      (es : List (Event A)) (m : System A) (g : Ghost) (used : List ℕ)
      → IsConsistent m g used
      → HasRoom m.queue g (length es)
      → IsNew used es
      → Outcome (contents m.queue g) (history blank m es) (run blank m es)
  unfolding run history act
  run-Performs [] m g used h room news = record {
    ghost = g;
    used = used;
    consistent = h;
    performs = refl;
  }
  run-Performs (Event.call_push t v ∷ es) m g used h room news =
      elim (Bool-cases (is_outside (m.thread t))) [
        | inl e ↦ rw e (
            run-Performs es (record m { thread = at_put m.thread t (Pc.acquire_head v) }) g used
              (call-IsConsistent m t (Pc.acquire_head v) g used h e refl tt)
              (less-HasRoom m.queue g (length es) room) news)
        | inr e ↦ rw e (run-Performs es m g used h (less-HasRoom m.queue g (length es) room) news)
      ]
  run-Performs (Event.call_pop t ∷ es) m g used h room news =
      elim (Bool-cases (is_outside (m.thread t))) [
        | inl e ↦ rw e (
            run-Performs es (record m { thread = at_put m.thread t Pc.pop_head }) g used
              (call-IsConsistent m t Pc.pop_head g used h e refl tt)
              (less-HasRoom m.queue g (length es) room) news)
        | inr e ↦ rw e (run-Performs es m g used h (less-HasRoom m.queue g (length es) room) news)
      ]
  run-Performs (Event.advance t new ∷ es) m g used h room (address, fresh, news) =
      let moves =
        step-Moves blank m.queue (m.thread t) g used new
          record { sound = h.sound; owned = h.owned t; knows = h.knows t }
          record {
            free_room = omega (arith, room.free_room);
            last_room = omega (arith, room.last_room);
          }
          address fresh in
      let rest =
        run-Performs es (act blank m (Event.advance t new)) moves.ghost (new ∷ used)
          (moved-IsConsistent m t (step blank m.queue (m.thread t) new) g moves.ghost used
            (new ∷ used) h moves.sound moves.knows moves.owned moves.others)
          record {
            free_room = omega (arith, room.free_room, moves.free_grown);
            last_room = omega (arith, room.last_room, moves.last_grown);
          }
          news in
      record {
        ghost = rest.ghost;
        used = rest.used;
        consistent = rest.consistent;
        performs =
            Performs-append _ _ _ (operation (m.thread t) (step blank m.queue (m.thread t) new).1) _
              (Effect-Performs (m.thread t) _ _ _ moves.effect) rest.performs;
      }
