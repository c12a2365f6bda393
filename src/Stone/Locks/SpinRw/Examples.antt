-- ===== src/Stone/Locks/SpinRw/Examples.antt =====
-- `SpinRWLock` with two threads, and with one thread too many.
use recommender.Prelude.{ℕ, zero, suc, ◌≡◌, refl, arith, List, [], ◌∷◌, ◌++◌}
use recommender.Stone.Locks.SpinRw.{Pc, writing, Event, create, step, act, run}
use recommender.Stone.Locks.SpinRw.Exclusion.{AreBelow, mutual_exclusion}
use recommender.Stone.Locks.SpinRw.Progress.{progress}

-- Thread 0 writes, thread 1 waits to read.
abbrev contended : List Event
contended =
    Event.write_lock 0
    ∷ Event.advance 0
    ∷ Event.read_lock 1
    ∷ Event.advance 1
    ∷ Event.advance 1
    ∷ []

mutual_exclusion_example : ◌≡◌ {A = ℕ} 0 0
unfolding run act step
mutual_exclusion_example =
    mutual_exclusion 2 contended (omega arith)
      (omega arith, (omega arith, (omega arith, (omega arith, (omega arith, tt))))) 0 0
      (omega arith) (omega arith) refl refl

progress_example :
    (fs : List Event) × AreBelow 2 fs × ((run create (contended ++ fs)).thread 1 ≡ Pc.reading)
unfolding run act step
progress_example =
    progress 2 contended 1 (omega arith)
      (omega arith, (omega arith, (omega arith, (omega arith, (omega arith, tt))))) (omega arith)
      refl

-- Thread `k` and those below, but for thread 0, try to write and stop before they give the quota back.
abbrev tries : ℕ → List Event
tries zero = []
tries (suc k) = Event.try_write_lock (suc k) ∷ Event.advance (suc k) ∷ tries k

-- With 130 threads, two of them hold the lock to write.
too_many :
    ((run create (Event.try_write_lock 0 ∷ Event.advance 0 ∷ tries 129)).thread 0 ≡ writing)
    × ((run create (Event.try_write_lock 0 ∷ Event.advance 0 ∷ tries 129)).thread 1 ≡ writing)
unfolding run act step
too_many = (refl, refl)
