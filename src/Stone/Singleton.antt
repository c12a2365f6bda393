-- ===== src/Stone/Singleton.antt =====
-- apsara/stone/memory/singleton.h: `Singleton`, with the locker of apsara/stone/threading/sync/lock.h
-- and the check of apsara/stone/base/error_check.h. Each access to shared memory, and each call of the
-- mutex, is one step of one thread. An object is its address, and 0 is the null pointer.
mod Examples
pub mod Once
mod Race
pub mod Steps
use recommender.Prelude.{
  ℕ, ◌+◌, Bool, true, false, Option, none, some, List, [], ◌∷◌, ◌==◌, if◌then◌else◌, at_put,
}

-- `pthread_mutex_t`: what `pthread_mutex_lock` and `pthread_mutex_unlock` return, and the mutex after
-- it. A call of `lock` that waits returns nothing yet. A thread is its number.
pub record MutexOps {ℓ} (M : Type ℓ) : Type ℓ where
  pub lock : M → ℕ → Option (ℕ × M)
  pub unlock : M → ℕ → ℕ × M

-- The static members, and what is visible of the program besides: the objects that `new` constructed and
-- that were not deleted, and how often `Destroy` is registered with `atexit`.
pub record Singleton {ℓ} (M : Type ℓ) : Type ℓ where
  pub instance_ : ℕ
  pub mutex : M
  pub destroyed : Bool
  pub objects : List ℕ
  pub registered : ℕ

-- Where a thread stands in `Instance` or `Destroy`: what it does next.
pub data Pc : Type 0 where
  -- Outside, after a call that returned an object, or after an error of the mutex.
  idle : Pc
  returned : ℕ → Pc
  aborted : Pc
  -- `Instance`: the test of `sInstance`, the mutex, the second test, the test and the write of
  -- `sDestroyed`, `new`, the write of `sInstance`, `atexit`, the mutex, the object.
  first_test : Pc
  locking : Pc
  second_test : Pc
  test_destroyed : Pc
  clear_destroyed : Pc
  constructing : Pc
  publishing : ℕ → Pc
  registering : Pc
  unlocking : Pc
  reading : Pc
  -- `Destroy`: the write of `sDestroyed`, `delete`, the write of `sInstance`.
  destroying : Pc
  deleting : Pc
  clearing : Pc

-- `CheckPthreadError`, before the thread goes on.
unfoldable pub check_pthread_error : ℕ → Pc → Pc
check_pthread_error status pc = if status == 0 then pc else aborted

abbrev pub remove : ℕ → List ℕ → List ℕ
remove p [] = []
remove p (x ∷ xs) = if p == x then xs else x ∷ remove p xs

module _ {ℓ} {M : Type ℓ} (ops : MutexOps M) where
  -- `ScopedLocker<pthread_mutex_t>`: the constructor and the destructor.
  unfoldable pub scoped_lock : Singleton M → ℕ → Option (Singleton M × Pc)
  scoped_lock s t = elim (ops.lock s.mutex t) [
    | none ↦ none
    | some (status, m) ↦ some (record s { mutex = m }, check_pthread_error status second_test)
  ]

  unfoldable pub scoped_unlock : Singleton M → ℕ → Singleton M × Pc
  scoped_unlock s t =
      let (status, m) = ops.unlock s.mutex t in
      (record s { mutex = m }, check_pthread_error status reading)

  -- One step of the thread `t`, with the address that `new` returns if it is called.
  unfoldable pub step : Singleton M → ℕ → Pc → ℕ → Singleton M × Pc
  step s t first_test new = if s.instance_ == 0 then (s, locking) else (s, reading)
  step s t locking new = elim (scoped_lock s t) [ none ↦ (s, locking) | some r ↦ r ]
  step s t second_test new = if s.instance_ == 0 then (s, test_destroyed) else (s, unlocking)
  step s t test_destroyed new = if s.destroyed then (s, clear_destroyed) else (s, constructing)
  step s t clear_destroyed new = (record s { destroyed = false }, constructing)
  step s t constructing new = (record s { objects = new ∷ s.objects }, publishing new)
  step s t (publishing p) new = (record s { instance_ = p }, registering)
  step s t registering new = (record s { registered = s.registered + 1 }, unlocking)
  step s t unlocking new = scoped_unlock s t
  step s t reading new = (s, returned s.instance_)
  step s t destroying new = (record s { destroyed = true }, deleting)
  step s t deleting new = (record s { objects = remove s.instance_ s.objects }, clearing)
  step s t clearing new = (record s { instance_ = 0 }, idle)
  step s t pc new = (s, pc)

-- The threads, which share the members.
pub record System {ℓ} (M : Type ℓ) : Type ℓ where
  pub shared : Singleton M
  pub thread : ℕ → Pc

abbrev pub is_outside : Pc → Bool
is_outside idle = true
is_outside (returned p) = true
is_outside _ = false

-- A thread calls `Instance`, the end of the program calls `Destroy`, or a thread goes one step on.
pub data Event : Type 0 where
  call_instance : ℕ → Event
  call_destroy : ℕ → Event
  advance : ℕ → ℕ → Event

module _ {ℓ} {M : Type ℓ} (ops : MutexOps M) where
  unfoldable pub act : System M → Event → System M
  act m (call_instance t) =
      if is_outside (m.thread t) then record m { thread = at_put m.thread t first_test } else m
  act m (call_destroy t) =
      if is_outside (m.thread t) then record m { thread = at_put m.thread t destroying } else m
  act m (advance t new) =
      let (s, pc) = step ops m.shared t (m.thread t) new in
      record { shared = s; thread = at_put m.thread t pc }

  unfoldable pub run : System M → List Event → System M
  run m [] = m
  run m (e ∷ es) = run (act m e) es

-- The static initialisers, before any call.
unfoldable pub create {ℓ} : {M : Type ℓ} → M → System M
create initial = record {
  shared = record {
    instance_ = 0;
    mutex = initial;
    destroyed = false;
    objects = [];
    registered = 0;
  };
  thread = λ t. idle;
}
