-- ===== src/Stone/Locks/SpinRw.antt =====
-- apsara/stone/threading/sync/lock.h: `SpinRWLock`, a lock for many readers or one writer in one
-- `int`. Each atomic access is one step of one thread, in any order of the threads. `mQuota` is its
-- 32 bits, so that a negative number is one from 2 ^ 31 on; arithmetic wraps round, as atomics do.
mod Examples
pub mod Exclusion
pub mod Progress
pub mod Quota
use recommender.Prelude.{
  ℕ, ◌+◌, ◌-◌, ◌^◌, ◌%◌, Bool, true, false, List, [], ◌∷◌, leb, if◌then◌else◌, at_put,
}

abbrev pub init_quota : ℕ
init_quota = 0x01000000

abbrev pub write_quota : ℕ
write_quota = 0x01000000

abbrev pub read_quota : ℕ
read_quota = 0x00000001

-- `AtomicAdd<int>` and `AtomicSub<int>`, which return the new value.
abbrev pub atomic_add : ℕ → ℕ → ℕ
atomic_add q v = (q + v) % 2 ^ 32

abbrev pub atomic_sub : ℕ → ℕ → ℕ
atomic_sub q v = (q + (2 ^ 32 - v)) % 2 ^ 32

abbrev pub is_negative : ℕ → Bool
is_negative q = leb (2 ^ 31) q

-- Where a thread stands. The Boolean says that the attempt is one of the loop of `ReadLock` or
-- `WriteLock`, and not a call of `TryReadLock` or `TryWriteLock`.
pub data Pc : Type 0 where
  outside : Pc
  refused : Pc
  read_sub : Bool → Pc
  read_add : Bool → Pc
  reading : Pc
  write_sub : Bool → Pc
  write_add : Bool → Pc
  writing : Pc

-- The next step of `TryReadLock` or `TryWriteLock`, with what it leaves in `mQuota`.
unfoldable pub step : ℕ → Pc → ℕ × Pc
step q (read_sub looping) =
    let q' = atomic_sub q read_quota in (q', if is_negative q' then read_add looping else reading)
step q (read_add looping) = (atomic_add q read_quota, if looping then read_sub true else refused)
step q (write_sub looping) =
    let q' = atomic_sub q write_quota in (q', if is_negative q' then write_add looping else writing)
step q (write_add looping) = (atomic_add q write_quota, if looping then write_sub true else refused)
step q pc = (q, pc)

-- `ReadUnlock` and `WriteUnlock`, each by a thread that holds the lock in that way.
unfoldable pub unlock : ℕ → Pc → ℕ × Pc
unlock q reading = (atomic_add q read_quota, outside)
unlock q writing = (atomic_add q write_quota, outside)
unlock q pc = (q, pc)

abbrev pub is_outside : Pc → Bool
is_outside outside = true
is_outside refused = true
is_outside _ = false

pub record System : Type 0 where
  pub quota : ℕ
  pub thread : ℕ → Pc

-- The constructor, before any thread calls.
abbrev pub create : System
create = record { quota = init_quota; thread = λ t. outside }

-- A thread calls one of the four operations that lock, which it does from outside alone, goes one
-- step on in it, or unlocks.
pub data Event : Type 0 where
  read_lock : ℕ → Event
  write_lock : ℕ → Event
  try_read_lock : ℕ → Event
  try_write_lock : ℕ → Event
  release : ℕ → Event
  advance : ℕ → Event

abbrev pub call : System → ℕ → Pc → System
call m t pc = if is_outside (m.thread t) then record m { thread = at_put m.thread t pc } else m

abbrev pub become : System → ℕ → ℕ × Pc → System
become m t (q, pc) = record { quota = q; thread = at_put m.thread t pc }

unfoldable pub act : System → Event → System
act m (read_lock t) = call m t (read_sub true)
act m (write_lock t) = call m t (write_sub true)
act m (try_read_lock t) = call m t (read_sub false)
act m (try_write_lock t) = call m t (write_sub false)
act m (release t) = become m t (unlock m.quota (m.thread t))
act m (advance t) = become m t (step m.quota (m.thread t))

unfoldable pub run : System → List Event → System
run m [] = m
run m (e ∷ es) = run (act m e) es
