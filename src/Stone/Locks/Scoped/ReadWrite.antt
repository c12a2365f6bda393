-- ===== src/Stone/Locks/Scoped/ReadWrite.antt =====
-- apsara/stone/threading/sync/lock.h: `RWLock`, with `ScopedReaderLocker` and `ScopedWriterLocker`. The
-- read-write lock of pthread is a parameter.
use recommender.Prelude.{
  ℕ, zero, suc, ◌≡◌, refl, Bool, true, false, Option, some, ◌==◌, if◌then◌else◌,
}
use recommender.Run.{Run, ok, aborted, ◌>>=◌, ◌>>◌}
use recommender.Stone.Locks.Scoped.{
  Scope, Block, run_block, Contract, Fits, Agrees, run_block-Agrees,
}
use recommender.Stone.Locks.Scoped.Mutexes.{check, returned}

abbrev pub ebusy : ℕ
ebusy = 16

-- `CheckPthreadTryLockError`
unfoldable pub check_try_lock : ℕ → Run Bool
check_try_lock status =
    if status == 0 then ok true else if status == ebusy then ok false else aborted

-- `pthread_rwlock_t`: the status that a call returns, and the lock after it.
pub record PthreadRwLock (M : Type 0) : Type 0 where
  pub attr_init : ℕ
  pub attr_setkind : ℕ → ℕ
  pub init : ℕ → ℕ × M
  pub attr_destroy : ℕ
  pub destroy : M → ℕ
  pub rdlock : M → ℕ → Option (ℕ × M)
  pub wrlock : M → ℕ → Option (ℕ × M)
  pub tryrdlock : M → ℕ → ℕ × M
  pub trywrlock : M → ℕ → ℕ × M
  pub unlock : M → ℕ → ℕ × M

module _ {M : Type 0} (p : PthreadRwLock M) where
  -- `RWLock(mode)` and `~RWLock()`
  unfoldable pub create_rw : ℕ → Run M
  unfolding check
  create_rw mode = do
    check p.attr_init
    check (p.attr_setkind mode)
    m ← returned (some (p.init mode))
    check p.attr_destroy
    ok m

  unfoldable pub destroy_rw : M → Run (Unit {0})
  unfolding check
  destroy_rw m = check (p.destroy m)

  unfoldable pub read_lock : M → ℕ → Run M
  unfolding check
  read_lock m t = returned (p.rdlock m t)

  unfoldable pub write_lock : M → ℕ → Run M
  unfolding check
  write_lock m t = returned (p.wrlock m t)

  unfoldable pub try_read_lock : M → ℕ → Run (Bool × M)
  unfolding check_try_lock
  try_read_lock m t = let (status, m') = p.tryrdlock m t in do b ← check_try_lock status; ok (b, m')

  unfoldable pub try_write_lock : M → ℕ → Run (Bool × M)
  unfolding check_try_lock
  try_write_lock m t =
      let (status, m') = p.trywrlock m t in do b ← check_try_lock status; ok (b, m')

  -- `Unlock`, `ReadUnlock` and `WriteUnlock`
  unfoldable pub unlock_rw : M → ℕ → Run M
  unfolding check
  unlock_rw m t = returned (some (p.unlock m t))

-- `ScopedReaderLocker` and `ScopedWriterLocker`
pub data RwGuard : Type 0 where
  reader writer : RwGuard

unfoldable pub scoped_rw : {M : Type 0} → PthreadRwLock M → Scope RwGuard M
scoped_rw p = record {
  enter = λ g m t. elim g [ reader ↦ read_lock p m t | writer ↦ write_lock p m t ];
  leave = λ g m t. unlock_rw p m t;
}

-- What a thread holds of a lock: nothing, `n` locks for reading and one more, or the lock for writing.
pub data Hold : Type 0 where
  free : Hold
  reads : ℕ → Hold
  writes : Hold

-- A thread that writes can neither read nor write again, and one that reads cannot write.
abbrev pub Allows : RwGuard → Hold → Type 0
Allows reader free = Unit {0}
Allows reader (reads n) = Unit {0}
Allows reader writes = ⊥
Allows writer free = Unit {0}
Allows writer (reads n) = ⊥
Allows writer writes = ⊥

abbrev pub during : RwGuard → Hold → Hold
during reader free = reads zero
during reader (reads n) = reads (suc n)
during reader writes = writes
during writer s = writes

-- What a thread may rely on, while no other thread is in its way: the calls return 0.
pub record PthreadRwLaws (M : Type 0) (p : PthreadRwLock M) (t : ℕ) : Type 1 where
  pub Is : Hold → M → Type 0
  pub rdlock_lem :
      (s : Hold) (m : M)
      → Allows reader s
      → Is s m
      → (m' : M) × (p.rdlock m t ≡ some (0, m')) × Is (during reader s) m'
  pub wrlock_lem : (m : M) → Is free m → (m' : M) × (p.wrlock m t ≡ some (0, m')) × Is writes m'
  pub unlock_lem :
      (g : RwGuard) (s : Hold) (m : M)
      → Allows g s
      → Is (during g s) m
      → (m' : M) × (p.unlock m t ≡ (0, m')) × Is s m'

module _ (M : Type 0) (p : PthreadRwLock M) (t : ℕ) (laws : PthreadRwLaws M p t) where
  pub enter-Is :
      (g : RwGuard) (s : Hold) (m : M)
      → Allows g s
      → laws.Is s m
      → (m' : M) × ((scoped_rw p).enter g m t ≡ ok m') × laws.Is (during g s) m'
  unfolding scoped_rw read_lock write_lock check
  enter-Is reader s m fits is =
      let (m', e, is') = laws.rdlock_lem s m fits is in (m', rw e refl, is')
  enter-Is writer free m fits is = let (m', e, is') = laws.wrlock_lem m is in (m', rw e refl, is')
  enter-Is writer (reads n) m fits is = absurd fits
  enter-Is writer writes m fits is = absurd fits

  pub leave-Is :
      (g : RwGuard) (s : Hold) (m : M)
      → Allows g s
      → laws.Is (during g s) m
      → (m' : M) × ((scoped_rw p).leave g m t ≡ ok m') × laws.Is s m'
  unfolding scoped_rw unlock_rw check
  leave-Is g s m fits is = let (m', e, is') = laws.unlock_lem g s m fits is in (m', rw e refl, is')

  abbrev pub rw_contract : Contract RwGuard M Hold (scoped_rw p) t
  rw_contract = record {
    Is = laws.Is;
    Allows = Allows;
    during = during;
    enter_lem = enter-Is;
    leave_lem = leave-Is;
  }

-- A thread runs a block of `ScopedReaderLocker` and `ScopedWriterLocker` on any number of locks of the
-- class `RWLock`. If no writer stands where the thread holds its lock, and no reader where it holds it
-- for writing, no call aborts or waits for ever, and at the end the thread holds the same locks as
-- before, as often. The locks of pthread give a thread such a lock, and take it back, with the status 0.
pub rw_blocks :
    (M : Type 0) (p : PthreadRwLock M) (t : ℕ) (laws : PthreadRwLaws M p t) (b : Block RwGuard)
    (h : ℕ → Hold) (ls : ℕ → M)
    → Fits (scoped_rw p) t (rw_contract M p t laws) b h
    → Agrees (scoped_rw p) t (rw_contract M p t laws) h ls
    → (ls' : ℕ → M) × (run_block (scoped_rw p) t b ls ≡ ok ls')
      × Agrees (scoped_rw p) t (rw_contract M p t laws) h ls'
rw_blocks M p t laws b h ls fits all =
    run_block-Agrees (scoped_rw p) t (rw_contract M p t laws) b h ls fits all
