-- ===== src/Stone/Locks/Scoped/Mutexes.antt =====
-- apsara/stone/threading/sync/lock.h: `NullLock`, `SpinLock` and `MutexBase`, with `ScopedLocker` and
-- `ScopedUnlocker`. The locks of pthread are a parameter.
use recommender.Prelude.{
  ℕ, ◌≡◌, refl, Bool, true, false, not, Option, none, some, ◌==◌, if◌then◌else◌,
}
use recommender.Run.{Run, ok, aborted, running, ◌>>=◌, ◌>>◌}
use recommender.Stone.Locks.Scoped.{
  Scope, Block, run_block, Contract, Fits, Agrees, run_block-Agrees,
}

-- `CheckPthreadError`
unfoldable pub check : ℕ → Run (Unit {0})
check status = if status == 0 then ok tt else aborted

-- `pthread_spinlock_t` or `pthread_mutex_t`: the status that a call returns, and the lock after it. A
-- call of `lock` by a thread that waits for ever does not return. The type is that of a mutex, or says
-- who shares a spin lock.
pub record PthreadLock (M : Type 0) : Type 0 where
  pub attr_init : ℕ
  pub attr_settype : ℕ → ℕ
  pub init : ℕ → ℕ × M
  pub attr_destroy : ℕ
  pub destroy : M → ℕ
  pub lock : M → ℕ → Option (ℕ × M)
  pub unlock : M → ℕ → ℕ × M

-- `Lock` and `Unlock` of a class.
pub record LockOps (L : Type 0) : Type 0 where
  pub lock : L → ℕ → Run L
  pub unlock : L → ℕ → Run L

abbrev pub returned : {M : Type 0} → Option (ℕ × M) → Run M
returned none = running
returned (some (status, m)) = do check status; ok m

module _ {M : Type 0} (p : PthreadLock M) where
  -- `SpinLock()` and `~SpinLock()`; `PTHREAD_PROCESS_PRIVATE` is 0.
  unfoldable pub create_spin : Run M
  unfolding check
  create_spin = returned (some (p.init 0))

  -- `MutexBase(type)`
  unfoldable pub create_mutex : ℕ → Run M
  unfolding check
  create_mutex type = do
    check p.attr_init
    check (p.attr_settype type)
    m ← returned (some (p.init type))
    check p.attr_destroy
    ok m

  -- `~SpinLock()` and `~MutexBase()`
  unfoldable pub destroy_lock : M → Run (Unit {0})
  unfolding check
  destroy_lock m = check (p.destroy m)

  -- `Lock` and `Unlock` of `SpinLock` and `MutexBase`.
  unfoldable pub lock_pthread : M → ℕ → Run M
  unfolding check
  lock_pthread m t = returned (p.lock m t)

  unfoldable pub unlock_pthread : M → ℕ → Run M
  unfolding check
  unlock_pthread m t = returned (some (p.unlock m t))

  abbrev pub pthread_ops : LockOps M
  pthread_ops = record { lock = lock_pthread; unlock = unlock_pthread }

-- `NullLock`, which is whether it is locked, and its `IsLocked`.
abbrev pub new_null_lock : Bool
new_null_lock = false

unfoldable pub null_ops : LockOps Bool
null_ops = record { lock = λ m_locked t. ok true; unlock = λ m_locked t. ok false }

abbrev pub is_locked : Bool → Bool
is_locked m_locked = m_locked

-- `ScopedLocker` and `ScopedUnlocker`
pub data Guard : Type 0 where
  locker unlocker : Guard

unfoldable pub scoped_guards : {L : Type 0} → LockOps L → Scope Guard L
scoped_guards ops = record {
  enter = λ g l t. elim g [ locker ↦ ops.lock l t | unlocker ↦ ops.unlock l t ];
  leave = λ g l t. elim g [ locker ↦ ops.unlock l t | unlocker ↦ ops.lock l t ];
}

-- What a thread may rely on: it gets a lock that is free, and gives back a lock that it holds.
pub record IsLock (L : Type 0) (ops : LockOps L) (t : ℕ) : Type 1 where
  pub Free : L → Type 0
  pub Held : L → Type 0
  pub lock_lem : (l : L) → Free l → (l' : L) × (ops.lock l t ≡ ok l') × Held l'
  pub unlock_lem : (l : L) → Held l → (l' : L) × (ops.unlock l t ≡ ok l') × Free l'

-- The same of pthread, whose calls return 0 then.
pub record PthreadLaws (M : Type 0) (p : PthreadLock M) (t : ℕ) : Type 1 where
  pub Free : M → Type 0
  pub Held : M → Type 0
  pub lock_lem : (m : M) → Free m → (m' : M) × (p.lock m t ≡ some (0, m')) × Held m'
  pub unlock_lem : (m : M) → Held m → (m' : M) × (p.unlock m t ≡ (0, m')) × Free m'

pub lock-returned :
    (M : Type 0) (p : PthreadLock M) (t : ℕ) (m m' : M)
    → p.lock m t ≡ some (0, m')
    → lock_pthread p m t ≡ ok m'
unfolding lock_pthread check
lock-returned M p t m m' e = rw e refl

pub unlock-returned :
    (M : Type 0) (p : PthreadLock M) (t : ℕ) (m m' : M)
    → p.unlock m t ≡ (0, m')
    → unlock_pthread p m t ≡ ok m'
unfolding unlock_pthread check
unlock-returned M p t m m' e = rw e refl

pub null-locked : (l : Bool) (t : ℕ) → null_ops.lock l t ≡ ok true
unfolding null_ops
null-locked l t = refl

pub null-unlocked : (l : Bool) (t : ℕ) → null_ops.unlock l t ≡ ok false
unfolding null_ops
null-unlocked l t = refl

abbrev pub pthread-IsLock :
    (M : Type 0) (p : PthreadLock M) (t : ℕ) → PthreadLaws M p t → IsLock M (pthread_ops p) t
pthread-IsLock M p t laws = record {
  Free = laws.Free;
  Held = laws.Held;
  lock_lem =
      λ m free. let (m', e, held) = laws.lock_lem m free in (m', lock-returned M p t m m' e, held);
  unlock_lem = λ m held.
      let (m', e, free) = laws.unlock_lem m held in (m', unlock-returned M p t m m' e, free);
}

abbrev pub null-IsLock : (t : ℕ) → IsLock Bool null_ops t
null-IsLock t = record {
  Free = λ m_locked. m_locked ≡ false;
  Held = λ m_locked. m_locked ≡ true;
  lock_lem = λ l free. (true, null-locked l t, refl);
  unlock_lem = λ l held. (false, null-unlocked l t, refl);
}

-- In the status false a lock is free, in the status true its thread holds it.
abbrev pub wanted : Guard → Bool
wanted locker = false
wanted unlocker = true

abbrev pub LockIs : {L : Type 0} {ops : LockOps L} {t : ℕ} → IsLock L ops t → Bool → L → Type 0
LockIs k false l = k.Free l
LockIs k true l = k.Held l

module _ (L : Type 0) (ops : LockOps L) (t : ℕ) (k : IsLock L ops t) where
  pub enter-LockIs :
      (g : Guard) (s : Bool) (l : L)
      → s ≡ wanted g
      → LockIs k s l
      → (l' : L) × ((scoped_guards ops).enter g l t ≡ ok l') × LockIs k (not s) l'
  unfolding scoped_guards
  enter-LockIs locker false l e is = k.lock_lem l is
  enter-LockIs locker true l e is = cc
  enter-LockIs unlocker false l e is = cc
  enter-LockIs unlocker true l e is = k.unlock_lem l is

  pub leave-LockIs :
      (g : Guard) (s : Bool) (l : L)
      → s ≡ wanted g
      → LockIs k (not s) l
      → (l' : L) × ((scoped_guards ops).leave g l t ≡ ok l') × LockIs k s l'
  unfolding scoped_guards
  leave-LockIs locker false l e is = k.unlock_lem l is
  leave-LockIs locker true l e is = cc
  leave-LockIs unlocker false l e is = cc
  leave-LockIs unlocker true l e is = k.lock_lem l is

  abbrev pub guard_contract : Contract Guard L Bool (scoped_guards ops) t
  guard_contract = record {
    Is = LockIs k;
    Allows = λ g s. s ≡ wanted g;
    during = λ g s. not s;
    enter_lem = enter-LockIs;
    leave_lem = leave-LockIs;
  }

-- A thread runs a block of `ScopedLocker` and `ScopedUnlocker` on any number of locks of the classes
-- `SpinLock` and `MutexBase`. If each locker stands where its lock is free and each unlocker where the
-- thread holds its lock, no call aborts or waits for ever, and at the end the thread holds the same
-- locks as before. The locks of pthread give a thread a lock that is free, and take one back that it
-- holds, with the status 0.
pub pthread_blocks :
    (M : Type 0) (p : PthreadLock M) (t : ℕ) (laws : PthreadLaws M p t) (b : Block Guard)
    (h : ℕ → Bool) (ls : ℕ → M)
    → let c = guard_contract M (pthread_ops p) t (pthread-IsLock M p t laws) in
      Fits (scoped_guards (pthread_ops p)) t c b h
      → Agrees (scoped_guards (pthread_ops p)) t c h ls
      → (ls' : ℕ → M) × (run_block (scoped_guards (pthread_ops p)) t b ls ≡ ok ls')
        × Agrees (scoped_guards (pthread_ops p)) t c h ls'
pthread_blocks M p t laws b h ls fits all =
    run_block-Agrees (scoped_guards (pthread_ops p)) t
      (guard_contract M (pthread_ops p) t (pthread-IsLock M p t laws)) b h ls fits all

null-LockIs : (t : ℕ) (b : Bool) → LockIs (null-IsLock t) b b
null-LockIs t false = refl
null-LockIs t true = refl

LockIs-null : (t : ℕ) (s b : Bool) → LockIs (null-IsLock t) s b → b ≡ s
LockIs-null t false b e = e
LockIs-null t true b e = e

-- The same block on locks of the class `NullLock`, where each lock says at the end what it said before.
pub null_blocks :
    (t : ℕ) (b : Block Guard) (ls : ℕ → Bool)
    → Fits (scoped_guards null_ops) t (guard_contract Bool null_ops t (null-IsLock t)) b ls
    → (ls' : ℕ → Bool) × (run_block (scoped_guards null_ops) t b ls ≡ ok ls')
      × ((i : ℕ) → is_locked (ls' i) ≡ is_locked (ls i))
null_blocks t b ls fits =
    let (ls', e, all) =
      run_block-Agrees (scoped_guards null_ops) t (guard_contract Bool null_ops t (null-IsLock t)) b
        ls ls fits (λ i. null-LockIs t (ls i)) in
    (ls', e, λ i. LockIs-null t (ls i) (ls' i) (all i))
