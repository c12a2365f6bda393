-- ===== src/Stone/Locks/Scoped/Examples.antt =====
-- Scoped objects on two locks, with locks of pthread that remember their holders.
use recommender.Prelude.{
  ℕ, zero, suc, ◌≡◌, refl, ap, ◌∙◌, Bool, false, Option, none, some, ◌==◌, if◌then◌else◌,
}
use recommender.Run.{ok}
use recommender.Stone.Locks.Scoped.{Block, run_block, Agrees}
use recommender.Stone.Locks.Scoped.Mutexes.{
  PthreadLock, PthreadLaws, Guard, scoped_guards, pthread_ops, pthread-IsLock, guard_contract,
  pthread_blocks,
}
use recommender.Stone.Locks.Scoped.ReadWrite.{
  PthreadRwLock, PthreadRwLaws, RwGuard, Hold, Allows, during, scoped_rw, rw_contract, rw_blocks,
}

abbrev lock_of : Option ℕ → ℕ → Option (ℕ × Option ℕ)
lock_of none t = some (0, some t)
lock_of (some u) t = none

abbrev unlock_of : Option ℕ → ℕ → ℕ × Option ℕ
unlock_of none t = (1, none)
unlock_of (some u) t = if u == t then (0, none) else (1, some u)

abbrev holders : PthreadLock (Option ℕ)
holders = record {
  attr_init = 0;
  attr_settype = λ type. 0;
  init = λ type. (0, none);
  attr_destroy = 0;
  destroy = λ m. 0;
  lock = lock_of;
  unlock = unlock_of;
}

lock_of-none : (m : Option ℕ) → m ≡ none → lock_of m 7 ≡ some (0, some 7)
lock_of-none m e = rw e refl

unlock_of-some : (m : Option ℕ) → m ≡ some 7 → unlock_of m 7 ≡ (0, none)
unlock_of-some m e = rw e refl

abbrev holders_laws : PthreadLaws (Option ℕ) holders 7
holders_laws = record {
  Free = λ m. m ≡ none;
  Held = λ m. m ≡ some 7;
  lock_lem = λ m e. (some 7, lock_of-none m e, refl);
  unlock_lem = λ m e. (none, unlock_of-some m e, refl);
}

abbrev none_held : ℕ → Bool
none_held i = false

-- The first lock is given back for a while, and the second one is taken.
abbrev block : Block Guard
block =
    Block.scoped Guard.locker 0 (
      Block.seq (Block.scoped Guard.unlocker 0 Block.skip) (Block.scoped Guard.locker 1 Block.skip))

pthread_blocks_example :
    let c =
      guard_contract
        (Option ℕ)
        (pthread_ops holders)
        7
        (pthread-IsLock (Option ℕ) holders 7 holders_laws) in
    (ls' : ℕ → Option ℕ) × (run_block (scoped_guards (pthread_ops holders)) 7 block (λ i. none)
      ≡ ok ls')
    × Agrees (scoped_guards (pthread_ops holders)) 7 c none_held ls'
pthread_blocks_example =
    pthread_blocks (Option ℕ) holders 7 holders_laws block none_held (λ i. none)
      (refl, ((refl, tt), (refl, tt))) (λ i. refl)

abbrev given_back : Hold → Hold
given_back Hold.free = Hold.free
given_back (Hold.reads zero) = Hold.free
given_back (Hold.reads (suc n)) = Hold.reads n
given_back Hold.writes = Hold.free

-- The lock as one thread sees it.
abbrev holds : PthreadRwLock Hold
holds = record {
  attr_init = 0;
  attr_setkind = λ kind. 0;
  init = λ kind. (0, Hold.free);
  attr_destroy = 0;
  destroy = λ m. 0;
  rdlock = λ m t. some (0, during RwGuard.reader m);
  wrlock = λ m t. some (0, Hold.writes);
  tryrdlock = λ m t. (0, during RwGuard.reader m);
  trywrlock = λ m t. (0, Hold.writes);
  unlock = λ m t. (0, given_back m);
}

given_back-during : (g : RwGuard) (s : Hold) → Allows g s → given_back (during g s) ≡ s
given_back-during RwGuard.reader Hold.free a = refl
given_back-during RwGuard.reader (Hold.reads n) a = refl
given_back-during RwGuard.reader Hold.writes a = absurd a
given_back-during RwGuard.writer Hold.free a = refl
given_back-during RwGuard.writer (Hold.reads n) a = absurd a
given_back-during RwGuard.writer Hold.writes a = absurd a

abbrev holds_laws : PthreadRwLaws Hold holds 7
holds_laws = record {
  Is = λ s m. m ≡ s;
  rdlock_lem = λ s m a e. (during RwGuard.reader m, refl, ap (during RwGuard.reader) e);
  wrlock_lem = λ m e. (Hold.writes, refl, refl);
  unlock_lem = λ g s m a e. (given_back m, refl, ap given_back e ∙ given_back-during g s a);
}

-- Two readers on one lock, and a writer on another inside.
abbrev rw_block : Block RwGuard
rw_block =
    Block.scoped RwGuard.reader 0
      (Block.scoped RwGuard.reader 0 (Block.scoped RwGuard.writer 1 Block.skip))

rw_blocks_example :
    (ls' : ℕ → Hold) × (run_block (scoped_rw holds) 7 rw_block (λ i. Hold.free) ≡ ok ls')
    × Agrees (scoped_rw holds) 7 (rw_contract Hold holds 7 holds_laws) (λ i. Hold.free) ls'
rw_blocks_example =
    rw_blocks Hold holds 7 holds_laws rw_block (λ i. Hold.free) (λ i. Hold.free)
      (tt, (tt, (tt, tt))) (λ i. refl)
