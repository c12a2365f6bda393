-- ===== src/Stone/Singleton/Steps.antt =====
-- The singleton while the program runs: what a thread knows of it, and what a step leaves.
use recommender.Prelude.{
  ℕ, ◌≡◌, ◌∙◌, sym, arith, Bool, true, false, Option, none, some, List, [], ◌∷◌, ◌==◌,
  if◌then◌else◌,
}
use recommender.Stone.Singleton.{MutexOps, Singleton, Pc, Event}

-- The mutex as POSIX describes it: `holder` says which thread has it. `lock` waits until no thread has
-- it, `unlock` by the thread that has it leaves it free, and no call fails.
pub record IsMutex {M : Type 0} (ops : MutexOps M) (holder : M → Option ℕ) : Type 0 where
  pub lock_lem :
      (m m' : M) (t status : ℕ)
      → ops.lock m t ≡ some (status, m')
      → (status ≡ 0) × (holder m ≡ none) × (holder m' ≡ some t)
  pub unlock_lem :
      (m : M) (t : ℕ)
      → holder m ≡ some t
      → ((ops.unlock m t).0 ≡ 0) × (holder ((ops.unlock m t).1) ≡ none)

-- Whether a thread has the mutex.
abbrev pub is_inside : Pc → Bool
is_inside Pc.second_test = true
is_inside Pc.test_destroyed = true
is_inside Pc.clear_destroyed = true
is_inside Pc.constructing = true
is_inside (Pc.publishing p) = true
is_inside Pc.registering = true
is_inside Pc.unlocking = true
is_inside _ = false

abbrev pub is_publishing : Pc → Bool
is_publishing (Pc.publishing p) = true
is_publishing _ = false

-- The events while the program runs: no `Destroy`, and `new` returns no null pointer.
abbrev pub IsRunning : List Event → Type 0
IsRunning [] = Unit {0}
IsRunning (Event.call_instance t ∷ es) = IsRunning es
IsRunning (Event.call_destroy t ∷ es) = ⊥
IsRunning (Event.advance t new ∷ es) = ((new == 0) ≡ false) × IsRunning es

module _ {M : Type 0} where
  -- There is one object, that all see.
  abbrev pub IsMade : Singleton M → Type 0
  IsMade s = ((s.instance_ == 0) ≡ false) × (s.objects ≡ (s.instance_ ∷ []))

  -- What a thread knows of the members.
  abbrev pub Knows : Singleton M → Pc → Type 0
  Knows s Pc.test_destroyed = (s.instance_ ≡ 0) × (s.objects ≡ [])
  Knows s Pc.clear_destroyed = (s.instance_ ≡ 0) × (s.objects ≡ [])
  Knows s Pc.constructing = (s.instance_ ≡ 0) × (s.objects ≡ [])
  Knows s (Pc.publishing p) = (s.instance_ ≡ 0) × (s.objects ≡ (p ∷ [])) × ((p == 0) ≡ false)
  Knows s Pc.registering = IsMade s
  Knows s Pc.unlocking = IsMade s
  Knows s Pc.reading = IsMade s
  Knows s (Pc.returned p) = IsMade s × (p ≡ s.instance_)
  Knows s Pc.aborted = ⊥
  Knows s Pc.destroying = ⊥
  Knows s Pc.deleting = ⊥
  Knows s Pc.clearing = ⊥
  Knows s pc = Unit {0}

  -- What a thread knows depends on the instance and the objects alone.
  pub Knows-same :
      (s s' : Singleton M) (q : Pc)
      → s'.instance_ ≡ s.instance_
      → s'.objects ≡ s.objects
      → Knows s q
      → Knows s' q
  Knows-same s s' Pc.test_destroyed e f kn = rw (e, f) kn
  Knows-same s s' Pc.clear_destroyed e f kn = rw (e, f) kn
  Knows-same s s' Pc.constructing e f kn = rw (e, f) kn
  Knows-same s s' (Pc.publishing p) e f kn = rw (e, f) kn
  Knows-same s s' Pc.registering e f kn = rw (e, f) kn
  Knows-same s s' Pc.unlocking e f kn = rw (e, f) kn
  Knows-same s s' Pc.reading e f kn = rw (e, f) kn
  Knows-same s s' (Pc.returned p) e f kn = rw (e, f) kn
  Knows-same s s' q e f kn = kn

  -- Where there is no object, no thread has got one.
  pub Knows-none :
      (s s' : Singleton M) (q : Pc) → s.instance_ ≡ 0 → is_inside q ≡ false → Knows s q → Knows s' q
  Knows-none s s' Pc.reading e out kn = absurd (ground (arith, kn.0, e))
  Knows-none s s' (Pc.returned p) e out kn = absurd (ground (arith, kn.0.0, e))
  Knows-none s s' Pc.test_destroyed e out kn = cc out
  Knows-none s s' Pc.clear_destroyed e out kn = cc out
  Knows-none s s' Pc.constructing e out kn = cc out
  Knows-none s s' (Pc.publishing p) e out kn = cc out
  Knows-none s s' Pc.registering e out kn = cc out
  Knows-none s s' Pc.unlocking e out kn = cc out
  Knows-none s s' q e out kn = kn

  module _ (holder : M → Option ℕ) where
    -- What a step of the thread `t` from `pc` leaves.
    pub record Steps (s : Singleton M) (t : ℕ) (pc : Pc) (r : Singleton M × Pc) : Type 0 where
      pub knows : Knows r.0 r.1
      pub own : is_inside r.1 ≡ true → holder r.0.mutex ≡ some t
      pub held : (u : ℕ) → (t == u) ≡ false → holder s.mutex ≡ some u → holder r.0.mutex ≡ some u
      pub others : (q : Pc) → (is_inside pc ≡ true → is_inside q ≡ false) → Knows s q → Knows r.0 q
      pub made : (r.0.instance_ == 0) ≡ false → r.0.objects ≡ (r.0.instance_ ∷ [])
      pub settled :
          (is_publishing pc ≡ false → s.instance_ ≡ 0 → s.objects ≡ [])
          → is_publishing r.1 ≡ false
          → r.0.instance_ ≡ 0
          → r.0.objects ≡ []

    -- A step that leaves the instance and the objects as they are.
    pub quiet-Steps :
        (s s' : Singleton M) (t : ℕ) (pc pc' : Pc)
        → s'.instance_ ≡ s.instance_
        → s'.objects ≡ s.objects
        → is_publishing pc ≡ false
        → ((s.instance_ == 0) ≡ false → s.objects ≡ (s.instance_ ∷ []))
        → Knows s pc'
        → (is_inside pc' ≡ true → holder s'.mutex ≡ some t)
        → ((u : ℕ) → (t == u) ≡ false → holder s.mutex ≡ some u → holder s'.mutex ≡ some u)
        → Steps s t pc (s', pc')
    quiet-Steps s s' t pc pc' e f quiet md kn own held = record {
      knows = Knows-same s s' pc' e f kn;
      own = own;
      held = held;
      others = λ q out kn'. Knows-same s s' q e f kn';
      made = rw (e, f) md;
      settled = λ was no z. f ∙ was quiet (sym e ∙ z);
    }

    pub branch-Steps :
        (s : Singleton M) (t : ℕ) (pc : Pc) (b : Bool) (r r' : Singleton M × Pc)
        → Steps s t pc r
        → Steps s t pc r'
        → Steps s t pc (if b then r else r')
    branch-Steps s t pc true r r' x y = x
    branch-Steps s t pc false r r' x y = y
