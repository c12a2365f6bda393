-- ===== src/Stone/Singleton/Examples.antt =====
-- The singleton with two threads that race for it.
use recommender.Prelude.{
  ℕ, ◌≡◌, refl, sym, ap, false, Option, none, some, List, [], ◌∷◌, ◌++◌, ◌==◌, zero, suc, ◌+◌, ◌*◌,
}
use mathlib.Core.Option.{some-injective, none-ne-some}
use recommender.Stone.Singleton.{
  MutexOps, Pc, Event, act, run, step, create, scoped_lock, scoped_unlock, check_pthread_error,
}
use recommender.Stone.Singleton.Once.{returned-once}
use recommender.Stone.Singleton.Steps.{IsMutex, IsRunning}

-- A mutex that knows which thread has it.
abbrev lock : Option ℕ → ℕ → Option (ℕ × Option ℕ)
lock none t = some (0, some t)
lock (some u) t = none

abbrev owned_mutex : MutexOps (Option ℕ)
owned_mutex = record { lock = lock; unlock = λ m t. (0, none) }

abbrev holder : Option ℕ → Option ℕ
holder m = m

lock_lem :
    (m m' : Option ℕ) (t status : ℕ)
    → lock m t ≡ some (status, m')
    → (status ≡ 0) × (m ≡ none) × (m' ≡ some t)
lock_lem none m' t status e =
    let e' : (0, some t) ≡ (status, m') = some-injective (0, some t) (status, m') e in
    (ap (λ r. r.0) (sym e'), refl, ap (λ r. r.1) (sym e'))
lock_lem (some u) m' t status e = absurd (none-ne-some (status, m') e)

owned_mutex-IsMutex : IsMutex owned_mutex holder
owned_mutex-IsMutex = record { lock_lem = lock_lem; unlock_lem = λ m t h. (refl, refl) }

abbrev steps : ℕ → ℕ → List Event
steps t zero = []
steps t (suc n) = Event.advance t (16 * n + 16) ∷ steps t n

-- Both threads find no instance before one of them has the mutex.
abbrev race : List Event
race =
    Event.call_instance 0
    ∷ (Event.call_instance 1
        ∷ (Event.advance 1 8 ∷ (steps 0 6 ++ (Event.advance 1 8 ∷ (steps 0 4 ++ steps 1 5)))))

race-IsRunning : IsRunning race
race-IsRunning = (
  refl,
  (
    refl,
    (
      refl,
      (
        refl,
        (
          refl,
          (
            refl,
            (
              refl,
              (refl, (refl, (refl, (refl, (refl, (refl, (refl, (refl, (refl, (refl, tt)))))))))),
            ),
          ),
        ),
      ),
    ),
  ),
)

run-race : (run owned_mutex (create none) race).thread 1 ≡ Pc.returned 32
unfolding run act step create scoped_lock scoped_unlock check_pthread_error
run-race = refl

returned-once_example :
    ((32 == 0) ≡ false) × ((run owned_mutex (create none) race).shared.objects ≡ (32 ∷ []))
returned-once_example =
    returned-once owned_mutex holder owned_mutex-IsMutex none race 1 32 refl race-IsRunning run-race

-- A thread that has found the instance, while another runs `Destroy`: it reads a null pointer.
abbrev late : List Event
late =
    Event.call_instance 0
    ∷ (steps 0 9
        ++ (Event.call_instance 1
            ∷ (steps 1 1 ++ (Event.call_destroy 0 ∷ (steps 0 3 ++ steps 1 1)))))

run-late : (run owned_mutex (create none) late).thread 1 ≡ Pc.returned 0
unfolding run act step create scoped_lock scoped_unlock check_pthread_error
run-late = refl
