-- ===== src/Stone/Locks/SpinRw/Exclusion.antt =====
-- `SpinRWLock`: each event keeps the writer alone.
use recommender.Prelude.{
  ℕ, ◌+◌, ◌^◌, ◌%◌, ◌≤◌, ◌<◌, ◌≡◌, refl, inl, inr, arith, true, false, List, [], ◌∷◌, at_put,
  total-zero, Bool-cases,
}
use recommender.Stone.Locks.SpinRw.{
  Pc, outside, refused, read_sub, read_add, reading, write_sub, write_add, writing, System, Event,
  create, step, unlock, act, run, is_outside, become, call, atomic_sub, is_negative,
}
use recommender.Stone.Locks.SpinRw.Quota.{
  charge, is_writing, is_holding, max_threads, IsExclusive, put-IsExclusive, no_writer-read,
  no_holder-write,
}

outside-charge : (pc : Pc) → is_outside pc ≡ true → charge pc ≡ 0
outside-charge pc h = ground arith

-- A change after which the thread does not hold the lock.
back-IsExclusive :
    (n : ℕ) (m : System) (t q : ℕ) (pc : Pc)
    → n ≤ max_threads
    → t < n
    → IsExclusive n m
    → q < 2 ^ 32
    → (q + charge pc) % 2 ^ 32 ≡ (m.quota + charge (m.thread t)) % 2 ^ 32
    → is_holding pc ≡ false
    → IsExclusive n (record { quota = q; thread = at_put m.thread t pc })
back-IsExclusive n m t q pc few lt h fits same out =
    put-IsExclusive n m t q pc few lt h fits same (λ i li ne f. cc) (λ j lj ne f. ground arith)

stay-IsExclusive :
    (n : ℕ) (m : System) (t : ℕ) (pc : Pc)
    → n ≤ max_threads
    → t < n
    → IsExclusive n m
    → m.thread t ≡ pc
    → IsExclusive n (become m t (m.quota, pc))
stay-IsExclusive n m t pc few lt h at =
    put-IsExclusive n m t m.quota pc few lt h h.fits (rw at)
      (λ i li ne f. ground (arith, at, h.alone i t)) (λ j lj ne f. ground (arith, at, h.alone t j))

-- A step of the thread `t`, which stands at `pc`.
step-IsExclusive :
    (n : ℕ) (m : System) (t : ℕ) (pc : Pc)
    → n ≤ max_threads
    → t < n
    → IsExclusive n m
    → m.thread t ≡ pc
    → IsExclusive n (become m t (step m.quota pc))
unfolding step
step-IsExclusive n m t (read_sub l) few lt h at =
    elim (Bool-cases (is_negative (atomic_sub m.quota 1))) [
      | inl e ↦ rw e (
          put-IsExclusive n m t _ (read_add l) few lt h (omega arith)
            (rw at (omega (arith, h.fits))) (λ i li ne f. cc) (λ j lj ne f. cc))
      | inr e ↦ rw e (
          put-IsExclusive n m t _ reading few lt h (omega arith) (rw at (omega (arith, h.fits)))
            (λ i li ne f. no_writer-read n m t few lt h (rw at) e i li) (λ j lj ne f. cc))
    ]
step-IsExclusive n m t (write_sub l) few lt h at =
    elim (Bool-cases (is_negative (atomic_sub m.quota (2 ^ 24)))) [
      | inl e ↦ rw e (
          put-IsExclusive n m t _ (write_add l) few lt h (omega arith)
            (rw at (omega (arith, h.fits))) (λ i li ne f. cc) (λ j lj ne f. cc))
      | inr e ↦ rw e (
          put-IsExclusive n m t _ writing few lt h (omega arith) (rw at (omega (arith, h.fits)))
            (λ i li ne f. ground (arith, no_holder-write n m t few lt h (rw at) e i li))
            (λ j lj ne f. no_holder-write n m t few lt h (rw at) e j lj))
    ]
step-IsExclusive n m t (read_add true) few lt h at =
    back-IsExclusive n m t _ (read_sub true) few lt h (omega arith) (rw at (omega (arith, h.fits)))
      refl
step-IsExclusive n m t (read_add false) few lt h at =
    back-IsExclusive n m t _ refused few lt h (omega arith) (rw at (omega (arith, h.fits))) refl
step-IsExclusive n m t (write_add true) few lt h at =
    back-IsExclusive n m t _ (write_sub true) few lt h (omega arith) (rw at (omega (arith, h.fits)))
      refl
step-IsExclusive n m t (write_add false) few lt h at =
    back-IsExclusive n m t _ refused few lt h (omega arith) (rw at (omega (arith, h.fits))) refl
step-IsExclusive n m t outside few lt h at = stay-IsExclusive n m t outside few lt h at
step-IsExclusive n m t refused few lt h at = stay-IsExclusive n m t refused few lt h at
step-IsExclusive n m t reading few lt h at = stay-IsExclusive n m t reading few lt h at
step-IsExclusive n m t writing few lt h at = stay-IsExclusive n m t writing few lt h at

unlock-IsExclusive :
    (n : ℕ) (m : System) (t : ℕ) (pc : Pc)
    → n ≤ max_threads
    → t < n
    → IsExclusive n m
    → m.thread t ≡ pc
    → IsExclusive n (become m t (unlock m.quota pc))
unfolding unlock
unlock-IsExclusive n m t reading few lt h at =
    back-IsExclusive n m t _ outside few lt h (omega arith) (rw at (omega (arith, h.fits))) refl
unlock-IsExclusive n m t writing few lt h at =
    back-IsExclusive n m t _ outside few lt h (omega arith) (rw at (omega (arith, h.fits))) refl
unlock-IsExclusive n m t outside few lt h at = stay-IsExclusive n m t outside few lt h at
unlock-IsExclusive n m t refused few lt h at = stay-IsExclusive n m t refused few lt h at
unlock-IsExclusive n m t (read_sub l) few lt h at = stay-IsExclusive n m t (read_sub l) few lt h at
unlock-IsExclusive n m t (read_add l) few lt h at = stay-IsExclusive n m t (read_add l) few lt h at
unlock-IsExclusive n m t (write_sub l) few lt h at =
    stay-IsExclusive n m t (write_sub l) few lt h at
unlock-IsExclusive n m t (write_add l) few lt h at =
    stay-IsExclusive n m t (write_add l) few lt h at

call-IsExclusive :
    (n : ℕ) (m : System) (t : ℕ) (pc : Pc)
    → n ≤ max_threads
    → t < n
    → IsExclusive n m
    → charge pc ≡ 0
    → is_holding pc ≡ false
    → IsExclusive n (call m t pc)
call-IsExclusive n m t pc few lt h none_taken out = elim (Bool-cases (is_outside (m.thread t))) [
  | inl e ↦ rw e (
      back-IsExclusive n m t m.quota pc few lt h h.fits
        (omega (arith, none_taken, outside-charge (m.thread t) e)) out)
  | inr e ↦ rw e h
]

-- The thread of an event.
abbrev pub thread_of : Event → ℕ
thread_of (Event.read_lock t) = t
thread_of (Event.write_lock t) = t
thread_of (Event.try_read_lock t) = t
thread_of (Event.try_write_lock t) = t
thread_of (Event.release t) = t
thread_of (Event.advance t) = t

pub act-IsExclusive :
    (n : ℕ) (m : System) (e : Event)
    → n ≤ max_threads
    → thread_of e < n
    → IsExclusive n m
    → IsExclusive n (act m e)
unfolding act
act-IsExclusive n m (Event.read_lock t) few lt h =
    call-IsExclusive n m t (read_sub true) few lt h refl refl
act-IsExclusive n m (Event.write_lock t) few lt h =
    call-IsExclusive n m t (write_sub true) few lt h refl refl
act-IsExclusive n m (Event.try_read_lock t) few lt h =
    call-IsExclusive n m t (read_sub false) few lt h refl refl
act-IsExclusive n m (Event.try_write_lock t) few lt h =
    call-IsExclusive n m t (write_sub false) few lt h refl refl
act-IsExclusive n m (Event.release t) few lt h = unlock-IsExclusive n m t (m.thread t) few lt h refl
act-IsExclusive n m (Event.advance t) few lt h = step-IsExclusive n m t (m.thread t) few lt h refl

-- The events of threads below `n`.
abbrev pub AreBelow : ℕ → List Event → Type 0
AreBelow n [] = Unit {0}
AreBelow n (e ∷ es) = (thread_of e < n) × AreBelow n es

pub run-IsExclusive :
    (es : List Event) (n : ℕ) (m : System)
    → n ≤ max_threads
    → AreBelow n es
    → IsExclusive n m
    → IsExclusive n (run m es)
unfolding run
run-IsExclusive [] n m few among h = h
run-IsExclusive (e ∷ es) n m few among h =
    run-IsExclusive es n (act m e) few (among.1) (act-IsExclusive n m e few (among.0) h)

pub create-IsExclusive : (n : ℕ) → IsExclusive n create
create-IsExclusive n = record {
  fits = omega arith;
  balance = rw (total-zero charge n (λ t. outside) (λ i lt. refl));
  alone = λ i j li lj w hold. cc;
}

-- With at most 129 threads, in whatever order they call, go on and unlock, a thread that holds the lock
-- to write is the only one that holds it.
pub mutual_exclusion :
    (n : ℕ) (es : List Event)
    → n ≤ max_threads
    → AreBelow n es
    → (i j : ℕ) → i < n
    → j < n
    → is_writing ((run create es).thread i) ≡ true
    → is_holding ((run create es).thread j) ≡ true
    → i ≡ j
mutual_exclusion n es few among i j li lj w hold =
    (run-IsExclusive es n create few among (create-IsExclusive n)).alone i j li lj w hold
