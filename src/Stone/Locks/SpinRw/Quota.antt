-- ===== src/Stone/Locks/SpinRw/Quota.antt =====
-- `SpinRWLock`: what the quota says of the threads.
use recommender.Prelude.{
  ℕ, zero, suc, ◌+◌, ◌*◌, ◌^◌, ◌%◌, ◌≤◌, ◌<◌, ◌≡◌, inl, inr, arith, Bool, true, false, ◌==◌, at_put,
  total, total-at_put, le-total, total-bound, Bool-cases,
}
use recommender.Stone.Locks.SpinRw.{
  Pc, read_add, reading, write_add, writing, System, atomic_sub, is_negative,
}

-- What a thread has taken from the quota.
abbrev pub charge : Pc → ℕ
charge (read_add l) = 1
charge reading = 1
charge (write_add l) = 2 ^ 24
charge writing = 2 ^ 24
charge _ = 0

abbrev pub is_writing : Pc → Bool
is_writing writing = true
is_writing _ = false

abbrev pub is_holding : Pc → Bool
is_holding writing = true
is_holding reading = true
is_holding _ = false

-- More threads could take so much from the quota at once that it becomes positive again.
abbrev pub max_threads : ℕ
max_threads = 129

-- The first `n` threads, and no others, use the lock: the quota is what they have left, and a writer
-- holds the lock alone.
pub record IsExclusive (n : ℕ) (m : System) : Type 0 where
  pub fits : m.quota < 2 ^ 32
  pub balance : (m.quota + total charge n m.thread) % 2 ^ 32 ≡ 2 ^ 24
  pub alone :
      (i j : ℕ)
      → i < n
      → j < n
      → is_writing (m.thread i) ≡ true
      → is_holding (m.thread j) ≡ true
      → i ≡ j

charge-le : (pc : Pc) → charge pc ≤ 2 ^ 24
charge-le pc = ground arith

-- What holds after a change of the thread `t` alone.
pub put-IsExclusive :
    (n : ℕ) (m : System) (t q : ℕ) (pc : Pc)
    → n ≤ max_threads
    → t < n
    → IsExclusive n m
    → q < 2 ^ 32
    → (q + charge pc) % 2 ^ 32 ≡ (m.quota + charge (m.thread t)) % 2 ^ 32
    → ((i : ℕ) → i < n → (t == i) ≡ false → is_holding pc ≡ true → is_writing (m.thread i) ≡ false)
    → ((j : ℕ) → j < n → (t == j) ≡ false → is_writing pc ≡ true → is_holding (m.thread j) ≡ false)
    → IsExclusive n (record { quota = q; thread = at_put m.thread t pc })
put-IsExclusive n m t q pc few lt h fits same no_writer no_holder = record {
  fits = fits;
  balance = omega (arith, h.balance, total-at_put charge n m.thread t pc lt, same);
  alone = λ i j li lj wi hj. ground (arith, h.alone i j, no_writer i, no_holder j);
}

-- A thread that has taken nothing leaves room for what it takes.
others-bound :
    (n : ℕ) (m : System) (t : ℕ)
    → n ≤ max_threads
    → t < n
    → charge (m.thread t) ≡ 0
    → total charge n m.thread ≤ 128 * 2 ^ 24
others-bound n m t few lt none_taken = omega (
  arith,
  none_taken,
  total-at_put charge n m.thread t writing lt,
  total-bound charge (2 ^ 24) n (at_put m.thread t writing) charge-le,
)

writer-charge : (pc : Pc) → is_writing pc ≡ true → charge pc ≡ 2 ^ 24
writer-charge pc h = ground arith

holder-charge : (pc : Pc) → is_holding pc ≡ true → 0 < charge pc
holder-charge pc h = ground arith

-- An attempt to read that succeeds finds no writer, one to write finds no holder.
pub no_writer-read :
    (n : ℕ) (m : System) (t : ℕ)
    → n ≤ max_threads
    → t < n
    → IsExclusive n m
    → charge (m.thread t) ≡ 0
    → is_negative (atomic_sub m.quota 1) ≡ false
    → (i : ℕ) → i < n
    → is_writing (m.thread i) ≡ false
no_writer-read n m t few lt h none_taken pos i li = elim (Bool-cases (is_writing (m.thread i))) [
  | inr e ↦ e
  | inl e ↦ absurd (
      omega (
        arith,
        clash (others-bound n m t few lt none_taken) (h.balance) (h.fits)
            (omega (arith, writer-charge (m.thread i) e, le-total charge n m.thread i li)) pos,
      ))
]
  where
    clash :
        {q s : ℕ}
        → s ≤ 128 * 2 ^ 24
        → (q + s) % 2 ^ 32 ≡ 2 ^ 24
        → q < 2 ^ 32
        → 2 ^ 24 ≤ s
        → is_negative (atomic_sub q 1) ≡ false
        → zero ≡ suc zero
    clash few e fits le pos = ground arith

pub no_holder-write :
    (n : ℕ) (m : System) (t : ℕ)
    → n ≤ max_threads
    → t < n
    → IsExclusive n m
    → charge (m.thread t) ≡ 0
    → is_negative (atomic_sub m.quota (2 ^ 24)) ≡ false
    → (i : ℕ) → i < n
    → is_holding (m.thread i) ≡ false
no_holder-write n m t few lt h none_taken pos i li = elim (Bool-cases (is_holding (m.thread i))) [
  | inr e ↦ e
  | inl e ↦ absurd (
      omega (
        arith,
        clash (others-bound n m t few lt none_taken) (h.balance) (h.fits)
            (omega (arith, holder-charge (m.thread i) e, le-total charge n m.thread i li)) pos,
      ))
]
  where
    clash :
        {q s : ℕ}
        → s ≤ 128 * 2 ^ 24
        → (q + s) % 2 ^ 32 ≡ 2 ^ 24
        → q < 2 ^ 32
        → 0 < s
        → is_negative (atomic_sub q (2 ^ 24)) ≡ false
        → zero ≡ suc zero
    clash few e fits le pos = ground arith
