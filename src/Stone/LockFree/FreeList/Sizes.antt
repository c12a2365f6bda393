-- ===== src/Stone/LockFree/FreeList/Sizes.antt =====
-- `Size` of the free list: what the counter holds while calls are under way.
use mathlib.Core.Path.{subst}
use recommender.Prelude.{
  at_put, ℕ, ◌+◌, ◌^◌, ◌%◌, ◌<◌, ◌≡◌, refl, ap, inl, inr, arith, true, none, some, List, [], ◌∷◌,
  ◌++◌, ◌==◌, Bool-cases, length, total, total-at_put, total-zero,
}
use recommender.Stone.LockFree.{get_pointer}
use recommender.Stone.LockFree.FreeList.{
  FreeList, Pc, create, step, System, Event, call, act, run, is_outside, get_size, is_empty,
}
use recommender.Stone.LockFree.FreeList.Interleaving.{
  Clock, tick, IsConsistent, overwrite-IsConsistent,
}
use recommender.Stone.LockFree.FreeList.Moves.{Effect}
use recommender.Stone.LockFree.FreeList.Calls.{operation}
use recommender.Stone.LockFree.FreeList.Runs.{
  tail, applied, history, IsAllowed, Effect-applied, fresh, start, fresh-IsConsistent,
  pushed-IsConsistent, popping-IsConsistent, advance-Moves, advance-IsConsistent,
}
use recommender.Stone.LockFree.Stack.Linear.{Operation}

-- The calls whose exchange is made, and that have not changed the size yet.
abbrev pub adds : Pc → ℕ
adds Pc.push_size = 1
adds _ = 0

abbrev pub takes : Pc → ℕ
takes (Pc.pop_size x) = 1
takes _ = 0

-- The size, once the `n` threads will have brought it up to date, is the number of objects.
abbrev pub IsCounted : ℕ → System → List ℕ → Type 0
IsCounted n m c =
    (m.list.size < 2 ^ 64)
    × ((m.list.size + total adds n m.thread) % 2 ^ 64
        ≡ (length c + total takes n m.thread) % 2 ^ 64)

-- What a step does to the size and to its own thread.
abbrev IsPaid : FreeList → FreeList → Pc → Pc → List ℕ → List ℕ → Type 0
IsPaid s s' pc pc' c c' =
    (s'.size + adds pc' + (length c + takes pc)) % 2 ^ 64
    ≡ (s.size + adds pc + (length c' + takes pc')) % 2 ^ 64

-- The threads of the calls of a schedule are among the first `n`.
abbrev pub AreBelow : ℕ → List Event → Type 0
AreBelow n [] = Unit {0}
AreBelow n (Event.call_push t x ∷ es) = (t < n) × AreBelow n es
AreBelow n (Event.call_pop t ∷ es) = (t < n) × AreBelow n es
AreBelow n (Event.advance t ∷ es) = (t < n) × AreBelow n es
AreBelow n (Event.overwrite x v ∷ es) = AreBelow n es

moved-IsCounted :
    (n t : ℕ) (m : System) (r : FreeList × Pc) (c c' : List ℕ)
    → t < n
    → IsCounted n m c
    → r.0.size < 2 ^ 64
    → IsPaid m.list r.0 (m.thread t) r.1 c c'
    → IsCounted n (record { list = r.0; thread = at_put m.thread t r.1 }) c'
moved-IsCounted n t m r c c' lt h small paid = (
  small,
  omega (arith, h.1, total-at_put adds n m.thread t r.1 lt, total-at_put takes n m.thread t r.1 lt),
)

outside-adds : (pc : Pc) → is_outside pc ≡ true → (adds pc ≡ 0) × (takes pc ≡ 0)
outside-adds Pc.idle e = (refl, refl)
outside-adds Pc.pushed e = (refl, refl)
outside-adds (Pc.popped o) e = (refl, refl)
outside-adds pc e = cc

called-IsCounted :
    (n t : ℕ) (m : System) (pc : Pc) (c : List ℕ)
    → t < n
    → adds pc ≡ 0
    → takes pc ≡ 0
    → IsCounted n m c
    → IsCounted n (call m t pc) c
unfolding call
called-IsCounted n t m pc c lt no_add no_take h = elim (Bool-cases (is_outside (m.thread t))) [
  | inl e ↦
      let (a, b) = outside-adds (m.thread t) e in
      rw e (moved-IsCounted n t m (m.list, pc) c c lt h (h.0) (omega (arith, a, b)))
  | inr e ↦ rw e h
]

applied-append :
    (c : List ℕ) (os os' : List (Operation ℕ)) → applied c (os ++ os') ≡ applied (applied c os) os'
applied-append c [] os' = refl
applied-append c (Operation.push x ∷ os) os' = applied-append (x ∷ c) os os'
applied-append c (Operation.pop x ∷ os) os' = applied-append (tail c) os os'
applied-append c (Operation.pop_empty ∷ os) os' = applied-append c os os'

module _ (offset : ℕ) where
  step-IsPaid :
      (s : FreeList) (pc : Pc) (c c' : List ℕ)
      → let r = step offset s pc in Effect pc r.1 c c' → IsPaid s r.0 pc r.1 c c'
  unfolding step
  step-IsPaid s Pc.idle c c' = λ e. omega (arith, ap length e)
  step-IsPaid s Pc.pushed c c' = λ e. omega (arith, ap length e)
  step-IsPaid s (Pc.popped none) c c' = λ e. omega (arith, ap length e)
  step-IsPaid s (Pc.popped (some y)) c c' = λ e. omega (arith, ap length e)
  step-IsPaid s (Pc.push_head x) c c' = λ e. omega (arith, ap length e)
  step-IsPaid s (Pc.push_next x h) c c' = λ e. omega (arith, ap length e)
  step-IsPaid s (Pc.push_exchange x h) c c' = elim (Bool-cases (s.head == h)) [
    | inl q ↦ rw q (λ e. omega (arith, ap length e))
    | inr q ↦ rw q (λ e. omega (arith, ap length e))
  ]
  step-IsPaid s Pc.push_size c c' = λ e. omega (arith, ap length e)
  step-IsPaid s Pc.pop_head c c' = elim (Bool-cases (get_pointer s.head == 0)) [
    | inl q ↦ rw q (λ e. omega (arith, ap length (e.0)))
    | inr q ↦ rw q (λ e. omega (arith, ap length e))
  ]
  step-IsPaid s (Pc.pop_next h) c c' = λ e. omega (arith, ap length e)
  step-IsPaid s (Pc.pop_exchange h k) c c' = elim (Bool-cases (s.head == h)) [
    | inl q ↦ rw q (λ e. omega (arith, ap length e))
    | inr q ↦ rw q (λ e. omega (arith, ap length e))
  ]
  step-IsPaid s (Pc.pop_size x) c c' = λ e. omega (arith, ap length e)

  step-bound : (s : FreeList) (pc : Pc) → s.size < 2 ^ 64 → (step offset s pc).0.size < 2 ^ 64
  unfolding step
  step-bound s (Pc.push_exchange x h) small = ground arith
  step-bound s Pc.pop_head small = ground arith
  step-bound s (Pc.pop_exchange h k) small = ground arith
  step-bound s pc small = omega arith

  run-IsCounted :
      (n : ℕ) (es : List Event) (m : System) (k : Clock) (held : List ℕ)
      → IsConsistent offset m k held
      → IsAllowed offset m k held es
      → AreBelow n es
      → IsCounted n m held
      → IsCounted n (run offset m es) (applied held (history offset m es))
  unfolding run history act tick
  run-IsCounted n [] m k held h ok below counted = counted
  run-IsCounted n (Event.call_push t x ∷ es) m k held h ok (lt, below) counted =
      run-IsCounted n es (call m t (Pc.push_head x)) k held
        (pushed-IsConsistent offset m k t x held h (ok.0)) (ok.1) below
        (called-IsCounted n t m (Pc.push_head x) held lt refl refl counted)
  run-IsCounted n (Event.call_pop t ∷ es) m k held h ok (lt, below) counted =
      run-IsCounted n es (call m t Pc.pop_head) k held (popping-IsConsistent offset m k t held h) ok
        below (called-IsCounted n t m Pc.pop_head held lt refl refl counted)
  run-IsCounted n (Event.overwrite x v ∷ es) m k held h (free, ok) below counted =
      run-IsCounted n es (record m { list = record m.list { next = at_put m.list.next x v } }) k
        held (overwrite-IsConsistent offset m k x v held h free) ok below counted
  run-IsCounted n (Event.advance t ∷ es) m k held h (few, ok) (lt, below) counted =
      let pc = m.thread t in
      let r = step offset m.list pc in
      let moves = advance-Moves offset m k t held h few in
      let same = Effect-applied pc r.1 held moves.held' moves.effect in
      let m' = act offset m (Event.advance t) in
      rw (applied-append held (operation pc r.1) (history offset m' es), same)
        (run-IsCounted n es m' (tick offset m t k) moves.held'
          (advance-IsConsistent offset m k t held h few)
          (subst (λ c. IsAllowed offset m' (tick offset m t k) c es) same ok) below
          (moved-IsCounted n t m r held moves.held' lt counted (step-bound m.list pc (counted.0))
            (step-IsPaid m.list pc held moves.held' moves.effect)))

  -- Where all calls have returned, `Size` is the number of objects that the operations have left on the
  -- list, and `Empty` tells whether there are none, for fewer than 2 ^ 64 objects.
  pub get_size-length :
      (links : ℕ → ℕ) (n : ℕ) (es : List Event)
      → IsAllowed offset (fresh links) start [] es
      → AreBelow n es
      → ((t : ℕ) → t < n → is_outside ((run offset (fresh links) es).thread t) ≡ true)
      → length (applied [] (history offset (fresh links) es)) < 2 ^ 64
      → let s = (run offset (fresh links) es).list in
        let c = applied [] (history offset (fresh links) es) in
        (get_size s ≡ length c) × (is_empty s ≡ (length c == 0))
  unfolding get_size is_empty create
  get_size-length links n es ok below out few =
      let m = run offset (fresh links) es in
      let c = applied [] (history offset (fresh links) es) in
      let zero_adds = total-zero adds n (fresh links).thread (λ i lt. refl) in
      let zero_takes = total-zero takes n (fresh links).thread (λ i lt. refl) in
      let end =
        run-IsCounted n es (fresh links) start [] (fresh-IsConsistent offset links) ok below
          (omega arith, omega (arith, zero_adds, zero_takes)) in
      let no_adds = total-zero adds n m.thread (λ t lt. (outside-adds (m.thread t) (out t lt)).0) in
      let no_takes =
        total-zero takes n m.thread (λ t lt. (outside-adds (m.thread t) (out t lt)).1) in
      let size : m.list.size ≡ length c = omega (arith, end.0, end.1, no_adds, no_takes) in
      (size, ap (λ (k : ℕ). k == 0) size)
