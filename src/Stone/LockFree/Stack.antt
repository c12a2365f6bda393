-- ===== src/Stone/LockFree/Stack.antt =====
-- apsara/stone/threading/lockfree/lockfree_stack.h: `LockFreeStack`, a stack of values in a pool of
-- nodes that two chains run through: the stack and the free nodes. Each access to shared memory is
-- one step of one thread, in any order of the threads; a node is its index in `mNodeBuffer`.
pub mod Calls
pub mod Construct
mod Examples
pub mod Exchanges
pub mod Fresh
pub mod Interleaving
pub mod Invariant
pub mod Linear
pub mod Moves
pub mod Refinement
pub mod Runs
use recommender.Prelude.{
  ℕ, ◌+◌, ◌-◌, ◌^◌, ◌%◌, ◌≡◌, Bool, true, false, Option, none, some, List, [], ◌∷◌, ◌==◌,
  if◌then◌else◌, at_put,
}
use recommender.Stone.LockFree.{make_pointer, tag_of, index_of, lock_free_null_pointer}

pub record LockFreeStack {ℓ} (A : Type ℓ) : Type ℓ where
  pub next : ℕ → ℕ
  pub next_free_node : ℕ → ℕ
  pub value : ℕ → A
  pub head : ℕ
  pub free_node_head : ℕ
  pub size : ℕ

-- Where a thread stands in `Push` or `Pop`, with its local variables: what it does next.
pub data Pc {ℓ} (A : Type ℓ) : Type ℓ where
  -- Outside, after a call that returned a Boolean and, for `Pop`, an element.
  idle : Pc A
  pushed : Bool → Pc A
  popped : Option A → Pc A
  -- `AcquireNode`: the read of `mFreeNodeHead`, the read of `mNextFreeNode`, the exchange.
  acquire_head : A → Pc A
  acquire_next : A → ℕ → Pc A
  acquire_exchange : A → ℕ → ℕ → Pc A
  -- `Push` with its node: the value, the read of `mHead`, the write of `mNext`, the exchange.
  push_value : A → ℕ → Pc A
  push_head : A → ℕ → Pc A
  push_next : A → ℕ → ℕ → Pc A
  push_exchange : A → ℕ → ℕ → Pc A
  push_size : Pc A
  -- `Pop`: the read of `mHead`, the read of `mNext`, the exchange, the value.
  pop_head : Pc A
  pop_next : ℕ → Pc A
  pop_exchange : ℕ → ℕ → Pc A
  pop_value : ℕ → Pc A
  -- `ReleaseNode`: the value, the read of `mFreeNodeHead`, the write of `mNextFreeNode`, the exchange.
  release_value : ℕ → A → Pc A
  release_head : ℕ → A → Pc A
  release_next : ℕ → A → ℕ → Pc A
  release_exchange : ℕ → A → ℕ → Pc A
  pop_size : A → Pc A

-- `MakePointer(index, Tag(head) + 1)`
abbrev pub tagged_on : ℕ → ℕ → ℕ
tagged_on index h = make_pointer index ((tag_of h + 1) % 2 ^ 32)

module _ {ℓ} {A : Type ℓ} (blank : A) where
  -- One step of a thread. `blank` is `T()`.
  unfoldable pub step : LockFreeStack A → Pc A → LockFreeStack A × Pc A
  step s idle = (s, idle)
  step s (pushed b) = (s, pushed b)
  step s (popped v) = (s, popped v)
  step s (acquire_head v) =
      if index_of s.free_node_head == lock_free_null_pointer
      then (s, pushed false)
      else (s, acquire_next v s.free_node_head)
  step s (acquire_next v h) = (s, acquire_exchange v h (s.next_free_node (index_of h)))
  step s (acquire_exchange v h n) =
      if s.free_node_head == h
      then (record s { free_node_head = tagged_on n h }, push_value v (index_of h))
      else (s, acquire_head v)
  step s (push_value v k) = (record s { value = at_put s.value k v }, push_head v k)
  step s (push_head v k) = (s, push_next v k s.head)
  step s (push_next v k h) = (record s { next = at_put s.next k (index_of h) }, push_exchange v k h)
  step s (push_exchange v k h) =
      if s.head == h then (record s { head = tagged_on k h }, push_size) else (s, push_head v k)
  step s push_size = (record s { size = (s.size + 1) % 2 ^ 64 }, pushed true)
  step s pop_head =
      if index_of s.head == lock_free_null_pointer then (s, popped none) else (s, pop_next s.head)
  step s (pop_next h) = (s, pop_exchange h (s.next (index_of h)))
  step s (pop_exchange h n) =
      if s.head == h
      then (record s { head = tagged_on n h }, pop_value (index_of h))
      else (s, pop_head)
  step s (pop_value k) = (s, release_value k (s.value k))
  step s (release_value k v) = (record s { value = at_put s.value k blank }, release_head k v)
  step s (release_head k v) = (s, release_next k v s.free_node_head)
  step s (release_next k v h) =
      (record s { next_free_node = at_put s.next_free_node k (index_of h) }, release_exchange k v h)
  step s (release_exchange k v h) =
      if s.free_node_head == h
      then (record s { free_node_head = tagged_on k h }, pop_size v)
      else (s, release_head k v)
  step s (pop_size v) = (record s { size = (s.size + (2 ^ 64 - 1)) % 2 ^ 64 }, popped (some v))

-- The threads, which share the stack.
pub record System {ℓ} (A : Type ℓ) : Type ℓ where
  pub stack : LockFreeStack A
  pub thread : ℕ → Pc A

abbrev pub is_outside {ℓ} : {A : Type ℓ} → Pc A → Bool
is_outside idle = true
is_outside (pushed b) = true
is_outside (popped v) = true
is_outside _ = false

-- A thread calls `Push` or `Pop`, which changes nothing while it is in a call, or goes one step on.
pub data Event {ℓ} (A : Type ℓ) : Type ℓ where
  call_push : ℕ → A → Event A
  call_pop : ℕ → Event A
  advance : ℕ → Event A

module _ {ℓ} {A : Type ℓ} (blank : A) where
  unfoldable pub act : System A → Event A → System A
  act m (call_push t v) =
      if is_outside (m.thread t)
      then record m { thread = at_put m.thread t (acquire_head v) }
      else m
  act m (call_pop t) =
      if is_outside (m.thread t) then record m { thread = at_put m.thread t pop_head } else m
  act m (advance t) =
      let (stack, pc) = step blank m.stack (m.thread t) in
      record { stack = stack; thread = at_put m.thread t pc }

  -- The threads in the order of a schedule.
  unfoldable pub run : System A → List (Event A) → System A
  run m [] = m
  run m (e ∷ es) = run (act m e) es
