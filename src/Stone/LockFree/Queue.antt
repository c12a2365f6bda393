-- ===== src/Stone/LockFree/Queue.antt =====
-- apsara/stone/threading/lockfree/lockfree_queue.h: `LockFreeQueue`, an optimistic queue. Each access
-- to shared memory is one step of one thread, in any order of the threads. A node is its address, 0
-- is the null pointer, and `prev` and `next` of a node are words with a tag of 16 bits. The address
-- that `new` returns comes with the event.
mod Allocation
mod Alone
mod Calls
mod Examples
mod Fix
mod FreeList
mod Fresh
mod Head
mod Interleaving
mod Invariant
mod Linear
mod Moves
mod Positions
mod Progress
mod Refinement
mod Rely
mod Runs
mod Steps
mod Tail
mod Writes
use recommender.Prelude.{
  ℕ, ◌+◌, ◌-◌, ◌^◌, ◌%◌, Bool, true, false, Option, none, some, List, [], ◌∷◌, ◌==◌, if◌then◌else◌,
  at_put,
}
use recommender.Stone.LockFree.{
  make_tagged, get_pointer, get_tag, get_next_tag, get_prev_tag, invalid_tag,
}

abbrev pub null_pointer : ℕ
null_pointer = 0xFFFF000000000000

-- The queue and its nodes. None is freed before the destructor.
pub record LockFreeQueue {ℓ} (A : Type ℓ) : Type ℓ where
  pub prev : ℕ → ℕ
  pub next : ℕ → ℕ
  pub next_free_node : ℕ → ℕ
  pub value : ℕ → A
  pub size : ℕ
  pub head : ℕ
  pub tail : ℕ
  pub free_node_head : ℕ

-- Where a thread stands in `Push` or `Pop`, with its local variables: what it does next.
pub data Pc {ℓ} (A : Type ℓ) : Type ℓ where
  -- Outside, after a call that returned the size, or whether there was an element and the element.
  idle : Pc A
  pushed : ℕ → Pc A
  popped : Option A → Pc A
  -- `AcquireNode`: the read of `mFreeNodeHead`, the read of `mNextFreeNode`, the exchange.
  acquire_head : A → Pc A
  acquire_next : A → ℕ → Pc A
  acquire_exchange : A → ℕ → ℕ → Pc A
  -- `Push` with its node: the value, the read of `mTail`, the write of `mNext`, the exchange, the
  -- write of the `mPrev` of the node that was the last.
  push_value : A → ℕ → Pc A
  push_tail : A → ℕ → Pc A
  push_next : A → ℕ → ℕ → Pc A
  push_exchange : A → ℕ → ℕ → Pc A
  push_prev : ℕ → ℕ → Pc A
  push_size : Pc A
  -- `Pop`: the reads of `mHead`, `mTail` and `mPrev`, the second read of `mHead`, the value, the
  -- exchange.
  pop_head : Pc A
  pop_tail : ℕ → Pc A
  pop_prev : ℕ → ℕ → Pc A
  pop_check : ℕ → ℕ → ℕ → Pc A
  pop_value : ℕ → ℕ → Pc A
  pop_exchange : ℕ → ℕ → A → Pc A
  -- `FixList`, with the head and the current word: the read of `mHead`, the read of `mNext`, the write
  -- of `mPrev`.
  fix_head : ℕ → ℕ → Pc A
  fix_next : ℕ → ℕ → Pc A
  fix_prev : ℕ → ℕ → ℕ → Pc A
  -- `ReleaseNode`: the value, the read of `mFreeNodeHead`, the writes of `mPrev` and `mNextFreeNode`,
  -- the exchange.
  release_value : ℕ → A → Pc A
  release_head : ℕ → A → Pc A
  release_prev : ℕ → A → ℕ → Pc A
  release_next : ℕ → A → ℕ → Pc A
  release_exchange : ℕ → A → ℕ → Pc A
  pop_size : A → Pc A

-- `MakePointer(address, GetNextTag(word))`
abbrev pub tagged_on : ℕ → ℕ → ℕ
tagged_on address word = make_tagged address (get_next_tag word)

module _ {ℓ} {A : Type ℓ} (blank : A) where
  -- One step of a thread, with the address that `new` returns if it is called. `blank` is `T()`.
  unfoldable pub step : LockFreeQueue A → Pc A → ℕ → LockFreeQueue A × Pc A
  step s (acquire_head v) new =
      if get_pointer s.free_node_head == 0
      then (record s { next_free_node = at_put s.next_free_node new 0 }, push_value v new)
      else (s, acquire_next v s.free_node_head)
  step s (acquire_next v h) new = (s, acquire_exchange v h (s.next_free_node (get_pointer h)))
  step s (acquire_exchange v h n) new =
      if s.free_node_head == h
      then (record s { free_node_head = tagged_on n h }, push_value v (get_pointer h))
      else (s, acquire_head v)
  step s (push_value v k) new = (record s { value = at_put s.value k v }, push_tail v k)
  step s (push_tail v k) new = (s, push_next v k s.tail)
  step s (push_next v k t) new =
      (record s { next = at_put s.next k (tagged_on (get_pointer t) t) }, push_exchange v k t)
  step s (push_exchange v k t) new =
      if s.tail == t then (record s { tail = tagged_on k t }, push_prev k t) else (s, push_tail v k)
  step s (push_prev k t) new =
      (record s { prev = at_put s.prev (get_pointer t) (make_tagged k (get_tag t)) }, push_size)
  step s push_size new =
      let size' = (s.size + 1) % 2 ^ 64 in (record s { size = size' }, pushed size')
  step s pop_head new = (s, pop_tail s.head)
  step s (pop_tail h) new = (s, pop_prev h s.tail)
  step s (pop_prev h t) new = (s, pop_check h t (s.prev (get_pointer h)))
  step s (pop_check h t p) new =
      if s.head == h
      then if t == h
        then (s, popped none)
        else if get_tag p == invalid_tag
        then (s, pop_head)
        else if get_tag p == get_tag h
        then (s, pop_value h p)
        else (s, fix_head h t)
      else (s, pop_head)
  step s (pop_value h p) new = (s, pop_exchange h p (s.value (get_pointer p)))
  step s (pop_exchange h p v) new =
      if s.head == h
      then (record s { head = tagged_on (get_pointer p) h }, release_value (get_pointer h) v)
      else (s, pop_head)
  step s (fix_head h c) new =
      if s.head == h then if c == h then (s, pop_head) else (s, fix_next h c) else (s, pop_head)
  step s (fix_next h c) new = (s, fix_prev h c (s.next (get_pointer c)))
  step s (fix_prev h c n) new = (
    record s {
      prev = at_put s.prev (get_pointer n) (make_tagged (get_pointer c) (get_prev_tag c));
    },
    fix_head h (make_tagged (get_pointer n) (get_prev_tag c)),
  )
  step s (release_value k v) new = (record s { value = at_put s.value k blank }, release_head k v)
  step s (release_head k v) new = (s, release_prev k v s.free_node_head)
  step s (release_prev k v f) new =
      (record s { prev = at_put s.prev k (make_tagged 0 invalid_tag) }, release_next k v f)
  step s (release_next k v f) new = (
    record s { next_free_node = at_put s.next_free_node k (get_pointer f) },
    release_exchange k v f,
  )
  step s (release_exchange k v f) new =
      if s.free_node_head == f
      then (record s { free_node_head = tagged_on k f }, pop_size v)
      else (s, release_head k v)
  step s (pop_size v) new = (record s { size = (s.size + (2 ^ 64 - 1)) % 2 ^ 64 }, popped (some v))
  step s pc new = (s, pc)

  -- The constructor, on memory that holds `junk`: `new` returns `first`.
  unfoldable pub construct : LockFreeQueue A → ℕ → LockFreeQueue A
  construct junk first =
      let head = make_tagged first 0 in
      record junk {
        prev = at_put junk.prev first (make_tagged first 0xFFFF);
        next = at_put junk.next first null_pointer;
        next_free_node = at_put junk.next_free_node first 0;
        size = 0;
        head = head;
        tail = head;
        free_node_head = null_pointer;
      }

-- `Size()` and `Empty()`.
module _ {ℓ} {A : Type ℓ} where
  unfoldable pub get_size : LockFreeQueue A → ℕ
  get_size s = s.size

  unfoldable pub is_empty : LockFreeQueue A → Bool
  is_empty s = get_size s == 0

-- The threads, which share the queue.
pub record System {ℓ} (A : Type ℓ) : Type ℓ where
  pub queue : LockFreeQueue A
  pub thread : ℕ → Pc A

abbrev pub is_outside {ℓ} : {A : Type ℓ} → Pc A → Bool
is_outside idle = true
is_outside (pushed n) = true
is_outside (popped v) = true
is_outside _ = false

-- A thread calls `Push` or `Pop`, which changes nothing while it is in a call, or goes one step on.
pub data Event {ℓ} (A : Type ℓ) : Type ℓ where
  call_push : ℕ → A → Event A
  call_pop : ℕ → Event A
  advance : ℕ → ℕ → Event A

module _ {ℓ} {A : Type ℓ} (blank : A) where
  unfoldable pub act : System A → Event A → System A
  act m (call_push t v) =
      if is_outside (m.thread t)
      then record m { thread = at_put m.thread t (acquire_head v) }
      else m
  act m (call_pop t) =
      if is_outside (m.thread t) then record m { thread = at_put m.thread t pop_head } else m
  act m (advance t new) =
      let (queue, pc) = step blank m.queue (m.thread t) new in
      record { queue = queue; thread = at_put m.thread t pc }

  -- The threads in the order of a schedule.
  unfoldable pub run : System A → List (Event A) → System A
  run m [] = m
  run m (e ∷ es) = run (act m e) es
