-- ===== src/Stone/LockFree/FreeList.antt =====
-- apsara/stone/threading/lockfree/free_list.h: `FreeList`, a stack of objects that the callers own,
-- linked through a member of theirs. Each access to shared memory is one step of one thread, in any
-- order of the threads. An object is its address, and `offset` that of its member `M`.
pub mod Calls
mod Examples
pub mod Interleaving
pub mod Invariant
pub mod Moves
pub mod Refinement
pub mod Runs
pub mod Sizes
use recommender.Prelude.{
  ℕ, ◌+◌, ◌-◌, ◌^◌, ◌%◌, Bool, true, false, Option, none, some, List, [], ◌∷◌, ◌==◌, if◌then◌else◌,
  at_put,
}
use recommender.Stone.LockFree.{make_tagged, get_pointer, get_tag, succ16}

-- `next` is the field of the link of each object.
pub record FreeList : Type 0 where
  pub next : ℕ → ℕ
  pub head : ℕ
  pub size : ℕ

-- Where a thread stands in `Push` or `Pop`, with its local variables: what it does next.
pub data Pc : Type 0 where
  -- Outside, after a call that returned true, or false and no object.
  idle : Pc
  pushed : Pc
  popped : Option ℕ → Pc
  -- `Push`: the read of `mHead`, the write of the link, the exchange, the size.
  push_head : ℕ → Pc
  push_next : ℕ → ℕ → Pc
  push_exchange : ℕ → ℕ → Pc
  push_size : Pc
  -- `Pop`: the read of `mHead`, the read of the link, the exchange, the size.
  pop_head : Pc
  pop_next : ℕ → Pc
  pop_exchange : ℕ → ℕ → Pc
  pop_size : ℕ → Pc

-- `FreeList()`; `links` is what the objects hold.
unfoldable pub create : (ℕ → ℕ) → FreeList
create links = record { next = links; head = 0; size = 0 }

-- `MakePointer(object, GetTag(head) + 1)`
abbrev pub tagged_on : ℕ → ℕ → ℕ
tagged_on object h = make_tagged object (succ16 (get_tag h))

module _ (offset : ℕ) where
  -- `&(object->*M)`
  unfoldable pub link_of : ℕ → ℕ
  link_of object = (object + offset) % 2 ^ 64

  -- `MemberToObject(link, M)`
  unfoldable pub object_of : ℕ → ℕ
  object_of link = (link + (2 ^ 64 - offset % 2 ^ 64)) % 2 ^ 64

  unfoldable pub step : FreeList → Pc → FreeList × Pc
  step s (push_head x) = (s, push_next x s.head)
  step s (push_next x h) =
      (record s { next = at_put s.next x (link_of (get_pointer h)) }, push_exchange x h)
  step s (push_exchange x h) =
      if s.head == h then (record s { head = tagged_on x h }, push_size) else (s, push_head x)
  step s push_size = (record s { size = (s.size + 1) % 2 ^ 64 }, pushed)
  step s pop_head = if get_pointer s.head == 0 then (s, popped none) else (s, pop_next s.head)
  step s (pop_next h) = (s, pop_exchange h (s.next (get_pointer h)))
  step s (pop_exchange h n) =
      if s.head == h
      then (record s { head = tagged_on (object_of n) h }, pop_size (get_pointer h))
      else (s, pop_head)
  step s (pop_size x) = (record s { size = (s.size + (2 ^ 64 - 1)) % 2 ^ 64 }, popped (some x))
  step s idle = (s, idle)
  step s pushed = (s, pushed)
  step s (popped o) = (s, popped o)

-- `Size` and `Empty`
unfoldable pub get_size : FreeList → ℕ
get_size s = s.size

unfoldable pub is_empty : FreeList → Bool
unfolding get_size
is_empty s = get_size s == 0

-- The threads, which share the list.
pub record System : Type 0 where
  pub list : FreeList
  pub thread : ℕ → Pc

abbrev pub is_outside : Pc → Bool
is_outside idle = true
is_outside pushed = true
is_outside (popped o) = true
is_outside _ = false

-- A thread calls `Push` or `Pop`, which changes nothing while it is in a call, or goes one step on; or
-- the link of an object is overwritten by its owner.
pub data Event : Type 0 where
  call_push : ℕ → ℕ → Event
  call_pop : ℕ → Event
  advance : ℕ → Event
  overwrite : ℕ → ℕ → Event

unfoldable pub call : System → ℕ → Pc → System
call m t pc = if is_outside (m.thread t) then record m { thread = at_put m.thread t pc } else m

module _ (offset : ℕ) where
  unfoldable pub act : System → Event → System
  unfolding call
  act m (call_push t x) = call m t (push_head x)
  act m (call_pop t) = call m t pop_head
  act m (advance t) =
      let (list, pc) = step offset m.list (m.thread t) in
      record { list = list; thread = at_put m.thread t pc }
  act m (overwrite x v) = record m { list = record m.list { next = at_put m.list.next x v } }

  -- The threads in the order of a schedule.
  unfoldable pub run : System → List Event → System
  run m [] = m
  run m (e ∷ es) = run (act m e) es
