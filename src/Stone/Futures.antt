-- ===== src/Stone/Futures.antt =====
-- apsara/stone/threading/sync/future.h: `FuturePtr`, and `FutureGroup::FutureList`. A future is its
-- address, and 0 is the null pointer. The code of `Future` is in the binary: `ref` and `unref` are its
-- `Ref` and `Unref`, on a state that they change.
pub mod Closures
mod Examples
pub mod Pointers
pub mod Queue
use recommender.Prelude.{ℕ, Bool, not, ◌==◌, if◌then◌else◌}
use recommender.Run.{Run, ok, fault}
use recommender.Stone.IntrusiveList.Doubly.{Nodes, set_prev, set_next}

-- The fields `mHead` and `mTail`, futures themselves.
pub record FutureList : Type 0 where
  pub head : ℕ
  pub tail : ℕ

unfoldable pub empty : Nodes → FutureList → Bool
empty m l = m.next l.head == l.tail

-- `FutureList::Reset`
unfoldable pub clear : Nodes → FutureList → Nodes
clear m l =
    let m1 = set_prev m l.head 0 in
    let m2 = set_next m1 l.head l.tail in let m3 = set_prev m2 l.tail l.head in set_next m3 l.tail 0

-- The writes of `PushBack` for a future that is not null.
unfoldable pub link_back : Nodes → FutureList → ℕ → Nodes
link_back m l future =
    let m1 = set_prev m future (m.prev l.tail) in
    let m2 = set_next m1 future l.tail in
    let m3 = set_next m2 (m2.prev l.tail) future in set_prev m3 l.tail future

-- `PushBack`, which reads through the pointer.
unfoldable pub push_back : Nodes → FutureList → ℕ → Run Nodes
unfolding link_back
push_back m l future = if future == 0 then fault else ok (link_back m l future)

unfoldable pub remove_front : Nodes → FutureList → Nodes × ℕ
remove_front m l =
    if empty m l
    then (m, 0)
    else let future = m.next l.head in
      let m1 = set_next m l.head (m.next future) in
      let m2 = set_prev m1 (m1.next future) l.head in
      let m3 = set_prev m2 future 0 in (set_next m3 future 0, future)

-- A `FuturePtr` is the pointer that it holds: `FuturePtr()`, and `FuturePtr(future)`, which takes a
-- reference over.
abbrev pub FuturePtr : Type 0
FuturePtr = ℕ

abbrev pub nothing : FuturePtr
nothing = 0

abbrev pub of_future : ℕ → FuturePtr
of_future future = future

-- `Release`: the future and what the pointer holds now. The reference is not given back.
unfoldable pub release : FuturePtr → ℕ × FuturePtr
release this = (this, 0)

abbrev pub get : FuturePtr → ℕ
get this = this

unfoldable pub is_set : FuturePtr → Bool
is_set this = not (this == 0)

module _ {ℓ} {S : Type ℓ} (ref unref : S → ℕ → S) where
  -- `FuturePtr(ptr)`
  unfoldable pub copy : S → FuturePtr → S × FuturePtr
  copy s ptr = (if not (ptr == 0) then ref s ptr else s, ptr)

  -- `Reset(future)`: the old reference is given back, and a new one is not taken.
  unfoldable pub reset : S → FuturePtr → ℕ → S × FuturePtr
  reset s this future = (if not (this == 0) then unref s this else s, future)

  -- `~FuturePtr()`
  unfoldable pub close : S → FuturePtr → S
  close s this = (reset s this 0).0

  -- `operator=`
  unfoldable pub assign : S → FuturePtr → FuturePtr → S × FuturePtr
  assign s this ptr =
      if this == ptr
      then (s, this)
      else let (s', this') = reset s this ptr in (if not (ptr == 0) then ref s' ptr else s', this')
