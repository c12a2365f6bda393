-- ===== src/Stone/IntrusiveList.antt =====
-- apsara/stone/containers/intrusive_list.h: `IntrusiveList`, a singly linked list through nodes
-- that its elements hold. An element is the address of its node, 0 is the null pointer, and the
-- memory gives the `next` pointer of each node. `mCount` is an `int32_t`, whose overflow is undefined.
-- The doubly linked `IntrusiveDList` is in a child.
pub mod Doubly
pub mod Circle
pub mod Operations
pub mod Erase
mod Examples
pub mod Sequence
use recommender.Prelude.{ℕ, zero, suc, ◌+◌, ◌-◌, ◌^◌, Bool, List, [], ◌∷◌, ◌==◌, leb, if◌then◌else◌}
use recommender.Run.{Run, ok, fault, aborted, running, ◌>>=◌, ◌>>◌}

abbrev pub Links : Type 0
Links = ℕ → ℕ

-- `p->next = v`, for a pointer that is not null.
abbrev pub write : Links → ℕ → ℕ → Links
write m p v q = if p == q then v else m q

-- `p->next` and the write, which fault at null.
abbrev pub load_next : Links → ℕ → Run ℕ
load_next m p = if p == 0 then fault else ok (m p)

abbrev pub store_next : Links → ℕ → ℕ → Run Links
store_next m p v = if p == 0 then fault else ok (write m p v)

pub record IntrusiveList : Type 0 where
  pub head : ℕ
  pub tail : ℕ
  pub count : ℕ

abbrev pub create : IntrusiveList
create = record { head = 0; tail = 0; count = 0 }

-- `LinkNode::Unlink`
abbrev pub unlink_node : Links → ℕ → Run Links
unlink_node m p = store_next m p 0

unfoldable pub empty : IntrusiveList → Bool
empty l = l.count == 0

-- `*begin()`, `*front()` and `*back()` are the elements of these nodes.
abbrev pub front : IntrusiveList → ℕ
front l = l.head

abbrev pub back : IntrusiveList → ℕ
back l = l.tail

-- `++mCount`, and whether it is below 2 ^ 31.
abbrev pub fits : ℕ → Run (Unit {0})
fits count = if leb (2 ^ 31) (count + 1) then fault else ok tt

unfoldable pub push_front : Links → IntrusiveList → ℕ → Run (Links × IntrusiveList)
push_front m l node = do
  m' ← store_next m node l.head
  fits l.count
  ok (
    m',
    record { head = node; tail = if l.count + 1 == 1 then node else l.tail; count = l.count + 1 },
  )

unfoldable pub pop_front : Links → IntrusiveList → Run (Links × IntrusiveList)
pop_front m l = do
  next ← load_next m l.head
  m' ← unlink_node m l.head
  if l.count == 0
      then aborted
      else ok (
        m',
        record { head = next; tail = if l.count - 1 == 0 then 0 else l.tail; count = l.count - 1 },
      )

unfoldable pub push_back : Links → IntrusiveList → ℕ → Run (Links × IntrusiveList)
push_back m l node = do
  m' ← if l.tail == 0 then ok m else store_next m l.tail node
  fits l.count
  ok (
    m',
    record { head = if l.count + 1 == 1 then node else l.head; tail = node; count = l.count + 1 },
  )

unfoldable pub swap : IntrusiveList × IntrusiveList → IntrusiveList × IntrusiveList
swap (l, l') = (l', l)

-- `clear`: the addresses that `delete` is called on, in order. The destructor of a node unlinks it
-- once more.
unfoldable pub clear : ℕ → Links → IntrusiveList → Run (List ℕ × Links × IntrusiveList)
clear zero m l = running
clear (suc k) m l =
    let more = (do
      (m', l') ← pop_front m l
      m'' ← unlink_node m' l.head
      (deleted, m''', l'') ← clear k m'' l'
      ok (l.head ∷ deleted, m''', l'')) in
    if empty l then ok ([], m, l) else more

-- `++it` on an iterator, which stays at the end.
unfoldable pub advance : Links → ℕ → ℕ
advance m it = if it == 0 then 0 else m it

-- The elements that `for (it = begin(); it != end(); ++it)` visits.
unfoldable pub visit : ℕ → Links → ℕ → Run (List ℕ)
unfolding advance
visit zero m it = running
visit (suc k) m it =
    let more = (do rest ← visit k m (advance m it); ok (it ∷ rest)) in
    if it == 0 then ok [] else more
