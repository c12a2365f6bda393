-- ===== src/Stone/IntrusiveList/Doubly.antt =====
-- apsara/stone/containers/intrusive_list.h: `IntrusiveDList`, a circular doubly linked list through
-- nodes that its elements hold, with a root node of its own. No pointer of a circle is null. `mCount` is
-- an `int32_t`, whose overflow is undefined.
use recommender.Prelude.{ℕ, zero, suc, ◌+◌, ◌-◌, ◌^◌, Bool, ◌==◌, leb, if◌then◌else◌}
use recommender.Run.{Run, ok, fault, aborted, running, ◌>>=◌}

-- The two pointers of each node.
pub record Nodes : Type 0 where
  pub prev : ℕ → ℕ
  pub next : ℕ → ℕ

abbrev pub set_prev : Nodes → ℕ → ℕ → Nodes
set_prev m p v = record m { prev = λ q. if p == q then v else m.prev q }

abbrev pub set_next : Nodes → ℕ → ℕ → Nodes
set_next m p v = record m { next = λ q. if p == q then v else m.next q }

pub record IntrusiveDList : Type 0 where
  pub root : ℕ
  pub count : ℕ

-- `DLinkNode::DLinkNode`, and the list that is built on such a root.
abbrev pub new_node : Nodes → ℕ → Nodes
new_node m p = set_next (set_prev m p p) p p

unfoldable pub create : Nodes → ℕ → Nodes × IntrusiveDList
create m root = (new_node m root, record { root = root; count = 0 })

-- `DLinkNode::Unlink`
unfoldable pub unlink_node : Nodes → ℕ → Nodes
unlink_node m p =
    let m1 = set_prev m (m.next p) (m.prev p) in
    let m2 = set_next m1 (m1.prev p) (m1.next p) in set_prev (set_next m2 p p) p p

abbrev pub begin : Nodes → IntrusiveDList → ℕ
begin m l = m.next l.root

abbrev pub end : IntrusiveDList → ℕ
end l = l.root

abbrev pub last : Nodes → IntrusiveDList → ℕ
last m l = m.prev l.root

-- The writes that link `node` in before `curr`.
unfoldable pub link_before : Nodes → ℕ → ℕ → Nodes
link_before m curr node =
    let m1 = set_prev m node (m.prev curr) in
    let m2 = set_next m1 node curr in
    let m3 = set_next m2 (m2.prev curr) node in set_prev m3 curr node

-- `insert(it, elem)`: the list and the iterator to the element.
unfoldable pub insert : Nodes → IntrusiveDList → ℕ → ℕ → Run (Nodes × IntrusiveDList × ℕ)
unfolding link_before
insert m l curr node =
    if leb (2 ^ 31) (l.count + 1)
    then fault
    else ok (link_before m curr node, record l { count = l.count + 1 }, node)

unfoldable pub push_front : Nodes → IntrusiveDList → ℕ → Run (Nodes × IntrusiveDList)
push_front m l node = do (m', l', it) ← insert m l (begin m l) node; ok (m', l')

unfoldable pub push_back : Nodes → IntrusiveDList → ℕ → Run (Nodes × IntrusiveDList)
push_back m l node = do (m', l', it) ← insert m l (end l) node; ok (m', l')

-- `--mCount; assert(mCount >= 0);`
abbrev pub taken : Nodes → IntrusiveDList → Run (Nodes × IntrusiveDList)
taken m l = if l.count == 0 then aborted else ok (m, record l { count = l.count - 1 })

unfoldable pub unlink : Nodes → IntrusiveDList → ℕ → Run (Nodes × IntrusiveDList)
unlink m l node = taken (unlink_node m node) l

unfoldable pub pop_front : Nodes → IntrusiveDList → Run (Nodes × IntrusiveDList)
pop_front m l = taken (unlink_node m (m.next l.root)) l

unfoldable pub pop_back : Nodes → IntrusiveDList → Run (Nodes × IntrusiveDList)
pop_back m l = taken (unlink_node m (m.prev l.root)) l

-- `erase(it)`: the iterator behind the element. With `AutoDelete` the element is deleted, and the
-- destructor of its node unlinks the node once more.
unfoldable pub erase : Bool → Nodes → IntrusiveDList → ℕ → Run (Nodes × IntrusiveDList × ℕ)
erase auto_delete m l it = if it == end l then ok (m, l, it) else (do
  let next = m.next it
  let m' = unlink_node m it
  (m'', l') ← taken (if auto_delete then unlink_node m' it else m') l
  ok (m'', l', next))

-- `for (it = begin(); it != end(); ) it = erase(it);`
unfoldable pub clear : ℕ → Bool → Nodes → IntrusiveDList → ℕ → Run (Nodes × IntrusiveDList)
clear zero auto_delete m l it = running
clear (suc k) auto_delete m l it =
    let more = (do (m', l', it') ← erase auto_delete m l it; clear k auto_delete m' l' it') in
    if it == end l then ok (m, l) else more
