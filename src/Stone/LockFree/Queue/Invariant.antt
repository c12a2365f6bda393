-- ===== src/Stone/LockFree/Queue/Invariant.antt =====
-- What holds of the lock-free queue between the steps of its threads: the nodes by their positions, and
-- what a thread knows of them.
use recommender.Prelude.{ℕ, ◌+◌, ◌≤◌, ◌<◌, ◌≡◌, false, Option, none, some, List, ◌==◌}
use recommender.Stone.IntrusiveList.Circle.{AllNodes}
use recommender.Stone.IntrusiveList.Sequence.{Absent, Chain}
use recommender.Stone.LockFree.{make_tagged, get_pointer, get_tag}
use recommender.Stone.LockFree.Queue.{LockFreeQueue, Pc, tagged_on}
use recommender.Stone.LockFree.Queue.Positions.{max_position, seq, IsAddress, rank}

-- The node at each position that the queue has had, the first and the last position, where the first
-- is a node whose element is gone, and the free nodes.
pub record Ghost : Type 0 where
  pub at : ℕ → ℕ
  pub first : ℕ
  pub last : ℕ
  pub free : List ℕ

-- The word that the ends of the queue have for a position.
abbrev pub word : Ghost → ℕ → ℕ
word g i = make_tagged (g.at i) (seq i)

-- A `mPrev` of the node `a` with the tag of a position that is not gone points to the next one. At the
-- position 0 this is asked of the first node only.
abbrev pub IsLink : Ghost → ℕ → ℕ → Type 0
IsLink g a w =
    (i : ℕ)
    → g.first ≤ i
    → i < max_position
    → (i ≡ 0 → a ≡ g.at 0)
    → get_tag w ≡ seq i
    → (i < g.last) × (get_pointer w ≡ g.at (i + 1))

-- A word that `mHead` had at the position `j`.
abbrev pub WasHead : Ghost → ℕ → ℕ → Type 0
WasHead g h j = (h ≡ word g j) × (j ≤ g.first) × (j < max_position)

-- A node that is in neither list.
pub record IsOut (g : Ghost) (used : List ℕ) (k : ℕ) : Type 0 where
  pub address : IsAddress k
  pub not_free : Absent k g.free
  pub not_live : (i : ℕ) → g.first ≤ i → i ≤ g.last → (k == g.at i) ≡ false
  pub in_use : (a : ℕ) → Absent a used → (a == k) ≡ false

module _ {A : Type 0} where
  pub record IsSound (s : LockFreeQueue A) (g : Ghost) (used : List ℕ) : Type 0 where
    pub free_chain : Chain s.next_free_node (get_pointer s.free_node_head) g.free
    pub free_addresses : AllNodes IsAddress g.free
    pub head_word : s.head ≡ word g g.first
    pub tail_word : s.tail ≡ word g g.last
    pub ordered : g.first ≤ g.last
    pub few : g.last < max_position
    pub addresses : (i : ℕ) → i ≤ g.last → IsAddress (g.at i)
    pub linked :
        (i : ℕ)
        → g.first ≤ i
        → i < g.last
        → s.next (g.at (i + 1)) ≡ make_tagged (g.at i) (seq (i + 1))
    pub links : (a : ℕ) → IsLink g a (s.prev a)
    pub distinct : (i j : ℕ) → g.first ≤ i → i < j → j ≤ g.last → (g.at i == g.at j) ≡ false
    pub apart : (i : ℕ) → g.first ≤ i → i ≤ g.last → Absent (g.at i) g.free
    pub in_use :
        (a : ℕ)
        → Absent a used
        → Absent a g.free × ((i : ℕ) → g.first ≤ i → i ≤ g.last → (a == g.at i) ≡ false)

  -- The node that a thread has to itself.
  abbrev pub owner : Pc A → Option ℕ
  owner (Pc.push_value v k) = some k
  owner (Pc.push_tail v k) = some k
  owner (Pc.push_next v k t) = some k
  owner (Pc.push_exchange v k t) = some k
  owner (Pc.release_value k v) = some k
  owner (Pc.release_head k v) = some k
  owner (Pc.release_prev k v f) = some k
  owner (Pc.release_next k v f) = some k
  owner (Pc.release_exchange k v f) = some k
  owner _ = none

  -- What a thread knows of the words that it has read.
  abbrev pub Knows : LockFreeQueue A → Ghost → Pc A → Type 0
  Knows s g (Pc.acquire_next v h) =
      (rank (get_tag h) ≤ rank (get_tag s.free_node_head)) × ((get_pointer h == 0) ≡ false)
  Knows s g (Pc.acquire_exchange v h n) =
      (rank (get_tag h) ≤ rank (get_tag s.free_node_head))
      × ((get_pointer h == 0) ≡ false)
      × (s.free_node_head ≡ h → n ≡ s.next_free_node (get_pointer h))
  Knows s g (Pc.push_tail v k) = s.value k ≡ v
  Knows s g (Pc.push_next v k t) = s.value k ≡ v
  Knows s g (Pc.push_exchange v k t) = (s.value k ≡ v) × (s.next k ≡ tagged_on (get_pointer t) t)
  Knows s g (Pc.push_prev k t) = (j : ℕ) × (t ≡ word g j) × (k ≡ g.at (j + 1)) × (j < g.last)
  Knows s g (Pc.pop_tail h) = (j : ℕ) × WasHead g h j
  Knows s g (Pc.pop_prev h t) =
      (j : ℕ) × WasHead g h j × ((i : ℕ) × (t ≡ word g i) × (j ≤ i) × (i ≤ g.last))
  Knows s g (Pc.pop_check h t p) =
      (j : ℕ) × WasHead g h j
      × IsLink g (g.at j) p
      × ((i : ℕ) × (t ≡ word g i) × (j ≤ i) × (i ≤ g.last))
  Knows s g (Pc.pop_value h p) = (j : ℕ) × WasHead g h j × IsLink g (g.at j) p × (get_tag p ≡ seq j)
  Knows s g (Pc.pop_exchange h p v) =
      (j : ℕ) × WasHead g h j
      × IsLink g (g.at j) p
      × (get_tag p ≡ seq j)
      × (g.first ≡ j → v ≡ s.value (get_pointer p))
  Knows s g (Pc.fix_head h c) =
      (j : ℕ) × WasHead g h j × (g.first ≡ j → (i : ℕ) × (c ≡ word g i) × (j ≤ i) × (i ≤ g.last))
  Knows s g (Pc.fix_next h c) =
      (j : ℕ) × WasHead g h j × ((i : ℕ) × (c ≡ word g (i + 1)) × (j ≤ i) × (i < g.last))
  Knows s g (Pc.fix_prev h c n) =
      (j : ℕ) × WasHead g h j
      × ((i : ℕ) × (c ≡ word g (i + 1))
          × (j ≤ i)
          × (i < g.last)
          × (g.first ≡ j → n ≡ make_tagged (g.at i) (seq (i + 1))))
  Knows s g (Pc.release_exchange k v f) = s.next_free_node k ≡ get_pointer f
  Knows s g pc = Unit {0}
