-- ===== src/Stone/IntrusiveList/Operations.antt =====
-- `IntrusiveDList`: what each operation does to the sequence of elements.
use recommender.Prelude.{
  ℕ, ◌+◌, ◌-◌, ◌^◌, ◌<◌, ◌≡◌, refl, ◌∙◌, ap, false, List, [], ◌∷◌, ◌++◌, arith, ◌==◌, ==-refl,
  if_same, length, length-append, pos→ne, not_le→leb,
}
use mathlib.Core.Path.{subst}
use recommender.Run.{Run, ok}
use recommender.Stone.IntrusiveList.Circle.{
  Distinct, IsCircle, Inserted, Removed, Linked-Inserted, Linked-Removed, Linked-ends, Linked-prev,
  Absent-middle, ==-flip, first_or,
}
use recommender.Stone.IntrusiveList.Doubly.{
  Nodes, IntrusiveDList, unlink_node, link_before, insert, push_front, push_back, unlink, pop_front,
  pop_back,
}
use recommender.Stone.IntrusiveList.Sequence.{Absent, last_or, last_or-snoc}

Absent-insert :
    (a node : ℕ) (us vs : List ℕ)
    → Absent a (us ++ vs)
    → (a == node) ≡ false
    → Absent a (us ++ (node ∷ vs))
Absent-insert a node [] vs h e = (e, h)
Absent-insert a node (u ∷ us) vs h e = (h.0, Absent-insert a node us vs (h.1) e)

pub Distinct-insert :
    (node : ℕ) (us vs : List ℕ)
    → Distinct (us ++ vs)
    → Absent node (us ++ vs)
    → Distinct (us ++ (node ∷ vs))
Distinct-insert node [] vs d out = (out, d)
Distinct-insert node (u ∷ us) vs d out = (
  Absent-insert u node us vs (d.0) (==-flip node u (out.0)),
  Distinct-insert node us vs (d.1) (out.1),
)

pub Distinct-remove :
    (node : ℕ) (us vs : List ℕ) → Distinct (us ++ (node ∷ vs)) → Distinct (us ++ vs)
Distinct-remove node [] vs d = d.1
Distinct-remove node (u ∷ us) vs d =
    ((Absent-middle u node us vs (d.0)).1, Distinct-remove node us vs (d.1))

pub ++-[] : (xs : List ℕ) → xs ++ [] ≡ xs
++-[] [] = refl
++-[] (x ∷ xs) = ap (λ ys. x ∷ ys) (++-[] xs)

link_before-Inserted :
    (m : Nodes) (c p node : ℕ) → m.prev c ≡ p → Inserted m (link_before m c node) p c node
unfolding link_before
link_before-Inserted m c p node e = record {
  next_lem = λ x. rw (if_same (node == c), e);
  prev_lem = λ x. rw e;
}

-- What an operation that puts an element in leaves: the elements `xs`.
pub record Puts (l : IntrusiveDList) (xs : List ℕ) (r : Run (Nodes × IntrusiveDList)) : Type 0 where
  pub nodes : Nodes
  pub list : IntrusiveDList
  pub returns : r ≡ ok (nodes, list)
  pub same_root : list.root ≡ l.root
  pub holds : IsCircle nodes list xs

-- `insert` puts an element that is not in the list before the element (or the end) that the iterator
-- stands at, wherever that is, and returns an iterator to it, if there were fewer than 2 ^ 31 - 1
-- elements.
pub insert-IsCircle :
    (m : Nodes) (l : IntrusiveDList) (node : ℕ) (us vs : List ℕ)
    → IsCircle m l (us ++ vs)
    → Absent node (l.root ∷ (us ++ vs))
    → length (us ++ vs) + 1 < 2 ^ 31
    → (m' : Nodes) × (l' : IntrusiveDList) × (insert m l (first_or l.root vs) node
        ≡ ok (m', l', node))
      × (l'.root ≡ l.root)
      × IsCircle m' l' (us ++ (node ∷ vs))
unfolding insert
insert-IsCircle m l node us vs h out few = (
  link_before m (first_or l.root vs) node,
  record l { count = l.count + 1 },
  rw (not_le→leb (2 ^ 31) (l.count + 1) (omega (arith, h.counted, few))) refl,
  refl,
  record {
    circle =
        Linked-Inserted m _ node l.root l.root us vs
          (link_before-Inserted m (first_or l.root vs) (last_or l.root us) node
            (Linked-prev m l.root l.root us vs h.circle))
          h.circle h.distinct (h.distinct.0) out (out.0);
    distinct = (
      Absent-insert l.root node us vs (h.distinct.0) (==-flip node l.root (out.0)),
      Distinct-insert node us vs (h.distinct.1) (out.1),
    );
    counted = omega (arith, h.counted, length-append us vs, length-append us (node ∷ vs));
  },
)

-- `push_front` puts an element that is not in the list before the others.
pub push_front-Puts :
    (m : Nodes) (l : IntrusiveDList) (node : ℕ) (xs : List ℕ)
    → IsCircle m l xs
    → Absent node (l.root ∷ xs)
    → length xs + 1 < 2 ^ 31
    → Puts l (node ∷ xs) (push_front m l node)
unfolding push_front
push_front-Puts m l node [] h out few =
    let (m', l', e, same, c) = insert-IsCircle m l node [] [] h out few in
    record { nodes = m'; list = l'; returns = rw (h.circle.0, e) refl; same_root = same; holds = c }
push_front-Puts m l node (x ∷ xs) h out few =
    let (m', l', e, same, c) = insert-IsCircle m l node [] (x ∷ xs) h out few in
    record { nodes = m'; list = l'; returns = rw (h.circle.0, e) refl; same_root = same; holds = c }

-- `push_back` puts an element that is not in the list behind the others.
pub push_back-Puts :
    (m : Nodes) (l : IntrusiveDList) (node : ℕ) (xs : List ℕ)
    → IsCircle m l xs
    → Absent node (l.root ∷ xs)
    → length xs + 1 < 2 ^ 31
    → Puts l (xs ++ (node ∷ [])) (push_back m l node)
unfolding push_back
push_back-Puts m l node xs h out few =
    let (m', l', e, same, c) =
      insert-IsCircle m l node xs [] (rw (++-[] xs) h) (rw (++-[] xs) out) (rw (++-[] xs) few) in
    record { nodes = m'; list = l'; returns = rw e refl; same_root = same; holds = c }

-- What an operation that takes an element off leaves: the elements `xs`, and the element unlinked.
pub record Takes (l : IntrusiveDList) (node : ℕ) (xs : List ℕ) (r : Run (Nodes × IntrusiveDList))
    : Type 0 where
  pub nodes : Nodes
  pub list : IntrusiveDList
  pub returns : r ≡ ok (nodes, list)
  pub same_root : list.root ≡ l.root
  pub holds : IsCircle nodes list xs
  pub next_itself : nodes.next node ≡ node
  pub prev_itself : nodes.prev node ≡ node

pub unlink_node-Removed :
    (m : Nodes) (p n node : ℕ)
    → m.next node ≡ n
    → m.prev node ≡ p
    → Removed m (unlink_node m node) p n node
unfolding unlink_node
unlink_node-Removed m p n node e f = record {
  next_lem = λ x. rw (if_same (m.next node == node), e, f);
  prev_lem = λ x. rw (e, f);
}

-- `unlink` takes an element off, wherever it stands in the list.
pub unlink-Takes :
    (m : Nodes) (l : IntrusiveDList) (node : ℕ) (us vs : List ℕ)
    → IsCircle m l (us ++ (node ∷ vs))
    → Takes l node (us ++ vs) (unlink m l node)
unfolding unlink
unlink-Takes m l node us vs h =
    let (e, f) = Linked-ends m node l.root l.root us vs h.circle in
    let removed = unlink_node-Removed m (last_or l.root us) (first_or l.root vs) node e f in
    record {
      nodes = unlink_node m node;
      list = record l { count = l.count - 1 };
      returns = rw (pos→ne l.count (omega (arith, h.counted, length-append us (node ∷ vs))));
      same_root = refl;
      holds = record {
        circle =
            Linked-Removed m (unlink_node m node) node l.root l.root us vs removed h.circle
              h.distinct (h.distinct.0);
        distinct = (
          (Absent-middle l.root node us vs (h.distinct.0)).1,
          Distinct-remove node us vs (h.distinct.1),
        );
        counted = omega (arith, h.counted, length-append us vs, length-append us (node ∷ vs));
      };
      next_itself = removed.next_lem node ∙ rw (==-refl node);
      prev_itself = removed.prev_lem node ∙ rw (==-refl node);
    }

-- `pop_front` takes the first element off.
pub pop_front-Takes :
    (m : Nodes) (l : IntrusiveDList) (x : ℕ) (xs : List ℕ)
    → IsCircle m l (x ∷ xs)
    → Takes l x xs (pop_front m l)
unfolding pop_front unlink
pop_front-Takes m l x xs h = rw (h.circle.0) (unlink-Takes m l x [] xs h)

-- `pop_back` takes the last element off.
pub pop_back-Takes :
    (m : Nodes) (l : IntrusiveDList) (x : ℕ) (xs : List ℕ)
    → IsCircle m l (xs ++ (x ∷ []))
    → Takes l x xs (pop_back m l)
unfolding pop_back unlink
pop_back-Takes m l x xs h =
    rw
      (
        Linked-prev m l.root l.root (xs ++ (x ∷ [])) [] (rw (++-[] (xs ++ (x ∷ []))) h.circle),
        last_or-snoc l.root x xs,
      )
      (subst (λ ys. Takes l x ys (unlink m l x)) (++-[] xs) (unlink-Takes m l x xs [] h))
