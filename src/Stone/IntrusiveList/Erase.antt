-- ===== src/Stone/IntrusiveList/Erase.antt =====
-- `IntrusiveDList`: `erase` and `clear`, with and without the deletion of the elements.
use recommender.Prelude.{
  ℕ, zero, suc, ◌-◌, ◌<◌, ◌≡◌, refl, ◌∙◌, Bool, true, false, List, [], ◌∷◌, ◌++◌, arith, ◌==◌,
  ==-refl, if◌then◌else◌, length, length-append, pos→ne,
}
use recommender.Run.{Run, ok}
use recommender.Stone.IntrusiveList.Circle.{
  IsCircle, Linked-ends, ==-flip, first_or, Removed, Linked-Removed, Absent-middle,
}
use recommender.Stone.IntrusiveList.Doubly.{Nodes, IntrusiveDList, begin, unlink_node, erase, clear}
use recommender.Stone.IntrusiveList.Operations.{unlink_node-Removed, Distinct-remove}
use recommender.Stone.IntrusiveList.Sequence.{last_or}

-- What `erase` leaves: the elements `xs`, and the iterator `it`.
pub record Erases (l : IntrusiveDList) (it : ℕ) (xs : List ℕ) (r : Run (Nodes × IntrusiveDList × ℕ))
    : Type 0 where
  pub nodes : Nodes
  pub list : IntrusiveDList
  pub returns : r ≡ ok (nodes, list, it)
  pub same_root : list.root ≡ l.root
  pub holds : IsCircle nodes list xs

if_again :
    (b : Bool) (u v w : ℕ)
    → (if b then u else if b then v else if b then u else w) ≡ (if b then u else w)
if_again true u v w = refl
if_again false u v w = refl

-- To unlink a node twice is to unlink it once.
twice-Removed :
    (m m' : Nodes) (p n node : ℕ) → Removed m m' p n node → Removed m (unlink_node m' node) p n node
twice-Removed m m' p n node r =
    let again =
      unlink_node-Removed m' node node node (r.next_lem node ∙ rw (==-refl node))
        (r.prev_lem node ∙ rw (==-refl node)) in
    record {
      next_lem = λ x. again.next_lem x ∙ rw (r.next_lem x) (if_again (node == x) node node _);
      prev_lem = λ x. again.prev_lem x ∙ rw (r.prev_lem x) (if_again (node == x) node node _);
    }

erased-Removed :
    (auto_delete : Bool) (m m' : Nodes) (p n node : ℕ)
    → Removed m m' p n node
    → Removed m (if auto_delete then unlink_node m' node else m') p n node
erased-Removed true m m' p n node r = twice-Removed m m' p n node r
erased-Removed false m m' p n node r = r

-- `erase` takes the element at the iterator off the list, whether the element is deleted or not, and
-- returns an iterator to the element behind it, or the end.
pub erase-Erases :
    (auto_delete : Bool) (m : Nodes) (l : IntrusiveDList) (node : ℕ) (us vs : List ℕ)
    → IsCircle m l (us ++ (node ∷ vs))
    → Erases l (first_or l.root vs) (us ++ vs) (erase auto_delete m l node)
unfolding erase
erase-Erases auto_delete m l node us vs h =
    let (e, f) = Linked-ends m node l.root l.root us vs h.circle in
    let removed =
      erased-Removed auto_delete m (unlink_node m node) (last_or l.root us) (first_or l.root vs)
        node (unlink_node-Removed m (last_or l.root us) (first_or l.root vs) node e f) in
    record {
      nodes = if auto_delete then unlink_node (unlink_node m node) node else unlink_node m node;
      list = record l { count = l.count - 1 };
      returns = rw (
        ==-flip l.root node ((Absent-middle l.root node us vs (h.distinct.0)).0),
        pos→ne l.count (omega (arith, h.counted, length-append us (node ∷ vs))),
        e,
      );
      same_root = refl;
      holds = record {
        circle =
            Linked-Removed m _ node l.root l.root us vs removed h.circle h.distinct (h.distinct.0);
        distinct = (
          (Absent-middle l.root node us vs (h.distinct.0)).1,
          Distinct-remove node us vs (h.distinct.1),
        );
        counted = omega (arith, h.counted, length-append us vs, length-append us (node ∷ vs));
      };
    }

-- `erase` at the end changes nothing.
pub erase-end :
    (auto_delete : Bool) (m : Nodes) (l : IntrusiveDList)
    → erase auto_delete m l l.root ≡ ok (m, l, l.root)
unfolding erase
erase-end auto_delete m l = rw (==-refl l.root)

begin-first :
    (m : Nodes) (l : IntrusiveDList) (xs : List ℕ)
    → IsCircle m l xs
    → begin m l ≡ first_or l.root xs
begin-first m l [] h = h.circle.0
begin-first m l (x ∷ xs) h = h.circle.0

clear-from :
    (k : ℕ) (auto_delete : Bool) (m : Nodes) (l : IntrusiveDList) (root it : ℕ) (xs : List ℕ)
    → IsCircle m l xs
    → l.root ≡ root
    → it ≡ first_or root xs
    → length xs < k
    → (m' : Nodes) × (clear k auto_delete m l it ≡ ok (m', record { root = root; count = 0 }))
      × IsCircle m' (record { root = root; count = 0 }) []
unfolding clear
clear-from zero auto_delete m l root it xs h same at short = absurd (omega arith)
clear-from (suc k) auto_delete m l root it [] h same at short = (
  m,
  rw (at, same, ==-refl root) (λ i. ok (m, record { root = root; count = h.counted i })),
  rw (← same) record { circle = h.circle; distinct = (tt, tt); counted = refl },
)
clear-from (suc k) auto_delete m l root it (x ∷ xs) h same at short =
    let step = erase-Erases auto_delete m l x [] xs h in
    let (m', e, left) =
      clear-from k auto_delete step.nodes step.list root (first_or l.root xs) xs step.holds
        (step.same_root ∙ same) (rw same) (omega arith) in
    (m', rw (at, ==-flip l.root x (h.distinct.0.0), step.returns) e, left)

-- `clear` ends and leaves an empty list on the same root, whether the elements are deleted or not.
pub clear-empty :
    (k : ℕ) (auto_delete : Bool) (m : Nodes) (l : IntrusiveDList) (xs : List ℕ)
    → IsCircle m l xs
    → length xs < k
    → (m' : Nodes) × (clear k auto_delete m l (begin m l)
        ≡ ok (m', record { root = l.root; count = 0 }))
      × IsCircle m' (record { root = l.root; count = 0 }) []
clear-empty k auto_delete m l xs h short =
    clear-from k auto_delete m l l.root (begin m l) xs h refl (begin-first m l xs h) short
