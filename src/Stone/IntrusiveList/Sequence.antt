-- ===== src/Stone/IntrusiveList/Sequence.antt =====
-- The list as a sequence of elements: what each operation does to it.
use recommender.Prelude.{
  ◌^◌, not_le→leb, ℕ, zero, suc, ◌+◌, ◌-◌, ◌<◌, ◌≡◌, refl, sym, false, List, [], ◌∷◌, ◌++◌, arith,
  ◌==◌, ==-refl, if◌then◌else◌, length, length-append, pos→ne, ne→==, eq→==,
}
use recommender.Run.{Run, ok}
use recommender.Stone.IntrusiveList.{
  Links, write, IntrusiveList, create, empty, push_front, pop_front, push_back, clear, advance,
  visit,
}

abbrev pub Absent : ℕ → List ℕ → Type 0
Absent a [] = Unit {0}
Absent a (x ∷ xs) = ((a == x) ≡ false) × Absent a xs

-- From `p` the `next` pointers lead through the distinct nodes `xs` to null.
abbrev pub Chain : Links → ℕ → List ℕ → Type 0
Chain m p [] = p ≡ 0
Chain m p (x ∷ xs) = (p ≡ x) × ((x == 0) ≡ false) × Absent x xs × Chain m (m x) xs

abbrev pub last_or : ℕ → List ℕ → ℕ
last_or d [] = d
last_or d (x ∷ xs) = last_or x xs

-- The list holds the elements `xs`, in order.
pub record IsList (m : Links) (l : IntrusiveList) (xs : List ℕ) : Type 0 where
  pub chain : Chain m l.head xs
  pub last : l.tail ≡ last_or 0 xs
  pub counted : l.count ≡ length xs

-- What an operation leaves: the list holds `xs`, and only the nodes `ns` were written.
pub record Leaves (m : Links) (ns xs : List ℕ) (r : Run (Links × IntrusiveList)) : Type 0 where
  pub links : Links
  pub list : IntrusiveList
  pub returns : r ≡ ok (links, list)
  pub holds : IsList links list xs
  pub kept : (a : ℕ) → Absent a ns → links a ≡ m a

Chain-write :
    (m : Links) (p q v : ℕ) (xs : List ℕ) → Absent q xs → Chain m p xs → Chain (write m q v) p xs
Chain-write m p q v [] h c = c
Chain-write m p q v (x ∷ xs) h (e, ne, out, c) =
    (e, ne, out, rw (h.0) (Chain-write m (m x) q v xs (h.1) c))

pub create-IsList : (m : Links) → IsList m create []
create-IsList m = record { chain = refl; last = refl; counted = refl }

-- `push_front` puts a node that is not in the list before the others, and writes that node alone, if
-- there were fewer than 2 ^ 31 - 1 of them.
pub push_front-cons :
    (m : Links) (l : IntrusiveList) (node : ℕ) (xs : List ℕ)
    → IsList m l xs
    → (node == 0) ≡ false
    → Absent node xs
    → length xs + 1 < 2 ^ 31
    → Leaves m (node ∷ []) (node ∷ xs) (push_front m l node)
unfolding push_front
push_front-cons m l node xs h ne out few = record {
  links = write m node l.head;
  list = record {
    head = node;
    tail = if l.count + 1 == 1 then node else l.tail;
    count = l.count + 1;
  };
  returns = rw (ne, not_le→leb (2 ^ 31) (l.count + 1) (omega (arith, h.counted, few)));
  holds = record {
    chain = (refl, ne, out, rw (==-refl node) (Chain-write m l.head node l.head xs out h.chain));
    last = tail_lem xs h.last h.counted;
    counted = omega (arith, h.counted);
  };
  kept = λ a out. ground (arith, out.0);
}
  where
    tail_lem :
        (xs : List ℕ)
        → l.tail ≡ last_or 0 xs
        → l.count ≡ length xs
        → (if l.count + 1 == 1 then node else l.tail) ≡ last_or node xs
    tail_lem [] e c = rw c
    tail_lem (x ∷ xs) e c = rw (ne→== (l.count + 1) 1 (omega arith)) e

-- `pop_front` on a list that is not empty takes the first node off and writes that node alone.
pub pop_front-tail :
    (m : Links) (l : IntrusiveList) (x : ℕ) (xs : List ℕ)
    → IsList m l (x ∷ xs)
    → Leaves m (x ∷ []) xs (pop_front m l)
unfolding pop_front
pop_front-tail m l x xs h = record {
  links = write m l.head 0;
  list = record {
    head = m l.head;
    tail = if l.count - 1 == 0 then 0 else l.tail;
    count = l.count - 1;
  };
  returns = rw (h.chain.0, h.chain.1, pos→ne l.count (omega (arith, h.counted)));
  holds = record {
    chain = let (e, ne, out, c) = h.chain in rw e (Chain-write m (m x) x 0 xs out c);
    last = tail_lem xs h.last h.counted;
    counted = omega (arith, h.counted);
  };
  kept = λ a out. ground (arith, h.chain.0, out.0);
}
  where
    tail_lem :
        (xs : List ℕ)
        → l.tail ≡ last_or x xs
        → l.count ≡ suc (length xs)
        → (if l.count - 1 == 0 then 0 else l.tail) ≡ last_or 0 xs
    tail_lem [] e c = rw c
    tail_lem (y ∷ ys) e c = rw (ne→== (l.count - 1) 0 (omega arith)) e

last-ne : (a y : ℕ) (ys : List ℕ) → Absent a (y ∷ ys) → (last_or y ys == a) ≡ false
last-ne a y [] h = ground (arith, h.0)
last-ne a y (z ∷ zs) h = last-ne a z zs (h.1)

Absent-snoc :
    (a node : ℕ) (xs : List ℕ) → Absent a xs → (a == node) ≡ false → Absent a (xs ++ (node ∷ []))
Absent-snoc a node [] h e = (e, tt)
Absent-snoc a node (x ∷ xs) h e = (h.0, Absent-snoc a node xs (h.1) e)

Chain-snoc :
    (m : Links) (node p x : ℕ) (xs : List ℕ)
    → Chain m p (x ∷ xs)
    → (node == 0) ≡ false
    → m node ≡ 0
    → Absent node (x ∷ xs)
    → Chain (write m (last_or x xs) node) p (x ∷ (xs ++ (node ∷ [])))
Chain-snoc m node p x [] (e, ne, out, c) nn free absent =
    (e, ne, (ground (arith, absent.0), tt), rw (==-refl x) (refl, nn, tt, ground (arith, absent.0)))
Chain-snoc m node p x (y ∷ ys) (e, ne, out, c) nn free absent = (
  e,
  ne,
  Absent-snoc x node (y ∷ ys) out (ground (arith, absent.0)),
  rw (last-ne x y ys out) (Chain-snoc m node (m x) y ys c nn free (absent.1)),
)

pub last_or-snoc : (d node : ℕ) (xs : List ℕ) → last_or d (xs ++ (node ∷ [])) ≡ node
last_or-snoc d node [] = refl
last_or-snoc d node (x ∷ xs) = last_or-snoc x node xs

last-ne_null :
    (m : Links) (p x : ℕ) (xs : List ℕ) → Chain m p (x ∷ xs) → (last_or x xs == 0) ≡ false
last-ne_null m p x [] c = c.1
last-ne_null m p x (y ∷ ys) c = last-ne_null m (m x) y ys (c.3)

-- `push_back` puts an unlinked node that is not in the list behind the others, and writes the last
-- node alone, if there were fewer than 2 ^ 31 - 1 of them.
pub push_back-snoc :
    (m : Links) (l : IntrusiveList) (node : ℕ) (xs : List ℕ)
    → IsList m l xs
    → (node == 0) ≡ false
    → m node ≡ 0
    → Absent node xs
    → length xs + 1 < 2 ^ 31
    → Leaves m (l.tail ∷ []) (xs ++ (node ∷ [])) (push_back m l node)
unfolding push_back
push_back-snoc m l node [] h nn free absent few = record {
  links = m;
  list = record { head = node; tail = node; count = l.count + 1 };
  returns =
      rw (h.last, not_le→leb (2 ^ 31) (l.count + 1) (omega (arith, h.counted, few)), h.counted);
  holds = record { chain = (refl, nn, tt, free); last = refl; counted = omega (arith, h.counted) };
  kept = λ a out. refl;
}
push_back-snoc m l node (x ∷ xs) h nn free absent few = record {
  links = write m (last_or x xs) node;
  list = record { head = l.head; tail = node; count = l.count + 1 };
  returns = rw (
    h.last,
    last-ne_null m l.head x xs h.chain,
    not_le→leb (2 ^ 31) (l.count + 1) (omega (arith, h.counted, few)),
    ne→== (l.count + 1) 1 (omega (arith, h.counted)),
  );
  holds = record {
    chain = Chain-snoc m node l.head x xs h.chain nn free absent;
    last = sym (last_or-snoc x node xs);
    counted = omega (arith, h.counted, length-append xs (node ∷ []));
  };
  kept = λ a out. ground (arith, h.last, out.0);
}

-- Iteration visits the elements in order, and ends.
pub visit-all :
    (k : ℕ) (m : Links) (p : ℕ) (xs : List ℕ) → Chain m p xs → length xs < k → visit k m p ≡ ok xs
unfolding visit advance
visit-all zero m p xs c short = absurd (omega arith)
visit-all (suc k) m p [] c short = rw c
visit-all (suc k) m p (x ∷ xs) (e, ne, out, c) short =
    rw (e, ne) (rw (visit-all k m (m x) xs c (omega arith)))

-- `clear` deletes the elements from front to back, each once, and leaves the empty list.
pub clear-all :
    (k : ℕ) (m : Links) (l : IntrusiveList) (xs : List ℕ)
    → IsList m l xs
    → length xs < k
    → (m' : Links) × (clear k m l ≡ ok (xs, m', create))
unfolding clear empty
clear-all zero m l xs h short = absurd (omega arith)
clear-all (suc k) m l [] h short = (
  m,
  rw (eq→== l.count 0 h.counted)
      (λ i. ok ([], m, record { head = h.chain i; tail = h.last i; count = h.counted i })),
)
clear-all (suc k) m l (x ∷ xs) h short =
    let (e, ne, out, c) = h.chain in
    let step = pop_front-tail m l x xs h in
    let again : IsList (write step.links x 0) step.list xs = record {
      chain = Chain-write step.links step.list.head x 0 xs out step.holds.chain;
      last = step.holds.last;
      counted = step.holds.counted;
    } in
    let (m', rest) = clear-all k (write step.links x 0) step.list xs again (omega arith) in
    (m', rw (pos→ne l.count (omega (arith, h.counted)), step.returns, e, ne, rest))
