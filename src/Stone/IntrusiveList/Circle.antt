-- ===== src/Stone/IntrusiveList/Circle.antt =====
-- The doubly linked list as a sequence of elements: what each operation does to it.
use recommender.Prelude.{
  ℕ, ◌≡◌, refl, ◌∙◌, ap, false, List, [], ◌∷◌, ◌++◌, arith, ◌==◌, ==-refl, if◌then◌else◌, length,
}
use recommender.Stone.IntrusiveList.Doubly.{Nodes, IntrusiveDList, create}
use recommender.Stone.IntrusiveList.Sequence.{Absent, last_or}

-- From `a` the nodes `xs` follow one another up to `z`, both ways.
abbrev pub Linked : Nodes → ℕ → List ℕ → ℕ → Type 0
Linked m a [] z = (m.next a ≡ z) × (m.prev z ≡ a)
Linked m a (x ∷ xs) z = (m.next a ≡ x) × (m.prev x ≡ a) × Linked m x xs z

abbrev pub AllNodes : (ℕ → Type 0) → List ℕ → Type 0
AllNodes P [] = Unit {0}
AllNodes P (x ∷ xs) = P x × AllNodes P xs

abbrev pub Distinct : List ℕ → Type 0
Distinct [] = Unit {0}
Distinct (x ∷ xs) = Absent x xs × Distinct xs

-- The list holds the elements `xs`: with the root they form a circle of distinct nodes.
pub record IsCircle (m : Nodes) (l : IntrusiveDList) (xs : List ℕ) : Type 0 where
  pub circle : Linked m l.root xs l.root
  pub distinct : Distinct (l.root ∷ xs)
  pub counted : l.count ≡ length xs

pub create-IsCircle : (m : Nodes) (root : ℕ) → let (m', l) = create m root in IsCircle m' l []
unfolding create
create-IsCircle m root = record {
  circle = (rw (==-refl root), rw (==-refl root));
  distinct = (tt, tt);
  counted = refl;
}

abbrev pub first_or : ℕ → List ℕ → ℕ
first_or d [] = d
first_or d (x ∷ xs) = x

-- Two memories with the same pointers at the nodes of a path.
pub Linked-frame :
    (m m' : Nodes) (a z : ℕ) (xs : List ℕ)
    → Linked m a xs z
    → AllNodes (λ x. m'.next x ≡ m.next x) (a ∷ xs)
    → AllNodes (λ x. m'.prev x ≡ m.prev x) xs
    → m'.prev z ≡ m.prev z
    → Linked m' a xs z
Linked-frame m m' a z [] (e, f) hn hp hz = (hn.0 ∙ e, hz ∙ f)
Linked-frame m m' a z (x ∷ xs) (e, f, c) hn hp hz =
    (hn.0 ∙ e, hp.0 ∙ f, Linked-frame m m' x z xs c (hn.1) (hp.1) hz)

pub AllNodes-Absent :
    (P : ℕ → Type 0) (p q : ℕ) (xs : List ℕ)
    → ((x : ℕ) → (p == x) ≡ false → (q == x) ≡ false → P x)
    → Absent p xs
    → Absent q xs
    → AllNodes P xs
AllNodes-Absent P p q [] h ap aq = tt
AllNodes-Absent P p q (x ∷ xs) h ap aq =
    (h x (ap.0) (aq.0), AllNodes-Absent P p q xs h (ap.1) (aq.1))

last-Absent : (a x : ℕ) (xs : List ℕ) → Absent a (x ∷ xs) → (last_or x xs == a) ≡ false
last-Absent a x [] h = ground (arith, h.0)
last-Absent a x (y ∷ ys) h = last-Absent a y ys (h.1)

Absent-front : (a : ℕ) (xs ys : List ℕ) → Absent a (xs ++ ys) → Absent a xs
Absent-front a [] ys h = tt
Absent-front a (x ∷ xs) ys h = (h.0, Absent-front a xs ys (h.1))

first-Absent :
    (u z : ℕ) (us vs : List ℕ)
    → Absent u (us ++ vs)
    → (u == z) ≡ false
    → (first_or z vs == u) ≡ false
first-Absent u z [] [] h e = ground arith
first-Absent u z [] (v ∷ vs) h e = ground (arith, h.0)
first-Absent u z (x ∷ us) vs h e = first-Absent u z us vs (h.1) e

pub ==-flip : (a b : ℕ) → (a == b) ≡ false → (b == a) ≡ false
==-flip a b h = ground arith

pub Absent-middle :
    (a node : ℕ) (us vs : List ℕ)
    → Absent a (us ++ (node ∷ vs))
    → ((a == node) ≡ false) × Absent a (us ++ vs)
Absent-middle a node [] vs h = (h.0, h.1)
Absent-middle a node (u ∷ us) vs h =
    let (e, out) = Absent-middle a node us vs (h.1) in (e, (h.0, out))

-- What the insertion of `node` between `p` and `c` makes of the pointers.
pub record Inserted (m m' : Nodes) (p c node : ℕ) : Type 0 where
  pub next_lem : (x : ℕ) → m'.next x ≡ (if p == x then node else if node == x then c else m.next x)
  pub prev_lem : (x : ℕ) → m'.prev x ≡ (if c == x then node else if node == x then p else m.prev x)

pub Linked-Inserted :
    (m m' : Nodes) (node a z : ℕ) (us vs : List ℕ)
    → Inserted m m' (last_or a us) (first_or z vs) node
    → Linked m a (us ++ vs) z
    → Distinct (a ∷ (us ++ vs))
    → Absent z (us ++ vs)
    → Absent node (a ∷ (us ++ vs))
    → (node == z) ≡ false
    → Linked m' a (us ++ (node ∷ vs)) z
Linked-Inserted m m' node a z [] [] i (e, f) d az an nz = (
  i.next_lem a ∙ rw (==-refl a),
  i.prev_lem node ∙ ground (arith, an.0),
  (i.next_lem node ∙ ground (arith, an.0), i.prev_lem z ∙ rw (==-refl z)),
)
Linked-Inserted m m' node a z [] (v ∷ vs) i (e, f, c) d az an nz = (
  i.next_lem a ∙ rw (==-refl a),
  i.prev_lem node ∙ ground (arith, an.1.0),
  (
    i.next_lem node ∙ ground (arith, an.0),
    i.prev_lem v ∙ rw (==-refl v),
    Linked-frame m m' v z vs c
        (AllNodes-Absent _ a node (v ∷ vs) (λ x e1 e2. i.next_lem x ∙ rw (e1, e2)) (d.0) (an.1))
        (AllNodes-Absent _ v node vs (λ x e1 e2. i.prev_lem x ∙ rw (e1, e2)) (d.1.0) (an.1.1))
        (i.prev_lem z ∙ ground (arith, az.0)),
  ),
)
Linked-Inserted m m' node a z (u ∷ us) vs i (e, f, c) d az an nz = (
  i.next_lem a ∙ rw (last-Absent a u us (Absent-front a (u ∷ us) vs (d.0)), an.0, e),
  i.prev_lem u ∙ rw (first-Absent u z us vs (d.1.0) (ground (arith, az.0)), an.1.0, f),
  Linked-Inserted m m' node u z us vs i c (d.1) (az.1) (an.1) nz,
)

-- What the removal of `node` from between `p` and `n` makes of the pointers.
pub record Removed (m m' : Nodes) (p n node : ℕ) : Type 0 where
  pub next_lem : (x : ℕ) → m'.next x ≡ (if node == x then node else if p == x then n else m.next x)
  pub prev_lem : (x : ℕ) → m'.prev x ≡ (if node == x then node else if n == x then p else m.prev x)

pub Linked-Removed :
    (m m' : Nodes) (node a z : ℕ) (us vs : List ℕ)
    → Removed m m' (last_or a us) (first_or z vs) node
    → Linked m a (us ++ (node ∷ vs)) z
    → Distinct (a ∷ (us ++ (node ∷ vs)))
    → Absent z (us ++ (node ∷ vs))
    → Linked m' a (us ++ vs) z
Linked-Removed m m' node a z [] [] i (e, f, c) d az =
    (i.next_lem a ∙ ground (arith, d.0.0), i.prev_lem z ∙ ground (arith, az.0))
Linked-Removed m m' node a z [] (v ∷ vs) i (e, f, c) d az = (
  i.next_lem a ∙ ground (arith, d.0.0),
  i.prev_lem v ∙ ground (arith, d.1.0.0),
  Linked-frame m m' v z vs (c.2)
      (AllNodes-Absent _ node a (v ∷ vs) (λ x e1 e2. i.next_lem x ∙ rw (e1, e2)) (d.1.0) (d.0.1))
      (AllNodes-Absent _ node v vs (λ x e1 e2. i.prev_lem x ∙ rw (e1, e2)) (d.1.0.1) (d.1.1.0))
      (i.prev_lem z ∙ ground (arith, az.0, az.1.0)),
)
Linked-Removed m m' node a z (u ∷ us) vs i (e, f, c) d az =
    let (ne, out) = Absent-middle a node (u ∷ us) vs (d.0) in
    let (ne', out') = Absent-middle u node us vs (d.1.0) in
    (
      i.next_lem a ∙ rw (==-flip a node ne, last-Absent a u us (Absent-front a (u ∷ us) vs out), e),
      i.prev_lem u ∙ rw (==-flip u node ne', first-Absent u z us vs out' (==-flip z u (az.0)), f),
      Linked-Removed m m' node u z us vs i c (d.1) (az.1),
    )

pub Linked-ends :
    (m : Nodes) (node a z : ℕ) (us vs : List ℕ)
    → Linked m a (us ++ (node ∷ vs)) z
    → (m.next node ≡ first_or z vs) × (m.prev node ≡ last_or a us)
Linked-ends m node a z [] [] (e, f, c) = (c.0, f)
Linked-ends m node a z [] (v ∷ vs) (e, f, c) = (c.0, f)
Linked-ends m node a z (u ∷ us) vs (e, f, c) = Linked-ends m node u z us vs c

pub Linked-prev :
    (m : Nodes) (a z : ℕ) (us vs : List ℕ)
    → Linked m a (us ++ vs) z
    → m.prev (first_or z vs) ≡ last_or a us
Linked-prev m a z [] [] c = c.1
Linked-prev m a z [] (v ∷ vs) c = c.1
Linked-prev m a z (u ∷ us) vs c = Linked-prev m u z us vs (c.2)
