-- ===== src/Stone/LockFree/Queue/Moves.antt =====
-- The steps of the lock-free queue that leave its ends and the free list as they are, and what they keep.
use recommender.Prelude.{
  ℕ, zero, suc, ◌+◌, ◌-◌, ◌≤◌, ◌<◌, ◌≡◌, refl, ◌∙◌, ap, inl, arith, false, some, List, [], ◌∷◌,
  ◌++◌, ◌==◌,
}
use recommender.Stone.IntrusiveList.Sequence.{Absent, Chain}
use recommender.Stone.LockFree.{get_pointer, get_tag}
use recommender.Stone.LockFree.Queue.{LockFreeQueue, Pc}
use recommender.Stone.LockFree.Queue.Invariant.{Ghost, IsLink, IsOut, IsSound, owner, Knows}
use recommender.Stone.LockFree.Queue.Rely.{Rely}
use recommender.Stone.LockFree.Queue.Positions.{rank}

-- The values of a function from `i` on.
abbrev pub span {ℓ} : {A : Type ℓ} → (ℕ → A) → ℕ → ℕ → List A
span f i zero = []
span f i (suc n) = f i ∷ span f (i + 1) n

pub span-ext {ℓ} :
    {A : Type ℓ} (f f' : ℕ → A) (i n : ℕ)
    → ((j : ℕ) → i ≤ j → j < i + n → f' j ≡ f j)
    → span f' i n ≡ span f i n
span-ext f f' i zero h = refl
span-ext f f' i (suc n) h =
    ap (λ x. x ∷ span f' (i + 1) n) (h i (omega arith) (omega arith))
    ∙ ap (λ l. f i ∷ l)
        (span-ext f f' (i + 1) n (λ j le lt. h j (omega (arith, le)) (omega (arith, lt))))

pub span-snoc {ℓ} :
    {A : Type ℓ} (f : ℕ → A) (i n : ℕ) → span f i (suc n) ≡ (span f i n ++ (f (i + n) ∷ []))
span-snoc f i zero = ap (λ j. f j ∷ []) (omega arith)
span-snoc f i (suc n) =
    ap (λ l. f i ∷ l)
      (span-snoc f (i + 1) n ∙ ap (λ j. span f (i + 1) n ++ (f j ∷ [])) (omega arith))

pub Chain-ext :
    (m m' : ℕ → ℕ) (p k : ℕ) (xs : List ℕ)
    → ((a : ℕ) → (k == a) ≡ false → m' a ≡ m a)
    → Absent k xs
    → Chain m p xs
    → Chain m' p xs
Chain-ext m m' p k [] same out c = c
Chain-ext m m' p k (x ∷ xs) same out (e, ne, ab, c) =
    (e, ne, ab, rw (same x (out.0)) (Chain-ext m m' (m x) k xs same (out.1) c))

Absent-zero : (m : ℕ → ℕ) (p : ℕ) (xs : List ℕ) → Chain m p xs → Absent 0 xs
Absent-zero m p [] c = tt
Absent-zero m p (x ∷ xs) (e, ne, ab, c) = (ground (arith, ne), Absent-zero m (m x) xs c)

pub Chain-other :
    (m : ℕ → ℕ) (p k : ℕ) (xs : List ℕ)
    → Absent k xs
    → (k == 0) ≡ false
    → Chain m p xs
    → (k == p) ≡ false
Chain-other m p k [] out ne c = rw c ne
Chain-other m p k (x ∷ xs) out ne (e, _, _, _) = rw e (out.0)

module _ {A : Type 0} where
  -- The elements in the queue, in the order in which they leave.
  abbrev pub contents : LockFreeQueue A → Ghost → List A
  contents s g = span (λ i. s.value (g.at i)) (g.first + 1) (g.last - g.first)

  -- What a thread `q` other than `pc` has to itself.
  abbrev pub Foreign : Pc A → Pc A → Ghost → List ℕ → Type 0
  Foreign pc q g used =
      (k : ℕ) → owner q ≡ some k → IsOut g used k × ((j : ℕ) → owner pc ≡ some j → (j == k) ≡ false)

  -- The elements before and after a step: the exchange of `Push` puts its element at the end, the
  -- exchange of `Pop` takes the first one off, and no other step changes them. `Pop` reads the same word
  -- from both ends only where there is no element.
  abbrev pub Effect : Pc A → Pc A → List A → List A → Type 0
  Effect (Pc.push_exchange v k t) (Pc.push_prev j w) c c' = c' ≡ (c ++ (v ∷ []))
  Effect (Pc.pop_exchange h p v) (Pc.release_value k w) c c' = (c ≡ (v ∷ c')) × (w ≡ v)
  Effect (Pc.pop_tail h) (Pc.pop_prev h' t) c c' = (c' ≡ c) × (t ≡ h → c ≡ [])
  Effect pc pc' c c' = c' ≡ c

  -- What a step from `pc` leaves.
  pub record Moves (s : LockFreeQueue A) (pc : Pc A) (g : Ghost) (used used' : List ℕ)
      (r : LockFreeQueue A × Pc A) : Type 0 where
    pub ghost : Ghost
    pub sound : IsSound r.0 ghost used'
    pub knows : Knows r.0 ghost r.1
    pub owned : (k : ℕ) → owner r.1 ≡ some k → IsOut ghost used' k
    pub others : (q : Pc A) → Foreign pc q g used → Rely s r.0 g ghost q × Foreign r.1 q ghost used'
    pub effect : Effect pc r.1 (contents s g) (contents r.0 ghost)
    pub last_grown : ghost.last ≤ g.last + 1
    pub free_grown : rank (get_tag r.0.free_node_head) ≤ rank (get_tag s.free_node_head) + 1

  -- A state with the same memory, but for the nodes that a thread has to itself.
  pub record IsQuiet (s s' : LockFreeQueue A) (g : Ghost) (pc : Pc A) (used : List ℕ) : Type 0 where
    pub head : s'.head ≡ s.head
    pub tail : s'.tail ≡ s.tail
    pub free_node_head : s'.free_node_head ≡ s.free_node_head
    pub first_free :
        s'.next_free_node (get_pointer s.free_node_head)
        ≡ s.next_free_node (get_pointer s.free_node_head)
    pub link : (a : ℕ) → IsLink g a (s'.prev a)
    pub k : ℕ
    pub not_free : Absent k g.free
    pub not_live : (i : ℕ) → g.first ≤ i → i ≤ g.last → (k == g.at i) ≡ false
    pub not_foreign :
        (j : ℕ)
        → IsOut g used j
        → ((l : ℕ) → owner pc ≡ some l → (l == j) ≡ false)
        → (k == j) ≡ false
    pub value : (a : ℕ) → (k == a) ≡ false → s'.value a ≡ s.value a
    pub next : (a : ℕ) → (k == a) ≡ false → s'.next a ≡ s.next a
    pub next_free_node : (a : ℕ) → (k == a) ≡ false → s'.next_free_node a ≡ s.next_free_node a

  pub contents-quiet :
      (s s' : LockFreeQueue A) (g : Ghost) (pc : Pc A) (used : List ℕ)
      → IsSound s g used
      → IsQuiet s s' g pc used
      → contents s' g ≡ contents s g
  contents-quiet s s' g pc used i w =
      span-ext (λ j. s.value (g.at j)) (λ j. s'.value (g.at j)) (g.first + 1) (g.last - g.first)
        (λ j le lt.
          w.value (g.at j) (w.not_live j (omega (arith, le)) (omega (arith, le, lt, i.ordered))))

  pub quiet-IsSound :
      (s s' : LockFreeQueue A) (g : Ghost) (pc : Pc A) (used : List ℕ)
      → IsSound s g used
      → IsQuiet s s' g pc used
      → IsSound s' g used
  quiet-IsSound s s' g pc used i w = record {
    free_chain = rw (w.free_node_head) (
        Chain-ext s.next_free_node s'.next_free_node _ w.k g.free w.next_free_node w.not_free
          i.free_chain);
    free_addresses = i.free_addresses;
    head_word = w.head ∙ i.head_word;
    tail_word = w.tail ∙ i.tail_word;
    ordered = i.ordered;
    few = i.few;
    addresses = i.addresses;
    linked = λ j le lt.
        w.next (g.at (j + 1)) (w.not_live (j + 1) (omega (arith, le)) (omega (arith, lt)))
        ∙ i.linked j le lt;
    links = w.link;
    distinct = i.distinct;
    apart = i.apart;
    in_use = i.in_use;
  }

  pub quiet-Rely :
      (s s' : LockFreeQueue A) (g : Ghost) (pc q : Pc A) (used : List ℕ)
      → IsSound s g used
      → IsQuiet s s' g pc used
      → Foreign pc q g used
      → Rely s s' g g q
  quiet-Rely s s' g pc q used i w f = record {
    ordered = i.ordered;
    first_le = omega arith;
    last_le = omega arith;
    same_at = λ j le. refl;
    free_word = inl (w.free_node_head, w.first_free);
    values = λ j lt le. w.value (g.at j) (w.not_live j (omega (arith, lt)) le);
    node = λ j e.
        let out = w.not_foreign j ((f j e).0) ((f j e).1) in
        (w.value j out, w.next j out, w.next_free_node j out);
  }

  -- A quiet step, after which the thread has no other node.
  pub quiet-Moves :
      (s s' : LockFreeQueue A) (pc pc' : Pc A) (g : Ghost) (used : List ℕ)
      → IsSound s g used
      → ((k : ℕ) → owner pc ≡ some k → IsOut g used k)
      → IsQuiet s s' g pc used
      → Knows s' g pc'
      → ((k : ℕ) → owner pc' ≡ some k → owner pc ≡ some k)
      → Effect pc pc' (contents s g) (contents s g)
      → Moves s pc g used used (s', pc')
  quiet-Moves s s' pc pc' g used i own w kn same eff = record {
    ghost = g;
    sound = quiet-IsSound s s' g pc used i w;
    knows = kn;
    owned = λ k e. own k (same k e);
    others = λ q f.
        (quiet-Rely s s' g pc q used i w f, λ k e. ((f k e).0, λ j e'. (f k e).1 j (same j e')));
    effect = rw (contents-quiet s s' g pc used i w) eff;
    last_grown = omega arith;
    free_grown = omega (arith, ap (λ v. rank (get_tag v)) w.free_node_head);
  }

  -- A write of `mPrev`, or of none of the nodes.
  pub prev-IsQuiet :
      (s s' : LockFreeQueue A) (pc : Pc A) (g : Ghost) (used : List ℕ)
      → IsSound s g used
      → s' ≡ record s { prev = s'.prev; size = s'.size }
      → ((a : ℕ) → IsLink g a (s'.prev a))
      → IsQuiet s s' g pc used
  prev-IsQuiet s s' pc g used i e l = record {
    head = ap (λ r. r.head) e;
    tail = ap (λ r. r.tail) e;
    free_node_head = ap (λ r. r.free_node_head) e;
    first_free = ap (λ r. r.next_free_node (get_pointer s.free_node_head)) e;
    link = l;
    k = 0;
    not_free = Absent-zero s.next_free_node _ g.free i.free_chain;
    not_live = λ j le le'. ground (arith, (i.addresses j le').0);
    not_foreign = λ j out h. ground (arith, out.address.0);
    value = λ a ne. ap (λ r. r.value a) e;
    next = λ a ne. ap (λ r. r.next a) e;
    next_free_node = λ a ne. ap (λ r. r.next_free_node a) e;
  }

  -- A write to the fields of the thread's node.
  pub own-IsQuiet :
      (s : LockFreeQueue A) (pc : Pc A) (k : ℕ) (g : Ghost) (used : List ℕ) (value : ℕ → A)
      (next next_free : ℕ → ℕ)
      → IsSound s g used
      → owner pc ≡ some k
      → IsOut g used k
      → ((a : ℕ) → (k == a) ≡ false → value a ≡ s.value a)
      → ((a : ℕ) → (k == a) ≡ false → next a ≡ s.next a)
      → ((a : ℕ) → (k == a) ≡ false → next_free a ≡ s.next_free_node a)
      → IsQuiet s (record s { value = value; next = next; next_free_node = next_free }) g pc used
  own-IsQuiet s pc k g used value next next_free i own out hv hn hf = record {
    head = refl;
    tail = refl;
    free_node_head = refl;
    first_free =
        hf (get_pointer s.free_node_head)
          (Chain-other s.next_free_node _ k g.free out.not_free (out.address.0) i.free_chain);
    link = i.links;
    k = k;
    not_free = out.not_free;
    not_live = out.not_live;
    not_foreign = λ j out' h. h k own;
    value = hv;
    next = hn;
    next_free_node = hf;
  }
