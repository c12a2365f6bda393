-- ===== src/Stone/LockFree/Queue/Rely.antt =====
-- What a thread of the lock-free queue knows stays true while other threads take steps.
use mathlib.Core.Path.{subst}
use recommender.Prelude.{ℕ, ◌+◌, ◌≤◌, ◌<◌, ◌≡◌, ◌⊎◌, inl, inr, refl, ◌∙◌, sym, ap, arith, some}
use recommender.Stone.LockFree.{make_tagged, get_pointer, get_tag}
use recommender.Stone.LockFree.Queue.{LockFreeQueue, Pc}
use recommender.Stone.LockFree.Queue.Positions.{seq, rank}
use recommender.Stone.LockFree.Queue.Invariant.{Ghost, word, IsLink, WasHead, owner, Knows}

-- What stays true of words as the queue goes on.
pub IsLink-later :
    (g g' : Ghost) (a w : ℕ)
    → g.first ≤ g'.first
    → g.last ≤ g'.last
    → ((i : ℕ) → i ≤ g.last → g'.at i ≡ g.at i)
    → IsLink g a w
    → IsLink g' a w
IsLink-later g g' a w le le' same l i h lt z e =
    let (below, to) = l i (omega (arith, h, le)) lt (λ q. z q ∙ same 0 (omega arith)) e in
    (omega (arith, below, le'), to ∙ sym (same (i + 1) (omega (arith, below))))

WasHead-later :
    (g g' : Ghost) (h j : ℕ)
    → g.first ≤ g.last
    → g.first ≤ g'.first
    → ((i : ℕ) → i ≤ g.last → g'.at i ≡ g.at i)
    → WasHead g h j
    → WasHead g' h j
WasHead-later g g' h j o le same (e, le', lt) = (
  e ∙ ap (λ a. make_tagged a (seq j)) (sym (same j (omega (arith, o, le')))),
  omega (arith, le, le'),
  lt,
)

-- The word of a position up to the last one.
pub word-later :
    (g g' : Ghost) (t i : ℕ)
    → ((j : ℕ) → j ≤ g.last → g'.at j ≡ g.at j)
    → i ≤ g.last
    → t ≡ word g i
    → t ≡ word g' i
word-later g g' t i same le e = e ∙ ap (λ a. make_tagged a (seq i)) (sym (same i le))

module _ {A : Type 0} where
  -- What the steps of the others leave as it is for the thread `q`.
  pub record Rely (s s' : LockFreeQueue A) (g g' : Ghost) (q : Pc A) : Type 0 where
    pub ordered : g.first ≤ g.last
    pub first_le : g.first ≤ g'.first
    pub last_le : g.last ≤ g'.last
    pub same_at : (i : ℕ) → i ≤ g.last → g'.at i ≡ g.at i
    pub free_word :
        ((s'.free_node_head ≡ s.free_node_head)
          × (s'.next_free_node (get_pointer s.free_node_head)
              ≡ s.next_free_node (get_pointer s.free_node_head)))
        ⊎ (rank (get_tag s.free_node_head) < rank (get_tag s'.free_node_head))
    pub values : (i : ℕ) → g'.first < i → i ≤ g.last → s'.value (g.at i) ≡ s.value (g.at i)
    pub node :
        (k : ℕ)
        → owner q ≡ some k
        → (s'.value k ≡ s.value k)
          × (s'.next k ≡ s.next k)
          × (s'.next_free_node k ≡ s.next_free_node k)

  module _ (s s' : LockFreeQueue A) (g g' : Ghost) (q : Pc A) (r : Rely s s' g g' q) where
    rank-later :
        (h : ℕ)
        → rank (get_tag h) ≤ rank (get_tag s.free_node_head)
        → rank (get_tag h) ≤ rank (get_tag s'.free_node_head)
    rank-later h le = elim r.free_word [ inl (e, e') ↦ rw e le | inr lt ↦ omega (arith, le, lt) ]

    free-later :
        (h n : ℕ)
        → rank (get_tag h) ≤ rank (get_tag s.free_node_head)
        → (s.free_node_head ≡ h → n ≡ s.next_free_node (get_pointer h))
        → s'.free_node_head ≡ h
        → n ≡ s'.next_free_node (get_pointer h)
    free-later h n le known e = elim r.free_word [
      | inl (same, link) ↦
          let now : s.free_node_head ≡ h = sym same ∙ e in
          known now
          ∙ ap (λ w. s.next_free_node (get_pointer w)) (sym now)
          ∙ sym link
          ∙ ap (λ w. s'.next_free_node (get_pointer w)) now
      | inr lt ↦ absurd (omega (arith, le, lt, ap (λ w. rank (get_tag w)) e))
    ]

    IsLink-Rely : (j w : ℕ) → j ≤ g.first → IsLink g (g.at j) w → IsLink g' (g'.at j) w
    IsLink-Rely j w le l =
        subst (λ a. IsLink g' a w) (sym (r.same_at j (omega (arith, le, r.ordered))))
          (IsLink-later g g' (g.at j) w r.first_le r.last_le r.same_at l)

    WasHead-Rely : (h j : ℕ) → WasHead g h j → WasHead g' h j
    WasHead-Rely h j = WasHead-later g g' h j r.ordered r.first_le r.same_at

    value-later :
        (p j h : ℕ)
        → WasHead g h j
        → IsLink g (g.at j) p
        → get_tag p ≡ seq j
        → g'.first ≡ j
        → s'.value (get_pointer p) ≡ s.value (get_pointer p)
    value-later p j h (e, le, lt) link tag now =
        let (below, to) = link j (omega (arith, r.first_le, now)) lt (λ z. ap g.at z) tag in
        rw to (r.values (j + 1) (omega (arith, now)) (omega (arith, below)))

  -- What a thread knows stays true while other threads take steps.
  pub Knows-Rely :
      (s s' : LockFreeQueue A) (g g' : Ghost) (q : Pc A)
      → Rely s s' g g' q
      → Knows s g q
      → Knows s' g' q
  Knows-Rely s s' g g' (Pc.acquire_next v h) r (le, ne) = (rank-later s s' g g' _ r h le, ne)
  Knows-Rely s s' g g' (Pc.acquire_exchange v h n) r (le, ne, known) =
      (rank-later s s' g g' _ r h le, ne, free-later s s' g g' _ r h n le known)
  Knows-Rely s s' g g' (Pc.push_tail v k) r kn = (r.node k refl).0 ∙ kn
  Knows-Rely s s' g g' (Pc.push_next v k t) r kn = (r.node k refl).0 ∙ kn
  Knows-Rely s s' g g' (Pc.push_exchange v k t) r (e, e') =
      ((r.node k refl).0 ∙ e, (r.node k refl).1 ∙ e')
  Knows-Rely s s' g g' (Pc.push_prev k t) r (j, e, e', lt) = (
    j,
    word-later g g' t j r.same_at (omega (arith, lt)) e,
    e' ∙ sym (r.same_at (j + 1) (omega (arith, lt))),
    omega (arith, lt, r.last_le),
  )
  Knows-Rely s s' g g' (Pc.pop_tail h) r (j, was) = (j, WasHead-Rely s s' g g' _ r h j was)
  Knows-Rely s s' g g' (Pc.pop_prev h t) r (j, was, (i, e, le, le')) = (
    j,
    WasHead-Rely s s' g g' _ r h j was,
    (i, word-later g g' t i r.same_at le' e, le, omega (arith, le', r.last_le)),
  )
  Knows-Rely s s' g g' (Pc.pop_check h t p) r (j, was, link, (i, e, le, le')) = (
    j,
    WasHead-Rely s s' g g' _ r h j was,
    IsLink-Rely s s' g g' _ r j p (was.1) link,
    (i, word-later g g' t i r.same_at le' e, le, omega (arith, le', r.last_le)),
  )
  Knows-Rely s s' g g' (Pc.pop_value h p) r (j, was, link, tag) =
      (j, WasHead-Rely s s' g g' _ r h j was, IsLink-Rely s s' g g' _ r j p (was.1) link, tag)
  Knows-Rely s s' g g' (Pc.pop_exchange h p v) r (j, was, link, tag, val) = (
    j,
    WasHead-Rely s s' g g' _ r h j was,
    IsLink-Rely s s' g g' _ r j p (was.1) link,
    tag,
    λ now.
        val (omega (arith, now, was.1, r.first_le))
        ∙ sym (value-later s s' g g' _ r p j h was link tag now),
  )
  Knows-Rely s s' g g' (Pc.fix_head h c) r (j, was, at) = (
    j,
    WasHead-Rely s s' g g' _ r h j was,
    λ now.
        (let (i, e, le, le') = at (omega (arith, now, was.1, r.first_le)) in
          (i, word-later g g' c i r.same_at le' e, le, omega (arith, le', r.last_le))),
  )
  Knows-Rely s s' g g' (Pc.fix_next h c) r (j, was, (i, e, le, lt)) = (
    j,
    WasHead-Rely s s' g g' _ r h j was,
    (
      i,
      word-later g g' c (i + 1) r.same_at (omega (arith, lt)) e,
      le,
      omega (arith, lt, r.last_le),
    ),
  )
  Knows-Rely s s' g g' (Pc.fix_prev h c n) r (j, was, (i, e, le, lt, at)) = (
    j,
    WasHead-Rely s s' g g' _ r h j was,
    (
      i,
      word-later g g' c (i + 1) r.same_at (omega (arith, lt)) e,
      le,
      omega (arith, lt, r.last_le),
      λ now.
          at (omega (arith, now, was.1, r.first_le))
          ∙ ap (λ a. make_tagged a (seq (i + 1))) (sym (r.same_at i (omega (arith, lt)))),
    ),
  )
  Knows-Rely s s' g g' (Pc.release_exchange k v f) r kn = (r.node k refl).2 ∙ kn
  Knows-Rely s s' g g' _ r kn = tt
