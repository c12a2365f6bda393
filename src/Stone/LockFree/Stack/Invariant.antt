-- ===== src/Stone/LockFree/Stack/Invariant.antt =====
-- The invariant of the lock-free stack.
use recommender.Prelude.{
  ℕ, ◌<◌, ◌≤◌, ◌≡◌, refl, ◌∙◌, sym, ap, ◌⊎◌, inl, inr, arith, false, Option, none, some, List, [],
  ◌∷◌, ◌==◌,
}
use recommender.Stone.IntrusiveList.Sequence.{Absent}
use recommender.Stone.LockFree.{tag_of, index_of, lock_free_null_pointer}
use recommender.Stone.LockFree.Stack.{LockFreeStack, Pc}

-- From `p` the links lead through the distinct nodes `xs` to the null pointer.
abbrev pub Chain : (ℕ → ℕ) → ℕ → List ℕ → Type 0
Chain m p [] = p ≡ lock_free_null_pointer
Chain m p (x ∷ xs) = (p ≡ x) × (x < lock_free_null_pointer) × Absent x xs × Chain m (m x) xs

-- No node of the first list is in the second.
abbrev pub Apart : List ℕ → List ℕ → Type 0
Apart [] ys = Unit {0}
Apart (x ∷ xs) ys = Absent x ys × Apart xs ys

-- The node that a thread has to itself.
abbrev pub owner {ℓ} : {A : Type ℓ} → Pc A → Option ℕ
owner (Pc.push_value v k) = some k
owner (Pc.push_head v k) = some k
owner (Pc.push_next v k h) = some k
owner (Pc.push_exchange v k h) = some k
owner (Pc.pop_value k) = some k
owner (Pc.release_value k v) = some k
owner (Pc.release_head k v) = some k
owner (Pc.release_next k v h) = some k
owner (Pc.release_exchange k v h) = some k
owner _ = none

-- A node on neither chain.
abbrev pub IsOut : ℕ → List ℕ → List ℕ → Type 0
IsOut k free held = Absent k free × Absent k held × (k < lock_free_null_pointer)

-- A word that was read and did not say null, and is not newer than the word now.
abbrev pub Seen : ℕ → ℕ → Type 0
Seen h word = ((index_of h == lock_free_null_pointer) ≡ false) × (tag_of h ≤ tag_of word)

Seen-later :
    (h w w' : ℕ) (l l' : ℕ → ℕ)
    → ((w' ≡ w) × (l' (index_of w) ≡ l (index_of w))) ⊎ (tag_of w < tag_of w')
    → Seen h w
    → Seen h w'
Seen-later h w w' l l' (inl (e, f)) (nn, le) = (nn, rw e le)
Seen-later h w w' l l' (inr lt) (nn, le) = (nn, omega arith)

link-later :
    (h w w' n : ℕ) (l l' : ℕ → ℕ)
    → ((w' ≡ w) × (l' (index_of w) ≡ l (index_of w))) ⊎ (tag_of w < tag_of w')
    → Seen h w
    → (w ≡ h → l (index_of h) ≡ n)
    → w' ≡ h
    → l' (index_of h) ≡ n
link-later h w w' n l l' (inl (e, f)) seen known q =
    let at : w ≡ h = sym e ∙ q in
    ap (λ x. l' (index_of x)) (sym at) ∙ f ∙ ap (λ x. l (index_of x)) at ∙ known at
link-later h w w' n l l' (inr lt) seen known q = absurd (omega (arith, ap tag_of q, seen.1))

module _ {A : Type 0} where
  -- What a thread knows of the stack from what it read and wrote.
  abbrev pub Knows : LockFreeStack A → Pc A → Type 0
  Knows s (Pc.acquire_next v h) = Seen h s.free_node_head
  Knows s (Pc.acquire_exchange v h n) =
      Seen h s.free_node_head × (s.free_node_head ≡ h → s.next_free_node (index_of h) ≡ n)
  Knows s (Pc.push_head v k) = s.value k ≡ v
  Knows s (Pc.push_next v k h) = s.value k ≡ v
  Knows s (Pc.push_exchange v k h) = (s.value k ≡ v) × (s.next k ≡ index_of h)
  Knows s (Pc.pop_next h) = Seen h s.head
  Knows s (Pc.pop_exchange h n) = Seen h s.head × (s.head ≡ h → s.next (index_of h) ≡ n)
  Knows s (Pc.release_exchange k v h) = s.next_free_node k ≡ index_of h
  Knows s _ = Unit {0}

  -- What a step of another thread leaves as it was: the word and the link that it leads to, or the
  -- word has a newer tag; and the node of the thread itself.
  pub record Rely (s s' : LockFreeStack A) (pc : Pc A) : Type 0 where
    pub free_word :
        ((s'.free_node_head ≡ s.free_node_head)
          × (s'.next_free_node (index_of s.free_node_head)
              ≡ s.next_free_node (index_of s.free_node_head)))
        ⊎ (tag_of s.free_node_head < tag_of s'.free_node_head)
    pub head_word :
        ((s'.head ≡ s.head) × (s'.next (index_of s.head) ≡ s.next (index_of s.head)))
        ⊎ (tag_of s.head < tag_of s'.head)
    pub node :
        (k : ℕ)
        → owner pc ≡ some k
        → (s'.value k ≡ s.value k)
          × (s'.next k ≡ s.next k)
          × (s'.next_free_node k ≡ s.next_free_node k)

  -- What a thread knows stays true while other threads take steps.
  pub Knows-Rely : (s s' : LockFreeStack A) (pc : Pc A) → Rely s s' pc → Knows s pc → Knows s' pc
  Knows-Rely s s' (Pc.acquire_next v h) r kn =
      Seen-later h _ _ s.next_free_node s'.next_free_node r.free_word kn
  Knows-Rely s s' (Pc.acquire_exchange v h n) r (seen, known) = (
    Seen-later h _ _ s.next_free_node s'.next_free_node r.free_word seen,
    link-later h _ _ n s.next_free_node s'.next_free_node r.free_word seen known,
  )
  Knows-Rely s s' (Pc.push_head v k) r kn = (r.node k refl).0 ∙ kn
  Knows-Rely s s' (Pc.push_next v k h) r kn = (r.node k refl).0 ∙ kn
  Knows-Rely s s' (Pc.push_exchange v k h) r (a, b) = ((r.node k refl).0 ∙ a, (r.node k refl).1 ∙ b)
  Knows-Rely s s' (Pc.pop_next h) r kn = Seen-later h _ _ s.next s'.next r.head_word kn
  Knows-Rely s s' (Pc.pop_exchange h n) r (seen, known) = (
    Seen-later h _ _ s.next s'.next r.head_word seen,
    link-later h _ _ n s.next s'.next r.head_word seen known,
  )
  Knows-Rely s s' (Pc.release_exchange k v h) r kn = (r.node k refl).2 ∙ kn
  Knows-Rely s s' _ r kn = tt
