-- ===== src/Stone/LockFree/FreeList/Invariant.antt =====
-- The invariant of the free list: what is on it, and what each thread knows. The exchanges are counted,
-- without a bound, and the tag is the count modulo 2 ^ 16.
use recommender.Prelude.{
  ℕ, ◌^◌, ◌%◌, ◌<◌, ◌≤◌, ◌≡◌, refl, ◌∙◌, sym, ap, ◌⊎◌, inl, inr, arith, false, Option, none, some,
  List, [], ◌∷◌, ◌==◌,
}
use recommender.Stone.IntrusiveList.Sequence.{Absent}
use recommender.Stone.LockFree.{get_pointer, get_tag}
use recommender.Stone.LockFree.FreeList.{FreeList, Pc, object_of}

-- The address of an object in user space.
abbrev pub IsObject : ℕ → Type 0
IsObject x = (0 < x) × (x < 2 ^ 47)

-- The object that a thread has to itself.
abbrev pub owner : Pc → Option ℕ
owner (Pc.push_head x) = some x
owner (Pc.push_next x h) = some x
owner (Pc.push_exchange x h) = some x
owner (Pc.pop_size x) = some x
owner _ = none

abbrev pub IsOut : ℕ → List ℕ → Type 0
IsOut x held = Absent x held × IsObject x

-- A word that was read after `n` exchanges and did not say null; there have been `count` since the
-- start.
pub record Seen (word count n h : ℕ) : Type 0 where
  pub not_null : (get_pointer h == 0) ≡ false
  pub tag_lem : get_tag h ≡ n % 2 ^ 16
  pub past : n ≤ count
  pub now : n ≡ count → word ≡ h

-- What a step of another thread leaves as it was: the head and the link that it leads to, or there
-- has been another exchange; and the link of the thread's own object.
pub record Rely (s s' : FreeList) (count count' : ℕ) (pc : Pc) : Type 0 where
  pub word :
      ((count' ≡ count)
        × (s'.head ≡ s.head)
        × ((get_pointer s.head == 0) ≡ false
            → s'.next (get_pointer s.head) ≡ s.next (get_pointer s.head)))
      ⊎ (count < count')
  pub link : (x : ℕ) → owner pc ≡ some x → s'.next x ≡ s.next x

Seen-later :
    (s s' : FreeList) (count count' n h : ℕ) (pc : Pc)
    → Rely s s' count count' pc
    → Seen s.head count n h
    → Seen s'.head count' n h
Seen-later s s' count count' n h pc r seen = elim r.word [
  | inl (e, same, link) ↦ record {
    not_null = seen.not_null;
    tag_lem = seen.tag_lem;
    past = omega (arith, seen.past);
    now = λ q. same ∙ seen.now (q ∙ e);
  }
  | inr lt ↦ record {
    not_null = seen.not_null;
    tag_lem = seen.tag_lem;
    past = omega (arith, seen.past);
    now = λ q. absurd (omega (arith, seen.past));
  }
]

link-later :
    (s s' : FreeList) (count count' n h k : ℕ) (pc : Pc)
    → Rely s s' count count' pc
    → Seen s.head count n h
    → (n ≡ count → s.next (get_pointer h) ≡ k)
    → n ≡ count'
    → s'.next (get_pointer h) ≡ k
link-later s s' count count' n h k pc r seen known q = elim r.word [
  | inl (e, same, link) ↦
      let at : s.head ≡ h = seen.now (q ∙ e) in
      let not_null : (get_pointer s.head == 0) ≡ false = rw at seen.not_null in
      ap (λ x. s'.next (get_pointer x)) (sym at)
      ∙ link not_null
      ∙ ap (λ x. s.next (get_pointer x)) at
      ∙ known (q ∙ e)
  | inr lt ↦ absurd (omega (arith, seen.past))
]

module _ (offset : ℕ) where
  -- From `p` the links lead through the distinct objects `xs` to the null pointer.
  abbrev pub Chain : (ℕ → ℕ) → ℕ → List ℕ → Type 0
  Chain m p [] = p ≡ 0
  Chain m p (x ∷ xs) = (p ≡ x) × IsObject x × Absent x xs × Chain m (object_of offset (m x)) xs

  -- What a thread knows that last read the head in `Pop` after `n` exchanges.
  abbrev pub Knows : FreeList → ℕ → ℕ → Pc → Type 0
  Knows s count n (Pc.push_exchange x h) = object_of offset (s.next x) ≡ get_pointer h
  Knows s count n (Pc.pop_next h) = Seen s.head count n h
  Knows s count n (Pc.pop_exchange h k) =
      Seen s.head count n h × (n ≡ count → s.next (get_pointer h) ≡ k)
  Knows s count n _ = Unit {0}

  -- What a thread knows stays true while other threads take steps.
  pub Knows-Rely :
      (s s' : FreeList) (count count' n : ℕ) (pc : Pc)
      → Rely s s' count count' pc
      → Knows s count n pc
      → Knows s' count' n pc
  Knows-Rely s s' count count' n (Pc.push_exchange x h) r kn =
      ap (object_of offset) (r.link x refl) ∙ kn
  Knows-Rely s s' count count' n (Pc.pop_next h) r kn = Seen-later s s' count count' n h _ r kn
  Knows-Rely s s' count count' n (Pc.pop_exchange h k) r (seen, known) =
      (Seen-later s s' count count' n h _ r seen, link-later s s' count count' n h k _ r seen known)
  Knows-Rely s s' count count' n _ r kn = tt
