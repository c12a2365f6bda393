-- ===== src/Stone/LockFree/Queue/Fix.antt =====
-- The steps of `FixList` on the lock-free queue: what they keep.
use recommender.Prelude.{
  ℕ, ◌+◌, ◌-◌, ◌≤◌, ◌<◌, ◌≡◌, refl, ◌∙◌, sym, ap, inl, inr, arith, false, List, ◌==◌, at_put,
  Bool-cases, if◌then◌else◌,
}
use native.Mathlib.Decide.{dec_lt}
use recommender.Stone.LockFree.{make_tagged, get_pointer, get_prev_tag}
use recommender.Stone.LockFree.Queue.{LockFreeQueue, Pc}
use recommender.Stone.LockFree.Queue.Head.{head-first}
use recommender.Stone.LockFree.Queue.Invariant.{Ghost, word, Knows, WasHead}
use recommender.Stone.LockFree.Queue.Moves.{Moves}
use recommender.Stone.LockFree.Queue.Positions.{
  max_position, seq, get_pointer-seq, get_prev_tag-seq,
}
use recommender.Stone.LockFree.Queue.Writes.{IsReady, still-Moves, link-Moves, good-IsLink}
use recommender.Stone.LockFree.Queue.Steps.{no_owner}

module _ {A : Type 0} where
  -- `FixList` goes on from a position behind the head.
  pub fix_head-Moves :
      (s : LockFreeQueue A) (h c : ℕ) (g : Ghost) (used : List ℕ)
      → IsReady s (Pc.fix_head h c) g used
      → s.head ≡ h
      → Moves s
          (Pc.fix_head h c)
          g
          used
          used
          (if c == h then (s, Pc.pop_head) else (s, Pc.fix_next h c))
  fix_head-Moves s h c g used i now =
      let (j, was, at) = i.knows in
      let (l, e, le, le') = at (head-first s g used h j i.sound was now) in
      elim (Bool-cases (c == h)) [
        | inl e1 ↦ rw e1 (still-Moves s _ Pc.pop_head g used i tt no_owner refl)
        | inr e1 ↦ rw e1 (
            still-Moves s _ (Pc.fix_next h c) g used i (before h c j l was e e1 le le') no_owner
              refl)
      ]
    where
      before :
          (h c j l : ℕ)
          → WasHead g h j
          → c ≡ word g l
          → (c == h) ≡ false
          → j ≤ l
          → l ≤ g.last
          → Knows s g (Pc.fix_next h c)
      before h c j l was e ne le le' = elim (dec_lt j l) [
        | yes lt ↦ (
          j,
          was,
          (l - 1, e ∙ ap (word g) (omega (arith, lt)), omega (arith, lt), omega (arith, lt, le')),
        )
        | no ge ↦ absurd (ground (arith, ne, e ∙ ap (word g) (omega (arith, ge, le)) ∙ sym (was.0)))
      ]

  pub fix_next-Moves :
      (s : LockFreeQueue A) (h c : ℕ) (g : Ghost) (used : List ℕ)
      → IsReady s (Pc.fix_next h c) g used
      → Moves s (Pc.fix_next h c) g used used (s, Pc.fix_prev h c (s.next (get_pointer c)))
  fix_next-Moves s h c g used i =
      let (j, was, (l, e, le, lt)) = i.knows in
      still-Moves s _ (Pc.fix_prev h c (s.next (get_pointer c))) g used i
        (
          j,
          was,
          (
            l,
            e,
            le,
            lt,
            λ now.
                ap (λ w. s.next (get_pointer w)) e
                ∙ ap s.next (
                    get_pointer-seq (g.at (l + 1)) (l + 1)
                      ((i.sound.addresses (l + 1) (omega (arith, lt))).1)
                      (omega (arith, lt, i.sound.few)))
                ∙ i.sound.linked l (omega (arith, now, le)) lt,
          ),
        )
        no_owner refl

  pub fix_prev-Moves :
      (s : LockFreeQueue A) (h c n : ℕ) (g : Ghost) (used : List ℕ)
      → IsReady s (Pc.fix_prev h c n) g used
      → Moves s (Pc.fix_prev h c n) g used used (
        record s {
          prev = at_put s.prev (get_pointer n) (make_tagged (get_pointer c) (get_prev_tag c));
        },
        Pc.fix_head h (make_tagged (get_pointer n) (get_prev_tag c)),
      )
  fix_prev-Moves s h c n g used i =
      let (j, was, (l, e, le, lt, at)) = i.knows in
      let few : l + 1 < max_position = omega (arith, lt, i.sound.few) in
      let tag : get_prev_tag c ≡ seq l =
        ap get_prev_tag e ∙ get_prev_tag-seq (g.at (l + 1)) l (omega (arith, few)) in
      let node : get_pointer c ≡ g.at (l + 1) =
        ap get_pointer e
        ∙ get_pointer-seq (g.at (l + 1)) (l + 1) ((i.sound.addresses (l + 1) (omega (arith, lt))).1)
            (omega (arith, few)) in
      link-Moves s (Pc.fix_prev h c n)
        (Pc.fix_head h (make_tagged (get_pointer n) (get_prev_tag c))) g used i (get_pointer n)
        (make_tagged (get_pointer c) (get_prev_tag c))
        (rw (tag, node)
          (good-IsLink g l lt (omega (arith, few)) (i.sound.addresses (l + 1) (omega (arith, lt)))))
        (
          j,
          was,
          λ now. (
            l,
            ap (make_tagged (get_pointer n)) tag
                ∙ ap (λ a. make_tagged a (seq l))
                    (ap get_pointer (at now)
                      ∙ get_pointer-seq (g.at l) (l + 1)
                          ((i.sound.addresses l (omega (arith, lt))).1) (omega (arith, few))),
            le,
            omega (arith, lt),
          ),
        )
        no_owner refl
