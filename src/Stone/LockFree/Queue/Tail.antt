-- ===== src/Stone/LockFree/Queue/Tail.antt =====
-- The exchange of the lock-free queue on its tail, and what it keeps.
use recommender.Prelude.{
  ℕ, suc, ◌+◌, ◌-◌, ◌≤◌, ◌<◌, ◌≡◌, ◌⊎◌, refl, ◌∙◌, sym, ap, inl, inr, arith, false, List, [], ◌∷◌,
  ◌++◌, ◌==◌, at_put, ==-refl, ne→==,
}
use mathlib.Core.Option.{none-ne-some}
use mathlib.Core.Path.{subst}
use native.Mathlib.Decide.{dec_lt}
use recommender.Stone.IntrusiveList.Circle.{==-flip}
use recommender.Stone.IntrusiveList.Sequence.{Absent}
use recommender.Stone.LockFree.{make_tagged, get_pointer}
use recommender.Stone.LockFree.Queue.{LockFreeQueue, Pc, tagged_on}
use recommender.Stone.LockFree.Queue.Invariant.{Ghost, word, IsOut, IsSound}
use recommender.Stone.LockFree.Queue.Rely.{IsLink-later}
use recommender.Stone.LockFree.Queue.Moves.{Moves, span, span-ext, span-snoc, contents}
use recommender.Stone.LockFree.Queue.Positions.{
  max_position, seq, IsAddress, get_next_tag-seq, get_pointer-seq,
}

-- A position is the last but one or comes before.
below-cases : (i n : ℕ) → i < n + 1 → (i < n) ⊎ (i ≡ n)
below-cases i n h = elim (dec_lt i n) [ yes lt ↦ inl lt | no ge ↦ inr (omega (arith, ge, h)) ]

-- The word that follows the one of a position.
pub tagged_on-word :
    (g : Ghost) (k j : ℕ) → j < max_position → tagged_on k (word g j) ≡ make_tagged k (seq (j + 1))
tagged_on-word g k j lt = ap (λ t. make_tagged k t) (get_next_tag-seq (g.at j) j lt)

module _ (g : Ghost) (k : ℕ) where
  -- The queue with one more node.
  abbrev grown : Ghost
  grown = record g { at = at_put g.at (g.last + 1) k; last = g.last + 1 }

  grown-old : (i : ℕ) → i ≤ g.last → grown.at i ≡ g.at i
  grown-old i le = rw (ne→== (g.last + 1) i (omega (arith, le))) refl

  grown-new : grown.at (g.last + 1) ≡ k
  grown-new = rw (==-refl (g.last + 1)) refl

  -- What holds of the old nodes and of the new one.
  grown-each :
      (P : ℕ → Type 0) (j : ℕ) → j ≤ g.last + 1 → (j ≤ g.last → P (g.at j)) → P k → P (grown.at j)
  grown-each P j le h h' = elim (dec_lt g.last j) [
    | yes new ↦ subst (λ i. P (grown.at i)) (omega (arith, new, le)) (subst P (sym grown-new) h')
    | no old ↦ subst P (sym (grown-old j (omega (arith, old)))) (h (omega (arith, old)))
  ]

module _ {A : Type 0} where
  push-IsSound :
      (s : LockFreeQueue A) (k : ℕ) (g : Ghost) (used : List ℕ)
      → IsSound s g used
      → IsOut g used k
      → s.next k ≡ tagged_on (get_pointer s.tail) s.tail
      → g.last + 1 < max_position
      → IsSound (record s { tail = tagged_on k s.tail }) (grown g k) used
  push-IsSound s k g used i o link room =
      let old : (j : ℕ) → j ≤ g.last → (grown g k).at j ≡ g.at j = grown-old g k in
      let new : (grown g k).at (g.last + 1) ≡ k = grown-new g k in
      record {
        free_chain = i.free_chain;
        free_addresses = i.free_addresses;
        head_word =
            i.head_word ∙ ap (λ a. make_tagged a (seq g.first)) (sym (old g.first i.ordered));
        tail_word =
            ap (tagged_on k) i.tail_word
            ∙ tagged_on-word g k g.last i.few
            ∙ ap (λ a. make_tagged a (seq (g.last + 1))) (sym new);
        ordered = omega (arith, i.ordered);
        few = room;
        addresses = λ j le. grown-each g k IsAddress j le (i.addresses j) o.address;
        linked = λ j le lt. elim (below-cases j g.last lt) [
          | inl below ↦
              ap s.next (old (j + 1) (omega (arith, below)))
              ∙ i.linked j le below
              ∙ ap (λ a. make_tagged a (seq (j + 1))) (sym (old j (omega (arith, below))))
          | inr now ↦
              ap (λ l. s.next ((grown g k).at (l + 1))) now
              ∙ ap s.next new
              ∙ link
              ∙ ap (λ w. tagged_on (get_pointer w) w) i.tail_word
              ∙ tagged_on-word g (get_pointer (word g g.last)) g.last i.few
              ∙ ap (λ a. make_tagged a (seq (g.last + 1)))
                  (get_pointer-seq (g.at g.last) g.last ((i.addresses g.last (omega arith)).1)
                    (omega (arith, i.few)))
              ∙ ap (λ a. make_tagged a (seq (g.last + 1))) (sym (old g.last (omega arith)))
              ∙ ap (λ l. make_tagged ((grown g k).at l) (seq (l + 1))) (sym now)
        ];
        links = λ a.
            IsLink-later g (grown g k) a (s.prev a) (omega arith) (omega arith) old (i.links a);
        distinct = λ j l le lt le'.
            grown-each g k (λ x. ((grown g k).at j == x) ≡ false) l le'
              (λ here.
                subst (λ x. (x == g.at l) ≡ false) (sym (old j (omega (arith, lt, here))))
                  (i.distinct j l le lt here))
              (subst (λ x. (x == k) ≡ false) (sym (old j (omega (arith, lt, le'))))
                (==-flip k (g.at j) (o.not_live j le (omega (arith, lt, le')))));
        apart = λ j le le'. grown-each g k (λ x. Absent x g.free) j le' (i.apart j le) o.not_free;
        in_use = λ a h. (
          (i.in_use a h).0,
          λ j le le'.
              grown-each g k (λ x. (a == x) ≡ false) j le' ((i.in_use a h).1 j le) (o.in_use a h),
        );
      }

  push-contents :
      (s s' : LockFreeQueue A) (k : ℕ) (v : A) (g : Ghost)
      → g.first ≤ g.last
      → s'.value ≡ s.value
      → s.value k ≡ v
      → contents s' (grown g k) ≡ (contents s g ++ (v ∷ []))
  push-contents s s' k v g o same val =
      ap (λ f. span (λ j. f ((grown g k).at j)) (g.first + 1) (g.last + 1 - g.first)) same
      ∙ ap (span value' (g.first + 1)) longer
      ∙ span-snoc value' (g.first + 1) (g.last - g.first)
      ∙ ap (λ l. l ++ (value' (g.first + 1 + (g.last - g.first)) ∷ []))
          (span-ext (λ j. s.value (g.at j)) value' (g.first + 1) (g.last - g.first)
            (λ j le lt. ap s.value (grown-old g k j (omega (arith, lt, o)))))
      ∙ ap (λ x. contents s g ++ (x ∷ [])) (ap value' end ∙ ap s.value (grown-new g k) ∙ val)
    where
      value' : ℕ → A
      value' j = s.value ((grown g k).at j)

      longer : g.last + 1 - g.first ≡ suc (g.last - g.first)
      longer = omega (arith, o)

      end : g.first + 1 + (g.last - g.first) ≡ g.last + 1
      end = omega (arith, o)

  pub push-Moves :
      (s : LockFreeQueue A) (k : ℕ) (v : A) (g : Ghost) (used : List ℕ)
      → IsSound s g used
      → IsOut g used k
      → s.value k ≡ v
      → s.next k ≡ tagged_on (get_pointer s.tail) s.tail
      → g.last + 1 < max_position
      → Moves s
          (Pc.push_exchange v k s.tail)
          g
          used
          used
          (record s { tail = tagged_on k s.tail }, Pc.push_prev k s.tail)
  push-Moves s k v g used i o val link room = record {
    ghost = grown g k;
    sound = push-IsSound s k g used i o link room;
    knows = (
      g.last,
      i.tail_word ∙ ap (λ a. make_tagged a (seq g.last)) (sym (grown-old g k g.last (omega arith))),
      sym (grown-new g k),
      omega arith,
    );
    owned = λ j e. absurd (none-ne-some j e);
    others = λ q f. (
      record {
        ordered = i.ordered;
        first_le = omega arith;
        last_le = omega arith;
        same_at = grown-old g k;
        free_word = inl (refl, refl);
        values = λ j lt le. refl;
        node = λ j e. (refl, refl, refl);
      },
      λ j e.
          let (o', ne) = f j e in
          (
            record {
              address = o'.address;
              not_free = o'.not_free;
              not_live = λ l le le'.
                  grown-each g k (λ x. (j == x) ≡ false) l le' (o'.not_live l le)
                    (==-flip k j (ne k refl));
              in_use = o'.in_use;
            },
            λ l e'. absurd (none-ne-some l e'),
          ),
    );
    effect = push-contents s (record s { tail = tagged_on k s.tail }) k v g i.ordered refl val;
    last_grown = omega arith;
    free_grown = omega arith;
  }
