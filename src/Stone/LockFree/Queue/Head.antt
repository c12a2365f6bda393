-- ===== src/Stone/LockFree/Queue/Head.antt =====
-- The exchange of the lock-free queue on its head, and what it keeps.
use recommender.Prelude.{
  ℕ, suc, ◌+◌, ◌-◌, ◌<◌, ◌≡◌, refl, ◌∙◌, sym, ap, inl, arith, false, List, ◌∷◌, ◌==◌,
}
use mathlib.Core.Option.{some-injective}
use mathlib.Core.Path.{subst}
use recommender.Stone.IntrusiveList.Circle.{==-flip}
use recommender.Stone.LockFree.{make_tagged, get_pointer, get_tag}
use recommender.Stone.LockFree.Queue.{LockFreeQueue, Pc, tagged_on}
use recommender.Stone.LockFree.Queue.Invariant.{Ghost, IsOut, IsSound, WasHead}
use recommender.Stone.LockFree.Queue.Moves.{Moves, span, contents}
use recommender.Stone.LockFree.Queue.Positions.{seq, get_tag-seq, seq-injective, get_pointer-seq}
use recommender.Stone.LockFree.Queue.Tail.{tagged_on-word}

module _ {A : Type 0} where
  -- A word that `mHead` had is the one that it has exactly at the first position.
  pub head-first :
      (s : LockFreeQueue A) (g : Ghost) (used : List ℕ) (h j : ℕ)
      → IsSound s g used
      → WasHead g h j
      → s.head ≡ h
      → g.first ≡ j
  head-first s g used h j i (e, le, lt) now = seq-injective g.first j (
      sym (get_tag-seq (g.at g.first) g.first (omega (arith, i.ordered, i.few)))
      ∙ ap get_tag (sym i.head_word ∙ now ∙ e)
      ∙ get_tag-seq (g.at j) j (omega (arith, lt)))

  pub pop-Moves :
      (s : LockFreeQueue A) (p : ℕ) (v : A) (g : Ghost) (used : List ℕ)
      → IsSound s g used
      → g.first < g.last
      → get_pointer p ≡ g.at (g.first + 1)
      → v ≡ s.value (get_pointer p)
      → Moves s (Pc.pop_exchange s.head p v) g used used (
        record s { head = tagged_on (get_pointer p) s.head },
        Pc.release_value (get_pointer s.head) v,
      )
  pop-Moves s p v g used i lt to val =
      let old : ℕ = g.at g.first in
      let was : get_pointer s.head ≡ old =
        ap get_pointer i.head_word
        ∙ get_pointer-seq old g.first ((i.addresses g.first i.ordered).1)
            (omega (arith, i.ordered, i.few)) in
      let g' : Ghost = record g { first = g.first + 1 } in
      record {
        ghost = g';
        sound = record {
          free_chain = i.free_chain;
          free_addresses = i.free_addresses;
          head_word =
              ap (tagged_on (get_pointer p)) i.head_word
              ∙ tagged_on-word g (get_pointer p) g.first (omega (arith, i.ordered, i.few))
              ∙ ap (λ a. make_tagged a (seq (g.first + 1))) to;
          tail_word = i.tail_word;
          ordered = omega (arith, lt);
          few = i.few;
          addresses = i.addresses;
          linked = λ j le. i.linked j (omega (arith, le));
          links = λ a j le. i.links a j (omega (arith, le));
          distinct = λ j l le. i.distinct j l (omega (arith, le));
          apart = λ j le. i.apart j (omega (arith, le));
          in_use = λ a h. ((i.in_use a h).0, λ j le. (i.in_use a h).1 j (omega (arith, le)));
        };
        knows = tt;
        owned = λ k e.
            subst (IsOut g' used) (sym was ∙ some-injective (get_pointer s.head) k e) record {
              address = i.addresses g.first i.ordered;
              not_free = i.apart g.first (omega arith) i.ordered;
              not_live = λ j le le'. i.distinct g.first j (omega arith) (omega (arith, le)) le';
              in_use = λ a h. (i.in_use a h).1 g.first (omega arith) i.ordered;
            };
        others = λ q f. (
          record {
            ordered = i.ordered;
            first_le = omega arith;
            last_le = omega arith;
            same_at = λ j le. refl;
            free_word = inl (refl, refl);
            values = λ j lt le. refl;
            node = λ j e. (refl, refl, refl);
          },
          λ k e.
              let (o, _) = f k e in
              (
                record {
                  address = o.address;
                  not_free = o.not_free;
                  not_live = λ j le. o.not_live j (omega (arith, le));
                  in_use = o.in_use;
                },
                λ j e'.
                    subst (λ x. (x == k) ≡ false)
                      (sym was ∙ some-injective (get_pointer s.head) j e')
                      (==-flip k old (o.not_live g.first (omega arith) i.ordered)),
              ),
        );
        effect = (
          ap (span (λ j. s.value (g.at j)) (g.first + 1)) (shorter g.first g.last lt)
              ∙ ap (λ x. x ∷ contents (record s { head = tagged_on (get_pointer p) s.head }) g')
                  (ap s.value (sym to) ∙ sym val),
          refl,
        );
        last_grown = omega arith;
        free_grown = omega arith;
      }
    where
      shorter : (a b : ℕ) → a < b → b - a ≡ suc (b - (a + 1))
      shorter a b lt = omega (arith, lt)
