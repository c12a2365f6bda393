-- ===== src/Stone/LockFree/Queue/FreeList.antt =====
-- The exchanges of the lock-free queue on the list of the free nodes, and what they keep.
use recommender.Prelude.{ℕ, ◌≤◌, ◌<◌, ◌≡◌, refl, inr, arith, false, List, ◌∷◌, ◌==◌}
use mathlib.Core.Option.{some-injective, none-ne-some}
use mathlib.Core.Path.{subst}
use recommender.Stone.IntrusiveList.Circle.{AllNodes, ==-flip}
use recommender.Stone.IntrusiveList.Sequence.{Absent, Chain}
use recommender.Stone.LockFree.{get_pointer, get_tag}
use recommender.Stone.LockFree.Queue.{LockFreeQueue, Pc, tagged_on}
use recommender.Stone.LockFree.Queue.Allocation.{
  get_pointer-tagged_on, rank-tagged_on, Chain-uncons, Chain-IsCanonical,
}
use recommender.Stone.LockFree.Queue.Invariant.{Ghost, IsOut, IsSound}
use recommender.Stone.LockFree.Queue.Rely.{Rely}
use recommender.Stone.LockFree.Queue.Moves.{Moves}
use recommender.Stone.LockFree.Queue.Positions.{max_position, IsAddress, rank}

module _ {A : Type 0} where
  -- What the other threads see of an exchange of `mFreeNodeHead`.
  exchange-Rely :
      (s : LockFreeQueue A) (g : Ghost) (used free : List ℕ) (w : ℕ) (q : Pc A)
      → IsSound s g used
      → rank (get_tag s.free_node_head) < rank (get_tag w)
      → Rely s (record s { free_node_head = w }) g (record g { free = free }) q
  exchange-Rely s g used free w q i lt = record {
    ordered = i.ordered;
    first_le = omega arith;
    last_le = omega arith;
    same_at = λ j le. refl;
    free_word = inr lt;
    values = λ j lt le. refl;
    node = λ j e. (refl, refl, refl);
  }

  pub acquire-Moves :
      (s : LockFreeQueue A) (v : A) (n : ℕ) (g : Ghost) (used : List ℕ)
      → IsSound s g used
      → (get_pointer s.free_node_head == 0) ≡ false
      → n ≡ s.next_free_node (get_pointer s.free_node_head)
      → rank (get_tag s.free_node_head) < max_position
      → Moves s (Pc.acquire_exchange v s.free_node_head n) g used used (
        record s { free_node_head = tagged_on n s.free_node_head },
        Pc.push_value v (get_pointer s.free_node_head),
      )
  acquire-Moves s v n g used i ne link room =
      let h : ℕ = s.free_node_head in
      let p : ℕ = get_pointer h in
      let (xs, e, ab, c) = Chain-uncons s.next_free_node p g.free i.free_chain ne in
      let al : AllNodes IsAddress (p ∷ xs) = subst (AllNodes IsAddress) e i.free_addresses in
      let c' : Chain s.next_free_node n xs = rw link c in
      let apart : (j : ℕ) → g.first ≤ j → j ≤ g.last → Absent (g.at j) (p ∷ xs) =
        λ j le le'. subst (Absent (g.at j)) e (i.apart j le le') in
      let in_use : (a : ℕ) → Absent a used → Absent a (p ∷ xs) =
        λ a h. subst (Absent a) e ((i.in_use a h).0) in
      let g' : Ghost = record g { free = xs } in
      record {
        ghost = g';
        sound = record {
          free_chain = rw (get_pointer-tagged_on n h (Chain-IsCanonical _ n xs c' (al.1))) c';
          free_addresses = al.1;
          head_word = i.head_word;
          tail_word = i.tail_word;
          ordered = i.ordered;
          few = i.few;
          addresses = i.addresses;
          linked = i.linked;
          links = i.links;
          distinct = i.distinct;
          apart = λ j le le'. (apart j le le').1;
          in_use = λ a h. ((in_use a h).1, (i.in_use a h).1);
        };
        knows = tt;
        owned = λ k e'. subst (IsOut g' used) (some-injective p k e') record {
          address = al.0;
          not_free = ab;
          not_live = λ j le le'. ==-flip (g.at j) p ((apart j le le').0);
          in_use = λ a h. (in_use a h).0;
        };
        others = λ q f. (
          exchange-Rely s g used xs (tagged_on n h) q i (omega (arith, rank-tagged_on n h room)),
          λ k e'.
              let (o, _) = f k e' in
              let out : Absent k (p ∷ xs) = subst (Absent k) e o.not_free in
              (
                record {
                  address = o.address;
                  not_free = out.1;
                  not_live = o.not_live;
                  in_use = o.in_use;
                },
                λ j e''. rw (← some-injective p j e'') (==-flip k p (out.0)),
              ),
        );
        effect = refl;
        last_grown = omega arith;
        free_grown = omega (arith, rank-tagged_on n h room);
      }

  pub release-Moves :
      (s : LockFreeQueue A) (k : ℕ) (v : A) (g : Ghost) (used : List ℕ)
      → IsSound s g used
      → IsOut g used k
      → s.next_free_node k ≡ get_pointer s.free_node_head
      → rank (get_tag s.free_node_head) < max_position
      → Moves s
          (Pc.release_exchange k v s.free_node_head)
          g
          used
          used
          (record s { free_node_head = tagged_on k s.free_node_head }, Pc.pop_size v)
  release-Moves s k v g used i o link room =
      let h : ℕ = s.free_node_head in
      record {
        ghost = record g { free = k ∷ g.free };
        sound = record {
          free_chain = (
            get_pointer-tagged_on k h (o.address.1),
            o.address.0,
            o.not_free,
            rw link i.free_chain,
          );
          free_addresses = (o.address, i.free_addresses);
          head_word = i.head_word;
          tail_word = i.tail_word;
          ordered = i.ordered;
          few = i.few;
          addresses = i.addresses;
          linked = i.linked;
          links = i.links;
          distinct = i.distinct;
          apart = λ j le le'. (==-flip k (g.at j) (o.not_live j le le'), i.apart j le le');
          in_use = λ a h. ((o.in_use a h, (i.in_use a h).0), (i.in_use a h).1);
        };
        knows = tt;
        owned = λ j e. absurd (none-ne-some j e);
        others = λ q f. (
          exchange-Rely s g used (k ∷ g.free) (tagged_on k h) q i
              (omega (arith, rank-tagged_on k h room)),
          λ j e.
              let (o', ne) = f j e in
              (
                record {
                  address = o'.address;
                  not_free = (==-flip k j (ne k refl), o'.not_free);
                  not_live = o'.not_live;
                  in_use = o'.in_use;
                },
                λ l e'. absurd (none-ne-some l e'),
              ),
        );
        effect = refl;
        last_grown = omega arith;
        free_grown = omega (arith, rank-tagged_on k h room);
      }
