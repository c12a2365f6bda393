-- ===== src/Stone/LockFree/Queue/Allocation.antt =====
-- The allocation of a node of the lock-free queue, and the words that are exchanged.
use recommender.Prelude.{
  ℕ, ◌+◌, ◌^◌, ◌<◌, ◌≡◌, refl, ◌∙◌, sym, ap, inl, arith, false, List, [], ◌∷◌, ◌==◌, at_put,
}
use mathlib.Core.Path.{subst}
use recommender.Stone.IntrusiveList.Circle.{AllNodes}
use recommender.Stone.IntrusiveList.Sequence.{Absent, Chain}
use recommender.Stone.LockFree.{get_pointer, get_tag, get_next_tag}
use recommender.Stone.LockFree.Queue.{LockFreeQueue, Pc, tagged_on}
use recommender.Stone.LockFree.Queue.Invariant.{Ghost, IsOut, IsSound}
use recommender.Stone.LockFree.Queue.Moves.{
  Moves, IsQuiet, quiet-IsSound, quiet-Rely, contents-quiet, Chain-other,
}
use recommender.Stone.LockFree.Queue.Positions.{max_position, IsAddress, rank, get_next_tag-rank}
use recommender.Stone.LockFree.Tags.{get_tag-make_tagged}
use recommender.Stone.LockFree.Words.{IsCanonical, make_tagged-parts}
use mathlib.Core.Option.{some-injective}

get_next_tag-bound : (p : ℕ) → get_next_tag p < 2 ^ 16
unfolding get_next_tag
get_next_tag-bound p = ground arith

pub get_pointer-tagged_on : (a w : ℕ) → IsCanonical a → get_pointer (tagged_on a w) ≡ a
get_pointer-tagged_on a w c = (make_tagged-parts a (get_next_tag w) c (get_next_tag-bound w)).0

pub rank-tagged_on :
    (a w : ℕ)
    → rank (get_tag w) < max_position
    → rank (get_tag (tagged_on a w)) ≡ rank (get_tag w) + 1
rank-tagged_on a w lt =
    ap rank (get_tag-make_tagged a (get_next_tag w) (get_next_tag-bound w)) ∙ get_next_tag-rank w lt

-- The first free node, and the others.
pub Chain-uncons :
    (m : ℕ → ℕ) (p : ℕ) (free : List ℕ)
    → Chain m p free
    → (p == 0) ≡ false
    → (xs : List ℕ) × (free ≡ (p ∷ xs)) × Absent p xs × Chain m (m p) xs
Chain-uncons m p [] e ne = absurd (ground (arith, e, ne))
Chain-uncons m p (x ∷ xs) (e, _, ab, c) ne = (xs, ap (λ y. y ∷ xs) (sym e), rw e ab, rw e c)

pub Chain-IsCanonical :
    (m : ℕ → ℕ) (p : ℕ) (xs : List ℕ) → Chain m p xs → AllNodes IsAddress xs → IsCanonical p
Chain-IsCanonical m p [] e al = rw e (inl (omega arith))
Chain-IsCanonical m p (x ∷ xs) (e, _, _, _) al = rw e (al.0.1)

weaken-IsOut : (g : Ghost) (used : List ℕ) (new k : ℕ) → IsOut g used k → IsOut g (new ∷ used) k
weaken-IsOut g used new k o = record {
  address = o.address;
  not_free = o.not_free;
  not_live = o.not_live;
  in_use = λ a h. o.in_use a (h.1);
}

module _ {A : Type 0} where
  pub weaken-IsSound :
      (s : LockFreeQueue A) (g : Ghost) (used : List ℕ) (new : ℕ)
      → IsSound s g used
      → IsSound s g (new ∷ used)
  weaken-IsSound s g used new i = record {
    free_chain = i.free_chain;
    free_addresses = i.free_addresses;
    head_word = i.head_word;
    tail_word = i.tail_word;
    ordered = i.ordered;
    few = i.few;
    addresses = i.addresses;
    linked = i.linked;
    links = i.links;
    distinct = i.distinct;
    apart = i.apart;
    in_use = λ a h. i.in_use a (h.1);
  }

  pub weaken-Moves :
      (s : LockFreeQueue A) (pc : Pc A) (g : Ghost) (used : List ℕ) (r : LockFreeQueue A × Pc A)
      (new : ℕ)
      → Moves s pc g used used r
      → Moves s pc g used (new ∷ used) r
  weaken-Moves s pc g used r new m = record {
    ghost = m.ghost;
    sound = weaken-IsSound r.0 m.ghost used new m.sound;
    knows = m.knows;
    owned = λ k e. weaken-IsOut m.ghost used new k (m.owned k e);
    others = λ q f. (
      (m.others q f).0,
      λ k e. (weaken-IsOut m.ghost used new k (((m.others q f).1 k e).0), ((m.others q f).1 k e).1),
    );
    effect = m.effect;
    last_grown = m.last_grown;
    free_grown = m.free_grown;
  }

  -- `new` gives an address that is not in use.
  pub allocate-Moves :
      (s : LockFreeQueue A) (v : A) (g : Ghost) (used : List ℕ) (new : ℕ)
      → IsSound s g used
      → IsAddress new
      → Absent new used
      → Moves s
          (Pc.acquire_head v)
          g
          used
          (new ∷ used)
          (record s { next_free_node = at_put s.next_free_node new 0 }, Pc.push_value v new)
  allocate-Moves s v g used new i address fresh =
      let (out, apart) = i.in_use new fresh in
      let s' : LockFreeQueue A = record s { next_free_node = at_put s.next_free_node new 0 } in
      let w : IsQuiet s s' g (Pc.acquire_head v) used = record {
        head = refl;
        tail = refl;
        free_node_head = refl;
        first_free =
            rw (Chain-other s.next_free_node _ new g.free out (address.0) i.free_chain) refl;
        link = i.links;
        k = new;
        not_free = out;
        not_live = apart;
        not_foreign = λ j o h. o.in_use new fresh;
        value = λ a ne. refl;
        next = λ a ne. refl;
        next_free_node = λ a ne. rw ne refl;
      } in
      record {
        ghost = g;
        sound = weaken-IsSound s' g used new (quiet-IsSound s s' g (Pc.acquire_head v) used i w);
        knows = tt;
        owned = λ k e.
            (subst (IsOut g (new ∷ used)) (some-injective new k e)
              record { address = address; not_free = out; not_live = apart; in_use = λ a h. h.0 });
        others = λ q f. (
          quiet-Rely s s' g (Pc.acquire_head v) q used i w f,
          λ k e. (
            weaken-IsOut g used new k ((f k e).0),
            λ j e'. rw (← some-injective new j e') ((f k e).0.in_use new fresh),
          ),
        );
        effect = contents-quiet s s' g (Pc.acquire_head v) used i w;
        last_grown = omega arith;
        free_grown = omega arith;
      }
