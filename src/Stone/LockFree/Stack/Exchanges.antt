-- ===== src/Stone/LockFree/Stack/Exchanges.antt =====
-- The exchanges of the lock-free stack: a node moves between a chain and a thread.
use mathlib.Core.Path.{subst}
use mathlib.Core.Option.{some-injective, none-ne-some}
use recommender.Prelude.{
  ℕ, ◌+◌, ◌^◌, ◌%◌, ◌<◌, ◌≡◌, ◌≢◌, refl, ◌∙◌, sym, ap, inl, inr, arith, false, List, [], ◌∷◌, map,
  ◌==◌,
}
use recommender.Stone.IntrusiveList.Sequence.{Absent}
use recommender.Stone.IntrusiveList.Circle.{==-flip}
use recommender.Stone.LockFree.{tag_of, index_of}
use recommender.Stone.LockFree.Stack.{LockFreeStack, Pc, tagged_on}
use recommender.Stone.LockFree.Stack.Invariant.{Chain, Apart, IsOut}
use recommender.Stone.LockFree.Stack.Moves.{IsSound, Moves}
use recommender.Stone.LockFree.Words.{make_pointer-parts}

==-ne : (p q : ℕ) → (p == q) ≡ false → p ≢ q
==-ne p q h = ground arith

Chain-bound : (m : ℕ → ℕ) (p : ℕ) (xs : List ℕ) → Chain m p xs → p < 2 ^ 32
Chain-bound m p [] c = omega arith
Chain-bound m p (x ∷ xs) c = omega (arith, c.0, c.1)

-- The word that an exchange writes, where the tag does not wrap round.
tagged_on-parts :
    (n h : ℕ)
    → n < 2 ^ 32
    → tag_of h + 1 < 2 ^ 32
    → (index_of (tagged_on n h) ≡ n) × (tag_of (tagged_on n h) ≡ tag_of h + 1)
tagged_on-parts n h hn ht =
    let (a, b) = make_pointer-parts n ((tag_of h + 1) % 2 ^ 32) hn (omega arith) in
    (a, b ∙ omega arith)

newer :
    (n h w : ℕ) → w ≡ h → tag_of (tagged_on n h) ≡ tag_of h + 1 → tag_of w < tag_of (tagged_on n h)
newer n h w e t = rw e (omega (arith, t))

Apart-cons : (k : ℕ) (xs ys : List ℕ) → Absent k xs → Apart xs ys → Apart xs (k ∷ ys)
Apart-cons k [] ys out a = tt
Apart-cons k (x ∷ xs) ys out a = ((==-flip k x (out.0), a.0), Apart-cons k xs ys (out.1) (a.1))

Apart-tail : (k : ℕ) (xs ys : List ℕ) → Apart xs (k ∷ ys) → Absent k xs × Apart xs ys
Apart-tail k [] ys a = (tt, tt)
Apart-tail k (x ∷ xs) ys a =
    let (out, rest) = Apart-tail k xs ys (a.1) in ((==-flip x k (a.0.0), out), (a.0.1, rest))

module _ {A : Type 0} where
  -- `AcquireNode` takes the first free node.
  pub take-Moves :
      (s : LockFreeStack A) (v : A) (h n : ℕ) (free held : List ℕ)
      → IsSound s (Pc.acquire_exchange v h n) free held
      → s.free_node_head ≡ h
      → tag_of h + 1 < 2 ^ 32
      → Moves s
          (Pc.acquire_exchange v h n)
          free
          held
          (record s { free_node_head = tagged_on n h }, Pc.push_value v (index_of h))
  take-Moves s v h n [] held i at short =
      absurd (==-ne _ _ (i.knows.0.0) (ap index_of (sym at) ∙ i.free_chain))
  take-Moves s v h n (x ∷ xs) held i at short =
      let (e, lt, ab, c) = i.free_chain in
      let ix : index_of h ≡ x = ap index_of (sym at) ∙ e in
      let nx : s.next_free_node x ≡ n = ap s.next_free_node (sym ix) ∙ i.knows.1 at in
      let (wi, wt) = tagged_on-parts n h (rw (← nx) (Chain-bound s.next_free_node _ xs c)) short in
      record {
        free' = xs;
        held' = held;
        sound = record {
          free_chain = subst (λ p. Chain s.next_free_node p xs) (nx ∙ sym wi) c;
          held_chain = i.held_chain;
          apart = i.apart.1;
          knows = tt;
          owned = λ k e'.
              subst (λ j. IsOut j xs held) (sym ix ∙ some-injective _ _ e') (ab, i.apart.0, lt);
        };
        others = λ q f. (
          record {
            free_word = inr (newer n h _ at wt);
            head_word = inl (refl, refl);
            node = λ k e'. (refl, refl, refl);
          },
          λ k e'.
              let (out, out', bound) = (f k e').0 in
              (
                (out.1, out', bound),
                λ j e''.
                    subst (λ y. (y == k) ≡ false) (sym ix ∙ some-injective _ _ e'')
                      (==-flip k x (out.0)),
              ),
        );
        effect = refl;
      }

  -- `ReleaseNode` puts the thread's node before the free nodes.
  pub give-Moves :
      (s : LockFreeStack A) (k : ℕ) (v : A) (h : ℕ) (free held : List ℕ)
      → IsSound s (Pc.release_exchange k v h) free held
      → s.free_node_head ≡ h
      → tag_of h + 1 < 2 ^ 32
      → Moves s
          (Pc.release_exchange k v h)
          free
          held
          (record s { free_node_head = tagged_on k h }, Pc.pop_size v)
  give-Moves s k v h free held i at short =
      let (out, out', lt) = i.owned k refl in
      let (wi, wt) = tagged_on-parts k h (omega arith) short in
      record {
        free' = k ∷ free;
        held' = held;
        sound = record {
          free_chain = (
            wi,
            lt,
            out,
            subst (λ p. Chain s.next_free_node p free) (ap index_of at ∙ sym i.knows) i.free_chain,
          );
          held_chain = i.held_chain;
          apart = (out', i.apart);
          knows = tt;
          owned = λ j e. absurd (none-ne-some _ e);
        };
        others = λ q f. (
          record {
            free_word = inr (newer k h _ at wt);
            head_word = inl (refl, refl);
            node = λ j e. (refl, refl, refl);
          },
          λ j e.
              let ((a, b, c), other) = f j e in
              (((==-flip k j (other k refl), a), b, c), λ j' e'. absurd (none-ne-some _ e')),
        );
        effect = refl;
      }

  -- The exchange of `Push` puts the thread's node on the stack.
  pub push-Moves :
      (s : LockFreeStack A) (v : A) (k h : ℕ) (free held : List ℕ)
      → IsSound s (Pc.push_exchange v k h) free held
      → s.head ≡ h
      → tag_of h + 1 < 2 ^ 32
      → Moves s (Pc.push_exchange v k h) free held (record s { head = tagged_on k h }, Pc.push_size)
  push-Moves s v k h free held i at short =
      let (out, out', lt) = i.owned k refl in
      let (wi, wt) = tagged_on-parts k h (omega arith) short in
      record {
        free' = free;
        held' = k ∷ held;
        sound = record {
          free_chain = i.free_chain;
          held_chain = (
            wi,
            lt,
            out',
            subst (λ p. Chain s.next p held) (ap index_of at ∙ sym (i.knows.1)) i.held_chain,
          );
          apart = Apart-cons k free held out i.apart;
          knows = tt;
          owned = λ j e. absurd (none-ne-some _ e);
        };
        others = λ q f. (
          record {
            free_word = inl (refl, refl);
            head_word = inr (newer k h _ at wt);
            node = λ j e. (refl, refl, refl);
          },
          λ j e.
              let ((a, b, c), other) = f j e in
              ((a, (==-flip k j (other k refl), b), c), λ j' e'. absurd (none-ne-some _ e')),
        );
        effect = ap (λ u. u ∷ map s.value held) (i.knows.0);
      }

  -- The exchange of `Pop` takes the first node off the stack.
  pub pop-Moves :
      (s : LockFreeStack A) (h n : ℕ) (free held : List ℕ)
      → IsSound s (Pc.pop_exchange h n) free held
      → s.head ≡ h
      → tag_of h + 1 < 2 ^ 32
      → Moves s
          (Pc.pop_exchange h n)
          free
          held
          (record s { head = tagged_on n h }, Pc.pop_value (index_of h))
  pop-Moves s h n free [] i at short =
      absurd (==-ne _ _ (i.knows.0.0) (ap index_of (sym at) ∙ i.held_chain))
  pop-Moves s h n free (x ∷ xs) i at short =
      let (e, lt, ab, c) = i.held_chain in
      let ix : index_of h ≡ x = ap index_of (sym at) ∙ e in
      let nx : s.next x ≡ n = ap s.next (sym ix) ∙ i.knows.1 at in
      let (wi, wt) = tagged_on-parts n h (rw (← nx) (Chain-bound s.next _ xs c)) short in
      let (out, apart) = Apart-tail x free xs i.apart in
      record {
        free' = free;
        held' = xs;
        sound = record {
          free_chain = i.free_chain;
          held_chain = subst (λ p. Chain s.next p xs) (nx ∙ sym wi) c;
          apart = apart;
          knows = tt;
          owned =
              λ k e'. subst (λ j. IsOut j free xs) (sym ix ∙ some-injective _ _ e') (out, ab, lt);
        };
        others = λ q f. (
          record {
            free_word = inl (refl, refl);
            head_word = inr (newer n h _ at wt);
            node = λ k e'. (refl, refl, refl);
          },
          λ k e'.
              let (out, out', bound) = (f k e').0 in
              (
                (out, out'.1, bound),
                λ j e''.
                    subst (λ y. (y == k) ≡ false) (sym ix ∙ some-injective _ _ e'')
                      (==-flip k x (out'.0)),
              ),
        );
        effect = ap (λ y. s.value y ∷ map s.value xs) (sym ix);
      }
