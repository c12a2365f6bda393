-- ===== src/Stone/LockFree/FreeList/Moves.antt =====
-- The kinds of steps of the free list, and what each keeps.
use mathlib.Core.Path.{subst}
use mathlib.Core.Option.{some-injective, none-ne-some}
use recommender.Prelude.{
  at_put, ℕ, ◌+◌, ◌^◌, ◌%◌, ◌<◌, ◌≡◌, refl, ◌∙◌, sym, ap, inl, inr, arith, false, none, some, List,
  [], ◌∷◌, ◌==◌,
}
use recommender.Stone.IntrusiveList.Circle.{==-flip}
use recommender.Stone.IntrusiveList.Sequence.{Absent}
use recommender.Stone.LockFree.{get_pointer, get_tag, succ16}
use recommender.Stone.LockFree.FreeList.{FreeList, Pc, object_of, tagged_on}
use recommender.Stone.LockFree.FreeList.Invariant.{owner, IsOut, Chain, Knows, Rely}
use recommender.Stone.LockFree.Words.{make_tagged-parts}

-- The objects on the list, before and after a step: the exchange of `Push` puts its object on top, the
-- exchange of `Pop` takes the top off, and no other step changes them; `Pop` finds nothing only where
-- the list is empty.
abbrev pub Effect : Pc → Pc → List ℕ → List ℕ → Type 0
Effect (Pc.push_exchange x h) Pc.push_size c c' = c' ≡ (x ∷ c)
Effect (Pc.pop_exchange h n) (Pc.pop_size x) c c' = c ≡ (x ∷ c')
Effect Pc.pop_head (Pc.popped none) c c' = (c' ≡ c) × (c ≡ [])
Effect pc pc' c c' = c' ≡ c

-- What a thread `q` other than `pc` has to itself.
abbrev pub Foreign : Pc → Pc → List ℕ → Type 0
Foreign pc q held =
    (x : ℕ) → owner q ≡ some x → IsOut x held × ((y : ℕ) → owner pc ≡ some y → (y == x) ≡ false)

pub Chain-put :
    (offset : ℕ) (m : ℕ → ℕ) (p k v : ℕ) (xs : List ℕ)
    → Absent k xs
    → Chain offset m p xs
    → Chain offset (at_put m k v) p xs
Chain-put offset m p k v [] out c = c
Chain-put offset m p k v (x ∷ xs) out (e, lt, ab, c) =
    (e, lt, ab, rw (out.0) (Chain-put offset m (object_of offset (m x)) k v xs (out.1) c))

pub Chain-other :
    (offset : ℕ) (m : ℕ → ℕ) (p k : ℕ) (xs : List ℕ)
    → Absent k xs
    → Chain offset m p xs
    → (p == 0) ≡ false
    → (k == p) ≡ false
Chain-other offset m p k [] out c nn = absurd (ground arith)
Chain-other offset m p k (x ∷ xs) out (e, lt, ab, c) nn = rw e (out.0)

module _ (offset : ℕ) where
  pub record IsSound (s : FreeList) (count n : ℕ) (pc : Pc) (held : List ℕ) : Type 0 where
    pub chain : Chain offset s.next (get_pointer s.head) held
    pub tag_lem : get_tag s.head ≡ count % 2 ^ 16
    pub knows : Knows offset s count n pc
    pub owned : (x : ℕ) → owner pc ≡ some x → IsOut x held

  -- What a step from `pc` leaves.
  pub record Moves (s : FreeList) (count : ℕ) (pc : Pc) (held : List ℕ) (r : FreeList × Pc)
      (count' n' : ℕ) : Type 0 where
    pub held' : List ℕ
    pub sound : IsSound r.0 count' n' r.1 held'
    pub others : (q : Pc) → Foreign pc q held → Rely s r.0 count count' q × Foreign r.1 q held'
    pub effect : Effect pc r.1 held held'

  -- A step that changes at most the size, and after which the thread has the same object or none.
  pub still-Moves :
      (s : FreeList) (size count n n' : ℕ) (pc pc' : Pc) (held : List ℕ)
      → IsSound s count n pc held
      → Knows offset (record s { size = size }) count n' pc'
      → ((x : ℕ) → owner pc' ≡ some x → owner pc ≡ some x)
      → Effect pc pc' held held
      → Moves s count pc held (record s { size = size }, pc') count n'
  still-Moves s size count n n' pc pc' held i kn same eff = record {
    held' = held;
    sound = record {
      chain = i.chain;
      tag_lem = i.tag_lem;
      knows = kn;
      owned = λ x e. i.owned x (same x e);
    };
    others = λ q f. (
      record { word = inl (refl, refl, λ nn. refl); link = λ x e. refl },
      λ x e. ((f x e).0, λ y e'. (f x e).1 y (same y e')),
    );
    effect = eff;
  }

  -- The write of the link of the thread's object.
  pub put-Moves :
      (s : FreeList) (v count n : ℕ) (pc pc' : Pc) (x : ℕ) (held : List ℕ)
      → IsSound s count n pc held
      → owner pc ≡ some x
      → owner pc' ≡ owner pc
      → Knows offset (record s { next = at_put s.next x v }) count n pc'
      → Effect pc pc' held held
      → Moves s count pc held (record s { next = at_put s.next x v }, pc') count n
  put-Moves s v count n pc pc' x held i own same kn eff =
      let (out, object) = i.owned x own in
      record {
        held' = held;
        sound = record {
          chain = Chain-put offset s.next _ x v held out i.chain;
          tag_lem = i.tag_lem;
          knows = kn;
          owned = λ y e. i.owned y (sym same ∙ e);
        };
        others = λ q f. (
          record {
            word =
                inl (refl, refl, λ nn. rw (Chain-other offset s.next _ x held out i.chain nn) refl);
            link = λ y e. rw ((f y e).1 x own) refl;
          },
          λ y e. ((f y e).0, λ z e'. (f y e).1 z (sym same ∙ e')),
        );
        effect = eff;
      }

  Chain-bound : (m : ℕ → ℕ) (p : ℕ) (xs : List ℕ) → Chain offset m p xs → p < 2 ^ 47
  Chain-bound m p [] c = omega arith
  Chain-bound m p (x ∷ xs) c = omega (arith, c.0, c.1)

  -- The word that an exchange writes.
  tagged_on-parts :
      (x h count : ℕ)
      → x < 2 ^ 47
      → get_tag h ≡ count % 2 ^ 16
      → (get_pointer (tagged_on x h) ≡ x) × (get_tag (tagged_on x h) ≡ (count + 1) % 2 ^ 16)
  tagged_on-parts x h count small e =
      let (a, b) = make_tagged-parts x (succ16 (get_tag h)) (inl small) (omega arith) in
      (a, b ∙ omega (arith, e))

  -- The exchange of `Push` puts the thread's object on the list.
  pub push-Moves :
      (s : FreeList) (count n x h : ℕ) (held : List ℕ)
      → IsSound s count n (Pc.push_exchange x h) held
      → s.head ≡ h
      → Moves s count
          (Pc.push_exchange x h)
          held
          (record s { head = tagged_on x h }, Pc.push_size)
          (count + 1)
          n
  push-Moves s count n x h held i at =
      let (out, object) = i.owned x refl in
      let (wi, wt) = tagged_on-parts x h count (object.1) (ap get_tag (sym at) ∙ i.tag_lem) in
      record {
        held' = x ∷ held;
        sound = record {
          chain = (
            wi,
            object,
            out,
            subst (λ p. Chain offset s.next p held) (ap get_pointer at ∙ sym i.knows) i.chain,
          );
          tag_lem = wt;
          knows = tt;
          owned = λ y e. absurd (none-ne-some _ e);
        };
        others = λ q f. (
          record { word = inr (omega arith); link = λ y e. refl },
          λ y e.
              let ((a, b), other) = f y e in
              (((==-flip x y (other x refl), a), b), λ z e'. absurd (none-ne-some _ e')),
        );
        effect = refl;
      }

  -- The exchange of `Pop` takes the first object off the list, if fewer than 2 ^ 16 exchanges were made
  -- since it read the head.
  pub pop-Moves :
      (s : FreeList) (count n h k : ℕ) (held : List ℕ)
      → IsSound s count n (Pc.pop_exchange h k) held
      → s.head ≡ h
      → count < n + 2 ^ 16
      → Moves s count
          (Pc.pop_exchange h k)
          held
          (record s { head = tagged_on (object_of offset k) h }, Pc.pop_size (get_pointer h))
          (count + 1)
          n
  pop-Moves s count n h k [] i at few = absurd (
      let nn = i.knows.0.not_null in
      let e : get_pointer h ≡ 0 = ap get_pointer (sym at) ∙ i.chain in ground arith)
  pop-Moves s count n h k (x ∷ xs) i at few =
      let (e, object, ab, c) = i.chain in
      let seen = i.knows.0 in
      let ix : get_pointer h ≡ x = ap get_pointer (sym at) ∙ e in
      let tag : get_tag h ≡ count % 2 ^ 16 = ap get_tag (sym at) ∙ i.tag_lem in
      let same : n ≡ count = omega (arith, tag, seen.tag_lem, seen.past) in
      let nx : s.next x ≡ k = ap s.next (sym ix) ∙ i.knows.1 same in
      let small : object_of offset k < 2 ^ 47 = rw (← nx) (Chain-bound s.next _ xs c) in
      let (wi, wt) = tagged_on-parts (object_of offset k) h count small tag in
      record {
        held' = xs;
        sound = record {
          chain = subst (λ p. Chain offset s.next p xs) (ap (object_of offset) nx ∙ sym wi) c;
          tag_lem = wt;
          knows = tt;
          owned = λ y e'. subst (λ z. IsOut z xs) (sym ix ∙ some-injective _ _ e') (ab, object);
        };
        others = λ q f. (
          record { word = inr (omega arith); link = λ y e'. refl },
          λ y e'.
              let (out, object') = (f y e').0 in
              (
                (out.1, object'),
                λ z e''.
                    subst (λ w. (w == y) ≡ false) (sym ix ∙ some-injective _ _ e'')
                      (==-flip y x (out.0)),
              ),
        );
        effect = ap (λ z. z ∷ xs) (sym ix);
      }
