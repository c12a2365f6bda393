-- ===== src/Stone/LockFree/FreeList/Interleaving.antt =====
-- All threads of a free list, in any order: the invariant, and what the callers owe to it.
use mathlib.Core.Path.{subst}
use recommender.Prelude.{
  at_put, ℕ, ◌≡◌, ◌≢◌, refl, ◌∙◌, sym, ap, inl, inr, false, true, some, List, ◌==◌, ==→≡,
  Bool-cases,
}
use recommender.Stone.IntrusiveList.Circle.{==-flip}
use recommender.Stone.LockFree.FreeList.{FreeList, Pc, step, System, call, is_outside}
use recommender.Stone.LockFree.FreeList.Invariant.{owner, IsOut, Knows, Rely, Knows-Rely}
use recommender.Stone.LockFree.FreeList.Moves.{Chain-put, Chain-other, Foreign, IsSound}
use recommender.Stone.LockFree.FreeList.Refinement.{counted, read_at}

-- The exchanges so far, and how many there were when each thread last read the head in `Pop`.
pub record Clock : Type 0 where
  pub count : ℕ
  pub since : ℕ → ℕ

-- An object that is not on the list, and that no thread has.
pub record IsFree (m : System) (c : List ℕ) (x : ℕ) : Type 0 where
  pub out : IsOut x c
  pub unowned : (u : ℕ) → owner (m.thread u) ≢ some x

unowned-other :
    (m : System) (c : List ℕ) (x u y : ℕ)
    → IsFree m c x
    → owner (m.thread u) ≡ some y
    → (x == y) ≡ false
unowned-other m c x u y free e = elim (Bool-cases (x == y)) [
  | inl q ↦ absurd (free.unowned u (e ∙ ap some (sym (==→≡ x y q))))
  | inr q ↦ q
]

Foreign-flip :
    (p q : Pc) (held : List ℕ)
    → Foreign p q held
    → ((x : ℕ) → owner p ≡ some x → IsOut x held)
    → Foreign q p held
Foreign-flip p q held f out x e = (out x e, λ y e'. ==-flip x y ((f y e').1 x e))

module _ (offset : ℕ) where
  -- The clock after a step of the thread `t`.
  unfoldable pub tick : System → ℕ → Clock → Clock
  tick m t k =
      let pc = m.thread t in
      record {
        count = counted pc (step offset m.list pc).1 k.count;
        since = at_put k.since t (read_at pc k.count (k.since t));
      }

  pub record IsConsistent (m : System) (k : Clock) (held : List ℕ) : Type 0 where
    pub sound : (t : ℕ) → IsSound offset m.list k.count (k.since t) (m.thread t) held
    pub foreign : (t u : ℕ) → (t == u) ≡ false → Foreign (m.thread t) (m.thread u) held

  -- The threads after a step of the thread `t`.
  pub moved-IsConsistent :
      (m : System) (k : Clock) (t count' n' : ℕ) (r : FreeList × Pc) (held held' : List ℕ)
      → IsConsistent m k held
      → IsSound offset r.0 count' n' r.1 held'
      → ((u : ℕ)
          → (t == u) ≡ false
          → Foreign (m.thread t) (m.thread u) held
          → Rely m.list r.0 k.count count' (m.thread u) × Foreign r.1 (m.thread u) held')
      → IsConsistent
          (record { list = r.0; thread = at_put m.thread t r.1 })
          (record { count = count'; since = at_put k.since t n' })
          held'
  moved-IsConsistent m k t count' n' r held held' h own others = record {
    sound = λ u. elim (Bool-cases (t == u)) [
      | inl e ↦ rw e own
      | inr e ↦ rw e (
          let (rely, apart) = others u e (h.foreign t u e) in
          record {
            chain = own.chain;
            tag_lem = own.tag_lem;
            knows =
                Knows-Rely offset m.list r.0 k.count count' (k.since u) (m.thread u) rely
                  (h.sound u).knows;
            owned = λ x e'. (apart x e').0;
          })
    ];
    foreign = λ u w ne. elim (Bool-cases (t == u)) [
      | inl e ↦
          let ne' : (t == w) ≡ false = rw (==→≡ t u e) ne in
          rw (e, ne') ((others w ne' (h.foreign t w ne')).1)
      | inr e ↦ elim (Bool-cases (t == w)) [
        | inl e' ↦
            rw (e, e')
              (Foreign-flip r.1 (m.thread u) held' ((others u e (h.foreign t u e)).1) own.owned)
        | inr e' ↦
            rw (e, e')
              (λ x q. (((others w e' (h.foreign t w e')).1 x q).0, (h.foreign u w ne x q).1))
      ]
    ];
  }

  -- A call, with an object that is free if it is one of `Push`.
  call-IsConsistent :
      (m : System) (k : Clock) (t : ℕ) (pc : Pc) (held : List ℕ)
      → IsConsistent m k held
      → is_outside (m.thread t) ≡ true
      → Knows offset m.list k.count (k.since t) pc
      → ((x : ℕ) → owner pc ≡ some x → IsFree m held x)
      → IsConsistent (record m { thread = at_put m.thread t pc }) k held
  call-IsConsistent m k t pc held h out kn own = record {
    sound = λ u. elim (Bool-cases (t == u)) [
      | inl e ↦ rw e record {
        chain = (h.sound t).chain;
        tag_lem = (h.sound t).tag_lem;
        knows = subst (λ v. Knows offset m.list k.count (k.since v) pc) (==→≡ t u e) kn;
        owned = λ x e'. (own x e').out;
      }
      | inr e ↦ rw e (h.sound u)
    ];
    foreign = λ u w ne. elim (Bool-cases (t == u)) [
      | inl e ↦
          let ne' : (t == w) ≡ false = rw (==→≡ t u e) ne in
          rw (e, ne')
            (λ x q. ((h.sound w).owned x q, λ y q'. unowned-other m held y w x (own y q') q))
      | inr e ↦ elim (Bool-cases (t == w)) [
        | inl e' ↦
            rw (e, e')
              (λ x q.
                ((own x q).out, λ y q'. ==-flip x y (unowned-other m held x u y (own x q) q')))
        | inr e' ↦ rw (e, e') (h.foreign u w ne)
      ]
    ];
  }

  pub called-IsConsistent :
      (m : System) (k : Clock) (t : ℕ) (pc : Pc) (held : List ℕ)
      → IsConsistent m k held
      → Knows offset m.list k.count (k.since t) pc
      → (is_outside (m.thread t) ≡ true → (x : ℕ) → owner pc ≡ some x → IsFree m held x)
      → IsConsistent (call m t pc) k held
  unfolding call
  called-IsConsistent m k t pc held h kn own = elim (Bool-cases (is_outside (m.thread t))) [
    | inl e ↦ rw e (call-IsConsistent m k t pc held h e kn (own e))
    | inr e ↦ rw e h
  ]

  -- A write of the link of a free object.
  pub overwrite-IsConsistent :
      (m : System) (k : Clock) (x v : ℕ) (held : List ℕ)
      → IsConsistent m k held
      → IsFree m held x
      → IsConsistent (record m { list = record m.list { next = at_put m.list.next x v } }) k held
  overwrite-IsConsistent m k x v held h free = record {
    sound = λ u.
        let i = h.sound u in
        record {
          chain = Chain-put offset m.list.next _ x v held (free.out.0) i.chain;
          tag_lem = i.tag_lem;
          knows =
              Knows-Rely offset m.list (record m.list { next = at_put m.list.next x v }) k.count
                k.count (k.since u) (m.thread u)
                record {
                  word = inl (
                    refl,
                    refl,
                    λ nn. rw (Chain-other offset m.list.next _ x held (free.out.0) i.chain nn) refl,
                  );
                  link = λ y e. rw (unowned-other m held x u y free e) refl;
                }
                i.knows;
          owned = i.owned;
        };
    foreign = h.foreign;
  }
