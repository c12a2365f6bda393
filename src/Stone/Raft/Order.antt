-- ===== src/Stone/Raft/Order.antt =====
-- apsara/stone/consensus/raft/log_id.h: the order of `LogId`.
use recommender.Prelude.{
  ◌<◌, ◌≡◌, ◌↔◌, ◌⊎◌, inl, inr, arith, true, false, ◌&&◌, ltb, not, ◌==◌, Bool-cases, refl, ltb→lt,
  ==→≡, lt→ltb, eq→==,
}
use recommender.Stone.Raft.{LogId, less, equal, less_equal}

module _ {I : Type 0} (ids : LogId I) where
  -- The order of pairs of a term and a number, the term first.
  abbrev pub IsBefore : I → I → Type 0
  IsBefore a b =
      (ids.term a < ids.term b) ⊎ ((ids.term a ≡ ids.term b) × (ids.seq_id a < ids.seq_id b))

  less-IsBefore : (a b : I) → less ids a b ≡ true → IsBefore a b
  unfolding less
  less-IsBefore a b h = elim (Bool-cases (ltb (ids.term a) (ids.term b))) [
    | inl lt ↦ inl (ltb→lt _ _ lt)
    | inr no_lt ↦ elim (Bool-cases (ids.term a == ids.term b)) [
      | inl e ↦ inr (==→≡ _ _ e, ltb→lt _ _ (rw (no_lt, e) at h))
      | inr ne ↦ cc (rw (no_lt, ne) at h)
    ]
  ]

  IsBefore-less : (a b : I) → IsBefore a b → less ids a b ≡ true
  unfolding less
  IsBefore-less a b (inl lt) = rw (lt→ltb _ _ lt) refl
  IsBefore-less a b (inr (e, lt)) = elim (Bool-cases (ltb (ids.term a) (ids.term b))) [
    | inl q ↦ rw q refl
    | inr q ↦ rw (q, eq→== _ _ e, lt→ltb _ _ lt) refl
  ]

  equal-eq :
      (a b : I) → equal ids a b ≡ true → (ids.term a ≡ ids.term b) × (ids.seq_id a ≡ ids.seq_id b)
  unfolding equal
  equal-eq a b h = ground arith

  equal_refl :
      (a b : I) → (ids.term a ≡ ids.term b) × (ids.seq_id a ≡ ids.seq_id b) → equal ids a b ≡ true
  unfolding equal
  equal_refl a b (e, e') = rw (eq→== _ _ e, eq→== _ _ e') refl

  IsBefore-trans : (a b c : I) → IsBefore a b → IsBefore b c → IsBefore a c
  IsBefore-trans a b c (inl p) (inl q) = inl (omega arith)
  IsBefore-trans a b c (inl p) (inr (e, q)) = inl (omega arith)
  IsBefore-trans a b c (inr (e, p)) (inl q) = inl (omega arith)
  IsBefore-trans a b c (inr (e, p)) (inr (f, q)) = inr (omega arith, omega arith)

  -- `<` is the order of pairs of a term and a number, the term first. It is transitive, and for any two
  -- ids exactly one of `a < b`, `a == b` and `b < a` holds; `==` says that both their fields are equal,
  -- and `a <= b` is the contrary of `b < a`.
  pub less-order :
      (a b c : I)
      → ((less ids a b ≡ true) ↔ IsBefore a b)
        × (less ids a b ≡ true → less ids b c ≡ true → less ids a c ≡ true)
        × ((equal ids a b ≡ true) ↔ ((ids.term a ≡ ids.term b) × (ids.seq_id a ≡ ids.seq_id b)))
        × (equal ids a b ≡ (not (less ids a b) && not (less ids b a)))
        × ((less ids a b && less ids b a) ≡ false)
        × (less_equal ids a b ≡ not (less ids b a))
  unfolding less equal less_equal
  less-order a b c = (
    (less-IsBefore a b, IsBefore-less a b),
    λ h h'. IsBefore-less a c (IsBefore-trans a b c (less-IsBefore a b h) (less-IsBefore b c h')),
    (equal-eq a b, equal_refl a b),
    ground arith,
    ground arith,
    ground arith,
  )
