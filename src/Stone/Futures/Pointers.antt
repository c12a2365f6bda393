-- ===== src/Stone/Futures/Pointers.antt =====
-- `FuturePtr`: the reference counts of the futures that a set of pointers holds.
use recommender.Prelude.{ℕ, ◌+◌, ◌-◌, ◌<◌, ◌≡◌, false, ◌==◌, if◌then◌else◌, at_put, total}
use recommender.Stone.Futures.{FuturePtr, release, copy, reset, close, assign}

-- The pointers, by number, and how many references other code has to each future.
pub record Owners {ℓ} (S : Type ℓ) : Type ℓ where
  pub store : S
  pub pointer : ℕ → FuturePtr
  pub held : ℕ → ℕ

-- What is done with a pointer, by its number: the construction as a copy of the second, `operator=`,
-- `Reset`, `Release`, and the destructor.
pub data Action : Type 0 where
  copying : ℕ → ℕ → Action
  assigning : ℕ → ℕ → Action
  resetting : ℕ → ℕ → Action
  releasing : ℕ → Action
  closing : ℕ → Action

-- The first `n` pointers are in use: copies are made of one of them in memory that holds none, and a
-- reference that is taken over is there.
abbrev pub IsAllowed {ℓ} : {S : Type ℓ} → ℕ → Owners S → Action → Type 0
IsAllowed n m (Action.copying i j) = (i < n) × (j < n) × (m.pointer i ≡ 0)
IsAllowed n m (Action.assigning i j) = (i < n) × (j < n)
IsAllowed n m (Action.resetting i f) = (i < n) × ((f == 0) ≡ false → 0 < m.held f)
IsAllowed n m (Action.releasing i) = i < n
IsAllowed n m (Action.closing i) = i < n

-- Whether a pointer that is not null points at a future.
abbrev pub points : ℕ → FuturePtr → ℕ
points f p = if p == f then 1 else 0

module _ {ℓ} {S : Type ℓ} (ref unref : S → ℕ → S) (count : S → ℕ → ℕ) where
  -- `Reset` takes over a reference that other code had, and `Release` hands one to it.
  unfoldable pub act : Owners S → Action → Owners S
  act m (Action.copying i j) =
      let (s, p) = copy ref unref m.store (m.pointer j) in
      record m { store = s; pointer = at_put m.pointer i p }
  act m (Action.assigning i j) =
      let (s, p) = assign ref unref m.store (m.pointer i) (m.pointer j) in
      record m { store = s; pointer = at_put m.pointer i p }
  act m (Action.resetting i f) =
      let (s, p) = reset ref unref m.store (m.pointer i) f in
      record { store = s; pointer = at_put m.pointer i p; held = λ g. m.held g - points g f }
  act m (Action.releasing i) =
      let (f, p) = release (m.pointer i) in
      record m { pointer = at_put m.pointer i p; held = λ g. m.held g + points g f }
  act m (Action.closing i) = record m {
    store = close ref unref m.store (m.pointer i);
    pointer = at_put m.pointer i 0;
  }

  -- Each future counts the pointers to it and the references that other code has.
  abbrev pub IsBalanced : ℕ → Owners S → Type 0
  IsBalanced n m =
      (f : ℕ) → (f == 0) ≡ false → count m.store f ≡ total (points f) n m.pointer + m.held f

  -- The references that an action gives back are not the last ones of their future.
  abbrev pub KeepsAll : Owners S → Action → Type 0
  KeepsAll m (Action.copying i j) = Unit {0}
  KeepsAll m (Action.assigning i j) = (m.pointer i == 0) ≡ false → 1 < count m.store (m.pointer i)
  KeepsAll m (Action.resetting i f) = (m.pointer i == 0) ≡ false → 1 < count m.store (m.pointer i)
  KeepsAll m (Action.releasing i) = Unit {0}
  KeepsAll m (Action.closing i) = (m.pointer i == 0) ≡ false → 1 < count m.store (m.pointer i)
