-- ===== src/Prelude/Families.antt =====
-- Families indexed by numbers, such as the nodes of a memory or the threads of a program: one entry
-- replaced, and a weight summed over the first entries.
use Prim.Native.Nat.{ℕ, zero, suc, ◌+◌, ◌*◌, ◌≤◌, ◌<◌}
use mathlib.Core.Path.{◌≡◌, refl}
use native.Mathlib.Decide.{dec_lt}
use native.Mathlib.Omega.{arith}
use recommender.Prelude.Tests.{◌==◌, if◌then◌else◌}

abbrev pub at_put {ℓ} : {A : Type ℓ} → (ℕ → A) → ℕ → A → ℕ → A
at_put f k v q = if k == q then v else f q

module _ {ℓ} {A : Type ℓ} (w : A → ℕ) where
  unfoldable pub total : ℕ → (ℕ → A) → ℕ
  total zero f = 0
  total (suc n) f = total n f + w (f n)

  total-beyond : (n : ℕ) (f : ℕ → A) (i : ℕ) (a : A) → n ≤ i → total n (at_put f i a) ≡ total n f
  unfolding total
  total-beyond zero f i a h = refl
  total-beyond (suc n) f i a h = ground (arith, total-beyond n f i a)

  pub total-at_put :
      (n : ℕ) (f : ℕ → A) (i : ℕ) (a : A)
      → i < n
      → total n (at_put f i a) + w (f i) ≡ total n f + w a
  unfolding total
  total-at_put zero f i a h = absurd (omega arith)
  total-at_put (suc n) f i a h = elim (dec_lt i n) [
    | yes below ↦ ground (arith, total-at_put n f i a below)
    | no last ↦ ground (arith, total-beyond n f i a)
  ]

  -- No entry weighs more than all.
  pub le-total : (n : ℕ) (f : ℕ → A) (i : ℕ) → i < n → w (f i) ≤ total n f
  unfolding total
  le-total zero f i h = absurd (omega arith)
  le-total (suc n) f i h = elim (dec_lt i n) [
    | yes below ↦ omega (arith, le-total n f i below)
    | no last ↦ ground arith
  ]

  pub two-total : (n : ℕ) (f : ℕ → A) (i j : ℕ) → i < j → j < n → w (f i) + w (f j) ≤ total n f
  unfolding total
  two-total zero f i j lt h = absurd (omega arith)
  two-total (suc n) f i j lt h = elim (dec_lt j n) [
    | yes below ↦ omega (arith, two-total n f i j lt below)
    | no last ↦ ground (arith, le-total n f i)
  ]

  pub total-bound : (b n : ℕ) (f : ℕ → A) → ((a : A) → w a ≤ b) → total n f ≤ n * b
  unfolding total
  total-bound b zero f small = omega arith
  total-bound b (suc n) f small = omega (arith, small (f n), total-bound b n f small)

  pub total-zero : (n : ℕ) (f : ℕ → A) → ((i : ℕ) → i < n → w (f i) ≡ 0) → total n f ≡ 0
  unfolding total
  total-zero zero f h = refl
  total-zero (suc n) f h =
      omega (arith, h n (omega arith), total-zero n f (λ i lt. h i (omega arith)))
