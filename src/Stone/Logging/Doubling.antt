-- ===== src/Stone/Logging/Doubling.antt =====
-- The numbers at which a place logs that uses `DOUBLE_NEXT` of apsara/stone/logging/logging.h: the
-- products of a first number with the powers of two.
use mathlib.Core.Path.{subst}
use recommender.Prelude.{
  ℕ, zero, suc, ◌-◌, ◌*◌, ◌/◌, ◌%◌, ◌≤◌, ◌<◌, ◌≡◌, refl, sym, ◌∙◌, ◌⊎◌, inl, inr, arith, Bool, true,
  false, ◌==◌, if◌then◌else◌, Bool-cases, ==-refl, ne→==, ==→≡,
}

-- Whether halving `k`, at most `rounds` times and while it is even, leads to `init`.
unfoldable pub halves_to : ℕ → ℕ → ℕ → Bool
halves_to zero init k = false
halves_to (suc rounds) init k =
    let rest = halves_to rounds init (k / 2) in
    if k == init then true else if k % 2 == 0 then rest else false

-- The products of `init` with the powers of two.
unfoldable pub is_doubling : ℕ → ℕ → Bool
is_doubling init k = halves_to k init k

halves_to-cases :
    (f init k : ℕ)
    → halves_to (suc f) init k ≡ true
    → (k ≡ init) ⊎ ((k % 2 ≡ 0) × (halves_to f init (k / 2) ≡ true))
unfolding halves_to
halves_to-cases f init k h = elim (Bool-cases (k == init)) [
  | inl e ↦ inl (==→≡ k init e)
  | inr ne ↦ elim (Bool-cases (k % 2 == 0)) [
    | inl e ↦ inr (==→≡ (k % 2) 0 e, rw (ne, e) at h)
    | inr odd ↦ cc (rw (ne, odd) at h)
  ]
]

not-halves_to : (init k : ℕ) → ¬ (halves_to 0 init k ≡ true)
unfolding halves_to
not-halves_to init k h = cc

pub halves_to-init : (f init k : ℕ) → halves_to f init k ≡ true → init ≤ k
halves_to-init zero init k h = absurd (not-halves_to init k h)
halves_to-init (suc f) init k h = elim (halves_to-cases f init k h) [
  | inl e ↦ omega arith
  | inr (e, h') ↦ omega (arith, halves_to-init f init (k / 2) h')
]

halves_to-zero : (f init : ℕ) → 1 ≤ init → halves_to f init 0 ≡ false
unfolding halves_to
halves_to-zero zero init pos = refl
halves_to-zero (suc f) init pos = rw (ne→== 0 init (omega arith)) (halves_to-zero f init pos)

-- More rounds than needed change nothing.
halves_to-rounds :
    (f g init k : ℕ) → 1 ≤ init → k ≤ f → k ≤ g → halves_to f init k ≡ halves_to g init k
unfolding halves_to
halves_to-rounds zero g init k pos lf lg =
    let e : k ≡ 0 = omega arith in rw e (sym (halves_to-zero g init pos))
halves_to-rounds (suc f) zero init k pos lf lg =
    let e : k ≡ 0 = omega arith in rw e (halves_to-zero (suc f) init pos)
halves_to-rounds (suc f) (suc g) init k pos lf lg =
    ground (arith, halves_to-rounds f g init (k / 2) pos (omega arith) (omega arith))

-- Between a number and its double there is no other.
pub halves_to-gap :
    (f g init n k : ℕ)
    → halves_to f init n ≡ true
    → halves_to g init k ≡ true
    → n < k
    → k < 2 * n
    → ⊥
halves_to-gap zero g init n k hn hk lo hi = not-halves_to init n hn
halves_to-gap (suc f) zero init n k hn hk lo hi = not-halves_to init k hk
halves_to-gap (suc f) (suc g) init n k hn hk lo hi = elim (halves_to-cases f init n hn) [
  | inl e ↦ elim (halves_to-cases g init k hk) [
    | inl e' ↦ omega arith
    | inr (e', hk') ↦ omega (arith, halves_to-init g init (k / 2) hk')
  ]
  | inr (e, hn') ↦ elim (halves_to-cases g init k hk) [
    | inl e' ↦ omega (arith, halves_to-init f init (n / 2) hn')
    | inr (e', hk') ↦ halves_to-gap f g init (n / 2) (k / 2) hn' hk' (omega arith) (omega arith)
  ]
]

halves_to-even :
    (g init k : ℕ) → k % 2 ≡ 0 → halves_to g init (k / 2) ≡ true → halves_to (suc g) init k ≡ true
unfolding halves_to
halves_to-even g init k e h = ground arith

pub is_doubling-pos : (init n : ℕ) → 1 ≤ init → is_doubling init n ≡ true → 1 ≤ n
unfolding is_doubling
is_doubling-pos init n pos h = omega (arith, halves_to-init n init n h)

pub is_doubling-double :
    (init n : ℕ) → 1 ≤ init → is_doubling init n ≡ true → is_doubling init (n * 2) ≡ true
unfolding is_doubling
is_doubling-double init n pos h =
    let some_n = is_doubling-pos init n pos h in
    let e : n * 2 ≡ suc (n * 2 - 1) = omega arith in
    let half : n * 2 / 2 ≡ n = omega arith in
    let h' : halves_to (n * 2 - 1) init (n * 2 / 2) ≡ true =
      rw half (halves_to-rounds (n * 2 - 1) n init n pos (omega arith) (omega arith) ∙ h) in
    subst (λ f. halves_to f init (n * 2) ≡ true) (sym e)
      (halves_to-even (n * 2 - 1) init (n * 2) (omega arith) h')

pub halves_to_self : (k init : ℕ) → 0 < k → halves_to k init init ≡ true
unfolding halves_to
halves_to_self zero init lt = absurd (omega arith)
halves_to_self (suc k) init lt = rw (==-refl init) refl
