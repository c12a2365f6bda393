-- ===== src/Stone/Logging/Rates.antt =====
-- apsara/stone/logging/logging.h: `CONST_NEXT`, `LINEAR_NEXT` and `DOUBLE_NEXT`, at a place that logs a
-- sample.
use native.Mathlib.Nat.{mod-add-mod, mod-eq_of_lt, mod_self, zero-mod}
use native.Mathlib.Decide.{dec_lt}
use recommender.Prelude.{
  ℕ, ◌+◌, ◌*◌, ◌%◌, ◌^◌, ◌≤◌, ◌<◌, ◌≡◌, refl, inl, inr, arith, true, List, ◌==◌, length, Bool-cases,
  lt→ltb, ap, ==-refl, sym, ◌∙◌, ◌-◌, ◌↔◌, ==→≡, none,
}
use recommender.Run.{ok}
use recommender.Stone.Logging.{LogInfo, Place, Site, const_next, linear_next, double_next}
use recommender.Stone.Logging.Sampling.{Action, acts, sample, Due, Follows, acts-sample}
use recommender.Stone.Logging.Doubling.{
  is_doubling, halves_to-init, halves_to-gap, is_doubling-pos, is_doubling-double, halves_to_self,
}

pub Due-const : (init c : ℕ) → Due (λ k. k == init) c init
Due-const init c k lt reached = refl

mod-step : (init n d : ℕ) → n % init ≡ 0 → (n + d) % init ≡ d % init
mod-step init n d e =
    sym (mod-add-mod n init d) ∙ rw e (ap (λ (x : ℕ). x % init) {x = 0 + d} {y = d} (omega arith))

multiple_gap :
    (init n k : ℕ)
    → 1 ≤ init
    → n % init ≡ 0
    → n < k
    → k ≤ n + init
    → (k % init ≡ 0) ↔ (k ≡ n + init)
multiple_gap init n k pos e lt le =
    let step = mod-step init n (k - n) e in
    let sum : n + (k - n) ≡ k = omega arith in
    elim (dec_lt k (n + init)) [
      | yes below ↦
          let left = mod-eq_of_lt {n = k - n} {m = init} (omega arith) in
          (
            λ z. absurd (omega (arith, ap (λ (x : ℕ). x % init) sum, step, left)),
            λ z. absurd (omega arith),
          )
      | no last ↦ (λ z. omega arith, λ z. rw z (mod-step init n init e ∙ mod_self init))
    ]

Due-linear :
    (init n next : ℕ) → 1 ≤ init → n % init ≡ 0 → next ≡ n + init → Due (λ k. k % init == 0) n next
Due-linear init n next pos e sum k lt (inl le) =
    let iff = multiple_gap init n k pos e lt (omega arith) in ground arith
Due-linear init n next pos e sum k lt (inr ge) = absurd (omega arith)

pub Due-double :
    (init n : ℕ) → 1 ≤ init → is_doubling init n ≡ true → Due (is_doubling init) n (n * 2)
unfolding is_doubling
Due-double init n pos h k lt (inr ge) = absurd (omega (arith, is_doubling-pos init n pos h))
Due-double init n pos h k lt (inl le) = elim (Bool-cases (k == n * 2)) [
  | inl e ↦ rw (==→≡ k (n * 2) e, ==-refl (n * 2)) (is_doubling-double init n pos h)
  | inr ne ↦ elim (Bool-cases (is_doubling init k)) [
    | inl d ↦ absurd (halves_to-gap n k init n k h d lt (ground arith))
    | inr d ↦ rw (ne, d) refl
  ]
]

-- A place that no pass has reached yet.
abbrev pub unreached : LogInfo → Site
unreached i = record { s_info = record i { counter = 0 }; s_next = none }

Follows-const : (init bound : ℕ) → Follows (λ k. k == init) (const_next init) bound
unfolding const_next
Follows-const init bound n le h = (init, refl, Due-const init n)

Follows-linear :
    (init bound : ℕ)
    → 1 ≤ init
    → bound + init < 2 ^ 63
    → Follows (λ k. k % init == 0) (linear_next init) bound
unfolding linear_next
Follows-linear init bound pos small n le h = (
  n + init,
  rw (lt→ltb (n + init) (2 ^ 63) (omega arith)) refl,
  Due-linear init n (n + init) pos (==→≡ (n % init) 0 h) refl,
)

Follows-double :
    (init bound : ℕ)
    → 1 ≤ init
    → 2 * bound < 2 ^ 63
    → Follows (is_doubling init) (double_next init) bound
unfolding double_next
Follows-double init bound pos small n le h =
    (n * 2, rw (lt→ltb (n * 2) (2 ^ 63) (omega arith)) refl, Due-double init n pos h)

Due-start : (init : ℕ) → 1 ≤ init → Due (is_doubling init) 0 init
unfolding is_doubling
Due-start init pos k lt (inr none_left) = absurd (omega arith)
Due-start init pos k lt (inl le) = elim (Bool-cases (k == init)) [
  | inl e ↦ rw (e, ==→≡ k init e) (halves_to_self init init pos)
  | inr ne ↦ elim (Bool-cases (is_doubling init k)) [
    | inl d ↦ absurd (ground (arith, halves_to-init k init k d))
    | inr d ↦ rw (ne, d) refl
  ]
]

-- At a place that has not been reached, `init_next` being positive and neither it nor the number of
-- passes and changes more than 2^61, no counter overflows, and the enabled passes that give a message
-- are, counted from one: with `CONST_NEXT` the one numbered `init_next`, with `LINEAR_NEXT` the
-- multiples of `init_next`, and with `DOUBLE_NEXT` its products with the powers of two.
pub acts-rates :
    {F : Type 0} (place : Place) (init_next : ℕ) (as' : List (Action F)) (i : LogInfo)
    → 1 ≤ init_next
    → init_next ≤ 2 ^ 61
    → length as' ≤ 2 ^ 61
    → let s = unreached i in
      (acts place init_next const_next as' s ≡ ok (sample place (λ k. k == init_next) as' s.s_info))
      × (acts place init_next linear_next as' s
          ≡ ok (sample place (λ k. k % init_next == 0) as' s.s_info))
      × (acts place init_next double_next as' s
          ≡ ok (sample place (is_doubling init_next) as' s.s_info))
acts-rates place init as' i pos small few = (
  acts-sample place init const_next (λ k. k == init) (2 ^ 61) (omega arith)
      (Follows-const init (2 ^ 61)) as' (unreached i) (omega arith) (Due-const init 0),
  acts-sample place init linear_next (λ k. k % init == 0) (2 ^ 61) (omega arith)
      (Follows-linear init (2 ^ 61) pos (omega arith)) as' (unreached i) (omega arith)
      (Due-linear init 0 init pos (zero-mod init) (omega arith)),
  acts-sample place init double_next (is_doubling init) (2 ^ 61) (omega arith)
      (Follows-double init (2 ^ 61) pos (omega arith)) as' (unreached i) (omega arith)
      (Due-start init pos),
)
