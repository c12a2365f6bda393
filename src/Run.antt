-- ===== src/Run.antt =====
-- The outcome of C++ code: a value, a write past the end of an array (`overrun`), other undefined
-- behaviour (`fault`), a failed assertion or check, which aborts (`aborted`), or a loop that has used up
-- the rounds it was given (`running`).
use recommender.Prelude.{ℕ, Bool, true, false, List, ltb, ◌==◌, if◌then◌else◌}
use recommender.Prelude.{length, set}

pub data Run {ℓ} (A : Type ℓ) : Type ℓ where
  ok : A → Run A
  overrun : Run A
  fault : Run A
  aborted : Run A
  running : Run A

infixl 5 ◌>>=◌ ◌>>◌
abbrev pub ◌>>=◌ {ℓ κ} : {A : Type ℓ} {B : Type κ} → Run A → (A → Run B) → Run B
ok a >>= f = f a
overrun >>= f = overrun
fault >>= f = fault
aborted >>= f = aborted
running >>= f = running

abbrev pub ◌>>◌ {ℓ} : {B : Type ℓ} → Run (Unit {0}) → Run B → Run B
m >> k = m >>= λ _. k

-- `assert(test)`: the build does not define NDEBUG.
abbrev pub assert : Bool → Run (Unit {0})
assert true = ok tt
assert false = aborted

-- `a[i] = v` for an array of `length a` elements.
abbrev pub store {ℓ} : {A : Type ℓ} → List A → ℕ → A → Run (List A)
store a i v = if ltb i (length a) then ok (set a i v) else overrun

-- A division by `n`.
abbrev pub divide_by : ℕ → Run (Unit {0})
divide_by n = if n == 0 then fault else ok tt
