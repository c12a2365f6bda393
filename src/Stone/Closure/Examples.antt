-- ===== src/Stone/Closure/Examples.antt =====
-- A closure that adds to a number: one argument is bound, one comes with `Run`.
use recommender.Prelude.{ℕ, ◌+◌, ◌*◌, ◌≡◌, refl, List, [], ◌∷◌}
use recommender.Run.{ok, fault}
use recommender.Stone.Closure.{
  Args, run_function, run_method, new_closure, new_permanent_closure, new_method_closure,
  new_permanent_method_closure,
}
use recommender.Stone.Closure.Calls.{runs, calls, once, run_function-calls, run_method-calls}

abbrev numbers : List (Type 0)
numbers = ℕ ∷ []

abbrev add : Args (ℕ ∷ ℕ ∷ []) → ℕ → ℕ × ℕ
add (a, (b, u)) s = (s + a * b, s)

abbrev arguments : List (Args numbers)
arguments = (3, tt) ∷ (5, tt) ∷ []

abbrev bound : Args numbers
bound = (2, tt)

run_function-calls_example :
    let f = λ (b : Args numbers). add (2, b) in
    let permanent = new_permanent_closure {S = ℕ} {R = ℕ} numbers numbers add bound in
    let c = new_closure {S = ℕ} {R = ℕ} numbers numbers add bound in
    (runs (run_function numbers numbers) permanent arguments 7
      ≡ ok (calls f arguments 7, permanent))
    × (runs (run_function numbers numbers) c arguments 7 ≡ once f c arguments 7)
run_function-calls_example = run_function-calls numbers numbers add bound arguments 7

once_twice :
    runs
      (run_function {S = ℕ} {R = ℕ} numbers numbers)
      (new_closure numbers numbers add bound)
      arguments
      7
    ≡ fault
unfolding runs run_function new_closure
once_twice = refl

abbrev scaled : ℕ → Args (ℕ ∷ ℕ ∷ []) → ℕ → ℕ × ℕ
scaled k (a, (b, u)) s = (s + k * a * b, s)

run_method-calls_example :
    let f = λ (b : Args numbers). scaled 10 (2, b) in
    let permanent =
      new_permanent_method_closure {S = ℕ} {R = ℕ} {T = ℕ} numbers numbers 10 scaled bound in
    let c = new_method_closure {S = ℕ} {R = ℕ} {T = ℕ} numbers numbers 10 scaled bound in
    (runs (run_method numbers numbers) permanent arguments 7 ≡ ok (calls f arguments 7, permanent))
    × (runs (run_method numbers numbers) c arguments 7 ≡ once f c arguments 7)
run_method-calls_example = run_method-calls numbers numbers 10 scaled bound arguments 7
