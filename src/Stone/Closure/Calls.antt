-- ===== src/Stone/Closure/Calls.antt =====
-- Sequences of calls of `Run` on one closure of apsara/stone/base/closure.h.
use recommender.Prelude.{◌≡◌, refl, Option, none, List, [], ◌∷◌, ◌++◌}
use recommender.Run.{Run, ok, fault, ◌>>=◌}
use recommender.Stone.Closure.{
  Args, both_args, run_method, run_function, new_method_closure, new_permanent_method_closure,
  new_closure, new_permanent_closure,
}

-- One `Run` after the other: the state, the results, and the closure at the end.
unfoldable pub runs :
    {C B S R : Type 0} → (C → B → S → Run ((S × R) × C)) → C → List B → S → Run ((S × List R) × C)
runs run c [] s = ok ((s, []), c)
runs run c (b ∷ bs) s = do
  (r, c') ← run c b s
  (rs, c'') ← runs run c' bs (r.0)
  ok ((rs.0, r.1 ∷ rs.1), c'')

-- Calls of a function.
unfoldable pub calls : {B S R : Type 0} → (B → S → S × R) → List B → S → S × List R
calls f [] s = (s, [])
calls f (b ∷ bs) s = let r = f b s in let rs = calls f bs (r.0) in (rs.0, r.1 ∷ rs.1)

-- What a closure that deletes itself does: one call, and a second one is made on a deleted object.
unfoldable pub once :
    {C B S R : Type 0} → (B → S → S × R) → Option C → List B → S → Run ((S × List R) × Option C)
unfolding calls
once f c [] s = ok ((s, []), c)
once f c (b ∷ []) s = ok (calls f (b ∷ []) s, none)
once f c (b ∷ b' ∷ bs) s = fault

module _ {S R : Type 0} (As Bs : List (Type 0)) where
  permanent-calls :
      (func : Args (As ++ Bs) → S → S × R) (args : Args As) (bs : List (Args Bs)) (s : S)
      → let c = new_permanent_closure As Bs func args in
        runs (run_function As Bs) c bs s ≡ ok (calls (λ b. func (both_args As Bs args b)) bs s, c)
  unfolding runs calls new_permanent_closure run_function
  permanent-calls func args [] s = refl
  permanent-calls func args (b ∷ bs) s =
      rw (permanent-calls func args bs (func (both_args As Bs args b) s).0) refl

  new_closure-once :
      (func : Args (As ++ Bs) → S → S × R) (args : Args As) (bs : List (Args Bs)) (s : S)
      → let c = new_closure As Bs func args in
        runs (run_function As Bs) c bs s ≡ once (λ b. func (both_args As Bs args b)) c bs s
  unfolding runs calls once new_closure run_function
  new_closure-once func args [] s = refl
  new_closure-once func args (b ∷ []) s = refl
  new_closure-once func args (b ∷ b' ∷ bs) s = refl

  -- A closure of a function that `NewPermanentClosure` makes calls the function at each `Run`, the bound
  -- arguments before those of `Run`, and lives on; one that `NewClosure` makes calls it at the first
  -- `Run` and is deleted then, so that a second `Run` is a use of a deleted object.
  pub run_function-calls :
      (func : Args (As ++ Bs) → S → S × R) (args : Args As) (bs : List (Args Bs)) (s : S)
      → let f = λ (b : Args Bs). func (both_args As Bs args b) in
        let permanent = new_permanent_closure As Bs func args in
        let c = new_closure As Bs func args in
        (runs (run_function As Bs) permanent bs s ≡ ok (calls f bs s, permanent))
        × (runs (run_function As Bs) c bs s ≡ once f c bs s)
  run_function-calls func args bs s =
      (permanent-calls func args bs s, new_closure-once func args bs s)

module _ {S R T : Type 0} (As Bs : List (Type 0)) where
  permanent_method-calls :
      (obj : T) (func : T → Args (As ++ Bs) → S → S × R) (args : Args As) (bs : List (Args Bs))
      (s : S)
      → let c = new_permanent_method_closure As Bs obj func args in
        runs (run_method As Bs) c bs s ≡ ok (calls (λ b. func obj (both_args As Bs args b)) bs s, c)
  unfolding runs calls new_permanent_method_closure run_method
  permanent_method-calls obj func args [] s = refl
  permanent_method-calls obj func args (b ∷ bs) s =
      rw (permanent_method-calls obj func args bs (func obj (both_args As Bs args b) s).0) refl

  method_closure-once :
      (obj : T) (func : T → Args (As ++ Bs) → S → S × R) (args : Args As) (bs : List (Args Bs))
      (s : S)
      → let c = new_method_closure As Bs obj func args in
        runs (run_method As Bs) c bs s ≡ once (λ b. func obj (both_args As Bs args b)) c bs s
  unfolding runs calls once new_method_closure run_method
  method_closure-once obj func args [] s = refl
  method_closure-once obj func args (b ∷ []) s = refl
  method_closure-once obj func args (b ∷ b' ∷ bs) s = refl

  -- A closure of a method that `NewPermanentClosure` makes calls the method, on the object that it was
  -- made with, at each `Run`, the bound arguments before those of `Run`, and lives on; one that
  -- `NewClosure` makes calls it at the first `Run` and is deleted then, so that a second `Run` is a use
  -- of a deleted object.
  pub run_method-calls :
      (obj : T) (func : T → Args (As ++ Bs) → S → S × R) (args : Args As) (bs : List (Args Bs))
      (s : S)
      → let f = λ (b : Args Bs). func obj (both_args As Bs args b) in
        let permanent = new_permanent_method_closure As Bs obj func args in
        let c = new_method_closure As Bs obj func args in
        (runs (run_method As Bs) permanent bs s ≡ ok (calls f bs s, permanent))
        × (runs (run_method As Bs) c bs s ≡ once f c bs s)
  run_method-calls obj func args bs s =
      (permanent_method-calls obj func args bs s, method_closure-once obj func args bs s)
