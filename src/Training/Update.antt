-- ===== src/Training/Update.antt =====
-- The update of the parameters.
use recommender.Prelude.{
  ℕ, zero, suc, ◌+◌, ◌^◌, ◌<◌, ◌≡◌, refl, ◌∙◌, ap, List, [], ◌∷◌, ◌++◌, arith, lt→ltb, not_le→leb,
  length, length-append, set,
}
use mathlib.Core.List.{append_assoc}
use recommender.Run.{ok, store}
use recommender.Training.{CaffeLib, load, update_params}

module _ {ℓ} {A : Type ℓ} where
  load-middle :
      (xs : List A) (y : A) (ys : List A) (i : ℕ) → i ≡ length xs → load (xs ++ (y ∷ ys)) i ≡ ok y
  load-middle [] y ys i e = rw e
  load-middle (x ∷ xs) y ys zero e = absurd (omega arith)
  load-middle (x ∷ xs) y ys (suc i) e = load-middle xs y ys i (omega arith)

  set-middle :
      (xs : List A) (y v : A) (ys : List A) (i : ℕ)
      → i ≡ length xs
      → set (xs ++ (y ∷ ys)) i v ≡ xs ++ (v ∷ ys)
  set-middle [] y v ys i e = rw e
  set-middle (x ∷ xs) y v ys zero e = absurd (omega arith)
  set-middle (x ∷ xs) y v ys (suc i) e = ap (λ l. x ∷ l) (set-middle xs y v ys i (omega arith))

  store-middle :
      (xs : List A) (y v : A) (ys : List A) (i : ℕ)
      → i ≡ length xs
      → store (xs ++ (y ∷ ys)) i v ≡ ok (xs ++ (v ∷ ys))
  store-middle xs y v ys i e = rw (
    lt→ltb i (length (xs ++ (y ∷ ys))) (omega (arith, length-append xs (y ∷ ys))),
    set-middle xs y v ys i e,
  )

module _ {Float : Type 0} (lib : CaffeLib Float) (sub mul : Float → Float → Float)
    (learning_rate : Float) (rand : ℕ → ℕ) where
  -- Each parameter less the learning rate times its gradient.
  unfoldable pub descend : List Float → List Float → List Float
  descend [] gs = []
  descend (p ∷ ps) [] = p ∷ ps
  descend (p ∷ ps) (g ∷ gs) = sub p (mul learning_rate g) ∷ descend ps gs

  pub length-descend : (ps gs : List Float) → length (descend ps gs) ≡ length ps
  unfolding descend
  length-descend [] gs = refl
  length-descend (p ∷ ps) [] = refl
  length-descend (p ∷ ps) (g ∷ gs) = ap suc (length-descend ps gs)

  update_params-from :
      (i : ℕ) (xs ys ps gs : List Float)
      → i ≡ length xs
      → i ≡ length ys
      → length ps ≡ length gs
      → i + length ps < 2 ^ 31
      → update_params lib sub mul learning_rate rand (length ps) i (xs ++ ps) (ys ++ gs)
        ≡ ok (xs ++ descend ps gs)
  unfolding update_params descend
  update_params-from i xs ys [] gs ex ey e few = refl
  update_params-from i xs ys (p ∷ ps) [] ex ey e few = absurd (omega arith)
  update_params-from i xs ys (p ∷ ps) (g ∷ gs) ex ey e few =
      let v = sub p (mul learning_rate g) in
      rw
        (
          load-middle xs p ps i ex,
          load-middle ys g gs i ey,
          store-middle xs p v ps i ex,
          not_le→leb (2 ^ 31) (i + 1) (omega (arith, few)),
        )
        (rw (← append_assoc xs (v ∷ []) ps, ← append_assoc ys (g ∷ []) gs)
            (update_params-from (i + 1) (xs ++ (v ∷ [])) (ys ++ (g ∷ [])) ps gs
              (omega (arith, length-append xs (v ∷ []))) (omega (arith, length-append ys (g ∷ [])))
              (omega arith) (omega (arith, few)))
          ∙ ap ok (append_assoc xs (v ∷ []) (descend ps gs)))

  -- With as many parameters as gradient elements, fewer than 2 ^ 31, the loop over `pParam` takes the
  -- learning rate times the gradient element from each of the parameters, and stays within both arrays.
  pub update_params-descend :
      (ps gs : List Float)
      → length ps ≡ length gs
      → length ps < 2 ^ 31
      → update_params lib sub mul learning_rate rand (length ps) 0 ps gs ≡ ok (descend ps gs)
  update_params-descend ps gs e few =
      update_params-from 0 [] [] ps gs refl refl e (omega (arith, few))
