-- ===== src/Training/Batch.antt =====
-- The minibatches that `main` draws: which lines of the data file they hold.
use recommender.Prelude.{
  ℕ, zero, suc, ◌+◌, ◌*◌, ◌<◌, ◌≤◌, ◌≡◌, refl, ◌∙◌, ap, some, List, [], ◌∷◌, ◌++◌, map, arith,
  le→leb, length, length-append, length-map, take, drop,
}
use recommender.Run.{ok, fault}
use recommender.Loader.Fill.{number, labels, values}
use recommender.Loader.Load.{counted}
use recommender.Loader.Text.{Row, All}
use recommender.Training.{Dataset, dataset, window}

-- Every line has as many values.
abbrev pub HasWidth : ℕ → List Row → Type 0
HasWidth w rows = All (λ r. suc (length r.values) ≡ w) rows

pub drop-nil {ℓ} : {A : Type ℓ} (n : ℕ) → drop {A = A} n [] ≡ []
drop-nil zero = refl
drop-nil (suc n) = refl

pub take-nil {ℓ} : {A : Type ℓ} (n : ℕ) → take {A = A} n [] ≡ []
take-nil zero = refl
take-nil (suc n) = refl

module _ {ℓ} {A : Type ℓ} where
  pub drop-append : (c m : ℕ) (xs ys : List A) → c ≡ length xs + m → drop c (xs ++ ys) ≡ drop m ys
  drop-append c m [] ys e = ap (λ (n : ℕ). drop n ys) (omega arith)
  drop-append zero m (x ∷ xs) ys e = absurd (omega arith)
  drop-append (suc c) m (x ∷ xs) ys e = drop-append c m xs ys (omega arith)

  pub take-append :
      (c m : ℕ) (xs ys : List A) → c ≡ length xs + m → take c (xs ++ ys) ≡ xs ++ take m ys
  take-append c m [] ys e = ap (λ (n : ℕ). take n ys) (omega arith)
  take-append zero m (x ∷ xs) ys e = absurd (omega arith)
  take-append (suc c) m (x ∷ xs) ys e = ap (λ l. x ∷ l) (take-append c m xs ys (omega arith))

  pub drop-map {κ} :
      {B : Type κ} (f : A → B) (n : ℕ) (xs : List A) → drop n (map f xs) ≡ map f (drop n xs)
  drop-map f zero xs = refl
  drop-map f (suc n) [] = refl
  drop-map f (suc n) (x ∷ xs) = drop-map f n xs

  pub take-map {κ} :
      {B : Type κ} (f : A → B) (n : ℕ) (xs : List A) → take n (map f xs) ≡ map f (take n xs)
  take-map f zero xs = refl
  take-map f (suc n) [] = refl
  take-map f (suc n) (x ∷ xs) = ap (λ l. f x ∷ l) (take-map f n xs)

pub HasWidth-drop : (w n : ℕ) (rows : List Row) → HasWidth w rows → HasWidth w (drop n rows)
HasWidth-drop w zero rows h = h
HasWidth-drop w (suc n) [] h = tt
HasWidth-drop w (suc n) (r ∷ rs) h = HasWidth-drop w n rs (h.1)

module _ {Float : Type 0} (atof : List ℕ → Float) (w : ℕ) where
  length-row :
      (r : Row) → suc (length r.values) ≡ w → length (map (number atof) (r.value ∷ r.values)) ≡ w
  length-row r h = omega (arith, length-map (r.value ∷ r.values) (number atof))

  pub drop-values :
      (n : ℕ) (rows : List Row)
      → HasWidth w rows
      → drop (n * w) (values atof rows) ≡ values atof (drop n rows)
  drop-values zero rows h = ap (λ (k : ℕ). drop k (values atof rows)) {y = 0} (omega arith)
  drop-values (suc n) [] h = drop-nil (suc n * w)
  drop-values (suc n) (r ∷ rs) h =
      drop-append (suc n * w) (n * w) (map (number atof) (r.value ∷ r.values)) (values atof rs)
        (omega (arith, length-row r (h.0)))
      ∙ drop-values n rs (h.1)

  pub take-values :
      (n : ℕ) (rows : List Row)
      → HasWidth w rows
      → take (n * w) (values atof rows) ≡ values atof (take n rows)
  take-values zero rows h = ap (λ (k : ℕ). take k (values atof rows)) {y = 0} (omega arith)
  take-values (suc n) [] h = take-nil (suc n * w)
  take-values (suc n) (r ∷ rs) h =
      take-append (suc n * w) (n * w) (map (number atof) (r.value ∷ r.values)) (values atof rs)
        (omega (arith, length-row r (h.0)))
      ∙ ap (λ l. map (number atof) (r.value ∷ r.values) ++ l) (take-values n rs (h.1))

  pub length-values :
      (rows : List Row) → HasWidth w rows → length (values atof rows) ≡ length rows * w
  length-values [] h = omega arith
  length-values (r ∷ rs) h = omega (
    arith,
    length-append (map (number atof) (r.value ∷ r.values)) (values atof rs),
    length-row r (h.0),
    length-values rs (h.1),
  )

pub drop-labels :
    {Float : Type 0} (atof : List ℕ → Float) (n : ℕ) (rows : List Row)
    → drop n (labels atof rows) ≡ labels atof (drop n rows)
drop-labels atof zero rows = refl
drop-labels atof (suc n) [] = refl
drop-labels atof (suc n) (r ∷ rs) = drop-labels atof n rs

pub take-labels :
    {Float : Type 0} (atof : List ℕ → Float) (n : ℕ) (rows : List Row)
    → take n (labels atof rows) ≡ labels atof (take n rows)
take-labels atof zero rows = refl
take-labels atof (suc n) [] = refl
take-labels atof (suc n) (r ∷ rs) = ap (λ l. number atof r.label ∷ l) (take-labels atof n rs)

pub length-labels :
    {Float : Type 0} (atof : List ℕ → Float) (rows : List Row)
    → length (labels atof rows) ≡ length rows
length-labels atof [] = refl
length-labels atof (r ∷ rs) = ap suc (length-labels atof rs)

-- What the loader leaves of the lines.
abbrev pub loaded : {Float : Type 0} → (List ℕ → Float) → List Row → Dataset Float
loaded atof rows =
    dataset 55 (counted rows, map some (values atof rows), map some (labels atof rows))

pub window-ok {ℓ} :
    {A : Type ℓ} (a : List A) (start n : ℕ)
    → start + n ≤ length a
    → window a start n ≡ ok (take n (drop start a))
window-ok a start n h = rw (le→leb (start + n) (length a) h)

pub window-fault {ℓ} :
    {A : Type ℓ} (a : List A) (start n : ℕ) → length a < start + n → window a start n ≡ fault
window-fault a start n h = ground arith
