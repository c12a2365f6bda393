-- ===== src/Loader/Fill.antt =====
-- The second pass, `AllocateData`, on the text of lines: the arrays are filled from the front, and
-- a line with more values than there is room for writes past the end.
use recommender.Prelude.{
  ℕ, zero, suc, ◌+◌, ◌<◌, ◌≤◌, ◌^◌, ◌≡◌, refl, ap, Option, none, some, List, [], ◌∷◌, ◌++◌, arith,
  length, length-append, replicate, map, set, lt→ltb,
}
use mathlib.Core.List.{append_assoc}
use recommender.Run.{ok, overrun, store}
use recommender.Loader.{File, fill_line}
use recommender.Loader.Count.{read_float-field, succ32-small}
use recommender.Loader.Text.{
  Row, All, fields, fields_size, IsField, IsValue, peek-field, add_length,
}

-- An array whose first elements are written.
abbrev pub filled {ℓ} : {Float : Type ℓ} → List Float → ℕ → List (Option Float)
filled [] m = replicate m none
filled (x ∷ xs) m = some x ∷ filled xs m

pub length-filled {ℓ} :
    {Float : Type ℓ} (xs : List Float) (m : ℕ) → length (filled xs m) ≡ length xs + m
length-filled {Float} [] zero = refl
length-filled {Float} [] (suc m) = omega (arith, length-filled {Float = Float} [] m)
length-filled {Float} (x ∷ xs) m = omega (arith, length-filled xs m)

set-filled {ℓ} :
    {Float : Type ℓ} (xs : List Float) (m : ℕ) (v : Float)
    → set (filled xs (suc m)) (length xs) (some v) ≡ filled (xs ++ (v ∷ [])) m
set-filled [] m v = refl
set-filled (x ∷ xs) m v = rw (set-filled xs m v)

pub store-filled {ℓ} :
    {Float : Type ℓ} (xs : List Float) (m c : ℕ) (v : Float)
    → c ≡ length xs
    → store (filled xs (suc m)) c (some v) ≡ ok (filled (xs ++ (v ∷ [])) m)
store-filled xs m c v e = rw (
  e,
  lt→ltb (length xs) (length (filled xs (suc m))) (omega (arith, length-filled xs (suc m))),
  set-filled xs m v,
)

store-full {ℓ} :
    {Float : Type ℓ} (xs : List Float) (c : ℕ) (v : Float)
    → c ≡ length xs
    → store (filled xs zero) c (some v) ≡ overrun
store-full xs c v e = ground (arith, length-filled xs zero)

module _ {ℓ} {Float : Type ℓ} (atof : List ℕ → Float) where
  abbrev pub number : List ℕ → Float
  number s = atof (s ++ (b',' ∷ []))

  abbrev pub labels : List Row → List Float
  labels [] = []
  labels (r ∷ rs) = number r.label ∷ labels rs

  abbrev pub values : List Row → List Float
  values [] = []
  values (r ∷ rs) = map number (r.value ∷ r.values) ++ values rs

module _ {ℓ} {Float : Type ℓ} (atof : List ℕ → Float) (zero_float : Float) (fuel : ℕ) where
  pub fill_line-fields :
      (k : ℕ) (xs : List Float) (m c : ℕ) (s : List ℕ) (ss : List (List ℕ)) (rest : File)
      → c ≡ length xs
      → IsField s
      → All IsValue ss
      → fields_size (s ∷ ss) ≤ fuel
      → length ss < k
      → c + suc (length ss) < 2 ^ 32
      → fill_line atof zero_float fuel k
          (filled xs (add_length (s ∷ ss) m))
          c
          (fields (s ∷ ss) (10 ∷ rest))
        ≡ ok (filled (xs ++ map (number atof) (s ∷ ss)) m, c + suc (length ss), 10 ∷ rest)
  unfolding fill_line
  fill_line-fields zero xs m c s ss rest ec h hs e short bound = absurd (omega arith)
  fill_line-fields (suc k) xs m c s [] rest ec h hs e short bound = rw (
    read_float-field atof zero_float fuel s (10 ∷ rest) h (omega arith),
    store-filled xs m c (number atof s) ec,
    succ32-small c (omega arith),
  )
  fill_line-fields (suc k) xs m c s (t ∷ ts) rest ec h hs e short bound =
      rw
        (
          read_float-field atof zero_float fuel s (fields (t ∷ ts) (10 ∷ rest)) h (omega arith),
          store-filled xs (add_length (t ∷ ts) m) c (number atof s) ec,
          peek-field t (fields ts (10 ∷ rest)),
          hs.0.1,
          succ32-small c (omega arith),
          fill_line-fields k (xs ++ (number atof s ∷ [])) m (c + 1) t ts rest
              (omega (arith, length-append xs (number atof s ∷ []))) (hs.0.0) (hs.1) (omega arith)
              (omega arith) (omega arith),
          append_assoc,
        )
        (ap (λ (n : ℕ). ok (filled (xs ++ map (number atof) (s ∷ t ∷ ts)) m, n, 10 ∷ rest))
          (omega arith))

  -- The write past the end.
  pub fill_line-overflow :
      (k : ℕ) (xs : List Float) (m c : ℕ) (s : List ℕ) (ss : List (List ℕ)) (rest : File)
      → c ≡ length xs
      → IsField s
      → All IsValue ss
      → fields_size (s ∷ ss) ≤ fuel
      → length ss < k
      → c + suc (length ss) < 2 ^ 32
      → m ≤ length ss
      → fill_line atof zero_float fuel k (filled xs m) c (fields (s ∷ ss) (10 ∷ rest)) ≡ overrun
  unfolding fill_line
  fill_line-overflow zero xs m c s ss rest ec h hs e short bound less = absurd (omega arith)
  fill_line-overflow (suc k) xs zero c s ss rest ec h hs e short bound less = rw (
    read_float-field atof zero_float fuel s (fields ss (10 ∷ rest)) h (omega arith),
    store-full xs c (number atof s) ec,
  )
  fill_line-overflow (suc k) xs (suc m) c s [] rest ec h hs e short bound less =
      absurd (omega arith)
  fill_line-overflow (suc k) xs (suc m) c s (t ∷ ts) rest ec h hs e short bound less = rw (
    read_float-field atof zero_float fuel s (fields (t ∷ ts) (10 ∷ rest)) h (omega arith),
    store-filled xs m c (number atof s) ec,
    peek-field t (fields ts (10 ∷ rest)),
    hs.0.1,
    succ32-small c (omega arith),
    fill_line-overflow k (xs ++ (number atof s ∷ [])) m (c + 1) t ts rest
        (omega (arith, length-append xs (number atof s ∷ []))) (hs.0.0) (hs.1) (omega arith)
        (omega arith) (omega arith) (omega arith),
  )
