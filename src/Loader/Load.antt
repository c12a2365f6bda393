-- ===== src/Loader/Load.antt =====
-- `LoadData`: which files it loads, and on which it writes past the end of an array.
use recommender.Prelude.{
  ℕ, zero, suc, ◌+◌, ◌-◌, ◌*◌, ◌/◌, ◌%◌, ◌<◌, ◌≤◌, ◌^◌, ◌≡◌, ◌≢◌, refl, ◌∙◌, some, List, [], ◌∷◌,
  arith, ==-refl, length, map,
}
use mathlib.Core.Path.{ap₂}
use native.Mathlib.Nat.{div-add-mod, mod-lt}
use recommender.Run.{Run, ok, overrun, ◌>>=◌}
use recommender.Loader.{fill_lines, DataLoader, returns, load_data, data_size, allocate_data}
use recommender.Loader.Count.{run_through_file-text}
use recommender.Loader.Fill.{filled, labels, values}
use recommender.Loader.Lines.{fill_lines-text, fill_lines-overflow}
use recommender.Loader.Text.{
  Row, All, text, IsRow, total_values, total_fields, total_fields-eq, total_fields-le, size,
  add_length, add_length-eq, add_values, add_values-eq, length-size,
}

filled-map {ℓ} : {Float : Type ℓ} (xs : List Float) → filled xs 0 ≡ map some xs
filled-map [] = refl
filled-map (x ∷ xs) = rw (filled-map xs)

-- The loader after the first pass.
abbrev pub counted : List Row → DataLoader
counted rows = record {
  num_floats = total_fields rows;
  num_features = length rows;
  feature_len = 55;
}

size_of_quotient :
    (q n r : ℕ)
    → 0 < n
    → suc q * n + r < 2 ^ 32
    → (suc q + (2 ^ 32 - 1)) % 2 ^ 32 * n % 2 ^ 32 + r + n ≡ suc q * n + r
size_of_quotient q n r pos bound =
    let q-le : q ≤ q * n = grind arith in
    let wrap : (suc q + (2 ^ 32 - 1)) % 2 ^ 32 ≡ q = omega arith in rw wrap (omega arith)

total_values-ge : (rows : List Row) → length rows ≤ total_values rows
total_values-ge [] = omega arith
total_values-ge (r ∷ rs) = omega (arith, total_values-ge rs)

-- The array has room for a multiple of the number of lines.
data_size-counted :
    (rows : List Row)
    → 0 < length rows
    → total_fields rows < 2 ^ 32
    → data_size (counted rows) + total_fields rows % length rows ≡ total_values rows
data_size-counted rows h k = by_quotient (total_fields rows / length rows) refl
  where
    total : ℕ
    total = total_fields rows

    split : (q : ℕ) → q ≡ total / length rows → length rows * q + total % length rows ≡ total
    split q e = rw e (div-add-mod total (length rows))

    by_quotient :
        (q : ℕ)
        → q ≡ total / length rows
        → (q + (2 ^ 32 - 1)) % 2 ^ 32 * length rows % 2 ^ 32 + total % length rows
          ≡ total_values rows
    by_quotient zero e =
        absurd
          (omega (arith, split 0 e, mod-lt total h, total_fields-eq rows, total_values-ge rows))
    by_quotient (suc q) e = omega (
      arith,
      split (suc q) e,
      size_of_quotient q (length rows) (total % length rows) h (omega (arith, split (suc q) e)),
      total_fields-eq rows,
    )

module _ {ℓ} {Float : Type ℓ} (atof : List ℕ → Float) (zero_float : Float) (fuel : ℕ) where
  -- The outcome once the second pass is known.
  load_data-counted :
      (at_end : Run (Unit {0})) (d : DataLoader) (rows : List Row)
      → All IsRow rows
      → size rows < fuel
      → size rows < 2 ^ 32
      → (0 < length rows)
      → load_data atof zero_float fuel at_end d (some (text rows [])) ≡ (do
        (p_data, p_label) ←
            allocate_data atof zero_float fuel
              (counted rows)
              (text rows [])
              (filled [] (data_size (counted rows)))
              (filled [] (length rows))
        _ ← at_end
        ok (counted rows, p_data, p_label))
  unfolding load_data
  load_data-counted at_end d rows h short bound pos =
      rw
        (run_through_file-text atof zero_float fuel (record d { feature_len = 55 }) rows h short
          bound)
        (ground arith)

  fill_all :
      (k m n : ℕ) (rows : List Row)
      → All IsRow rows
      → size rows < fuel
      → size rows < 2 ^ 32
      → k ≡ fuel
      → m ≡ total_values rows
      → n ≡ length rows
      → fill_lines atof zero_float fuel k (filled [] m) (filled [] n) 0 0 (text rows [])
        ≡ ok (
          filled (values atof rows) 0,
          filled (labels atof rows) 0,
          total_values rows,
          length rows,
        )
  fill_all k m n rows h short bound ek em en =
      let ek' : k ≡ add_length rows (suc (fuel - length rows - 1)) =
        omega (arith, add_length-eq rows (suc (fuel - length rows - 1)), length-size rows) in
      let em' : m ≡ add_values rows 0 = omega (arith, add_values-eq rows 0) in
      let en' : n ≡ add_length rows 0 = omega (arith, add_length-eq rows 0) in
      rw (ek', em', en')
        (fill_lines-text atof zero_float fuel (fuel - length rows - 1) [] [] 0 0 0 0 rows refl refl
            h (omega arith) (omega (arith, total_fields-eq rows, total_fields-le rows))
            (omega (arith, length-size rows))
          ∙ ap₂ (λ (x y : ℕ). ok (filled (values atof rows) 0, filled (labels atof rows) 0, x, y))
              (omega arith) (omega arith))

  fill_overflow :
      (k n : ℕ) (m : ℕ) (rows : List Row)
      → All IsRow rows
      → size rows < fuel
      → size rows < 2 ^ 32
      → k ≡ fuel
      → n ≡ length rows
      → m < total_values rows
      → fill_lines atof zero_float fuel k (filled [] m) (filled [] n) 0 0 (text rows []) ≡ overrun
  fill_overflow k n m rows h short bound ek en less =
      let ek' : k ≡ add_length rows (suc (fuel - length rows - 1)) =
        omega (arith, add_length-eq rows (suc (fuel - length rows - 1)), length-size rows) in
      let en' : n ≡ add_length rows 0 = omega (arith, add_length-eq rows 0) in
      rw (ek', en')
        (fill_lines-overflow atof zero_float fuel (fuel - length rows - 1) [] [] m 0 0 0 rows refl
          refl h (omega arith) (omega (arith, total_fields-eq rows, total_fields-le rows))
          (omega (arith, length-size rows)) less)

  allocate_data-text :
      (rows : List Row)
      → All IsRow rows
      → size rows < fuel
      → size rows < 2 ^ 32
      → data_size (counted rows) ≡ total_values rows
      → allocate_data atof zero_float fuel
          (counted rows)
          (text rows [])
          (filled [] (data_size (counted rows)))
          (filled [] (length rows))
        ≡ ok (map some (values atof rows), map some (labels atof rows))
  unfolding allocate_data
  allocate_data-text rows h short bound room =
      let count : (total_values rows + length rows) % 2 ^ 32 ≡ total_fields rows =
        omega (arith, total_fields-eq rows, total_fields-le rows) in
      rw (fill_all fuel (data_size (counted rows)) (length rows) rows h short bound refl room refl)
        (rw (
          count,
          ==-refl (total_fields rows),
          ==-refl (length rows),
          filled-map (values atof rows),
          filled-map (labels atof rows),
        ))

  -- `LoadData` loads every file of lines, at least one and fewer than 2 ^ 32 bytes in all, in which the
  -- number of lines divides the number of fields, and reaches its end: the labels are the first fields
  -- of the lines, the data are all other fields in their order, both as `atof` reads them, and every
  -- element of the arrays is written. The `return` that is missing at the end, which C++ leaves
  -- undefined, is taken to return to the caller.
  pub load_data-text :
      (d : DataLoader) (rows : List Row)
      → All IsRow rows
      → size rows < fuel
      → size rows < 2 ^ 32
      → 0 < length rows
      → total_fields rows % length rows ≡ 0
      → load_data atof zero_float fuel returns d (some (text rows []))
        ≡ ok (counted rows, map some (values atof rows), map some (labels atof rows))
  load_data-text d rows h short bound pos even =
      let fits : total_fields rows < 2 ^ 32 = omega (arith, total_fields-le rows) in
      load_data-counted returns d rows h short bound pos
      ∙ rw (allocate_data-text rows h short bound (omega (arith, data_size-counted rows pos fits)))

  allocate_data-overflow :
      (rows : List Row)
      → All IsRow rows
      → size rows < fuel
      → size rows < 2 ^ 32
      → data_size (counted rows) < total_values rows
      → allocate_data atof zero_float fuel
          (counted rows)
          (text rows [])
          (filled [] (data_size (counted rows)))
          (filled [] (length rows))
        ≡ overrun
  unfolding allocate_data
  allocate_data-overflow rows h short bound less = rw (
      fill_overflow fuel (length rows) (data_size (counted rows)) rows h short bound refl refl less)

  -- On a file of lines, fewer than 2 ^ 32 bytes in all, in which the number of lines does not divide
  -- the number of fields, `LoadData` writes past the end of an array.
  pub load_data-overflow :
      (at_end : Run (Unit {0})) (d : DataLoader) (rows : List Row)
      → All IsRow rows
      → size rows < fuel
      → size rows < 2 ^ 32
      → total_fields rows % length rows ≢ 0
      → load_data atof zero_float fuel at_end d (some (text rows [])) ≡ overrun
  load_data-overflow at_end d [] h short bound uneven = absurd (uneven refl)
  load_data-overflow at_end d (r ∷ rs) h short bound uneven =
      let pos : 0 < length (r ∷ rs) = omega arith in
      let fits : total_fields (r ∷ rs) < 2 ^ 32 = omega (arith, total_fields-le (r ∷ rs)) in
      load_data-counted at_end d (r ∷ rs) h short bound pos
      ∙ rw (
          allocate_data-overflow (r ∷ rs) h short bound
            (omega (arith, data_size-counted (r ∷ rs) pos fits)))
