-- ===== src/Loader/Lines.antt =====
-- The second pass over all lines of a file, and what `LoadData` makes of it.
use recommender.Prelude.{
  ℕ, suc, ◌+◌, ◌-◌, ◌<◌, ◌≤◌, ◌^◌, ◌≡◌, refl, ◌∙◌, ap, false, Option, List, [], ◌∷◌, ◌++◌, arith,
  length, length-append, length-map, map,
}
use mathlib.Core.List.{append_assoc, append-nil}
use mathlib.Core.Path.{ap₂}
use native.Mathlib.Nat.{add-zero}
use native.Mathlib.Decide.{dec_le}
use recommender.Run.{ok, overrun}
use recommender.Loader.{File, peek, is_space, fill_lines}
use recommender.Loader.Count.{read_float-field, skip_space-gap, succ32-small}
use recommender.Loader.Fill.{
  filled, number, labels, values, store-filled, fill_line-fields, fill_line-overflow,
}
use recommender.Loader.Text.{
  Row, All, fields, row_text, text, IsRow, peek-field, text-start, total_values, size,
  length-fields_size, add_length, add_length-eq, add_values,
}

module _ {ℓ} {Float : Type ℓ} (atof : List ℕ → Float) (zero_float : Float) (fuel : ℕ) where
  fill_lines-row :
      (k : ℕ) (xs ls : List Float) (m n c i : ℕ) (r : Row) (rest : File)
      → c ≡ length xs
      → i ≡ length ls
      → IsRow r
      → is_space (peek rest) ≡ false
      → size (r ∷ []) ≤ fuel
      → c + suc (length r.values) < 2 ^ 32
      → i + 1 < 2 ^ 32
      → fill_lines atof zero_float fuel
          (suc k)
          (filled xs (suc (add_length r.values m)))
          (filled ls (suc n))
          c
          i
          (row_text r rest)
        ≡ fill_lines atof zero_float fuel k
            (filled (xs ++ map (number atof) (r.value ∷ r.values)) m)
            (filled (ls ++ (number atof r.label ∷ [])) n)
            (c + suc (length r.values))
            (i + 1)
            rest
  unfolding fill_lines
  fill_lines-row k xs ls m n c i r rest ec ei h e short bound bound' = rw (
    peek-field r.label (fields (r.value ∷ r.values) (10 ∷ (r.gap ++ rest))),
    h.label_eof,
    read_float-field atof zero_float fuel r.label
        (fields (r.value ∷ r.values) (10 ∷ (r.gap ++ rest))) h.label (omega arith),
    store-filled ls n i (number atof r.label) ei,
    fill_line-fields atof zero_float fuel fuel xs m c r.value r.values (r.gap ++ rest) ec
        (h.value.0) h.values (omega arith) (omega (arith, length-fields_size r.values)) bound,
    skip_space-gap fuel (10 ∷ r.gap) rest (refl, h.gap) e (omega arith),
    succ32-small i bound',
  )

  fill_lines-row-overflow :
      (k : ℕ) (xs ls : List Float) (m n c i : ℕ) (r : Row) (rest : File)
      → c ≡ length xs
      → i ≡ length ls
      → IsRow r
      → size (r ∷ []) ≤ fuel
      → c + suc (length r.values) < 2 ^ 32
      → m ≤ length r.values
      → fill_lines atof zero_float fuel
          (suc k)
          (filled xs m)
          (filled ls (suc n))
          c
          i
          (row_text r rest)
        ≡ overrun
  unfolding fill_lines
  fill_lines-row-overflow k xs ls m n c i r rest ec ei h short bound less = rw (
    peek-field r.label (fields (r.value ∷ r.values) (10 ∷ (r.gap ++ rest))),
    h.label_eof,
    read_float-field atof zero_float fuel r.label
        (fields (r.value ∷ r.values) (10 ∷ (r.gap ++ rest))) h.label (omega arith),
    store-filled ls n i (number atof r.label) ei,
    fill_line-overflow atof zero_float fuel fuel xs m c r.value r.values (r.gap ++ rest) ec
        (h.value.0) h.values (omega arith) (omega (arith, length-fields_size r.values)) bound less,
  )

  length-values-row :
      (r : Row) → length (map (number atof) (r.value ∷ r.values)) ≡ suc (length r.values)
  length-values-row r = length-map (r.value ∷ r.values) (number atof)

  fill_lines-end :
      (j : ℕ) (p_data p_label : List (Option Float)) (c i : ℕ)
      → fill_lines atof zero_float fuel (suc j) p_data p_label c i [] ≡ ok (p_data, p_label, c, i)
  unfolding fill_lines
  fill_lines-end j p_data p_label c i = refl

  pub fill_lines-text :
      (j : ℕ) (xs ls : List Float) (m n c i : ℕ) (rows : List Row)
      → c ≡ length xs
      → i ≡ length ls
      → All IsRow rows
      → size rows ≤ fuel
      → c + total_values rows < 2 ^ 32
      → i + length rows < 2 ^ 32
      → fill_lines atof zero_float fuel
          (add_length rows (suc j))
          (filled xs (add_values rows m))
          (filled ls (add_length rows n))
          c
          i
          (text rows [])
        ≡ ok (
          filled (xs ++ values atof rows) m,
          filled (ls ++ labels atof rows) n,
          c + total_values rows,
          i + length rows,
        )
  fill_lines-text j xs ls m n c i [] ec ei h short bound bound' =
      fill_lines-end j (filled xs m) (filled ls n) c i
      ∙ rw (append-nil, append-nil, add-zero, add-zero)
  fill_lines-text j xs ls m n c i (r ∷ rs) ec ei h short bound bound' =
      fill_lines-row (add_length rs (suc j)) xs ls (add_values rs m) (add_length rs n) c i r
        (text rs []) ec ei (h.0) (text-start rs [] (h.1) refl) (omega arith) (omega arith)
        (omega arith)
      ∙ fill_lines-text j (xs ++ map (number atof) (r.value ∷ r.values))
          (ls ++ (number atof r.label ∷ [])) m n (c + suc (length r.values)) (i + 1) rs
          (omega
            (arith, length-append xs (map (number atof) (r.value ∷ r.values)), length-values-row r))
          (omega (arith, length-append ls (number atof r.label ∷ []))) (h.1) (omega arith)
          (omega arith) (omega arith)
      ∙ rw (append_assoc, append_assoc)
          (ap₂
            (λ (x y : ℕ).
              ok (
                filled (xs ++ values atof (r ∷ rs)) m,
                filled (ls ++ labels atof (r ∷ rs)) n,
                x,
                y,
              ))
            (omega arith) (omega arith))

  pub fill_lines-overflow :
      (j : ℕ) (xs ls : List Float) (m n c i : ℕ) (rows : List Row)
      → c ≡ length xs
      → i ≡ length ls
      → All IsRow rows
      → size rows ≤ fuel
      → c + total_values rows < 2 ^ 32
      → i + length rows < 2 ^ 32
      → m < total_values rows
      → fill_lines atof zero_float fuel
          (add_length rows (suc j))
          (filled xs m)
          (filled ls (add_length rows n))
          c
          i
          (text rows [])
        ≡ overrun
  fill_lines-overflow j xs ls m n c i [] ec ei h short bound bound' less = absurd (omega arith)
  fill_lines-overflow j xs ls m n c i (r ∷ rs) ec ei h short bound bound' less =
      elim (dec_le m (length r.values)) [
        | yes p ↦
            fill_lines-row-overflow (add_length rs (suc j)) xs ls m (add_length rs n) c i r
              (text rs []) ec ei (h.0) (omega arith) (omega arith) p
        | no p ↦
            let left = m - suc (length r.values) in
            ap
              (λ (x : ℕ).
                fill_lines atof zero_float fuel (suc (add_length rs (suc j))) (filled xs x)
                  (filled ls (suc (add_length rs n))) c i (row_text r (text rs [])))
              (omega (arith, add_length-eq r.values left))
            ∙ fill_lines-row (add_length rs (suc j)) xs ls left (add_length rs n) c i r (text rs [])
                ec ei (h.0) (text-start rs [] (h.1) refl) (omega arith) (omega arith) (omega arith)
            ∙ fill_lines-overflow j (xs ++ map (number atof) (r.value ∷ r.values))
                (ls ++ (number atof r.label ∷ [])) left n (c + suc (length r.values)) (i + 1) rs
                (omega (
                  arith,
                  length-append xs (map (number atof) (r.value ∷ r.values)),
                  length-values-row r,
                ))
                (omega (arith, length-append ls (number atof r.label ∷ []))) (h.1) (omega arith)
                (omega arith) (omega arith) (omega arith)
      ]
