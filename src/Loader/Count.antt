-- ===== src/Loader/Count.antt =====
-- The first pass, `RunThroughFile`, on the text of lines.
use recommender.Prelude.{
  ℕ, zero, suc, ◌+◌, ◌-◌, ◌<◌, ◌≤◌, ◌^◌, ◌≡◌, refl, ◌∙◌, ap, true, false, List, [], ◌∷◌, ◌++◌,
  arith, length,
}
use mathlib.Core.List.{append_assoc}
use recommender.Run.{ok}
use recommender.Loader.{
  File, DataLoader, peek, succ32, is_space, read_float_loop, read_float, skip_space, count_line,
  count_lines, run_through_file,
}
use recommender.Loader.Text.{
  Row, All, fields, fields_size, text, IsField, IsValue, IsRow, peek-field, text-start,
  total_fields, total_fields-le, size, row_text, add_length, add_length-eq, length-fields_size,
  length-size,
}

pub read_float_loop-field :
    (k : ℕ) (s acc rest : List ℕ)
    → IsField s
    → length s < k
    → read_float_loop k true (s ++ (b',' ∷ rest)) acc ≡ ok (acc ++ (s ++ (b',' ∷ [])), rest)
unfolding read_float_loop
read_float_loop-field zero s acc rest h fuel = absurd (omega arith)
read_float_loop-field (suc k) [] acc rest h fuel = refl
read_float_loop-field (suc k) (c ∷ s) acc rest h fuel =
    rw (h.0, read_float_loop-field k s (acc ++ (c ∷ [])) rest (h.1) (omega arith), append_assoc)

pub read_float_loop-skip :
    (k : ℕ) (s rest : List ℕ)
    → IsField s
    → length s < k
    → read_float_loop k false (s ++ (b',' ∷ rest)) [] ≡ ok ([], rest)
unfolding read_float_loop
read_float_loop-skip zero s rest h fuel = absurd (omega arith)
read_float_loop-skip (suc k) [] rest h fuel = refl
read_float_loop-skip (suc k) (c ∷ s) rest h fuel = ground (arith, read_float_loop-skip k s rest)

pub skip_space-gap :
    (k : ℕ) (gap rest : List ℕ)
    → All (λ c. is_space c ≡ true) gap
    → is_space (peek rest) ≡ false
    → length gap < k
    → skip_space k (gap ++ rest) ≡ ok rest
unfolding skip_space
skip_space-gap zero gap rest h e fuel = absurd (omega arith)
skip_space-gap (suc k) [] rest h e fuel = rw e
skip_space-gap (suc k) (c ∷ gap) rest h e fuel =
    rw (h.0) (skip_space-gap k gap rest (h.1) e (omega arith))

pub succ32-small : (n : ℕ) → n + 1 < 2 ^ 32 → succ32 n ≡ n + 1
succ32-small n h = omega arith

module _ {ℓ} {Float : Type ℓ} (atof : List ℕ → Float) (zero_float : Float) (fuel : ℕ) where
  pub read_float-skip :
      (s rest : List ℕ)
      → IsField s
      → length s < fuel
      → read_float atof zero_float fuel false (s ++ (b',' ∷ rest)) ≡ ok (zero_float, rest)
  unfolding read_float
  read_float-skip s rest h e = rw (read_float_loop-skip fuel s rest h e)

  pub read_float-field :
      (s rest : List ℕ)
      → IsField s
      → length s < fuel
      → read_float atof zero_float fuel true (s ++ (b',' ∷ rest))
        ≡ ok (atof (s ++ (b',' ∷ [])), rest)
  unfolding read_float
  read_float-field s rest h e = rw (read_float_loop-field fuel s [] rest h e)

  count_line-fields :
      (k : ℕ) (d : DataLoader) (s : List ℕ) (ss : List (List ℕ)) (rest : File)
      → IsField s
      → All IsValue ss
      → fields_size (s ∷ ss) ≤ fuel
      → length ss < k
      → d.num_floats + suc (length ss) < 2 ^ 32
      → count_line atof zero_float fuel k d (fields (s ∷ ss) (10 ∷ rest))
        ≡ ok (record d { num_floats = d.num_floats + suc (length ss) }, 10 ∷ rest)
  unfolding count_line
  count_line-fields zero d s ss rest h hs e short bound = absurd (omega arith)
  count_line-fields (suc k) d s [] rest h hs e short bound =
      rw (read_float-skip s (10 ∷ rest) h (omega arith))
        (rw (succ32-small d.num_floats (omega arith)))
  count_line-fields (suc k) d s (t ∷ ts) rest h hs e short bound =
      rw (read_float-skip s (fields (t ∷ ts) (10 ∷ rest)) h (omega arith)) (
        rw
          (
            peek-field t (fields ts (10 ∷ rest)),
            hs.0.1,
            succ32-small d.num_floats (omega arith),
            count_line-fields k (record d { num_floats = d.num_floats + 1 }) t ts rest (hs.0.0)
                (hs.1) (omega arith) (omega arith) (omega arith),
          )
          (ap (λ (n : ℕ). ok (record d { num_floats = n }, 10 ∷ rest)) (omega arith)))

  -- What the first pass makes of lines: it adds their fields and their number to the counters.
  abbrev pub count_rows : DataLoader → List Row → DataLoader
  count_rows d [] = d
  count_rows d (r ∷ rs) =
      count_rows
        (record d {
          num_floats = d.num_floats + suc (suc (length r.values));
          num_features = d.num_features + 1;
        })
        rs

  count_lines-row :
      (k : ℕ) (d : DataLoader) (r : Row) (rest : File)
      → IsRow r
      → is_space (peek rest) ≡ false
      → size (r ∷ []) ≤ fuel
      → d.num_floats + (2 + length r.values) < 2 ^ 32
      → d.num_features + 1 < 2 ^ 32
      → count_lines atof zero_float fuel (suc k) d (row_text r rest)
        ≡ count_lines atof zero_float fuel k (count_rows d (r ∷ [])) rest
  unfolding count_lines
  count_lines-row k d r rest h e short bound bound' = rw (
    peek-field r.label (fields (r.value ∷ r.values) (10 ∷ (r.gap ++ rest))),
    h.label_eof,
    count_line-fields fuel d r.label (r.value ∷ r.values) (r.gap ++ rest) h.label
        (h.value, h.values) (omega arith) (omega (arith, length-fields_size r.values))
        (omega arith),
    skip_space-gap fuel (10 ∷ r.gap) rest (refl, h.gap) e (omega arith),
    succ32-small d.num_features bound',
  )

  pub count_lines-text :
      (j : ℕ) (d : DataLoader) (rows : List Row) (tail : File)
      → All IsRow rows
      → is_space (peek tail) ≡ false
      → size rows ≤ fuel
      → d.num_floats + total_fields rows < 2 ^ 32
      → d.num_features + total_fields rows < 2 ^ 32
      → count_lines atof zero_float fuel (add_length rows j) d (text rows tail)
        ≡ count_lines atof zero_float fuel j (count_rows d rows) tail
  count_lines-text j d [] tail h e short bound bound' = refl
  count_lines-text j d (r ∷ rs) tail h e short bound bound' =
      count_lines-row (add_length rs j) d r (text rs tail) (h.0) (text-start rs tail (h.1) e)
        (omega arith) (omega arith) (omega arith)
      ∙ count_lines-text j (count_rows d (r ∷ [])) rs tail (h.1) e (omega arith) (omega arith)
          (omega arith)

  pub count_rows-counts :
      (d : DataLoader) (rows : List Row)
      → count_rows d rows ≡ record d {
        num_floats = d.num_floats + total_fields rows;
        num_features = d.num_features + length rows;
      }
  count_rows-counts d [] = ground arith
  count_rows-counts d (r ∷ rs) = count_rows-counts (count_rows d (r ∷ [])) rs ∙ ground arith

  count_lines-end :
      (j : ℕ) (d : DataLoader) → count_lines atof zero_float fuel (suc j) d [] ≡ ok (d, [])
  unfolding count_lines
  count_lines-end j d = refl

  -- `RunThroughFile` on a file of lines counts their fields and the lines, and reads to the end.
  pub run_through_file-text :
      (d : DataLoader) (rows : List Row)
      → All IsRow rows
      → size rows < fuel
      → size rows < 2 ^ 32
      → run_through_file atof zero_float fuel d (text rows [])
        ≡ ok (record d { num_floats = total_fields rows; num_features = length rows }, [])
  unfolding run_through_file
  run_through_file-text d rows h short bound =
      let d0 = record d { num_floats = 0; num_features = 0 } in
      ap (λ (n : ℕ). count_lines atof zero_float fuel n d0 (text rows []))
        (omega (arith, add_length-eq rows (suc (fuel - length rows - 1)), length-size rows))
      ∙ count_lines-text (suc (fuel - length rows - 1)) d0 rows [] h refl (omega arith)
          (omega (arith, total_fields-le rows)) (omega (arith, total_fields-le rows))
      ∙ count_lines-end (fuel - length rows - 1) (count_rows d0 rows)
      ∙ ap (λ (x : DataLoader). ok (x, [])) (count_rows-counts d0 rows ∙ ground arith)
