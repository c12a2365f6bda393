-- ===== src/Loader/Hang.antt =====
-- Files on which `LoadData` does not end: a last line that breaks off.
use recommender.Prelude.{
  ℕ, zero, suc, ◌-◌, ◌<◌, ◌≤◌, ◌^◌, ◌≡◌, refl, ◌∙◌, ap, Bool, false, some, List, [], ◌∷◌, ◌++◌,
  arith, ◌==◌, if◌then◌else◌, length,
}
use recommender.Run.{Run, running}
use recommender.Loader.{
  File, DataLoader, eof, peek, succ32, is_space, read_float_loop, read_float, count_line,
  count_lines, run_through_file, load_data,
}
use recommender.Loader.Count.{count_lines-text, count_rows, read_float-skip}
use recommender.Loader.Text.{
  Row, All, fields, fields_size, text, IsField, IsValue, IsRow, peek-field, total_fields-le, size,
  add_length-eq, length-size,
}

-- A last line that breaks off: whole fields, then bytes without a comma, and no newline where
-- the loop over a line looks for it.
pub record IsBroken (s : List ℕ) (ss : List (List ℕ)) (left : List ℕ) : Type 0 where
  pub first : IsField s
  pub values : All IsValue ss
  pub tail : IsField left
  pub tail_start : (peek left == 10) ≡ false

read_float_loop-none :
    (k : ℕ) (return_float : Bool) (tail acc : List ℕ)
    → IsField tail
    → read_float_loop k return_float tail acc ≡ running
unfolding read_float_loop
read_float_loop-none zero return_float tail acc h = refl
read_float_loop-none (suc k) return_float [] acc h =
    read_float_loop-none k return_float [] (if return_float then acc ++ (eof ∷ []) else acc) tt
read_float_loop-none (suc k) return_float (c ∷ tail) acc h =
    rw (h.0) (
      read_float_loop-none k return_float tail (if return_float then acc ++ (c ∷ []) else acc)
        (h.1))

module _ {ℓ} {Float : Type ℓ} (atof : List ℕ → Float) (zero_float : Float) (fuel : ℕ) where
  -- `ReadFloat` does not end where no comma is left, however many rounds it is given.
  pub read_float-running :
      (return_float : Bool) (tail : File)
      → IsField tail
      → read_float atof zero_float fuel return_float tail ≡ running
  unfolding read_float
  read_float-running return_float tail h = rw (read_float_loop-none fuel return_float tail [] h)

  peek-fields :
      (ss : List (List ℕ)) (tail : List ℕ)
      → All IsValue ss
      → (peek tail == 10) ≡ false
      → (peek (fields ss tail) == 10) ≡ false
  peek-fields [] tail h e = e
  peek-fields (s ∷ ss) tail h e = rw (peek-field s (fields ss tail)) (h.0.1)

  count_line-running :
      (k : ℕ) (d : DataLoader) (s : List ℕ) (ss : List (List ℕ)) (tail : List ℕ)
      → IsBroken s ss tail
      → fields_size (s ∷ ss) ≤ fuel
      → count_line atof zero_float fuel k d (fields (s ∷ ss) tail) ≡ running
  unfolding count_line
  count_line-running zero d s ss tail h short = refl
  count_line-running (suc zero) d s ss tail h short = rw (
    read_float-skip atof zero_float fuel s (fields ss tail) h.first (omega arith),
    peek-fields ss tail h.values h.tail_start,
  )
  count_line-running (suc (suc k)) d s [] tail h short = rw (
    read_float-skip atof zero_float fuel s tail h.first (omega arith),
    h.tail_start,
    read_float-running false tail h.tail,
  )
  count_line-running (suc (suc k)) d s (t ∷ ts) tail h short =
      rw
        (
          read_float-skip atof zero_float fuel s (fields (t ∷ ts) tail) h.first (omega arith),
          peek-fields (t ∷ ts) tail h.values h.tail_start,
        )
        (count_line-running (suc k) (record d { num_floats = succ32 d.num_floats }) t ts tail
          (record {
            first = h.values.0.0;
            values = h.values.1;
            tail = h.tail;
            tail_start = h.tail_start;
          })
          (omega arith))

  count_lines-broken :
      (k : ℕ) (d : DataLoader) (s : List ℕ) (ss : List (List ℕ)) (tail : List ℕ)
      → IsBroken s ss tail
      → (peek (fields (s ∷ ss) tail) == eof) ≡ false
      → fields_size (s ∷ ss) ≤ fuel
      → count_lines atof zero_float fuel k d (fields (s ∷ ss) tail) ≡ running
  unfolding count_lines
  count_lines-broken zero d s ss tail h e short = refl
  count_lines-broken (suc k) d s ss tail h e short =
      rw (e, count_line-running fuel d s ss tail h short)

  -- After any number of whole lines, fewer than 2 ^ 32 bytes in all, a last line that breaks off behind
  -- a field (no newline at the end of the file, or bytes without a comma) keeps `LoadData` in its first
  -- pass for ever: it is still running after any number of rounds, given that they are enough for what
  -- stands before. The first byte of that line is neither white space nor the byte 255, which would
  -- count as the end of the file.
  pub load_data-running :
      (at_end : Run (Unit {0})) (d : DataLoader) (rows : List Row) (s : List ℕ) (ss : List (List ℕ))
      (tail : List ℕ)
      → All IsRow rows
      → IsBroken s ss tail
      → is_space (peek (fields (s ∷ ss) tail)) ≡ false
      → (peek (fields (s ∷ ss) tail) == eof) ≡ false
      → size rows < fuel
      → size rows < 2 ^ 32
      → fields_size (s ∷ ss) ≤ fuel
      → load_data atof zero_float fuel at_end d (some (text rows (fields (s ∷ ss) tail))) ≡ running
  unfolding load_data run_through_file
  load_data-running at_end d rows s ss tail h hb space first short bound short' = rw (lines)
    where
      start : DataLoader
      start = record { num_floats = 0; num_features = 0; feature_len = 55 }

      more : ℕ
      more = suc (fuel - length rows - 1)

      lines :
          count_lines atof zero_float fuel fuel start (text rows (fields (s ∷ ss) tail)) ≡ running
      lines =
          ap
            (λ (n : ℕ). count_lines atof zero_float fuel n start (text rows (fields (s ∷ ss) tail)))
            (omega (arith, add_length-eq rows more, length-size rows))
          ∙ count_lines-text atof zero_float fuel more start rows (fields (s ∷ ss) tail) h space
              (omega arith) (omega (arith, total_fields-le rows))
              (omega (arith, total_fields-le rows))
          ∙ count_lines-broken more (count_rows atof zero_float fuel start rows) s ss tail hb first
              short'
