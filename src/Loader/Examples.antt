-- ===== src/Loader/Examples.antt =====
-- Runs of the loader on small files, and its theorems at them. `atof` gives the digits' sum here.
use recommender.Prelude.{ℕ, ◌+◌, ◌-◌, ◌≡◌, refl, some, List, [], ◌∷◌, arith}
use recommender.Run.{ok, overrun, running}
use recommender.Loader.{
  DataLoader, read_float_loop, read_float, skip_space, count_line, count_lines, run_through_file,
  fill_line, fill_lines, allocate_data, load_data, returns,
}
use recommender.Loader.Hang.{load_data-running}
use recommender.Loader.Load.{counted, load_data-text, load_data-overflow}
use recommender.Loader.Text.{Row, IsRow, text}

abbrev digit_sum : List ℕ → ℕ
digit_sum [] = 0
digit_sum (c ∷ s) = (c - b'0') + digit_sum s

abbrev blank : DataLoader
blank = record { num_floats = 7; num_features = 8; feature_len = 9 }

-- The lines `1,2,3,` and `0,4,5,`, the first followed by an empty line.
abbrev first_row : Row
first_row = record {
  label = b'1' ∷ [];
  value = b'2' ∷ [];
  values = (b'3' ∷ []) ∷ [];
  gap = 10 ∷ [];
}

abbrev second_row : Row
second_row = record { label = b'0' ∷ []; value = b'4' ∷ []; values = (b'5' ∷ []) ∷ []; gap = [] }

abbrev short_row : Row
short_row = record { label = b'0' ∷ []; value = b'4' ∷ []; values = []; gap = [] }

abbrev rows : List Row
rows = first_row ∷ second_row ∷ []

abbrev ragged : List Row
ragged = first_row ∷ short_row ∷ []

first_row-IsRow : IsRow first_row
first_row-IsRow = record {
  label = (refl, tt);
  label_start = refl;
  label_eof = refl;
  value = ((refl, tt), refl);
  values = (((refl, tt), refl), tt);
  gap = (refl, tt);
}

second_row-IsRow : IsRow second_row
second_row-IsRow = record {
  label = (refl, tt);
  label_start = refl;
  label_eof = refl;
  value = ((refl, tt), refl);
  values = (((refl, tt), refl), tt);
  gap = tt;
}

short_row-IsRow : IsRow short_row
short_row-IsRow = record {
  label = (refl, tt);
  label_start = refl;
  label_eof = refl;
  value = ((refl, tt), refl);
  values = tt;
  gap = tt;
}

load_two :
    load_data digit_sum 0 20 returns blank (some (text rows []))
    ≡ ok (counted rows, some 2 ∷ some 3 ∷ some 4 ∷ some 5 ∷ [], some 1 ∷ some 0 ∷ [])
unfolding load_data run_through_file count_lines count_line skip_space read_float read_float_loop
    fill_lines fill_line allocate_data
load_two = refl

load_ragged : load_data digit_sum 0 20 returns blank (some (text ragged [])) ≡ overrun
unfolding load_two
load_ragged = refl

load_data-text_example :
    load_data digit_sum 0 20 returns blank (some (text rows []))
    ≡ ok (counted rows, some 2 ∷ some 3 ∷ some 4 ∷ some 5 ∷ [], some 1 ∷ some 0 ∷ [])
load_data-text_example =
    load_data-text digit_sum 0 20 blank rows (first_row-IsRow, (second_row-IsRow, tt)) (omega arith)
      (omega arith) (omega arith) refl

load_data-overflow_example :
    load_data digit_sum 0 20 returns blank (some (text ragged [])) ≡ overrun
load_data-overflow_example =
    load_data-overflow digit_sum 0 20 returns blank ragged (first_row-IsRow, (short_row-IsRow, tt))
      (omega arith) (omega arith) (omega arith)

-- The second line has no newline behind it.
load_data-running_example :
    load_data digit_sum 0 50 returns blank
      (some (text (first_row ∷ []) (b'0' ∷ b',' ∷ b'4' ∷ b',' ∷ [])))
    ≡ running
load_data-running_example =
    load_data-running digit_sum 0 50 returns blank (first_row ∷ []) (b'0' ∷ []) ((b'4' ∷ []) ∷ [])
      [] (first_row-IsRow, tt)
      (record {
        first = (refl, tt);
        values = (((refl, tt), refl), tt);
        tail = tt;
        tail_start = refl;
      })
      refl refl (omega arith) (omega arith) (omega arith)
