-- ===== src/Training/Minibatch.antt =====
-- The minibatch that `main` draws from a loaded file.
use recommender.Prelude.{
  ℕ, ◌+◌, ◌-◌, ◌*◌, ◌%◌, ◌<◌, ◌≤◌, ◌^◌, ◌≡◌, refl, ◌∙◌, ap, some, List, map, arith, length,
  length-map, take, drop,
}
use native.Mathlib.Nat.{mod-lt, mod-eq_of_lt}
use native.Mathlib.Decide.{dec_lt}
use recommender.Run.{Run, ok, fault, ◌>>=◌}
use recommender.Loader.Fill.{labels, values}
use recommender.Loader.Text.{Row}
use recommender.Training.{window, batch, draw_ref, batch_starts}
use recommender.Training.Batch.{
  HasWidth, HasWidth-drop, loaded, drop-map, take-map, drop-values, take-values, length-values,
  drop-labels, take-labels, length-labels, window-ok, window-fault,
}

starts_long : (n : ℕ) → 100 ≤ n → n < 2 ^ 32 → batch_starts n ≡ n - 99
starts_long n h k = omega arith

pub draw_ref-long : (n r : ℕ) → 100 ≤ n → n < 2 ^ 32 → draw_ref n r ≡ ok (r % (n - 99))
unfolding draw_ref
draw_ref-long n r h k = rw (starts_long n h k) (ground arith)

-- The lines of the minibatch that the random number `r` draws.
abbrev pub chosen : ℕ → List Row → List Row
chosen r rows = take 100 (drop (r % (length rows - 99)) rows)

-- With 55 values on each line, at least 100 lines and fewer than 2 ^ 32 values in all, every random number draws the data and the
-- labels of 100 consecutive lines of the file, each label with the values of its own line; the
-- last of these lines is in the file.
pub batch-rows :
    {Float : Type 0} (atof : List ℕ → Float) (rows : List Row) (r : ℕ)
    → HasWidth 55 rows
    → 100 ≤ length rows
    → length rows * 55 < 2 ^ 32
    → (batch (loaded atof rows) r
        ≡ ok (map some (values atof (chosen r rows)), map some (labels atof (chosen r rows))))
      × (r % (length rows - 99) + 100 ≤ length rows)
unfolding batch
batch-rows atof rows r h long bound = (
  rw (draw_ref-long (length rows) r long (omega arith), offset, data_window, label_window),
  in_file,
)
  where
    ref : ℕ
    ref = r % (length rows - 99)

    in_file : ref + 100 ≤ length rows
    in_file = omega (arith, mod-lt r {m = length rows - 99} (omega arith))

    offset : ref * 55 % 2 ^ 32 ≡ ref * 55
    offset = omega arith

    data_window :
        window (map some (values atof rows)) (ref * 55) 5500
        ≡ ok (map some (values atof (chosen r rows)))
    data_window =
        window-ok (map some (values atof rows)) (ref * 55) 5500
          (omega (arith, length-map (values atof rows) some, length-values atof 55 rows h))
        ∙ ap ok (
            ap (take 5500) (
              drop-map some (ref * 55) (values atof rows)
              ∙ ap (map some) (drop-values atof 55 ref rows h))
            ∙ take-map some 5500 (values atof (drop ref rows))
            ∙ ap (map some) (take-values atof 55 100 (drop ref rows) (HasWidth-drop 55 ref rows h)))

    label_window :
        window (map some (labels atof rows)) ref 100 ≡ ok (map some (labels atof (chosen r rows)))
    label_window =
        window-ok (map some (labels atof rows)) ref 100
          (omega (arith, length-map (labels atof rows) some, length-labels atof rows))
        ∙ ap ok (
            ap (take 100)
              (drop-map some ref (labels atof rows) ∙ ap (map some) (drop-labels atof ref rows))
            ∙ take-map some 100 (labels atof (drop ref rows))
            ∙ ap (map some) (take-labels atof 100 (drop ref rows)))

starts_short : (n : ℕ) → n < 99 → batch_starts n ≡ n + (2 ^ 32 - 99)
starts_short n h = omega arith

draw_ref-short : (n r : ℕ) → n < 99 → r < 2 ^ 31 → draw_ref n r ≡ ok r
unfolding draw_ref
draw_ref-short n r h k =
    let small : r % (n + (2 ^ 32 - 99)) ≡ r = mod-eq_of_lt (omega arith) in
    rw (starts_short n h, small) (ground arith)

then-fault {ℓ κ} :
    {A : Type ℓ} {B : Type κ} (a : List A) (i n : ℕ)
    → ◌≡◌ {A = Run B} (window a i n >>= λ _. fault) fault
then-fault a i n = ground arith

-- On a file of at most 99 lines every draw faults: with 99 lines `rand` is divided by zero, and
-- with fewer the count wraps round, so that the labels are read past the end of their array.
pub batch-short :
    {Float : Type 0} (atof : List ℕ → Float) (rows : List Row) (r : ℕ)
    → length rows ≤ 99
    → r < 2 ^ 31
    → batch (loaded atof rows) r ≡ fault
unfolding batch
batch-short {Float} atof rows r short small = elim (dec_lt (length rows) 99) [
  | yes p ↦
      rw
        (
          draw_ref-short (length rows) r p small,
          window-fault (map some (labels atof rows)) r 100
              (omega (arith, length-map (labels atof rows) some, length-labels atof rows)),
        )
        (then-fault (map some (values atof rows)) (r * 55 % 2 ^ 32) 5500)
  | no p ↦ let e : length rows ≡ 99 = omega arith in rw e (unfold draw_ref in refl)
]
