-- ===== src/Training/Examples.antt =====
-- The theorems of the training program at small parameters: `float` is ℕ, and the library's
-- network counts its calls.
use recommender.Prelude.{
  ℕ, zero, suc, ◌+◌, ◌-◌, ◌*◌, ◌%◌, ◌≤◌, ◌≡◌, refl, some, List, [], ◌∷◌, map, arith, length,
  replicate,
}
use recommender.Run.{ok, fault}
use recommender.Loader.{DataLoader, returns}
use recommender.Loader.Fill.{labels, values}
use recommender.Loader.Text.{Row, All, IsRow, IsValue, text}
use recommender.Training.{CaffeLib, Sgd, batch, update_params, main}
use recommender.Training.Batch.{loaded}
use recommender.Training.Main.{IsTrainable}
use recommender.Training.Minibatch.{batch-rows, chosen}
use recommender.Training.Program.{main-ok, main-short}
use recommender.Training.Update.{descend, update_params-descend}

abbrev size_of : List ℕ → ℕ
size_of = length

abbrev counting : CaffeLib ℕ
counting = record {
  Net = ℕ;
  create = 3;
  return_param_len = λ n. n;
  return_param = λ n p. (n, p);
  compute_gradient_with_datum = λ n p g d l. (n + 1, p, g);
  set_params_dense = λ n p. n;
  validate = λ n d l. n + 1;
  return_param_length = λ n p. refl;
  compute_gradient_lengths = λ n p g d l. (refl, refl);
}

abbrev row : Row
row = record { label = b'1' ∷ []; value = b'2' ∷ []; values = replicate 54 (b'3' ∷ []); gap = [] }

abbrev blank : DataLoader
blank = record { num_floats = 0; num_features = 0; feature_len = 0 }

All-replicate {ℓ κ} : {A : Type ℓ} (P : A → Type κ) (n : ℕ) (a : A) → P a → All P (replicate n a)
All-replicate P zero a h = tt
All-replicate P (suc n) a h = (h, All-replicate P n a h)

row-IsRow : IsRow row
row-IsRow = record {
  label = (refl, tt);
  label_start = refl;
  label_eof = refl;
  value = ((refl, tt), refl);
  values = All-replicate IsValue 54 (b'3' ∷ []) ((refl, tt), refl);
  gap = tt;
}

hundred : IsTrainable (replicate 100 row)
hundred = record {
  rows_ok = All-replicate IsRow 100 row row-IsRow;
  width = All-replicate (λ (r : Row). suc (length r.values) ≡ 55) 100 row refl;
  long = omega arith;
  bound = omega arith;
  data_bound = omega arith;
}

main-ok_example :
    (s : Sgd counting ◌-◌ ◌*◌ 1 (λ n. n)) × (main counting ◌-◌ ◌*◌ 1 0
        (λ n. n)
        size_of
        0
        20000
        returns
        blank
        (some (text (replicate 100 row) []))
      ≡ ok s)
    × (length s.p_param ≡ 3)
main-ok_example =
    main-ok counting ◌-◌ ◌*◌ 1 0 (λ n. n) size_of 0 20000 blank (replicate 100 row) hundred
      (omega arith) (omega arith)

main-short_example :
    main counting ◌-◌ ◌*◌ 1 0
      (λ n. n)
      size_of
      0
      20000
      returns
      blank
      (some (text (row ∷ row ∷ []) []))
    ≡ fault
main-short_example =
    main-short counting ◌-◌ ◌*◌ 1 0 (λ n. n) size_of 0 20000 blank (row ∷ row ∷ [])
      (row-IsRow, (row-IsRow, tt)) (refl, (refl, tt)) (omega arith) (omega arith) (omega arith)
      (omega arith) (omega arith)

batch-rows_example :
    (batch (loaded size_of (replicate 100 row)) 41
      ≡ ok (
        map some (values size_of (chosen 41 (replicate 100 row))),
        map some (labels size_of (chosen 41 (replicate 100 row))),
      ))
    × (41 % 1 + 100 ≤ 100)
batch-rows_example =
    batch-rows size_of (replicate 100 row) 41 hundred.width (omega arith) (omega arith)

update_params-descend_example :
    update_params counting ◌-◌ ◌*◌ 2 (λ n. n) 2 0 (9 ∷ 8 ∷ []) (1 ∷ 3 ∷ []) ≡ ok (7 ∷ 2 ∷ [])
unfolding descend
update_params-descend_example =
    update_params-descend counting ◌-◌ ◌*◌ 2 (λ n. n) (9 ∷ 8 ∷ []) (1 ∷ 3 ∷ []) refl (omega arith)
