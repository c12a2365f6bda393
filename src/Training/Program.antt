-- ===== src/Training/Program.antt =====
-- The whole of `main`, on files of the right shape and on short ones.
use recommender.Prelude.{
  ℕ, suc, ◌*◌, ◌%◌, ◌<◌, ◌≤◌, ◌^◌, ◌≡◌, ◌∙◌, some, List, [], ◌∷◌, map, arith, length, length-map,
  replicate, length-replicate,
}
use native.Mathlib.Nat.{mul-mod_right}
use recommender.Run.{Run, ok, fault, ◌>>=◌}
use recommender.Loader.{DataLoader, load_data, returns}
use recommender.Loader.Fill.{labels, values}
use recommender.Loader.Load.{counted, load_data-text}
use recommender.Loader.Text.{Row, All, IsRow, size, total_fields, text}
use recommender.Training.{CaffeLib, Sgd, max_iters, print_first, train_step, train, main}
use recommender.Training.Batch.{HasWidth, loaded, length-values, length-labels, window-ok}
use recommender.Training.Main.{IsTrainable, IsSized, train-ok}
use recommender.Training.Minibatch.{batch-short}

total_fields-width :
    (w : ℕ) (rows : List Row) → HasWidth w rows → total_fields rows ≡ length rows * suc w
total_fields-width w [] h = omega arith
total_fields-width w (r ∷ rs) h = omega (arith, h.0, total_fields-width w rs (h.1))

module _ {Float : Type 0} (lib : CaffeLib Float) (sub mul : Float → Float → Float)
    (learning_rate junk : Float) (rand : ℕ → ℕ) (atof : List ℕ → Float) (zero_float : Float)
    (fuel : ℕ) where
  open lib use {create, return_param_len, return_param, return_param_length}

  load_trainable :
      (d : DataLoader) (rows : List Row)
      → IsTrainable rows
      → size rows < fuel
      → load_data atof zero_float fuel returns d (some (text rows []))
        ≡ ok (counted rows, map some (values atof rows), map some (labels atof rows))
  load_trainable d rows h short =
      load_data-text atof zero_float fuel d rows h.rows_ok short h.bound (omega (arith, h.long))
        (rw (total_fields-width 55 rows h.width) (mul-mod_right (length rows) 56))

  initial : Sgd lib sub mul learning_rate rand
  initial =
      let n = return_param_len create in
      let (net, p_param) = return_param create (replicate n junk) in
      record { net = net; p_param = p_param; p_grad = replicate n junk; calls = 0 }

  initial-IsSized :
      return_param_len create < 2 ^ 31
      → IsSized lib sub mul learning_rate rand atof (return_param_len create) initial
  unfolding initial
  initial-IsSized few =
      let n = return_param_len create in
      record {
        params = return_param_length create (replicate n junk) ∙ length-replicate n junk;
        grads = length-replicate n junk;
        few = few;
      }

  -- On a file of at least 100 lines of a label and 55 values each, fewer than 2 ^ 32 bytes and values in
  -- all, and with fewer than 2 ^ 31 parameters, `main` loads the file twice, runs all its iterations and
  -- ends: no draw, no read of a batch and no update leaves an array. The `return` that is missing at the
  -- end of `LoadData`, which C++ leaves undefined, is taken to return to `main`.
  pub main-ok :
      (d : DataLoader) (rows : List Row)
      → IsTrainable rows
      → size rows < fuel
      → return_param_len create < 2 ^ 31
      → (s : Sgd lib sub mul learning_rate rand) × (main lib sub mul learning_rate junk rand atof
            zero_float fuel returns d
            (some (text rows []))
          ≡ ok s)
        × (length s.p_param ≡ return_param_len create)
  unfolding main initial
  main-ok d rows h short few =
      let (s, run, sized) =
        train-ok lib sub mul learning_rate rand atof max_iters rows rows (return_param_len create) 0
          initial h h (initial-IsSized few) in
      (
        s,
        rw
            (
              load_trainable d rows h short,
              load_trainable (counted rows) rows h short,
              window-ok (map some (values atof rows)) 0 50 (
                  omega (
                    arith,
                    length-map (values atof rows) some,
                    length-values atof 55 rows h.width,
                    h.long,
                  )),
              window-ok (map some (labels atof rows)) 0 50 (
                  omega
                    (arith, length-map (labels atof rows) some, length-labels atof rows, h.long)),
            )
            run,
        sized.params,
      )

  bind-fault {ℓ κ} :
      {A : Type ℓ} {B : Type κ} (a : List A) (m : Run B)
      → m ≡ fault
      → ◌≡◌ {A = Run B} (print_first a >>= λ _. m) fault
  bind-fault a m e = rw e (ground arith)

  train-short :
      (k : ℕ) (rows val : List Row) (n iter : ℕ) (s : Sgd lib sub mul learning_rate rand)
      → length rows ≤ 99
      → rand s.calls < 2 ^ 31
      → train lib sub mul learning_rate rand (suc k) n (loaded atof rows) (loaded atof val) iter s
        ≡ fault
  unfolding train train_step
  train-short k rows val n iter s short small =
      rw (batch-short atof rows (rand s.calls) short small)

  -- With a file of at least one and at most 99 lines of a label and 55 values each, fewer than 2 ^ 32
  -- bytes in all, `main` does something undefined (other than to write past the end of an array),
  -- whatever `rand` first returns, a number below 2 ^ 31: it ends neither with a result nor by running
  -- on. The `return` that is missing at the end of `LoadData` is taken to return to `main`.
  pub main-short :
      (d : DataLoader) (rows : List Row)
      → All IsRow rows
      → HasWidth 55 rows
      → 0 < length rows
      → length rows ≤ 99
      → size rows < 2 ^ 32
      → size rows < fuel
      → rand 0 < 2 ^ 31
      → main lib sub mul learning_rate junk rand atof zero_float fuel returns d
          (some (text rows []))
        ≡ fault
  unfolding main initial
  main-short d rows h width pos few bound short small =
      let even : total_fields rows % length rows ≡ 0 =
        rw (total_fields-width 55 rows width) (mul-mod_right (length rows) 56) in
      rw
        (
          load_data-text atof zero_float fuel d rows h short bound pos even,
          load_data-text atof zero_float fuel (counted rows) rows h short bound pos even,
        )
        (bind-fault (map some (values atof rows)) _ (
          bind-fault (map some (labels atof rows)) _
            (train-short 99999 rows rows (return_param_len create) 0 initial few small)))
