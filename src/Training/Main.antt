-- ===== src/Training/Main.antt =====
-- The loop of `main`: its iterations one after another, on files of enough lines.
use recommender.Prelude.{
  ℕ, zero, suc, ◌+◌, ◌*◌, ◌%◌, ◌<◌, ◌≤◌, ◌^◌, ◌≡◌, refl, ◌∙◌, sym, some, List, map, ◌==◌, length,
  Bool-cases, inl, inr,
}
use recommender.Run.{ok}
use recommender.Loader.Fill.{labels, values}
use recommender.Loader.Text.{Row, All, IsRow, size}
use recommender.Training.{CaffeLib, Sgd, update_params, validation, train_step, train}
use recommender.Training.Batch.{HasWidth, loaded}
use recommender.Training.Minibatch.{batch-rows, chosen}
use recommender.Training.Update.{descend, length-descend, update_params-descend}

-- A file that `main` can train on: at least 100 lines of a label and 55 values, and in all fewer than
-- 2 ^ 32 bytes and values.
pub record IsTrainable (rows : List Row) : Type 0 where
  pub rows_ok : All IsRow rows
  pub width : HasWidth 55 rows
  pub long : 100 ≤ length rows
  pub bound : size rows < 2 ^ 32
  pub data_bound : length rows * 55 < 2 ^ 32

module _ {Float : Type 0} (lib : CaffeLib Float) (sub mul : Float → Float → Float)
    (learning_rate : Float) (rand : ℕ → ℕ) (atof : List ℕ → Float) where
  open lib use {
    Net, compute_gradient_with_datum, compute_gradient_lengths, set_params_dense, validate,
  }

  -- The parameters and the gradient have one length, which an `int` can count.
  pub record IsSized (n : ℕ) (s : Sgd lib sub mul learning_rate rand) : Type 0 where
    pub params : length s.p_param ≡ n
    pub grads : length s.p_grad ≡ n
    pub few : n < 2 ^ 31

  validation-ok :
      (rows : List Row) (n : ℕ) (s : Sgd lib sub mul learning_rate rand)
      → IsTrainable rows
      → IsSized n s
      → (s' : Sgd lib sub mul learning_rate rand) × (validation lib sub mul learning_rate rand
            (loaded atof rows)
            s
          ≡ ok s')
        × IsSized n s'
  unfolding validation
  validation-ok rows n s h sized = (
    record s {
      net =
          validate (set_params_dense s.net s.p_param)
            (map some (values atof (chosen (rand s.calls) rows)))
            (map some (labels atof (chosen (rand s.calls) rows)));
      calls = s.calls + 1;
    },
    rw ((batch-rows atof rows (rand s.calls) h.width h.long h.data_bound).0),
    record { params = sized.params; grads = sized.grads; few = sized.few },
  )

  -- The state after an iteration, before the validation.
  unfoldable stepped :
      List Row → Sgd lib sub mul learning_rate rand → Sgd lib sub mul learning_rate rand
  stepped rows s =
      let (net, p, g) =
        compute_gradient_with_datum s.net s.p_param s.p_grad
          (map some (values atof (chosen (rand s.calls) rows)))
          (map some (labels atof (chosen (rand s.calls) rows))) in
      record {
        net = net;
        p_param = descend lib sub mul learning_rate rand p g;
        p_grad = g;
        calls = s.calls + 1;
      }

  stepped-IsSized :
      (rows : List Row) (n : ℕ) (s : Sgd lib sub mul learning_rate rand)
      → IsSized n s
      → IsSized n (stepped rows s)
  unfolding stepped
  stepped-IsSized rows n s sized =
      let d = map some (values atof (chosen (rand s.calls) rows)) in
      let l = map some (labels atof (chosen (rand s.calls) rows)) in
      let (p-length, g-length) = compute_gradient_lengths s.net s.p_param s.p_grad d l in
      let r = compute_gradient_with_datum s.net s.p_param s.p_grad d l in
      record {
        params = length-descend lib sub mul learning_rate rand r.1 r.2 ∙ p-length ∙ sized.params;
        grads = g-length ∙ sized.grads;
        few = sized.few;
      }

  updated :
      (n : ℕ) (ps gs : List Float)
      → length ps ≡ n
      → length gs ≡ n
      → n < 2 ^ 31
      → update_params lib sub mul learning_rate rand n 0 ps gs
        ≡ ok (descend lib sub mul learning_rate rand ps gs)
  updated n ps gs ep eg few =
      rw (← ep)
        (update_params-descend lib sub mul learning_rate rand ps gs (ep ∙ sym eg) (rw ep few))

  train_step-ok :
      (rows val : List Row) (n iter : ℕ) (s : Sgd lib sub mul learning_rate rand)
      → IsTrainable rows
      → IsTrainable val
      → IsSized n s
      → (s' : Sgd lib sub mul learning_rate rand) × (train_step lib sub mul learning_rate rand n
            (loaded atof rows)
            (loaded atof val)
            iter
            s
          ≡ ok s')
        × IsSized n s'
  unfolding train_step stepped
  train_step-ok rows val n iter s h hv sized =
      let d = map some (values atof (chosen (rand s.calls) rows)) in
      let l = map some (labels atof (chosen (rand s.calls) rows)) in
      let r = compute_gradient_with_datum s.net s.p_param s.p_grad d l in
      let (p-length, g-length) = compute_gradient_lengths s.net s.p_param s.p_grad d l in
      let update = updated n r.1 r.2 (p-length ∙ sized.params) (g-length ∙ sized.grads) sized.few in
      let drawn = (batch-rows atof rows (rand s.calls) h.width h.long h.data_bound).0 in
      let (s', valid, sized') =
        validation-ok val n (stepped rows s) hv (stepped-IsSized rows n s sized) in
      elim (Bool-cases (iter % 500 == 0)) [
        | inl e ↦ (s', rw (drawn, update, e) valid, sized')
        | inr e ↦ (stepped rows s, rw (drawn, update, e), stepped-IsSized rows n s sized)
      ]

  -- With two files of at least 100 lines of a label and 55 values each, and as many parameters as
  -- gradient elements, fewer than 2 ^ 31, any number of iterations ends without a fault and keeps these lengths.
  pub train-ok :
      (k : ℕ) (rows val : List Row) (n iter : ℕ) (s : Sgd lib sub mul learning_rate rand)
      → IsTrainable rows
      → IsTrainable val
      → IsSized n s
      → (s' : Sgd lib sub mul learning_rate rand) × (train lib sub mul learning_rate rand k n
            (loaded atof rows)
            (loaded atof val)
            iter
            s
          ≡ ok s')
        × IsSized n s'
  unfolding train
  train-ok zero rows val n iter s h hv sized = (s, refl, sized)
  train-ok (suc k) rows val n iter s h hv sized =
      let (s', step, sized') = train_step-ok rows val n iter s h hv sized in
      let (s'', more, sized'') = train-ok k rows val n (iter + 1) s' h hv sized' in
      (s'', rw step more, sized'')
