-- ===== src/Training.antt =====
-- src/run_training.cpp: minibatch gradient descent over the arrays of the data loader.
-- The Caffe library, `rand` and the arithmetic of `float` are parameters. The library is taken to
-- read `num * channels * height * width` data elements and `num` labels at the pointers that it is
-- given, as its interface says; a read past the end of an array is a fault.
-- The messages to `cout` are left out, but for the elements that they read.
pub mod Batch
mod Examples
pub mod Main
pub mod Program
pub mod Minibatch
pub mod Update
use recommender.Prelude.{
  ℕ, zero, suc, ◌+◌, ◌-◌, ◌*◌, ◌%◌, ◌^◌, ◌≡◌, Bool, true, false, Option, none, some, List, [], ◌∷◌,
  ◌==◌, leb, if◌then◌else◌, length, take, drop, get_elem?, set, replicate,
}
use recommender.Run.{Run, ok, fault, ◌>>=◌, ◌>>◌, store}
use recommender.Loader.{File, DataLoader, load_data, return_stats}

-- The library's network, with the state that its calls change. A call is given the contents of its
-- arrays and returns those of the arrays that it may write; an array's length cannot change. An
-- element of the data that is not written yet is `none`. `return_param_len` is not negative.
pub record CaffeLib (Float : Type 0) : Type 1 where
  pub Net : Type 0
  pub create : Net
  pub return_param_len : Net → ℕ
  pub return_param : Net → List Float → Net × List Float
  pub compute_gradient_with_datum :
      Net
      → List Float
      → List Float
      → List (Option Float)
      → List (Option Float)
      → Net × List Float × List Float
  pub set_params_dense : Net → List Float → Net
  pub validate : Net → List (Option Float) → List (Option Float) → Net
  pub return_param_length : (n : Net) (p : List Float) → length (return_param n p).1 ≡ length p
  pub compute_gradient_lengths :
      (n : Net) (p g : List Float) (d l : List (Option Float))
      → (length (compute_gradient_with_datum n p g d l).1 ≡ length p)
        × (length (compute_gradient_with_datum n p g d l).2 ≡ length g)

abbrev pub mini_batch_size : ℕ
mini_batch_size = 100

abbrev pub validate_every : ℕ
validate_every = 500

abbrev pub max_iters : ℕ
max_iters = 100000

-- The `n` elements at the pointer `a + at`.
abbrev pub window {ℓ} : {A : Type ℓ} → List A → ℕ → ℕ → Run (List A)
window a start n = if leb (start + n) (length a) then ok (take n (drop start a)) else fault

-- `a[i]`
abbrev pub load {ℓ} : {A : Type ℓ} → List A → ℕ → Run A
load a i = elim (get_elem? a i) [ none ↦ fault | some v ↦ ok v ]

-- `count - miniBatchSize + 1` in `unsigned int`.
abbrev pub batch_starts : ℕ → ℕ
batch_starts count = (count + (2 ^ 32 - mini_batch_size) + 1) % 2 ^ 32

-- The loaded arrays, with what `ReturnStats` says of them.
pub record Dataset (Float : Type 0) : Type 0 where
  pub p_data : List (Option Float)
  pub p_label : List (Option Float)
  pub feature_len : ℕ
  pub data_count : ℕ

-- `ref` for the number `r` that `rand` returns; a remainder by zero is a fault.
unfoldable pub draw_ref : ℕ → ℕ → Run ℕ
draw_ref count r = if batch_starts count == 0 then fault else ok (r % batch_starts count)

-- The data and the labels of the minibatch at `ref`, whose offset is an `unsigned int`.
unfoldable pub batch :
    {Float : Type 0} → Dataset Float → ℕ → Run (List (Option Float) × List (Option Float))
batch s r = do
  ref ← draw_ref s.data_count r
  stoch_data ← window s.p_data (ref * s.feature_len % 2 ^ 32) (mini_batch_size * s.feature_len)
  stoch_label ← window s.p_label ref mini_batch_size
  ok (stoch_data, stoch_label)

-- `a[0]` to `a[49]` of an array that `main` prints.
abbrev pub print_first {ℓ} : {A : Type ℓ} → List A → Run (List A)
print_first a = window a 0 50

module _ {Float : Type 0} (lib : CaffeLib Float) (sub mul : Float → Float → Float)
    (learning_rate : Float) (rand : ℕ → ℕ) where
  open lib use {Net, compute_gradient_with_datum, set_params_dense, validate}

  -- The network, the parameters, the gradient and the number of calls of `rand`.
  pub record Sgd : Type 0 where
    pub net : Net
    pub p_param : List Float
    pub p_grad : List Float
    pub calls : ℕ

  -- `for (int i...) pParam[i] = pParam[i] - learningRate * pGrad[i];` with `k` rounds left. `i++` of an
  -- `int` beyond 2 ^ 31 - 1 is undefined.
  unfoldable pub update_params : ℕ → ℕ → List Float → List Float → Run (List Float)
  update_params zero i p_param p_grad = ok p_param
  update_params (suc k) i p_param p_grad = do
    p ← load p_param i
    g ← load p_grad i
    p_param' ← store p_param i (sub p (mul learning_rate g))
    let rest = update_params k (i + 1) p_param' p_grad
    if leb (2 ^ 31) (i + 1) then fault else rest

  -- The validation that every 500th iteration makes.
  unfoldable pub validation : Dataset Float → Sgd → Run Sgd
  validation val s = do
    let net = set_params_dense s.net s.p_param
    (stoch_data, stoch_label) ← batch val (rand s.calls)
    ok (record s { net = validate net stoch_data stoch_label; calls = s.calls + 1 })

  -- One iteration.
  unfoldable pub train_step : ℕ → Dataset Float → Dataset Float → ℕ → Sgd → Run Sgd
  train_step param_len train val iter s = do
    (stoch_data, stoch_label) ← batch train (rand s.calls)
    let (net, p_param, p_grad) =
        compute_gradient_with_datum s.net s.p_param s.p_grad stoch_data stoch_label
    p_param' ← update_params param_len 0 p_param p_grad
    let s' = record s { net = net; p_param = p_param'; p_grad = p_grad; calls = s.calls + 1 }
    if iter % validate_every == 0 then validation val s' else ok s'

  -- The loop, with `k` iterations left.
  unfoldable pub train : ℕ → ℕ → Dataset Float → Dataset Float → ℕ → Sgd → Run Sgd
  train zero param_len tra val iter s = ok s
  train (suc k) param_len tra val iter s = do
    s' ← train_step param_len tra val iter s
    train k param_len tra val (iter + 1) s'

-- What a load leaves behind. `main` keeps the feature length of the last load.
abbrev pub dataset :
    {Float : Type 0} → ℕ → DataLoader × List (Option Float) × List (Option Float) → Dataset Float
dataset feature_len (d, p_data, p_label) = record {
  p_data = p_data;
  p_label = p_label;
  feature_len = feature_len;
  data_count = (return_stats d).1;
}

module _ {Float : Type 0} (lib : CaffeLib Float) (sub mul : Float → Float → Float)
    (learning_rate junk : Float) (rand : ℕ → ℕ) (atof : List ℕ → Float) (zero_float : Float)
    (fuel : ℕ) where
  open lib use {create, return_param_len, return_param}

  -- `main`, given the file that `fopen` finds, twice under the same name, the loader that `new` leaves
  -- uninitialised, and what the end of `LoadData` does.
  unfoldable pub main :
      Run (Unit {0}) → DataLoader → Option File → Run (Sgd lib sub mul learning_rate rand)
  main at_end d file = do
    (d', p_data, p_label) ← load_data atof zero_float fuel at_end d file
    (d'', p_val_data, p_val_label) ← load_data atof zero_float fuel at_end d' file
    _ ← print_first p_data
    _ ← print_first p_label
    let param_len = return_param_len create
    let (net, p_param) = return_param create (replicate param_len junk)
    train lib sub mul learning_rate rand max_iters param_len
        (dataset (return_stats d'').0 (d', p_data, p_label))
        (dataset (return_stats d'').0 (d'', p_val_data, p_val_label)) 0
        (record { net = net; p_param = p_param; p_grad = replicate param_len junk; calls = 0 })
