-- ===== src/Loader.antt =====
-- src/data_loader.hpp and src/data_loader.cpp: the two passes of `DataLoader` over a text file of
-- comma-terminated numbers. A `FILE *` is the list of the bytes that are not read yet, and an
-- `fpos_t` is such a list. A `char` is its byte, so that EOF, stored in a `char`, is 255.
-- Every loop runs on fuel. The messages to `cout` are left out.
pub mod Count
mod Examples
pub mod Fill
pub mod Hang
pub mod Lines
pub mod Load
pub mod Text
use recommender.Prelude.{
  ℕ, zero, suc, ◌+◌, ◌-◌, ◌*◌, ◌/◌, ◌%◌, ◌^◌, Bool, true, false, ◌||◌, Option, none, some, List, [],
  ◌∷◌, ◌++◌, ◌==◌, if◌then◌else◌, replicate,
}
use recommender.Run.{Run, ok, fault, running, ◌>>=◌, ◌>>◌, assert, divide_by, store}

abbrev pub File : Type 0
File = List ℕ

abbrev pub eof : ℕ
eof = 255

pub record DataLoader : Type 0 where
  pub num_floats : ℕ
  pub num_features : ℕ
  pub feature_len : ℕ

-- `unsigned int` `++`.
abbrev pub succ32 : ℕ → ℕ
succ32 n = (n + 1) % 2 ^ 32

abbrev pub fgetc : File → ℕ × File
fgetc [] = (eof, [])
fgetc (b ∷ f) = (b, f)

-- `Peek`: reads a character and sets the position back.
abbrev pub peek : File → ℕ
peek f = (fgetc f).0

-- The loop of `ReadFloat`, with the string read so far.
unfoldable pub read_float_loop : ℕ → Bool → File → List ℕ → Run (List ℕ × File)
read_float_loop zero return_float f cur_str = running
read_float_loop (suc k) return_float f cur_str =
    let (cur, f') = fgetc f in
    let cur_str' = if return_float then cur_str ++ (cur ∷ []) else cur_str in
    let again = read_float_loop k return_float f' cur_str' in
    if cur == b',' then ok (cur_str', f') else again

-- The number of elements of `pNewData`, in `unsigned int`.
abbrev pub data_size : DataLoader → ℕ
data_size d = (d.num_floats / d.num_features + (2 ^ 32 - 1)) % 2 ^ 32 * d.num_features % 2 ^ 32

-- ` `, newline or tab.
abbrev pub is_space : ℕ → Bool
is_space c = c == b' ' || (c == 10 || c == 9)

-- The loop that skips white space behind a line.
unfoldable pub skip_space : ℕ → File → Run File
skip_space zero f = running
skip_space (suc k) f =
    let again = skip_space k (fgetc f).1 in if is_space (peek f) then again else ok f

-- A compiler that lets a function return at its end although a `return` is missing.
abbrev pub returns : Run (Unit {0})
returns = ok tt

module _ {ℓ} {Float : Type ℓ} (atof : List ℕ → Float) (zero_float : Float) (fuel : ℕ) where
  -- `ReadFloat`. The text handed to `atof` ends in the comma.
  unfoldable pub read_float : Bool → File → Run (Float × File)
  read_float return_float f = do
    (cur_str, f') ← read_float_loop fuel return_float f []
    ok (if return_float then atof cur_str else zero_float, f')

  -- `do { ReadFloat; mNumFloats++; } while (Peek(f) != '\n');`
  unfoldable pub count_line : ℕ → DataLoader → File → Run (DataLoader × File)
  count_line zero d f = running
  count_line (suc k) d f = do
    (_, f') ← read_float false f
    let d' = record d { num_floats = succ32 d.num_floats }
    let again = count_line k d' f'
    if peek f' == 10 then ok (d', f') else again

  -- `while (Peek(f) != EOF)` of `RunThroughFile`.
  unfoldable pub count_lines : ℕ → DataLoader → File → Run (DataLoader × File)
  count_lines zero d f = running
  count_lines (suc k) d f =
      let line = do
        (d', f') ← count_line fuel d f
        f'' ← skip_space fuel f'
        count_lines k (record d' { num_features = succ32 d'.num_features }) f''
      in if peek f == eof then ok (d, f) else line

  unfoldable pub run_through_file : DataLoader → File → Run (DataLoader × File)
  run_through_file d f = count_lines fuel (record d { num_floats = 0; num_features = 0 }) f

  -- `do { pData[dataFloatCount] = ReadFloat; dataFloatCount++; } while (Peek(f) != '\n');`
  -- An element that is not written yet is `none`.
  unfoldable pub fill_line :
      ℕ → List (Option Float) → ℕ → File → Run (List (Option Float) × ℕ × File)
  fill_line zero p_data count f = running
  fill_line (suc k) p_data count f = do
    (num, f') ← read_float true f
    p_data' ← store p_data count (some num)
    let again = fill_line k p_data' (succ32 count) f'
    if peek f' == 10 then ok (p_data', succ32 count, f') else again

  -- `while (Peek(f) != EOF)` of `AllocateData`: the arrays and the two counts.
  unfoldable pub fill_lines :
      ℕ
      → List (Option Float)
      → List (Option Float)
      → ℕ
      → ℕ
      → File
      → Run (List (Option Float) × List (Option Float) × ℕ × ℕ)
  fill_lines zero p_data p_label data_float_count feature_count f = running
  fill_lines (suc k) p_data p_label data_float_count feature_count f =
      let line = do
        (num, f') ← read_float true f
        p_label' ← store p_label feature_count (some num)
        (p_data', data_float_count', f'') ← fill_line fuel p_data data_float_count f'
        f''' ← skip_space fuel f''
        fill_lines k p_data' p_label' data_float_count' (succ32 feature_count) f'''
      in if peek f == eof then ok (p_data, p_label, data_float_count, feature_count) else line

  unfoldable pub allocate_data :
      DataLoader
      → File
      → List (Option Float)
      → List (Option Float)
      → Run (List (Option Float) × List (Option Float))
  allocate_data d f p_data p_label = do
    (p_data', p_label', data_float_count, feature_count) ← fill_lines fuel p_data p_label 0 0 f
    assert ((data_float_count + d.num_features) % 2 ^ 32 == d.num_floats)
    assert (feature_count == d.num_features)
    ok (p_data', p_label')

  -- `LoadData`: `none` is the null pointer of an `fopen` that failed, which `fgetpos` is called on. The
  -- function has a result type but no `return`: `at_end` is what its end does.
  unfoldable pub load_data :
      Run (Unit {0})
      → DataLoader
      → Option File
      → Run (DataLoader × List (Option Float) × List (Option Float))
  load_data at_end d none = fault
  load_data at_end d (some f) = do
    (d', _) ← run_through_file (record d { feature_len = 55 }) f
    divide_by d'.num_features
    (p_data, p_label) ←
        allocate_data d' f (replicate (data_size d') none) (replicate d'.num_features none)
    at_end
    ok (d', p_data, p_label)

-- `ReturnStats`: the feature length, the number of lines and the number of floats.
abbrev pub return_stats : DataLoader → ℕ × ℕ × ℕ
return_stats d = (d.feature_len, d.num_features, d.num_floats)
