-- ===== src/Loader/Text.antt =====
-- The text of a data file: lines of comma-terminated fields, a label before the values, white
-- space behind each line. This is the format that python/dataproc/parse_data.py writes.
use recommender.Prelude.{
  ℕ, suc, ◌+◌, ◌≤◌, ◌≡◌, refl, true, false, List, [], ◌∷◌, ◌++◌, arith, ◌==◌, length, length-append,
}
use recommender.Loader.{File, eof, is_space, peek}

pub record Row : Type 0 where
  pub label : List ℕ
  pub value : List ℕ
  pub values : List (List ℕ)
  pub gap : List ℕ

abbrev pub All {ℓ κ} : {A : Type ℓ} → (A → Type κ) → List A → Type κ
All P [] = Unit
All P (x ∷ xs) = P x × All P xs

abbrev pub fields : List (List ℕ) → File → File
fields [] rest = rest
fields (s ∷ ss) rest = s ++ (b',' ∷ fields ss rest)

abbrev pub row_fields : Row → List (List ℕ)
row_fields r = r.label ∷ r.value ∷ r.values

abbrev pub row_text : Row → File → File
row_text r rest = fields (row_fields r) (10 ∷ (r.gap ++ rest))

abbrev pub text : List Row → File → File
text [] rest = rest
text (r ∷ rs) rest = row_text r (text rs rest)

-- The first byte of a field, its comma counted.
abbrev pub start : List ℕ → ℕ
start s = peek (s ++ (b',' ∷ []))

abbrev pub IsField : List ℕ → Type 0
IsField s = All (λ c. (c == b',') ≡ false) s

-- A value that began with a newline would end the line.
abbrev pub IsValue : List ℕ → Type 0
IsValue s = IsField s × ((start s == 10) ≡ false)

-- A label must not be taken for white space, nor for the end of the file.
pub record IsRow (r : Row) : Type 0 where
  pub label : IsField r.label
  pub label_start : is_space (start r.label) ≡ false
  pub label_eof : (start r.label == eof) ≡ false
  pub value : IsValue r.value
  pub values : All IsValue r.values
  pub gap : All (λ c. is_space c ≡ true) r.gap

pub peek-field : (s rest : List ℕ) → peek (s ++ (b',' ∷ rest)) ≡ start s
peek-field [] rest = refl
peek-field (c ∷ s) rest = refl

pub text-start :
    (rows : List Row) (tail : File)
    → All IsRow rows
    → is_space (peek tail) ≡ false
    → is_space (peek (text rows tail)) ≡ false
text-start [] tail h e = e
text-start (r ∷ rs) tail h e = rw peek-field (h.0.label_start)

-- The number of fields of the lines, and the number of those that are values.
abbrev pub total_fields : List Row → ℕ
total_fields [] = 0
total_fields (r ∷ rs) = (2 + length r.values) + total_fields rs

abbrev pub total_values : List Row → ℕ
total_values [] = 0
total_values (r ∷ rs) = (1 + length r.values) + total_values rs

pub total_fields-eq : (rows : List Row) → total_fields rows ≡ total_values rows + length rows
total_fields-eq [] = refl
total_fields-eq (r ∷ rs) = omega (arith, total_fields-eq rs)

-- A bound on the length of every field and of the white space, and on the number of fields of a
-- line: the rounds that a loop within a line needs.
abbrev pub fields_size : List (List ℕ) → ℕ
fields_size [] = 0
fields_size (s ∷ ss) = suc (length s) + fields_size ss

abbrev pub size : List Row → ℕ
size [] = 0
size (r ∷ rs) = (fields_size (row_fields r) + suc (length r.gap)) + size rs

length-fields :
    (ss : List (List ℕ)) (rest : File) → length (fields ss rest) ≡ fields_size ss + length rest
length-fields [] rest = omega arith
length-fields (s ∷ ss) rest =
    omega (arith, length-append s (b',' ∷ fields ss rest), length-fields ss rest)

-- The size of the lines is the number of bytes of their text.
pub length-text :
    (rows : List Row) (rest : File) → length (text rows rest) ≡ size rows + length rest
length-text [] rest = omega arith
length-text (r ∷ rs) rest = omega (
  arith,
  length-fields (row_fields r) (10 ∷ (r.gap ++ text rs rest)),
  length-append r.gap (text rs rest),
  length-text rs rest,
)

pub length-fields_size : (ss : List (List ℕ)) → length ss ≤ fields_size ss
length-fields_size [] = omega arith
length-fields_size (s ∷ ss) = omega (arith, length-fields_size ss)

pub length-size : (rows : List Row) → length rows ≤ size rows
length-size [] = omega arith
length-size (r ∷ rs) = omega (arith, length-size rs)

pub total_fields-le : (rows : List Row) → total_fields rows ≤ size rows
total_fields-le [] = omega arith
total_fields-le (r ∷ rs) = omega (arith, total_fields-le rs, length-fields_size r.values)

-- One for each element, and `j` more; and one for each value of the lines.
abbrev pub add_length {ℓ} : {A : Type ℓ} → List A → ℕ → ℕ
add_length [] j = j
add_length (x ∷ xs) j = suc (add_length xs j)

abbrev pub add_values : List Row → ℕ → ℕ
add_values [] j = j
add_values (r ∷ rs) j = suc (add_length r.values (add_values rs j))

pub add_length-eq {ℓ} : {A : Type ℓ} (xs : List A) (j : ℕ) → add_length xs j ≡ length xs + j
add_length-eq [] j = omega arith
add_length-eq (x ∷ xs) j = omega (arith, add_length-eq xs j)

pub add_values-eq : (rows : List Row) (j : ℕ) → add_values rows j ≡ total_values rows + j
add_values-eq [] j = omega arith
add_values-eq (r ∷ rs) j =
    omega (arith, add_length-eq r.values (add_values rs j), add_values-eq rs j)
