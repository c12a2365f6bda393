-- ===== src/Stone/StringPiece.antt =====
-- apsara/stone/string/string_piece.h: `StringPieceDetail<char>`, a pointer and a length.
-- A pointer is the list of the bytes that can be read from it on, `none` is the null pointer, and
-- `size_t` has 64 bits. What the class takes from the C++ library (`char_traits`, `std::search`,
-- `std::min`) is written out.
pub mod Characters
pub mod Compare
mod Examples
pub mod Search
pub mod Slice
pub mod Substring
use Prim.Native.Nat.{min}
use recommender.Prelude.{
  ℕ, zero, suc, ◌+◌, ◌-◌, ◌%◌, ◌^◌, Bool, true, false, ◌&&◌, not, Option, none, some, List, [], ◌∷◌,
  ltb, leb, ◌==◌, if◌then◌else◌, length, take, drop, get_elem?,
}
use recommender.Run.{Run, ok, fault, running, ◌>>=◌}

pub record StringPiece : Type 0 where
  pub str : Option (List ℕ)
  pub len : ℕ

abbrev pub npos : ℕ
npos = 2 ^ 64 - 1

-- The bytes behind a pointer.
abbrev pub bytes : Option (List ℕ) → List ℕ
bytes none = []
bytes (some b) = b

-- The characters of a piece.
abbrev pub content : StringPiece → List ℕ
content p = take p.len (bytes p.str)

abbrev pub piece : Option (List ℕ) → ℕ → StringPiece
piece s n = record { str = s; len = n }

-- An exception of type `std::out_of_range`, or a value.
pub data Checked {ℓ} (A : Type ℓ) : Type ℓ where
  value : A → Checked A
  out_of_range : Checked A

-- `traits_type::length`, which reads past the end of a text with no terminator.
unfoldable pub strlen : List ℕ → Run ℕ
strlen [] = fault
strlen (c ∷ s) = let more = strlen s in if c == 0 then ok 0 else (more >>= λ n. ok (suc n))

-- The constructor from a C string.
unfoldable pub of_cstr : Option (List ℕ) → Run StringPiece
of_cstr none = ok (piece none 0)
of_cstr (some s) = strlen s >>= λ n. ok (piece (some s) n)

-- The constructor from two iterators of one string: its bytes, the offset of the first iterator
-- and that of the second.
unfoldable pub of_range : List ℕ → ℕ → ℕ → StringPiece
of_range s first last =
    if ltb first last then piece (some (drop first s)) (last - first) else piece none 0

unfoldable pub empty : StringPiece → Bool
empty p = p.len == 0

unfoldable pub clear : StringPiece → StringPiece
clear p = piece none 0

-- `at`
unfoldable pub at_index : StringPiece → ℕ → Run (Checked ℕ)
at_index p pos =
    if leb p.len pos
    then ok out_of_range
    else elim (get_elem? (bytes p.str) pos) [ none ↦ fault | some c ↦ ok (value c) ]

-- `traits_type::compare(a, b, n) == 0` where `n` is the length of `b`.
unfoldable pub starts_with : List ℕ → List ℕ → Bool
starts_with [] s = true
starts_with (c ∷ cs) [] = false
starts_with (c ∷ cs) (d ∷ s) = (c == d) && starts_with cs s

-- `std::search`: the offset of the first occurrence, or of the end.
unfoldable pub search_offset : List ℕ → List ℕ → ℕ
unfolding starts_with
search_offset s [] = 0
search_offset s (c ∷ cs) =
    let more = search_offset s cs in if starts_with s (c ∷ cs) then 0 else suc more

-- `find(s, pos, n)` with the `n` characters `s`.
unfoldable pub find : StringPiece → List ℕ → ℕ → ℕ
find p s pos =
    if leb pos p.len && leb (length s) (p.len - pos)
    then (let i = pos + search_offset s (drop pos (content p)) in
        if not (i == p.len) then i else if length s == 0 then i else npos)
    else npos

-- A loop that goes up from `pos` over the characters behind it, and one that goes down from `pos`;
-- `test` is the condition on the character under which the loop returns.
unfoldable pub scan_up : (ℕ → Bool) → List ℕ → ℕ → ℕ
scan_up test [] pos = npos
scan_up test (c ∷ cs) pos = let more = scan_up test cs (pos + 1) in if test c then pos else more

unfoldable pub scan_down : (ℕ → Bool) → ℕ → ℕ
scan_down test zero = if test zero then zero else npos
scan_down test (suc pos) = let more = scan_down test pos in if test (suc pos) then suc pos else more

-- The character `data()[i]`, for `i` below the size.
abbrev pub char_test : (ℕ → Bool) → List ℕ → ℕ → Bool
char_test test s i = elim (get_elem? s i) [ none ↦ false | some c ↦ test c ]

-- `traits_type::find(s, n, c)`, as a test.
unfoldable pub contains : List ℕ → ℕ → Bool
contains [] c = false
contains (d ∷ s) c = let more = contains s c in if d == c then true else more

-- `find(c, pos)`
unfoldable pub find_char : StringPiece → ℕ → ℕ → ℕ
find_char p c pos = if ltb pos p.len then scan_up (λ d. d == c) (drop pos (content p)) pos else npos

-- `rfind(s, pos, n)`
unfoldable pub rfind : StringPiece → List ℕ → ℕ → ℕ
rfind p s pos =
    if leb (length s) p.len
    then scan_down (λ i. starts_with s (drop i (content p))) (min (p.len - length s) pos)
    else npos

-- The start of a loop that goes down: `if (--size > pos) size = pos;`
abbrev pub last_index : ℕ → ℕ → ℕ
last_index size pos = if ltb pos (size - 1) then pos else size - 1

-- `rfind(c, pos)`
unfoldable pub rfind_char : StringPiece → ℕ → ℕ → ℕ
rfind_char p c pos =
    if p.len == 0
    then npos
    else scan_down (char_test (λ d. d == c) (content p)) (last_index p.len pos)

-- `find_first_of(s, pos, n)`
unfoldable pub find_first_of : StringPiece → List ℕ → ℕ → ℕ
find_first_of p s pos =
    if length s == 0 then npos else scan_up (contains s) (drop pos (content p)) pos

-- `find_last_of(s, pos, n)`
unfoldable pub find_last_of : StringPiece → List ℕ → ℕ → ℕ
find_last_of p s pos =
    if p.len == 0
    then npos
    else if length s == 0
    then npos
    else scan_down (char_test (contains s) (content p)) (last_index p.len pos)

-- `find_first_not_of(s, pos, n)`
unfoldable pub find_first_not_of : StringPiece → List ℕ → ℕ → ℕ
find_first_not_of p s pos = scan_up (λ c. not (contains s c)) (drop pos (content p)) pos

-- `find_last_not_of(s, pos, n)`
unfoldable pub find_last_not_of : StringPiece → List ℕ → ℕ → ℕ
find_last_not_of p s pos =
    if p.len == 0
    then npos
    else scan_down (char_test (λ c. not (contains s c)) (content p)) (last_index p.len pos)

-- `find_last_not_of(s, pos)` for a C string `s`: the call in its body is a call of itself.
unfoldable pub find_last_not_of_cstr : ℕ → StringPiece → Option (List ℕ) → ℕ → Run ℕ
find_last_not_of_cstr zero p s pos = running
find_last_not_of_cstr (suc k) p s pos = of_cstr s >>= λ sp. find_last_not_of_cstr k p s pos

-- The other overload that takes a C string and goes down, which calls the one on pieces.
unfoldable pub find_last_of_cstr : StringPiece → Option (List ℕ) → ℕ → Run ℕ
find_last_of_cstr p s pos = of_cstr s >>= λ sp. ok (find_last_of p (content sp) pos)
