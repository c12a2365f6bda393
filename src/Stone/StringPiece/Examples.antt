-- ===== src/Stone/StringPiece/Examples.antt =====
-- The theorems on string pieces, at pieces of a small buffer.
use recommender.Prelude.{ℕ, ◌≡◌, refl, not, some, List, [], ◌∷◌, arith, ◌==◌}
use recommender.Run.{running}
use recommender.Stone.StringPiece.{
  StringPiece, piece, content, char_test, contains, strlen, find, find_char, find_first_of,
  find_first_not_of, rfind_char, find_last_of, find_last_not_of, find_last_not_of_cstr,
}
use recommender.Stone.StringPiece.Characters.{
  IsLastBelow, find_up-IsFirst, find_down-IsLast, find_last_not_of_cstr-running,
}
use recommender.Stone.StringPiece.Compare.{compare, lexicographic, compare-lexicographic}
use recommender.Stone.StringPiece.Search.{IsFirst}
use recommender.Stone.StringPiece.Slice.{IsValid}
use recommender.Stone.StringPiece.Substring.{occurs, find-IsFirst}

-- `abcab` in a buffer that goes on.
abbrev abcab : StringPiece
abcab = piece (some (b'a' ∷ b'b' ∷ b'c' ∷ b'a' ∷ b'b' ∷ 0 ∷ [])) 5

abbrev ab : List ℕ
ab = b'a' ∷ b'b' ∷ []

abcab-IsValid : IsValid abcab
abcab-IsValid = record { readable = omega arith; bounded = omega arith }

find-IsFirst_example : IsFirst (occurs ab (content abcab)) 1 4 (find abcab ab 1)
find-IsFirst_example = find-IsFirst abcab ab 1 abcab-IsValid

find_up-IsFirst_example :
    IsFirst (char_test (λ d. d == b'b') (content abcab)) 2 5 (find_char abcab b'b' 2)
    × IsFirst (char_test (contains ab) (content abcab)) 2 5 (find_first_of abcab ab 2)
    × IsFirst
        (char_test (λ d. not (contains ab d)) (content abcab))
        2
        5
        (find_first_not_of abcab ab 2)
find_up-IsFirst_example = find_up-IsFirst abcab b'b' ab 2 abcab-IsValid

find_down-IsLast_example :
    IsLastBelow (char_test (λ d. d == b'b') (content abcab)) 3 5 (rfind_char abcab b'b' 3)
    × IsLastBelow (char_test (contains ab) (content abcab)) 3 5 (find_last_of abcab ab 3)
    × IsLastBelow
        (char_test (λ d. not (contains ab d)) (content abcab))
        3
        5
        (find_last_not_of abcab ab 3)
find_down-IsLast_example = find_down-IsLast abcab b'b' ab 3

find_last_not_of_cstr-running_example :
    find_last_not_of_cstr 1000 abcab (some (b'x' ∷ 0 ∷ [])) 4 ≡ running
unfolding strlen
find_last_not_of_cstr-running_example =
    find_last_not_of_cstr-running 1000 abcab (b'x' ∷ 0 ∷ []) 1 4 refl

compare-lexicographic_example : compare abcab abcab ≡ lexicographic (content abcab) (content abcab)
compare-lexicographic_example =
    compare-lexicographic abcab abcab abcab-IsValid abcab-IsValid (omega arith) (omega arith)
