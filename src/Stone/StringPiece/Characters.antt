-- ===== src/Stone/StringPiece/Characters.antt =====
-- apsara/stone/string/string_piece.h: the searches for a character.
use recommender.Prelude.{
  ℕ, zero, suc, ◌<◌, ◌≤◌, ◌≡◌, refl, ◌⊎◌, inl, inr, Bool, true, false, not, Option, some, List, [],
  ◌∷◌, arith, ltb, lt→ltb, ◌==◌, if◌then◌else◌, length, drop, not_lt→ltb, pos→ne, if_same,
}
use native.Mathlib.Decide.{dec_lt}
use recommender.Run.{ok, running}
use recommender.Stone.StringPiece.{
  StringPiece, npos, content, of_cstr, find_last_not_of_cstr, strlen, piece, char_test, contains,
  scan_up, scan_down, last_index, find_char, rfind_char, find_first_of, find_last_of,
  find_first_not_of, find_last_not_of,
}
use recommender.Stone.StringPiece.Search.{IsFirst, IsLast, scan_down-IsLast, scan_up-content}
use recommender.Stone.StringPiece.Slice.{IsValid}

-- `i` is the last place up to `pos` and below `size` at which the test holds, or `npos`.
abbrev pub IsLastBelow : (ℕ → Bool) → ℕ → ℕ → ℕ → Type 0
IsLastBelow test pos size i =
    ((i ≡ npos) × ((j : ℕ) → j ≤ pos → j < size → test j ≡ false))
    ⊎ ((i ≤ pos)
        × (i < size)
        × (test i ≡ true)
        × ((j : ℕ) → i < j → j ≤ pos → j < size → test j ≡ false))

none_of_empty : (s : List ℕ) (j : ℕ) → char_test (contains []) s j ≡ false
unfolding contains
none_of_empty s j = ground arith

-- `find(c, pos)`, `find_first_of(s, pos, n)` and `find_first_not_of(s, pos, n)` return the first
-- place from `pos` on whose character is `c`, is one of `s`, is none of `s`; or `npos` where there
-- is no such place.
pub find_up-IsFirst :
    (p : StringPiece) (c : ℕ) (s : List ℕ) (pos : ℕ)
    → IsValid p
    → IsFirst (char_test (λ d. d == c) (content p)) pos p.len (find_char p c pos)
      × IsFirst (char_test (contains s) (content p)) pos p.len (find_first_of p s pos)
      × IsFirst
          (char_test (λ d. not (contains s d)) (content p))
          pos
          p.len
          (find_first_not_of p s pos)
unfolding find_char find_first_of find_first_not_of
find_up-IsFirst p c s pos v = (char, of s, scan_up-content p (λ d. not (contains s d)) pos v)
  where
    char :
        IsFirst
          (char_test (λ d. d == c) (content p))
          pos
          p.len
          (if ltb pos p.len then scan_up (λ d. d == c) (drop pos (content p)) pos else npos)
    char = elim (dec_lt pos p.len) [
      | yes h ↦ rw (lt→ltb pos p.len h) (scan_up-content p (λ d. d == c) pos v)
      | no h ↦ rw (not_lt→ltb pos p.len h) (inl (refl, λ j lo hi. absurd (omega arith)))
    ]

    of :
        (s : List ℕ)
        → IsFirst
            (char_test (contains s) (content p))
            pos
            p.len
            (if length s == 0 then npos else scan_up (contains s) (drop pos (content p)) pos)
    of [] = inl (refl, λ j lo hi. none_of_empty (content p) j)
    of (d ∷ s) =
        rw (pos→ne (suc (length s)) (omega arith)) (scan_up-content p (contains (d ∷ s)) pos v)

below :
    (test : ℕ → Bool) (pos size i : ℕ)
    → 0 < size
    → IsLast test (last_index size pos) i
    → IsLastBelow test pos size i
below test pos size i h (inl (missing, none_up)) =
    inl (missing, λ j le lt. none_up j (ground arith))
below test pos size i h (inr (le, found, none_up)) =
    inr (ground arith, ground arith, found, λ j lo le' lt. none_up j lo (ground arith))

down :
    (p : StringPiece) (test : ℕ → Bool) (pos : ℕ)
    → IsLastBelow test pos p.len
        (if p.len == 0 then npos else scan_down test (last_index p.len pos))
down p test pos = elim (dec_lt 0 p.len) [
  | yes h ↦
      rw (pos→ne p.len h) (below test pos p.len _ h (scan_down-IsLast test (last_index p.len pos)))
  | no h ↦ let e : p.len ≡ 0 = omega arith in rw e (inl (refl, λ j le lt. absurd (omega arith)))
]

-- `rfind(c, pos)`, `find_last_of(s, pos, n)` and `find_last_not_of(s, pos, n)` return the last
-- place up to `pos` whose character is `c`, is one of `s`, is none of `s`; or `npos` where there
-- is no such place.
pub find_down-IsLast :
    (p : StringPiece) (c : ℕ) (s : List ℕ) (pos : ℕ)
    → IsLastBelow (char_test (λ d. d == c) (content p)) pos p.len (rfind_char p c pos)
      × IsLastBelow (char_test (contains s) (content p)) pos p.len (find_last_of p s pos)
      × IsLastBelow
          (char_test (λ d. not (contains s d)) (content p))
          pos
          p.len
          (find_last_not_of p s pos)
unfolding rfind_char find_last_of find_last_not_of
find_down-IsLast p c s pos = (
  down p (char_test (λ d. d == c) (content p)) pos,
  of s,
  down p (char_test (λ d. not (contains s d)) (content p)) pos,
)
  where
    of :
        (s : List ℕ)
        → IsLastBelow (char_test (contains s) (content p)) pos p.len (
            if p.len == 0
            then npos
            else if length s == 0
            then npos
            else scan_down (char_test (contains s) (content p)) (last_index p.len pos))
    of [] = rw (if_same (p.len == 0)) (inl (refl, λ j le lt. none_of_empty (content p) j))
    of (d ∷ s) =
        rw (pos→ne (suc (length s)) (omega arith))
          (down p (char_test (contains (d ∷ s)) (content p)) pos)

of_cstr-running :
    (k : ℕ) (p : StringPiece) (s : Option (List ℕ)) (pos : ℕ) (sp : StringPiece)
    → of_cstr s ≡ ok sp
    → find_last_not_of_cstr k p s pos ≡ running
unfolding find_last_not_of_cstr
of_cstr-running zero p s pos sp e = refl
of_cstr-running (suc k) p s pos sp e = rw e (of_cstr-running k p s pos sp e)

-- `find_last_not_of(s, pos)` on a C string never returns: it calls itself, however often.
pub find_last_not_of_cstr-running :
    (k : ℕ) (p : StringPiece) (s : List ℕ) (n pos : ℕ)
    → strlen s ≡ ok n
    → find_last_not_of_cstr k p (some s) pos ≡ running
unfolding of_cstr
find_last_not_of_cstr-running k p s n pos e =
    of_cstr-running k p (some s) pos (piece (some s) n) (rw e)
