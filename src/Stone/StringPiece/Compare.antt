-- ===== src/Stone/StringPiece/Compare.antt =====
-- apsara/stone/string/string_piece.h: `compare` and `operator==`.
use Prim.Native.Nat.{min}
use recommender.Prelude.{
  ℕ, zero, suc, ◌+◌, ◌-◌, ◌%◌, ◌^◌, ◌<◌, ◌≡◌, ◌↔◌, refl, ◌∙◌, ap, sym, Bool, true, false, List, [],
  ◌∷◌, arith, ltb, ◌==◌, ◌||◌, if◌then◌else◌, length,
}
use recommender.Stone.StringPiece.{StringPiece, content}
use recommender.Stone.StringPiece.Search.{length-content}
use recommender.Stone.StringPiece.Slice.{IsValid}

-- The sign of an `int`.
pub data Sign : Type 0 where
  negative null positive : Sign

-- `traits_type::compare` on the first `n` characters, which are compared as unsigned bytes.
unfoldable pub compare_chars : ℕ → List ℕ → List ℕ → Sign
compare_chars zero a b = null
compare_chars (suc n) [] b = null
compare_chars (suc n) (c ∷ a) [] = null
compare_chars (suc n) (c ∷ a) (d ∷ b) =
    let rest = compare_chars n a b in
    if ltb c d then negative else if ltb d c then positive else rest

-- The sign of the `int` whose bits are the low 32 of `w`.
abbrev pub sign32 : ℕ → Sign
sign32 w =
    if w % 2 ^ 32 == 0 then null else if ltb (w % 2 ^ 32) (2 ^ 31) then positive else negative

-- `r = this_size - other_size`, computed in `size_t`, where the characters are equal.
abbrev pub or_sizes : Sign → ℕ → ℕ → Sign
or_sizes negative m n = negative
or_sizes null m n = sign32 ((m + (2 ^ 64 - n)) % 2 ^ 64)
or_sizes positive m n = positive

unfoldable pub compare : StringPiece → StringPiece → Sign
compare p q = or_sizes (compare_chars (min p.len q.len) (content p) (content q)) p.len q.len

abbrev pub is_null : Sign → Bool
is_null null = true
is_null _ = false

-- `operator==`; `same` tells whether both sides are one object.
unfoldable pub equal : Bool → StringPiece → StringPiece → Bool
unfolding compare
equal same p q = same || is_null (compare p q)

-- The lexicographic order, a proper prefix first.
unfoldable pub lexicographic : List ℕ → List ℕ → Sign
lexicographic [] [] = null
lexicographic [] (d ∷ b) = negative
lexicographic (c ∷ a) [] = positive
lexicographic (c ∷ a) (d ∷ b) =
    let rest = lexicographic a b in if ltb c d then negative else if ltb d c then positive else rest

or_sizes-suc :
    (s : Sign) (m n : ℕ) → m < 2 ^ 31 → n < 2 ^ 31 → or_sizes s (suc m) (suc n) ≡ or_sizes s m n
or_sizes-suc negative m n h k = refl
or_sizes-suc null m n h k =
    ap sign32 {x = (suc m + (2 ^ 64 - suc n)) % 2 ^ 64} {y = (m + (2 ^ 64 - n)) % 2 ^ 64}
      (omega arith)
or_sizes-suc positive m n h k = refl

compare_chars-lexicographic :
    (a b : List ℕ) (k m n : ℕ)
    → k ≡ min m n
    → m ≡ length a
    → n ≡ length b
    → m < 2 ^ 31
    → n < 2 ^ 31
    → or_sizes (compare_chars k a b) m n ≡ lexicographic a b
unfolding compare_chars lexicographic
compare_chars-lexicographic [] [] zero m n e em en hm hn = ground arith
compare_chars-lexicographic [] [] (suc k) m n e em en hm hn = absurd (omega arith)
compare_chars-lexicographic [] (d ∷ b) zero m n e em en hm hn = ground arith
compare_chars-lexicographic [] (d ∷ b) (suc k) m n e em en hm hn = absurd (omega arith)
compare_chars-lexicographic (c ∷ a) [] zero m n e em en hm hn = ground arith
compare_chars-lexicographic (c ∷ a) [] (suc k) m n e em en hm hn = absurd (omega arith)
compare_chars-lexicographic (c ∷ a) (d ∷ b) zero m n e em en hm hn = absurd (omega arith)
compare_chars-lexicographic (c ∷ a) (d ∷ b) (suc k) zero n e em en hm hn = absurd (omega arith)
compare_chars-lexicographic (c ∷ a) (d ∷ b) (suc k) (suc m) zero e em en hm hn =
    absurd (omega arith)
compare_chars-lexicographic (c ∷ a) (d ∷ b) (suc k) (suc m) (suc n) e em en hm hn = ground (
  arith,
  or_sizes-suc (compare_chars k a b) m n,
  compare_chars-lexicographic a b k m n (omega arith) (omega arith) (omega arith) (omega arith)
      (omega arith),
)

-- On pieces of less than 2 ^ 31 characters `compare` is the lexicographic order of the characters.
pub compare-lexicographic :
    (p q : StringPiece)
    → IsValid p
    → IsValid q
    → p.len < 2 ^ 31
    → q.len < 2 ^ 31
    → compare p q ≡ lexicographic (content p) (content q)
unfolding compare
compare-lexicographic p q v w hp hq =
    compare_chars-lexicographic (content p) (content q) (min p.len q.len) p.len q.len refl
      (sym (length-content p v)) (sym (length-content q w)) hp hq

lexicographic_self : (a : List ℕ) → lexicographic a a ≡ null
unfolding lexicographic
lexicographic_self [] = refl
lexicographic_self (c ∷ a) = ground (arith, lexicographic_self a)

eq_of_lexicographic : (a b : List ℕ) → lexicographic a b ≡ null → a ≡ b
unfolding lexicographic
eq_of_lexicographic [] [] h = refl
eq_of_lexicographic [] (d ∷ b) h = cc
eq_of_lexicographic (c ∷ a) [] h = cc
eq_of_lexicographic (c ∷ a) (d ∷ b) h = ground (arith, eq_of_lexicographic a b)

null_of_is_null : (s : Sign) → is_null s ≡ true → s ≡ null
null_of_is_null negative h = cc
null_of_is_null null h = refl
null_of_is_null positive h = cc

-- On such pieces `operator==` holds exactly if the characters are the same.
pub equal-content :
    (p q : StringPiece)
    → IsValid p
    → IsValid q
    → p.len < 2 ^ 31
    → q.len < 2 ^ 31
    → (equal false p q ≡ true) ↔ (content p ≡ content q)
unfolding equal
equal-content p q v w hp hq =
    let order = compare-lexicographic p q v w hp hq in
    (
      λ e.
          eq_of_lexicographic (content p) (content q) (sym order ∙ null_of_is_null (compare p q) e),
      λ e. rw (order, e, lexicographic_self (content q)),
    )
