-- ===== src/Stone/StringPiece/Slice.antt =====
-- apsara/stone/string/string_piece.h: the operations that change or copy a piece, and what they do
-- to its characters.
use Prim.Native.Nat.{min}
use mathlib.Core.Option
use recommender.Prelude.{
  ℕ, zero, suc, ◌+◌, ◌-◌, ◌<◌, ◌≤◌, ◌≡◌, refl, ◌∙◌, ap, sym, ◌⊎◌, inl, inr, Option, none, some,
  List, [], ◌∷◌, arith, ltb, ◌==◌, if◌then◌else◌, length, take, drop, length-drop, lt→ltb,
}
use native.Mathlib.Decide.{dec_lt}
use recommender.Run.{Run, ok, fault}
use recommender.Stone.StringPiece.{
  StringPiece, npos, bytes, content, piece, Checked, value, out_of_range,
}

-- The bytes of a piece can all be read, and its size is a `size_t`.
pub record IsValid (p : StringPiece) : Type 0 where
  pub readable : p.len ≤ length (bytes p.str)
  pub bounded : p.len ≤ npos

unfoldable pub swap : StringPiece × StringPiece → StringPiece × StringPiece
swap (p, q) = (q, p)

-- `set(data, len)`
unfoldable pub set_range : StringPiece → Option (List ℕ) → ℕ → StringPiece
set_range p s n = record p { str = s; len = n }

unfoldable pub remove_prefix : StringPiece → ℕ → Checked StringPiece
remove_prefix p n =
    if ltb p.len n then out_of_range else value (piece (Option.map (drop n) p.str) (p.len - n))

unfoldable pub remove_suffix : StringPiece → ℕ → Checked StringPiece
remove_suffix p n = if ltb p.len n then out_of_range else value (piece p.str (p.len - n))

unfoldable pub substr : StringPiece → ℕ → ℕ → Checked StringPiece
substr p pos n =
    if ltb p.len pos
    then out_of_range
    else value (
        piece (Option.map (drop pos) p.str)
          (if n == npos then p.len - pos else min (p.len - pos) n))

-- The string that is copied out; one byte of the text after another.
unfoldable pub as_string : StringPiece → Run (List ℕ)
as_string p =
    if p.len == 0 then ok [] else if ltb (length (bytes p.str)) p.len then fault else ok (content p)

module _ {ℓ} {A : Type ℓ} where
  -- A part of the front of a list, cut before or after.
  pub take-drop : (m n k : ℕ) (xs : List A) → m ≡ n + k → take k (drop n xs) ≡ drop n (take m xs)
  take-drop m zero k xs e = ap (λ (j : ℕ). take j xs) (omega arith)
  take-drop zero (suc n) k xs e = absurd (omega arith)
  take-drop (suc m) (suc n) zero [] e = refl
  take-drop (suc m) (suc n) (suc k) [] e = refl
  take-drop (suc m) (suc n) k (x ∷ xs) e = take-drop m n k xs (omega arith)

  pub take-take : (m n : ℕ) (xs : List A) → n ≤ m → take n (take m xs) ≡ take n xs
  take-take m zero xs e = refl
  take-take zero (suc n) xs e = absurd (omega arith)
  take-take (suc m) (suc n) [] e = refl
  take-take (suc m) (suc n) (x ∷ xs) e = ap (λ l. x ∷ l) (take-take m n xs (omega arith))

  take-min : (k m n : ℕ) (xs : List A) → k ≡ min m n → take n (take m xs) ≡ take k xs
  take-min zero m zero xs e = refl
  take-min zero zero (suc n) xs e = refl
  take-min zero (suc m) (suc n) xs e = absurd (omega arith)
  take-min (suc k) zero n xs e = absurd (omega arith)
  take-min (suc k) (suc m) zero xs e = absurd (omega arith)
  take-min (suc k) (suc m) (suc n) [] e = refl
  take-min (suc k) (suc m) (suc n) (x ∷ xs) e = ap (λ l. x ∷ l) (take-min k m n xs (omega arith))

bytes-drop : (n : ℕ) (s : Option (List ℕ)) → bytes (Option.map (drop n) s) ≡ drop n (bytes s)
bytes-drop n (some b) = refl
bytes-drop zero none = refl
bytes-drop (suc n) none = refl

-- What a slicing operation gives: a valid piece with the given characters.
pub record IsSlice (r : Checked StringPiece) (chars : List ℕ) : Type 0 where
  pub result : StringPiece
  pub returns : r ≡ value result
  pub valid : IsValid result
  pub has_chars : content result ≡ chars

-- `remove_prefix` takes the first `n` characters away, and throws exactly if there are fewer.
pub remove_prefix-drop :
    (p : StringPiece) (n : ℕ)
    → IsValid p
    → ((p.len < n) × (remove_prefix p n ≡ out_of_range))
      ⊎ ((n ≤ p.len) × IsSlice (remove_prefix p n) (drop n (content p)))
unfolding remove_prefix
remove_prefix-drop p n v = elim (dec_lt p.len n) [
  | yes h ↦ inl (h, rw (lt→ltb p.len n h))
  | no h ↦ inr (
    omega arith,
    record {
      result = piece (Option.map (drop n) p.str) (p.len - n);
      returns = ground arith;
      valid = record {
        readable = rw (bytes-drop n p.str) (omega (arith, length-drop n (bytes p.str), v.readable));
        bounded = omega (arith, v.bounded);
      };
      has_chars =
          rw (bytes-drop n p.str) (take-drop p.len n (p.len - n) (bytes p.str) (omega arith));
    },
  )
]

-- `remove_suffix` keeps all but the last `n` characters, and throws exactly if there are fewer.
pub remove_suffix-take :
    (p : StringPiece) (n : ℕ)
    → IsValid p
    → ((p.len < n) × (remove_suffix p n ≡ out_of_range))
      ⊎ ((n ≤ p.len) × IsSlice (remove_suffix p n) (take (p.len - n) (content p)))
unfolding remove_suffix
remove_suffix-take p n v = elim (dec_lt p.len n) [
  | yes h ↦ inl (h, rw (lt→ltb p.len n h))
  | no h ↦ inr (
    omega arith,
    record {
      result = piece p.str (p.len - n);
      returns = ground arith;
      valid = record { readable = omega (arith, v.readable); bounded = omega (arith, v.bounded) };
      has_chars = sym (take-take p.len (p.len - n) (bytes p.str) (omega arith));
    },
  )
]

-- `substr(pos, len)` has at most `len` of the characters from `pos` on (all of them for the default
-- `len`), and throws exactly if `pos` is past the end.
pub substr-take-drop :
    (p : StringPiece) (pos n : ℕ)
    → IsValid p
    → n ≤ npos
    → ((p.len < pos) × (substr p pos n ≡ out_of_range))
      ⊎ ((pos ≤ p.len) × IsSlice (substr p pos n) (take n (drop pos (content p))))
unfolding substr
substr-take-drop p pos n v small = elim (dec_lt p.len pos) [
  | yes h ↦ inl (h, rw (lt→ltb p.len pos h))
  | no h ↦ inr (
    omega arith,
    record {
      result =
          piece (Option.map (drop pos) p.str)
            (if n == npos then p.len - pos else min (p.len - pos) n);
      returns = ground arith;
      valid = record {
        readable =
            rw (bytes-drop pos p.str)
              (omega (arith, length-drop pos (bytes p.str), v.readable, size_lem));
        bounded = omega (arith, v.bounded, size_lem);
      };
      has_chars =
          rw (bytes-drop pos p.str, size_lem)
            (sym (take-min _ (p.len - pos) n (drop pos (bytes p.str)) refl)
              ∙ ap (take n) (take-drop p.len pos (p.len - pos) (bytes p.str) (omega arith)));
    },
  )
]
  where
    size_lem : (if n == npos then p.len - pos else min (p.len - pos) n) ≡ min (p.len - pos) n
    size_lem = ground (arith, v.bounded)
