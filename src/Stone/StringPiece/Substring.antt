-- ===== src/Stone/StringPiece/Substring.antt =====
-- apsara/stone/string/string_piece.h: the searches for a text, `find` and `rfind`.
use Prim.Native.Nat.{min}
use recommender.Prelude.{
  ℕ, zero, suc, ◌+◌, ◌-◌, ◌<◌, ◌≤◌, ◌≡◌, refl, ◌∙◌, ap, ◌⊎◌, inl, inr, Bool, true, false, not, List,
  [], ◌∷◌, arith, ◌==◌, if◌then◌else◌, length, drop, length-drop, Bool-cases, le→leb, not_le→leb,
  ne→==, eq→==, pos→ne, sym,
}
use native.Mathlib.Decide.{dec_le}
use recommender.Stone.StringPiece.{
  StringPiece, npos, content, starts_with, search_offset, find, rfind,
}
use recommender.Stone.StringPiece.Characters.{IsLastBelow}
use recommender.Stone.StringPiece.Search.{IsFirst, IsLast, scan_down-IsLast, length-content}
use recommender.Stone.StringPiece.Slice.{IsValid}

-- The text `s` stands at the place `i`.
abbrev pub occurs : List ℕ → List ℕ → ℕ → Bool
occurs s text i = starts_with s (drop i text)

starts_with-length : (s text : List ℕ) → starts_with s text ≡ true → length s ≤ length text
unfolding starts_with
starts_with-length [] text h = omega arith
starts_with-length (c ∷ s) [] h = cc
starts_with-length (c ∷ s) (d ∷ text) h = ground (arith, starts_with-length s text)

-- The first place of an occurrence, or the length of the text.
abbrev FirstOffset : List ℕ → List ℕ → ℕ → Type 0
FirstOffset s text i =
    ((i ≡ length text) × ((j : ℕ) → j < length text → occurs s text j ≡ false))
    ⊎ ((i < length text) × (occurs s text i ≡ true) × ((j : ℕ) → j < i → occurs s text j ≡ false))

one_later :
    (s text : List ℕ) (c n : ℕ)
    → ((j : ℕ) → j < n → occurs s text j ≡ false)
    → starts_with s (c ∷ text) ≡ false
    → (j : ℕ) → j < suc n
    → occurs s (c ∷ text) j ≡ false
one_later s text c n h e zero k = e
one_later s text c n h e (suc j) k = h j (omega arith)

next-FirstOffset :
    (s text : List ℕ) (c i : ℕ)
    → starts_with s (c ∷ text) ≡ false
    → FirstOffset s text i
    → FirstOffset s (c ∷ text) (suc i)
next-FirstOffset s text c i e (inl (end, h)) =
    inl (omega arith, one_later s text c (length text) h e)
next-FirstOffset s text c i e (inr (lt, hit, h)) = inr (omega arith, hit, one_later s text c i h e)

search_offset-FirstOffset : (s text : List ℕ) → FirstOffset s text (search_offset s text)
unfolding search_offset
search_offset-FirstOffset s [] = inl (refl, λ j h. absurd (omega arith))
search_offset-FirstOffset s (c ∷ text) = elim (Bool-cases (starts_with s (c ∷ text))) [
  | inl hit ↦ rw hit (inr (omega arith, hit, λ j h. absurd (omega arith)))
  | inr miss ↦ rw miss (next-FirstOffset s text c _ miss (search_offset-FirstOffset s text))
]

drop-drop : (a b k : ℕ) (text : List ℕ) → k ≡ a + b → drop b (drop a text) ≡ drop k text
drop-drop zero b k text e = ap (λ (n : ℕ). drop n text) (omega arith)
drop-drop (suc a) zero k [] e = ap (λ (n : ℕ). drop n []) {x = suc a} (omega arith)
drop-drop (suc a) (suc b) zero [] e = absurd (omega arith)
drop-drop (suc a) (suc b) (suc k) [] e = refl
drop-drop (suc a) b zero (c ∷ text) e = absurd (omega arith)
drop-drop (suc a) b (suc k) (c ∷ text) e = drop-drop a b k text (omega arith)

module _ (s text : List ℕ) (pos : ℕ) where
  occurs-drop : (o i : ℕ) → i ≡ pos + o → occurs s (drop pos text) o ≡ occurs s text i
  occurs-drop o i e = ap (starts_with s) (drop-drop pos o i text e)

  -- No occurrence behind `pos`, below an offset, in places of the whole text.
  shifted :
      (n : ℕ)
      → ((j : ℕ) → j < n → occurs s (drop pos text) j ≡ false)
      → (j : ℕ) → pos ≤ j
      → j < pos + n
      → occurs s text j ≡ false
  shifted n h j lo hi = sym (occurs-drop (j - pos) j (omega arith)) ∙ h (j - pos) (omega arith)

  found :
      (len o i : ℕ)
      → len ≡ length text
      → pos ≤ len
      → i ≡ pos + o
      → o < length (drop pos text)
      → occurs s (drop pos text) o ≡ true
      → ((j : ℕ) → j < o → occurs s (drop pos text) j ≡ false)
      → IsFirst
          (occurs s text)
          pos
          (len + 1 - length s)
          (if not (i == len) then i else if length s == 0 then i else npos)
  found len o i el le ei lt hit h =
      let here : occurs s text i ≡ true = sym (occurs-drop o i ei) ∙ hit in
      rw (ne→== i len (omega (arith, length-drop pos text))) (
        inr (
          omega arith,
          omega (
            arith,
            length-drop pos text,
            length-drop i text,
            starts_with-length s (drop i text) here,
          ),
          here,
          λ j lo hi. shifted o h j lo (omega arith),
        ))

-- The offset of an occurrence behind `pos`, as a place of the whole text of length `len`.
placed :
    (s text : List ℕ) (pos len o i : ℕ)
    → len ≡ length text
    → pos ≤ len
    → i ≡ pos + o
    → FirstOffset s (drop pos text) o
    → IsFirst
        (occurs s text)
        pos
        (len + 1 - length s)
        (if not (i == len) then i else if length s == 0 then i else npos)
unfolding starts_with
placed s text pos len o i el le ei (inr (lt, hit, h)) = found s text pos len o i el le ei lt hit h
placed (c ∷ s) text pos len o i el le ei (inl (end, h)) =
    let last : i ≡ len = omega (arith, length-drop pos text) in
    rw (eq→== i len last, pos→ne (suc (length s)) (omega arith))
      (inl (
        refl,
        λ j lo hi. shifted (c ∷ s) text pos o (λ k lt. h k (omega arith)) j lo (omega arith),
      ))
placed [] text pos len zero i el le ei (inl (end, h)) =
    let last : i ≡ len = omega (arith, length-drop pos text) in
    rw (eq→== i len last) (
      inr (omega (arith, length-drop pos text), omega arith, refl, λ j lo hi. absurd (omega arith)))
placed [] text pos len (suc o) i el le ei (inl (end, h)) = cc (h 0 (omega arith))

-- `find(s, pos, n)` returns the first place from `pos` on at which the `n` characters `s` stand
-- within the piece, or `npos` where there is none. The empty text is found at `pos` itself.
pub find-IsFirst :
    (p : StringPiece) (s : List ℕ) (pos : ℕ)
    → IsValid p
    → IsFirst (occurs s (content p)) pos (p.len + 1 - length s) (find p s pos)
unfolding find
find-IsFirst p s pos v = elim (dec_le pos p.len) [
  | no h ↦ rw (not_le→leb pos p.len h) (inl (refl, λ j lo hi. absurd (omega arith)))
  | yes h ↦ elim (dec_le (length s) (p.len - pos)) [
    | no k ↦
        rw (le→leb pos p.len h, not_le→leb (length s) (p.len - pos) k)
          (inl (refl, λ j lo hi. absurd (omega arith)))
    | yes k ↦
        rw (le→leb pos p.len h, le→leb (length s) (p.len - pos) k)
          (placed s (content p) pos p.len (search_offset s (drop pos (content p))) _
            (sym (length-content p v)) h refl (search_offset-FirstOffset s (drop pos (content p))))
  ]
]

-- `rfind(s, pos, n)` returns the last place up to `pos` at which `s` stands within the piece, or
-- `npos` where there is none.
pub rfind-IsLast :
    (p : StringPiece) (s : List ℕ) (pos : ℕ)
    → IsLastBelow (occurs s (content p)) pos (p.len + 1 - length s) (rfind p s pos)
unfolding rfind
rfind-IsLast p s pos = elim (dec_le (length s) p.len) [
  | no h ↦ rw (not_le→leb (length s) p.len h) (inl (refl, λ j le lt. absurd (omega arith)))
  | yes h ↦
      rw (le→leb (length s) p.len h)
        (below h (scan_down-IsLast (occurs s (content p)) (min (p.len - length s) pos)))
]
  where
    below :
        {i : ℕ}
        → length s ≤ p.len
        → IsLast (occurs s (content p)) (min (p.len - length s) pos) i
        → IsLastBelow (occurs s (content p)) pos (p.len + 1 - length s) i
    below fits (inl (missing, h)) = inl (missing, λ j le lt. h j (omega arith))
    below fits (inr (le, found, h)) =
        inr (omega arith, omega arith, found, λ j lo le' lt. h j lo (omega arith))
