-- ===== src/Stone/StringPiece/Search.antt =====
-- apsara/stone/string/string_piece.h: what the searches return.
use native.Mathlib.Decide.{dec_le}
use recommender.Prelude.{
  ℕ, zero, suc, ◌+◌, ◌<◌, ◌≤◌, ◌≡◌, refl, ◌∙◌, ap, ◌⊎◌, inl, inr, Bool, true, false, some, List, [],
  ◌∷◌, arith, length, drop, get_elem?, Bool-cases, length-take, length-drop,
}
use recommender.Stone.StringPiece.Slice.{IsValid}
use recommender.Stone.StringPiece.{bytes, StringPiece, npos, content, char_test, scan_up, scan_down}

-- `i` is the first place from `pos` on at which the test holds, below `size`; or there is none,
-- and `i` is `npos`.
abbrev pub IsFirst : (ℕ → Bool) → ℕ → ℕ → ℕ → Type 0
IsFirst test pos size i =
    ((i ≡ npos) × ((j : ℕ) → pos ≤ j → j < size → test j ≡ false))
    ⊎ ((pos ≤ i) × (i < size) × (test i ≡ true) × ((j : ℕ) → pos ≤ j → j < i → test j ≡ false))

-- `i` is the last place up to `pos` at which the test holds, or `npos`.
abbrev pub IsLast : (ℕ → Bool) → ℕ → ℕ → Type 0
IsLast test pos i =
    ((i ≡ npos) × ((j : ℕ) → j ≤ pos → test j ≡ false))
    ⊎ ((i ≤ pos) × (test i ≡ true) × ((j : ℕ) → i < j → j ≤ pos → test j ≡ false))

extend :
    (test : ℕ → Bool) (i pos : ℕ)
    → ((j : ℕ) → i ≤ j → j ≤ pos → test j ≡ false)
    → test (suc pos) ≡ false
    → (j : ℕ) → i ≤ j
    → j ≤ suc pos
    → test j ≡ false
extend test i pos h e j lo hi = elim (dec_le j pos) [
  | yes p ↦ h j lo p
  | no p ↦ let same : j ≡ suc pos = omega arith in rw same e
]

later :
    (test : ℕ → Bool) (pos size : ℕ)
    → ((j : ℕ) → pos + 1 ≤ j → j < size → test j ≡ false)
    → test pos ≡ false
    → (j : ℕ) → pos ≤ j
    → j < size
    → test j ≡ false
later test pos size h e j lo hi = elim (dec_le (pos + 1) j) [
  | yes p ↦ h j p hi
  | no p ↦ let same : j ≡ pos = omega arith in rw same e
]

pub drop-past : (n : ℕ) (s : List ℕ) → length s ≤ n → drop n s ≡ []
drop-past zero [] h = refl
drop-past zero (c ∷ s) h = absurd (omega arith)
drop-past (suc n) [] h = refl
drop-past (suc n) (c ∷ s) h = drop-past n s (omega arith)

pub length-content : (p : StringPiece) → IsValid p → length (content p) ≡ p.len
length-content p v = omega (arith, length-take p.len (bytes p.str), v.readable)

extend-IsLast :
    (test : ℕ → Bool) (i pos : ℕ)
    → IsLast test pos i
    → test (suc pos) ≡ false
    → IsLast test (suc pos) i
extend-IsLast test i pos (inl (missing, h)) e =
    inl (missing, λ j k. extend test 0 pos (λ j' _ k'. h j' k') e j (omega arith) k)
extend-IsLast test i pos (inr (le, found, h)) e =
    inr (omega arith, found, λ j k l. extend test (suc i) pos (λ j' k' l'. h j' k' l') e j k l)

pub scan_down-IsLast : (test : ℕ → Bool) (pos : ℕ) → IsLast test pos (scan_down test pos)
unfolding scan_down
scan_down-IsLast test zero = elim (Bool-cases (test zero)) [
  | inl e ↦ rw e (inr (omega arith, e, λ j h k. absurd (omega arith)))
  | inr e ↦ rw e (inl (refl, λ j h. let same : j ≡ 0 = omega arith in rw same e))
]
scan_down-IsLast test (suc pos) = elim (Bool-cases (test (suc pos))) [
  | inl e ↦ rw e (inr (omega arith, e, λ j h k. absurd (omega arith)))
  | inr e ↦ rw e (extend-IsLast test _ pos (scan_down-IsLast test pos) e)
]

pub step-IsFirst :
    (test : ℕ → Bool) (pos size i : ℕ)
    → test pos ≡ false
    → IsFirst test (pos + 1) size i
    → IsFirst test pos size i
step-IsFirst test pos size i e (inl (missing, h)) =
    inl (missing, λ j lo hi. later test pos size (λ j' lo' hi'. h j' lo' hi') e j lo hi)
step-IsFirst test pos size i e (inr (lo, hi, found, h)) = inr (
  omega arith,
  hi,
  found,
  λ j lo' hi'. later test pos i (λ k lo'' hi''. h k lo'' hi'') e j lo' hi',
)

char_test-some :
    (test : ℕ → Bool) (s : List ℕ) (c i : ℕ) → some c ≡ get_elem? s i → char_test test s i ≡ test c
char_test-some test s c i e = rw (← e, char_test)

-- The loop that goes up over `drop pos s`.
scan_up-IsFirst :
    (test : ℕ → Bool) (s : List ℕ) (pos size : ℕ) (cs : List ℕ)
    → ((j k : ℕ) → k ≡ pos + j → get_elem? cs j ≡ get_elem? s k)
    → size ≡ pos + length cs
    → IsFirst (char_test test s) pos size (scan_up test cs pos)
unfolding scan_up
scan_up-IsFirst test s pos size [] h e = inl (refl, λ j lo hi. absurd (omega arith))
scan_up-IsFirst test s pos size (c ∷ cs) h e =
    let here = char_test-some test s c pos (h 0 pos (omega arith)) in
    elim (Bool-cases (test c)) [
      | inl hit ↦
          rw hit (inr (omega arith, omega arith, here ∙ hit, λ j lo hi. absurd (omega arith)))
      | inr miss ↦ rw miss (
          step-IsFirst (char_test test s) pos size (scan_up test cs (pos + 1)) (here ∙ miss) (
            scan_up-IsFirst test s (pos + 1) size cs (λ j k e'. h (suc j) k (omega arith))
              (omega arith)))
    ]

get_elem?-drop : (pos j k : ℕ) (s : List ℕ) → k ≡ pos + j → get_elem? (drop pos s) j ≡ get_elem? s k
get_elem?-drop zero j k s e = ap (get_elem? s) (omega arith)
get_elem?-drop (suc pos) j k [] e = refl
get_elem?-drop (suc pos) j zero (c ∷ s) e = absurd (omega arith)
get_elem?-drop (suc pos) j (suc k) (c ∷ s) e = get_elem?-drop pos j k s (omega arith)

-- The pieces of which all characters can be read.
pub scan_up-content :
    (p : StringPiece) (test : ℕ → Bool) (pos : ℕ)
    → IsValid p
    → IsFirst (char_test test (content p)) pos p.len (scan_up test (drop pos (content p)) pos)
scan_up-content p test pos v = elim (dec_le pos p.len) [
  | yes h ↦
      scan_up-IsFirst test (content p) pos p.len (drop pos (content p))
        (λ j k e. get_elem?-drop pos j k (content p) e)
        (omega (arith, length-drop pos (content p), length-content p v))
  | no h ↦
      rw (drop-past pos (content p) (omega (arith, length-content p v)))
        (inl (unfold scan_up in refl, λ j lo hi. absurd (omega arith)))
]
