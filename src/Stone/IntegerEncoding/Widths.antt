-- ===== src/Stone/IntegerEncoding/Widths.antt =====
-- `VariantInt` at the integer types of C: 8, 16, 32 and 64 bits.
use Prim.Native.Nat.{min}
use native.Mathlib.Nat.{mod-eq_of_lt, mod-le}
use mathlib.Core.Bool.{and-false}
use mathlib.Core.Path.{ap₂}
use recommender.Prelude.{
  ℕ, zero, suc, ◌+◌, ◌-◌, ◌*◌, ◌%◌, ◌^◌, ◌<◌, ◌≤◌, ◌≡◌, ◌≢◌, ◌∙◌, ap, true, false, some, List, [],
  ◌∷◌, ◌++◌, arith, leb, not_lt→ltb, length,
}
use recommender.Run.{ok}
use recommender.Stone.IntegerEncoding.{
  is_long, encode, get_length, get_max_chars_of_encoded_size, decode_loop, decode,
}
use recommender.Stone.IntegerEncoding.RoundTrip.{encode-IsEncoding}

abbrev pub max_chars : ℕ → ℕ
max_chars = get_max_chars_of_encoded_size

-- The widths of the integer types.
pub data IsWidth : ℕ → Type 0 where
  byte : (w : ℕ) → w ≡ 8 → IsWidth w
  short : (w : ℕ) → w ≡ 16 → IsWidth w
  int : (w : ℕ) → w ≡ 32 → IsWidth w
  long : (w : ℕ) → w ≡ 64 → IsWidth w

-- `Encode` ends within the greatest number of bytes for the type, `GetLength` counts what it wrote,
-- and `Decode` reads the number back from it and gives that count as the offset.
pub record IsRoundTrip (bits x limit : ℕ) (rest : List ℕ) : Type 0 where
  pub written : List ℕ
  pub encodes : encode false bits (max_chars bits) x ≡ ok written
  pub counts : get_length false bits (max_chars bits) x 1 ≡ ok (length written)
  pub fits : length written ≤ max_chars bits
  pub decodes :
      length written ≤ limit → decode bits (written ++ rest) limit ≡ ok (some (x, length written))

at_width :
    (bits k x limit : ℕ) (rest : List ℕ)
    → max_chars bits ≡ suc k
    → x < 128 ^ suc k
    → x < 2 ^ 64
    → x % 2 ^ bits ≡ x
    → IsRoundTrip bits x limit rest
unfolding decode
at_width bits k x limit rest ek small small64 cut =
    let e = encode-IsEncoding bits k x small in
    let plain : 0 + x * 2 ^ 0 ≡ x = omega arith in
    record {
      written = e.written;
      encodes = rw ek e.returns;
      counts = rw ek (e.counted 1 ∙ ap ok (omega (arith, e.long)));
      fits = rw ek e.short;
      decodes = λ fits.
          rw (ek, e.decodes rest 0 0 0 (min limit (suc k)) (omega (arith, e.short)) (omega arith))
            (ap₂ (λ (a b : ℕ). ok (some (a, b))) (ap (λ (a : ℕ). a % 2 ^ bits) plain ∙ cut)
              (omega arith));
    }

-- For an unsigned type of 8, 16, 32 or 64 bits, `Decode` returns the number that `Encode` wrote,
-- whatever follows it, if the limit leaves room for it; the offset is the number of bytes written,
-- which is what `GetLength` gives and at most `GetMaxCharsOfEncodedSize`.
pub decode-encode :
    (bits x limit : ℕ) (rest : List ℕ) → IsWidth bits → x < 2 ^ bits → IsRoundTrip bits x limit rest
unfolding get_max_chars_of_encoded_size
decode-encode bits x limit rest (byte _ e) small =
    let small' : x < 256 = rw e at small in
    at_width bits 1 x limit rest (rw e) (omega arith) (omega arith) (mod-eq_of_lt small)
decode-encode bits x limit rest (short _ e) small =
    let small' : x < 2 ^ 16 = rw e at small in
    at_width bits 2 x limit rest (rw e) (omega arith) (omega arith) (mod-eq_of_lt small)
decode-encode bits x limit rest (int _ e) small =
    let small' : x < 2 ^ 32 = rw e at small in
    at_width bits 4 x limit rest (rw e) (omega arith) (omega arith) (mod-eq_of_lt small)
decode-encode bits x limit rest (long _ e) small =
    let small' : x < 2 ^ 64 = rw e at small in
    at_width bits 9 x limit rest (rw e) (omega arith) (omega arith) (mod-eq_of_lt small)

-- A number of 33 to 35 bits, written from a 64-bit type, is read into a 32-bit type with success,
-- and comes out as another number: the bits that do not fit are dropped.
pub decode-too_wide :
    (x : ℕ) (rest : List ℕ)
    → 2 ^ 32 ≤ x
    → x < 2 ^ 35
    → (written : List ℕ) × (encode false 64 5 x ≡ ok written)
      × (decode 32 (written ++ rest) 5 ≡ ok (some (x % 2 ^ 32, length written)))
      × (x % 2 ^ 32 ≢ x)
unfolding decode get_max_chars_of_encoded_size
decode-too_wide x rest large small =
    let e = encode-IsEncoding 64 4 x (omega arith) in
    let plain : 0 + x * 2 ^ 0 ≡ x = omega arith in
    (
      e.written,
      e.returns,
      rw (e.decodes rest 0 0 0 5 e.short (omega arith))
          (ap₂ (λ (a b : ℕ). ok (some (a, b))) (ap (λ (a : ℕ). a % 2 ^ 32) plain) (omega arith)),
      omega arith,
    )

width_facts :
    (bits : ℕ) → IsWidth bits → (min 1 (max_chars bits) ≡ suc zero) × (128 ≤ 2 ^ (bits - 1))
unfolding get_max_chars_of_encoded_size
width_facts bits (byte _ e) = rw e (omega arith)
width_facts bits (short _ e) = rw e (omega arith)
width_facts bits (int _ e) = rw e (omega arith)
width_facts bits (long _ e) = rw e (omega arith)

not_negative : (bits x : ℕ) → 2 ^ (bits - 1) ≤ x → is_long true bits x ≡ false
not_negative bits x h = rw (not_lt→ltb x (2 ^ (bits - 1)) (omega arith)) (and-false (leb 0x80 x))

-- Of a negative number of a signed type `Encode` writes the low byte alone, and `Decode` does not
-- return the number from it.
pub encode-negative :
    (bits k x : ℕ)
    → IsWidth bits
    → 2 ^ (bits - 1) ≤ x
    → (encode true bits (suc k) x ≡ ok (x % 256 ∷ []))
      × (decode bits (x % 256 ∷ []) 1 ≢ ok (some (x, 1)))
unfolding encode decode decode_loop get_max_chars_of_encoded_size
encode-negative bits k x w negative =
    let (rounds, large) = width_facts bits w in
    (
      rw (not_negative bits x negative),
      rw rounds (λ h. ground (arith, mod-le (0 + x % 256 % 128 * 1 % 2 ^ 64) (2 ^ bits))),
    )
