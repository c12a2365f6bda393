-- ===== src/Stone/IntegerEncoding/RoundTrip.antt =====
-- What `Decode` reads back of what `Encode` wrote.
use native.Mathlib.Numerals.{towards_suc}
use native.Mathlib.Nat.{div-add-mod, mod-eq_of_lt}
use native.Mathlib.Decide.{dec_le}
use mathlib.Core.Path.{ap₂}
use recommender.Prelude.{
  ℕ, zero, suc, ◌+◌, ◌-◌, ◌*◌, ◌/◌, ◌%◌, ◌^◌, ◌<◌, ◌≤◌, ◌≡◌, ◌∙◌, ap, true, false, some, List, [],
  ◌∷◌, ◌++◌, arith, leb, length, lt→ltb, not_lt→ltb, le→leb, not_le→leb,
}
use recommender.Run.{ok}
use recommender.Stone.IntegerEncoding.{fixed_encode, fixed_decode, encode, get_length, decode_loop}

-- `FixedInt::Decode` reads back what `FixedInt::Encode` wrote, whatever stands behind it.
pub fixed_decode-encode :
    (n x : ℕ) (rest : List ℕ) → x < 256 ^ n → fixed_decode n (fixed_encode n x ++ rest) ≡ ok x
unfolding fixed_encode fixed_decode
fixed_decode-encode zero x rest h = ap ok (omega arith)
fixed_decode-encode (suc n) x rest h =
    rw (fixed_decode-encode n (x / 256) rest (omega arith))
      (ap ok (omega (arith, div-add-mod x 256)))

shift_groups : (s : ℕ) → 2 ^ (s + 7) ≡ 128 * 2 ^ s
shift_groups s = simp towards_suc (omega arith)

-- One round of the loop, on a last byte and on a byte with the top bit set.
decode_last :
    (x : ℕ) (rest : List ℕ) (value shift i rounds : ℕ)
    → x < 128
    → 1 ≤ rounds
    → value + x * 2 ^ shift < 2 ^ 64
    → decode_loop rounds (x ∷ rest) value shift i ≡ ok (some (value + x * 2 ^ shift, i + 1))
unfolding decode_loop
decode_last x rest value shift i zero small some_left fits = absurd (omega arith)
decode_last x rest value shift i (suc k) small some_left fits =
    let group : x % 128 * 2 ^ shift % 2 ^ 64 ≡ x * 2 ^ shift =
      rw (mod-eq_of_lt small) (mod-eq_of_lt (omega arith)) in
    rw (lt→ltb x 128 small, group)

decode_more :
    (g : ℕ) (rest : List ℕ) (value shift i rounds : ℕ)
    → g < 128
    → value + g * 2 ^ shift < 2 ^ 64
    → decode_loop (suc rounds) ((g + 128) ∷ rest) value shift i
      ≡ decode_loop rounds rest (value + g * 2 ^ shift) (shift + 7) (i + 1)
unfolding decode_loop
decode_more g rest value shift i rounds small fits =
    let low : (g + 128) % 128 ≡ g = omega arith in
    let group : (g + 128) % 128 * 2 ^ shift % 2 ^ 64 ≡ g * 2 ^ shift =
      rw low (mod-eq_of_lt (omega arith)) in
    rw (not_lt→ltb (g + 128) 128 (omega arith), group)

-- What `Encode` writes for a number of at most `k + 1` groups of 7 bits: at most `k + 1` bytes, which
-- `GetLength` counts, and from which the loop of `Decode`, wherever it stands, adds the number.
pub record IsEncoding (bits k x : ℕ) : Type 0 where
  pub written : List ℕ
  pub returns : encode false bits (suc k) x ≡ ok written
  pub short : length written ≤ suc k
  pub counted : (n : ℕ) → get_length false bits (suc k) x n ≡ ok (n + (length written - 1))
  pub long : 1 ≤ length written
  pub decodes :
      (rest : List ℕ) (value shift i rounds : ℕ)
      → length written ≤ rounds
      → value + x * 2 ^ shift < 2 ^ 64
      → decode_loop rounds (written ++ rest) value shift i
        ≡ ok (some (value + x * 2 ^ shift, i + length written))

one_byte : (bits k x : ℕ) → x < 128 → IsEncoding bits k x
unfolding encode get_length
one_byte bits k x small =
    let stop : leb 0x80 x ≡ false = not_le→leb 0x80 x (omega arith) in
    let low : x % 256 ≡ x = omega arith in
    record {
      written = x ∷ [];
      returns = rw (stop, low);
      short = omega arith;
      counted = λ n. rw stop (ap ok (omega arith));
      long = omega arith;
      decodes = λ rest value shift i rounds some_left fits.
          decode_last x rest value shift i rounds small some_left fits;
    }

split_number : (x s : ℕ) → x % 128 * 2 ^ s + x / 128 * 2 ^ (s + 7) ≡ x * 2 ^ s
split_number x s = omega (
  arith,
  ap (λ (t : ℕ). t * 2 ^ s) (div-add-mod x 128),
  ap (λ (t : ℕ). x / 128 * t) (shift_groups s),
)

one_more : (bits k x : ℕ) → 128 ≤ x → IsEncoding bits k (x / 128) → IsEncoding bits (suc k) x
unfolding encode get_length
one_more bits k x large e =
    let go_on : leb 0x80 x ≡ true = le→leb 0x80 x large in
    record {
      written = (x % 128 + 128) ∷ e.written;
      returns = rw (go_on, e.returns);
      short = omega (arith, e.short);
      counted = λ n. rw (go_on, e.counted (n + 1)) (ap ok (omega (arith, e.long)));
      long = omega arith;
      decodes = λ rest value shift i rounds enough fits. read rest value shift i rounds enough fits;
    }
  where
    read :
        (rest : List ℕ) (value shift i rounds : ℕ)
        → suc (length e.written) ≤ rounds
        → value + x * 2 ^ shift < 2 ^ 64
        → decode_loop rounds ((x % 128 + 128) ∷ (e.written ++ rest)) value shift i
          ≡ ok (some (value + x * 2 ^ shift, i + suc (length e.written)))
    read rest value shift i zero enough fits = absurd (omega arith)
    read rest value shift i (suc rounds) enough fits =
        decode_more (x % 128) (e.written ++ rest) value shift i rounds (omega arith)
          (omega (arith, split_number x shift))
        ∙ e.decodes rest (value + x % 128 * 2 ^ shift) (shift + 7) (i + 1) rounds (omega arith)
            (omega (arith, split_number x shift))
        ∙ ap₂ (λ (a b : ℕ). ok (some (a, b))) (omega (arith, split_number x shift)) (omega arith)

pub encode-IsEncoding : (bits k x : ℕ) → x < 128 ^ suc k → IsEncoding bits k x
encode-IsEncoding bits zero x h = one_byte bits zero x (omega arith)
encode-IsEncoding bits (suc k) x h = elim (dec_le 128 x) [
  | yes e ↦ one_more bits k x e (encode-IsEncoding bits k (x / 128) (omega arith))
  | no e ↦ one_byte bits (suc k) x (omega arith)
]
