-- ===== src/Stone/IntegerEncoding.antt =====
-- apsara/stone/encoding/integer/integer_encoding.h: integers as bytes, of a fixed or a variable
-- length. The integer type `T` is its number of bits and whether it has a sign; a value is its bit
-- pattern. A mask with 0x7f is a remainder by 128, the bit 0x80 is set on a number below 128 by
-- adding it, and `value |= group << shift` adds a number whose low bits are 0 to one of `shift` bits.
mod Examples
pub mod RoundTrip
pub mod Widths
use Prim.Native.Nat.{min}
use recommender.Prelude.{
  ℕ, zero, suc, ◌+◌, ◌-◌, ◌*◌, ◌/◌, ◌%◌, ◌^◌, Bool, true, false, ◌&&◌, ◌||◌, not, Option, none,
  some, List, [], ◌∷◌, ltb, leb, if◌then◌else◌,
}
use recommender.Run.{Run, ok, fault, running, ◌>>=◌}

-- `FixedInt::Encode` for a `T` of `n` bytes, low byte first.
unfoldable pub fixed_encode : ℕ → ℕ → List ℕ
fixed_encode zero x = []
fixed_encode (suc n) x = x % 256 ∷ fixed_encode n (x / 256)

-- `FixedInt::Decode`, which reads past the end of a text that is too short.
unfoldable pub fixed_decode : ℕ → List ℕ → Run ℕ
fixed_decode zero s = ok 0
fixed_decode (suc n) [] = fault
fixed_decode (suc n) (b ∷ s) = do high ← fixed_decode n s; ok (b + 256 * high)

module _ (signed : Bool) (bits : ℕ) where
  -- `x >= 0x80`
  abbrev pub is_long : ℕ → Bool
  is_long x = leb 0x80 x && (not signed || ltb x (2 ^ (bits - 1)))

  -- `VariantInt::Encode`: the bytes that it writes. Where the loop goes on, `x` is not negative.
  unfoldable pub encode : ℕ → ℕ → Run (List ℕ)
  encode zero x = running
  encode (suc k) x =
      let more = (do rest ← encode k (x / 128); ok ((x % 128 + 128) ∷ rest)) in
      if is_long x then more else ok (x % 256 ∷ [])

  -- `VariantInt::GetLength`, with the length so far.
  unfoldable pub get_length : ℕ → ℕ → ℕ → Run ℕ
  get_length zero x length = running
  get_length (suc k) x length =
      let more = get_length k (x / 128) (length + 1) in if is_long x then more else ok length

-- `GetMaxCharsOfEncodedSize`
unfoldable pub get_max_chars_of_encoded_size : ℕ → ℕ
get_max_chars_of_encoded_size bits = (bits + 6) / 7

-- The loop of `VariantInt::Decode` with `k` rounds left: the `uint64_t` value and the offset, or
-- `none` where it returns false.
unfoldable pub decode_loop : ℕ → List ℕ → ℕ → ℕ → ℕ → Run (Option (ℕ × ℕ))
decode_loop zero s value shift i = ok none
decode_loop (suc k) [] value shift i = fault
decode_loop (suc k) (c ∷ s) value shift i =
    let value' = value + c % 128 * 2 ^ shift % 2 ^ 64 in
    let more = decode_loop k s value' (shift + 7) (i + 1) in
    if ltb c 128 then ok (some (value', i + 1)) else more

-- `VariantInt::Decode`: the integer, cut to the bits of `T`, and the offset.
unfoldable pub decode : ℕ → List ℕ → ℕ → Run (Option (ℕ × ℕ))
unfolding get_max_chars_of_encoded_size
decode bits s limit = do
  r ← decode_loop (min limit (get_max_chars_of_encoded_size bits)) s 0 0 0
  elim r [ none ↦ ok none | some (value, offset) ↦ ok (some (value % 2 ^ bits, offset)) ]
