-- ===== src/Stone/IntegerEncoding/Examples.antt =====
-- The integer encodings at concrete numbers.
use recommender.Prelude.{◌≡◌, refl, false, some, [], ◌∷◌, arith}
use recommender.Run.{ok}
use recommender.Stone.IntegerEncoding.{encode, decode, decode_loop}
use recommender.Stone.IntegerEncoding.Widths.{int, IsRoundTrip, decode-encode}

encode_300 : encode false 32 5 300 ≡ ok (0xac ∷ 2 ∷ [])
unfolding encode
encode_300 = refl

decode_300 : decode 32 (0xac ∷ 2 ∷ 9 ∷ []) 8 ≡ ok (some (300, 2))
unfolding decode decode_loop
decode_300 = refl

decode-encode_example : IsRoundTrip 32 300 8 (9 ∷ [])
decode-encode_example = decode-encode 32 300 8 (9 ∷ []) (int 32 refl) (omega arith)
