-- ===== src/Base64/Tests.antt =====
-- Runs of base64.cpp on texts, and its theorems at concrete inputs.
use gitrpc.Prelude.{◌≡◌, refl, [], ◌∷◌, ◌++◌, arith, codes}
use gitrpc.Base64.{
  is_base64, char_at, find, to_sextets, encode_tail, encode_loop, base64_encode, to_bytes,
  decode_tail, decode_push, decode_loop, base64_decode, counted,
}
use gitrpc.Base64.RoundTrip.{rfc_encode, base64_encode-rfc, base64_decode-base64_encode}
use gitrpc.Base64.Stops.{base64_decode_stops}

encode_many : base64_encode (codes "Many") ≡ codes "TWFueQ=="
unfolding base64_encode encode_loop encode_tail to_sextets char_at
encode_many = refl

decode_many : base64_decode (codes "TWFueQ==") ≡ codes "Many"
unfolding base64_decode counted decode_loop decode_push decode_tail is_base64 to_bytes find
decode_many = refl

base64_encode-rfc_example :
    base64_encode (0 ∷ 255 ∷ 16 ∷ 7 ∷ []) ≡ rfc_encode (0 ∷ 255 ∷ 16 ∷ 7 ∷ [])
base64_encode-rfc_example = base64_encode-rfc (0 ∷ 255 ∷ 16 ∷ 7 ∷ []) (omega arith)

base64_decode-base64_encode_example :
    base64_decode (base64_encode (0 ∷ 255 ∷ 16 ∷ 7 ∷ [])) ≡ 0 ∷ 255 ∷ 16 ∷ 7 ∷ []
base64_decode-base64_encode_example =
    base64_decode-base64_encode (0 ∷ 255 ∷ 16 ∷ 7 ∷ []) (omega arith) (omega arith)

base64_decode_stops_example :
    base64_decode (codes "TWFu" ++ 42 ∷ codes "eQ") ≡ base64_decode (codes "TWFu")
unfolding is_base64
base64_decode_stops_example = base64_decode_stops (codes "TWFu") (codes "eQ") 42 (omega arith) refl
