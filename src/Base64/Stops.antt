-- ===== src/Base64/Stops.antt =====
-- Lengths of encodings, and where base64_decode stops reading.
use gitrpc.Prelude.{
  ℕ, ◌+◌, ◌*◌, ◌/◌, ◌≡◌, ap, ◌∙◌, false, not, ◌&&◌, List, [], ◌∷◌, ◌++◌, arith, ◌==◌, All, length,
  ◌^◌, ◌<◌, length-append,
}
use gitrpc.Base64.{is_base64, base64_encode, decode_push, decode_loop, base64_decode}
use gitrpc.Base64.Sextets.{IsByte}
use gitrpc.Base64.RoundTrip.{base64_encode-rfc, length-rfc_encode, counted_all}

-- The encoding of n bytes has four characters for each started group of three.
length-base64_encode :
    (bs : List ℕ) → All IsByte bs → length (base64_encode bs) ≡ 4 * ((length bs + 2) / 3)
length-base64_encode bs h = ap length (base64_encode-rfc bs h) ∙ length-rfc_encode bs

decode_loop-stops :
    (xs ys pending ret : List ℕ) (c : ℕ)
    → (not (c == b'=') && is_base64 c) ≡ false
    → decode_loop (xs ++ c ∷ ys) pending ret ≡ decode_loop xs pending ret
unfolding decode_loop
decode_loop-stops [] ys pending ret c h = rw h
decode_loop-stops (x ∷ xs) ys pending ret c h =
    rw (decode_loop-stops xs ys (decode_push x pending ret).0 (decode_push x pending ret).1 c h)

-- base64_decode reads a string of less than 2 GiB up to the first `=` or character outside the alphabet, and
-- nothing after it.
pub base64_decode_stops :
    (xs ys : List ℕ) (c : ℕ)
    → length (xs ++ c ∷ ys) < 2 ^ 31
    → (not (c == b'=') && is_base64 c) ≡ false
    → base64_decode (xs ++ c ∷ ys) ≡ base64_decode xs
unfolding base64_decode
base64_decode_stops xs ys c small h =
    rw (counted_all (xs ++ c ∷ ys) small, counted_all xs (omega (arith, length-append xs (c ∷ ys))))
      (decode_loop-stops xs ys [] [] c h)
