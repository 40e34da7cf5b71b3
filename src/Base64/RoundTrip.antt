-- ===== src/Base64/RoundTrip.antt =====
-- base64_encode against the encoding by 24-bit groups, and base64_decode as its inverse.
use gitrpc.Prelude.{
  bit_and, ℕ, ◌+◌, ◌*◌, ◌/◌, ◌%◌, ◌<◌, ◌≡◌, refl, ◌∙◌, List, [], ◌∷◌, ◌++◌, map, append_assoc,
  arith, All, ◌^◌, ◌≤◌, length, ltb, take_all, true,
}
use gitrpc.Base64.{
  char_at, encode_tail, encode_loop, base64_encode, decode_tail, decode_push, decode_loop,
  base64_decode, to_bytes, counted,
}
use gitrpc.Base64.Sextets.{
  IsByte, digits_64, group, to_sextets-digits, to_bytes-group, mask_30, mask_0f, mask_3c,
  find-char_at, is_base64-char_at,
}

-- RFC 4648: three bytes are a 24-bit number, written in four base-64 digits; a last group of one
-- or two bytes is filled with zeros, and written in two or three digits and `=`.
abbrev pub rfc_encode : List ℕ → List ℕ
rfc_encode [] = []
rfc_encode (a ∷ []) =
    char_at (group a 0 0 / 262144) ∷ char_at (group a 0 0 / 4096 % 64) ∷ b'=' ∷ b'=' ∷ []
rfc_encode (a ∷ b ∷ []) =
    char_at (group a b 0 / 262144)
    ∷ char_at (group a b 0 / 4096 % 64)
    ∷ char_at (group a b 0 / 64 % 64)
    ∷ b'='
    ∷ []
rfc_encode (a ∷ b ∷ c ∷ rest) = map char_at (digits_64 (group a b c)) ++ rfc_encode rest

encode_loop-rfc : (bs ret : List ℕ) → All IsByte bs → encode_loop bs [] ret ≡ ret ++ rfc_encode bs
unfolding encode_loop encode_tail char_at
encode_loop-rfc [] ret h = refl
encode_loop-rfc (a ∷ []) ret h =
    rw (to_sextets-digits a 0 0 h.0 (omega arith) (omega arith), encode_tail)
encode_loop-rfc (a ∷ b ∷ []) ret h =
    rw (to_sextets-digits a b 0 h.0 h.1.0 (omega arith), encode_tail)
encode_loop-rfc (a ∷ b ∷ c ∷ rest) ret h = rw (to_sextets-digits a b c h.0 h.1.0 h.1.1.0) (
    encode_loop-rfc rest (ret ++ map char_at (digits_64 (group a b c))) h.1.1.1
    ∙ append_assoc ret (map char_at (digits_64 (group a b c))) (rfc_encode rest))

-- On every list of bytes base64_encode writes the encoding of RFC 4648.
pub base64_encode-rfc : (bs : List ℕ) → All IsByte bs → base64_encode bs ≡ rfc_encode bs
unfolding base64_encode
base64_encode-rfc bs h = encode_loop-rfc bs [] h

-- One round of the decoding loop on a character of the alphabet.
decode_loop-char_at :
    (i : ℕ) (cs pending ret : List ℕ)
    → i < 64
    → decode_loop (char_at i ∷ cs) pending ret
      ≡ decode_loop cs
          (decode_push (char_at i) pending ret).0
          (decode_push (char_at i) pending ret).1
unfolding decode_loop
decode_loop-char_at i cs pending ret h = rw (is_base64-char_at i h)

decode_loop_pad :
    (cs pending ret : List ℕ) → decode_loop (b'=' ∷ cs) pending ret ≡ ret ++ decode_tail pending
unfolding decode_loop
decode_loop_pad cs pending ret = refl

-- A full group of four characters of the alphabet.
decode_quad :
    (i j k l : ℕ) (cs ret : List ℕ)
    → i < 64
    → j < 64
    → k < 64
    → l < 64
    → decode_loop (char_at i ∷ char_at j ∷ char_at k ∷ char_at l ∷ cs) [] ret
      ≡ decode_loop cs [] (ret ++ to_bytes i j k l)
unfolding decode_push
decode_quad i j k l cs ret hi hj hk hl = rw (
  decode_loop-char_at i (char_at j ∷ char_at k ∷ char_at l ∷ cs) [] ret hi,
  decode_loop-char_at j (char_at k ∷ char_at l ∷ cs) (char_at i ∷ []) ret hj,
  decode_loop-char_at k (char_at l ∷ cs) (char_at i ∷ char_at j ∷ []) ret hk,
  decode_loop-char_at l cs (char_at i ∷ char_at j ∷ char_at k ∷ []) ret hl,
  find-char_at i hi,
  find-char_at j hj,
  find-char_at k hk,
  find-char_at l hl,
)

decode_three :
    (i j k : ℕ) (ret : List ℕ)
    → i < 64
    → j < 64
    → k < 64
    → decode_loop (char_at i ∷ char_at j ∷ char_at k ∷ b'=' ∷ []) [] ret
      ≡ ret
        ++ (i * 4 + bit_and j 0x30 / 16) % 256
          ∷ (bit_and j 0xf * 16 + bit_and k 0x3c / 4) % 256
          ∷ []
unfolding decode_push decode_tail to_bytes
decode_three i j k ret hi hj hk = rw (
  decode_loop-char_at i (char_at j ∷ char_at k ∷ b'=' ∷ []) [] ret hi,
  decode_loop-char_at j (char_at k ∷ b'=' ∷ []) (char_at i ∷ []) ret hj,
  decode_loop-char_at k (b'=' ∷ []) (char_at i ∷ char_at j ∷ []) ret hk,
  decode_loop_pad [] (char_at i ∷ char_at j ∷ char_at k ∷ []) ret,
  find-char_at i hi,
  find-char_at j hj,
  find-char_at k hk,
)

decode_two :
    (i j : ℕ) (ret : List ℕ)
    → i < 64
    → j < 64
    → decode_loop (char_at i ∷ char_at j ∷ b'=' ∷ b'=' ∷ []) [] ret
      ≡ ret ++ (i * 4 + bit_and j 0x30 / 16) % 256 ∷ []
unfolding decode_push decode_tail to_bytes
decode_two i j ret hi hj = rw (
  decode_loop-char_at i (char_at j ∷ b'=' ∷ b'=' ∷ []) [] ret hi,
  decode_loop-char_at j (b'=' ∷ b'=' ∷ []) (char_at i ∷ []) ret hj,
  decode_loop_pad (b'=' ∷ []) (char_at i ∷ char_at j ∷ []) ret,
  find-char_at i hi,
  find-char_at j hj,
)

decode_loop-rfc : (bs ret : List ℕ) → All IsByte bs → decode_loop (rfc_encode bs) [] ret ≡ ret ++ bs
decode_loop-rfc [] ret h = unfold decode_loop decode_tail in refl
decode_loop-rfc (a ∷ []) ret h =
    decode_two (group a 0 0 / 262144) (group a 0 0 / 4096 % 64) ret (omega arith) (omega arith)
    ∙ ground (arith, mask_30 (group a 0 0 / 4096 % 64))
decode_loop-rfc (a ∷ b ∷ []) ret h =
    decode_three (group a b 0 / 262144) (group a b 0 / 4096 % 64) (group a b 0 / 64 % 64) ret
      (omega arith) (omega arith) (omega arith)
    ∙ ground (
      arith,
      mask_30 (group a b 0 / 4096 % 64),
      mask_0f (group a b 0 / 4096 % 64),
      mask_3c (group a b 0 / 64 % 64),
    )
decode_loop-rfc (a ∷ b ∷ c ∷ rest) ret h =
    decode_quad (group a b c / 262144) (group a b c / 4096 % 64) (group a b c / 64 % 64)
      (group a b c % 64) (rfc_encode rest) ret (omega arith) (omega arith) (omega arith)
      (omega arith)
    ∙ decode_loop-rfc rest (ret ++ to_bytes _ _ _ _) h.1.1.1
    ∙ rw
        (
          to_bytes-group (group a b c / 262144) (group a b c / 4096 % 64) (group a b c / 64 % 64)
              (group a b c % 64) (omega arith) (omega arith) (omega arith) (omega arith),
          append_assoc,
        )
        (ground arith)

pub length-rfc_encode : (bs : List ℕ) → length (rfc_encode bs) ≡ 4 * ((length bs + 2) / 3)
length-rfc_encode [] = omega arith
length-rfc_encode (a ∷ []) = omega arith
length-rfc_encode (a ∷ b ∷ []) = omega arith
length-rfc_encode (a ∷ b ∷ c ∷ rest) = omega (arith, length-rfc_encode rest)

-- The length of less than 2 GiB is an int.
pub counted_all : (encoded : List ℕ) → length encoded < 2 ^ 31 → counted encoded ≡ encoded
unfolding counted
counted_all encoded small =
    let whole : length encoded % 2 ^ 32 ≡ length encoded = omega arith in
    let fits : ltb (length encoded) (2 ^ 31) ≡ true = ground arith in
    rw (whole, fits) (take_all (length encoded) encoded (omega arith))

-- base64_decode gives back the bytes that base64_encode was given, at most 1,610,612,733 of them, of which the
-- encoding is shorter than 2 GiB.
pub base64_decode-base64_encode :
    (bs : List ℕ) → All IsByte bs → length bs ≤ 1610612733 → base64_decode (base64_encode bs) ≡ bs
unfolding base64_decode
base64_decode-base64_encode bs h small =
    rw (base64_encode-rfc bs h, counted_all (rfc_encode bs) (omega (arith, length-rfc_encode bs)))
      (decode_loop-rfc bs [] h)
