-- ===== src/Base64.antt =====
-- base64.cpp. A byte is a number below 256, a std::string the list of its characters' codes;
-- `char_array_3` and `char_array_4` are the lists of the bytes and characters pending.
pub mod RoundTrip
pub mod Sextets
pub mod Stops
mod Tests
use gitrpc.Prelude.{
  ℕ, zero, suc, ◌+◌, ◌*◌, ◌/◌, ◌%◌, bit_and, Bool, true, false, not, ◌&&◌, ◌||◌, List, [], ◌∷◌,
  ◌++◌, map, ltb, leb, ◌==◌, if◌then◌else◌, get_or, codes, ◌^◌, length, take,
}

abbrev pub base64_chars : List ℕ
base64_chars = codes "ABCDEFGHIJKLMNOPQRSTUVWXYZabcdefghijklmnopqrstuvwxyz0123456789+/"

-- `isalnum` of the C locale.
abbrev isalnum : ℕ → Bool
isalnum c = (leb b'0' c && leb c b'9') || (leb b'A' c && leb c b'Z') || (leb b'a' c && leb c b'z')

pub is_base64 : ℕ → Bool
is_base64 c = isalnum c || (c == b'+') || (c == b'/')

-- `base64_chars[i]`; the index is below 64 on every path.
pub char_at : ℕ → ℕ
char_at i = get_or base64_chars i 0

-- `base64_chars.find(c)` stored to an unsigned char: npos is stored as 255.
pub find_from : ℕ → List ℕ → ℕ → ℕ
find_from c [] i = 255
find_from c (x ∷ xs) i = if x == c then i else find_from c xs (i + 1)

pub find : ℕ → ℕ
unfolding find_from
find c = find_from c base64_chars 0

-- char_array_4 from char_array_3; each sum is stored to an unsigned char.
pub to_sextets : ℕ → ℕ → ℕ → List ℕ
to_sextets a b c =
    (bit_and a 0xfc / 4)
    ∷ ((bit_and a 0x03 * 16 + bit_and b 0xf0 / 16) % 256)
    ∷ ((bit_and b 0x0f * 4 + bit_and c 0xc0 / 64) % 256)
    ∷ bit_and c 0x3f
    ∷ []

-- The code after the loop: zero fill, `i + 1` characters, then `=` up to four.
pub encode_tail : List ℕ → List ℕ
encode_tail [] = []
encode_tail (a ∷ []) = elim (to_sextets a 0 0) [
  | s0 ∷ s1 ∷ _ ↦ char_at s0 ∷ char_at s1 ∷ b'=' ∷ b'=' ∷ []
  | _ ↦ []
]
encode_tail (a ∷ b ∷ _) = elim (to_sextets a b 0) [
  | s0 ∷ s1 ∷ s2 ∷ _ ↦ char_at s0 ∷ char_at s1 ∷ char_at s2 ∷ b'=' ∷ []
  | _ ↦ []
]

pub encode_loop : List ℕ → List ℕ → List ℕ → List ℕ
encode_loop [] pending ret = ret ++ encode_tail pending
encode_loop (b ∷ bs) [] ret = encode_loop bs (b ∷ []) ret
encode_loop (b ∷ bs) (x ∷ []) ret = encode_loop bs (x ∷ b ∷ []) ret
encode_loop (b ∷ bs) (x ∷ y ∷ _) ret = encode_loop bs [] (ret ++ map char_at (to_sextets x y b))

pub base64_encode : List ℕ → List ℕ
base64_encode bytes = encode_loop bytes [] []

-- char_array_3 from char_array_4, each byte cut to 8 bits.
pub to_bytes : ℕ → ℕ → ℕ → ℕ → List ℕ
to_bytes s0 s1 s2 s3 =
    ((s0 * 4 + bit_and s1 0x30 / 16) % 256)
    ∷ ((bit_and s1 0xf * 16 + bit_and s2 0x3c / 4) % 256)
    ∷ ((bit_and s2 0x3 * 64 + s3) % 256)
    ∷ []

-- The code after the loop: `i - 1` bytes of the `i` characters pending. A single character gives
-- none; the bytes that would read an unset character are not among those appended.
pub decode_tail : List ℕ → List ℕ
decode_tail [] = []
decode_tail (c0 ∷ []) = []
decode_tail (c0 ∷ c1 ∷ []) = elim (to_bytes (find c0) (find c1) 0 0) [ b0 ∷ _ ↦ b0 ∷ [] | _ ↦ [] ]
decode_tail (c0 ∷ c1 ∷ c2 ∷ _) = elim (to_bytes (find c0) (find c1) (find c2) 0) [
  | b0 ∷ b1 ∷ _ ↦ b0 ∷ b1 ∷ []
  | _ ↦ []
]

-- A character that fits goes to char_array_4, and four of them are converted.
pub decode_push : ℕ → List ℕ → List ℕ → List ℕ × List ℕ
decode_push c [] ret = (c ∷ [], ret)
decode_push c (c0 ∷ []) ret = (c0 ∷ c ∷ [], ret)
decode_push c (c0 ∷ c1 ∷ []) ret = (c0 ∷ c1 ∷ c ∷ [], ret)
decode_push c (c0 ∷ c1 ∷ c2 ∷ _) ret = ([], ret ++ to_bytes (find c0) (find c1) (find c2) (find c))

pub decode_loop : List ℕ → List ℕ → List ℕ → List ℕ
decode_loop [] pending ret = ret ++ decode_tail pending
decode_loop (c ∷ cs) pending ret =
    let next = decode_push c pending ret in
    let rest = decode_loop cs next.0 next.1 in
    if not (c == b'=') && is_base64 c then rest else ret ++ decode_tail pending

-- The characters up to which `in_len` counts, which is the size as an int. A negative one counts down
-- without an end, so that only a character can stop the loop; one that goes on to the overflow of an int
-- is left out.
pub counted : List ℕ → List ℕ
counted encoded =
    let in_len = length encoded % 2 ^ 32 in
    if ltb in_len (2 ^ 31) then take in_len encoded else encoded

pub base64_decode : List ℕ → List ℕ
base64_decode encoded = decode_loop (counted encoded) [] []
