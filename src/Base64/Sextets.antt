-- ===== src/Base64/Sextets.antt =====
-- The bit arithmetic of base64.cpp on one group of three bytes, and its alphabet.
use gitrpc.Prelude.{
  ℕ, ◌+◌, ◌*◌, ◌/◌, ◌%◌, ◌<◌, bit_and, ◌≡◌, refl, true, not, ◌&&◌, List, [], ◌∷◌, arith, ◌==◌,
  passes, passes-below, agree_below,
}
use gitrpc.Base64.{is_base64, char_at, find, to_sextets, to_bytes}

abbrev pub IsByte : ℕ → Type 0
IsByte b = b < 256

-- The four base-64 digits of the 24-bit number that three bytes form.
abbrev pub digits_64 : ℕ → List ℕ
digits_64 n = n / 262144 ∷ n / 4096 % 64 ∷ n / 64 % 64 ∷ n % 64 ∷ []

abbrev pub group : ℕ → ℕ → ℕ → ℕ
group a b c = a * 65536 + b * 256 + c

mask_fc : (x : ℕ) → x < 256 → bit_and x 0xfc ≡ x / 4 * 4
unfolding passes
mask_fc = agree_below _ _ 256 refl

mask_03 : (x : ℕ) → x < 256 → bit_and x 0x03 ≡ x % 4
unfolding passes
mask_03 = agree_below _ _ 256 refl

mask_f0 : (x : ℕ) → x < 256 → bit_and x 0xf0 ≡ x / 16 * 16
unfolding passes
mask_f0 = agree_below _ _ 256 refl

pub mask_0f : (x : ℕ) → x < 256 → bit_and x 0x0f ≡ x % 16
unfolding passes
mask_0f = agree_below _ _ 256 refl

mask_c0 : (x : ℕ) → x < 256 → bit_and x 0xc0 ≡ x / 64 * 64
unfolding passes
mask_c0 = agree_below _ _ 256 refl

mask_3f : (x : ℕ) → x < 256 → bit_and x 0x3f ≡ x % 64
unfolding passes
mask_3f = agree_below _ _ 256 refl

pub mask_30 : (x : ℕ) → x < 64 → bit_and x 0x30 ≡ x / 16 * 16
unfolding passes
mask_30 = agree_below _ _ 64 refl

pub mask_3c : (x : ℕ) → x < 64 → bit_and x 0x3c ≡ x / 4 * 4
unfolding passes
mask_3c = agree_below _ _ 64 refl

pub to_sextets-digits :
    (a b c : ℕ) → IsByte a → IsByte b → IsByte c → to_sextets a b c ≡ digits_64 (group a b c)
unfolding to_sextets
to_sextets-digits a b c ha hb hc =
    ground (arith, mask_fc a, mask_03 a, mask_f0 b, mask_0f b, mask_c0 c, mask_3f c)

abbrev bytes_of : ℕ → List ℕ
bytes_of n = n / 65536 ∷ n / 256 % 256 ∷ n % 256 ∷ []

pub to_bytes-group :
    (s0 s1 s2 s3 : ℕ)
    → s0 < 64
    → s1 < 64
    → s2 < 64
    → s3 < 64
    → to_bytes s0 s1 s2 s3 ≡ bytes_of (s0 * 262144 + s1 * 4096 + s2 * 64 + s3)
unfolding to_bytes
to_bytes-group s0 s1 s2 s3 h0 h1 h2 h3 =
    ground (arith, mask_30 s1, mask_0f s1, mask_3c s2, mask_03 s2)

-- The alphabet: the position of the character at a position, and the tests of the loop.
pub find-char_at : (i : ℕ) → i < 64 → find (char_at i) ≡ i
unfolding find char_at passes
find-char_at = agree_below _ _ 64 refl

pub is_base64-char_at : (i : ℕ) → i < 64 → (not (char_at i == b'=') && is_base64 (char_at i)) ≡ true
unfolding char_at is_base64 passes
is_base64-char_at i h =
    passes-below (λ i. not (char_at i == b'=') && is_base64 (char_at i)) 64 refl i h
