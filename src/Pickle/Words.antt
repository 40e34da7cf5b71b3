-- ===== src/Pickle/Words.antt =====
-- Machine words of Pickle.h: size_t of 64 bits, int of 32 bits as its bit pattern, and the bytes
-- of a value in memory, lowest first (x86-64).
use gitrpc.Prelude.{
  ℕ, zero, suc, ◌+◌, ◌-◌, ◌*◌, ◌/◌, ◌%◌, ◌^◌, ◌≤◌, ◌<◌, ◌≡◌, refl, ap, Bool, List, [], ◌∷◌, arith,
  leb, length, All, take,
}
use native.Mathlib.Nat.{pow-suc}

abbrev pub size_mod : ℕ
size_mod = 2 ^ 64

abbrev pub uint32_mod : ℕ
uint32_mod = 2 ^ 32

-- An int, as a pattern of 32 bits, is negative.
abbrev pub is_negative : ℕ → Bool
is_negative v = leb (2 ^ 31) v

-- AlignInt: round up to the next multiple of the alignment.
unfoldable pub align_int : ℕ → ℕ → ℕ
align_int i alignment = (i + (alignment - i % alignment) % alignment) % size_mod

-- To 4, the alignment of every field, and to 64, the unit of allocation: the least multiple not
-- below i, away from the top of size_t.
pub align_four :
    (i : ℕ)
    → i + 4 ≤ size_mod
    → (align_int i 4 % 4 ≡ 0) × (i ≤ align_int i 4) × (align_int i 4 < i + 4)
unfolding align_int
align_four i fits = omega arith

pub align_unit :
    (i : ℕ)
    → i + 64 ≤ size_mod
    → (align_int i 64 % 64 ≡ 0) × (i ≤ align_int i 64) × (align_int i 64 < i + 64)
unfolding align_int
align_unit i fits = omega arith

unfoldable pub le_bytes : ℕ → ℕ → List ℕ
le_bytes zero v = []
le_bytes (suc k) v = (v % 256) ∷ le_bytes k (v / 256)

unfoldable pub le_value : List ℕ → ℕ
le_value [] = 0
le_value (b ∷ bs) = b + 256 * le_value bs

pub length-le_bytes : (k v : ℕ) → length (le_bytes k v) ≡ k
unfolding le_bytes
length-le_bytes zero v = refl
length-le_bytes (suc k) v = ap suc (length-le_bytes k (v / 256))

pub le_value-le_bytes : (k v : ℕ) → v < 256 ^ k → le_value (le_bytes k v) ≡ v
unfolding le_bytes le_value
le_value-le_bytes zero v h = omega arith
le_value-le_bytes (suc k) v h =
    omega (arith, le_value-le_bytes k (v / 256) (omega (arith, pow-suc 256 k)))

abbrev pub IsByte : ℕ → Type 0
IsByte b = b < 256

pub le_value-take : (k : ℕ) (bs : List ℕ) → All IsByte bs → le_value (take k bs) < 256 ^ k
unfolding le_value
le_value-take zero bs h = omega arith
le_value-take (suc k) [] h = omega (arith, le_value-take k [] tt, pow-suc 256 k)
le_value-take (suc k) (b ∷ bs) h = omega (arith, le_value-take k bs h.1, pow-suc 256 k)
