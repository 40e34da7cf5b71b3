-- ===== src/Utils/Tests.antt =====
-- "a/bc//d/" and "a//bc" at the slash.
use Prim.Native.Nat.{min, max}
use gitrpc.Utils.Random.{
  Random, IsAlphanumeric, generate_random_string, generate_random_string-IsAlphanumeric,
}
use gitrpc.Prelude.{ℕ, suc, ◌≤◌, All, length, arith, refl, ◌≡◌, ◌∷◌, ◌++◌, [], codes}
use gitrpc.Utils.{split, split_from, str_tolower, to_lower}
use gitrpc.Utils.Split.{lines}

split-last_test :
    split 47 (lines 47 (codes "a" ∷ [] ∷ []) ++ 98 ∷ codes "c")
    ≡ (codes "a" ∷ [] ∷ []) ++ (98 ∷ codes "c") ∷ []
unfolding split split_from
split-last_test = refl

str_tolower_test : str_tolower (codes "Main-1") ≡ codes "main-1"
unfolding str_tolower to_lower
str_tolower_test = refl

-- An engine that counts.
leq_min : (low high n : ℕ) → low ≤ high → low ≤ max low (min n high)
leq_min low high n e = ground arith

min_leq : (low high n : ℕ) → low ≤ high → max low (min n high) ≤ high
min_leq low high n e = ground arith

abbrev counting : Random
counting = record {
  Engine = ℕ;
  draw = λ low high n. (max low (min n high), suc n);
  low-draw = λ low high n e. leq_min low high n e;
  high-draw = λ low high n e. min_leq low high n e;
}

generate_random_string-IsAlphanumeric_example :
    (length (generate_random_string counting 16 60) ≡ 16)
    × All (IsAlphanumeric counting) (generate_random_string counting 16 60)
generate_random_string-IsAlphanumeric_example = generate_random_string-IsAlphanumeric counting 16 60
