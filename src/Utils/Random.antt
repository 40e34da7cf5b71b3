-- ===== src/Utils/Random.antt =====
-- RandomInt and GenerateRandomString of base/Utils.cpp, over a distribution of the C++ library.
use gitrpc.Prelude.{
  ℕ, zero, suc, ◌-◌, ◌≤◌, ◌≡◌, refl, ap, Bool, true, ◌&&◌, ◌||◌, List, [], ◌∷◌, ◌++◌, All, length,
  get_or, codes, leb, ltb, passes, passes-below, arith,
}

-- std::random_device seeds an engine, and std::uniform_int_distribution draws from it a number between its
-- bounds, these included.
pub record Random : Type 1 where
  pub Engine : Type 0
  pub draw : (low high : ℕ) → Engine → ℕ × Engine
  pub low-draw : (low high : ℕ) (rng : Engine) → low ≤ high → low ≤ (draw low high rng).0
  pub high-draw : (low high : ℕ) (rng : Engine) → low ≤ high → (draw low high rng).0 ≤ high

-- The array of the characters, with the NUL of the literal.
unfoldable pub alphabet : List ℕ
alphabet =
    codes "abcdefghijklmnopqrstuvwxyz"
    ++ codes "ABCDEFGHIJKLMNOPQRSTUVWXYZ"
    ++ codes "0123456789"
    ++ 0 ∷ []

module _ (random : Random) where
  open random use {Engine, draw}

  unfoldable pub random_int : ℕ → Engine → ℕ
  random_int max rng = (draw 0 max rng).0

  -- std::generate_n with std::back_inserter.
  unfoldable pub generate : ℕ → Engine → List ℕ
  generate zero rng = []
  generate (suc n) rng =
      let (at, rng1) = draw 0 (length alphabet - 2) rng in get_or alphabet at 0 ∷ generate n rng1

  unfoldable pub generate_random_string : ℕ → Engine → List ℕ
  generate_random_string len rng = generate len rng

  abbrev is_alphanumeric : ℕ → Bool
  is_alphanumeric c = leb 97 c && ltb c 123 || (leb 65 c && ltb c 91 || leb 48 c && ltb c 58)

  every_character : passes (λ at. is_alphanumeric (get_or alphabet at 0)) 62 ≡ true
  unfolding passes alphabet
  every_character = refl

  last_index : length alphabet - 2 ≡ 61
  unfolding alphabet
  last_index = refl

  -- A letter of either case, or a digit.
  abbrev pub IsAlphanumeric : ℕ → Type 0
  IsAlphanumeric c = is_alphanumeric c ≡ true

  drawn-IsAlphanumeric :
      (rng : Engine) → IsAlphanumeric (get_or alphabet (draw 0 (length alphabet - 2) rng).0 0)
  drawn-IsAlphanumeric rng =
      passes-below (λ at. is_alphanumeric (get_or alphabet at 0)) 62 every_character
        (draw 0 (length alphabet - 2) rng).0
        (omega (arith, random.high-draw 0 (length alphabet - 2) rng (omega arith), last_index))

  -- Whatever the engine draws, a random string has the length that is asked for, and is of letters and digits
  -- alone: no index is outside the alphabet, and none is that of the NUL behind it.
  pub generate_random_string-IsAlphanumeric :
      (len : ℕ) (rng : Engine)
      → (length (generate_random_string len rng) ≡ len)
        × All IsAlphanumeric (generate_random_string len rng)
  unfolding generate_random_string generate
  generate_random_string-IsAlphanumeric zero rng = (refl, tt)
  generate_random_string-IsAlphanumeric (suc len) rng =
      let (as_long, all) =
        generate_random_string-IsAlphanumeric len (draw 0 (length alphabet - 2) rng).1 in
      (ap suc as_long, (drawn-IsAlphanumeric rng, all))
