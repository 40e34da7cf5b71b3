-- ===== src/Utils.antt =====
-- base/Utils.cpp: `split`, `EndsWith` and `str_tolower`. A text is the list of its characters.
pub mod Ends
pub mod Random
pub mod Split
mod Tests
use gitrpc.Prelude.{
  ℕ, ◌+◌, ◌-◌, ◌==◌, Bool, true, false, ◌&&◌, List, [], ◌∷◌, ◌++◌, map, length, take, drop, ltb,
  leb, if◌then◌else◌,
}

-- The loop over std::getline, with what the current call has extracted: a delimiter ends an item, the end
-- of the text ends one that is not empty, and getline fails if there was nothing left to extract.
unfoldable pub split_from : ℕ → List ℕ → List ℕ → List (List ℕ)
split_from delim [] [] = []
split_from delim (x ∷ item) [] = (x ∷ item) ∷ []
split_from delim item (c ∷ s) =
    let ended = split_from delim [] s in
    let longer = split_from delim (item ++ c ∷ []) s in if c == delim then item ∷ ended else longer

unfoldable pub split : ℕ → List ℕ → List (List ℕ)
split delim s = split_from delim [] s

-- `compare` of two texts, with the result 0.
unfoldable pub equal_text : List ℕ → List ℕ → Bool
equal_text [] [] = true
equal_text [] (d ∷ t) = false
equal_text (c ∷ s) [] = false
equal_text (c ∷ s) (d ∷ t) = c == d && equal_text s t

-- EndsWith: the part of `str` that `compare` looks at starts `suffix.size()` before its end.
unfoldable pub ends_with : List ℕ → List ℕ → Bool
ends_with str suffix =
    leb (length suffix) (length str)
    && equal_text (take (length suffix) (drop (length str - length suffix) str)) suffix

-- std::tolower in the locale of C.
unfoldable pub to_lower : ℕ → ℕ
to_lower c = if ltb 64 c && ltb c 91 then c + 32 else c

unfoldable pub str_tolower : List ℕ → List ℕ
str_tolower s = map to_lower s
