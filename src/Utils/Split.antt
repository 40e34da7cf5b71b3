-- ===== src/Utils/Split.antt =====
-- Items put together by a delimiter, and `split`.
use gitrpc.Prelude.{
  ℕ, ◌==◌, ◌≡◌, ◌≢◌, refl, ap, ◌∙◌, true, false, List, [], ◌∷◌, ◌++◌, append_assoc, append-nil, All,
  arith,
}
use gitrpc.Utils.{split_from, split}

-- Each item with a delimiter behind it.
abbrev pub lines : ℕ → List (List ℕ) → List ℕ
lines delim [] = []
lines delim (item ∷ items) = item ++ delim ∷ lines delim items

abbrev pub IsFree : ℕ → List ℕ → Type 0
IsFree delim = All (λ c. c ≢ delim)

differs : (c delim : ℕ) → c ≢ delim → (c == delim) ≡ false
differs c delim n = ground arith

same : (c : ℕ) → (c == c) ≡ true
same c = ground arith

split_from-item :
    (delim : ℕ) (start item rest : List ℕ)
    → IsFree delim item
    → split_from delim start (item ++ delim ∷ rest) ≡ (start ++ item) ∷ split_from delim [] rest
unfolding split_from
split_from-item delim [] [] rest free = rw (same delim) refl
split_from-item delim (x ∷ start) [] rest free = rw (same delim, append-nil start) refl
split_from-item delim [] (c ∷ item) rest (n, free) =
    rw (differs c delim n) (split_from-item delim (c ∷ []) item rest free)
split_from-item delim (x ∷ start) (c ∷ item) rest (n, free) = rw (differs c delim n) (
    split_from-item delim (x ∷ (start ++ c ∷ [])) item rest free
    ∙ ap (λ y. (x ∷ y) ∷ split_from delim [] rest) (append_assoc start (c ∷ []) item))

split_from-end :
    (delim x : ℕ) (start item : List ℕ)
    → IsFree delim item
    → split_from delim (x ∷ start) item ≡ (x ∷ (start ++ item)) ∷ []
unfolding split_from
split_from-end delim x start [] free = rw (append-nil start) refl
split_from-end delim x start (c ∷ item) (n, free) = rw (differs c delim n) (
    split_from-end delim x (start ++ c ∷ []) item free
    ∙ ap (λ y. (x ∷ y) ∷ []) (append_assoc start (c ∷ []) item))

-- Items without the delimiter, empty ones included, each with a delimiter behind it, are what split
-- gives back.
pub split-lines :
    (delim : ℕ) (items : List (List ℕ))
    → All (IsFree delim) items
    → split delim (lines delim items) ≡ items
unfolding split split_from
split-lines delim [] free = refl
split-lines delim (item ∷ items) (first, free) =
    split_from-item delim [] item (lines delim items) first
    ∙ ap (◌∷◌ item) (split-lines delim items free)

-- The last item needs no delimiter behind it if it is not empty.
pub split-last :
    (delim : ℕ) (items : List (List ℕ)) (c : ℕ) (last : List ℕ)
    → All (IsFree delim) items
    → IsFree delim (c ∷ last)
    → split delim (lines delim items ++ c ∷ last) ≡ items ++ (c ∷ last) ∷ []
unfolding split split_from
split-last delim [] c last all (n, free) =
    rw (differs c delim n) (split_from-end delim c [] last free)
split-last delim (item ∷ items) c last (first, all) free =
    ap (split delim) (append_assoc item (delim ∷ lines delim items) (c ∷ last))
    ∙ split_from-item delim [] item (lines delim items ++ c ∷ last) first
    ∙ ap (◌∷◌ item) (split-last delim items c last all free)
