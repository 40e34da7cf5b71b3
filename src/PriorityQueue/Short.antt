-- ===== src/PriorityQueue/Short.antt =====
-- Permutations of lists of one or two elements.
use mathlib.Core.List.{Permᴰ}
use gitrpc.Prelude.{◌≡◌, ◌⊎◌, inl, inr, refl, sym, ap, subst, List, [], ◌∷◌, All, length, arith}
use gitrpc.PriorityQueue.Drain.{All-Permᴰ, length-Permᴰ}

module _ {A : Type 0} where
  only : (a : A) (ys : List A) → length ys ≡ 1 → All (λ y. y ≡ a) ys → ys ≡ a ∷ []
  only a [] e all = absurd (omega arith)
  only a (y ∷ []) e (first, all) = ap (λ x. x ∷ []) first
  only a (y ∷ z ∷ ys) e all = absurd (omega arith)

  pub single-Permᴰ : (a : A) {ys : List A} → Permᴰ (a ∷ []) ys → ys ≡ a ∷ []
  single-Permᴰ a {ys} p = only a ys (sym (length-Permᴰ p)) (All-Permᴰ (λ y. y ≡ a) p (refl, tt))

  abbrev pub ArePair : A → A → List A → Type 0
  ArePair a b ys = (ys ≡ a ∷ b ∷ []) ⊎ (ys ≡ b ∷ a ∷ [])

  pair_cons :
      (a b c d : A) (rest more : List A)
      → c ≡ d
      → c ∷ rest ≡ a ∷ b ∷ []
      → ((x : A) → rest ≡ x ∷ [] → more ≡ x ∷ [])
      → d ∷ more ≡ a ∷ b ∷ []
  pair_cons a b c d rest more e whole single =
      let same : more ≡ b ∷ [] = single b (ground arith) in ground arith

  single_as : (a : A) (xs : List A) {ys : List A} → Permᴰ xs ys → xs ≡ a ∷ [] → ys ≡ a ∷ []
  single_as a xs {ys} p e = single-Permᴰ a (subst (λ zs. Permᴰ zs ys) e p)

  pairs : (a b : A) {xs ys : List A} → Permᴰ xs ys → ArePair a b xs → ArePair a b ys
  pairs a b Permᴰ.nil pair = pair
  pairs a b (Permᴰ.cons {a = c} {b = d} {l₁} {l₂} e p) (inl whole) =
      inl (pair_cons a b c d l₁ l₂ e whole (λ x. single_as x l₁ p))
  pairs a b (Permᴰ.cons {a = c} {b = d} {l₁} {l₂} e p) (inr whole) =
      inr (pair_cons b a c d l₁ l₂ e whole (λ x. single_as x l₁ p))
  pairs a b (Permᴰ.swap e f) (inl whole) = inr (ground arith)
  pairs a b (Permᴰ.swap e f) (inr whole) = inl (ground arith)
  pairs a b (Permᴰ.trans p q) pair = pairs a b q (pairs a b p pair)

  pub pair-Permᴰ : (a b : A) {ys : List A} → Permᴰ (a ∷ b ∷ []) ys → ArePair a b ys
  pair-Permᴰ a b p = pairs a b p (inl refl)
