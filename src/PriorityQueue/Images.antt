-- ===== src/PriorityQueue/Images.antt =====
-- Permutations of the images of a list.
use mathlib.Core.List.{Permᴰ}
use gitrpc.Prelude.{◌≡◌, refl, List, [], ◌∷◌, map, arith}

module _ {A B : Type 0} (f : A → B) where
  -- The other list is made of images too.
  abbrev pub AreImages : List A → List B → Type 0
  AreImages xs ys = (zs : List A) × (ys ≡ map f zs) × Permᴰ xs zs

  images_cons :
      (a b : B) (rest : List B) (x : A) (xs : List A)
      → a ≡ b
      → a ≡ f x
      → AreImages xs rest
      → AreImages (x ∷ xs) (b ∷ rest)
  images_cons a b rest x xs e first (zs, same, p) = (x ∷ zs, ground arith, Permᴰ.cons refl p)

  images : {ws ys : List B} (xs : List A) → ws ≡ map f xs → Permᴰ ws ys → AreImages xs ys
  images [] e Permᴰ.nil = ([], refl, Permᴰ.nil)
  images (x ∷ xs) e Permᴰ.nil = absurd (ground arith)
  images [] e (Permᴰ.cons _ _) = absurd (ground arith)
  images (x ∷ xs) e (Permᴰ.cons {a} {b} {l₁} {l₂} g p) =
      images_cons a b l₂ x xs g (ground arith) (images xs (ground arith) p)
  images [] e (Permᴰ.swap _ _) = absurd (ground arith)
  images (x ∷ []) e (Permᴰ.swap _ _) = absurd (ground arith)
  images (x ∷ y ∷ xs) e (Permᴰ.swap g h) = (y ∷ x ∷ xs, ground arith, Permᴰ.swap refl refl)
  images xs e (Permᴰ.trans p q) =
      let (zs, same, p1) = images xs e p in
      let (ws, same1, q1) = images zs same q in (ws, same1, Permᴰ.trans p1 q1)

  pub map-Permᴰ : (xs : List A) {ys : List B} → Permᴰ (map f xs) ys → AreImages xs ys
  map-Permᴰ xs p = images xs refl p
