-- ===== src/PriorityQueue/Sorted.antt =====
-- A priority queue as a list, whose top is the first element of the least rank.
use mathlib.Core.List.{Permᴰ}
use mathlib.Core.List.Permᴰ
use gitrpc.Prelude.{
  ℕ, ◌≡◌, refl, ap, subst, Bool, false, Option, none, some, List, [], ◌∷◌, All, length, ltb, inl,
  inr, Bool-cases, if◌then◌else◌, arith,
}
use gitrpc.PriorityQueue.{PriorityQueue}

module _ {A : Type 0} (rank : A → ℕ) where
  -- Whether x comes after y.
  abbrev pub after : A → A → Bool
  after x y = ltb (rank y) (rank x)

  -- The least of `a` and the list, and the others.
  abbrev pub select : A → List A → A × List A
  select a [] = (a, [])
  select a (x ∷ xs) =
      let (least, others) = select x xs in
      if after a least then (least, a ∷ others) else (a, x ∷ xs)

  abbrev pub first : List A → Option A
  first [] = none
  first (x ∷ xs) = some (select x xs).0

  abbrev pub others : List A → List A
  others [] = []
  others (x ∷ xs) = (select x xs).1

  abbrev pub IsLeast : A → List A → Type 0
  IsLeast a xs = All (λ b. after a b ≡ false) xs

  select-Perm : (a : A) (xs : List A) → Permᴰ (a ∷ xs) ((select a xs).0 ∷ (select a xs).1)
  select-Perm a [] = Permᴰ.refl _
  select-Perm a (x ∷ xs) = elim (Bool-cases (after a (select x xs).0)) [
    | inl t ↦ rw t (Permᴰ.trans (Permᴰ.cons refl (select-Perm x xs)) (Permᴰ.swap refl refl))
    | inr f ↦ rw f (Permᴰ.refl _)
  ]

  All-weaken : (a b : A) (xs : List A) → after a b ≡ false → IsLeast b xs → IsLeast a xs
  All-weaken a b [] h all = tt
  All-weaken a b (x ∷ xs) h (p, all) = (ground arith, All-weaken a b xs h all)

  select-All :
      (P : A → Type 0) (a : A) (xs : List A)
      → All P ((select a xs).0 ∷ (select a xs).1)
      → All P (a ∷ xs)
  select-All P a [] = λ all. all
  select-All P a (x ∷ xs) = elim (Bool-cases (after a (select x xs).0)) [
    | inl t ↦ rw t (λ (p, (q, all)). (q, select-All P x xs (p, all)))
    | inr f ↦ rw f (λ all. all)
  ]

  select-IsLeast : (a : A) (xs : List A) → IsLeast (select a xs).0 (select a xs).1
  select-IsLeast a [] = tt
  select-IsLeast a (x ∷ xs) = elim (Bool-cases (after a (select x xs).0)) [
    | inl t ↦ rw t (ground arith, select-IsLeast x xs)
    | inr f ↦
        rw f
          (select-All (λ b. after a b ≡ false) x xs (f, All-weaken a _ _ f (select-IsLeast x xs)))
  ]

  select-holds : (P : A → Type 0) (a : A) (xs : List A) → All P (a ∷ xs) → P (select a xs).0
  select-holds P a [] (p, all) = p
  select-holds P a (x ∷ xs) (p, (q, all)) = elim (Bool-cases (after a (select x xs).0)) [
    | inl t ↦ rw t (select-holds P x xs (q, all))
    | inr f ↦ rw f p
  ]

  -- A least element in front is the one selected.
  select-first :
      (a b : A) (xs : List A)
      → ((c : A) → after b c ≡ after a c)
      → IsLeast a xs
      → select b xs ≡ (b, xs)
  select-first a b [] same all = refl
  select-first a b (x ∷ xs) same (p, all) =
      rw (same (select x xs).0, select-holds (λ c. after a c ≡ false) x xs (p, all)) refl

  pub first-none : (h : List A) → first h ≡ none → h ≡ []
  first-none [] e = refl
  first-none (x ∷ xs) e = absurd (ground arith)

  pub others-Perm : (h : List A) (a : A) → first h ≡ some a → Permᴰ h (a ∷ others h)
  others-Perm [] a e = absurd (ground arith)
  others-Perm (x ∷ xs) a e =
      subst (λ b. Permᴰ (x ∷ xs) (b ∷ (select x xs).1)) (ground arith) (select-Perm x xs)

  pub others-IsLeast : (h : List A) (a : A) → first h ≡ some a → IsLeast a (others h)
  others-IsLeast [] a e = absurd (ground arith)
  others-IsLeast (x ∷ xs) a e =
      subst (λ b. IsLeast b (select x xs).1) (ground arith) (select-IsLeast x xs)

  pub select-set :
      (h : List A) (a b : A)
      → first h ≡ some a
      → ((c : A) → after b c ≡ after a c)
      → select b (others h) ≡ (b, others h)
  select-set h a b e same = select-first a b (others h) same (others-IsLeast h a e)

  abbrev pub sorted : PriorityQueue A after
  sorted = record {
    Heap = List A;
    empty = [];
    push = λ a h. a ∷ h;
    top = first;
    pop = others;
    size = length;
    set_top = λ b h. b ∷ others h;
    items = λ h. h;
    items-empty = refl;
    items-push = λ a h. Permᴰ.refl _;
    size-items = λ h. refl;
    top-none = first-none;
    items-pop = others-Perm;
    top-least = others-IsLeast;
    top-set_top = λ h a b e same. ap (λ x. some x.0) (select-set h a b e same);
    pop-set_top = λ h a b e same. ap (λ x. x.1) (select-set h a b e same);
  }
