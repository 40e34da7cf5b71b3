-- ===== src/PriorityQueue.antt =====
-- std::priority_queue of the C++ library, over a comparison: the operations that the repository calls, and
-- what their documentation promises. Which of two elements that compare as equal is on top is left open.
pub mod Drain
pub mod Images
pub mod Short
pub mod Sorted
use mathlib.Core.List.{Permᴰ}
use gitrpc.Prelude.{ℕ, ◌≡◌, Bool, false, Option, none, some, List, [], ◌∷◌, All, length}

pub record PriorityQueue (A : Type 0) (compare : A → A → Bool) : Type 1 where
  pub Heap : Type 0
  pub empty : Heap
  pub push : A → Heap → Heap
  -- `top`, which only a queue with an element has.
  pub top : Heap → Option A
  pub pop : Heap → Heap
  pub size : Heap → ℕ
  -- An assignment through the reference that `top` gives, of a value that compares like the old one.
  pub set_top : A → Heap → Heap
  -- The elements, in some order.
  pub items : Heap → List A
  pub items-empty : items empty ≡ []
  pub items-push : (a : A) (h : Heap) → Permᴰ (items (push a h)) (a ∷ items h)
  pub size-items : (h : Heap) → size h ≡ length (items h)
  pub top-none : (h : Heap) → top h ≡ none → items h ≡ []
  pub items-pop : (h : Heap) (a : A) → top h ≡ some a → Permᴰ (items h) (a ∷ items (pop h))
  pub top-least :
      (h : Heap) (a : A) → top h ≡ some a → All (λ b. compare a b ≡ false) (items (pop h))
  pub top-set_top :
      (h : Heap) (a b : A)
      → top h ≡ some a
      → ((c : A) → compare b c ≡ compare a c)
      → top (set_top b h) ≡ some b
  pub pop-set_top :
      (h : Heap) (a b : A)
      → top h ≡ some a
      → ((c : A) → compare b c ≡ compare a c)
      → pop (set_top b h) ≡ pop h
