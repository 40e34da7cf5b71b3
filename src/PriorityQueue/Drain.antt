-- ===== src/PriorityQueue/Drain.antt =====
-- Loops that take the top of a priority queue, run it and pop it until the queue is empty.
use mathlib.Core.List.{Permᴰ}
use mathlib.Core.List.Permᴰ
use gitrpc.Prelude.{
  ℕ, zero, suc, ◌≡◌, refl, sym, ap, subst, ◌∙◌, inl, inr, Bool, true, false, Option, none, some,
  List, [], ◌∷◌, All, ◌>>=◌, Option-cases, length, ltb, arith,
}
use gitrpc.PriorityQueue.{PriorityQueue}

module _ {ℓ} {A : Type ℓ} where
  pub All-Permᴰ {κ} : (P : A → Type κ) {xs ys : List A} → Permᴰ xs ys → All P xs → All P ys
  All-Permᴰ P Permᴰ.nil all = all
  All-Permᴰ P (Permᴰ.cons e p) (first, all) = (subst P e first, All-Permᴰ P p all)
  All-Permᴰ P (Permᴰ.swap e f) (first, (second, all)) = (subst P f second, (subst P e first, all))
  All-Permᴰ P (Permᴰ.trans p q) all = All-Permᴰ P q (All-Permᴰ P p all)

  pub length-Permᴰ : {xs ys : List A} → Permᴰ xs ys → length xs ≡ length ys
  length-Permᴰ Permᴰ.nil = refl
  length-Permᴰ (Permᴰ.cons _ p) = ap suc (length-Permᴰ p)
  length-Permᴰ (Permᴰ.swap _ _) = refl
  length-Permᴰ (Permᴰ.trans p q) = length-Permᴰ p ∙ length-Permᴰ q

  length-none : (xs : List A) → length xs ≡ 0 → xs ≡ []
  length-none [] e = refl
  length-none (x ∷ xs) e = absurd (omega arith)

-- What each element does in turn, from a state to the next, unless it fails.
abbrev pub run_all : {A Env : Type 0} → (A → Env → Option Env) → List A → Env → Option Env
run_all run [] env = some env
run_all run (a ∷ more) env = run a env >>= λ env1. run_all run more env1

-- No element comes after a later one.
abbrev pub IsOrdered : {A : Type 0} → (A → A → Bool) → List A → Type 0
IsOrdered compare [] = Unit {0}
IsOrdered compare (a ∷ more) = All (λ b. compare a b ≡ false) more × IsOrdered compare more

module _ {A Env : Type 0} {compare : A → A → Bool} (queue : PriorityQueue A compare)
    (run : A → Env → Option Env) (loop : ℕ → queue.Heap → Env → Option (queue.Heap × Env)) where
  open queue use {Heap, top, pop, size, items}

  -- With this fuel the loop runs the elements in order, and leaves the queue without any.
  abbrev pub Drains : ℕ → Heap → Type 0
  Drains fuel h =
      (order : List A) × (left : Heap) × Permᴰ (items h) order
      × IsOrdered compare order
      × (items left ≡ [])
      × ((env : Env) → loop fuel h env ≡ (run_all run order env >>= λ env1. some (left, env1)))

  abbrev pub Stops : Type 0
  Stops = (h : Heap) (n : ℕ) (env : Env) → size h ≡ 0 → loop (suc n) h env ≡ some (h, env)

  abbrev pub Takes : Type 0
  Takes =
      (h : Heap) (n : ℕ) (a : A) (env : Env)
      → ltb 0 (size h) ≡ true
      → top h ≡ some a
      → loop (suc (suc n)) h env ≡ (run a env >>= λ env1. loop (suc n) (pop h) env1)

  after_first :
      (order : List A) (left h : Heap) (n : ℕ)
      → ((env : Env) → loop n h env ≡ (run_all run order env >>= λ env1. some (left, env1)))
      → (result : Option Env)
      → (result >>= λ env1. loop n h env1)
        ≡ ((result >>= λ env1. run_all run order env1) >>= λ env1. some (left, env1))
  after_first order left h n same none = refl
  after_first order left h n same (some env) = same env

  drains : (n : ℕ) (h : Heap) → size h ≡ n → Stops → Takes → Drains (suc n) h
  drains zero h e stops takes =
      let none_left = length-none (items h) (sym (queue.size-items h) ∙ e) in
      (
        [],
        h,
        subst (λ xs. Permᴰ (items h) xs) none_left (Permᴰ.refl (items h)),
        tt,
        none_left,
        λ env. stops h 0 env e,
      )
  drains (suc n) h e stops takes = elim (Option-cases (top h)) [
    | inl missing ↦
        absurd (ground (arith, queue.size-items h, ap length (queue.top-none h missing)))
    | inr (a, found) ↦
        let p = queue.items-pop h a found in
        let rest_size : size (pop h) ≡ n =
          omega (arith, queue.size-items h, queue.size-items (pop h), length-Permᴰ p, e) in
        let (order, left, q, ordered, empty, same) = drains n (pop h) rest_size stops takes in
        (
          a ∷ order,
          left,
          Permᴰ.trans p (Permᴰ.cons refl q),
          (All-Permᴰ _ q (queue.top-least h a found), ordered),
          empty,
          λ env.
              takes h n a env (ground arith) found
              ∙ after_first order left (pop h) (suc n) same (run a env),
        )
  ]

  pub loop-Drains : (h : Heap) → Stops → Takes → Drains (suc (size h)) h
  loop-Drains h stops takes = drains (size h) h refl stops takes
