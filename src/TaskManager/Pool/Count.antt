-- ===== src/TaskManager/Pool/Count.antt =====
-- How many runners of a list have been given a task.
use gitrpc.Prelude.{
  ℕ, zero, suc, ◌+◌, ◌≤◌, ◌≡◌, refl, ap, subst, ◌∙◌, true, some, List, [], ◌∷◌, All, map, length,
  arith,
}
use gitrpc.TaskManager.Runner.{Runner, Pending, null, top_slot, destroyed}
use gitrpc.TaskManager.Pool.{runner_at, set_runner, moved, moved_pointer}

-- Whether a runner has been given a task, ever.
abbrev pub has_pending : Pending → ℕ
has_pending null = 0
has_pending top_slot = 1
has_pending destroyed = 1

has_pending-bound : (p : Pending) → has_pending p ≤ 1
has_pending-bound null = omega arith
has_pending-bound top_slot = omega arith
has_pending-bound destroyed = omega arith

has_pending-moved : (p : Pending) → has_pending (moved_pointer p) ≡ has_pending p
has_pending-moved null = refl
has_pending-moved top_slot = refl
has_pending-moved destroyed = refl

some-same : {A : Type 0} {a b : A} → some a ≡ some b → a ≡ b
some-same e = ground arith

module _ {Heap : Type 0} where
  abbrev pub count_pending : List (Runner Heap) → ℕ
  count_pending [] = 0
  count_pending (r ∷ rs) = has_pending r.pending_task + count_pending rs

  abbrev pub IsPool : Runner Heap → Type 0
  IsPool r = r.thread_pool_task_runner ≡ true

  -- `n` runners of a pool, `k` of which have been given a task.
  abbrev pub Has : ℕ → ℕ → List (Runner Heap) → Type 0
  Has n k rs = (length rs ≡ n) × (count_pending rs ≡ k) × All IsPool rs

  pub count_pending-length : (rs : List (Runner Heap)) → count_pending rs ≤ length rs
  count_pending-length [] = omega arith
  count_pending-length (r ∷ rs) =
      omega (arith, count_pending-length rs, has_pending-bound r.pending_task)

  pub at-IsPool :
      (i : ℕ) (rs : List (Runner Heap)) (r : Runner Heap)
      → runner_at i rs ≡ some r
      → All IsPool rs
      → IsPool r
  unfolding runner_at
  at-IsPool i [] r e all = absurd (ground arith)
  at-IsPool zero (x ∷ rs) r e (p, all) = subst IsPool (some-same e) p
  at-IsPool (suc i) (x ∷ rs) r e (p, all) = at-IsPool i rs r e all

  pub set-Has :
      (n k : ℕ) (i : ℕ) (rs : List (Runner Heap)) (r r1 : Runner Heap)
      → runner_at i rs ≡ some r
      → IsPool r1
      → Has n k rs
      → Has n (count_pending (set_runner i r1 rs)) (set_runner i r1 rs)
  unfolding runner_at set_runner
  set-Has n k i [] r r1 e p has = absurd (ground arith)
  set-Has n k zero (x ∷ rs) r r1 e p (l, c, all) = (l, refl, (p, all.1))
  set-Has n k (suc i) (x ∷ rs) r r1 e p (l, c, all) =
      let (l1, c1, all1) =
        set-Has (length rs) (count_pending rs) i rs r r1 e p (refl, refl, all.1) in
      (ap suc l1 ∙ l, refl, (all.0, all1))

  pub count_pending-set :
      (i : ℕ) (rs : List (Runner Heap)) (r r1 : Runner Heap)
      → runner_at i rs ≡ some r
      → count_pending (set_runner i r1 rs) + has_pending r.pending_task
        ≡ count_pending rs + has_pending r1.pending_task
  unfolding runner_at set_runner
  count_pending-set i [] r r1 e = absurd (ground arith)
  count_pending-set zero (x ∷ rs) r r1 e =
      subst
        (λ (y : Runner Heap).
          count_pending (r1 ∷ rs) + has_pending y.pending_task
          ≡ count_pending (x ∷ rs) + has_pending r1.pending_task)
        (some-same e) (omega arith)
  count_pending-set (suc i) (x ∷ rs) r r1 e = omega (arith, count_pending-set i rs r r1 e)

  pub map-moved-Has : (n k : ℕ) (rs : List (Runner Heap)) → Has n k rs → Has n k (map moved rs)
  map-moved-Has n k [] has = has
  map-moved-Has n k (r ∷ rs) (l, c, all) =
      let (l1, c1, all1) = map-moved-Has (length rs) (count_pending rs) rs (refl, refl, all.1) in
      (ap suc l1 ∙ l, omega (arith, c1, has_pending-moved r.pending_task, c), (all.0, all1))
