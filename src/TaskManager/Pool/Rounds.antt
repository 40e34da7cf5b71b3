-- ===== src/TaskManager/Pool/Rounds.antt =====
-- What a round of ExecuteTasks changes in the runners of the pool.
use gitrpc.Prelude.{
  String, ℕ, suc, ◌≡◌, refl, subst, true, Option, none, some, ◌>>=◌, ◌==◌, arith, if_rule,
  bind_rule,
}
use gitrpc.TaskManager.Task.{Task, priority_comparer}
use gitrpc.TaskManager.Runner.{
  Runner, Pending, null, top_slot, destroyed, reset_pending, post_task, set_execution_status,
}
use gitrpc.TaskManager.Pool.{
  runner_at, set_runner, ThreadPool, Round, no_thread, complete, given, give_task, execute_task,
  get_unused_thread, execute_round,
}
use gitrpc.PriorityQueue.{PriorityQueue}
use gitrpc.TaskManager.Pool.Count.{has_pending, IsPool, Has, at-IsPool, set-Has, count_pending-set}

module _ {Args Result Env : Type 0} (unset : String → ℕ)
    (queue : PriorityQueue (Task Args Result Env) (priority_comparer unset)) where
  open queue use {Heap, size}

  -- A runner that takes the address of a task had none before.
  abbrev Takes : Runner Heap → Option (Runner Heap) → Type 0
  Takes r result = elim result [
    | none ↦ Unit {0}
    | some r1 ↦ IsPool r1 × (has_pending r.pending_task ≡ 0) × (has_pending r1.pending_task ≡ 1)
  ]

  reset_pending-Takes :
      (p : Pending) (r : Runner Heap)
      → r.pending_task ≡ p
      → IsPool r
      → Takes r (reset_pending unset queue r)
  unfolding reset_pending
  reset_pending-Takes null r e pooled = rw e (pooled, refl, refl)
  reset_pending-Takes top_slot r e pooled = rw e tt
  reset_pending-Takes destroyed r e pooled = rw e tt

  post_task-Takes :
      (task : Task Args Result Env) (r : Runner Heap)
      → IsPool r
      → Takes r (post_task unset queue task (set_execution_status unset queue r))
  unfolding post_task set_execution_status
  post_task-Takes task r pooled = rw pooled (
      reset_pending-Takes r.pending_task
        (record r { in_use = true; thread_pool_task_runner = true }) refl refl)

  abbrev Gives : ℕ → ℕ → Option (ThreadPool Heap) → Type 0
  Gives n k result = elim result [ none ↦ Unit {0} | some pool ↦ Has n (suc k) pool.runners ]

  give_task-Gives :
      (n k thread : ℕ) (task : Task Args Result Env) (pool : ThreadPool Heap)
      → Has n k pool.runners
      → Gives n k (give_task unset queue task thread pool)
  unfolding give_task
  give_task-Gives n k thread task pool has =
      bind_rule (Gives n k) (runner_at thread pool.runners)
        (λ r. post_task unset queue task (set_execution_status unset queue r) >>= λ r1.
          some (record pool { runners = set_runner thread r1 pool.runners }))
        tt
        (λ r e.
          let pooled = at-IsPool thread pool.runners r e has.2 in
          bind_rule (Gives n k) (post_task unset queue task (set_execution_status unset queue r))
            (λ r1. some (record pool { runners = set_runner thread r1 pool.runners })) tt
            (λ r1 e1.
              let (pooled1, before, after) = subst (Takes r) e1 (post_task-Takes task r pooled) in
              let (l, c, all) = set-Has n k thread pool.runners r r1 e pooled1 has in
              (l, omega (arith, count_pending-set thread pool.runners r r1 e, has.1), all)))

  -- What a round of ExecuteTasks gives.
  abbrev pub RoundKeeps : ℕ → ℕ → Option (Round × ThreadPool Heap) → Type 0
  RoundKeeps n k result = elim result [
    | none ↦ Unit {0}
    | some out ↦ elim out.0 [
      | no_thread ↦ Has n k out.1.runners
      | complete ↦ Has n k out.1.runners
      | given i ↦ Has n (suc k) out.1.runners
    ]
  ]

  given-RoundKeeps :
      (n k thread : ℕ) (result : Option (ThreadPool Heap))
      → Gives n k result
      → RoundKeeps n k (result >>= λ pool1. some (given thread, pool1))
  given-RoundKeeps n k thread none gives = tt
  given-RoundKeeps n k thread (some pool) gives = gives

  execute_task-RoundKeeps :
      (n k thread : ℕ) (task : Task Args Result Env) (pool : ThreadPool Heap)
      → Has n k pool.runners
      → RoundKeeps n k (execute_task unset queue thread pool task)
  unfolding execute_task
  execute_task-RoundKeeps n k thread task pool has =
      if_rule (RoundKeeps n k) task.is_complete (some (complete, pool))
        (give_task unset queue task thread pool >>= λ pool1. some (given thread, pool1)) has
        (given-RoundKeeps n k thread _ (give_task-Gives n k thread task pool has))

  pub execute_round-RoundKeeps :
      (n k : ℕ) (pool : ThreadPool Heap)
      → Has n k pool.runners
      → RoundKeeps n k (execute_round unset queue pool)
  unfolding execute_round
  execute_round-RoundKeeps n k pool has =
      let thread = get_unused_thread unset queue pool in
      if_rule (RoundKeeps n k) (thread == 255) (some (no_thread, pool))
        (queue.top pool.tasks >>= λ task. execute_task unset queue thread pool task) has
        (bind_rule (RoundKeeps n k) (queue.top pool.tasks)
          (λ task. execute_task unset queue thread pool task) tt
          (λ task e. execute_task-RoundKeeps n k thread task pool has))
