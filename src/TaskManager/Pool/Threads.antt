-- ===== src/TaskManager/Pool/Threads.antt =====
-- What a thread of the pool changes in its runner.
use gitrpc.Prelude.{
  String, ℕ, ◌≡◌, refl, true, false, Option, none, some, ◌>>=◌, if_rule, bind_rule,
}
use gitrpc.TaskManager.Task.{Task, priority_comparer, invoke}
use gitrpc.TaskManager.Runner.{
  Runner, Pending, null, top_slot, destroyed, execute_thread_pool_task, start_task_runner,
}
use gitrpc.PriorityQueue.{PriorityQueue}
use gitrpc.TaskManager.Pool.Count.{has_pending, IsPool}

module _ {Args Result Env : Type 0} (unset : String → ℕ)
    (queue : PriorityQueue (Task Args Result Env) (priority_comparer unset)) where
  open queue use {Heap, size}

  -- A thread of the pool keeps what it has.
  abbrev pub Stays : Runner Heap → Option ((Heap × Runner Heap) × Env) → Type 0
  Stays r result = elim result [
    | none ↦ Unit {0}
    | some out ↦ IsPool out.0.1 × (has_pending out.0.1.pending_task ≡ has_pending r.pending_task)
  ]

  execute-Stays :
      (p : Pending) (h : Heap) (r : Runner Heap) (env : Env)
      → r.pending_task ≡ p
      → IsPool r
      → Stays r (execute_thread_pool_task unset queue h r env)
  unfolding execute_thread_pool_task
  execute-Stays null h r env e pooled = rw e (pooled, refl)
  execute-Stays destroyed h r env e pooled = rw e tt
  execute-Stays top_slot h r env e pooled = rw e (
      bind_rule (Stays (record r { pending_task = top_slot })) (queue.top h)
        (λ task. invoke task env >>= λ (task1, env1).
          some
            ((queue.set_top task1 h, record r { in_use = false; pending_task = top_slot }), env1))
        tt
        (λ task _.
          bind_rule (Stays (record r { pending_task = top_slot })) (invoke task env)
            (λ (task1, env1).
              some (
                (queue.set_top task1 h, record r { in_use = false; pending_task = top_slot }),
                env1,
              ))
            tt (λ _ _. (pooled, refl))))

  pub start-Stays :
      (h : Heap) (r : Runner Heap) (env : Env)
      → IsPool r
      → Stays r (start_task_runner unset queue h r env)
  unfolding start_task_runner
  start-Stays h r env pooled = rw pooled (
      if_rule (Stays (record r { thread_pool_task_runner = true })) r.keep_running
        (execute_thread_pool_task unset queue h (record r { thread_pool_task_runner = true }) env)
        (some ((h, record r { thread_pool_task_runner = true }), env))
        (execute-Stays r.pending_task h (record r { thread_pool_task_runner = true }) env refl refl)
        (refl, refl))
