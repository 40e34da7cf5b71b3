-- ===== src/TaskManager/Runner.antt =====
-- base/taskmanager/taskrunner/Runner.cpp and the class Runner of TaskManager.h. A runner of the pool has no queue;
-- its pending task is the address of the element that was on top of the pool's queue, which is the first
-- place of the queue's vector, whatever stands there later. `none` is a use of what is not there: a
-- call through an unset pointer, a destroyed task, the deletion of an object that `new` did not make.
-- A task that posts to the runner that runs it is left out: the runner holds a pointer into its queue then.
pub mod Loop
use gitrpc.Prelude.{
  String, ℕ, zero, suc, Bool, true, false, Option, none, some, if◌then◌else◌, ◌>>=◌, ltb,
}
use gitrpc.TaskManager.Task.{Task, priority_comparer, invoke}
use gitrpc.PriorityQueue.{PriorityQueue}

pub data Pending : Type 0 where
  null : Pending
  top_slot : Pending
  destroyed : Pending

pub record Runner (Heap : Type 0) : Type 0 where
  pub in_use : Bool
  pub keep_running : Bool
  pub pending_task : Pending
  pub thread_pool_task_runner : Bool
  pub tasks : Option Heap

module _ {Args Result Env : Type 0} (unset : String → ℕ)
    (queue : PriorityQueue (Task Args Result Env) (priority_comparer unset)) where
  open queue use {Heap, empty, push, top, pop, size, set_top}

  abbrev pub TaskRunner : Type 0
  TaskRunner = Runner Heap

  unfoldable pub new_runner : Bool → TaskRunner
  new_runner for_pool_thread = record {
    in_use = false;
    keep_running = true;
    pending_task = null;
    thread_pool_task_runner = for_pool_thread;
    tasks = if for_pool_thread then none else some empty;
  }

  -- unique_ptr::reset with the address of the top of the pool's queue.
  unfoldable pub reset_pending : TaskRunner → Option TaskRunner
  reset_pending r = elim r.pending_task [
    | null ↦ some (record r { pending_task = top_slot })
    | top_slot ↦ none
    | destroyed ↦ none
  ]

  unfoldable pub post_task : Task Args Result Env → TaskRunner → Option TaskRunner
  post_task task r =
      if r.thread_pool_task_runner
      then reset_pending r
      else (r.tasks >>= λ h. some (record r { tasks = some (push task h) }))

  -- A task that the runner takes: the task as it is then, and the state of the process.
  unfoldable pub run_task : Task Args Result Env → Env → Option (Task Args Result Env × Env)
  run_task task env = if task.is_complete then some (task, env) else invoke task env

  unfoldable pub execute_regular_task : Heap → Env → Option (Heap × Env)
  execute_regular_task h env =
      if ltb 0 (size h)
      then (top h >>= λ task.
          run_task task env >>= λ (task1, env1). some (pop (set_top task1 h), env1))
      else some (h, env)

  -- ExecuteThreadPoolTask, with the queue of the pool.
  unfoldable pub execute_thread_pool_task :
      Heap → TaskRunner → Env → Option ((Heap × TaskRunner) × Env)
  execute_thread_pool_task h r env = elim r.pending_task [
    | null ↦ some ((h, r), env)
    | destroyed ↦ none
    | top_slot ↦ top h >>= λ task. invoke task env >>= λ (task1, env1).
        some ((set_top task1 h, record r { in_use = false }), env1)
  ]

  -- The rounds of StartTaskRunner on a queue, up to the next Wait. The fuel that it is given is more than the
  -- tasks of the queue.
  unfoldable pub run_queue : ℕ → Heap → Env → Option (Heap × Env)
  run_queue zero h env = none
  run_queue (suc fuel) h env = execute_regular_task h env >>= λ (h1, env1).
      let rest = run_queue fuel h1 env1 in if ltb 0 (size h1) then rest else some (h1, env1)

  -- StartTaskRunner, from its start or the end of a Wait up to the next Wait, with the queue of the pool.
  unfoldable pub start_task_runner : Heap → TaskRunner → Env → Option ((Heap × TaskRunner) × Env)
  start_task_runner shared r env =
      if r.keep_running
      then if r.thread_pool_task_runner
        then execute_thread_pool_task shared r env
        else (r.tasks >>= λ h. run_queue (suc (size h)) h env >>= λ (h1, env1).
            some ((shared, record r { tasks = some h1 }), env1))
      else some ((shared, r), env)

  unfoldable pub stop_running : TaskRunner → TaskRunner
  stop_running r = record r { keep_running = false }

  unfoldable pub set_execution_status : TaskRunner → TaskRunner
  set_execution_status r = record r { in_use = true }
