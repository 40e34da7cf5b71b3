-- ===== src/TaskManager/Pool.antt =====
-- base/taskmanager/thread/ThreadPool.cpp: a queue of tasks, and the threads that ExecuteTasks hands them to. What
-- the posting thread and the threads of the pool do in between each other is a sequence of events.
pub mod Bound
pub mod Count
pub mod History
pub mod Rounds
pub mod Threads
use gitrpc.Prelude.{
  String, ℕ, zero, suc, Bool, true, false, Option, none, some, List, [], ◌∷◌, map, replicate,
  if◌then◌else◌, ◌>>=◌, ltb, ◌==◌,
}
use gitrpc.TaskManager.Task.{Task, priority_comparer}
use gitrpc.TaskManager.Runner.{
  Runner, Pending, null, top_slot, destroyed, TaskRunner, new_runner, post_task,
  set_execution_status, start_task_runner,
}
use gitrpc.PriorityQueue.{PriorityQueue}

module _ {A : Type 0} where
  unfoldable pub runner_at : ℕ → List A → Option A
  runner_at i [] = none
  runner_at zero (r ∷ rs) = some r
  runner_at (suc i) (r ∷ rs) = runner_at i rs

  unfoldable pub set_runner : ℕ → A → List A → List A
  set_runner i r1 [] = []
  set_runner zero r1 (r ∷ rs) = r1 ∷ rs
  set_runner (suc i) r1 (r ∷ rs) = r ∷ set_runner i r1 rs

pub record ThreadPool (Heap : Type 0) : Type 0 where
  pub runners : List (Runner Heap)
  pub tasks : Heap

-- The vector of the queue moves, and what pointed into it is no object any more.
abbrev pub moved_pointer : Pending → Pending
moved_pointer null = null
moved_pointer top_slot = destroyed
moved_pointer destroyed = destroyed

abbrev pub moved : {Heap : Type 0} → Runner Heap → Runner Heap
moved r = record r { pending_task = moved_pointer r.pending_task }

-- How far ExecuteTasks comes in a round: no thread is free, a task that is complete is left, or one is given away.
pub data Round : Type 0 where
  no_thread : Round
  complete : Round
  given : ℕ → Round

-- GetUnusedThread, from the thread `i` on.
unfoldable pub unused_from : {Heap : Type 0} → ℕ → List (Runner Heap) → ℕ
unused_from i [] = 255
unused_from i (r ∷ rs) = let later = unused_from (suc i) rs in if r.in_use then later else i

module _ {Args Result Env : Type 0} (unset : String → ℕ)
    (queue : PriorityQueue (Task Args Result Env) (priority_comparer unset)) where
  open queue use {Heap, empty, push, top, pop, size}

  unfoldable pub new_thread_pool : ℕ → ThreadPool Heap
  new_thread_pool pool_size = record {
    runners = replicate pool_size (new_runner unset queue true);
    tasks = empty;
  }

  unfoldable pub get_unused_thread : ThreadPool Heap → ℕ
  get_unused_thread pool = unused_from 0 pool.runners

  -- PostTask, which says whether the vector of the queue had to grow.
  unfoldable pub pool_post_task : Bool → Task Args Result Env → ThreadPool Heap → ThreadPool Heap
  pool_post_task grows task pool = record pool {
    runners = if grows then map moved pool.runners else pool.runners;
    tasks = push task pool.tasks;
  }

  unfoldable pub give_task : Task Args Result Env → ℕ → ThreadPool Heap → Option (ThreadPool Heap)
  give_task task thread pool = runner_at thread pool.runners >>= λ r.
      post_task unset queue task (set_execution_status unset queue r) >>= λ r1.
      some (record pool { runners = set_runner thread r1 pool.runners })

  -- A round of the loop of ExecuteTasks on a queue with a task, up to QueuePop.
  unfoldable pub execute_task :
      ℕ → ThreadPool Heap → Task Args Result Env → Option (Round × ThreadPool Heap)
  execute_task thread pool task =
      if task.is_complete
      then some (complete, pool)
      else (give_task task thread pool >>= λ pool1. some (given thread, pool1))

  unfoldable pub execute_round : ThreadPool Heap → Option (Round × ThreadPool Heap)
  execute_round pool =
      let thread = get_unused_thread pool in
      if thread == 255
      then some (no_thread, pool)
      else (top pool.tasks >>= λ task. execute_task thread pool task)

  unfoldable pub queue_pop : ThreadPool Heap → ThreadPool Heap
  queue_pop pool = record pool { tasks = pop pool.tasks }

  -- The thread of the pool with the number `i`, up to its next wait.
  unfoldable pub run_thread : ℕ → ThreadPool Heap → Env → Option (ThreadPool Heap × Env)
  run_thread i pool env = elim (runner_at i pool.runners) [
    | none ↦ some (pool, env)
    | some r ↦ start_task_runner unset queue pool.tasks r env >>= λ ((h, r1), env1).
        some (record pool { runners = set_runner i r1 pool.runners; tasks = h }, env1)
  ]
