-- ===== src/TaskManager/Manager.antt =====
-- base/taskmanager/dispatcher/TaskManager.cpp: the manager of the pool and of the runners that have a name. `none`
-- is the exception of `at`, or a use of the pool where none was made.
pub mod Size
pub mod Posts
use text.Mathlib.Text.{◌==◌ as str_eq}
use gitrpc.Prelude.{
  String, ℕ, Bool, true, false, ◌||◌, ◌&&◌, ◌==◌, Option, none, some, List, [], ◌∷◌, String,
  if◌then◌else◌, ◌>>=◌, ltb,
}
use gitrpc.TaskManager.Task.{Task, priority_comparer}
use gitrpc.TaskManager.Runner.{TaskRunner, new_runner, post_task, start_task_runner}
use gitrpc.TaskManager.Pool.{ThreadPool, new_thread_pool, pool_post_task}
use gitrpc.PriorityQueue.{PriorityQueue}

-- The size that InitializeThreadPool takes for a pool, with `concurrency` what hardware_concurrency gives. An int is
-- the unsigned number that it is converted to for the comparison, below 2 ^ 32.
unfoldable pub clamped_size : ℕ → ℕ → ℕ
clamped_size concurrency size =
    if ltb concurrency size || size == 4294967295 then concurrency else size

unfoldable pub pool_size : ℕ → ℕ → Option ℕ
pool_size concurrency size =
    let n = clamped_size concurrency size in if ltb 0 n && ltb n 2147483648 then some n else none

module _ {A : Type 0} where
  -- The maps of the manager: `at`, `try_emplace` with whether it inserted, and the change of a value.
  unfoldable pub lookup : String → List (String × A) → Option A
  lookup name [] = none
  lookup name ((key, value) ∷ entries) =
      let later = lookup name entries in if str_eq name key then some value else later

  unfoldable pub try_emplace : String → A → List (String × A) → Bool × List (String × A)
  try_emplace name value entries = elim (lookup name entries) [
    | none ↦ (true, (name, value) ∷ entries)
    | some old ↦ (false, entries)
  ]

  unfoldable pub replace : String → A → List (String × A) → List (String × A)
  replace name value [] = []
  replace name value ((key, old) ∷ entries) =
      let rest = replace name value entries in
      if str_eq name key then (key, value) ∷ entries else (key, old) ∷ rest

-- The threads are the names of the runners that they run.
pub record TaskManager (Heap : Type 0) (Runner : Type 0) : Type 0 where
  pub thread_pool : Option (ThreadPool Heap)
  pub runners : List (String × Runner)
  pub threads : List (String × String)

module _ {Args Result Env : Type 0} (unset : String → ℕ)
    (queue : PriorityQueue (Task Args Result Env) (priority_comparer unset)) where
  open queue use {Heap}

  abbrev pub Manager : Type 0
  Manager = TaskManager Heap (TaskRunner unset queue)

  unfoldable pub initialize_thread_pool : ℕ → ℕ → Manager → Manager
  initialize_thread_pool concurrency size m = elim (pool_size concurrency size) [
    | none ↦ m
    | some n ↦ record m { thread_pool = some (new_thread_pool unset queue n) }
  ]

  unfoldable pub post_to_runner : Task Args Result Env → String → Manager → Option Manager
  post_to_runner task name m = lookup name m.runners >>= λ r.
      post_task unset queue task r >>= λ r1. some (record m { runners = replace name r1 m.runners })

  unfoldable pub post_non_thread_pool_task :
      Task Args Result Env → String → Manager → Option Manager
  post_non_thread_pool_task task name m = post_to_runner task name m

  -- InitializeOnCurrentThread, up to the first Wait of its runner.
  unfoldable pub initialize_on_current_thread :
      String → Task Args Result Env → Manager → Env → Option (Manager × Env)
  initialize_on_current_thread name init_task m env =
      let (inserted, runners) = try_emplace name (new_runner unset queue false) m.runners in
      post_to_runner init_task name (record m { runners = runners }) >>= λ m1.
      lookup name m1.runners >>= λ r.
      start_task_runner unset queue queue.empty r env >>= λ ((shared, r1), env1).
      some (record m1 { runners = replace name r1 m1.runners }, env1)

  -- PostThreadPoolTask, up to its call of ExecuteTasks.
  unfoldable pub post_thread_pool_task : Bool → Task Args Result Env → Manager → Option Manager
  post_thread_pool_task grows task m = m.thread_pool >>= λ pool.
      some (record m { thread_pool = some (pool_post_task unset queue grows task pool) })

  -- CreateRunnerOnNewThread, which has no use for its task.
  unfoldable pub create_runner_on_new_thread : String → Task Args Result Env → Manager → Manager
  create_runner_on_new_thread name init_task m =
      let (inserted, runners) = try_emplace name (new_runner unset queue false) m.runners in
      if inserted
      then (let (started, threads) = try_emplace name name m.threads in
          record m { runners = runners; threads = threads })
      else m
