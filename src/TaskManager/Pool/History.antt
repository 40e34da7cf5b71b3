-- ===== src/TaskManager/Pool/History.antt =====
-- A history of a pool: posts, rounds of ExecuteTasks and what its threads do, in any order.
use gitrpc.Prelude.{
  String, ℕ, suc, Bool, true, false, ◌||◌, not, Option, some, List, [], ◌∷◌, if◌then◌else◌, ◌>>=◌,
  ltb,
}
use gitrpc.TaskManager.Task.{Task, priority_comparer}
use gitrpc.TaskManager.Pool.{
  ThreadPool, Round, no_thread, complete, given, new_thread_pool, pool_post_task, execute_round,
  queue_pop, run_thread,
}
use gitrpc.PriorityQueue.{PriorityQueue}

-- What happens: a post, which may move the queue's vector; a round of ExecuteTasks, on the queue with a task; its
-- QueuePop; a thread of the pool that has been woken.
pub data PoolEvent (A : Type 0) : Type 0 where
  posted : Bool → A → PoolEvent A
  polled : PoolEvent A
  popped : PoolEvent A
  woken : ℕ → PoolEvent A

-- The pool, whether ExecuteTasks is about to pop, the tasks that it has given to a thread so far, and the process.
pub record History (Heap Env : Type 0) : Type 0 where
  pub pool : ThreadPool Heap
  pub is_popping : Bool
  pub given_away : ℕ
  pub env : Env

module _ {Args Result Env : Type 0} (unset : String → ℕ)
    (queue : PriorityQueue (Task Args Result Env) (priority_comparer unset)) where
  open queue use {Heap, size}

  abbrev pub after_round : History Heap Env → Round × ThreadPool Heap → Option (History Heap Env)
  after_round s (no_thread, pool1) = some (record s { pool = pool1 })
  after_round s (complete, pool1) = some (record s { pool = pool1; is_popping = true })
  after_round s (given i, pool1) =
      some (record s { pool = pool1; is_popping = true; given_away = suc s.given_away })

  -- An event where ExecuteTasks is at another place is passed over.
  abbrev pub happen :
      PoolEvent (Task Args Result Env) → History Heap Env → Option (History Heap Env)
  happen (posted grows task) s =
      some (record s { pool = pool_post_task unset queue grows task s.pool })
  happen polled s =
      if s.is_popping || not (ltb 0 (size s.pool.tasks))
      then some s
      else (execute_round unset queue s.pool >>= λ out. after_round s out)
  happen popped s =
      if s.is_popping
      then some (record s { pool = queue_pop unset queue s.pool; is_popping = false })
      else some s
  happen (woken i) s = run_thread unset queue i s.pool s.env >>= λ (pool1, env1).
      some (record s { pool = pool1; env = env1 })

  abbrev pub happen_all :
      List (PoolEvent (Task Args Result Env)) → History Heap Env → Option (History Heap Env)
  happen_all [] s = some s
  happen_all (event ∷ events) s = happen event s >>= λ s1. happen_all events s1

  -- A new pool and its process.
  abbrev pub begin : ℕ → Env → History Heap Env
  begin n env = record {
    pool = new_thread_pool unset queue n;
    is_popping = false;
    given_away = 0;
    env = env;
  }
