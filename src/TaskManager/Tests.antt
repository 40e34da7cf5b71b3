-- ===== src/TaskManager/Tests.antt =====
-- Tasks that write down their numbers, in a runner's queue and in a pool.
use mathlib.Core.List.{Permᴰ}
use gitrpc.Prelude.{ℕ, ◌≤◌, ◌≡◌, refl, true, false, none, some, List, [], ◌∷◌, ◌++◌, ◌>>=◌, String}
use gitrpc.TaskManager.Task.{
  Task, Priority, high, low, no_return, returning_args, priority_number, priority_comparer, create,
  bind, invoke, invoked, invoke_and_return,
}
use gitrpc.TaskManager.Runner.{
  top_slot, new_runner, reset_pending, post_task, execute_thread_pool_task, start_task_runner,
  run_queue, set_execution_status,
}
use gitrpc.TaskManager.Runner.Loop.{run_queue-run_all, effect}
use gitrpc.TaskManager.Pool.{
  runner_at, set_runner, unused_from, get_unused_thread, new_thread_pool, pool_post_task, give_task,
  execute_task, execute_round, queue_pop, run_thread,
}
use gitrpc.TaskManager.Pool.History.{
  PoolEvent, posted, polled, popped, woken, History, begin, happen_all,
}
use gitrpc.TaskManager.Pool.Bound.{happen_all-bound}
use gitrpc.TaskManager.Manager.{Manager, lookup}
use gitrpc.TaskManager.Manager.Posts.{post_all-with_posts, post_all, with_posts, queue_of}
use gitrpc.PriorityQueue.{PriorityQueue}
use gitrpc.PriorityQueue.Drain.{run_all, IsOrdered}
use gitrpc.PriorityQueue.Sorted.{sorted}

abbrev Job : Type 0
Job = Task ℕ ℕ (List ℕ)

abbrev note : ℕ → Priority → Job
note n priority = create "id" (no_return (λ env. env ++ n ∷ [])) priority

-- What memory holds that nothing has set.
abbrev held : String → ℕ
held place = 0

abbrev jobs : PriorityQueue Job (priority_comparer held)
jobs = sorted (λ t. priority_number held t.task_id t.task_priority)

abbrev two_jobs : List Job
two_jobs = note 1 low ∷ note 2 high ∷ []

run_queue-run_all_example :
    (order : List Job) × (left : List Job) × Permᴰ two_jobs order
    × IsOrdered (priority_comparer held) order
    × (left ≡ [])
    × ((env : List ℕ)
        → run_queue held jobs 3 two_jobs env
          ≡ (run_all (effect held jobs) order env >>= λ env1. some (left, env1)))
run_queue-run_all_example = run_queue-run_all held jobs two_jobs

-- Two tasks for two threads: the first thread wakes after the pop, finds the other task in its place and runs it, and
-- the task that it was given never runs.
abbrev events : List (PoolEvent Job)
events =
    posted false (note 1 low)
    ∷ posted false (note 2 high)
    ∷ polled
    ∷ popped
    ∷ woken 0
    ∷ polled
    ∷ popped
    ∷ []

happen_all_test :
    (happen_all held jobs events (begin held jobs 2 []) >>= λ s. some s.env) ≡ some (1 ∷ [])
unfolding run_thread start_task_runner execute_thread_pool_task execute_round execute_task give_task
    queue_pop pool_post_task get_unused_thread unused_from new_thread_pool new_runner set_runner
    runner_at set_execution_status post_task reset_pending priority_number create bind invoke
    invoked
happen_all_test = refl

abbrev after_events : History (List Job) (List ℕ)
after_events = record {
  pool = record {
    runners =
        record (new_runner held jobs true) { pending_task = top_slot }
        ∷ new_runner held jobs true
        ∷ [];
    tasks = [];
  };
  is_popping = false;
  given_away = 1;
  env = 1 ∷ [];
}

happen_all-bound_example : after_events.given_away ≤ 2
unfolding run_thread start_task_runner execute_thread_pool_task execute_round execute_task give_task
    queue_pop pool_post_task get_unused_thread unused_from new_thread_pool new_runner set_runner
    runner_at set_execution_status post_task reset_pending priority_number create bind invoke
    invoked
happen_all-bound_example = happen_all-bound held jobs 2 events [] after_events refl

invoke_and_return_test :
    invoke_and_return true
      (create {Args = ℕ} {Result = ℕ} {Env = ℕ} "id"
        (returning_args (λ args env. (env, 7)) none)
        low)
      3
    ≡ none
unfolding invoke_and_return create bind
invoke_and_return_test = refl

abbrev two_runners : Manager held jobs
two_runners = record {
  thread_pool = none;
  runners = ("a", new_runner held jobs false) ∷ ("b", new_runner held jobs false) ∷ [];
  threads = ("a", "a") ∷ [];
}

abbrev three_posts : List (String × Job)
three_posts = ("a", note 1 low) ∷ ("b", note 2 low) ∷ ("a", note 3 low) ∷ []

post_all-with_posts_example :
    (m1 : Manager held jobs) × (post_all held jobs three_posts two_runners ≡ some m1)
    × ((name : String)
        → Permᴰ
            (queue_of held jobs name m1)
            (with_posts held jobs name three_posts (queue_of held jobs name two_runners)))
unfolding lookup new_runner
post_all-with_posts_example = post_all-with_posts held jobs three_posts two_runners (
  record { runner = _; heap = []; found = refl; own = refl; queued = refl },
  (
    record { runner = _; heap = []; found = refl; own = refl; queued = refl },
    (record { runner = _; heap = []; found = refl; own = refl; queued = refl }, tt),
  ),
)
