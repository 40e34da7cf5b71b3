-- ===== src/TaskManager/Pool/Bound.antt =====
-- How many tasks a pool gives to its threads.
use gitrpc.Prelude.{
  String, ℕ, zero, suc, ◌≤◌, ◌≡◌, refl, ap, subst, inl, inr, true, false, ◌||◌, not, Option, none,
  some, List, [], ◌∷◌, replicate, ◌>>=◌, ltb, arith, Bool-cases, if_rule, bind_rule,
}
use gitrpc.TaskManager.Task.{Task, priority_comparer}
use gitrpc.TaskManager.Runner.{Runner, new_runner, start_task_runner}
use gitrpc.TaskManager.Pool.{
  runner_at, set_runner, ThreadPool, Round, no_thread, complete, given, new_thread_pool,
  pool_post_task, execute_round, queue_pop, run_thread,
}
use gitrpc.PriorityQueue.{PriorityQueue}
use gitrpc.TaskManager.Pool.Count.{
  Has, count_pending-length, at-IsPool, set-Has, count_pending-set, map-moved-Has,
}
use gitrpc.TaskManager.Pool.History.{
  PoolEvent, posted, polled, popped, woken, History, after_round, happen, happen_all, begin,
}
use gitrpc.TaskManager.Pool.Rounds.{RoundKeeps, execute_round-RoundKeeps}
use gitrpc.TaskManager.Pool.Threads.{Stays, start-Stays}

module _ {Args Result Env : Type 0} (unset : String → ℕ)
    (queue : PriorityQueue (Task Args Result Env) (priority_comparer unset)) where
  open queue use {Heap, size}

  abbrev HasGiven : ℕ → History Heap Env → Type 0
  HasGiven n s = Has n s.given_away s.pool.runners

  abbrev Keeps : ℕ → Option (History Heap Env) → Type 0
  Keeps n result = elim result [ none ↦ Unit {0} | some s ↦ HasGiven n s ]

  after_round-Keeps :
      (n : ℕ) (s : History Heap Env) (result : Option (Round × ThreadPool Heap))
      → RoundKeeps unset queue n s.given_away result
      → Keeps n (result >>= λ out. after_round unset queue s out)
  after_round-Keeps n s none keeps = tt
  after_round-Keeps n s (some (no_thread, pool)) keeps = keeps
  after_round-Keeps n s (some (complete, pool)) keeps = keeps
  after_round-Keeps n s (some (given i, pool)) keeps = keeps

  polled-Keeps :
      (n : ℕ) (s : History Heap Env) → HasGiven n s → Keeps n (happen unset queue polled s)
  polled-Keeps n s has =
      if_rule (Keeps n) (s.is_popping || not (ltb 0 (size s.pool.tasks))) (some s)
        (execute_round unset queue s.pool >>= λ out. after_round unset queue s out) has
        (after_round-Keeps n s (execute_round unset queue s.pool)
          (execute_round-RoundKeeps unset queue n s.given_away s.pool has))

  stayed-Keeps :
      (n i : ℕ) (s : History Heap Env) (r : Runner Heap)
      (result : Option ((Heap × Runner Heap) × Env))
      → runner_at i s.pool.runners ≡ some r
      → Stays unset queue r result
      → HasGiven n s
      → Keeps n (
          ◌>>=◌ {B = ThreadPool Heap × Env} result (λ ((h, r1), env1).
            some (record s.pool { runners = set_runner i r1 s.pool.runners; tasks = h }, env1))
          >>= λ (pool1, env1). some (record s { pool = pool1; env = env1 }))
  stayed-Keeps n i s r none e stays has = tt
  stayed-Keeps n i s r (some ((h, r1), env1)) e (pooled, same) has =
      let (l, c, all) = set-Has n s.given_away i s.pool.runners r r1 e pooled has in
      (l, omega (arith, count_pending-set i s.pool.runners r r1 e, same, has.1), all)

  found-Keeps :
      (n i : ℕ) (s : History Heap Env) (found : Option (Runner Heap))
      → runner_at i s.pool.runners ≡ found
      → HasGiven n s
      → Keeps n (
          ◌>>=◌ {A = ThreadPool Heap × Env}
            (elim found [
              | none ↦ some (s.pool, s.env)
              | some r ↦ start_task_runner unset queue s.pool.tasks r s.env >>= λ ((h, r1), env1).
                  some (record s.pool { runners = set_runner i r1 s.pool.runners; tasks = h }, env1)
            ])
            (λ (pool1, env1). some (record s { pool = pool1; env = env1 })))
  found-Keeps n i s none e has = has
  found-Keeps n i s (some r) e has =
      stayed-Keeps n i s r (start_task_runner unset queue s.pool.tasks r s.env) e
        (start-Stays unset queue s.pool.tasks r s.env (at-IsPool i s.pool.runners r e has.2)) has

  woken-Keeps :
      (n i : ℕ) (s : History Heap Env) → HasGiven n s → Keeps n (happen unset queue (woken i) s)
  unfolding run_thread
  woken-Keeps n i s has = found-Keeps n i s (runner_at i s.pool.runners) refl has

  happen-Keeps :
      (n : ℕ) (event : PoolEvent (Task Args Result Env)) (s : History Heap Env)
      → HasGiven n s
      → Keeps n (happen unset queue event s)
  unfolding pool_post_task queue_pop
  happen-Keeps n (posted true task) s has = map-moved-Has n s.given_away s.pool.runners has
  happen-Keeps n (posted false task) s has = has
  happen-Keeps n polled s has = polled-Keeps n s has
  happen-Keeps n popped s has = elim (Bool-cases s.is_popping) [
    | inl t ↦ rw t has
    | inr f ↦ rw f has
  ]
  happen-Keeps n (woken i) s has = woken-Keeps n i s has

  happen_all-Keeps :
      (n : ℕ) (events : List (PoolEvent (Task Args Result Env))) (s : History Heap Env)
      → HasGiven n s
      → Keeps n (happen_all unset queue events s)
  happen_all-Keeps n [] s has = has
  happen_all-Keeps n (event ∷ events) s has =
      bind_rule (Keeps n) (happen unset queue event s) (λ s1. happen_all unset queue events s1) tt
        (λ s1 e. happen_all-Keeps n events s1 (subst (Keeps n) e (happen-Keeps n event s has)))

  replicate-Has : (n : ℕ) → Has n 0 (replicate n (new_runner unset queue true))
  unfolding new_runner
  replicate-Has zero = (refl, refl, tt)
  replicate-Has (suc n) =
      let (l, c, all) = replicate-Has n in (ap suc l, omega (arith, c), (refl, all))

  -- A pool of n threads gives at most n tasks to its threads in its whole life: in every history of posts, of rounds
  -- of ExecuteTasks and of its threads that makes no undefined use of an object, ExecuteTasks has given away at
  -- most n tasks, since a second task for a thread would delete an element of the queue.
  pub happen_all-bound :
      (n : ℕ) (events : List (PoolEvent (Task Args Result Env))) (env : Env) (s : History Heap Env)
      → happen_all unset queue events (begin unset queue n env) ≡ some s
      → s.given_away ≤ n
  unfolding new_thread_pool
  happen_all-bound n events env s e =
      let (l, c, all) =
        subst (Keeps n) e (happen_all-Keeps n events (begin unset queue n env) (replicate-Has n)) in
      omega (arith, l, c, count_pending-length s.pool.runners)
