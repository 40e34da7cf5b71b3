-- ===== src/TaskManager/Runner/Loop.antt =====
-- What a runner with a queue does between two waits.
use mathlib.Core.List.{Permᴰ}
use gitrpc.Prelude.{
  String, ℕ, suc, ◌≡◌, refl, sym, ap, inl, inr, Bool, true, false, Option, none, some, List, [],
  if◌then◌else◌, ◌>>=◌, ltb, arith, Bool-cases,
}
use gitrpc.TaskManager.Task.{Task, priority_comparer, invoke, invoked}
use gitrpc.TaskManager.Runner.{run_task, execute_regular_task, run_queue}
use gitrpc.PriorityQueue.{PriorityQueue}
use gitrpc.PriorityQueue.Drain.{run_all, IsOrdered, loop-Drains}

module _ {Args Result Env : Type 0} (unset : String → ℕ)
    (queue : PriorityQueue (Task Args Result Env) (priority_comparer unset)) where
  open queue use {Heap, top, pop, size, items, set_top}

  -- What a task does to the state of the process.
  abbrev pub effect : Task Args Result Env → Env → Option Env
  effect task env = run_task unset queue task env >>= λ (task1, env1). some env1

  stops :
      (h : Heap) (n : ℕ) (env : Env)
      → size h ≡ 0
      → run_queue unset queue (suc n) h env ≡ some (h, env)
  unfolding run_queue execute_regular_task
  stops h n env e = rw (e, e) refl

  goes_on :
      (h : Heap) (n : ℕ) (env : Env)
      → (if ltb 0 (size h) then run_queue unset queue (suc n) h env else some (h, env))
        ≡ run_queue unset queue (suc n) h env
  goes_on h n env = elim (Bool-cases (ltb 0 (size h))) [
    | inl t ↦ rw t refl
    | inr f ↦ rw f (sym (stops h n env (ground arith)))
  ]

  -- The task that was run compares like the one that was on top.
  abbrev Compares : Task Args Result Env → Option (Task Args Result Env × Env) → Type 0
  Compares task result = elim result [
    | none ↦ Unit {0}
    | some out ↦
        ((c : Task Args Result Env)
          → priority_comparer unset out.0 c ≡ priority_comparer unset task c)
  ]

  if-Compares :
      (task : Task Args Result Env) (b : Bool) (x y : Option (Task Args Result Env × Env))
      → Compares task x
      → Compares task y
      → Compares task (if b then x else y)
  if-Compares task true x y h k = h
  if-Compares task false x y h k = k

  complete-Compares :
      (task : Task Args Result Env) (result : Option Env)
      → Compares task (result >>= λ env1. some (record task { is_complete = true }, env1))
  complete-Compares task none = tt
  complete-Compares task (some env) = λ c. refl

  run_task-Compares :
      (task : Task Args Result Env) (env : Env) → Compares task (run_task unset queue task env)
  unfolding run_task invoke
  run_task-Compares task env =
      if-Compares task task.is_complete _ _ (λ c. refl) (complete-Compares task (invoked task env))

  popped :
      (h : Heap) (task : Task Args Result Env) (result : Option (Task Args Result Env × Env))
      → top h ≡ some task
      → Compares task result
      → ◌≡◌ {A = Option (Heap × Env)}
          (result >>= λ (task1, env1). some (pop (set_top task1 h), env1))
          ((result >>= λ (task1, env1). some env1) >>= λ env1. some (pop h, env1))
  popped h task none found same = refl
  popped h task (some (task1, env)) found same =
      ap (λ x. some (x, env)) (queue.pop-set_top h task task1 found same)

  execute_regular_task-effect :
      (h : Heap) (task : Task Args Result Env) (env : Env)
      → ltb 0 (size h) ≡ true
      → top h ≡ some task
      → execute_regular_task unset queue h env ≡ (effect task env >>= λ env1. some (pop h, env1))
  unfolding execute_regular_task
  execute_regular_task-effect h task env t found =
      rw (t, found)
        (popped h task (run_task unset queue task env) found (run_task-Compares task env))

  after_round :
      (h : Heap) (n : ℕ) (result : Option Env)
      → (◌>>=◌ {B = Heap × Env} (result >>= λ env1. some (h, env1)) (λ (h1, env1).
          let rest = run_queue unset queue (suc n) h1 env1 in
          if ltb 0 (size h1) then rest else some (h1, env1)))
        ≡ (result >>= λ env1. run_queue unset queue (suc n) h env1)
  after_round h n none = refl
  after_round h n (some env) = goes_on h n env

  takes :
      (h : Heap) (n : ℕ) (task : Task Args Result Env) (env : Env)
      → ltb 0 (size h) ≡ true
      → top h ≡ some task
      → run_queue unset queue (suc (suc n)) h env
        ≡ (effect task env >>= λ env1. run_queue unset queue (suc n) (pop h) env1)
  unfolding run_queue
  takes h n task env t found =
      rw (execute_regular_task-effect h task env t found) (after_round (pop h) n (effect task env))

  -- A runner with a queue comes to its next wait: with fuel for one more round than the queue has tasks, it has run
  -- the tasks that the queue held, each one once, but for those that are complete, those of a smaller priority
  -- number first, and its queue is empty; it stops before only where a task calls through a pointer that was
  -- never set.
  pub run_queue-run_all :
      (h : Heap)
      → (order : List (Task Args Result Env)) × (left : Heap) × Permᴰ (items h) order
        × IsOrdered (priority_comparer unset) order
        × (items left ≡ [])
        × ((env : Env)
            → run_queue unset queue (suc (size h)) h env
              ≡ (run_all effect order env >>= λ env1. some (left, env1)))
  run_queue-run_all h = loop-Drains queue effect (run_queue unset queue) h stops takes
