-- ===== src/Dispatch/Pump/Drain.antt =====
-- The loop of the message pump on its queue.
use mathlib.Core.List.{Permᴰ}
use gitrpc.Prelude.{ℕ, suc, ◌≡◌, refl, true, some, List, [], ◌>>=◌, ltb}
use gitrpc.Dispatch.Task.{Task}
use gitrpc.Dispatch.Pump.{priority_comparer, run_task, drain_queue}
use gitrpc.PriorityQueue.{PriorityQueue}
use gitrpc.PriorityQueue.Drain.{run_all, IsOrdered, loop-Drains}

module _ {Args Env : Type 0} (unset : ℕ → ℕ)
    (queue : PriorityQueue (Task Args Env) (priority_comparer unset)) where
  open queue use {Heap, top, pop, size, items}

  stop_drain :
      (h : Heap) (n : ℕ) (env : Env)
      → size h ≡ 0
      → drain_queue unset queue (suc n) h env ≡ some (h, env)
  unfolding drain_queue
  stop_drain h n env e = rw e refl

  next_drain :
      (h : Heap) (n : ℕ) (task : Task Args Env) (env : Env)
      → ltb 0 (size h) ≡ true
      → top h ≡ some task
      → drain_queue unset queue (suc n) h env
        ≡ (run_task unset queue task env >>= λ env1. drain_queue unset queue n (pop h) env1)
  unfolding drain_queue
  next_drain h n task env e found = rw (e, found) refl

  -- The loop on the queue ends: with fuel for one more round than the queue has tasks, it leaves the queue empty
  -- and has run the tasks that the queue held, each one once, those of a smaller priority number first; it
  -- stops before only where a task calls through a pointer that was never set.
  pub drain_queue-run_all :
      (h : Heap)
      → (order : List (Task Args Env)) × (left : Heap) × Permᴰ (items h) order
        × IsOrdered (priority_comparer unset) order
        × (items left ≡ [])
        × ((env : Env)
            → drain_queue unset queue (suc (size h)) h env
              ≡ (run_all (run_task unset queue) order env >>= λ env1. some (left, env1)))
  drain_queue-run_all h =
      loop-Drains queue (run_task unset queue) (drain_queue unset queue) h stop_drain
        (λ h1 n. next_drain h1 (suc n))
