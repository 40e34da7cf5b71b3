-- ===== src/Dispatch/Pump/First.antt =====
-- The first round of a message pump, which runs the task that MakeMessagePump was given.
use mathlib.Core.List.{Permᴰ}
use mathlib.Core.List.Permᴰ
use gitrpc.Prelude.{
  ℕ, ◌≡◌, refl, ap, subst, ◌∙◌, true, false, Option, none, some, List, [], ◌∷◌, ◌>>=◌,
}
use gitrpc.Dispatch.Task.{Task}
use gitrpc.Dispatch.Pump.{
  Pump, Pipe, priority_comparer, run_task, locked_post_task_to_queue, post_message_to_thread,
  post_init_task, message_round, message_rounds, start_message_loop, make_message_pump,
  dispatch_events, fill_events,
}
use gitrpc.Dispatch.Pump.Rounds.{after_round, dispatch_none, message_round-RunsAs}
use gitrpc.PriorityQueue.{PriorityQueue}
use gitrpc.PriorityQueue.Drain.{run_all}
use gitrpc.PriorityQueue.Short.{single-Permᴰ}

module _ {Args Env : Type 0} (unset : ℕ → ℕ)
    (queue : PriorityQueue (Task Args Env) (priority_comparer unset)) (pipe : Pipe) where
  open queue use {Heap, items}

  abbrev Pump_ : Type 0
  Pump_ = Pump Args Env Heap pipe.Channel

  -- The pump when its loop starts, and with the first task posted.
  abbrev pub started : Task Args Env → Pump_ → Pump_
  started task p = record p { init_task = some task; start_complete = true; run_init_task = true }

  abbrev pub first_posted : Task Args Env → Pump_ → Pump_
  first_posted task p =
      post_message_to_thread unset queue pipe task
        (record (started task p) { run_init_task = false })

  one_round :
      (task : Task Args Env) (ready : List ℕ) (p : Pump_) (env : Env)
      → make_message_pump unset queue pipe task (ready ∷ []) p env ≡ (
          message_round unset queue pipe ready (started task p) env >>= λ (p1, env1).
          some (p1, env1))
  unfolding make_message_pump start_message_loop message_rounds
  one_round task ready p env = refl

  posts_first :
      (task : Task Args Env) (p : Pump_)
      → post_init_task unset queue pipe (started task p) ≡ first_posted task p
  unfolding post_init_task
  posts_first task p = refl

  items-first_posted :
      (task : Task Args Env) (p : Pump_)
      → items p.task_queue ≡ []
      → Permᴰ (items (first_posted task p).task_queue) (task ∷ [])
  unfolding post_message_to_thread locked_post_task_to_queue
  items-first_posted task p e =
      subst (λ xs. Permᴰ (items (queue.push task p.task_queue)) (task ∷ xs)) e
        (queue.items-push task p.task_queue)

  handlers-first_posted :
      (task : Task Args Env) (p : Pump_) → (first_posted task p).handlers ≡ p.handlers
  unfolding post_message_to_thread locked_post_task_to_queue
  handlers-first_posted task p = refl

  ends : (result : Option Env) → (result >>= λ env. some env) ≡ result
  ends none = refl
  ends (some env) = refl

  run_one :
      (order : List (Task Args Env)) (task : Task Args Env) (env : Env)
      → order ≡ task ∷ []
      → run_all (run_task unset queue) order env ≡ run_task unset queue task env
  run_one order task env e =
      ap (λ ts. run_all (run_task unset queue) ts env) e ∙ ends (run_task unset queue task env)

  first_run :
      (order : List (Task Args Env)) (task : Task Args Env) (p : Pump_) (events : List ℕ)
      (env : Env)
      → p.handlers ≡ []
      → order ≡ task ∷ []
      → run_all
          (run_task unset queue)
          order
          (dispatch_events (first_posted task p).handlers events env)
        ≡ run_task unset queue task env
  first_run order task p events env none_there e =
      ap (run_all (run_task unset queue) order) (
        dispatch_none (first_posted task p).handlers events env
          (handlers-first_posted task p ∙ none_there))
      ∙ run_one order task env e

  pairs : (result : Option (Pump_ × Env)) → (result >>= λ (p, env). some (p, env)) ≡ result
  pairs none = refl
  pairs (some (p, env)) = refl

  -- On an empty queue and without receivers of messages, the first round runs the task.
  pub make_message_pump-first :
      (task : Task Args Env) (p : Pump_)
      → items p.task_queue ≡ []
      → p.handlers ≡ []
      → (left : Heap) × (items left ≡ [])
        × ((ready : List ℕ) (env : Env)
            → make_message_pump unset queue pipe task (ready ∷ []) p env ≡ (
                run_task unset queue task env >>= λ env1.
                some (after_round unset queue pipe ready left (first_posted task p), env1)))
  make_message_pump-first task p empty none_there =
      let posted = first_posted task p in
      let (order, left, perm, ordered, none_left, ran) =
        message_round-RunsAs unset queue pipe (started task p) posted (posts_first task p) in
      let one =
        single-Permᴰ task (Permᴰ.trans (Permᴰ.symm (items-first_posted task p empty)) perm) in
      (
        left,
        none_left,
        λ ready env.
            one_round task ready p env
            ∙ pairs (message_round unset queue pipe ready (started task p) env)
            ∙ ran ready env
            ∙ ap
                (λ result.
                  result >>= λ env1. some (after_round unset queue pipe ready left posted, env1))
                (first_run order task p (fill_events ready posted.events) env none_there one),
      )
