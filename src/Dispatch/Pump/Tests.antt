-- ===== src/Dispatch/Pump/Tests.antt =====
-- A pump whose tasks write down their numbers.
use mathlib.Core.List.{Permᴰ}
use gitrpc.Prelude.{
  Bool, true, ◌+◌, ◌≢◌, ℕ, ◌≡◌, refl, false, none, some, List, [], ◌∷◌, ◌++◌, ◌>>=◌,
}
use gitrpc.Dispatch.Task.{Task, TaskPriority, no_return, high, low, create, bind, invoke, invoked}
use gitrpc.Dispatch.Pump.{
  Pump, run_task, priority_number, priority_comparer, find_receiver, dispatch_events, fill_events,
  locked_post_task_to_queue, post_message_to_thread, run_task, drain_queue, post_init_task,
  message_round, message_rounds, start_message_loop, make_message_pump,
}
use gitrpc.Dispatch.Pump.Samples.{bytes}
use gitrpc.Dispatch.Pump.Wake.{Wakeup, waiting, post, start, next, IsAwake, Reachable-IsAwake}
use gitrpc.Dispatch.{Dispatcher, empty_dispatcher, post_task, find}
use gitrpc.Dispatch.Pump.Rounds.{RunsAll}
use gitrpc.Dispatch.Posting.{Addresses, classes, after_post, post_task-message_round}
use gitrpc.PriorityQueue.{PriorityQueue}
use gitrpc.PriorityQueue.Sorted.{sorted}

abbrev Job : Type 0
Job = Task ℕ (List ℕ)

abbrev note : ℕ → TaskPriority → Job
note n priority = create n (no_return (λ env. env ++ n ∷ [])) priority

-- What memory holds that nothing has set.
abbrev held : ℕ → ℕ
held place = 0

abbrev jobs : PriorityQueue Job (priority_comparer held)
jobs = sorted (λ t. priority_number held t.block t.task_priority)

abbrev idle : Pump ℕ (List ℕ) (List Job) (ℕ × Bool)
idle = record {
  start_complete = false;
  init_task = none;
  run_init_task = false;
  handlers = record { filter = 7; recv_func = λ env. env ++ 100 ∷ [] } ∷ [];
  events = 0 ∷ 0 ∷ 0 ∷ 0 ∷ [];
  task_queue = [];
  read_end = 3;
  channel = (0, false);
}

-- The init task and two others; the second report has no descriptor of the receiver, and calls it again.
make_message_pump_test :
    (make_message_pump held jobs bytes
        (note 1 low)
        ((3 ∷ 7 ∷ []) ∷ (3 ∷ []) ∷ [])
        (post_message_to_thread held jobs bytes
          (note 3 high)
          (post_message_to_thread held jobs bytes (note 2 low) idle))
        []
      >>= λ (p, env). some env)
    ≡ some (100 ∷ 3 ∷ 1 ∷ 2 ∷ 100 ∷ [])
unfolding make_message_pump start_message_loop message_rounds message_round post_init_task
    drain_queue run_task post_message_to_thread locked_post_task_to_queue fill_events
    dispatch_events find_receiver priority_number create bind invoke invoked
make_message_pump_test = refl

abbrev two_jobs : List Job
two_jobs = note 2 low ∷ note 3 high ∷ []

abbrev quiet : Wakeup held jobs bytes
quiet = record { pump = idle; writers = 0; phase = waiting; has_failed = false }

Reachable-IsAwake_example : IsAwake held jobs bytes (record quiet {
  pump = locked_post_task_to_queue held jobs bytes (note 1 low) idle;
  writers = 1;
})
Reachable-IsAwake_example =
    Reachable-IsAwake held jobs bytes _
      (next quiet _ (start quiet refl refl refl) (post (note 1 low) quiet))

-- A registry with one task runner, "Main", whose pump is at the address 5.
abbrev addresses : Addresses
addresses = record { runner_dmp = λ r. r + 4; thread_dmp = λ t. t; ids = λ x. x }

abbrev registry : Dispatcher (classes addresses)
registry = record (empty_dispatcher (classes addresses)) { named_dmps = ("Main", 1) ∷ [] }

abbrev pumps : ℕ → Pump ℕ (List ℕ) (List Job) (ℕ × Bool)
pumps address = record idle { start_complete = true }

post_task-message_round_example :
    Permᴰ
      (after_post held jobs bytes addresses "Main" registry (note 1 low) pumps 5).task_queue
      (note 1 low ∷ [])
    × ((other : ℕ)
        → other ≢ 5
        → after_post held jobs bytes addresses "Main" registry (note 1 low) pumps other
          ≡ pumps other)
    × RunsAll held jobs bytes
        (after_post held jobs bytes addresses "Main" registry (note 1 low) pumps 5)
unfolding post_task find
post_task-message_round_example =
    post_task-message_round held jobs bytes addresses registry "Main" (note 1 low) pumps 5 refl refl
