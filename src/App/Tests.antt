-- ===== src/App/Tests.antt =====
-- The start of the program on a small disk.
use gitrpc.Prelude.{ℕ, ◌+◌, ◌≡◌, ◌≢◌, refl, Bool, false, none, some, List, [], ◌∷◌, arith}
use gitrpc.Dispatch.{empty_dispatcher, find}
use gitrpc.Dispatch.Posting.{Addresses, classes, after_post}
use gitrpc.Dispatch.Task.{Task}
use gitrpc.Dispatch.Pump.{Pump, priority_number, priority_comparer}
use gitrpc.Dispatch.Pump.Samples.{bytes}
use gitrpc.PriorityQueue.{PriorityQueue}
use gitrpc.PriorityQueue.Sorted.{sorted}
use gitrpc.Git.Samples.{disk}
use gitrpc.Git.Manager.{init, open_request, close_request, append_request}
use gitrpc.Git.Proxy.{Args, Process, Env}
use gitrpc.Git.Proxy.Tasks.{Call, history}
use gitrpc.Git.Proxy.Round.{Pumps}
use gitrpc.Git.Proxy.Life.{Batch, AreBatched, life}
use gitrpc.App.{System, manager_init, thread_start, thread_main}
use gitrpc.App.Server.{main_pump, program_start, init_app_base-history}
use gitrpc.App.Threads.{thread_start-IsUnnamed}

abbrev Job : Type 0
Job = Task Args (Env disk)

-- What memory holds that nothing has set.
abbrev held : ℕ → ℕ
held place = 0

abbrev jobs : PriorityQueue Job (priority_comparer held)
jobs = sorted (λ t. priority_number held t.block t.task_priority)

-- A runner at the address 1 has its pump at the address 5.
abbrev addresses : Addresses
addresses = record { runner_dmp = λ r. r + 4; thread_dmp = λ t. t; ids = λ x. x }

abbrev Main : Type 0
Main = Pump Args (Env disk) (List Job) (ℕ × Bool)

abbrev first_pump : Main
first_pump = main_pump disk held jobs bytes addresses (0 ∷ 0 ∷ 0 ∷ 0 ∷ []) 3 (0, false)

abbrev nothing_named : System held jobs bytes addresses
nothing_named = record {
  dispatcher = empty_dispatcher (classes addresses);
  pumps = λ address. first_pump;
}

abbrev new_process : Process disk
new_process = record {
  freed = λ promise name. name;
  repository = (init disk, (false, []));
  results = λ promise. none;
}

-- An open, and then an append while a close is waiting.
abbrev batches : List Batch
batches =
    ((open_request "a", 0) ∷ [], 3 ∷ [])
    ∷ ((append_request (1 ∷ []), 1) ∷ (close_request, 2) ∷ [], 3 ∷ [])
    ∷ []

differ : ◌≢◌ {A = ℕ} 1 0 × ◌≢◌ {A = ℕ} 2 0 × ◌≢◌ {A = ℕ} 2 1
differ = ((λ e. omega arith), (λ e. omega arith), (λ e. omega arith))

init_app_base-history_example :
    (s1 : System held jobs bytes addresses) × (order : List Call) × (after : Pumps disk held jobs
      bytes addresses s1.dispatcher)
    × AreBatched disk held jobs bytes addresses s1.dispatcher batches order
    × ((after 5).task_queue ≡ [])
    × (program_start disk held jobs bytes addresses 1 first_pump (3 ∷ []) nothing_named new_process
        ≡ some (s1, some (manager_init disk new_process)))
    × (life disk held jobs bytes addresses s1.dispatcher 5 batches s1.pumps
          (some (manager_init disk new_process))
        ≡ some (after, history disk order (manager_init disk new_process)))
unfolding find
init_app_base-history_example =
    init_app_base-history disk held jobs bytes addresses 1 (0 ∷ 0 ∷ 0 ∷ 0 ∷ []) 3 (0, false)
      (3 ∷ []) nothing_named batches new_process refl
      (((differ.0, (differ.1, tt)), ((differ.2, tt), (tt, tt))), (refl, (refl, (refl, tt))))

thread_start-IsUnnamed_example :
    ((thread_init : Env disk → Env disk) (reports : List (List ℕ)) (env : Env disk)
      → thread_main held jobs bytes addresses "MetricsSender" 9 thread_init reports
          (thread_start held jobs bytes addresses 9 first_pump nothing_named)
          env
        ≡ none)
    × ((task : Job)
        → after_post held jobs bytes addresses "MetricsSender"
            (thread_start held jobs bytes addresses 9 first_pump nothing_named).dispatcher
            task
            (thread_start held jobs bytes addresses 9 first_pump nothing_named).pumps
          ≡ (thread_start held jobs bytes addresses 9 first_pump nothing_named).pumps)
unfolding find
thread_start-IsUnnamed_example =
    thread_start-IsUnnamed held jobs bytes addresses "MetricsSender" 9 first_pump nothing_named
      (refl, refl, refl)
