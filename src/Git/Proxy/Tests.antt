-- ===== src/Git/Proxy/Tests.antt =====
-- Calls of the proxy on a small disk.
use mathlib.Core.List.{Permᴰ}
use gitrpc.Prelude.{
  ℕ, ◌+◌, ◌<◌, ◌≡◌, ◌≢◌, refl, Bool, true, false, none, some, List, [], ◌∷◌, ◌>>=◌, arith,
}
use gitrpc.Dispatch.{Dispatcher, empty_dispatcher, post_task, find}
use gitrpc.Dispatch.Posting.{Addresses, classes}
use gitrpc.Dispatch.Task.{Task}
use gitrpc.Dispatch.Pump.{Pump, priority_number, priority_comparer, message_round}
use gitrpc.Dispatch.Pump.Samples.{bytes}
use gitrpc.PriorityQueue.{PriorityQueue}
use gitrpc.PriorityQueue.Sorted.{sorted}
use gitrpc.Git.Samples.{disk}
use gitrpc.Git.Requests.Answers.{proxy}
use gitrpc.Git.Manager.{init, open_request, close_request, append_request, commit_request, handle}
use gitrpc.Git.Proxy.{Args, Process, Env}
use gitrpc.Dispatch.Pump.{run_task}
use gitrpc.Git.Proxy.Tasks.{run_task-serve, serve, task_of, Call, IsFresh, history}
use gitrpc.Git.Proxy.Round.{Pumps, IsMain, post_call, post_calls}
use gitrpc.Git.Proxy.Future.{kept, settled, asked, post_call-proxy}
use gitrpc.Git.Proxy.Order.{low_number, AreSorted}
use gitrpc.Git.Proxy.Race.{Ends, IsLost, first_reply, post_calls-AreSorted, post_calls-IsLost}

abbrev pub Job : Type 0
Job = Task Args (Env disk)

-- What memory holds that nothing has set.
abbrev pub held : ℕ → ℕ
held place = 0

abbrev pub jobs : PriorityQueue Job (priority_comparer held)
jobs = sorted (λ t. priority_number held t.block t.task_priority)

-- The runner "Main", at the address 1, with its pump at the address 5.
abbrev pub addresses : Addresses
addresses = record { runner_dmp = λ r. r + 4; thread_dmp = λ t. t; ids = λ x. x }

abbrev pub registry : Dispatcher (classes addresses)
registry = record (empty_dispatcher (classes addresses)) { named_dmps = ("Main", 1) ∷ [] }

abbrev pub Pumps_ : Type 0
Pumps_ = Pumps disk held jobs bytes addresses registry

abbrev pub pumps : Pumps_
pumps address = record {
  start_complete = true;
  init_task = none;
  run_init_task = false;
  handlers = [];
  events = 0 ∷ 0 ∷ 0 ∷ 0 ∷ [];
  task_queue = [];
  read_end = 3;
  channel = (0, false);
}

-- The place of every name holds another one when the task reads it.
abbrev pub new_process : Process disk
new_process = record {
  repository = (init disk, (false, []));
  freed = λ promise name. "b";
  results = λ promise. none;
}

pub pumps-IsMain : IsMain disk held jobs bytes addresses registry 5 (pumps 5)
unfolding post_task find
pumps-IsMain = record { is_target = refl; is_started = refl; has_no_handlers = refl }

abbrev calls : List Call
calls = (commit_request, 2) ∷ (append_request (1 ∷ []), 1) ∷ (open_request "a", 0) ∷ []

abbrev Main : Type 0
Main = Pump Args (Env disk) (List Job) (ℕ × Bool)

post_call-proxy_example :
    (next : Main) × (env : Env disk) × (next.task_queue ≡ [])
    × (message_round held jobs bytes
          (3 ∷ [])
          (post_call disk held jobs bytes addresses registry (open_request "a", 7) pumps 5)
          (some new_process)
        ≡ some (next, env))
    × (settled disk (open_request "a", 7) env ≡ (
        handle disk (open_request "b") new_process.repository >>= λ (reply, s).
        some (kept disk (open_request "a", 7) reply, s)))
    × (asked disk (open_request "a", 7) env ≡ proxy disk (open_request "b") new_process.repository)
post_call-proxy_example =
    post_call-proxy disk held jobs bytes addresses registry (open_request "a", 7) pumps 5 (3 ∷ [])
      new_process pumps-IsMain refl refl

post_calls-AreSorted_example :
    (order : List Call) × Permᴰ ((open_request "a", 1) ∷ (close_request, 0) ∷ []) order
    × AreSorted held order
    × ((ready : List ℕ) (process : Process disk)
        → IsFresh ((open_request "a", 1) ∷ (close_request, 0) ∷ []) process.results
        → (next : Main) × (message_round held jobs bytes ready
              (post_calls disk held jobs bytes addresses registry
                ((open_request "a", 1) ∷ (close_request, 0) ∷ [])
                pumps
                5)
              (some process)
            ≡ some (next, history disk order process)))
post_calls-AreSorted_example =
    post_calls-AreSorted disk held jobs bytes addresses registry
      ((open_request "a", 1) ∷ (close_request, 0) ∷ []) pumps 5 pumps-IsMain refl

ne_0_1 : ◌≢◌ {A = ℕ} 0 1
ne_0_1 e = omega arith

zero_small : 0 < low_number
zero_small = omega arith

post_calls-IsLost_example :
    (next : Main) × (env : Env disk) × (message_round held jobs bytes
        (3 ∷ [])
        (post_calls disk held jobs bytes addresses registry
          ((open_request "a", 1) ∷ (close_request, 0) ∷ [])
          pumps
          5)
        (some new_process)
      ≡ some (next, env))
    × Ends disk
        (IsLost disk 1 (first_reply disk (handle disk (open_request "b") new_process.repository)))
        env
post_calls-IsLost_example =
    post_calls-IsLost disk held jobs bytes addresses registry "a" 1 0 pumps 5 (3 ∷ []) new_process
      zero_small pumps-IsMain refl (((ne_0_1, tt), (tt, tt)), (refl, (refl, tt)))

run_task-serve_example :
    run_task held jobs (task_of disk held jobs (commit_request, 4)) (some new_process)
    ≡ some (some new_process >>= serve disk (commit_request, 4))
run_task-serve_example = run_task-serve disk held jobs (commit_request, 4) (some new_process)
