-- ===== src/App/Threads.antt =====
-- Threads with a pump of their own.
use gitrpc.Prelude.{◌≡◌, ℕ, ap, ◌∙◌, none, List, String, elim_none, bind_none}
use gitrpc.Dispatch.{Dispatcher, find, unknown, post_task}
use gitrpc.Dispatch.Posting.{Addresses, classes, after_post, deliver}
use gitrpc.Dispatch.Task.{Task}
use gitrpc.Dispatch.Pump.{Pump, Pipe, priority_comparer}
use gitrpc.PriorityQueue.{PriorityQueue}
use gitrpc.App.{System, put_pump, get_shared_state, make_named_pump, thread_start, thread_main}

module _ {Args E : Type 0} (unset : ℕ → ℕ)
    (queue : PriorityQueue (Task Args E) (priority_comparer unset)) (pipe : Pipe)
    (a : Addresses) where
  open queue use {Heap}

  -- The dispatcher has nothing of this name.
  abbrev pub IsUnnamed : String → Dispatcher (classes a) → Type 0
  IsUnnamed name d =
      (find name d.named_dmps ≡ none)
      × (find name d.named_threads ≡ none)
      × (find name d.known_dmps ≡ none)

  posts_nowhere :
      (name : String) (d : Dispatcher (classes a))
      → IsUnnamed name d
      → post_task (classes a) name d ≡ unknown
  unfolding post_task
  posts_nowhere name d (no_runner, no_thread, no_pump) =
      elim_none (find name d.named_dmps) _ _ no_runner
      ∙ elim_none (find name d.named_threads) _ _ no_thread
      ∙ elim_none (find name d.known_dmps) _ _ no_pump

  -- Thread::Start leaves a name that the dispatcher does not know unknown: ThreadMain of the new thread follows a NULL
  -- pointer on its way to the loop of its pump, so that its Init never runs, and PostTask drops every
  -- task that is sent to it.
  pub thread_start-IsUnnamed :
      (name : String) (thread : ℕ) (pump : Pump Args E Heap pipe.Channel)
      (s : System unset queue pipe a)
      → IsUnnamed name s.dispatcher
      → ((thread_init : E → E) (reports : List (List ℕ)) (env : E)
          → thread_main unset queue pipe a name thread thread_init reports
              (thread_start unset queue pipe a thread pump s)
              env
            ≡ none)
        × ((task : Task Args E)
            → after_post unset queue pipe a name
                (thread_start unset queue pipe a thread pump s).dispatcher
                task
                (thread_start unset queue pipe a thread pump s).pumps
              ≡ (thread_start unset queue pipe a thread pump s).pumps)
  unfolding thread_start put_pump thread_main make_named_pump get_shared_state deliver
  thread_start-IsUnnamed name thread pump s (no_runner, no_thread, no_pump) =
      let started = thread_start unset queue pipe a thread pump s in
      (
        λ thread_init reports env. bind_none (find name s.dispatcher.named_threads) _ no_thread,
        λ task.
            ap (λ delivery. deliver unset queue pipe a delivery task started.pumps)
              (posts_nowhere name s.dispatcher (no_runner, no_thread, no_pump)),
      )
