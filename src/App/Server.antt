-- ===== src/App/Server.antt =====
-- From the start of the program to the calls that the handlers make of the repository.
use gitrpc.Prelude.{
  ℕ, ==_iff, ◌≡◌, refl, sym, ap, subst, ◌∙◌, true, Option, none, some, List, [], ◌∷◌, String, ◌>>=◌,
  elim_none, elim_some,
}
use gitrpc.Dispatch.{Dispatcher, run_task as to_runner, find, add_task_runner, post_task}
use gitrpc.Dispatch.Posting.{Addresses, classes, target}
use gitrpc.Dispatch.Task.{Task, create, bind, invoke, invoked}
use gitrpc.Dispatch.Pump.{
  Pump, Pipe, priority_comparer, run_task, make_message_pump, post_message_to_thread,
  locked_post_task_to_queue,
}
use gitrpc.Dispatch.Pump.Rounds.{after_round}
use gitrpc.Dispatch.Pump.First.{first_posted, make_message_pump-first}
use gitrpc.PriorityQueue.{PriorityQueue}
use gitrpc.Git.Library.{Libgit2}
use gitrpc.Git.Proxy.{Args, Process, Env, new_task0, ranked_task0}
use gitrpc.Git.Proxy.Tasks.{Call, IsFresh, history}
use gitrpc.Git.Proxy.Round.{IsMain, Pumps}
use gitrpc.Git.Proxy.Life.{AreReady, Batch, all_calls, AreBatched, life, life-history}
use gitrpc.App.{
  System, new_pump, put_pump, task_runner_init, get_shared_state, make_named_pump,
  task_runner_start, init_app_base, manager_init, create_grpc_server, app_main,
  task_runner_init_complete,
}

-- A name that has no runner yet gets this one.
find-add_task_runner :
    (a : Addresses) (runner : ℕ) (d : Dispatcher (classes a))
    → find "Main" d.named_dmps ≡ none
    → find "Main" (add_task_runner (classes a) "Main" runner d).named_dmps ≡ some runner
unfolding add_task_runner find
find-add_task_runner a runner d e =
    ap (λ (x : Dispatcher (classes a)). find "Main" x.named_dmps)
      (elim_none (find "Main" d.named_dmps) _ (λ old. d) e)

module _ {Args_ E : Type 0} (unset : ℕ → ℕ)
    (queue : PriorityQueue (Task Args_ E) (priority_comparer unset)) (pipe : Pipe)
    (a : Addresses) where
  open queue use {Heap, items}

  target_named :
      (name : String) (runner : ℕ) (d : Dispatcher (classes a))
      → find name d.named_dmps ≡ some runner
      → target unset queue pipe a (post_task (classes a) name d) ≡ some (a.runner_dmp runner)
  unfolding post_task
  target_named name runner d e =
      ap (target unset queue pipe a)
        (elim_some (find name d.named_dmps) _ (λ r. to_runner r) runner e)

  run_task-new_task0 :
      (block : ℕ) (f : E → E) (env : E)
      → run_task unset queue (new_task0 block f) env ≡ some (f env)
  unfolding run_task invoke invoked new_task0 ranked_task0 create bind
  run_task-new_task0 block f env = refl

  at_address :
      (dmp : ℕ) (pump : Pump Args_ E Heap pipe.Channel) (s : System unset queue pipe a)
      → (put_pump unset queue pipe a dmp pump s).pumps dmp ≡ pump
  unfolding put_pump
  at_address dmp pump s = rw ((==_iff dmp dmp).1 refl) refl

  -- The pump after its first round, and the system with it.
  abbrev pub first_system :
      ℕ
      → Pump Args_ E Heap pipe.Channel
      → List ℕ
      → Heap
      → (E → E)
      → System unset queue pipe a
      → System unset queue pipe a
  first_system runner pump ready left f s =
      put_pump unset queue pipe a (a.runner_dmp runner)
        (after_round unset queue pipe ready left
          (first_posted unset queue pipe (new_task0 0 f) pump))
        (task_runner_init unset queue pipe a "Main" runner pump s)

  init_app_base-first :
      (f : E → E) (runner : ℕ) (pump : Pump Args_ E Heap pipe.Channel)
      (s : System unset queue pipe a)
      → find "Main" s.dispatcher.named_dmps ≡ none
      → items pump.task_queue ≡ []
      → pump.handlers ≡ []
      → (left : Heap) × (items left ≡ [])
        × ((ready : List ℕ) (env : E)
            → init_app_base unset queue pipe a f runner pump (ready ∷ []) s env
              ≡ some (first_system runner pump ready left f s, f env))
  unfolding init_app_base task_runner_start make_named_pump get_shared_state task_runner_init
      put_pump
  init_app_base-first f runner pump s new_name empty none_there =
      let (left, none_left, ran) =
        make_message_pump-first unset queue pipe (new_task0 0 f) pump empty none_there in
      let dmp = a.runner_dmp runner in
      let s1 = task_runner_init unset queue pipe a "Main" runner pump s in
      let next : List ℕ → Pump Args_ E Heap pipe.Channel = λ ready.
        after_round unset queue pipe ready left
          (first_posted unset queue pipe (new_task0 0 f) pump) in
      let made : Option (Pump Args_ E Heap pipe.Channel × E)
          → Option (System unset queue pipe a × E) =
        λ r. r >>= λ (p, env1). some (put_pump unset queue pipe a dmp p s1, env1) in
      (
        left,
        none_left,
        λ ready env.
            ap
              (λ (owner : Option ℕ). owner >>= λ o. made (
                make_message_pump unset queue pipe (new_task0 0 f) (ready ∷ []) (s1.pumps dmp) env))
              (find-add_task_runner a runner s.dispatcher new_name)
            ∙ ap (λ p. made (make_message_pump unset queue pipe (new_task0 0 f) (ready ∷ []) p env))
                (at_address dmp pump s)
            ∙ ap made (ran ready env)
            ∙ ap (λ r. made (r >>= λ env1. some (next ready, env1))) (run_task-new_task0 0 f env),
      )

module _ (git : Libgit2) (unset : ℕ → ℕ)
    (queue : PriorityQueue (Task Args (Env git)) (priority_comparer unset)) (pipe : Pipe)
    (a : Addresses) where
  open queue use {Heap, items}

  -- A pump that InitAppBase makes, and that nobody has registered a receiver of messages for.
  abbrev pub main_pump : List ℕ → ℕ → pipe.Channel → Pump Args (Env git) Heap pipe.Channel
  main_pump events read_end channel = new_pump unset queue pipe [] events read_end channel

  -- The program starts, CreateUnixSocket succeeds.
  abbrev pub program_start :
      ℕ
      → Pump Args (Env git) Heap pipe.Channel
      → List ℕ
      → System unset queue pipe a
      → Process git
      → Option (System unset queue pipe a × Env git)
  program_start runner pump ready s process =
      init_app_base unset queue pipe a (task_runner_init_complete git true) runner pump (ready ∷ [])
        s (some process)

  first-IsMain :
      (runner : ℕ) (events : List ℕ) (read_end : ℕ) (channel : pipe.Channel) (ready : List ℕ)
      (left : Heap) (f : Env git → Env git) (s : System unset queue pipe a)
      → find "Main" s.dispatcher.named_dmps ≡ none
      → IsMain git unset queue pipe a
          (first_system unset queue pipe a runner
            (main_pump events read_end channel)
            ready
            left
            f
            s).dispatcher
          (a.runner_dmp runner)
          (after_round unset queue pipe ready left
            (first_posted unset queue pipe (new_task0 0 f) (main_pump events read_end channel)))
  unfolding put_pump task_runner_init post_message_to_thread locked_post_task_to_queue new_pump
  first-IsMain runner events read_end channel ready left f s new_name = record {
    is_target =
        target_named unset queue pipe a "Main" runner
          (add_task_runner (classes a) "Main" runner s.dispatcher)
          (find-add_task_runner a runner s.dispatcher new_name);
    is_started = refl;
    has_no_handlers = refl;
  }

  runs_main :
      (process : Process git)
      → task_runner_init_complete git true (some process) ≡ some (manager_init git process)
  unfolding task_runner_init_complete app_main create_grpc_server
  runs_main process = refl

  nothing_queued :
      (events : List ℕ) (read_end : ℕ) (channel : pipe.Channel)
      → items (main_pump events read_end channel).task_queue ≡ []
  unfolding new_pump
  nothing_queued events read_end channel = queue.items-empty

  no_receivers :
      (events : List ℕ) (read_end : ℕ) (channel : pipe.Channel)
      → (main_pump events read_end channel).handlers ≡ []
  unfolding new_pump
  no_receivers events read_end channel = refl

  -- The program has started, and the pump of "Main" is ready for calls of the proxy.
  pub program_start-AreReady :
      (runner : ℕ) (events : List ℕ) (read_end : ℕ) (channel : pipe.Channel) (ready : List ℕ)
      (s : System unset queue pipe a) (process : Process git)
      → find "Main" s.dispatcher.named_dmps ≡ none
      → (s1 : System unset queue pipe a) × (program_start runner
            (main_pump events read_end channel)
            ready
            s
            process
          ≡ some (s1, some (manager_init git process)))
        × AreReady git unset queue pipe a s1.dispatcher (a.runner_dmp runner) s1.pumps
  program_start-AreReady runner events read_end channel ready s process new_name =
      let pump = main_pump events read_end channel in
      let f = task_runner_init_complete git true in
      let (left, none_left, started) =
        init_app_base-first unset queue pipe a f runner pump s new_name
          (nothing_queued events read_end channel) (no_receivers events read_end channel) in
      let s1 = first_system unset queue pipe a runner pump ready left f s in
      let at_main =
        at_address unset queue pipe a (a.runner_dmp runner)
          (after_round unset queue pipe ready left
            (first_posted unset queue pipe (new_task0 0 f) pump))
          (task_runner_init unset queue pipe a "Main" runner pump s) in
      (
        s1,
        started ready (some process) ∙ ap (λ env. some (s1, env)) (runs_main process),
        (
          subst (IsMain git unset queue pipe a s1.dispatcher (a.runner_dmp runner)) (sym at_main)
              (first-IsMain runner events read_end channel ready left f s new_name),
          ap (λ (p : Pump Args (Env git) Heap pipe.Channel). items p.task_queue) at_main
              ∙ none_left,
        ),
      )

  -- The program, from its start and for its whole life. Where no runner is named "Main" yet, CreateUnixSocket succeeds and
  -- nobody registers receivers of messages, InitAppBase makes the runner, and the first round of its
  -- pump runs AppImpl::Main, which leaves the manager without a repository. Before each later round the threads
  -- of the process make any calls of the proxy, with promises that are new: every round comes to its end, and
  -- together they take the manager through the requests, each one once, those of one round before
  -- those of the next and each round's in some order that keeps to the priorities of the tasks; the
  -- promise of each call but a close is set to the reply to its request. The request of an open names the text that
  -- its task finds at the freed place of the name, which may be any text; a priority that Bind leaves
  -- unset may be any for each task. The process has stopped if and only if the manager does in that
  -- history.
  pub init_app_base-history :
      (runner : ℕ) (events : List ℕ) (read_end : ℕ) (channel : pipe.Channel) (ready : List ℕ)
      (s : System unset queue pipe a) (batches : List Batch) (process : Process git)
      → find "Main" s.dispatcher.named_dmps ≡ none
      → IsFresh (all_calls batches) process.results
      → (s1 : System unset queue pipe a) × (order : List Call) × (after : Pumps git unset queue pipe
          a s1.dispatcher)
        × AreBatched git unset queue pipe a s1.dispatcher batches order
        × (items (after (a.runner_dmp runner)).task_queue ≡ [])
        × (program_start runner (main_pump events read_end channel) ready s process
            ≡ some (s1, some (manager_init git process)))
        × (life git unset queue pipe a s1.dispatcher
              (a.runner_dmp runner)
              batches
              s1.pumps
              (some (manager_init git process))
            ≡ some (after, history git order (manager_init git process)))
  unfolding manager_init
  init_app_base-history runner events read_end channel ready s batches process new_name fresh =
      let (s1, started, (main, none_queued)) =
        program_start-AreReady runner events read_end channel ready s process new_name in
      let (order, after, batched, empty, lived) =
        life-history git unset queue pipe a s1.dispatcher (a.runner_dmp runner) batches s1.pumps
          (manager_init git process) main none_queued fresh in
      (s1, order, after, batched, empty, started, lived)
