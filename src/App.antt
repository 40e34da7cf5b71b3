-- ===== src/App.antt =====
-- The start of the program on Linux: App.h and AppImpl.cpp of src/app, src/base/app/app_base.cpp, TaskRunner::Init and
-- Start of src/base/threading/TaskRunner.cpp, Thread::Start and ThreadMain of Thread.cpp, MakeMessagePump and
-- GetSharedState of MessagePumpEPoll.cpp, RepositoryManager::Init, and CreateGRPCServer of
-- src/common/GRPC.cpp. Objects are addresses, and `addresses` has the members that Init stores in a runner
-- and Start in a thread. The calls of the system that set up a pipe succeed.
pub mod Server
pub mod Threads
mod Tests
use gitrpc.Prelude.{
  ℕ, ◌==◌, Bool, true, false, Option, none, some, List, [], ◌∷◌, String, if◌then◌else◌, ◌>>=◌,
}
use gitrpc.Dispatch.{Dispatcher, find, add_task_runner}
use gitrpc.Dispatch.Posting.{Addresses, classes}
use gitrpc.Dispatch.Task.{Task}
use gitrpc.Dispatch.Pump.{Pump, Pipe, MessageReceiver, priority_comparer, make_message_pump}
use gitrpc.PriorityQueue.{PriorityQueue}
use gitrpc.Git.Library.{Libgit2}
use gitrpc.Git.Manager.{init}
use gitrpc.Git.Proxy.{Process, Env, new_task0}

module _ {Args E : Type 0} (unset : ℕ → ℕ)
    (queue : PriorityQueue (Task Args E) (priority_comparer unset)) (pipe : Pipe) where
  open queue use {Heap}

  -- A new MessagePumpEPoll. The descriptor and the pipe are those that MakeMessagePump stores in it, `events` is as the
  -- stack has it, and `handlers` is the static map of all pumps.
  unfoldable pub new_pump :
      List (MessageReceiver E) → List ℕ → ℕ → pipe.Channel → Pump Args E Heap pipe.Channel
  new_pump handlers events read_end channel = record {
    start_complete = false;
    init_task = none;
    run_init_task = false;
    handlers = handlers;
    events = events;
    task_queue = queue.empty;
    read_end = read_end;
    channel = channel;
  }

  -- What the process has of pumps and names.
  pub record System (a : Addresses) : Type 0 where
    pub dispatcher : Dispatcher (classes a)
    pub pumps : ℕ → Pump Args E Heap pipe.Channel

  -- A pump that a `new` puts at an address.
  unfoldable pub put_pump :
      (a : Addresses) → ℕ → Pump Args E Heap pipe.Channel → System a → System a
  put_pump a dmp pump s = record s {
    pumps = λ address. if address == dmp then pump else s.pumps address;
  }

  -- TaskRunner::Init, with the pump that it makes.
  unfoldable pub task_runner_init :
      (a : Addresses) → String → ℕ → Pump Args E Heap pipe.Channel → System a → System a
  task_runner_init a name runner pump s =
      let s1 = put_pump a (a.runner_dmp runner) pump s in
      record s1 { dispatcher = add_task_runner (classes a) name runner s1.dispatcher }

  -- GetSharedState: the runner or the thread that the state is taken from, `none` where the name has none and
  -- the code follows a NULL pointer.
  unfoldable pub get_shared_state :
      (a : Addresses) → Bool → String → Dispatcher (classes a) → Option ℕ
  get_shared_state a is_task_runner name d =
      if is_task_runner then find name d.named_dmps else find name d.named_threads

  -- MakeMessagePump of the pump with this name, up to the end of a sequence of rounds.
  unfoldable pub make_named_pump :
      (a : Addresses)
      → Bool
      → String
      → ℕ
      → Task Args E
      → List (List ℕ)
      → System a
      → E
      → Option (System a × E)
  make_named_pump a is_task_runner name dmp init_task reports s env =
      get_shared_state a is_task_runner name s.dispatcher >>= λ owner.
      make_message_pump unset queue pipe init_task reports (s.pumps dmp) env >>= λ (pump, env1).
      some (put_pump a dmp pump s, env1)

  -- TaskRunner::Start.
  unfoldable pub task_runner_start :
      (a : Addresses)
      → String
      → ℕ
      → Task Args E
      → List (List ℕ)
      → System a
      → E
      → Option (System a × E)
  task_runner_start a name runner init_task reports s env =
      make_named_pump a true name (a.runner_dmp runner) init_task reports s env

  -- AppBase::InitAppBase, with TaskRunnerInitComplete as a parameter. The priority of the task is set, so the block of
  -- memory that it gets is any.
  unfoldable pub init_app_base :
      (a : Addresses)
      → (E → E)
      → ℕ
      → Pump Args E Heap pipe.Channel
      → List (List ℕ)
      → System a
      → E
      → Option (System a × E)
  init_app_base a task_runner_init_complete runner pump reports s env =
      let init_task = new_task0 0 task_runner_init_complete in
      task_runner_start a "Main" runner init_task reports (task_runner_init a "Main" runner pump s)
        env

  -- Thread::Start, with the pump that it makes, and ThreadMain.
  unfoldable pub thread_start :
      (a : Addresses) → ℕ → Pump Args E Heap pipe.Channel → System a → System a
  thread_start a thread pump s = put_pump a (a.thread_dmp thread) pump s

  unfoldable pub thread_main :
      (a : Addresses) → String → ℕ → (E → E) → List (List ℕ) → System a → E → Option (System a × E)
  thread_main a name thread thread_init reports s env =
      make_named_pump a false name (a.thread_dmp thread) (new_task0 0 thread_init) reports s env

module _ (git : Libgit2) where
  -- RepositoryManager::Init; the disk is as git_libgit2_init leaves it.
  unfoldable pub manager_init : Process git → Process git
  manager_init p = record p { repository = (init git, p.repository.1) }

  -- CreateGRPCServer, which exits if the socket is not made. The thread of the server is left out.
  unfoldable pub create_grpc_server : Bool → Process git → Env git
  create_grpc_server create_unix_socket p = if create_unix_socket then some p else none

  -- AppImpl::Main.
  unfoldable pub app_main : Bool → Process git → Env git
  app_main create_unix_socket p = create_grpc_server create_unix_socket (manager_init p)

  -- App::Impl::TaskRunnerInitComplete, whose `appFunc` is AppImpl::Main.
  unfoldable pub task_runner_init_complete : Bool → Env git → Env git
  task_runner_init_complete create_unix_socket env = env >>= app_main create_unix_socket
