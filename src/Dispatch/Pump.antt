-- ===== src/Dispatch/Pump.antt =====
-- base/platform/linux/dispatcher/MessagePumpEPoll.cpp: the queue of tasks of a thread and the loop that runs
-- them. A pump is what one thread owns. A task or a receiver
-- that posts to the pump which runs it is left out: the loop holds `queueGuard` then, and stops for
-- good. `none` is a call through a pointer that was never set.
pub mod Drain
pub mod Rounds
pub mod First
pub mod Wake
pub mod Samples
mod Tests
use gitrpc.Prelude.{
  ◌≡◌, ℕ, zero, suc, ◌+◌, ◌-◌, ◌==◌, Bool, true, false, ◌&&◌, Option, none, some, List, [], ◌∷◌,
  ◌++◌, if◌then◌else◌, ◌>>=◌, ltb, drop, length,
}
use gitrpc.Dispatch.Task.{Task, TaskPriority, high, normal, low, invoke}
use gitrpc.PriorityQueue.{PriorityQueue}

-- `(int)x.GetTaskPriority()`, less the least int. A member that was never set holds what its block of memory did,
-- any int for each block.
unfoldable pub priority_number : (ℕ → ℕ) → ℕ → Option TaskPriority → ℕ
priority_number unset block none = unset block
priority_number unset block (some high) = 2147483648
priority_number unset block (some normal) = 2147483649
priority_number unset block (some low) = 2147483650

-- Task::PriorityComparer.
abbrev pub priority_comparer : {Args Env : Type 0} → (ℕ → ℕ) → Task Args Env → Task Args Env → Bool
priority_comparer unset x y =
    ltb (priority_number unset y.block y.task_priority)
      (priority_number unset x.block x.task_priority)

-- MessageReceiver, with `recvFunc` a function on the state of the process.
pub record MessageReceiver (Env : Type 0) : Type 0 where
  pub filter : ℕ
  pub recv_func : Env → Env

-- The members of MessagePumpEPoll and of its base class, and `runInitTask` and the array `events` of the
-- loop. A file descriptor is a number; the entries of `events` that epoll_wait has not written are as the
-- stack had them, where a negative one is 0.
pub record Pump (Args Env Heap Channel : Type 0) : Type 0 where
  pub start_complete : Bool
  pub init_task : Option (Task Args Env)
  pub run_init_task : Bool
  pub handlers : List (MessageReceiver Env)
  pub events : List ℕ
  pub task_queue : Heap
  pub read_end : ℕ
  pub channel : Channel

module _ {Env : Type 0} where
  -- `handlers.find`, and the assignment by `[]`.
  unfoldable pub find_receiver : ℕ → List (MessageReceiver Env) → Option (MessageReceiver Env)
  find_receiver fd [] = none
  find_receiver fd (recv ∷ recvs) =
      let later = find_receiver fd recvs in if fd == recv.filter then some recv else later

  unfoldable pub assign_receiver :
      MessageReceiver Env → List (MessageReceiver Env) → List (MessageReceiver Env)
  assign_receiver recv [] = recv ∷ []
  assign_receiver recv (old ∷ recvs) =
      let rest = assign_receiver recv recvs in
      if recv.filter == old.filter then recv ∷ recvs else old ∷ rest

  -- The loop over the entries of `events`.
  unfoldable pub dispatch_events : List (MessageReceiver Env) → List ℕ → Env → Env
  dispatch_events handlers [] env = env
  dispatch_events handlers (fd ∷ fds) env = dispatch_events handlers fds (
      if ltb 0 fd
      then elim (find_receiver fd handlers) [ none ↦ env | some recv ↦ recv.recv_func env ]
      else env)

-- epoll_wait fills the first entries.
unfoldable pub fill_events : List ℕ → List ℕ → List ℕ
fill_events ready events = ready ++ drop (length ready) events

-- The pipe of a pump with the epoll descriptor that watches it, which the operating system keeps: the calls of the
-- pump, whether epoll_wait has an edge to report, and whether the pipe takes a byte. Under EPOLLET a byte
-- that is written makes an edge, a report takes it. What a write to a full pipe does, and how many bytes
-- have to be read before it takes one again, is left open.
pub record Pipe : Type 1 where
  pub Channel : Type 0
  pub write_byte : Channel → Channel
  pub read_byte : Channel → Channel
  pub report : Channel → Channel
  pub has_edge : Channel → Bool
  pub has_room : Channel → Bool
  pub edge-write_byte : (c : Channel) → has_room c ≡ true → has_edge (write_byte c) ≡ true

module _ {Args Env : Type 0} (unset : ℕ → ℕ)
    (queue : PriorityQueue (Task Args Env) (priority_comparer unset)) where
  open queue use {Heap, top, pop, size}

  -- A task that the loop takes from the queue.
  unfoldable pub run_task : Task Args Env → Env → Option Env
  run_task task env =
      if task.is_complete then some env else (invoke task env >>= λ (done, env1). some env1)

  -- The loop on the queue. The fuel that it is given is more than the tasks it holds.
  unfoldable pub drain_queue : ℕ → Heap → Env → Option (Heap × Env)
  drain_queue zero h env = none
  drain_queue (suc fuel) h env =
      if ltb 0 (size h)
      then (top h >>= λ task. run_task task env >>= λ env1. drain_queue fuel (pop h) env1)
      else some (h, env)

module _ {Args Env : Type 0} (unset : ℕ → ℕ)
    (queue : PriorityQueue (Task Args Env) (priority_comparer unset)) (pipe : Pipe) where
  open queue use {Heap, push, size}
  open pipe use {Channel, write_byte, read_byte, report}

  unfoldable pub locked_post_task_to_queue :
      Task Args Env → Pump Args Env Heap Channel → Pump Args Env Heap Channel
  locked_post_task_to_queue task p = record p { task_queue = push task p.task_queue }

  -- PostMessageToThread, of a loop that has started: the caller waits until it has.
  unfoldable pub post_message_to_thread :
      Task Args Env → Pump Args Env Heap Channel → Pump Args Env Heap Channel
  post_message_to_thread task p =
      let posted = locked_post_task_to_queue task p in
      record posted { channel = write_byte posted.channel }

  unfoldable pub post_init_task : Pump Args Env Heap Channel → Pump Args Env Heap Channel
  post_init_task p = elim p.init_task [
    | none ↦ p
    | some task ↦
        if p.run_init_task
        then post_message_to_thread task (record p { run_init_task = false })
        else p
  ]

  -- epoll_wait takes the edge of the pipe if it reports the pipe's descriptor.
  unfoldable pub take_report : ℕ → List ℕ → Channel → Channel
  take_report fd [] channel = channel
  take_report fd (x ∷ ready) channel =
      let later = take_report fd ready channel in if x == fd then report channel else later

  -- A round of the loop, with the descriptors that epoll_wait reports.
  unfoldable pub message_round :
      List ℕ → Pump Args Env Heap Channel → Env → Option (Pump Args Env Heap Channel × Env)
  message_round ready p env =
      let p1 = post_init_task p in
      let events = fill_events ready p1.events in
      let env1 = dispatch_events p1.handlers events env in
      drain_queue unset queue (suc (size p1.task_queue)) p1.task_queue env1 >>= λ (h, env2). some (
        record p1 {
          events = events;
          channel = read_byte (take_report p1.read_end ready p1.channel);
          task_queue = h;
        },
        env2,
      )

  -- The rounds that the loop makes on a sequence of reports, out of the ones that never end.
  unfoldable pub message_rounds :
      List (List ℕ) → Pump Args Env Heap Channel → Env → Option (Pump Args Env Heap Channel × Env)
  message_rounds [] p env = some (p, env)
  message_rounds (ready ∷ reports) p env =
      message_round ready p env >>= λ (p1, env1). message_rounds reports p1 env1

  unfoldable pub start_message_loop :
      List (List ℕ) → Pump Args Env Heap Channel → Env → Option (Pump Args Env Heap Channel × Env)
  start_message_loop reports p env =
      message_rounds reports (record p { start_complete = true; run_init_task = true }) env

  -- MakeMessagePump with a task, less the system calls that set up the pipe and the epoll descriptor.
  unfoldable pub make_message_pump :
      Task Args Env
      → List (List ℕ)
      → Pump Args Env Heap Channel
      → Env
      → Option (Pump Args Env Heap Channel × Env)
  make_message_pump init_task reports p env =
      start_message_loop reports (record p { init_task = some init_task }) env

  unfoldable pub register_message_filter :
      MessageReceiver Env → Pump Args Env Heap Channel → Pump Args Env Heap Channel
  register_message_filter recv p = record p { handlers = assign_receiver recv p.handlers }
