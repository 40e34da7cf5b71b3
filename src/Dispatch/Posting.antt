-- ===== src/Dispatch/Posting.antt =====
-- The way of a task from Dispatcher::PostTask to the pump of its receiver: TaskRunner::RunTask and
-- Thread::PostTask of src/base/threading/TaskRunner.cpp and Thread.cpp. A pump, a task runner and a thread are
-- their addresses; `dmp` is the address of a pump, and the pumps are what stands at each address.
use mathlib.Core.List.{Permᴰ}
use gitrpc.Prelude.{
  ℕ, ◌==◌, ==_iff, ◌≡◌, ◌≢◌, refl, sym, ap, subst, ◌∙◌, false, Option, none, some, ◌∷◌, String,
  if◌then◌else◌, arith,
}
use gitrpc.Dispatch.{
  Classes, Dispatcher, Delivery, run_task, post_to_thread, post_message, unknown, post_task,
}
use gitrpc.Dispatch.Task.{Task}
use gitrpc.Dispatch.Pump.{
  Pump, Pipe, priority_comparer, locked_post_task_to_queue, post_message_to_thread,
}
use gitrpc.Dispatch.Pump.Rounds.{RunsAll, message_round-RunsAll}
use gitrpc.PriorityQueue.{PriorityQueue}

-- The objects, by their addresses, and the member `dmp` of a task runner and of a thread.
pub record Addresses : Type 0 where
  pub runner_dmp : ℕ → ℕ
  pub thread_dmp : ℕ → ℕ
  pub ids : ℕ → ℕ

abbrev pub classes : Addresses → Classes
classes a = record { Pump = ℕ; Runner = ℕ; Thread = ℕ; runner_id = a.ids; thread_id = a.ids }

module _ {Args Env : Type 0} (unset : ℕ → ℕ)
    (queue : PriorityQueue (Task Args Env) (priority_comparer unset)) (pipe : Pipe) where
  open queue use {Heap, items, push, size}

  abbrev pub Pumps : Type 0
  Pumps = ℕ → Pump Args Env Heap pipe.Channel

  unfoldable pub post_to_pump : ℕ → Task Args Env → Pumps → Pumps
  post_to_pump dmp task pumps address =
      if address == dmp
      then post_message_to_thread unset queue pipe task (pumps address)
      else pumps address

  -- TaskRunner::RunTask.
  unfoldable pub runner_run_task : Addresses → ℕ → Task Args Env → Pumps → Pumps
  runner_run_task a runner task pumps = post_to_pump (a.runner_dmp runner) task pumps

  -- Thread::PostTask.
  unfoldable pub thread_post_task : Addresses → ℕ → Task Args Env → Pumps → Pumps
  thread_post_task a thread task pumps = post_to_pump (a.thread_dmp thread) task pumps

  -- The calls that PostTask ends in.
  unfoldable pub deliver : (a : Addresses) → Delivery (classes a) → Task Args Env → Pumps → Pumps
  deliver a (run_task runner) task pumps = runner_run_task a runner task pumps
  deliver a (post_to_thread thread) task pumps = thread_post_task a thread task pumps
  deliver a (post_message dmp) task pumps = post_to_pump dmp task pumps
  deliver a unknown task pumps = pumps

  -- The pump that PostTask hands the task to.
  abbrev pub target : (a : Addresses) → Delivery (classes a) → Option ℕ
  target a (run_task runner) = some (a.runner_dmp runner)
  target a (post_to_thread thread) = some (a.thread_dmp thread)
  target a (post_message dmp) = some dmp
  target a unknown = none

  deliver-post_to_pump :
      (a : Addresses) (delivery : Delivery (classes a)) (task : Task Args Env) (pumps : Pumps)
      (dmp : ℕ)
      → target a delivery ≡ some dmp
      → deliver a delivery task pumps ≡ post_to_pump dmp task pumps
  unfolding deliver runner_run_task thread_post_task
  deliver-post_to_pump a (run_task runner) task pumps dmp e =
      ap (λ x. post_to_pump x task pumps) (ground arith)
  deliver-post_to_pump a (post_to_thread thread) task pumps dmp e =
      ap (λ x. post_to_pump x task pumps) (ground arith)
  deliver-post_to_pump a (post_message address) task pumps dmp e =
      ap (λ x. post_to_pump x task pumps) (ground arith)
  deliver-post_to_pump a unknown task pumps dmp e = absurd (ground arith)

  at_target :
      (dmp : ℕ) (task : Task Args Env) (pumps : Pumps)
      → post_to_pump dmp task pumps dmp ≡ post_message_to_thread unset queue pipe task (pumps dmp)
  unfolding post_to_pump
  at_target dmp task pumps = rw ((==_iff dmp dmp).1 refl) refl

  elsewhere :
      (dmp other : ℕ) (task : Task Args Env) (pumps : Pumps)
      → other ≢ dmp
      → post_to_pump dmp task pumps other ≡ pumps other
  unfolding post_to_pump
  elsewhere dmp other task pumps n = let e : (other == dmp) ≡ false = ground arith in rw e refl

  abbrev pub after_post :
      (a : Addresses) → String → Dispatcher (classes a) → Task Args Env → Pumps → Pumps
  after_post a receiver d task pumps = deliver a (post_task (classes a) receiver d) task pumps

  pub after_post-at :
      (a : Addresses) (d : Dispatcher (classes a)) (receiver : String) (task : Task Args Env)
      (pumps : Pumps) (dmp : ℕ)
      → target a (post_task (classes a) receiver d) ≡ some dmp
      → after_post a receiver d task pumps dmp
        ≡ post_message_to_thread unset queue pipe task (pumps dmp)
  after_post-at a d receiver task pumps dmp e =
      ap (λ x. x dmp) (deliver-post_to_pump a (post_task (classes a) receiver d) task pumps dmp e)
      ∙ at_target dmp task pumps

  -- A task that PostTask hands to a pump whose loop has posted its first task already is in the queue of that
  -- pump, with the tasks that were there, and no other pump changes; and the next round of the pump
  -- calls the receivers of the descriptors in its events, then runs the tasks of its queue, the new
  -- one among them, each once and in the order of their priorities, and leaves the queue empty. The
  -- round fails only where a task calls through a pointer that was never set.
  pub post_task-message_round :
      (a : Addresses) (d : Dispatcher (classes a)) (receiver : String) (task : Task Args Env)
      (pumps : Pumps) (dmp : ℕ)
      → target a (post_task (classes a) receiver d) ≡ some dmp
      → (pumps dmp).run_init_task ≡ false
      → Permᴰ
          (items (after_post a receiver d task pumps dmp).task_queue)
          (task ∷ items (pumps dmp).task_queue)
        × ((other : ℕ) → other ≢ dmp → after_post a receiver d task pumps other ≡ pumps other)
        × RunsAll unset queue pipe (after_post a receiver d task pumps dmp)
  unfolding post_message_to_thread locked_post_task_to_queue
  post_task-message_round a d receiver task pumps dmp e started =
      let posted = post_message_to_thread unset queue pipe task (pumps dmp) in
      let same : after_post a receiver d task pumps ≡ post_to_pump dmp task pumps =
        deliver-post_to_pump a (post_task (classes a) receiver d) task pumps dmp e in
      let here : after_post a receiver d task pumps dmp ≡ posted =
        after_post-at a d receiver task pumps dmp e in
      (
        subst
            (λ (x : Pump Args Env Heap pipe.Channel).
              Permᴰ (items x.task_queue) (task ∷ items (pumps dmp).task_queue))
            (sym here) (queue.items-push task (pumps dmp).task_queue),
        λ other n. ap (λ x. x other) same ∙ elsewhere dmp other task pumps n,
        subst (RunsAll unset queue pipe) (sym here)
            (message_round-RunsAll unset queue pipe posted started),
      )
