-- ===== src/Dispatch/Pump/Wake.antt =====
-- Posts to a pump from other threads while its loop waits, reads its pipe and runs its queue: the pipe wakes
-- the loop by edges (EPOLLET).
use gitrpc.Prelude.{
  ℕ, suc, ◌<◌, ◌≡◌, ◌⊎◌, refl, sym, subst, ◌∙◌, inl, inr, true, false, Bool, not, ◌||◌, Option,
  none, some, List, [], ◌>>=◌, Bool-cases, arith,
}
use gitrpc.Dispatch.Task.{Task}
use gitrpc.Dispatch.Pump.{
  Pump, run_task, priority_comparer, locked_post_task_to_queue, drain_queue, Pipe,
}
use gitrpc.Dispatch.Pump.Drain.{drain_queue-run_all}
use gitrpc.PriorityQueue.Drain.{run_all}
use gitrpc.PriorityQueue.{PriorityQueue}

-- Where the loop stands: in epoll_wait, before its read of the pipe, or before it takes the lock.
pub data Phase : Type 0 where
  waiting : Phase
  woken : Phase
  has_read : Phase

module _ {Args Env : Type 0} (unset : ℕ → ℕ)
    (queue : PriorityQueue (Task Args Env) (priority_comparer unset)) (pipe : Pipe) where
  open queue use {Heap, size, items}
  open pipe use {Channel, has_edge, has_room, write_byte, read_byte, report}

  -- The pump, the threads between their push and their write, which a full pipe may block, the place of the loop, and whether a write has returned
  -- with the pipe full since the loop last ran the queue.
  pub record Wakeup : Type 0 where
    pub pump : Pump Args Env Heap Channel
    pub writers : ℕ
    pub phase : Phase
    pub has_failed : Bool

  abbrev queued : Wakeup → List (Task Args Env)
  queued s = items s.pump.task_queue

  abbrev posted : Task Args Env → Wakeup → Wakeup
  posted task s = record s {
    pump = locked_post_task_to_queue unset queue pipe task s.pump;
    writers = suc s.writers;
  }

  abbrev written : ℕ → Wakeup → Wakeup
  written others s = record s {
    pump = record s.pump { channel = write_byte s.pump.channel };
    writers = others;
    has_failed = not (has_room s.pump.channel) || s.has_failed;
  }

  abbrev reported : Wakeup → Wakeup
  reported s = record s { pump = record s.pump { channel = report s.pump.channel }; phase = woken }

  abbrev read_once : Wakeup → Wakeup
  read_once s = record s {
    pump = record s.pump { channel = read_byte s.pump.channel };
    phase = has_read;
  }

  abbrev drained : Heap → Wakeup → Wakeup
  drained h s = record s {
    pump = record s.pump { task_queue = h };
    phase = waiting;
    has_failed = false;
  }

  -- The two halves of a post, and what the loop does in a round; a receiver's descriptor may wake it as well.
  pub data Step : Wakeup → Wakeup → Type 0 where
    post : (task : Task Args Env) (s : Wakeup) → Step s (posted task s)
    write : (others : ℕ) (s : Wakeup) → s.writers ≡ suc others → Step s (written others s)
    wake : (s : Wakeup) → s.phase ≡ waiting → has_edge s.pump.channel ≡ true → Step s (reported s)
    wake_for_receiver : (s : Wakeup) → s.phase ≡ waiting → Step s (record s { phase = woken })
    read : (s : Wakeup) → s.phase ≡ woken → Step s (read_once s)
    drain :
        (s : Wakeup) (env env1 : Env) (h : Heap)
        → s.phase ≡ has_read
        → drain_queue unset queue (suc (size s.pump.task_queue)) s.pump.task_queue env
          ≡ some (h, env1)
        → Step s (drained h s)

  -- The states that the steps lead to from an empty pump.
  pub data Reachable : Wakeup → Type 0 where
    start : (s : Wakeup) → queued s ≡ [] → s.writers ≡ 0 → s.phase ≡ waiting → Reachable s
    next : (s s1 : Wakeup) → Reachable s → Step s s1 → Reachable s1

  -- A loop that waits has nothing to do, or an edge to wake it, or a thread that has yet to write; or a write has
  -- failed.
  pub record IsAwake (s : Wakeup) : Type 0 where
    pub wakes :
        s.phase ≡ waiting
        → (queued s ≡ [])
          ⊎ ((has_edge s.pump.channel ≡ true) ⊎ ((0 < s.writers) ⊎ (s.has_failed ≡ true)))

  left_over :
      (result : Option Env) (left h1 : Heap) (env1 : Env)
      → ◌>>=◌ {B = Heap × Env} result (λ env2. some (left, env2)) ≡ some (h1, env1)
      → left ≡ h1
  left_over none left h1 env1 e = absurd (ground arith)
  left_over (some env) left h1 env1 e = ground arith

  drained-none :
      (h h1 : Heap) (env env1 : Env)
      → drain_queue unset queue (suc (size h)) h env ≡ some (h1, env1)
      → items h1 ≡ []
  drained-none h h1 env env1 e =
      let (order, left, p, ordered, none_left, run) = drain_queue-run_all unset queue h in
      subst (λ x. items x ≡ [])
        (left_over (run_all (run_task unset queue) order env) left h1 env1 (sym (run env) ∙ e))
        none_left

  -- A write makes an edge or fails.
  write-IsAwake : (others : ℕ) (s : Wakeup) → IsAwake (written others s)
  write-IsAwake others s = elim (Bool-cases (has_room s.pump.channel)) [
    | inl t ↦ record { wakes = λ e. inr (inl (pipe.edge-write_byte s.pump.channel t)) }
    | inr f ↦ record { wakes = λ e. inr (inr (inr (rw f refl))) }
  ]

  step-IsAwake : {s s1 : Wakeup} → Step s s1 → IsAwake s → IsAwake s1
  unfolding locked_post_task_to_queue
  step-IsAwake (post task s) a = record { wakes = λ e. inr (inr (inl (omega arith))) }
  step-IsAwake (write others s e) a = write-IsAwake others s
  step-IsAwake (wake s e f) a = record { wakes = λ e1. absurd (ground arith) }
  step-IsAwake (wake_for_receiver s e) a = record { wakes = λ e1. absurd (ground arith) }
  step-IsAwake (read s e) a = record { wakes = λ e1. absurd (ground arith) }
  step-IsAwake (drain s env env1 h e f) a = record {
    wakes = λ e1. inl (drained-none s.pump.task_queue h env env1 f);
  }

  -- No post is missed but for a full pipe: in every state that posts and rounds of the loop lead to from an empty
  -- queue, whether their writes succeed or not, a loop that waits has an empty queue, or an edge that
  -- wakes it, or a thread between its push and its write, or a write has found the pipe full since the
  -- loop last ran its queue.
  pub Reachable-IsAwake : (s : Wakeup) → Reachable s → IsAwake s
  Reachable-IsAwake s (start s1 none_queued idle e) = record { wakes = λ e1. inl none_queued }
  Reachable-IsAwake s (next s1 s2 r step) = step-IsAwake step (Reachable-IsAwake s1 r)
