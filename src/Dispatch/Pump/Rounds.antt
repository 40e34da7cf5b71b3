-- ===== src/Dispatch/Pump/Rounds.antt =====
-- A round of the loop of the message pump, as a whole.
use mathlib.Core.List.{Permᴰ}
use gitrpc.Prelude.{
  ℕ, ◌≡◌, refl, sym, subst, Bool, true, false, Option, none, some, List, [], ◌∷◌, ltb,
  if◌then◌else◌, ◌>>=◌, arith,
}
use gitrpc.Dispatch.Task.{Task}
use gitrpc.Dispatch.Pump.{
  Pump, Pipe, MessageReceiver, take_report, run_task as run_queued, priority_comparer,
  find_receiver, post_message_to_thread, post_init_task, message_round, dispatch_events,
  fill_events,
}
use gitrpc.Dispatch.Pump.Drain.{drain_queue-run_all}
use gitrpc.PriorityQueue.{PriorityQueue}
use gitrpc.PriorityQueue.Drain.{run_all, IsOrdered}

if_same : {A : Type 0} (b : Bool) (a : A) → (if b then a else a) ≡ a
if_same true a = refl
if_same false a = refl

pub dispatch_none :
    {E : Type 0} (handlers : List (MessageReceiver E)) (events : List ℕ) (env : E)
    → handlers ≡ []
    → dispatch_events handlers events env ≡ env
unfolding dispatch_events find_receiver
dispatch_none [] [] env e = refl
dispatch_none [] (fd ∷ events) env e =
    subst (λ x. dispatch_events [] events x ≡ env) (sym (if_same (ltb 0 fd) env))
      (dispatch_none [] events env e)
dispatch_none (h ∷ handlers) events env e = absurd (ground arith)

module _ {Args Env : Type 0} (unset : ℕ → ℕ)
    (queue : PriorityQueue (Task Args Env) (priority_comparer unset)) (pipe : Pipe) where
  open queue use {Heap, items, push, size}

  unposted :
      (init : Option (Task Args Env)) (p : Pump Args Env Heap pipe.Channel)
      → p.run_init_task ≡ false
      → (elim init [
        | none ↦ p
        | some task ↦
            if p.run_init_task
            then post_message_to_thread unset queue pipe task (record p { run_init_task = false })
            else p
      ])
        ≡ p
  unposted none p e = refl
  unposted (some task) p e = rw e refl

  no_init :
      (p : Pump Args Env Heap pipe.Channel)
      → p.run_init_task ≡ false
      → post_init_task unset queue pipe p ≡ p
  unfolding post_init_task
  no_init p e = unposted p.init_task p e

  -- What a round leaves of a pump, with this queue.
  abbrev pub after_round :
      List ℕ → Heap → Pump Args Env Heap pipe.Channel → Pump Args Env Heap pipe.Channel
  after_round ready left p = record p {
    events = fill_events ready p.events;
    channel = pipe.read_byte (take_report unset queue pipe p.read_end ready p.channel);
    task_queue = left;
  }

  -- A round of the loop on `p`, which is `p1` once its first task is posted.
  abbrev pub RunsAs : Pump Args Env Heap pipe.Channel → Pump Args Env Heap pipe.Channel → Type 0
  RunsAs p p1 =
      (order : List (Task Args Env)) × (left : Heap) × Permᴰ (items p1.task_queue) order
      × IsOrdered (priority_comparer unset) order
      × (items left ≡ [])
      × ((ready : List ℕ) (env : Env)
          → message_round unset queue pipe ready p env ≡ (
              run_all (run_queued unset queue) order
                (dispatch_events p1.handlers (fill_events ready p1.events) env)
              >>= λ env1. some (after_round ready left p1, env1)))

  -- A round of a loop that has posted its first task already.
  abbrev pub RunsAll : Pump Args Env Heap pipe.Channel → Type 0
  RunsAll p = RunsAs p p

  rejoined :
      {C : Type 0} (result : Option Env) (left : Heap) (f : Heap × Env → Option C)
      → (◌>>=◌ {B = Heap × Env} result (λ env1. some (left, env1)) >>= f)
        ≡ (result >>= λ env1. f (left, env1))
  rejoined none left f = refl
  rejoined (some env) left f = refl

  pub message_round-RunsAs :
      (p p1 : Pump Args Env Heap pipe.Channel)
      → post_init_task unset queue pipe p ≡ p1
      → RunsAs p p1
  unfolding message_round
  message_round-RunsAs p p1 e =
      let (order, left, perm, ordered, empty, ran) =
        drain_queue-run_all unset queue p1.task_queue in
      (
        order,
        left,
        perm,
        ordered,
        empty,
        λ ready env.
            rw (e, ran)
              (rejoined
                (run_all (run_queued unset queue) order
                  (dispatch_events p1.handlers (fill_events ready p1.events) env))
                left _),
      )

  pub message_round-RunsAll :
      (p : Pump Args Env Heap pipe.Channel) → p.run_init_task ≡ false → RunsAll p
  message_round-RunsAll p e = message_round-RunsAs p p (no_init p e)
