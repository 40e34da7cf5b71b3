-- ===== src/Git/Proxy/Round.antt =====
-- Calls of the proxy from several threads, and the next round of the pump of "Main".
use mathlib.Core.List.{Permᴰ}
use mathlib.Core.List.Permᴰ
use gitrpc.Prelude.{
  ℕ, ◌≡◌, ◌≢◌, refl, sym, ap, subst, ◌∙◌, false, Option, some, List, [], ◌∷◌, map, All, ◌>>=◌,
}
use gitrpc.Dispatch.{Dispatcher, post_task}
use gitrpc.Dispatch.Posting.{Addresses, classes, target, after_post, after_post-at}
use gitrpc.Dispatch.Pump.Rounds.{dispatch_none, message_round-RunsAll, after_round}
use gitrpc.Dispatch.Task.{Task}
use gitrpc.Dispatch.Pump.{
  Pump, Pipe, priority_comparer, dispatch_events, message_round, post_message_to_thread,
  locked_post_task_to_queue, run_task, fill_events,
}
use gitrpc.PriorityQueue.{PriorityQueue}
use gitrpc.PriorityQueue.Drain.{run_all, IsOrdered, All-Permᴰ}
use gitrpc.PriorityQueue.Images.{map-Permᴰ}
use gitrpc.Git.Library.{Libgit2}
use gitrpc.Git.Manager.{Reply}
use gitrpc.Git.Proxy.{Args, Process, Env}
use gitrpc.Git.Proxy.Tasks.{
  Call, AreDistinct, IsFresh, history, serve_all, task_of, run_all-serve_all, serve_all-history,
}

AreDistinct-Permᴰ :
    {calls order : List Call} → Permᴰ calls order → AreDistinct calls → AreDistinct order
AreDistinct-Permᴰ Permᴰ.nil d = tt
AreDistinct-Permᴰ (Permᴰ.cons {a} {b} {l₁} {l₂} e p) (differ, d) = (
  subst (λ c. All (λ (x : Call). x.1 ≢ c.1) l₂) e (All-Permᴰ (λ (x : Call). x.1 ≢ a.1) p differ),
  AreDistinct-Permᴰ p d,
)
AreDistinct-Permᴰ (Permᴰ.swap {a} {b} {a'} {b'} {l} e f) ((n, da), (db, d)) = (
  (
    λ g. n (ap (λ c. c.1) f ∙ sym g ∙ sym (ap (λ c. c.1) e)),
    subst (λ c. All (λ (x : Call). x.1 ≢ c.1) l) f db,
  ),
  (subst (λ c. All (λ (x : Call). x.1 ≢ c.1) l) e da, d),
)
AreDistinct-Permᴰ (Permᴰ.trans p q) d = AreDistinct-Permᴰ q (AreDistinct-Permᴰ p d)

pub IsFresh-Permᴰ :
    {calls order : List Call} (results : ℕ → Option Reply)
    → Permᴰ calls order
    → IsFresh calls results
    → IsFresh order results
IsFresh-Permᴰ results p (distinct, free) = (AreDistinct-Permᴰ p distinct, All-Permᴰ _ p free)

module _ (git : Libgit2) (unset : ℕ → ℕ)
    (queue : PriorityQueue (Task Args (Env git)) (priority_comparer unset)) (pipe : Pipe)
    (a : Addresses) (d : Dispatcher (classes a)) where
  open queue use {Heap, items}

  abbrev pub Pumps : Type 0
  Pumps = ℕ → Pump Args (Env git) Heap pipe.Channel

  -- POST_TASK of a call of the proxy.
  unfoldable pub post_call : Call → Pumps → Pumps
  post_call c pumps = after_post unset queue pipe a "Main" d (task_of git unset queue c) pumps

  -- The calls that the threads of the process have made, the last one first.
  abbrev pub post_calls : List Call → Pumps → Pumps
  post_calls [] pumps = pumps
  post_calls (c ∷ calls) pumps = post_call c (post_calls calls pumps)

  -- The pump of "Main", whose loop has run its first task, and which has no receivers of messages.
  pub record IsMain (dmp : ℕ) (p : Pump Args (Env git) Heap pipe.Channel) : Type 0 where
    pub is_target : target unset queue pipe a (post_task (classes a) "Main" d) ≡ some dmp
    pub is_started : p.run_init_task ≡ false
    pub has_no_handlers : p.handlers ≡ []

  post_call-at :
      (c : Call) (pumps : Pumps) (dmp : ℕ)
      → IsMain dmp (pumps dmp)
      → post_call c pumps dmp
        ≡ post_message_to_thread unset queue pipe (task_of git unset queue c) (pumps dmp)
  unfolding post_call
  post_call-at c pumps dmp main =
      after_post-at unset queue pipe a d "Main" (task_of git unset queue c) pumps dmp main.is_target

  posted-IsMain :
      (c : Call) (dmp : ℕ) (p : Pump Args (Env git) Heap pipe.Channel)
      → IsMain dmp p
      → IsMain dmp (post_message_to_thread unset queue pipe (task_of git unset queue c) p)
  unfolding post_message_to_thread locked_post_task_to_queue
  posted-IsMain c dmp p main = record {
    is_target = main.is_target;
    is_started = main.is_started;
    has_no_handlers = main.has_no_handlers;
  }

  post_calls-IsMain :
      (calls : List Call) (pumps : Pumps) (dmp : ℕ)
      → IsMain dmp (pumps dmp)
      → IsMain dmp (post_calls calls pumps dmp)
  post_calls-IsMain [] pumps dmp main = main
  post_calls-IsMain (c ∷ calls) pumps dmp main =
      let before = post_calls-IsMain calls pumps dmp main in
      subst (IsMain dmp) (sym (post_call-at c (post_calls calls pumps) dmp before))
        (posted-IsMain c dmp (post_calls calls pumps dmp) before)

  items-posted :
      (c : Call) (p : Pump Args (Env git) Heap pipe.Channel)
      → Permᴰ
          (items (post_message_to_thread unset queue pipe (task_of git unset queue c) p).task_queue)
          (task_of git unset queue c ∷ items p.task_queue)
  unfolding post_message_to_thread locked_post_task_to_queue
  items-posted c p = queue.items-push (task_of git unset queue c) p.task_queue

  pub items-post_calls :
      (calls : List Call) (pumps : Pumps) (dmp : ℕ)
      → IsMain dmp (pumps dmp)
      → items (pumps dmp).task_queue ≡ []
      → Permᴰ (items (post_calls calls pumps dmp).task_queue) (map (task_of git unset queue) calls)
  items-post_calls [] pumps dmp main empty = subst (Permᴰ _) empty (Permᴰ.refl _)
  items-post_calls (c ∷ calls) pumps dmp main empty =
      let before = post_calls calls pumps in
      subst
        (λ (p : Pump Args (Env git) Heap pipe.Channel).
          Permᴰ (items p.task_queue) (map (task_of git unset queue) (c ∷ calls)))
        (sym (post_call-at c before dmp (post_calls-IsMain calls pumps dmp main)))
        (Permᴰ.trans (items-posted c (before dmp))
          (Permᴰ.cons refl (items-post_calls calls pumps dmp main empty)))

  -- A round that ends, with the queue empty, in which the tasks of the calls have run in some order that keeps to
  -- their priorities.
  abbrev pub RunsCalls : ℕ → List Call → Pump Args (Env git) Heap pipe.Channel → Type 0
  RunsCalls dmp calls p =
      (order : List Call) × Permᴰ calls order
      × IsOrdered (priority_comparer unset) (map (task_of git unset queue) order)
      × ((ready : List ℕ) (env : Env git)
          → (next : Pump Args (Env git) Heap pipe.Channel) × IsMain dmp next
            × (items next.task_queue ≡ [])
            × (message_round unset queue pipe ready p env
                ≡ some (next, env >>= serve_all git order)))

  run_all-calls :
      (tasks : List (Task Args (Env git))) (order : List Call)
      (p : Pump Args (Env git) Heap pipe.Channel) (events : List ℕ) (env : Env git)
      → p.handlers ≡ []
      → tasks ≡ map (task_of git unset queue) order
      → run_all (run_task unset queue) tasks (dispatch_events p.handlers events env)
        ≡ some (env >>= serve_all git order)
  run_all-calls tasks order p events env none_there same =
      ap (run_all (run_task unset queue) tasks) (dispatch_none p.handlers events env none_there)
      ∙ ap (λ ts. run_all (run_task unset queue) ts env) same
      ∙ run_all-serve_all git unset queue order env

  pub post_calls-RunsCalls :
      (calls : List Call) (pumps : Pumps) (dmp : ℕ)
      → IsMain dmp (pumps dmp)
      → items (pumps dmp).task_queue ≡ []
      → RunsCalls dmp calls (post_calls calls pumps dmp)
  post_calls-RunsCalls calls pumps dmp main empty =
      let pump = post_calls calls pumps dmp in
      let main1 = post_calls-IsMain calls pumps dmp main in
      let (tasks, left, perm, ordered, none_left, ran) =
        message_round-RunsAll unset queue pipe pump main1.is_started in
      let (order, same, p) =
        map-Permᴰ (task_of git unset queue) calls
          (Permᴰ.trans (Permᴰ.symm (items-post_calls calls pumps dmp main empty)) perm) in
      (
        order,
        p,
        subst (IsOrdered (priority_comparer unset)) same ordered,
        λ ready env.
            let next = after_round unset queue pipe ready left pump in
            (
              next,
              record {
                is_target = main1.is_target;
                is_started = main1.is_started;
                has_no_handlers = main1.has_no_handlers;
              },
              none_left,
              ran ready env
                  ∙ ap (λ result. result >>= λ env1. some (next, env1))
                      (run_all-calls tasks order pump (fill_events ready pump.events) env
                        main1.has_no_handlers same),
            ),
      )

  -- Such a round, from a process in which the promises of the calls are new.
  abbrev pub ServesAll : List Call → Pump Args (Env git) Heap pipe.Channel → Type 0
  ServesAll calls p =
      (order : List Call) × Permᴰ calls order
      × IsOrdered (priority_comparer unset) (map (task_of git unset queue) order)
      × ((ready : List ℕ) (process : Process git)
          → IsFresh calls process.results
          → (next : Pump Args (Env git) Heap pipe.Channel) × (items next.task_queue ≡ [])
            × (message_round unset queue pipe ready p (some process)
                ≡ some (next, history git order process)))

  pub post_calls-ServesAll :
      (calls : List Call) (pumps : Pumps) (dmp : ℕ)
      → IsMain dmp (pumps dmp)
      → items (pumps dmp).task_queue ≡ []
      → ServesAll calls (post_calls calls pumps dmp)
  post_calls-ServesAll calls pumps dmp main empty =
      let (order, p, ordered, runs) = post_calls-RunsCalls calls pumps dmp main empty in
      (
        order,
        p,
        ordered,
        λ ready process fresh.
            let (next, _, none_left, ran) = runs ready (some process) in
            let served =
              serve_all-history git order process (IsFresh-Permᴰ process.results p fresh) in
            (next, none_left, ran ∙ ap (λ env. some (next, env)) served),
      )
