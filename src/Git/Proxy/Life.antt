-- ===== src/Git/Proxy/Life.antt =====
-- The whole life of the pump of "Main": the calls that come in before each round, and the round.
use mathlib.Core.List.{Permᴰ}
use mathlib.Core.List.Permᴰ
use gitrpc.Prelude.{
  ℕ, ◌==◌, ==_iff, ◌≡◌, refl, sym, ap, subst, ◌∙◌, Option, none, some, List, [], ◌∷◌, ◌++◌,
  if◌then◌else◌, ◌>>=◌,
}
use gitrpc.Dispatch.{Dispatcher}
use gitrpc.Dispatch.Posting.{Addresses, classes}
use gitrpc.Dispatch.Task.{Task}
use gitrpc.Dispatch.Pump.{Pump, Pipe, priority_comparer, message_round}
use gitrpc.PriorityQueue.{PriorityQueue}
use gitrpc.Git.Library.{Libgit2}
use gitrpc.Git.Proxy.{Args, Process, Env}
use gitrpc.Git.Proxy.Tasks.{Call, IsFresh, serve, serve_all, history, serve_all-history, end_calls}
use gitrpc.Git.Proxy.Order.{AreOrdered}
use gitrpc.Git.Proxy.Round.{Pumps, IsMain, post_calls, post_calls-RunsCalls, IsFresh-Permᴰ}

-- The calls that come in before a round, and the descriptors that epoll_wait reports to it.
abbrev pub Batch : Type 0
Batch = List Call × List ℕ

abbrev pub all_calls : List Batch → List Call
all_calls [] = []
all_calls ((calls, ready) ∷ batches) = calls ++ all_calls batches

module _ (git : Libgit2) where
  serve_all-append :
      (first rest : List Call) (env : Env git)
      → ((env >>= serve_all git first) >>= serve_all git rest)
        ≡ (env >>= serve_all git (first ++ rest))
  serve_all-append first rest none = refl
  serve_all-append [] rest (some p) = refl
  serve_all-append (c ∷ first) rest (some p) = serve_all-append first rest (serve git c p)

module _ (git : Libgit2) (unset : ℕ → ℕ)
    (queue : PriorityQueue (Task Args (Env git)) (priority_comparer unset)) (pipe : Pipe)
    (a : Addresses) (d : Dispatcher (classes a)) where
  open queue use {Heap, items}

  abbrev pub with_pump :
      ℕ
      → Pump Args (Env git) Heap pipe.Channel
      → Pumps git unset queue pipe a d
      → Pumps git unset queue pipe a d
  with_pump dmp next pumps address = if address == dmp then next else pumps address

  -- The rounds of the pump at this address, each after the posts that come before it.
  abbrev pub life :
      ℕ
      → List Batch
      → Pumps git unset queue pipe a d
      → Env git
      → Option (Pumps git unset queue pipe a d × Env git)
  life dmp [] pumps env = some (pumps, env)
  life dmp ((calls, ready) ∷ batches) pumps env =
      let posted = post_calls git unset queue pipe a d calls pumps in
      message_round unset queue pipe ready (posted dmp) env >>= λ (next, env1).
      life dmp batches (with_pump dmp next posted) env1

  -- An order of all the calls: batch by batch, and each batch in some order that keeps to the priorities.
  abbrev pub AreBatched : List Batch → List Call → Type 0
  AreBatched [] order = order ≡ []
  AreBatched ((calls, ready) ∷ batches) order =
      (first rest : List Call) × (order ≡ first ++ rest)
      × Permᴰ calls first
      × AreOrdered git unset queue first
      × AreBatched batches rest

  in_batches :
      (batches : List Batch) (order : List Call)
      → AreBatched batches order
      → Permᴰ (all_calls batches) order
  in_batches [] order e = subst (Permᴰ []) (sym e) Permᴰ.nil
  in_batches ((calls, ready) ∷ batches) order (first, rest, e, p, ordered, later) =
      subst (Permᴰ (calls ++ all_calls batches)) (sym e) (
        Permᴰ.trans (Permᴰ.append_right (all_calls batches) p)
          (Permᴰ.append_left first (in_batches batches rest later)))

  -- The pumps are ready for the calls of the proxy.
  abbrev pub AreReady : ℕ → Pumps git unset queue pipe a d → Type 0
  AreReady dmp pumps =
      IsMain git unset queue pipe a d dmp (pumps dmp) × (items (pumps dmp).task_queue ≡ [])

  replaced :
      (dmp : ℕ) (next : Pump Args (Env git) Heap pipe.Channel)
      (pumps : Pumps git unset queue pipe a d)
      → with_pump dmp next pumps dmp ≡ next
  replaced dmp next pumps = rw ((==_iff dmp dmp).1 refl) refl

  pub now_ready :
      (dmp : ℕ) (next : Pump Args (Env git) Heap pipe.Channel)
      (pumps : Pumps git unset queue pipe a d)
      → IsMain git unset queue pipe a d dmp next
      → items next.task_queue ≡ []
      → AreReady dmp (with_pump dmp next pumps)
  now_ready dmp next pumps main empty =
      subst
        (λ (p : Pump Args (Env git) Heap pipe.Channel).
          IsMain git unset queue pipe a d dmp p × (items p.task_queue ≡ []))
        (sym (replaced dmp next pumps)) (main, empty)

  abbrev RunsBatches : ℕ → List Batch → Pumps git unset queue pipe a d → Type 0
  RunsBatches dmp batches pumps =
      (env : Env git)
      → (order : List Call) × (after : Pumps git unset queue pipe a d) × AreBatched batches order
        × AreReady dmp after
        × (life dmp batches pumps env ≡ some (after, env >>= serve_all git order))

  all_batches :
      (dmp : ℕ) (batches : List Batch) (pumps : Pumps git unset queue pipe a d)
      → AreReady dmp pumps
      → RunsBatches dmp batches pumps
  all_batches dmp [] pumps are_ready env =
      ([], pumps, refl, are_ready, ap (λ e. some (pumps, e)) (end_calls git unset queue env))
  all_batches dmp ((calls, ready) ∷ batches) pumps (main, empty) env =
      let (first, p, ordered, runs) =
        post_calls-RunsCalls git unset queue pipe a d calls pumps dmp main empty in
      let (next, main1, empty1, ran) = runs ready env in
      let posted = post_calls git unset queue pipe a d calls pumps in
      let (rest, after, later, are_ready, done) =
        all_batches dmp batches (with_pump dmp next posted) (now_ready dmp next posted main1 empty1)
          (env >>= serve_all git first) in
      (
        first ++ rest,
        after,
        (first, rest, refl, p, ordered, later),
        are_ready,
        ap
              (λ (result : Option (Pump Args (Env git) Heap pipe.Channel × Env git)).
                result >>= λ (next1, env1). life dmp batches (with_pump dmp next1 posted) env1)
              ran
            ∙ done
            ∙ ap (λ e. some (after, e)) (serve_all-append git first rest env),
      )

  -- The whole life of the server: before each round of the pump of "Main" the threads of the process make any calls of
  -- the proxy, with promises that are new. If the pump starts with an empty queue, its loop has run its
  -- first task and it has no receivers of messages, then every round comes to its end with an empty queue, and together they
  -- have taken the manager through the requests, each one once, those of one round before those of
  -- the next and each round's in some order that keeps to the priorities of the tasks; the promise of each call but a
  -- close is set to the reply to its request, and the request of an open names the text that its task finds at the
  -- freed place of the name. The process has stopped if and only if the manager does in
  -- that history.
  pub life-history :
      (dmp : ℕ) (batches : List Batch) (pumps : Pumps git unset queue pipe a d)
      (process : Process git)
      → IsMain git unset queue pipe a d dmp (pumps dmp)
      → items (pumps dmp).task_queue ≡ []
      → IsFresh (all_calls batches) process.results
      → (order : List Call) × (after : Pumps git unset queue pipe a d) × AreBatched batches order
        × (items (after dmp).task_queue ≡ [])
        × (life dmp batches pumps (some process) ≡ some (after, history git order process))
  life-history dmp batches pumps process main empty fresh =
      let (order, after, batched, are_ready, ran) =
        all_batches dmp batches pumps (main, empty) (some process) in
      let served =
        serve_all-history git order process
          (IsFresh-Permᴰ process.results (in_batches batches order batched) fresh) in
      (order, after, batched, are_ready.1, ran ∙ ap (λ e. some (after, e)) served)
