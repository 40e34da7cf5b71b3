-- ===== src/Git/Proxy/Handlers.antt =====
-- Read and Write of src/services/git/requests/WriteReference.cpp and RepoStateChange.cpp, with the calls of the proxy
-- posted to the pump of "Main". A wait for a future ends with the round of the pump that comes next.
pub mod Threads
pub mod Close
mod Tests
use gitrpc.Prelude.{
  ℕ, suc, ◌≡◌, ◌≤◌, ◌<◌, refl, sym, ap, subst, ◌∙◌, Bool, true, false, Option, none, some, List, [],
  ◌∷◌, map, String, if◌then◌else◌, ◌>>=◌, inl, inr, Option-cases, arith,
}
use gitrpc.Dispatch.{Dispatcher}
use gitrpc.Dispatch.Posting.{Addresses, classes}
use gitrpc.Dispatch.Task.{Task}
use gitrpc.Dispatch.Pump.{Pump, Pipe, priority_comparer, message_round}
use gitrpc.PriorityQueue.{PriorityQueue}
use gitrpc.PriorityQueue.Short.{single-Permᴰ}
use gitrpc.Git.Library.{Libgit2, is_success}
use gitrpc.Git.Manager.{
  Request, Reply, State, open_request, close_request, reference_request, nothing, message,
  references, handle,
}
use gitrpc.Git.Requests.{Service, Event, handler_thread}
use gitrpc.Git.Requests.Answers.{
  Finished, RepoStateChangeRequest, WriteReferenceRequest, proxy, reply_text, write,
  write_reference,
}
use gitrpc.Git.Requests.Simulation.{
  Ends, Views, Views-bind, IsSimulated, Sees, event_seen, handler_thread-Sees,
}
use gitrpc.Git.Proxy.{Args, Process, Env}
use gitrpc.Git.Proxy.Tasks.{
  Call, received, is_awaited, promised, settle, serve, serve_all, settle-fresh, promised_ne,
}
use gitrpc.Git.Proxy.Future.{promised_own}
use gitrpc.Git.Proxy.Round.{Pumps, IsMain, post_call, post_calls-RunsCalls}
use gitrpc.Git.Proxy.Life.{with_pump, AreReady, now_ready}

-- `get` of a future, with the text that its promise was set to.
abbrev pub text_with : {S : Type 0} → Option Reply → S → Option (String × S)
text_with none s = none
text_with (some reply) s = reply_text reply >>= λ msg. some (msg, s)

module _ (git : Libgit2) (unset : ℕ → ℕ)
    (queue : PriorityQueue (Task Args (Env git)) (priority_comparer unset)) (pipe : Pipe)
    (a : Addresses) (d : Dispatcher (classes a)) (dmp : ℕ) (reports : ℕ → List ℕ) where
  open queue use {Heap, items}

  -- The process with its pumps, and the number of the next promise. `reports` has what epoll_wait reports to
  -- the round of each promise.
  pub record Server : Type 0 where
    pub pumps : Pumps git unset queue pipe a d
    pub process : Process git
    pub next_promise : ℕ

  -- A call of the proxy, and the round that follows.
  unfoldable pub posted_call : Request → Server → Option (Option Reply × Server)
  posted_call q s =
      let posted = post_call git unset queue pipe a d (q, s.next_promise) s.pumps in
      message_round unset queue pipe (reports s.next_promise) (posted dmp) (some s.process)
      >>= λ (next, env). env >>= λ p. some (
        p.results s.next_promise,
        record {
          pumps = with_pump git unset queue pipe a d dmp next posted;
          process = p;
          next_promise = suc s.next_promise;
        },
      )

  -- A call and `get` of its future.
  unfoldable pub waited_call : Request → Server → Option (String × Server)
  waited_call q s = posted_call q s >>= λ (result, s1). text_with result s1

  unfoldable pub posted_write_reference :
      WriteReferenceRequest → Server → Option (Finished × Server)
  posted_write_reference request s =
      waited_call (reference_request request.ref_name request.ref_rev) s >>= λ (err, s1).
      some (if is_success err then write "Success" "Success" else write "Success" err, s1)

  -- Read of RepoStateChange: a close is posted and answered at once, and stays in the queue for a later round.
  unfoldable pub posted_change_repository_state :
      RepoStateChangeRequest → Server → Option (Finished × Server)
  posted_change_repository_state request s =
      if request.new_repo_state
      then (waited_call (open_request request.repo_name) s >>= λ (err, s1).
          some (write "success" err, s1))
      else some (
        write "success" "success",
        record s {
          pumps = post_call git unset queue pipe a d (close_request, s.next_promise) s.pumps;
          next_promise = suc s.next_promise;
        },
      )

  abbrev pub repository : Server → State git
  repository s = s.process.repository

  -- The pump is ready for a call, and the promises to come are new.
  pub record IsServing (s : Server) : Type 0 where
    pub main : IsMain git unset queue pipe a d dmp (s.pumps dmp)
    pub none_queued : items (s.pumps dmp).task_queue ≡ []
    pub promises_new : (k : ℕ) → s.next_promise ≤ k → s.process.results k ≡ none

  abbrev pub kept_of : Request → Reply → Option Reply
  kept_of q reply = if is_awaited q then some reply else none

  abbrev pub outcome : Option Reply × Server → Option Reply × State git
  outcome (result, s) = (result, repository s)

  abbrev pub IsServed : Option Reply × Server → Type 0
  IsServed (result, s) = IsServing s

  -- What a call leaves, with the pumps after its round.
  abbrev left_by : Pumps git unset queue pipe a d → ℕ → Process git → Option Reply × Server
  left_by pumps k p = (p.results k, record { pumps = pumps; process = p; next_promise = suc k })

  abbrev AreReady_ : Pumps git unset queue pipe a d → Type 0
  AreReady_ pumps = AreReady git unset queue pipe a d dmp pumps

  settled_Views :
      (q : Request) (k : ℕ) (reply : Reply) (p : Process git)
      (pumps : Pumps git unset queue pipe a d) (env : Env git)
      → AreReady_ pumps
      → ((j : ℕ) → k ≤ j → p.results j ≡ none)
      → env ≡ some (record p { results = promised (q, k) reply p.results })
      → Views outcome IsServed
          ((env >>= λ p1. some p1) >>= λ p1. some (left_by pumps k p1))
          (some (kept_of q reply, p.repository))
  settled_Views q k reply p pumps env (main, empty) free e =
      subst
        (λ (x : Env git).
          Views outcome IsServed ((x >>= λ p1. some p1) >>= λ p1. some (left_by pumps k p1))
            (some (kept_of q reply, p.repository)))
        (sym e)
        (
          ap (λ result. some (result, p.repository))
              (promised_own git (q, k) reply p.results (free k (omega arith))),
          record {
            main = main;
            none_queued = empty;
            promises_new = λ j larger.
                promised_ne git (q, k) reply p.results j (λ same. omega arith)
                ∙ free j (omega arith);
          },
        )

  IsServed-Views :
      (q : Request) (k : ℕ) (p : Process git) (pumps : Pumps git unset queue pipe a d)
      (served : Option (Reply × State git))
      → AreReady_ pumps
      → ((j : ℕ) → k ≤ j → p.results j ≡ none)
      → Views outcome IsServed
          (((served >>= λ (reply, t). settle git (q, k) reply (record p { repository = t }))
              >>= λ p1. some p1)
            >>= λ p1. some (left_by pumps k p1))
          (served >>= λ (reply, t). some (kept_of q reply, t))
  IsServed-Views q k p pumps none are_ready free = (refl, tt)
  IsServed-Views q k p pumps (some (reply, t)) are_ready free =
      settled_Views q k reply (record p { repository = t }) pumps _ are_ready free
        (settle-fresh git (q, k) reply (record p { repository = t }) (free k (omega arith)))

  pub posted_call-Views :
      (q : Request) (s : Server)
      → IsServing s
      → Views outcome IsServed (posted_call q s) (
          handle git (received s.process.freed (q, s.next_promise)) (repository s) >>= λ (reply, t).
          some (kept_of q reply, t))
  unfolding posted_call
  posted_call-Views q s serving =
      let k = s.next_promise in
      let posted = post_call git unset queue pipe a d (q, k) s.pumps in
      let (order, p, _, runs) =
        post_calls-RunsCalls git unset queue pipe a d ((q, k) ∷ []) s.pumps dmp serving.main
          serving.none_queued in
      let (next, main, empty, ran) = runs (reports k) (some s.process) in
      subst
        (λ (round : Option (Pump Args (Env git) Heap pipe.Channel × Env git)).
          Views outcome IsServed
            (round >>= λ (next1, env). env >>= λ p1.
              some (left_by (with_pump git unset queue pipe a d dmp next1 posted) k p1))
            (handle git (received s.process.freed (q, s.next_promise)) (repository s)
              >>= λ (reply, t). some (kept_of q reply, t)))
        (sym
          (ran ∙ ap (λ calls. some (next, serve_all git calls s.process)) (single-Permᴰ (q, k) p)))
        (IsServed-Views q k s.process (with_pump git unset queue pipe a d dmp next posted)
          (handle git (received s.process.freed (q, s.next_promise)) (repository s))
          (now_ready git unset queue pipe a d dmp next posted main empty) serving.promises_new)

  abbrev pub repository_of : {A : Type 0} → A × Server → A × State git
  repository_of (answer, s) = (answer, repository s)

  abbrev pub IsServingOf : {A : Type 0} → A × Server → Type 0
  IsServingOf (answer, s) = IsServing s

  -- An answer, and the repository of the server that it leaves.
  abbrev pub ViewsAnswer : {A : Type 0} → Option (A × Server) → Option (A × State git) → Type 0
  ViewsAnswer x y = Views repository_of IsServingOf x y

  texts_view :
      (result : Option Reply) (s : Server)
      → IsServing s
      → ViewsAnswer (text_with result s) (text_with result (repository s))
  texts_view none s serving = (refl, tt)
  texts_view (some nothing) s serving = (refl, tt)
  texts_view (some (message msg)) s serving = (refl, serving)
  texts_view (some (references response)) s serving = (refl, tt)

  texts_of :
      (q : Request) (served : Option (Reply × State git))
      → is_awaited q ≡ true
      → (◌>>=◌ {B = Option Reply × State git} served (λ (reply, t). some (kept_of q reply, t))
          >>= λ (result, t). text_with result t)
        ≡ (served >>= λ (reply, t). reply_text reply >>= λ msg. some (msg, t))
  texts_of q none awaited = refl
  texts_of q (some (reply, t)) awaited =
      ap (λ b. text_with (if b then some reply else none) t) awaited

  pub waited_call-Views :
      (q : Request) (s : Server)
      → is_awaited q ≡ true
      → IsServing s
      → ViewsAnswer
          (waited_call q s)
          (proxy git (received s.process.freed (q, s.next_promise)) (repository s))
  unfolding waited_call proxy
  waited_call-Views q s awaited serving =
      let (same, good) =
        Views-bind outcome IsServed repository_of IsServingOf (posted_call q s)
          (handle git (received s.process.freed (q, s.next_promise)) (repository s)
            >>= λ (reply, t). some (kept_of q reply, t))
          (λ (result, s1). text_with result s1) (λ (result, t). text_with result t)
          (posted_call-Views q s serving) (λ (result, s1) good1. texts_view result s1 good1) in
      (
        same
            ∙ texts_of q (handle git (received s.process.freed (q, s.next_promise)) (repository s))
                awaited,
        good,
      )
