-- ===== src/Git/Proxy/Tasks.antt =====
-- What the tasks of the proxy do, one by one and in a row.
use gitrpc.Prelude.{
  ℕ, String, ◌==◌, ◌≡◌, ◌≢◌, refl, sym, ap, subst, ◌∙◌, Bool, true, false, Option, none, some, List,
  [], ◌∷◌, map, All, if◌then◌else◌, ◌>>=◌, arith,
}
use gitrpc.Dispatch.Task.{Task, create, bind, invoke, invoked}
use gitrpc.Dispatch.Pump.{priority_comparer, run_task}
use gitrpc.PriorityQueue.{PriorityQueue}
use gitrpc.PriorityQueue.Drain.{run_all}
use gitrpc.Git.Library.{Libgit2}
use gitrpc.Git.Manager.{
  Request, Reply, State, open_request, close_request, append_request, commit_request,
  reference_request, refs_request, handle, handle_all,
}
use gitrpc.Git.Proxy.{
  Args, Process, Env, set_value, proxy_task, ranked_task0, ranked_task1, new_task0, new_task1,
  run_open_repo, run_close_repo, run_append_data_to_pack, run_commit_pack_changes,
  run_new_reference, run_get_repo_refs,
}

-- Whether a call has a future.
abbrev pub is_awaited : Request → Bool
is_awaited (open_request name) = true
is_awaited close_request = false
is_awaited (append_request bytes) = true
is_awaited commit_request = true
is_awaited (reference_request ref_name ref_rev) = true
is_awaited refs_request = true

-- A call of the proxy, with its promise; the number of a call without one is of no use.
abbrev pub Call : Type 0
Call = Request × ℕ

-- The request that the manager gets for a call: an open has the text that its task finds at the place of the name.
abbrev pub received : (ℕ → String → String) → Call → Request
received freed (open_request name, k) = open_request (freed k name)
received freed (close_request, k) = close_request
received freed (append_request bytes, k) = append_request bytes
received freed (commit_request, k) = commit_request
received freed (reference_request ref_name ref_rev, k) = reference_request ref_name ref_rev
received freed (refs_request, k) = refs_request

abbrev pub promised : Call → Reply → (ℕ → Option Reply) → ℕ → Option Reply
promised c reply results other =
    if is_awaited c.0 then (if other == c.1 then some reply else results other) else results other

-- The promises after calls with these replies.
abbrev pub promises : List Call → List Reply → (ℕ → Option Reply) → ℕ → Option Reply
promises [] replies results = results
promises (c ∷ calls) [] results = results
promises (c ∷ calls) (reply ∷ replies) results = promises calls replies (promised c reply results)

-- The promises of the calls are different ones, and none is set.
abbrev pub AreDistinct : List Call → Type 0
AreDistinct [] = Unit {0}
AreDistinct (c ∷ calls) = All (λ d. d.1 ≢ c.1) calls × AreDistinct calls

abbrev pub IsFresh : List Call → (ℕ → Option Reply) → Type 0
IsFresh calls results = AreDistinct calls × All (λ c. results c.1 ≡ none) calls

module _ (git : Libgit2) where
  -- A request, served, and its promise set.
  abbrev pub settle : Call → Reply → Process git → Env git
  settle c reply p = if is_awaited c.0 then set_value git c.1 reply p else some p

  abbrev pub serve : Call → Process git → Env git
  serve c p = handle git (received p.freed c) p.repository >>= λ (reply, s).
      settle c reply (record p { repository = s })

  abbrev pub serve_all : List Call → Process git → Env git
  serve_all [] p = some p
  serve_all (c ∷ calls) p = serve c p >>= λ p1. serve_all calls p1

  abbrev pub ended :
      List Call
      → (ℕ → String → String)
      → (ℕ → Option Reply)
      → Option (List Reply × State git)
      → Env git
  ended calls freed results served = served >>= λ (replies, s).
      some (record { repository = s; freed = freed; results = promises calls replies results })

  -- The manager goes through the requests that it gets, and each promise gets the reply of its request.
  abbrev pub history : List Call → Process git → Env git
  history calls p =
      ended calls p.freed p.results (handle_all git (map (received p.freed) calls) p.repository)

module _ (git : Libgit2) (unset : ℕ → ℕ)
    (queue : PriorityQueue (Task Args (Env git)) (priority_comparer unset)) where
  abbrev pub task_of : Call → Task Args (Env git)
  task_of c = proxy_task git c.0 c.1

  -- Each task of the proxy gives its handler the structure that the handler casts its argument to: a pump that runs the task
  -- takes a process through the request, which for an open names the text that is found at the freed
  -- place of the name, sets the promise of the call to the reply, but for a close, and stops the process
  -- only where the manager stops it or the promise is set already; it leaves a process that has stopped
  -- as it is.
  pub run_task-serve :
      (c : Call) (env : Env git) → run_task unset queue (task_of c) env ≡ some (env >>= serve git c)
  unfolding run_task invoke invoked proxy_task create bind ranked_task0 ranked_task1 new_task0
      new_task1 run_open_repo run_close_repo run_append_data_to_pack run_commit_pack_changes
      run_new_reference run_get_repo_refs handle
  run_task-serve (open_request name, k) env = refl
  run_task-serve (close_request, k) env = refl
  run_task-serve (append_request bytes, k) env = refl
  run_task-serve (commit_request, k) env = refl
  run_task-serve (reference_request ref_name ref_rev, k) env = refl
  run_task-serve (refs_request, k) env = refl

  next_calls :
      (c : Call) (calls : List Call) (env : Env git)
      → ((env >>= serve git c) >>= serve_all git calls) ≡ (env >>= serve_all git (c ∷ calls))
  next_calls c calls none = refl
  next_calls c calls (some p) = refl

  pub end_calls : (env : Env git) → env ≡ (env >>= serve_all git [])
  end_calls none = refl
  end_calls (some p) = refl

  pub run_all-serve_all :
      (calls : List Call) (env : Env git)
      → run_all (run_task unset queue) (map task_of calls) env ≡ some (env >>= serve_all git calls)
  run_all-serve_all [] env = ap some (end_calls env)
  run_all-serve_all (c ∷ calls) env =
      rw (run_task-serve c env)
        (run_all-serve_all calls (env >>= serve git c) ∙ ap some (next_calls c calls env))

module _ (git : Libgit2) where
  set_value-none :
      (promise : ℕ) (reply : Reply) (p : Process git)
      → p.results promise ≡ none
      → set_value git promise reply p
        ≡ some (record p {
          results = λ other. if other == promise then some reply else p.results other;
        })
  unfolding set_value
  set_value-none promise reply p e =
      subst
        (λ old.
          (elim old [
            | none ↦ some (record p {
              results = λ other. if other == promise then some reply else p.results other;
            })
            | some value ↦ none
          ])
          ≡ some (record p {
            results = λ other. if other == promise then some reply else p.results other;
          }))
        (sym e) refl

  pub settle-fresh :
      (c : Call) (reply : Reply) (p : Process git)
      → p.results c.1 ≡ none
      → settle git c reply p ≡ some (record p { results = promised c reply p.results })
  settle-fresh (open_request name, k) reply p e = set_value-none k reply p e
  settle-fresh (close_request, k) reply p e = refl
  settle-fresh (append_request bytes, k) reply p e = set_value-none k reply p e
  settle-fresh (commit_request, k) reply p e = set_value-none k reply p e
  settle-fresh (reference_request ref_name ref_rev, k) reply p e = set_value-none k reply p e
  settle-fresh (refs_request, k) reply p e = set_value-none k reply p e

  pub promised_ne :
      (c : Call) (reply : Reply) (results : ℕ → Option Reply) (k : ℕ)
      → k ≢ c.1
      → promised c reply results k ≡ results k
  promised_ne c reply results k n = ground arith

  still_fresh :
      (c : Call) (reply : Reply) (results : ℕ → Option Reply) (calls : List Call)
      → All (λ d. d.1 ≢ c.1) calls
      → All (λ d. results d.1 ≡ none) calls
      → All (λ d. promised c reply results d.1 ≡ none) calls
  still_fresh c reply results [] differ unset = tt
  still_fresh c reply results (d ∷ calls) (n, differ) (e, unset) =
      (promised_ne c reply results d.1 n ∙ e, still_fresh c reply results calls differ unset)

  abbrev pub also : Reply → Option (List Reply × State git) → Option (List Reply × State git)
  also reply rest = rest >>= λ (replies, s). some (reply ∷ replies, s)

  join_history :
      (c : Call) (calls : List Call) (freed : ℕ → String → String) (reply : Reply)
      (results : ℕ → Option Reply) (rest : Option (List Reply × State git))
      → ended git calls freed (promised c reply results) rest
        ≡ ended git (c ∷ calls) freed results (also reply rest)
  join_history c calls freed reply results none = refl
  join_history c calls freed reply results (some (replies, s)) = refl

  step_history :
      (c : Call) (calls : List Call) (p : Process git) (served : Option (Reply × State git))
      → IsFresh (c ∷ calls) p.results
      → ((p1 : Process git)
          → IsFresh calls p1.results
          → serve_all git calls p1 ≡ history git calls p1)
      → ((served >>= λ (reply, s). settle git c reply (record p { repository = s }))
          >>= serve_all git calls)
        ≡ ended git (c ∷ calls) p.freed p.results (
            served >>= λ (reply, s1). also reply (handle_all git (map (received p.freed) calls) s1))
  step_history c calls p none fresh rest = refl
  step_history c calls p (some (reply, s)) ((differ, distinct), (e, unset)) rest =
      rw (settle-fresh c reply (record p { repository = s }) e) (
        rest _ (distinct, still_fresh c reply p.results calls differ unset)
        ∙ join_history c calls p.freed reply p.results
            (handle_all git (map (received p.freed) calls) s))

  pub serve_all-history :
      (calls : List Call) (p : Process git)
      → IsFresh calls p.results
      → serve_all git calls p ≡ history git calls p
  unfolding handle_all
  serve_all-history [] p fresh = refl
  serve_all-history (c ∷ calls) p fresh =
      step_history c calls p (handle git (received p.freed c) p.repository) fresh
        (serve_all-history calls)
