-- ===== src/Git/Proxy/Future.antt =====
-- A call of the proxy whose future is waited for.
use gitrpc.Prelude.{
  ℕ, ◌≡◌, refl, ap, ◌∙◌, Bool, true, false, Option, none, some, List, [], ◌∷◌, String, arith,
  if◌then◌else◌, ◌>>=◌,
}
use gitrpc.Dispatch.{Dispatcher}
use gitrpc.Dispatch.Posting.{Addresses, classes}
use gitrpc.Dispatch.Task.{Task}
use gitrpc.Dispatch.Pump.{Pump, Pipe, priority_comparer, message_round}
use gitrpc.PriorityQueue.{PriorityQueue}
use gitrpc.PriorityQueue.Short.{single-Permᴰ}
use gitrpc.Git.Library.{Libgit2}
use gitrpc.Git.Manager.{Reply, State, handle, handle_all}
use gitrpc.Git.Requests.Answers.{proxy, reply_text}
use gitrpc.Git.Proxy.{Args, Process, Env}
use gitrpc.Git.Proxy.Tasks.{Call, is_awaited, promised, received, ended, also, history}
use gitrpc.Git.Proxy.Round.{Pumps, IsMain, post_call, post_calls-ServesAll}

module _ (git : Libgit2) where
  abbrev pub kept : Call → Reply → Option Reply
  kept c reply = if is_awaited c.0 then some reply else none

  -- What the promise of a call holds, and the repository.
  abbrev pub settled : Call → Env git → Option (Option Reply × State git)
  settled c env = env >>= λ p. some (p.results c.1, p.repository)

  -- The text that a wait for the future gives.
  abbrev pub told : Option Reply × State git → Option (String × State git)
  told (none, s) = none
  told (some reply, s) = reply_text reply >>= λ msg. some (msg, s)

  abbrev pub asked : Call → Env git → Option (String × State git)
  asked c env = settled c env >>= told

  pub promised_own :
      (c : Call) (reply : Reply) (results : ℕ → Option Reply)
      → results c.1 ≡ none
      → promised c reply results c.1 ≡ kept c reply
  promised_own c reply results e = ground arith

  settled_as :
      (c : Call) (served : Option (Reply × State git)) (freed : ℕ → String → String)
      (results : ℕ → Option Reply)
      → results c.1 ≡ none
      → settled c (
          ended git (c ∷ []) freed results (served >>= λ (reply, s). also git reply (some ([], s))))
        ≡ (served >>= λ (reply, s). some (kept c reply, s))
  settled_as c none freed results e = refl
  settled_as c (some (reply, s)) freed results e =
      ap (λ result. some (result, s)) (promised_own c reply results e)

  settled-history :
      (c : Call) (p : Process git)
      → p.results c.1 ≡ none
      → settled c (history git (c ∷ []) p)
        ≡ (handle git (received p.freed c) p.repository >>= λ (reply, s). some (kept c reply, s))
  unfolding handle_all
  settled-history c p e =
      settled_as c (handle git (received p.freed c) p.repository) p.freed p.results e

  texts :
      (c : Call) (served : Option (Reply × State git)) (awaited : Bool)
      → (◌>>=◌ {B = Option Reply × State git} served
            (λ (reply, s). some (if awaited then some reply else none, s))
          >>= told)
        ≡ (if awaited
            then (served >>= λ (reply, s). reply_text reply >>= λ msg. some (msg, s))
            else none)
  texts c none true = refl
  texts c none false = refl
  texts c (some (reply, s)) true = refl
  texts c (some (reply, s)) false = refl

  asked-history :
      (c : Call) (p : Process git)
      → p.results c.1 ≡ none
      → asked c (history git (c ∷ []) p)
        ≡ (if is_awaited c.0 then proxy git (received p.freed c) p.repository else none)
  unfolding proxy
  asked-history c p e =
      ap (λ result. result >>= told) (settled-history c p e)
      ∙ texts c (handle git (received p.freed c) p.repository) (is_awaited c.0)

module _ (git : Libgit2) (unset : ℕ → ℕ)
    (queue : PriorityQueue (Task Args (Env git)) (priority_comparer unset)) (pipe : Pipe)
    (a : Addresses) (d : Dispatcher (classes a)) where
  open queue use {Heap, items}

  -- A call of the proxy with a promise that is new is one step of the manager on the request that the manager
  -- receives, which for an open names the text that the task finds at the freed place of the name, and
  -- for all other calls is the request of the call: if the queue of the pump of "Main" was empty, its loop has run its first task and it has no receivers of
  -- messages, the next round of the pump ends with an empty queue and the manager after the request,
  -- and the promise, which a close does not have, holds the reply to it; so a wait for the future
  -- gives what `proxy` gives, and the process has stopped if the request stops it.
  pub post_call-proxy :
      (c : Call) (pumps : Pumps git unset queue pipe a d) (dmp : ℕ) (ready : List ℕ)
      (process : Process git)
      → IsMain git unset queue pipe a d dmp (pumps dmp)
      → items (pumps dmp).task_queue ≡ []
      → process.results c.1 ≡ none
      → (next : Pump Args (Env git) Heap pipe.Channel) × (env : Env git) × (items next.task_queue
          ≡ [])
        × (message_round unset queue pipe ready
              (post_call git unset queue pipe a d c pumps dmp)
              (some process)
            ≡ some (next, env))
        × (settled git c env ≡ (
            handle git (received process.freed c) process.repository >>= λ (reply, s).
            some (kept git c reply, s)))
        × (asked git c env ≡ (
            if is_awaited c.0
            then proxy git (received process.freed c) process.repository
            else none))
  post_call-proxy c pumps dmp ready process main empty fresh =
      let (order, p, _, serves) =
        post_calls-ServesAll git unset queue pipe a d (c ∷ []) pumps dmp main empty in
      let (next, none_left, ran) = serves ready process ((tt, tt), (fresh, tt)) in
      let one : history git order process ≡ history git (c ∷ []) process =
        ap (λ calls. history git calls process) (single-Permᴰ c p) in
      (
        next,
        history git (c ∷ []) process,
        none_left,
        ran ∙ ap (λ env. some (next, env)) one,
        settled-history git c process fresh,
        asked-history git c process fresh,
      )
