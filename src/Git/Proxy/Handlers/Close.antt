-- ===== src/Git/Proxy/Handlers/Close.antt =====
-- A close of RepoStateChange, which is answered before it runs.
use mathlib.Core.List.{Permᴰ}
use gitrpc.Prelude.{ℕ, suc, ◌≡◌, refl, true, false, some, List, [], ◌∷◌, String}
use gitrpc.Dispatch.{Dispatcher}
use gitrpc.Dispatch.Posting.{Addresses, classes}
use gitrpc.Dispatch.Task.{Task}
use gitrpc.Dispatch.Pump.{Pump, Pipe, priority_comparer, message_round}
use gitrpc.PriorityQueue.{PriorityQueue}
use gitrpc.Git.Library.{Libgit2}
use gitrpc.Git.Manager.{close_request}
use gitrpc.Git.Requests.Answers.{Finished, write, ok_status}
use gitrpc.Git.Proxy.{Args, Env}
use gitrpc.Git.Proxy.Tasks.{Call, task_of, IsFresh, history}
use gitrpc.Git.Proxy.Order.{AreSorted, ordered_sorted}
use gitrpc.Git.Proxy.Round.{IsMain, post_call, items-post_calls, post_calls-ServesAll}
use gitrpc.Git.Proxy.Handlers.{Server, posted_change_repository_state}

-- The answer of a request that succeeded.
abbrev pub succeeded : Finished
succeeded = record {
  response = record { success = true; error_message = "success" };
  status = ok_status "Success";
}

module _ (git : Libgit2) (unset : ℕ → ℕ)
    (queue : PriorityQueue (Task Args (Env git)) (priority_comparer unset)) (pipe : Pipe)
    (a : Addresses) (d : Dispatcher (classes a)) (dmp : ℕ) (reports : ℕ → List ℕ) where
  open queue use {Heap, items}

  -- A close is answered with success before it has run: the process is as it was, with the repository still open if
  -- one was, and the task of the close is all there is in the queue of the pump of "Main", if that was
  -- empty, its loop has run its first task and it has no receivers of messages. Whatever call of the proxy comes next,
  -- if the promises are new, the round that follows serves the two in an order in which that call comes
  -- before the close if its unset priority is below LOW, and after it if that is above LOW.
  pub posted_change_repository_state-AreSorted :
      (name : String) (c : Call) (ready : List ℕ) (s : Server git unset queue pipe a d dmp reports)
      → IsMain git unset queue pipe a d dmp (s.pumps dmp)
      → items (s.pumps dmp).task_queue ≡ []
      → IsFresh (c ∷ (close_request, s.next_promise) ∷ []) s.process.results
      → (s1 : Server git unset queue pipe a d dmp reports) × (order : List Call) × (next : Pump Args
          (Env git)
          Heap
          pipe.Channel)
        × (posted_change_repository_state git unset queue pipe a d dmp reports
              (record { new_repo_state = false; repo_name = name })
              s
            ≡ some (succeeded, s1))
        × (s1.process ≡ s.process)
        × Permᴰ
            (items (s1.pumps dmp).task_queue)
            (task_of git unset queue (close_request, s.next_promise) ∷ [])
        × Permᴰ (c ∷ (close_request, s.next_promise) ∷ []) order
        × AreSorted unset order
        × (message_round unset queue pipe ready
              (post_call git unset queue pipe a d c s1.pumps dmp)
              (some s1.process)
            ≡ some (next, history git order s.process))
  unfolding posted_change_repository_state write
  posted_change_repository_state-AreSorted name c ready s main empty fresh =
      let close : Call = (close_request, s.next_promise) in
      let (order, p, ordered, serves) =
        post_calls-ServesAll git unset queue pipe a d (c ∷ close ∷ []) s.pumps dmp main empty in
      let (next, _, ran) = serves ready s.process fresh in
      (
        record s {
          pumps = post_call git unset queue pipe a d close s.pumps;
          next_promise = suc s.next_promise;
        },
        order,
        next,
        refl,
        refl,
        items-post_calls git unset queue pipe a d (close ∷ []) s.pumps dmp main empty,
        p,
        ordered_sorted git unset queue order ordered,
        ran,
      )
