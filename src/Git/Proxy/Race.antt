-- ===== src/Git/Proxy/Race.antt =====
-- What the priorities of the tasks of the proxy mean for calls that wait in the queue of "Main" together.
use mathlib.Core.List.{Permᴰ}
use gitrpc.Prelude.{
  ℕ, ◌<◌, ◌≡◌, inl, inr, refl, sym, ap, subst, ◌∙◌, Option, none, some, List, [], ◌∷◌, String,
  ◌>>=◌, bind_rule, arith,
}
use gitrpc.Dispatch.{Dispatcher}
use gitrpc.Dispatch.Posting.{Addresses, classes}
use gitrpc.Dispatch.Task.{Task}
use gitrpc.Dispatch.Pump.{Pump, Pipe, priority_comparer, message_round}
use gitrpc.PriorityQueue.{PriorityQueue}
use gitrpc.PriorityQueue.Short.{pair-Permᴰ}
use gitrpc.Git.Library.{Libgit2}
use gitrpc.Git.Repo.{GitRepo, delete_repo}
use gitrpc.Git.Manager.{
  Reply, State, init, nothing, open_request, close_request, append_request, handle, handle_all,
  close_repo, append_data_to_pack,
}
use gitrpc.Git.Proxy.{Args, Process, Env}
use gitrpc.Git.Proxy.Tasks.{Call, IsFresh, ended, also, history}
use gitrpc.Git.Proxy.Round.{Pumps, IsMain, post_calls, post_calls-ServesAll}
use gitrpc.Git.Proxy.Order.{low_number, AreSorted, AreOrdered, later-MayPrecede, ordered_sorted}

module _ (git : Libgit2) where
  -- What holds of a result, if there is one.
  abbrev pub Ends : {A : Type 0} → (A → Type 0) → Option A → Type 0
  Ends P none = Unit {0}
  Ends P (some a) = P a

  abbrev IsClosed : Reply × State git → Type 0
  IsClosed (reply, (m, w)) = m ≡ init git

  current-IsClosed :
      (current : Option (GitRepo git)) (w : git.World)
      → Ends IsClosed (elim current [
        | none ↦ some (nothing, (init git, w))
        | some r ↦
            ◌>>=◌ {B = Reply × State git}
              (delete_repo git r w)
              (λ w1. some (nothing, (init git, w1)))
      ])
  current-IsClosed none w = refl
  current-IsClosed (some r) w =
      bind_rule (Ends IsClosed) (delete_repo git r w) (λ w1. some (nothing, (init git, w1))) tt
        (λ w1 e. refl)

  close_repo-IsClosed : (s : State git) → Ends IsClosed (close_repo git s)
  unfolding close_repo
  close_repo-IsClosed (m, w) = current-IsClosed m.current_repo w

  append_closed :
      (bytes : List ℕ) (s : State git) → s.0 ≡ init git → handle git (append_request bytes) s ≡ none
  unfolding handle append_data_to_pack
  append_closed bytes (m, w) e =
      subst (λ x. append_data_to_pack git bytes (x, w) ≡ none) (sym e) refl

  -- The open has its answer, and no repository is there any more.
  abbrev pub IsLost : ℕ → Option Reply → Process git → Type 0
  IsLost k answer p =
      (p.results k ≡ answer)
      × (p.repository.0 ≡ init git)
      × ((bytes : List ℕ) → handle git (append_request bytes) p.repository ≡ none)

  opened_then_closed :
      (name : String) (k j : ℕ) (reply : Reply) (freed : ℕ → String → String)
      (results : ℕ → Option Reply) (closed : Option (Reply × State git))
      → Ends IsClosed closed
      → Ends (IsLost k (some reply)) (
          ended git
            ((open_request name, k) ∷ (close_request, j) ∷ [])
            freed
            results
            (also git reply (closed >>= λ (last, s). also git last (some ([], s)))))
  opened_then_closed name k j reply freed results none e = tt
  opened_then_closed name k j reply freed results (some (last, s)) e =
      (ground arith, e, λ bytes. append_closed bytes s e)

  abbrev pub first_reply : Option (Reply × State git) → Option Reply
  first_reply served = served >>= λ (reply, s). some reply

  opened_and_closed :
      (name : String) (k j : ℕ) (freed : ℕ → String → String) (results : ℕ → Option Reply)
      (served : Option (Reply × State git))
      → Ends (IsLost k (first_reply served)) (
          ended git ((open_request name, k) ∷ (close_request, j) ∷ []) freed results (
            served >>= λ (reply, s).
            also git reply (close_repo git s >>= λ (last, s1). also git last (some ([], s1)))))
  opened_and_closed name k j freed results none = tt
  opened_and_closed name k j freed results (some (reply, s)) =
      opened_then_closed name k j reply freed results (close_repo git s) (close_repo-IsClosed s)

  history-IsLost :
      (name : String) (k j : ℕ) (process : Process git)
      → Ends
          (IsLost k
            (first_reply (handle git (open_request (process.freed k name)) process.repository)))
          (history git ((open_request name, k) ∷ (close_request, j) ∷ []) process)
  unfolding handle_all handle
  history-IsLost name k j process =
      opened_and_closed name k j process.freed process.results
        (handle git (open_request (process.freed k name)) process.repository)

module _ (git : Libgit2) (unset : ℕ → ℕ)
    (queue : PriorityQueue (Task Args (Env git)) (priority_comparer unset)) (pipe : Pipe)
    (a : Addresses) (d : Dispatcher (classes a)) where
  open queue use {Heap, items}

  -- Whatever calls the threads of the process make of the proxy before the pump of "Main" comes to its next
  -- round, with promises that are new, and whatever their order: if the queue of the pump was empty, its loop has
  -- run its first task and it has no receivers of messages, the round serves all the calls in an order
  -- in which a close comes after every call whose priority, which Bind leaves unset, is below LOW and
  -- before every one where it is above LOW, and the other calls come by the values of their unset
  -- priorities; each call has a value of its own.
  pub post_calls-AreSorted :
      (calls : List Call) (pumps : Pumps git unset queue pipe a d) (dmp : ℕ)
      → IsMain git unset queue pipe a d dmp (pumps dmp)
      → items (pumps dmp).task_queue ≡ []
      → (order : List Call) × Permᴰ calls order
        × AreSorted unset order
        × ((ready : List ℕ) (process : Process git)
            → IsFresh calls process.results
            → (next : Pump Args (Env git) Heap pipe.Channel) × (message_round unset queue pipe ready
                  (post_calls git unset queue pipe a d calls pumps dmp)
                  (some process)
                ≡ some (next, history git order process)))
  post_calls-AreSorted calls pumps dmp main empty =
      let (order, p, ordered, serves) =
        post_calls-ServesAll git unset queue pipe a d calls pumps dmp main empty in
      (
        order,
        p,
        ordered_sorted git unset queue order ordered,
        λ ready process fresh.
            let (next, none_left, ran) = serves ready process fresh in (next, ran),
      )

  open_first :
      (name : String) (k j : ℕ) (order : List Call)
      → unset k < low_number
      → Permᴰ ((open_request name, k) ∷ (close_request, j) ∷ []) order
      → AreOrdered git unset queue order
      → order ≡ (open_request name, k) ∷ (close_request, j) ∷ []
  open_first name k j order small p ordered = elim (pair-Permᴰ _ _ p) [
    | inl same ↦ same
    | inr swapped ↦
        let in_order = subst (AreOrdered git unset queue) swapped ordered in
        absurd (
          ground (
            arith,
            later-MayPrecede git unset queue (close_request, j) (open_request name, k) in_order.0.0,
          ))
  ]

  -- A client closes the repository, which is answered without a wait, and opens one before the pump of "Main" comes to
  -- its next round: if the priority that Bind leaves unset is below LOW for the task of the open, the open runs first and
  -- the close after it. So if the process has not stopped, the open has the answer to what its task finds at the freed place of the name, and no repository is open, and the
  -- next append stops the process. The promises are new, the queue of the pump was empty, its loop has
  -- run its first task and it has no receivers of messages.
  pub post_calls-IsLost :
      (name : String) (k j : ℕ) (pumps : Pumps git unset queue pipe a d) (dmp : ℕ) (ready : List ℕ)
      (process : Process git)
      → unset k < low_number
      → IsMain git unset queue pipe a d dmp (pumps dmp)
      → items (pumps dmp).task_queue ≡ []
      → IsFresh ((open_request name, k) ∷ (close_request, j) ∷ []) process.results
      → (next : Pump Args (Env git) Heap pipe.Channel) × (env : Env git) × (message_round unset
            queue pipe ready
            (post_calls git unset queue pipe a d
              ((open_request name, k) ∷ (close_request, j) ∷ [])
              pumps
              dmp)
            (some process)
          ≡ some (next, env))
        × Ends git
            (IsLost git k (
              first_reply git
                (handle git (open_request (process.freed k name)) process.repository)))
            env
  post_calls-IsLost name k j pumps dmp ready process small main empty fresh =
      let calls = (open_request name, k) ∷ (close_request, j) ∷ [] in
      let (order, p, ordered, serves) =
        post_calls-ServesAll git unset queue pipe a d calls pumps dmp main empty in
      let (next, none_left, ran) = serves ready process fresh in
      let same : history git order process ≡ history git calls process =
        ap (λ cs. history git cs process) (open_first name k j order small p ordered) in
      (
        next,
        history git calls process,
        ran ∙ ap (λ env. some (next, env)) same,
        history-IsLost git name k j process,
      )
