-- ===== src/Git/Proxy.antt =====
-- src/services/git/repository/RepoProxy.cpp, the argument structures of GitRepoCommon.h, and the casts of
-- `void*` at the head of the handlers of RepositoryManager.cpp. The proxy posts a task for each call to the
-- receiver "Main", and gives back the future of a promise that the handler sets. A promise is its number.
pub mod Tasks
pub mod Round
pub mod Order
pub mod Future
pub mod Race
pub mod Life
pub mod Handlers
mod Tests
use gitrpc.Prelude.{ℕ, ◌==◌, Option, none, some, List, String, if◌then◌else◌, ◌>>=◌}
use gitrpc.Dispatch.Task.{Task, TaskPriority, high, low, no_return, no_return_args, create}
use gitrpc.Git.Library.{Libgit2}
use gitrpc.Git.Manager.{
  Request, Reply, State, open_request, close_request, append_request, commit_request,
  reference_request, refs_request, open_repo_task, close_repo, append_data_to_pack,
  commit_pack_changes, new_reference, get_repo_refs,
}

-- What a `void*` of this program points to: the members that a handler reads, and the promise. The member
-- repoName is a pointer to the characters of the parameter `name` of OpenRepo, which is destroyed when the call returns,
-- before the task runs: it is given by the text that was there. The data of PackAppend is a pointer into the
-- caller's message, which waits for the result.
pub data Args : Type 0 where
  open_repo_args : (repo_name : String) → (result : ℕ) → Args
  write_pack_data_args : (bytes : List ℕ) → (result : ℕ) → Args
  generic_args : (result : ℕ) → Args
  new_reference_args : (ref_name ref_rev : String) → (result : ℕ) → Args
  get_reference_list_args : (result : ℕ) → Args

-- The macros RANKED_TASK0, RANKED_TASK1, NEW_TASK0 and NEW_TASK1, on a method without a result, each with
-- the block of memory of its task.
module _ {A Env : Type 0} where
  unfoldable pub ranked_task0 : ℕ → (Env → Env) → TaskPriority → Task A Env
  ranked_task0 block f priority = create block (no_return f) priority

  unfoldable pub ranked_task1 : ℕ → (A → Env → Env) → TaskPriority → A → Task A Env
  ranked_task1 block f priority args = create block (no_return_args f (some args)) priority

  unfoldable pub new_task0 : ℕ → (Env → Env) → Task A Env
  new_task0 block f = ranked_task0 block f low

  unfoldable pub new_task1 : ℕ → (A → Env → Env) → A → Task A Env
  new_task1 block f args = ranked_task1 block f low args

-- The manager with the disk, the promises that are set, and what a task finds through a repoName: for each promise
-- and the text that the call had, the text that stands there by then, which may be any. A read of freed memory
-- gives some text here, the same one each time that the task reads it, and does not itself stop the process.
pub record Process (git : Libgit2) : Type 0 where
  pub repository : State git
  pub freed : ℕ → String → String
  pub results : ℕ → Option Reply

module _ (git : Libgit2) where
  -- The process of the tasks, `none` once a handler has stopped it.
  abbrev pub Env : Type 0
  Env = Option (Process git)

  -- std::promise::set_value, which throws if the promise is set already.
  unfoldable pub set_value : ℕ → Reply → Process git → Env
  set_value promise reply p = elim (p.results promise) [
    | none ↦
        some
          (record p { results = λ other. if other == promise then some reply else p.results other })
    | some old ↦ none
  ]

  -- The body of a handler, and the promise set with what it gives.
  abbrev pub answering : ℕ → (State git → Option (Reply × State git)) → Process git → Env
  answering promise body p =
      body p.repository >>= λ (reply, s). set_value promise reply (record p { repository = s })

  -- The handlers, with the type that each one casts its argument to.
  unfoldable pub run_open_repo : Args → Process git → Env
  run_open_repo args p = elim args [
    | open_repo_args repo_name result ↦
        answering result (open_repo_task git (p.freed result repo_name)) p
    | _ ↦ none
  ]

  unfoldable pub run_close_repo : Process git → Env
  run_close_repo p =
      close_repo git p.repository >>= λ (reply, s). some (record p { repository = s })

  unfoldable pub run_append_data_to_pack : Args → Process git → Env
  run_append_data_to_pack args p = elim args [
    | write_pack_data_args bytes result ↦ answering result (append_data_to_pack git bytes) p
    | _ ↦ none
  ]

  unfoldable pub run_commit_pack_changes : Args → Process git → Env
  run_commit_pack_changes args p = elim args [
    | generic_args result ↦ answering result (commit_pack_changes git) p
    | _ ↦ none
  ]

  unfoldable pub run_new_reference : Args → Process git → Env
  run_new_reference args p = elim args [
    | new_reference_args ref_name ref_rev result ↦
        answering result (new_reference git ref_name ref_rev) p
    | _ ↦ none
  ]

  unfoldable pub run_get_repo_refs : Args → Process git → Env
  run_get_repo_refs args p = elim args [
    | get_reference_list_args result ↦ answering result (get_repo_refs git) p
    | _ ↦ none
  ]

  -- A method of the manager, called on the process that the tasks before it have left.
  abbrev pub on_manager : (Args → Process git → Env) → Args → Env → Env
  on_manager handler args env = env >>= λ p. handler args p

  -- The task of each method of the proxy, with the promise of its arguments. CloseRepo has none. The number of the
  -- promise, which a close has too, stands for the block of the task as well.
  unfoldable pub proxy_task : Request → ℕ → Task Args Env
  proxy_task (open_request name) promise =
      new_task1 promise (on_manager run_open_repo) (open_repo_args name promise)
  proxy_task close_request promise = new_task0 promise (λ env. env >>= run_close_repo)
  proxy_task (append_request bytes) promise =
      ranked_task1 promise (on_manager run_append_data_to_pack) high
        (write_pack_data_args bytes promise)
  proxy_task commit_request promise =
      ranked_task1 promise (on_manager run_commit_pack_changes) high (generic_args promise)
  proxy_task (reference_request ref_name ref_rev) promise =
      new_task1 promise (on_manager run_new_reference) (new_reference_args ref_name ref_rev promise)
  proxy_task refs_request promise =
      new_task1 promise (on_manager run_get_repo_refs) (get_reference_list_args promise)
