-- ===== src/Git/Manager.antt =====
-- RepositoryManager.h and RepositoryManager.cpp. Each handler runs under `repoLocker` from start to
-- end, so it is one step. The argument objects carry their data; the promise is the reply.
pub mod Open
pub mod Session
pub mod Broken
pub mod View
use text.Mathlib.Text.{◌==◌ as str_eq}
use mathlib.Core.Option
use gitrpc.Prelude.{
  ℕ, ◌+◌, ◌%◌, ◌^◌, Bool, true, false, not, Option, none, some, List, [], ◌∷◌, String,
  if◌then◌else◌, ◌>>=◌,
}
use gitrpc.Git.Library.{Libgit2, success, is_success}
use gitrpc.Git.Repo.{
  GitRepo, GetRefsResponse, refs_failed, new_repo, open_repo, pack_append, pack_commit,
  create_reference, get_repo_references, delete_repo,
}

pub record Manager (git : Libgit2) : Type 0 where
  pub current_repo : Option (GitRepo git)
  pub repo_ref_cnt : ℕ

-- What the proxy posts, and what comes back through the promise.
pub data Request : Type 0 where
  open_request : String → Request
  close_request : Request
  append_request : List ℕ → Request
  commit_request : Request
  reference_request : (ref_name ref_rev : String) → Request
  refs_request : Request

pub data Reply : Type 0 where
  nothing : Reply
  message : String → Reply
  references : GetRefsResponse → Reply

module _ (git : Libgit2) where
  open git use {World}

  abbrev pub State : Type 0
  State = Manager git × World

  -- The state after Init().
  abbrev pub init : Manager git
  init = record { current_repo = none; repo_ref_cnt = 0 }

  abbrev pub is_current : String → Manager git → Bool
  is_current name m = elim m.current_repo [ none ↦ false | some r ↦ str_eq name r.name ]

  -- The new object replaces the current one, which is not deleted, whether it opens or not.
  unfoldable pub opened : Manager git → String × GitRepo git × World → Reply × State
  opened m (result, r, w) = (
    message result,
    (
      record {
        current_repo = some r;
        repo_ref_cnt = if is_success result then 0 else m.repo_ref_cnt;
      },
      w,
    ),
  )

  unfoldable pub open_repo_task : String → State → Option (Reply × State)
  open_repo_task name (m, w) =
      if not (is_current name m)
      then (new_repo git name >>= λ r. some (opened m (open_repo git true r w)))
      else some (message success, (record m { repo_ref_cnt = (m.repo_ref_cnt + 1) % 2 ^ 32 }, w))

  unfoldable pub close_repo : State → Option (Reply × State)
  close_repo (m, w) = elim m.current_repo [
    | none ↦ some (nothing, (init, w))
    | some r ↦ delete_repo git r w >>= λ w1. some (nothing, (init, w1))
  ]

  abbrev pub replies : Manager git → Option (String × World) → Option (Reply × State)
  replies m result = result >>= λ (reply, w). some (message reply, (m, w))

  unfoldable pub append_data_to_pack : List ℕ → State → Option (Reply × State)
  append_data_to_pack bytes (m, w) = m.current_repo >>= λ r. replies m (pack_append git bytes r w)

  unfoldable pub commit_pack_changes : State → Option (Reply × State)
  commit_pack_changes (m, w) = elim m.current_repo [
    | none ↦ some (message "repo not open", (m, w))
    | some r ↦ replies m (pack_commit git r w)
  ]

  unfoldable pub new_reference : String → String → State → Option (Reply × State)
  new_reference ref_name ref_rev (m, w) = elim m.current_repo [
    | none ↦ some (message "nope", (m, w))
    | some r ↦ replies m (create_reference git ref_rev ref_name r w)
  ]

  unfoldable pub get_repo_refs : State → Option (Reply × State)
  get_repo_refs (m, w) = elim m.current_repo [
    | none ↦ some (references (refs_failed "no repo open"), (m, w))
    | some r ↦ get_repo_references git r w >>= λ (response, w1). some (references response, (m, w1))
  ]

  unfoldable pub handle : Request → State → Option (Reply × State)
  handle (open_request name) s = open_repo_task name s
  handle close_request s = close_repo s
  handle (append_request bytes) s = append_data_to_pack bytes s
  handle commit_request s = commit_pack_changes s
  handle (reference_request ref_name ref_rev) s = new_reference ref_name ref_rev s
  handle refs_request s = get_repo_refs s

  -- A history of requests, with the replies in order.
  unfoldable pub handle_all : List Request → State → Option (List Reply × State)
  handle_all [] s = some ([], s)
  handle_all (q ∷ qs) s = handle q s >>= λ (reply, s1).
      handle_all qs s1 >>= λ (replies_, s2). some (reply ∷ replies_, s2)
