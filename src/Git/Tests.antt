-- ===== src/Git/Tests.antt =====
-- Runs of the repository manager on the small libraries of Samples.
use gitrpc.Prelude.{◌≡◌, ◌∷◌, [], refl, true, false, none, some, List, arith}
use gitrpc.Git.Samples.{holding, path_a, disk, disk-IsQuiet}
use gitrpc.Git.Library.{success, check_for_error}
use gitrpc.Git.Repo.{
  open_repo, open_handle, init_write_pack_functions, new_repo, pack_append, pack_commit,
  create_reference, delete_repo,
}
use gitrpc.Git.Manager.{
  Request, Reply, State, init, open_request, close_request, append_request, commit_request, nothing,
  message, handle, handle_all, open_repo_task, close_repo, append_data_to_pack, commit_pack_changes,
  new_reference, get_repo_refs, opened,
}
use gitrpc.Git.Manager.Open.{IsUsable, text_differ}
use gitrpc.Git.Manager.Session.{IsSession, IsSession-step, handle_all-IsUsable}
use gitrpc.Git.Manager.Broken.{Broken, open_repo_task-Broken}
use gitrpc.Git.Manager.View.{view, view_steps, handle_all-view_steps}

abbrev start : State disk
start = (init disk, (false, []))

abbrev upload : List Request
upload = open_request "a" ∷ append_request (1 ∷ 2 ∷ []) ∷ commit_request ∷ close_request ∷ []

abbrev upload_replies : List Reply
upload_replies = message "success" ∷ message "success" ∷ message "success" ∷ nothing ∷ []

abbrev uploaded : State disk
uploaded = (init disk, (false, "close" ∷ "commit" ∷ "append" ∷ "open" ∷ []))

upload-replies : handle_all disk upload start ≡ some (upload_replies, uploaded)
unfolding handle_all handle open_repo_task close_repo append_data_to_pack commit_pack_changes
    new_reference get_repo_refs new_repo open_repo open_handle init_write_pack_functions pack_append
    pack_commit create_reference delete_repo opened check_for_error
upload-replies = refl

failed_open :
    handle disk (open_request "missing") start
    ≡ some (message "no such repository", (holding none "missing", (true, [])))
unfolding handle_all handle open_repo_task close_repo append_data_to_pack commit_pack_changes
    new_reference get_repo_refs new_repo open_repo open_handle init_write_pack_functions pack_append
    pack_commit create_reference delete_repo opened check_for_error
failed_open = refl

upload-IsSession : IsSession disk upload start
unfolding handle_all handle open_repo_task close_repo append_data_to_pack commit_pack_changes
    new_reference get_repo_refs new_repo open_repo open_handle init_write_pack_functions pack_append
    pack_commit create_reference delete_repo opened check_for_error
upload-IsSession =
    let s1 : State disk = (holding path_a "a", (false, "open" ∷ [])) in
    let s2 : State disk = (holding path_a "a", (false, "append" ∷ "open" ∷ [])) in
    let s3 : State disk = (holding path_a "a", (false, "commit" ∷ "append" ∷ "open" ∷ [])) in
    let last = IsSession-step disk close_request [] s3 (nothing, uploaded) refl tt tt tt in
    let commit =
      IsSession-step disk commit_request (close_request ∷ []) s2 (message success, s3) refl tt tt
        last in
    let append =
      IsSession-step disk (append_request (1 ∷ 2 ∷ [])) (commit_request ∷ close_request ∷ []) s1
        (message success, s2) refl (λ e. ground arith) tt commit in
    IsSession-step disk (open_request "a")
      (append_request (1 ∷ 2 ∷ []) ∷ commit_request ∷ close_request ∷ []) start
      (message success, s1) refl (text_differ "a" "" refl) refl append

handle_all-IsUsable_example :
    (out : List Reply × State disk) × ((handle_all disk upload start ≡ some out)
      × IsUsable disk out.1.0)
handle_all-IsUsable_example = handle_all-IsUsable disk upload start disk-IsQuiet tt upload-IsSession

open_repo_task-Broken_example : Broken disk "missing" (holding none "missing", (true, []))
open_repo_task-Broken_example =
    open_repo_task-Broken disk "missing" (init disk) (false, []) "no such repository"
      (holding none "missing", (true, [])) refl failed_open
      (text_differ "no such repository" "success" refl)

handle_all-view_steps_example :
    view disk uploaded.0 ≡ view_steps upload upload_replies (view disk start.0)
handle_all-view_steps_example =
    handle_all-view_steps disk upload start uploaded upload_replies upload-replies
