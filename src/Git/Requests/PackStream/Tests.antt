-- ===== src/Git/Requests/PackStream/Tests.antt =====
-- Streams into the repository "a" of the small library.
use gitrpc.Prelude.{ℕ, ◌≡◌, ◌++◌, ◌∷◌, [], refl, Bool, true, false, some, List, String}
use gitrpc.Git.Samples.{disk, holding, path_a}
use gitrpc.Git.Library.{Libgit2, success, check_for_error}
use gitrpc.Git.Manager.{
  State, append_request, commit_request, handle, append_data_to_pack, commit_pack_changes,
}
use gitrpc.Git.Repo.{pack_append, pack_commit}
use gitrpc.Git.Requests.Answers.{proxy, ok_status}
use gitrpc.Git.Requests.PackStream.{
  PackMessage, no_message, finish, new_stream, success_response, stream_loop,
}
use gitrpc.Git.Requests.PackStream.Upload.{event, rounds, progress, reading, stream_loop-upload}
use gitrpc.Git.Requests.PackStream.Races.{stream_loop-append_failed}

abbrev chunk : List ℕ → Bool → PackMessage
chunk bytes done = record { repo_name = "a"; pack_data = bytes; done = done }

abbrev after_calls : List String → State disk
after_calls calls = (holding path_a "a", (false, calls))

appended :
    (calls : List String) (bytes : List ℕ)
    → proxy disk (append_request bytes) (after_calls calls)
      ≡ some (success, after_calls ("append" ∷ calls))
unfolding proxy handle append_data_to_pack pack_append
appended calls bytes = refl

committed :
    (calls : List String)
    → proxy disk commit_request (after_calls calls) ≡ some (success, after_calls ("commit" ∷ calls))
unfolding proxy handle commit_pack_changes pack_commit
committed calls = refl

-- Two messages with data, and a last one without.
stream_loop-upload_example :
    stream_loop disk
      (event no_message ∷ rounds (chunk (1 ∷ []) false ∷ chunk (2 ∷ []) false ∷ chunk [] true ∷ []))
      (new_stream disk [] [] (after_calls []))
    ≡ some (
        new_stream disk []
          (progress ∷ progress ∷ progress ∷ finish success_response (ok_status "") ∷ [])
          (after_calls ("commit" ∷ "append" ∷ "append" ∷ [])))
stream_loop-upload_example =
    stream_loop-upload disk (chunk (1 ∷ []) false ∷ chunk (2 ∷ []) false ∷ []) (chunk [] true)
      (after_calls []) (after_calls ("append" ∷ "append" ∷ []))
      (after_calls ("commit" ∷ "append" ∷ "append" ∷ [])) (refl, (refl, tt)) refl refl
      (_, (appended [] (1 ∷ []), (_, (appended _ (2 ∷ []), (_, (refl, refl)))))) (committed _)

-- A disk that is full.
abbrev full : Libgit2
full = record disk { writepack_append = λ pack bytes w. (false, (true, w.1)) }

abbrev full_state : Bool → State full
full_state failed_ = (
  record {
    current_repo = some (record {
      name = "a";
      repo_path = "/home/rstat1/Apps/test/a";
      repo = path_a;
      odb = path_a;
      wp = path_a;
    });
    repo_ref_cnt = 0;
  },
  (failed_, []),
)

not_appended :
    proxy full (append_request (1 ∷ [])) (full_state false)
    ≡ some ("no such repository", full_state true)
unfolding proxy handle append_data_to_pack pack_append check_for_error
not_appended = refl

stream_loop-append_failed_example :
    stream_loop full
      (event (chunk (1 ∷ []) true) ∷ event no_message ∷ [])
      (reading full false no_message [] (full_state false))
    ≡ some (reading full true (chunk (1 ∷ []) true) ([] ++ progress ∷ []) (full_state true))
stream_loop-append_failed_example =
    stream_loop-append_failed full "a" true 1 [] false no_message [] (full_state false)
      (full_state true) "no such repository" not_appended refl
