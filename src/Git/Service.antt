-- ===== src/Git/Service.antt =====
-- src/services/git/GitServiceImpl.cpp, the synchronous service. A call gives its response and status, and
-- `none` where it follows a pointer that was never set. `merged` says whether the literals "success" of
-- GitRepo.cpp and GitServiceImpl.cpp are one object: the code compares their addresses.
pub mod Bracket
pub mod Reference
mod Tests
use Prim.Native.String
use gitrpc.Prelude.{
  ℕ, Bool, true, false, ◌&&◌, Option, none, some, List, [], ◌∷◌, ◌++◌, String, if◌then◌else◌, ◌>>=◌,
}
use gitrpc.Git.Library.{Libgit2, attempt, checked, is_success, check_for_error}
use gitrpc.Git.Repo.{
  GitRepo, default_repo_path, new_repo, open_repo, pack_append, pack_commit, delete_repo,
}
use gitrpc.Git.Requests.Answers.{
  GenericResponse, Status, ok_status, internal_status, unknown_status, unimplemented_status,
  WriteReferenceRequest,
}
use gitrpc.Git.Requests.PackStream.{PackMessage}

-- GitServiceImpl::Response.
unfoldable pub service_response : String → Bool → (String → Status) → GenericResponse × Status
service_response msg success status =
    if success
    then (record { success = true; error_message = "Success" }, ok_status "")
    else (record { success = false; error_message = msg }, status msg)

-- The macro REPO_PATH.
unfoldable pub repo_path : String → String
repo_path name = String.◌++◌ default_repo_path name

unfoldable pub convert_repo_name_to_path : String → String
convert_repo_name_to_path name = String.◌++◌ (repo_path name) "/"

-- A response of a message type that the code does not fill in.
abbrev pub unset_response : GenericResponse
unset_response = record { success = false; error_message = "" }

-- UploadPack and UploadPackStream.
unfoldable pub upload_pack : Status
upload_pack = ok_status ""

unfoldable pub upload_pack_stream : Status
upload_pack_stream = unimplemented_status "Work in progress under construction"

module _ (git : Libgit2) (merged : Bool) where
  open git use {World, Reference}

  -- What a call gives.
  abbrev pub Answer : Type 0
  Answer = (GenericResponse × Status) × World

  -- `msg != "success"`, negated, for a message that a method of GitRepo returned.
  abbrev pub is_literal : String → Bool
  is_literal msg = merged && is_success msg

  abbrev pub refused : String → World → Answer
  refused msg w = (service_response msg false internal_status, w)

  unfoldable pub delete_and_refuse : String → GitRepo git → World → Option Answer
  delete_and_refuse msg repo w = delete_repo git repo w >>= λ w1. some (refused msg w1)

  -- PackAppend of one message.
  unfoldable pub receive_data :
      PackMessage → (World → Option Answer) → GitRepo git → World → Option Answer
  receive_data request next repo w = pack_append git request.pack_data repo w >>= λ (msg, w1).
      if is_literal msg then next w1 else delete_and_refuse msg repo w1

  -- The code after the loop, with a repository that is open.
  unfoldable pub receive_end : GitRepo git → World → Option Answer
  receive_end repo w = pack_commit git repo w >>= λ (msg, w1).
      if is_literal msg
      then (delete_repo git repo w1 >>= λ w2. some (service_response "success" true ok_status, w2))
      else delete_and_refuse msg repo w1

  -- The rounds of the loop with `repoOpen` set.
  unfoldable pub receive_loop : List PackMessage → GitRepo git → World → Option Answer
  receive_loop [] repo w = receive_end repo w
  receive_loop (request ∷ requests) repo w =
      receive_data request (λ w1. receive_loop requests repo w1) repo w

  -- The part of the first round that opens the repository, and is left without a `delete` if that fails.
  unfoldable pub receive_open :
      PackMessage → (GitRepo git → World → Option Answer) → World → Option Answer
  receive_open request next w = new_repo git (repo_path request.repo_name) >>= λ created.
      let (msg, repo, w1) = open_repo git true created w in
      if is_literal msg then next repo w1 else some (refused msg w1)

  -- ReceivePackStream, on the messages that Read gives before it fails.
  unfoldable pub receive_pack_stream : List PackMessage → World → Option Answer
  receive_pack_stream [] w = some (
    service_response "the repo was not opened, pak file must have been empty" false unknown_status,
    w,
  )
  receive_pack_stream (request ∷ requests) w =
      receive_open request (λ repo w1. receive_loop (request ∷ requests) repo w1) w

  -- The callback GetRepoReferences, and git_reference_foreach with it.
  unfoldable pub get_repo_reference : Reference → List String × World → List String × World
  get_repo_reference ref (refs, w) = (refs ++ git.reference_name ref ∷ [], git.reference_free ref w)

  unfoldable pub call_back : List Reference → List String × World → List String × World
  call_back [] state = state
  call_back (ref ∷ refs) state = call_back refs (get_repo_reference ref state)

  -- ListRefs, whose response is the list of names. A failed open leaves `repo` unset.
  unfoldable pub list_refs : String → World → Option ((List String × Status) × World)
  list_refs name w =
      attempt (git.repository_open_bare (repo_path name) w) (λ w1. none)
        (λ repo w1.
          let (refs, w2) = git.reference_foreach repo w1 in
          let (names, w3) = call_back refs ([], w2) in
          some ((names, ok_status ""), git.repository_free repo w3))

  -- InitRepository, which leaves the response as it is if it succeeds.
  unfoldable pub init_repository : String → World → Answer
  init_repository name w =
      attempt (git.repository_init (repo_path name) w)
        (λ w1. refused "failed to initialize repo" w1)
        (λ repo w1. ((unset_response, ok_status ""), git.repository_free repo w1))

  -- WriteReference, which frees the repository only at its end.
  unfoldable pub service_write_reference : WriteReferenceRequest → World → Answer
  service_write_reference request w =
      attempt (git.repository_open_bare (repo_path "new-server") w)
        (λ w1. refused (check_for_error git w1) w1)
        (λ repo w1.
          attempt (git.oid_fromstr request.ref_rev w1) (λ w2. refused (check_for_error git w2) w2)
            (λ oid w2.
              attempt (git.reference_create repo request.ref_name oid w2)
                (λ w3. refused (check_for_error git w3) w3)
                (λ new_ref w3.
                  checked (git.repository_set_head repo request.ref_name w3)
                    (λ w4. refused (check_for_error git w4) w4)
                    (λ w4. (
                      service_response "success" true ok_status,
                      git.repository_free repo (git.reference_free new_ref w4),
                    )))))
