-- ===== src/Git/Service/Reference.antt =====
-- WriteReference and ListRefs of GitServiceImpl.cpp, against the methods of GitRepo.
use text.Mathlib.TextEquality.{eq_iff}
use gitrpc.Prelude.{
  ◌≡◌, refl, ap, ◌∙◌, Bool, true, false, Option, none, some, List, [], ◌∷◌, ◌++◌, map, append_assoc,
  append-nil, String, if◌then◌else◌, ◌>>=◌, arith,
}
use gitrpc.Git.Library.{
  Libgit2, attempt, attempt_both, checked_both, is_success, success, check_for_error,
}
use gitrpc.Git.Repo.{GitRepo, create_reference}
use gitrpc.Git.Manager.Open.{IsQuiet, check_for_error-ne}
use gitrpc.Git.Requests.Answers.{ok_status, WriteReferenceRequest}
use gitrpc.Git.Service.{
  Answer, service_response, repo_path, refused, get_repo_reference, call_back, list_refs,
  service_write_reference,
}

module _ (git : Libgit2) (merged : Bool) where
  open git use {World, Repository, Reference}

  -- The object of GitRepo that has only its repository.
  abbrev pub over_repository : Repository → GitRepo git
  over_repository repo = record {
    name = "new-server";
    repo_path = repo_path "new-server";
    repo = some repo;
    odb = none;
    wp = none;
  }

  -- The answer to the message of CreateReference; the repository is freed with the message "success" only.
  abbrev pub answer_reference : Repository → String × World → Answer git merged
  answer_reference repo (msg, w) =
      if is_success msg
      then (service_response "success" true ok_status, git.repository_free repo w)
      else refused git merged msg w

  quiet_error : IsQuiet git → (w : World) → is_success (check_for_error git w) ≡ false
  quiet_error quiet w =
      let differs = check_for_error-ne git quiet w in
      ground (arith, eq_iff (check_for_error git w) success)

  -- The answer goes with what the method gives.
  abbrev Follows : Repository → Answer git merged → Option (String × World) → Type 0
  Follows repo answer result = some answer ≡ (result >>= λ out. some (answer_reference repo out))

  error-Follows :
      (repo : Repository) (w : World)
      → IsQuiet git
      → Follows repo
          (refused git merged (check_for_error git w) w)
          (some (check_for_error git w, w))
  error-Follows repo w quiet = rw (quiet_error quiet w) refl

  -- WriteReference opens the repository "new-server", whatever name the request has, and then does what
  -- CreateReference of GitRepo does on it, with the revision and the name of the request: it answers with that
  -- method's message, as a success if the message is "success", in which case alone the repository is
  -- freed, and as an internal error otherwise. If the open fails, it answers with its error. libgit2
  -- never reports the text "success" for an error.
  pub service_write_reference-create_reference :
      (request : WriteReferenceRequest) (w : World)
      → IsQuiet git
      → some (service_write_reference git merged request w)
        ≡ attempt
            (git.repository_open_bare (repo_path "new-server") w)
            (λ w1. some (refused git merged (check_for_error git w1) w1))
            (λ repo w1.
              create_reference git request.ref_rev request.ref_name (over_repository repo) w1
              >>= λ out. some (answer_reference repo out))
  unfolding service_write_reference create_reference
  service_write_reference-create_reference request w quiet =
      attempt_both (λ x y. some x ≡ y) (git.repository_open_bare (repo_path "new-server") w) _ _ _ _
        (λ w1. refl)
        (λ repo w1.
          attempt_both (Follows repo) (git.oid_fromstr request.ref_rev w1) _ _ _ _
            (λ w2. error-Follows repo w2 quiet)
            (λ oid w2.
              attempt_both (Follows repo) (git.reference_create repo request.ref_name oid w2) _ _ _
                _ (λ w3. error-Follows repo w3 quiet)
                (λ new_ref w3.
                  checked_both (Follows repo) (git.repository_set_head repo request.ref_name w3) _ _
                    _ _ (λ w4. error-Follows repo w4 quiet) (λ w4. refl))))

  -- The world after each of the references is freed, in order.
  abbrev pub free_all : List Reference → World → World
  free_all [] w = w
  free_all (ref ∷ refs) w = free_all refs (git.reference_free ref w)

  call_back-map :
      (refs : List Reference) (names : List String) (w : World)
      → call_back git merged refs (names, w)
        ≡ (names ++ map git.reference_name refs, free_all refs w)
  unfolding call_back get_repo_reference
  call_back-map [] names w = rw (append-nil names) refl
  call_back-map (ref ∷ refs) names w =
      call_back-map refs (names ++ git.reference_name ref ∷ []) (git.reference_free ref w)
      ∙ ap (λ x. (x, free_all refs (git.reference_free ref w)))
          (append_assoc names (git.reference_name ref ∷ []) (map git.reference_name refs))

  -- If the repository of the name opens, ListRefs answers with the names of all its references, in the
  -- order in which libgit2 gives them, frees every reference, then the repository, and reports
  -- success.
  list_refs-map :
      (name : String) (w w1 : World) (repo : Repository)
      → git.repository_open_bare (repo_path name) w ≡ (some repo, w1)
      → list_refs git merged name w ≡ (
          let (refs, w2) = git.reference_foreach repo w1 in
          some (
            (map git.reference_name refs, ok_status ""),
            git.repository_free repo (free_all refs w2),
          ))
  unfolding list_refs
  list_refs-map name w w1 repo e =
      let (refs, w2) = git.reference_foreach repo w1 in
      rw e (
        ap (λ x. some ((x.0, ok_status ""), git.repository_free repo x.1))
          (call_back-map refs [] w2))
