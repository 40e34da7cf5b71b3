-- ===== src/Git/Repo.antt =====
-- GitRepo.h, GitRepo.cpp and GitRepoCommon.h. A pointer that no call has set is `none`; a method
-- returns `none` where it follows such a pointer or fails an assertion: the process is gone.
use text.Mathlib.Text.{◌==◌ as str_eq}
use Prim.Native.String
use gitrpc.Prelude.{
  ℕ, Bool, true, false, Option, none, some, List, [], String, if◌then◌else◌, ◌>>=◌,
}
use gitrpc.Git.Library.{Libgit2, Next, attempt, checked, success, check_for_error}

pub record ReferenceInfo : Type 0 where
  pub ref_name : String
  pub ref_hash : String

pub record GetRefsResponse : Type 0 where
  pub ok : Bool
  pub error : String
  pub refs : List ReferenceInfo

abbrev pub refs_failed : String → GetRefsResponse
refs_failed error = record { ok = false; error = error; refs = [] }

abbrev pub default_repo_path : String
default_repo_path = "/home/rstat1/Apps/test/"

pub record GitRepo (git : Libgit2) : Type 0 where
  pub name : String
  pub repo_path : String
  pub repo : Option git.Repository
  pub odb : Option git.Odb
  pub wp : Option git.Writepack

module _ (git : Libgit2) where
  open git use {World, Repository, Odb, Reference}

  -- GitRepo(std::string name), which asserts that the name is not empty.
  unfoldable pub new_repo : String → Option (GitRepo git)
  new_repo name =
      if str_eq name ""
      then none
      else some (record {
        name = name;
        repo_path = String.◌++◌ default_repo_path name;
        repo = none;
        odb = none;
        wp = none;
      })

  -- A method that may change the object returns its result, the object and the world.
  unfoldable pub init_write_pack_functions :
      Odb → GitRepo git → World → String × GitRepo git × World
  init_write_pack_functions odb r w =
      attempt (git.odb_write_pack odb w) (λ w1. (check_for_error git w1, r, w1))
        (λ wp w1. (success, record r { wp = some wp }, w1))

  unfoldable pub open_handle : Bool → String → World → Option Repository × World
  open_handle bare path w =
      if bare then git.repository_open_bare path w else git.repository_open path w

  unfoldable pub open_repo : Bool → GitRepo git → World → String × GitRepo git × World
  open_repo bare r w =
      attempt (open_handle bare r.repo_path w) (λ w1. (check_for_error git w1, r, w1))
        (λ repo w1.
          attempt (git.repository_odb repo w1)
            (λ w2. (check_for_error git w2, record r { repo = some repo }, w2))
            (λ odb w2.
              init_write_pack_functions odb (record r { repo = some repo; odb = some odb }) w2))

  unfoldable pub pack_append : List ℕ → GitRepo git → World → Option (String × World)
  pack_append bytes r w = r.wp >>= λ wp.
      checked (git.writepack_append wp bytes w) (λ w1. some (check_for_error git w1, w1))
        (λ w1. some (success, w1))

  unfoldable pub pack_commit : GitRepo git → World → Option (String × World)
  pack_commit r w = r.wp >>= λ wp.
      checked (git.writepack_commit wp w) (λ w1. some (check_for_error git w1, w1))
        (λ w1. some (success, w1))

  unfoldable pub create_reference : String → String → GitRepo git → World → Option (String × World)
  create_reference ref_rev ref_name r w =
      attempt (git.oid_fromstr ref_rev w) (λ w1. some (check_for_error git w1, w1))
        (λ oid w1. r.repo >>= λ repo.
          attempt (git.reference_create repo ref_name oid w1)
            (λ w2. some (check_for_error git w2, w2))
            (λ new_ref w2.
              checked (git.repository_set_head repo ref_name w2)
                (λ w3. some (check_for_error git w3, w3))
                (λ w3. some (success, git.reference_free new_ref w3))))

  -- The loop of GetRepoReferences. Its first round reads an unset reference if the library failed,
  -- and otherwise has git_reference_name_to_id write through the unset pointer `objectID`.
  unfoldable pub first_reference : Next Reference → Option (Bool × String × List ReferenceInfo)
  first_reference (Next.item ref) = none
  first_reference Next.failed = none
  first_reference Next.over = some (true, success, [])

  unfoldable pub get_repo_references : GitRepo git → World → Option (GetRefsResponse × World)
  get_repo_references r w = r.repo >>= λ repo.
      attempt (git.reference_iterator_new repo w)
        (λ w1. some (refs_failed (check_for_error git w1), w1))
        (λ iter w1.
          let (next, w2) = git.reference_next iter w1 in
          first_reference next >>= λ (ok, error, refs).
          some
            (record { ok = ok; error = error; refs = refs }, git.reference_iterator_free iter w2))

  -- ~GitRepo. The odb and the repository are set if the write pack is.
  unfoldable pub delete_repo : GitRepo git → World → Option World
  delete_repo r w = r.wp >>= λ wp. r.odb >>= λ odb. r.repo >>= λ repo.
      some (git.repository_free repo (git.odb_free odb (git.writepack_free wp w)))
