-- ===== src/Git/Manager/Open.antt =====
-- The object of a repository whose pointers are all set: what makes it, and which calls it serves.
use text.Mathlib.Text.{◌==◌ as str_eq}
use text.Mathlib.TextEquality.{eq_iff}
use gitrpc.Prelude.{
  ℕ, ◌≡◌, ◌≢◌, refl, inl, inr, true, false, Option, none, some, List, String, arith, Option-cases,
}
use gitrpc.Git.Library.{Libgit2, attempt_rule, checked_rule, success, check_for_error}
use gitrpc.Git.Repo.{
  GitRepo, new_repo, init_write_pack_functions, open_handle, open_repo, pack_append, pack_commit,
  create_reference, delete_repo,
}
use gitrpc.Git.Manager.{
  Manager, Request, Reply, State, open_request, close_request, append_request, commit_request,
  reference_request, refs_request, message, replies,
}

-- Texts that do not compare equal are different.
pub text_differ : (a b : String) → str_eq a b ≡ false → a ≢ b
text_differ a b h = ground (arith, eq_iff a b)

-- A text that is not the empty one does not compare equal to it.
pub text_ne : (name : String) → name ≢ "" → str_eq name "" ≡ false
text_ne name h = ground (arith, eq_iff name "")

pub some-injective {ℓ} : {A : Type ℓ} {a b : A} → some a ≡ some b → a ≡ b
some-injective e = ground arith

pub message-injective : {a b : String} → message a ≡ message b → a ≡ b
message-injective e = ground arith

module _ (git : Libgit2) where
  open git use {World, Repository, Odb, Writepack, last_error}

  -- All the pointers of the object are set.
  pub record IsOpen (r : GitRepo git) : Type 0 where
    pub repository : Repository
    pub database : Odb
    pub pack : Writepack
    pub repo_set : r.repo ≡ some repository
    pub odb_set : r.odb ≡ some database
    pub wp_set : r.wp ≡ some pack

  -- No repository, or one that is open.
  abbrev pub IsUsable : Manager git → Type 0
  IsUsable m = elim m.current_repo [ none ↦ Unit {0} | some r ↦ IsOpen r ]

  -- What a failed call reports is not the message "success".
  abbrev pub IsQuiet : Type 0
  IsQuiet = (w : World) → last_error w ≢ some success

  pub check_for_error-ne : IsQuiet → (w : World) → check_for_error git w ≢ success
  unfolding check_for_error
  check_for_error-ne quiet w e = elim (Option-cases (last_error w)) [
    | inl n ↦ ground (arith, eq_iff "" success)
    | inr (m, n) ↦ quiet w (ground arith)
  ]

  abbrev OpensWell : String × GitRepo git × World → Type 0
  OpensWell x = x.0 ≡ success → IsOpen x.1

  init_write_pack-OpensWell :
      (odb : Odb) (r : GitRepo git) (w : World) (h : Repository)
      → IsQuiet
      → r.odb ≡ some odb
      → r.repo ≡ some h
      → OpensWell (init_write_pack_functions git odb r w)
  unfolding init_write_pack_functions
  init_write_pack-OpensWell odb r w h quiet eo eh =
      attempt_rule OpensWell (git.odb_write_pack odb w) _ _
        (λ _ e. absurd (check_for_error-ne quiet _ e))
        (λ p _ _. record {
          repository = h;
          database = odb;
          pack = p;
          repo_set = eh;
          odb_set = eo;
          wp_set = refl;
        })

  -- An open that reports success has set all the pointers, if libgit2 never reports the text "success" for
  -- an error.
  pub open_repo-IsOpen :
      (r : GitRepo git) (w : World)
      → IsQuiet
      → (open_repo git true r w).0 ≡ success
      → IsOpen (open_repo git true r w).1
  unfolding open_repo
  open_repo-IsOpen r w quiet =
      attempt_rule OpensWell (open_handle git true r.repo_path w) _ _
        (λ _ e. absurd (check_for_error-ne quiet _ e))
        (λ h _.
          attempt_rule OpensWell (git.repository_odb h _) _ _
            (λ _ e. absurd (check_for_error-ne quiet _ e))
            (λ odb _. init_write_pack-OpensWell odb _ _ h quiet refl refl))

  -- What the request asks of the manager, so that it can be served.
  abbrev pub IsServed : Request → Manager git → Type 0
  IsServed (open_request name) m = name ≢ ""
  IsServed close_request m = Unit
  IsServed (append_request bytes) m = m.current_repo ≢ none
  IsServed commit_request m = Unit
  IsServed (reference_request ref_name ref_rev) m = Unit
  IsServed refs_request m = m.current_repo ≡ none

  abbrev pub Serves : Option (Reply × State git) → Type 0
  Serves result = (out : Reply × State git) × (result ≡ some out)

  pub pack_append-Serves :
      (bytes : List ℕ) (r : GitRepo git) (m : Manager git) (w : World)
      → IsOpen r
      → Serves (replies git m (pack_append git bytes r w))
  unfolding pack_append
  pack_append-Serves bytes r m w o = rw o.wp_set (
      checked_rule (λ x. Serves (replies git m x)) (git.writepack_append o.pack bytes w) _ _
        (λ _. (_, refl)) (λ _. (_, refl)))

  pub pack_commit-Serves :
      (r : GitRepo git) (m : Manager git) (w : World)
      → IsOpen r
      → Serves (replies git m (pack_commit git r w))
  unfolding pack_commit
  pack_commit-Serves r m w o = rw o.wp_set (
      checked_rule (λ x. Serves (replies git m x)) (git.writepack_commit o.pack w) _ _
        (λ _. (_, refl)) (λ _. (_, refl)))

  pub create_reference-Serves :
      (ref_rev ref_name : String) (r : GitRepo git) (m : Manager git) (w : World)
      → IsOpen r
      → Serves (replies git m (create_reference git ref_rev ref_name r w))
  unfolding create_reference
  create_reference-Serves ref_rev ref_name r m w o =
      attempt_rule (λ x. Serves (replies git m x)) (git.oid_fromstr ref_rev w) _ _ (λ _. (_, refl))
        (λ oid _. rw o.repo_set (
          attempt_rule (λ x. Serves (replies git m x))
            (git.reference_create o.repository ref_name oid _) _ _ (λ _. (_, refl))
            (λ new_ref _.
              checked_rule (λ x. Serves (replies git m x))
                (git.repository_set_head o.repository ref_name _) _ _ (λ _. (_, refl))
                (λ _. (_, refl)))))

  pub delete_repo-some :
      (r : GitRepo git) (w : World) → IsOpen r → (w1 : World) × (delete_repo git r w ≡ some w1)
  unfolding delete_repo
  delete_repo-some r w o = rw (o.wp_set, o.odb_set, o.repo_set) (_, refl)

  pub new_repo-some : (name : String) → name ≢ "" → (r : GitRepo git) × (new_repo git name ≡ some r)
  unfolding new_repo
  new_repo-some name h = rw (text_ne name h) (_, refl)

  abbrev pub manager : Option (GitRepo git) → ℕ → Manager git
  manager current n = record { current_repo = current; repo_ref_cnt = n }
