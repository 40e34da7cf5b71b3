-- ===== src/Git/Manager/Broken.antt =====
-- What is left of the manager after an open that failed.
use text.Mathlib.Text.{◌==◌ as str_eq}
use text.Mathlib.TextEquality.{eq_iff}
use gitrpc.Prelude.{
  ℕ, ◌+◌, ◌%◌, ◌^◌, ◌≡◌, ◌≢◌, refl, sym, ap, subst, ◌∙◌, inl, inr, true, false, Option, none, some,
  List, String, arith, ◌>>=◌, Bool-cases,
}
use gitrpc.Git.Library.{Libgit2, attempt_rule, success}
use gitrpc.Git.Repo.{
  GitRepo, new_repo, init_write_pack_functions, open_handle, open_repo, pack_append, pack_commit,
  delete_repo,
}
use gitrpc.Git.Manager.{
  Manager, Reply, State, open_request, close_request, append_request, commit_request, message,
  opened, is_current, open_repo_task, close_repo, append_data_to_pack, commit_pack_changes, handle,
}
use gitrpc.Git.Manager.Open.{message-injective}

same_text : (a b : String) → b ≡ a → str_eq a b ≡ true
same_text a b e = ground (arith, eq_iff a b)

module _ (git : Libgit2) where
  open git use {World}

  -- The object has the name, and no write pack.
  abbrev IsBroken : String → GitRepo git → Type 0
  IsBroken name r = (r.name ≡ name) × (r.wp ≡ none)

  abbrev BreaksUnlessSuccess : String → String × GitRepo git × World → Type 0
  BreaksUnlessSuccess name x = x.0 ≢ success → IsBroken name x.1

  open_repo-breaks :
      (name : String) (r : GitRepo git) (w : World)
      → IsBroken name r
      → BreaksUnlessSuccess name (open_repo git true r w)
  unfolding open_repo init_write_pack_functions
  open_repo-breaks name r w b =
      attempt_rule (BreaksUnlessSuccess name) (open_handle git true r.repo_path w) _ _ (λ _ _. b)
        (λ h _.
          attempt_rule (BreaksUnlessSuccess name) (git.repository_odb h _) _ _ (λ _ _. b)
            (λ odb _.
              attempt_rule (BreaksUnlessSuccess name) (git.odb_write_pack odb _) _ _ (λ _ _. b)
                (λ _ _ n. absurd (n refl))))

  -- What the manager does with a broken repository.
  abbrev pub Broken : String → State git → Type 0
  Broken name s =
      (handle git (open_request name) s
        ≡ some
            (message success, (record s.0 { repo_ref_cnt = (s.0.repo_ref_cnt + 1) % 2 ^ 32 }, s.1)))
      × (((bytes : List ℕ) → handle git (append_request bytes) s ≡ none)
          × ((handle git commit_request s ≡ none) × (handle git close_request s ≡ none)))

  IsBroken-Broken :
      (name : String) (r : GitRepo git) (n : ℕ) (w : World)
      → IsBroken name r
      → Broken name (record { current_repo = some r; repo_ref_cnt = n }, w)
  unfolding handle open_repo_task append_data_to_pack commit_pack_changes close_repo pack_append
      pack_commit delete_repo
  IsBroken-Broken name r n w (same, unset) = (
    rw (same_text name r.name same) refl,
    ((λ bytes. rw unset refl), (rw unset refl, rw unset refl)),
  )

  abbrev AllBroken : String → Option (GitRepo git) → Type 0
  AllBroken name made = elim made [ none ↦ Unit {0} | some r ↦ IsBroken name r ]

  new_repo-AllBroken : (name : String) → AllBroken name (new_repo git name)
  unfolding new_repo
  new_repo-AllBroken name = elim (Bool-cases (str_eq name "")) [
    | inl e ↦ rw e tt
    | inr e ↦ rw e (refl, refl)
  ]

  abbrev LeavesBroken : String → Option (Reply × State git) → Type 0
  LeavesBroken name result = elim result [
    | none ↦ Unit {0}
    | some out ↦ ((msg : String) → out.0 ≡ message msg → msg ≢ success → Broken name out.1)
  ]

  opened-LeavesBroken :
      (name : String) (m : Manager git) (w : World) (made : Option (GitRepo git))
      → AllBroken name made
      → LeavesBroken name (made >>= λ r. some (opened git m (open_repo git true r w)))
  unfolding opened
  opened-LeavesBroken name m w none b = tt
  opened-LeavesBroken name m w (some r) b = λ msg e n.
      IsBroken-Broken name _ _ _
        (open_repo-breaks name r w b (λ e1. n (message-injective (sym e ∙ ap message e1))))

  open-LeavesBroken :
      (name : String) (m : Manager git) (w : World)
      → is_current git name m ≡ false
      → LeavesBroken name (handle git (open_request name) (m, w))
  unfolding handle open_repo_task
  open-LeavesBroken name m w other =
      rw other (opened-LeavesBroken name m w (new_repo git name) (new_repo-AllBroken name))

  -- An open of a repository that is not the current one, and that reports an error, leaves the manager
  -- with an object that was never opened: the next open of the same name answers "success" without
  -- any call of libgit2, and an append, a commit and a close follow an unset pointer.
  pub open_repo_task-Broken :
      (name : String) (m : Manager git) (w : World) (msg : String) (s1 : State git)
      → is_current git name m ≡ false
      → handle git (open_request name) (m, w) ≡ some (message msg, s1)
      → msg ≢ success
      → Broken name s1
  open_repo_task-Broken name m w msg s1 other e n =
      subst (LeavesBroken name) e (open-LeavesBroken name m w other) msg refl n
