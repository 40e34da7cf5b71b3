-- ===== src/Git/Manager/View.antt =====
-- The manager as its clients see it: the name of the current repository, and how often it was opened
-- again. `view_step` is the contract of the requests on that view.
use mathlib.Core.Option
use text.Mathlib.Text.{◌==◌ as str_eq}
use gitrpc.Prelude.{
  ℕ, ◌+◌, ◌%◌, ◌^◌, ◌≡◌, refl, sym, subst, inl, inr, Bool, true, false, Option, none, some, List,
  [], ◌∷◌, String, if◌then◌else◌, ◌>>=◌, Bool-cases, Option-cases,
}
use gitrpc.Git.Library.{Libgit2, attempt_rule, is_success}
use gitrpc.Git.Repo.{
  GitRepo, GetRefsResponse, new_repo, init_write_pack_functions, open_handle, open_repo,
  pack_append, pack_commit, create_reference, get_repo_references, delete_repo,
}
use gitrpc.Git.Manager.{
  Manager, Request, Reply, State, init, open_request, close_request, append_request, commit_request,
  reference_request, refs_request, nothing, message, references, opened, is_current, open_repo_task,
  close_repo, append_data_to_pack, commit_pack_changes, new_reference, get_repo_refs, handle,
  handle_all, replies,
}

pub record View : Type 0 where
  pub name : Option String
  pub reopened : ℕ

-- An open of the current name counts, modulo 2 ^ 32; an open of another name takes its place, and
-- starts to count again if it was answered with success; a close forgets the name.
abbrev pub same_name : String → View → Bool
same_name name v = elim v.name [ none ↦ false | some current ↦ str_eq name current ]

abbrev pub answered_success : Reply → Bool
answered_success nothing = false
answered_success (message msg) = is_success msg
answered_success (references response) = false

abbrev pub view_step : Request → Reply → View → View
view_step (open_request name) reply v =
    if same_name name v
    then record v { reopened = (v.reopened + 1) % 2 ^ 32 }
    else record { name = some name; reopened = if answered_success reply then 0 else v.reopened }
view_step close_request reply v = record { name = none; reopened = 0 }
view_step (append_request bytes) reply v = v
view_step commit_request reply v = v
view_step (reference_request ref_name ref_rev) reply v = v
view_step refs_request reply v = v

abbrev pub view_steps : List Request → List Reply → View → View
view_steps [] replies_ v = v
view_steps (q ∷ qs) [] v = v
view_steps (q ∷ qs) (reply ∷ rest) v = view_steps qs rest (view_step q reply v)

module _ (git : Libgit2) where
  open git use {World}

  abbrev pub view : Manager git → View
  view m = record { name = Option.map (λ r. r.name) m.current_repo; reopened = m.repo_ref_cnt }

  abbrev Names : String → String × GitRepo git × World → Type 0
  Names name x = x.1.name ≡ name

  open_repo-Names : (r : GitRepo git) (w : World) → Names r.name (open_repo git true r w)
  unfolding open_repo init_write_pack_functions
  open_repo-Names r w =
      attempt_rule (Names r.name) (open_handle git true r.repo_path w) _ _ (λ _. refl)
        (λ h _.
          attempt_rule (Names r.name) (git.repository_odb h _) _ _ (λ _. refl)
            (λ odb _.
              attempt_rule (Names r.name) (git.odb_write_pack odb _) _ _ (λ _. refl) (λ _ _. refl)))

  abbrev AllNamed : String → Option (GitRepo git) → Type 0
  AllNamed name made = elim made [ none ↦ Unit {0} | some r ↦ (r.name ≡ name) ]

  new_repo-AllNamed : (name : String) → AllNamed name (new_repo git name)
  unfolding new_repo
  new_repo-AllNamed name = elim (Bool-cases (str_eq name "")) [
    | inl e ↦ rw e tt
    | inr e ↦ rw e refl
  ]

  -- If the request was served, its reply and the next state are as the contract says.
  abbrev Follows : Request → View → Option (Reply × State git) → Type 0
  Follows q v result = elim result [
    | none ↦ Unit {0}
    | some out ↦ (view out.1.0 ≡ view_step q out.0 v)
  ]

  opened-Follows :
      (name : String) (m : Manager git) (w : World) (made : Option (GitRepo git))
      → is_current git name m ≡ false
      → same_name name (view m) ≡ false
      → AllNamed name made
      → Follows
          (open_request name)
          (view m)
          (made >>= λ r. some (opened git m (open_repo git true r w)))
  unfolding opened
  opened-Follows name m w none other other1 e = tt
  opened-Follows name m w (some r) other other1 e = rw (other1, open_repo-Names r w, e) refl

  replies-Follows :
      (q : Request) (m : Manager git) (result : Option (String × World))
      → ((reply : Reply) → view_step q reply (view m) ≡ view m)
      → Follows q (view m) (replies git m result)
  replies-Follows q m none same = tt
  replies-Follows q m (some x) same = sym (same _)

  references-Follows :
      (m : Manager git) (result : Option (GetRefsResponse × World))
      → Follows refs_request
          (view m)
          (result >>= λ (response, w1). some (references response, (m, w1)))
  references-Follows m none = tt
  references-Follows m (some x) = refl

  closed-Follows :
      (v : View) (result : Option World)
      → Follows close_request v (result >>= λ w1. some (nothing, (init git, w1)))
  closed-Follows v none = tt
  closed-Follows v (some w) = refl

  abbrev manager : Option (GitRepo git) → ℕ → Manager git
  manager current n = record { current_repo = current; repo_ref_cnt = n }

  follows :
      (q : Request) (current : Option (GitRepo git)) (n : ℕ) (w : World)
      → Follows q (view (manager current n)) (handle git q (manager current n, w))
  unfolding handle open_repo_task close_repo append_data_to_pack commit_pack_changes new_reference
      get_repo_refs
  follows (open_request name) none n w =
      opened-Follows name _ w (new_repo git name) refl refl (new_repo-AllNamed name)
  follows (open_request name) (some r) n w = elim (Bool-cases (str_eq name r.name)) [
    | inl same ↦ rw same (rw same refl)
    | inr other ↦
        rw other (opened-Follows name _ w (new_repo git name) other other (new_repo-AllNamed name))
  ]
  follows close_request none n w = refl
  follows close_request (some r) n w =
      closed-Follows (view (manager (some r) n)) (delete_repo git r w)
  follows (append_request bytes) none n w = tt
  follows (append_request bytes) (some r) n w =
      replies-Follows (append_request bytes) _ (pack_append git bytes r w) (λ _. refl)
  follows commit_request none n w = refl
  follows commit_request (some r) n w =
      replies-Follows commit_request _ (pack_commit git r w) (λ _. refl)
  follows (reference_request ref_name ref_rev) none n w = refl
  follows (reference_request ref_name ref_rev) (some r) n w =
      replies-Follows (reference_request ref_name ref_rev) _
        (create_reference git ref_rev ref_name r w) (λ _. refl)
  follows refs_request none n w = refl
  follows refs_request (some r) n w = references-Follows _ (get_repo_references git r w)

  abbrev AllFollow : List Request → View → Option (List Reply × State git) → Type 0
  AllFollow qs v result = elim result [
    | none ↦ Unit {0}
    | some out ↦ (view out.1.0 ≡ view_steps qs out.0 v)
  ]

  consed :
      (q : Request) (qs : List Request) (reply : Reply) (v : View)
      (result : Option (List Reply × State git))
      → AllFollow qs (view_step q reply v) result
      → AllFollow (q ∷ qs) v (result >>= λ (replies_, s2). some (reply ∷ replies_, s2))
  consed q qs reply v none h = h
  consed q qs reply v (some x) h = h

  all_follow :
      (qs : List Request) (m : Manager git) (w : World)
      → AllFollow qs (view m) (handle_all git qs (m, w))
  unfolding handle_all
  all_follow [] m w = refl
  all_follow (q ∷ qs) m w = elim (Option-cases (handle git q (m, w))) [
    | inl e ↦ rw e tt
    | inr (out, e) ↦
        let first = subst (Follows q (view m)) e (follows q m.current_repo m.repo_ref_cnt w) in
        let later =
          subst (λ v. AllFollow qs v (handle_all git qs out.1)) first
            (all_follow qs out.1.0 out.1.1) in
        rw e (consed q qs out.0 (view m) (handle_all git qs out.1) later)
  ]

  -- Every history that is served, from any state, leaves the view that the contract computes from the
  -- requests and the replies.
  pub handle_all-view_steps :
      (qs : List Request) (s s1 : State git) (replies_ : List Reply)
      → handle_all git qs s ≡ some (replies_, s1)
      → view s1.0 ≡ view_steps qs replies_ (view s.0)
  handle_all-view_steps qs s s1 replies_ e =
      subst (AllFollow qs (view s.0)) e (all_follow qs s.0 s.1)
