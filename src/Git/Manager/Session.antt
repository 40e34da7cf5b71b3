-- ===== src/Git/Manager/Session.antt =====
-- RepositoryManager.cpp over a history: which requests it serves, and the states that they leave.
use text.Mathlib.Text.{◌==◌ as str_eq}
use gitrpc.Prelude.{
  ℕ, ◌≡◌, refl, sym, subst, ◌∙◌, inl, inr, true, Option, none, some, List, [], ◌∷◌, String, ◌>>=◌,
  Bool-cases,
}
use gitrpc.Git.Library.{Libgit2, success}
use gitrpc.Git.Repo.{
  GitRepo, GetRefsResponse, new_repo, open_repo, pack_append, pack_commit, create_reference,
  get_repo_references, delete_repo,
}
use gitrpc.Git.Manager.{
  Manager, Request, Reply, State, init, open_request, close_request, append_request, commit_request,
  reference_request, refs_request, nothing, message, references, opened, open_repo_task, close_repo,
  append_data_to_pack, commit_pack_changes, new_reference, get_repo_refs, handle, handle_all,
  replies,
}
use gitrpc.Git.Manager.Open.{
  some-injective, message-injective, IsUsable, IsQuiet, open_repo-IsOpen, IsServed, Serves,
  pack_append-Serves, pack_commit-Serves, create_reference-Serves, delete_repo-some, new_repo-some,
  manager,
}

module _ (git : Libgit2) where
  open git use {World, Repository, Odb, Writepack, last_error}

  serves :
      (q : Request) (current : Option (GitRepo git)) (n : ℕ) (w : World)
      → IsUsable git (manager git current n)
      → IsServed git q (manager git current n)
      → Serves git (handle git q (manager git current n, w))
  unfolding handle open_repo_task close_repo append_data_to_pack commit_pack_changes new_reference
      get_repo_refs
  serves (open_request name) none n w u h = rw (new_repo-some git name h).1 (_, refl)
  serves (open_request name) (some r) n w u h = elim (Bool-cases (str_eq name r.name)) [
    | inl same ↦ rw same (_, refl)
    | inr other ↦ rw (other, (new_repo-some git name h).1) (_, refl)
  ]
  serves close_request none n w u h = (_, refl)
  serves close_request (some r) n w u h = rw (delete_repo-some git r w u).1 (_, refl)
  serves (append_request bytes) none n w u h = absurd (h refl)
  serves (append_request bytes) (some r) n w u h = pack_append-Serves git bytes r _ w u
  serves commit_request none n w u h = (_, refl)
  serves commit_request (some r) n w u h = pack_commit-Serves git r _ w u
  serves (reference_request ref_name ref_rev) none n w u h = (_, refl)
  serves (reference_request ref_name ref_rev) (some r) n w u h =
      create_reference-Serves git ref_rev ref_name r _ w u
  serves refs_request none n w u h = (_, refl)
  serves refs_request (some r) n w u h = cc

  -- With a usable manager every request that it can serve gets its reply: only an append with no
  -- repository, an open of the empty name and a listing of an open repository are left out.
  pub handle-Serves :
      (q : Request) (m : Manager git) (w : World)
      → IsUsable git m
      → IsServed git q m
      → (out : Reply × State git) × (handle git q (m, w) ≡ some out)
  handle-Serves q m w u h = serves q m.current_repo m.repo_ref_cnt w u h

  -- An open was answered with success.
  abbrev pub OpenedWell : Request → Reply → Type 0
  OpenedWell (open_request name) reply = reply ≡ message success
  OpenedWell q reply = Unit {0}

  -- After the request, if it was served, the manager is usable.
  abbrev Keeps : Request → Option (Reply × State git) → Type 0
  Keeps q result = elim result [
    | none ↦ Unit {0}
    | some out ↦ (OpenedWell q out.0 → IsUsable git out.1.0)
  ]

  replies-Keeps :
      (q : Request) (m : Manager git) (result : Option (String × World))
      → IsUsable git m
      → Keeps q (replies git m result)
  replies-Keeps q m none u = tt
  replies-Keeps q m (some x) u = λ _. u

  references-Keeps :
      (m : Manager git) (result : Option (GetRefsResponse × World))
      → IsUsable git m
      → Keeps refs_request (result >>= λ (response, w1). some (references response, (m, w1)))
  references-Keeps m none u = tt
  references-Keeps m (some x) u = λ _. u

  opened-Keeps :
      (name : String) (m : Manager git) (w : World) (r : Option (GitRepo git))
      → IsQuiet git
      → Keeps (open_request name) (r >>= λ r1. some (opened git m (open_repo git true r1 w)))
  unfolding opened
  opened-Keeps name m w none quiet = tt
  opened-Keeps name m w (some r) quiet = λ e. open_repo-IsOpen git r w quiet (message-injective e)

  closed-Keeps :
      (result : Option World)
      → Keeps close_request (result >>= λ w1. some (nothing, (init git, w1)))
  closed-Keeps none = tt
  closed-Keeps (some w) = λ _. tt

  keeps :
      (q : Request) (current : Option (GitRepo git)) (n : ℕ) (w : World)
      → IsQuiet git
      → IsUsable git (manager git current n)
      → Keeps q (handle git q (manager git current n, w))
  unfolding handle open_repo_task close_repo append_data_to_pack commit_pack_changes new_reference
      get_repo_refs
  keeps (open_request name) none n w quiet u = opened-Keeps name _ w (new_repo git name) quiet
  keeps (open_request name) (some r) n w quiet u = elim (Bool-cases (str_eq name r.name)) [
    | inl same ↦ rw same (λ _. u)
    | inr other ↦ rw other (opened-Keeps name _ w (new_repo git name) quiet)
  ]
  keeps close_request none n w quiet u = λ _. tt
  keeps close_request (some r) n w quiet u = closed-Keeps (delete_repo git r w)
  keeps (append_request bytes) none n w quiet u = tt
  keeps (append_request bytes) (some r) n w quiet u =
      replies-Keeps (append_request bytes) _ (pack_append git bytes r w) u
  keeps commit_request none n w quiet u = λ _. u
  keeps commit_request (some r) n w quiet u = replies-Keeps commit_request _ (pack_commit git r w) u
  keeps (reference_request ref_name ref_rev) none n w quiet u = λ _. u
  keeps (reference_request ref_name ref_rev) (some r) n w quiet u =
      replies-Keeps (reference_request ref_name ref_rev) _
        (create_reference git ref_rev ref_name r w) u
  keeps refs_request none n w quiet u = λ _. u
  keeps refs_request (some r) n w quiet u = references-Keeps _ (get_repo_references git r w) u

  -- A usable manager stays usable over a request that is served, an open with the reply "success".
  pub handle-IsUsable :
      (q : Request) (m : Manager git) (w : World) (out : Reply × State git)
      → IsQuiet git
      → IsUsable git m
      → handle git q (m, w) ≡ some out
      → OpenedWell q out.0
      → IsUsable git out.1.0
  handle-IsUsable q m w out quiet u e =
      subst (Keeps q) e (keeps q m.current_repo m.repo_ref_cnt w quiet u)

  -- What the requests of a history ask: each one is served by the manager it meets, and each open
  -- that is reached is answered with success.
  abbrev pub IsSession : List Request → State git → Type 0
  IsSession [] s = Unit {0}
  IsSession (q ∷ qs) s =
      IsServed git q s.0
      × ((out : Reply × State git)
          → handle git q s ≡ some out
          → OpenedWell q out.0 × IsSession qs out.1)

  pub IsSession-step :
      (q : Request) (qs : List Request) (s : State git) (out : Reply × State git)
      → handle git q s ≡ some out
      → IsServed git q s.0
      → OpenedWell q out.0
      → IsSession qs out.1
      → IsSession (q ∷ qs) s
  IsSession-step q qs s out e served well rest = (
    served,
    λ out1 e1.
        subst (λ x. OpenedWell q x.0 × IsSession qs x.1) (some-injective (sym e ∙ e1)) (well, rest),
  )

  -- A history of requests, each of which the manager that it meets can serve, and with every open
  -- answered with success, never stops the process, and takes a usable manager to a usable one; libgit2
  -- never reports the text "success" for an error.
  pub handle_all-IsUsable :
      (qs : List Request) (s : State git)
      → IsQuiet git
      → IsUsable git s.0
      → IsSession qs s
      → (out : List Reply × State git) × ((handle_all git qs s ≡ some out) × IsUsable git out.1.0)
  unfolding handle_all
  handle_all-IsUsable [] s quiet u h = ((_, s), (refl, u))
  handle_all-IsUsable (q ∷ qs) s quiet u (served, rest) =
      let (out, e) = handle-Serves q s.0 s.1 u served in
      let (well, session) = rest out e in
      let u1 = handle-IsUsable q s.0 s.1 out quiet u e well in
      let (all, (e1, u2)) = handle_all-IsUsable qs out.1 quiet u1 session in
      ((out.0 ∷ all.0, all.1), (rw (e, e1) refl, u2))
