-- ===== src/Git/Service/Bracket.antt =====
-- ReceivePackStream of GitServiceImpl.cpp against a version with one `delete`, and what it answers.
use text.Mathlib.TextEquality.{eq_iff}
use Prim.Native.String
use Prim.Native.String.append.{cons}
use Prim.Native.Char.{Char, code}
use gitrpc.Prelude.{
  codes, ◌≢◌, ℕ, ◌≡◌, refl, sym, ap, ◌∙◌, inl, inr, Bool, true, false, Option, none, some, List, [],
  ◌∷◌, String, if◌then◌else◌, ◌>>=◌, Bool-cases, arith,
}
use gitrpc.Git.Library.{Libgit2, checked_rule, success}
use gitrpc.Git.Repo.{
  GitRepo, default_repo_path, new_repo, open_repo, pack_append, pack_commit, delete_repo,
}
use gitrpc.Git.Manager.Open.{IsOpen, IsQuiet, open_repo-IsOpen, delete_repo-some, text_ne}
use gitrpc.Git.Requests.Answers.{ok_status}
use gitrpc.Git.Requests.PackStream.{PackMessage}
use gitrpc.Git.Service.{
  Answer, service_response, repo_path, is_literal, refused, delete_and_refuse, receive_data,
  receive_end, receive_loop, receive_open, receive_pack_stream,
}

module _ (git : Libgit2) (merged : Bool) where
  open git use {World}

  -- The appends up to the first that fails, and else the commit: the last message, and the world.
  abbrev pub write_pack : List PackMessage → GitRepo git → World → Option (String × World)
  write_pack [] repo w = pack_commit git repo w
  write_pack (request ∷ requests) repo w = pack_append git request.pack_data repo w >>= λ (msg, w1).
      if is_literal git merged msg then write_pack requests repo w1 else some (msg, w1)

  abbrev pub conclude : String → World → Answer git merged
  conclude msg w =
      if is_literal git merged msg
      then (service_response "success" true ok_status, w)
      else refused git merged msg w

  -- The object is deleted once, whatever the last message is.
  abbrev pub with_delete : GitRepo git → Option (String × World) → Option (Answer git merged)
  with_delete repo result =
      result >>= λ (msg, w1). delete_repo git repo w1 >>= λ w2. some (conclude msg w2)

  deleted :
      (msg : String) (repo : GitRepo git) (w : World)
      → (if is_literal git merged msg
          then (delete_repo git repo w >>= λ w2.
              some (service_response "success" true ok_status, w2))
          else delete_and_refuse git merged msg repo w)
        ≡ with_delete repo (some (msg, w))
  unfolding delete_and_refuse
  deleted msg repo w = elim (Bool-cases (is_literal git merged msg)) [
    | inl t ↦ rw t refl
    | inr f ↦ rw f refl
  ]

  committed :
      (repo : GitRepo git) (result : Option (String × World))
      → (result >>= λ (msg, w1).
          if is_literal git merged msg
          then (delete_repo git repo w1 >>= λ w2.
              some (service_response "success" true ok_status, w2))
          else delete_and_refuse git merged msg repo w1)
        ≡ with_delete repo result
  committed repo none = refl
  committed repo (some (msg, w)) = deleted msg repo w

  -- A round after whose append the code goes on as `next`, which is `rest` with the delete at its end.
  appended :
      (repo : GitRepo git) (result : Option (String × World))
      (next : World → Option (Answer git merged)) (rest : World → Option (String × World))
      → ((w : World) → next w ≡ with_delete repo (rest w))
      → (result >>= λ (msg, w1).
          if is_literal git merged msg then next w1 else delete_and_refuse git merged msg repo w1)
        ≡ with_delete repo
            (result >>= λ (msg, w1). if is_literal git merged msg then rest w1 else some (msg, w1))
  unfolding delete_and_refuse
  appended repo none next rest same = refl
  appended repo (some (msg, w)) next rest same = elim (Bool-cases (is_literal git merged msg)) [
    | inl t ↦ rw t (same w)
    | inr f ↦ rw (f, f) refl
  ]

  receive_loop-with_delete :
      (requests : List PackMessage) (repo : GitRepo git) (w : World)
      → receive_loop git merged requests repo w ≡ with_delete repo (write_pack requests repo w)
  unfolding receive_loop receive_data receive_end
  receive_loop-with_delete [] repo w = committed repo (pack_commit git repo w)
  receive_loop-with_delete (request ∷ requests) repo w =
      appended repo (pack_append git request.pack_data repo w) _ _
        (receive_loop-with_delete requests repo)

  -- The object of the first round, whose path has the root twice.
  abbrev pub fresh : PackMessage → GitRepo git
  fresh request = record {
    name = repo_path request.repo_name;
    repo_path = String.◌++◌ default_repo_path (repo_path request.repo_name);
    repo = none;
    odb = none;
    wp = none;
  }

  cons-ne : (c : Char) (s : String) → String.◌∷◌ c s ≢ ""
  cons-ne c s e = let h : code c ∷ codes s ≡ [] = ap codes e in ground arith

  path-ne : (name : String) → String.◌++◌ default_repo_path name ≢ ""
  path-ne name e = cons-ne "/" _ (sym (cons "/" "home/rstat1/Apps/test/" name) ∙ e)

  new_repo-fresh :
      (request : PackMessage) → new_repo git (repo_path request.repo_name) ≡ some (fresh request)
  unfolding new_repo repo_path
  new_repo-fresh request =
      rw (text_ne (repo_path request.repo_name) (path-ne request.repo_name)) refl

  abbrev pub first_open : PackMessage → World → String × GitRepo git × World
  first_open request w = open_repo git true (fresh request) w

  -- ReceivePackStream opens the repository of the first message once. If that fails, it answers with its
  -- message; otherwise it appends the data of every message in order, up to the first append that
  -- fails, and commits if none does; then it deletes the object exactly once, and answers with
  -- success if the commit did and with the message of the call that failed otherwise. A call succeeds
  -- here if its message is the literal "success" of this file, which none is where the literals of
  -- the two files are different objects.
  pub receive_pack_stream-with_delete :
      (request : PackMessage) (requests : List PackMessage) (w : World)
      → receive_pack_stream git merged (request ∷ requests) w ≡ (
          let (msg, repo, w1) = first_open request w in
          if is_literal git merged msg
          then with_delete repo (write_pack (request ∷ requests) repo w1)
          else some (refused git merged msg w1))
  unfolding receive_pack_stream receive_open
  receive_pack_stream-with_delete request requests w =
      let (msg, repo, w1) = first_open request w in
      rw (new_repo-fresh request) (
        ap (λ x. if is_literal git merged msg then x else some (refused git merged msg w1))
          (receive_loop-with_delete (request ∷ requests) repo w1))

  -- An answer is given.
  abbrev pub Answers : Option (Answer git merged) → Type 0
  Answers result = (out : Answer git merged) × (result ≡ some out)

  append-some :
      (bytes : List ℕ) (repo : GitRepo git) (w : World)
      → IsOpen git repo
      → (out : String × World) × (pack_append git bytes repo w ≡ some out)
  unfolding pack_append
  append-some bytes repo w o = rw o.wp_set (
      checked_rule (λ x. (out : String × World) × (x ≡ some out))
        (git.writepack_append o.pack bytes w) _ _ (λ _. (_, refl)) (λ _. (_, refl)))

  commit-some :
      (repo : GitRepo git) (w : World)
      → IsOpen git repo
      → (out : String × World) × (pack_commit git repo w ≡ some out)
  unfolding pack_commit
  commit-some repo w o = rw o.wp_set (
      checked_rule (λ x. (out : String × World) × (x ≡ some out)) (git.writepack_commit o.pack w) _
        _ (λ _. (_, refl)) (λ _. (_, refl)))

  write_pack-some :
      (requests : List PackMessage) (repo : GitRepo git) (w : World)
      → IsOpen git repo
      → (out : String × World) × (write_pack requests repo w ≡ some out)
  write_pack-some [] repo w o = commit-some repo w o
  write_pack-some (request ∷ requests) repo w o =
      let ((msg, w1), e) = append-some request.pack_data repo w o in
      rw e (elim (Bool-cases (is_literal git merged msg)) [
        | inl t ↦ rw t (write_pack-some requests repo w1 o)
        | inr f ↦ rw f (_, refl)
      ])

  with_delete-Answers :
      (repo : GitRepo git) (result : Option (String × World))
      → IsOpen git repo
      → ((out : String × World) × (result ≡ some out))
      → Answers (with_delete repo result)
  with_delete-Answers repo result o ((msg, w), e) =
      let (w1, d) = delete_repo-some git repo w o in rw (e, d) (_, refl)

  literal-success : (msg : String) → is_literal git merged msg ≡ true → msg ≡ success
  literal-success msg e = ground (arith, eq_iff msg success)

  -- ReceivePackStream answers every stream of messages, whatever the calls of libgit2 give, and never follows an
  -- unset pointer; libgit2 never reports the text "success" for an error.
  pub receive_pack_stream-Answers :
      (requests : List PackMessage) (w : World)
      → IsQuiet git
      → (out : Answer git merged) × (receive_pack_stream git merged requests w ≡ some out)
  unfolding receive_pack_stream
  receive_pack_stream-Answers [] w quiet = (_, refl)
  receive_pack_stream-Answers (request ∷ requests) w quiet =
      rw (receive_pack_stream-with_delete request requests w)
        (elim (Bool-cases (is_literal git merged (first_open request w).0)) [
          | inl t ↦ rw t (
              let o =
                open_repo-IsOpen git (fresh request) w quiet
                  (literal-success (first_open request w).0 t) in
              with_delete-Answers (first_open request w).1 _ o
                (write_pack-some (request ∷ requests) (first_open request w).1 _ o))
          | inr f ↦ rw f (_, refl)
        ])

-- Where the literals "success" of the two files are different objects, ReceivePackStream answers a stream that
-- has a message with an internal error, whatever libgit2 does: the text of the error is what the open returned,
-- "success" included, nothing is appended and the object is not deleted.
receive_pack_stream-refused :
    (git : Libgit2) (request : PackMessage) (requests : List PackMessage) (w : git.World)
    → receive_pack_stream git false (request ∷ requests) w
      ≡ some
          (refused git false (first_open git false request w).0 (first_open git false request w).2)
receive_pack_stream-refused git request requests w =
    receive_pack_stream-with_delete git false request requests w
