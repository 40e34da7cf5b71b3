-- ===== src/Git/Requests/PackStream/Races.antt =====
-- A stream that does not end well, since an append fails.
use gitrpc.Prelude.{ℕ, ◌≡◌, refl, Bool, true, false, some, List, [], ◌∷◌, ◌++◌, String}
use gitrpc.Git.Library.{Libgit2, is_success}
use gitrpc.Git.Manager.{State, append_request}
use gitrpc.Git.Requests.{pick}
use gitrpc.Git.Requests.Answers.{proxy}
use gitrpc.Git.Requests.PackStream.{
  PackMessage, no_message, Sent, read_done, read_data, start_read, read_message, write_response,
  process_stream, replace_finished, is_in_use, stream_round, next_stream_event, stream_loop,
}
use gitrpc.Git.Requests.PackStream.Upload.{event, progress, reading}

module _ (git : Libgit2) where
  -- A message that could not be appended was answered with success, and leaves nothing under way but the
  -- next Read: even if it is the last one, the call is neither finished nor given the error.
  pub stream_loop-append_failed :
      (name : String) (done : Bool) (b : ℕ) (bs : List ℕ) (open_ : Bool) (before : PackMessage)
      (sent : List Sent) (env env1 : State git) (err : String)
      → proxy git (append_request (b ∷ bs)) env ≡ some (err, env1)
      → is_success err ≡ false
      → let m : PackMessage = record { repo_name = name; pack_data = b ∷ bs; done = done } in
        stream_loop git (event m ∷ event no_message ∷ []) (reading git open_ before sent env)
        ≡ some (reading git true m (sent ++ progress ∷ []) env1)
  unfolding stream_loop next_stream_event pick stream_round process_stream write_response
      replace_finished is_in_use read_message start_read read_data read_done
  stream_loop-append_failed name done b bs open_ before sent env env1 err e f = rw (e, f) refl
