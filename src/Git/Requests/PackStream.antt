-- ===== src/Git/Requests/PackStream.antt =====
-- RecvPackStream.h and RecvPackStream.cpp: one request at a time, whose tags are not objects but the
-- values of RequestStatus. The buffer `msg` is filled by the call of Next that hands out the tag of a Read.
-- `none` is a stop of the process, or a request that is deleted with an operation of its own under way.
pub mod Upload
pub mod Races
mod Tests
use gitrpc.Prelude.{
  ℕ, Bool, true, false, Option, none, some, List, [], ◌∷◌, ◌++◌, String, if◌then◌else◌, ◌>>=◌,
}
use gitrpc.Git.Library.{Libgit2, is_success}
use gitrpc.Git.Manager.{State, append_request, commit_request}
use gitrpc.Git.Requests.{
  RequestStatus, read_status, write_status, connect_status, done_status, finish_status, pick,
}
use gitrpc.Git.Requests.Answers.{GenericResponse, Status, ok_status, internal_status, proxy}

-- nexus::ReceivePackRequest, less the reference, which is only logged.
pub record PackMessage : Type 0 where
  pub repo_name : String
  pub pack_data : List ℕ
  pub done : Bool

abbrev pub no_message : PackMessage
no_message = record { repo_name = ""; pack_data = []; done = false }

-- The operations under way.
pub data StreamOperation : Type 0 where
  connected : StreamOperation
  read : StreamOperation
  written : StreamOperation
  alarm : StreamOperation
  finished : StreamOperation

-- What was written to the client: Write, and WriteAndFinish.
pub data Sent : Type 0 where
  response : GenericResponse → Sent
  finish : GenericResponse → Status → Sent

pub record Stream (Env : Type 0) : Type 0 where
  pub repo_open : Bool
  pub is_running : Bool
  pub msg : PackMessage
  pub queue : List StreamOperation
  pub sent : List Sent
  pub env : Env

-- What the completion queue hands out: the operation at a place, and the message that its Read received.
pub record StreamEvent : Type 0 where
  pub place : ℕ
  pub ok : Bool
  pub message : PackMessage

abbrev pub success_response : GenericResponse
success_response = record { success = true; error_message = "success" }

module _ (git : Libgit2) where
  -- The constructor of Request, with the environment and the operations that are still under way.
  abbrev pub new_stream : List StreamOperation → List Sent → State git → Stream (State git)
  new_stream queue sent env = record {
    repo_open = false;
    is_running = true;
    msg = no_message;
    queue = connected ∷ queue;
    sent = sent;
    env = env;
  }

  -- The part of ReadMessage after the append.
  unfoldable pub read_done : Stream (State git) → Stream (State git)
  read_done s =
      if s.msg.done
      then record s {
        queue = alarm ∷ s.queue;
        msg = record s.msg { pack_data = []; repo_name = "" };
      }
      else s

  -- The append of ReadMessage, and what follows if it succeeds.
  unfoldable pub read_data : Stream (State git) → Option (Stream (State git))
  read_data s = elim s.msg.pack_data [
    | [] ↦ some (read_done s)
    | b ∷ bs ↦ proxy git (append_request (b ∷ bs)) s.env >>= λ (err, env).
        let s1 = record s { repo_open = true; env = env } in
        some (if is_success err then read_done s1 else s1)
  ]

  unfoldable pub start_read : Stream (State git) → Stream (State git)
  start_read s = record s { queue = read ∷ s.queue }

  unfoldable pub read_message : Stream (State git) → Option (Stream (State git))
  read_message s = if s.is_running then read_data (start_read s) else some s

  unfoldable pub write_response : Stream (State git) → Stream (State git)
  write_response s = record s {
    queue = written ∷ s.queue;
    sent = s.sent ++ response (record { success = true; error_message = "Success" }) ∷ [];
  }

  unfoldable pub finish_request : Stream (State git) → Option (Stream (State git))
  finish_request s =
      if s.repo_open
      then (proxy git commit_request s.env >>= λ (ret, env).
          let last =
            if is_success ret
            then finish success_response (ok_status "")
            else finish (record { success = false; error_message = ret }) (internal_status ret) in
          some (record s {
            repo_open = false;
            queue = finished ∷ s.queue;
            sent = s.sent ++ last ∷ [];
            env = env;
          }))
      else some s

  -- ProcessRequest, and the new request that the loop puts in the place of a finished one.
  unfoldable pub process_stream :
      StreamOperation → StreamEvent → Stream (State git) → Option (Stream (State git))
  process_stream connected event s = read_message s
  process_stream read event s = some (write_response (record s { msg = event.message }))
  process_stream written event s = read_message s
  process_stream alarm event s =
      if s.repo_open
      then finish_request (record s { is_running = false })
      else some (record s { is_running = false })
  process_stream finished event s = some (record s { is_running = false })

  -- Whether an operation on the stream of the request is under way, which uses the request; a timer that is
  -- destroyed is cancelled, and its event stays.
  unfoldable pub is_in_use : List StreamOperation → Bool
  is_in_use [] = false
  is_in_use (alarm ∷ queue) = is_in_use queue
  is_in_use (connected ∷ queue) = true
  is_in_use (read ∷ queue) = true
  is_in_use (written ∷ queue) = true
  is_in_use (finished ∷ queue) = true

  unfoldable pub replace_finished :
      StreamOperation → Stream (State git) → Option (Stream (State git))
  replace_finished finished s =
      if is_in_use s.queue then none else some (new_stream s.queue s.sent s.env)
  replace_finished connected s = some s
  replace_finished read s = some s
  replace_finished written s = some s
  replace_finished alarm s = some s

  -- A round of HandlerThread with an operation that was handed out.
  unfoldable pub stream_round :
      StreamOperation → StreamEvent → Stream (State git) → Option (Stream (State git))
  stream_round operation event s =
      let processed = process_stream operation event s in
      (if event.ok then processed else some s) >>= λ s1. replace_finished operation s1

  unfoldable pub next_stream_event : StreamEvent → Stream (State git) → Option (Stream (State git))
  next_stream_event event s = elim (pick event.place s.queue) [
    | none ↦ some s
    | some (operation, rest) ↦ stream_round operation event (record s { queue = rest })
  ]

  unfoldable pub stream_loop : List StreamEvent → Stream (State git) → Option (Stream (State git))
  stream_loop [] s = some s
  stream_loop (event ∷ events) s = next_stream_event event s >>= λ s1. stream_loop events s1
