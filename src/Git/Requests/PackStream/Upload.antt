-- ===== src/Git/Requests/PackStream/Upload.antt =====
-- The upload of a pack, with the events of its operations in the order in which they were started.
use gitrpc.Prelude.{
  ℕ, ◌≡◌, refl, ap, subst, ◌∙◌, Bool, true, false, ◌||◌, some, List, [], ◌∷◌, ◌++◌, append_assoc,
  All, String, length, replicate,
}
use gitrpc.Git.Library.{Libgit2, success}
use gitrpc.Git.Manager.{State, append_request, commit_request}
use gitrpc.Git.Requests.{pick}
use gitrpc.Git.Requests.Answers.{ok_status, proxy}
use gitrpc.Git.Requests.PackStream.{
  PackMessage, no_message, read, Sent, response, finish, Stream, StreamEvent, success_response,
  new_stream, read_done, read_data, start_read, read_message, write_response, finish_request,
  process_stream, replace_finished, is_in_use, stream_round, next_stream_event, stream_loop,
}

-- The next operation succeeds; a Read receives the message.
abbrev pub event : PackMessage → StreamEvent
event message = record { place = 0; ok = true; message = message }

-- The client has closed its side: the Read behind a newer operation ends without a message.
abbrev pub closed : StreamEvent
closed = record { place = 1; ok = false; message = no_message }

abbrev pub has_data : List PackMessage → Bool
has_data [] = false
has_data (m ∷ ms) = elim m.pack_data [ [] ↦ has_data ms | b ∷ bs ↦ true ]

-- A read and the write of its response for each message; then the alarm, the Read that gets no message, and the
-- end of the call.
abbrev pub rounds : List PackMessage → List StreamEvent
rounds [] = event no_message ∷ closed ∷ event no_message ∷ []
rounds (m ∷ ms) = event m ∷ event no_message ∷ rounds ms

abbrev pub progress : Sent
progress = response (record { success = true; error_message = "Success" })

open_later :
    (bytes : List ℕ) (later open_ : Bool)
    → ((elim bytes [ [] ↦ later | b ∷ bs ↦ true ]) || open_) ≡ true
    → (later || ((elim bytes [ [] ↦ false | b ∷ bs ↦ true ]) || open_)) ≡ true
open_later [] later open_ o = o
open_later (b ∷ bs) true open_ o = refl
open_later (b ∷ bs) false open_ o = refl

module _ (git : Libgit2) where
  -- The appends of the messages that have data, in order, all of them with success.
  abbrev Appends : PackMessage → State git → State git → Type 0
  Appends m s s1 = elim m.pack_data [
    | [] ↦ (s ≡ s1)
    | b ∷ bs ↦ (proxy git (append_request (b ∷ bs)) s ≡ some (success, s1))
  ]

  abbrev pub Appended : List PackMessage → State git → State git → Type 0
  Appended [] s s1 = s ≡ s1
  Appended (m ∷ ms) s s1 = (middle : State git) × (Appends m s middle × Appended ms middle s1)

  -- A stream that waits for a message.
  abbrev pub reading : Bool → PackMessage → List Sent → State git → Stream (State git)
  reading open_ msg sent env = record {
    repo_open = open_;
    is_running = true;
    msg = msg;
    queue = read ∷ [];
    sent = sent;
    env = env;
  }

  abbrev ended : List Sent → State git → Stream (State git)
  ended sent env = new_stream git [] sent env

  abbrev message : String → List ℕ → Bool → PackMessage
  message name bytes done = record { repo_name = name; pack_data = bytes; done = done }

  -- A message that is not the last one is appended and answered.
  upload_round :
      (name : String) (bytes : List ℕ) (done : Bool) (open_ : Bool) (m : PackMessage)
      (sent : List Sent) (env env1 : State git) (events : List StreamEvent)
      → done ≡ false
      → Appends (message name bytes done) env env1
      → stream_loop git
          (event (message name bytes done) ∷ event no_message ∷ events)
          (reading open_ m sent env)
        ≡ stream_loop git events (
            reading
              (has_data (message name bytes done ∷ []) || open_)
              (message name bytes done)
              (sent ++ progress ∷ [])
              env1)
  unfolding stream_loop next_stream_event pick stream_round process_stream write_response
      replace_finished is_in_use read_message start_read read_data read_done
  upload_round name [] done open_ m sent env env1 events d e = rw (d, e) refl
  upload_round name (b ∷ bs) done open_ m sent env env1 events d e = rw (d, e) refl

  -- The last one is appended and answered, and then the pack is committed and the call finished.
  upload_last :
      (name : String) (bytes : List ℕ) (done : Bool) (open_ : Bool) (m : PackMessage)
      (sent : List Sent) (env env1 env2 : State git)
      → done ≡ true
      → Appends (message name bytes done) env env1
      → (has_data (message name bytes done ∷ []) || open_) ≡ true
      → proxy git commit_request env1 ≡ some (success, env2)
      → stream_loop git (rounds (message name bytes done ∷ [])) (reading open_ m sent env)
        ≡ some (ended ((sent ++ progress ∷ []) ++ finish success_response (ok_status "") ∷ []) env2)
  unfolding stream_loop next_stream_event pick stream_round process_stream write_response
      replace_finished is_in_use read_message start_read read_data read_done finish_request
  upload_last name [] true true m sent env env1 env2 d e o c = rw (e, c) refl
  upload_last name (b ∷ bs) true open_ m sent env env1 env2 d e o c = rw (e, c) refl
  upload_last name [] true false m sent env env1 env2 d e o c = cc
  upload_last name [] false open_ m sent env env1 env2 d e o c = cc
  upload_last name (b ∷ bs) false open_ m sent env env1 env2 d e o c = cc

  -- The rounds go through the messages, and leave the stream of the next client.
  upload_rounds :
      (ms : List PackMessage) (last m : PackMessage) (open_ : Bool) (sent : List Sent)
      (env env1 env2 : State git)
      → All (λ x. x.done ≡ false) ms
      → last.done ≡ true
      → Appended (ms ++ last ∷ []) env env1
      → (has_data (ms ++ last ∷ []) || open_) ≡ true
      → proxy git commit_request env1 ≡ some (success, env2)
      → stream_loop git (rounds (ms ++ last ∷ [])) (reading open_ m sent env)
        ≡ some (
            ended
              (sent
                ++ (replicate (length (ms ++ last ∷ [])) progress
                    ++ finish success_response (ok_status "") ∷ []))
              env2)
  upload_rounds [] last m open_ sent env env1 env2 all l (s, (e, e1)) o c =
      upload_last last.repo_name last.pack_data last.done open_ m sent env env1 env2 l
        (subst (λ x. Appends last env x) e1 e) o c
      ∙ ap (λ x. some (ended x env2))
          (append_assoc sent (progress ∷ []) (finish success_response (ok_status "") ∷ []))
  upload_rounds (x ∷ ms) last m open_ sent env env1 env2 (d, all) l (s, (e, e1)) o c =
      upload_round x.repo_name x.pack_data x.done open_ m sent env s (rounds (ms ++ last ∷ [])) d e
      ∙ upload_rounds ms last x (has_data (x ∷ []) || open_) (sent ++ progress ∷ []) s env1 env2 all
          l e1 (open_later x.pack_data (has_data (ms ++ last ∷ [])) open_ o) c
      ∙ ap (λ y. some (ended y env2))
          (append_assoc sent (progress ∷ []) (
            replicate (length (ms ++ last ∷ [])) progress
            ++ finish success_response (ok_status "") ∷ []))

  -- A client streams messages, the last of which alone is marked as done, and some of which have data.
  -- Every operation succeeds, in this order: each Read with its message and the Write of its response, the alarm after
  -- the last message; the Read that was started before it ends without a message, for the client has
  -- closed its side, and then the end of the call has its event. If every append succeeds in turn, and
  -- then the commit, the handler appends the data in order, commits once, writes one response for each
  -- message and finishes the call with success; then the request is replaced, with nothing of the old
  -- one under way, by one that waits for the next client.
  pub stream_loop-upload :
      (ms : List PackMessage) (last : PackMessage) (env env1 env2 : State git)
      → All (λ x. x.done ≡ false) ms
      → last.done ≡ true
      → has_data (ms ++ last ∷ []) ≡ true
      → Appended (ms ++ last ∷ []) env env1
      → proxy git commit_request env1 ≡ some (success, env2)
      → stream_loop git (event no_message ∷ rounds (ms ++ last ∷ [])) (new_stream git [] [] env)
        ≡ some (
            new_stream git []
              (replicate (length (ms ++ last ∷ [])) progress
                ++ finish success_response (ok_status "") ∷ [])
              env2)
  unfolding stream_loop next_stream_event pick stream_round process_stream replace_finished
      is_in_use read_message start_read read_data read_done
  stream_loop-upload ms last env env1 env2 all l o e c =
      upload_rounds ms last no_message false [] env env1 env2 all l e (rw o refl) c
