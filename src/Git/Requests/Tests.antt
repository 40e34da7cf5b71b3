-- ===== src/Git/Requests/Tests.antt =====
-- Runs of the handler threads.
use gitrpc.Prelude.{ℕ, ◌+◌, ◌≡◌, ◌∷◌, [], map, refl, Bool, true, false, Option, none, some, List}
use gitrpc.Git.Requests.{
  Service, Event, read_status, connect_status, finish_status, accept, finish, handler_thread,
  handler_loop, next_event, event_round, process_request, process_status, connect, accepted, read,
  new_request, put, pick,
}
use gitrpc.Git.Requests.Live.{IsSound}
use gitrpc.Git.Requests.Safety.{Answering, handler_thread-IsSound}
use gitrpc.Git.Requests.Trace.{Sublist, serve, messages_of, handler_thread-serve}
use gitrpc.Git.Requests.Waiting.{accepts, IsAnswered, handler_thread-accepts}

-- A service that keeps a sum and answers with it.
abbrev total : ℕ → ℕ → Option (ℕ × ℕ)
total message sum = some (sum + message, sum + message)

abbrev event : ℕ → Bool → ℕ → Event total
event place ok message = record { place = place; ok = ok; message = message }

-- Two calls, of which the second is accepted before the first is done, and a call whose finish fails.
abbrev two_calls : List (Event total)
two_calls = event 0 true 3 ∷ event 1 true 4 ∷ event 2 true 0 ∷ []

total-Answering : Answering total (λ _. Unit) (λ _. Unit)
total-Answering message sum valid good = (_, (refl, tt))

handler_thread-IsSound_example :
    (s : Service ℕ ℕ) × ((handler_thread total (event 0 true 3 ∷ event 0 false 4 ∷ []) 10 ≡ some s)
      × (IsSound s × Unit {0}))
handler_thread-IsSound_example =
    handler_thread-IsSound total (λ _. Unit) (λ _. Unit) (event 0 true 3 ∷ event 0 false 4 ∷ []) 10
      total-Answering (tt, (tt, tt)) tt

handler_thread-accepts_example :
    (s : Service ℕ ℕ) × ((handler_thread total two_calls 10 ≡ some s)
      × ((accepts s.queue ≡ 1) × IsAnswered s))
handler_thread-accepts_example =
    handler_thread-accepts total (λ _. Unit) (λ _. Unit) two_calls 10 total-Answering
      (tt, (tt, (tt, tt))) (refl, (refl, (refl, tt))) tt

abbrev after_two : Service ℕ ℕ
after_two = record {
  objects = put 0 none (
      put 1 (some finish_status) (
        put 2 (some read_status) (
          put 2 (some connect_status) (
            put 0 (some finish_status) (
              put 1 (some read_status) (
                put 1 (some connect_status)
                  (put 0 (some read_status) (put 0 (some connect_status) (λ _. none)))))))));
  fresh = 3;
  queue = finish 1 ∷ accept 2 ∷ [];
  responses = (0, 13) ∷ (1, 17) ∷ [];
  env = 17;
}

two_calls-after : handler_thread total two_calls 10 ≡ some after_two
unfolding handler_thread handler_loop next_event event_round process_request process_status connect
    accepted read new_request put pick
two_calls-after = refl

handler_thread-serve_example :
    (messages : List ℕ) × (Sublist messages (messages_of total two_calls)
      × (serve total messages 10 ≡ some (map (λ r. r.1) after_two.responses, after_two.env)))
handler_thread-serve_example = handler_thread-serve total two_calls 10 after_two two_calls-after
