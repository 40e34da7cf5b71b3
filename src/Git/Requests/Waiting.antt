-- ===== src/Git/Requests/Waiting.antt =====
-- The calls that a handler thread waits for.
use gitrpc.Prelude.{
  ℕ, zero, suc, ◌≡◌, refl, sym, ap, subst, ◌∙◌, inl, inr, true, Option, none, some, List, [], ◌∷◌,
  ◌++◌, length, ◌>>=◌, All, Option-cases,
}
use gitrpc.Git.Requests.{
  Operation, accept, finish, tag, pick, Service, connect, new_request, read, accepted,
  process_status, process_request, Event, event_round, next_event, handler_loop, empty_service,
  handler_thread,
}
use gitrpc.Git.Requests.Live.{IsLive, IsSound, Picked, pick-Picked}
use gitrpc.Git.Requests.Safety.{Answering, AllValid, next_event-IsSound, new_request-IsSound}

-- How many calls wait for a client.
abbrev pub accepts : List Operation → ℕ
accepts [] = 0
accepts (accept at ∷ operations) = suc (accepts operations)
accepts (finish at ∷ operations) = accepts operations

-- Every call that was accepted was finished once: the requests made are one more than the responses.
abbrev pub IsAnswered : {Env Response : Type 0} → Service Env Response → Type 0
IsAnswered s = s.fresh ≡ suc (length s.responses)

length-snoc {ℓ} : {A : Type ℓ} (xs : List A) (x : A) → length (xs ++ x ∷ []) ≡ suc (length xs)
length-snoc [] x = refl
length-snoc (y ∷ xs) x = ap suc (length-snoc xs x)

abbrev Counted : ℕ → Option (Operation × List Operation) → Type 0
Counted n picked = elim picked [
  | none ↦ Unit {0}
  | some (operation, rest) ↦ (accepts (operation ∷ rest) ≡ n)
]

later-Counted :
    (operation : Operation) (operations : List Operation)
    (picked : Option (Operation × List Operation))
    → Counted (accepts operations) picked
    → Counted
        (accepts (operation ∷ operations))
        (picked >>= λ (y, rest). some (y, operation ∷ rest))
later-Counted operation operations none h = tt
later-Counted (accept at) operations (some (accept at1, rest)) h = ap suc h
later-Counted (accept at) operations (some (finish at1, rest)) h = ap suc h
later-Counted (finish at) operations (some (accept at1, rest)) h = h
later-Counted (finish at) operations (some (finish at1, rest)) h = h

pick-Counted :
    (n : ℕ) (operations : List Operation) → Counted (accepts operations) (pick n operations)
unfolding pick
pick-Counted n [] = tt
pick-Counted zero (operation ∷ operations) = refl
pick-Counted (suc n) (operation ∷ operations) =
    later-Counted operation operations (pick n operations) (pick-Counted n operations)

module _ {Env Message Response : Type 0} (respond : Message → Env → Option (Response × Env)) where
  -- One call waits, and every accepted one was finished.
  abbrev Waits : Option (Service Env Response) → Type 0
  Waits result = elim result [ none ↦ Unit {0} | some s ↦ (accepts s.queue ≡ 1) × IsAnswered s ]

  process_request-Waits :
      (operation : Operation) (message : Message) (s : Service Env Response)
      → IsLive s.objects s.fresh operation
      → accepts (operation ∷ s.queue) ≡ 1
      → IsAnswered s
      → Waits (process_request respond (tag operation) message s)
  unfolding process_request process_status connect accepted read new_request
  process_request-Waits (accept at) message s (e, lt) one answered =
      rw e (elim (Option-cases (respond message s.env)) [
        | inl e1 ↦ rw e1 tt
        | inr (answer, e1) ↦
            rw e1 (one, ap suc (answered ∙ sym (length-snoc s.responses (at, answer.0))))
      ])
  process_request-Waits (finish at) message s (e, lt) one answered = rw e (one, answered)

  Picked-Waits :
      (event : Event respond) (s : Service Env Response)
      (picked : Option (Operation × List Operation))
      → event.ok ≡ true
      → IsAnswered s
      → accepts s.queue ≡ 1
      → Picked (IsLive s.objects s.fresh) picked
      → Counted (accepts s.queue) picked
      → Waits (elim picked [
        | none ↦ some s
        | some (operation, rest) ↦ event_round respond operation event (record s { queue = rest })
      ])
  unfolding event_round
  Picked-Waits event s none ok answered one h counted = (one, answered)
  Picked-Waits event s (some (operation, rest)) ok answered one (live, h) counted = rw ok (
      process_request-Waits operation event.message (record s { queue = rest }) live (counted ∙ one)
        answered)

  next_event-Waits :
      (event : Event respond) (s : Service Env Response)
      → event.ok ≡ true
      → IsSound s
      → accepts s.queue ≡ 1
      → IsAnswered s
      → Waits (next_event respond event s)
  unfolding next_event
  next_event-Waits event s ok (live, distinct) one answered =
      Picked-Waits event s (pick event.place s.queue) ok answered one
        (pick-Picked (IsLive s.objects s.fresh) event.place s.queue live distinct)
        (pick-Counted event.place s.queue)

module _ {Env Message Response : Type 0} (respond : Message → Env → Option (Response × Env))
    (Good : Env → Type 0) (Valid : Message → Type 0) where
  handler_loop-Waits :
      (events : List (Event respond)) (s : Service Env Response)
      → Answering respond Good Valid
      → AllValid respond Good Valid events
      → All (λ event. event.ok ≡ true) events
      → IsSound s
      → Good s.env
      → accepts s.queue ≡ 1
      → IsAnswered s
      → (s1 : Service Env Response) × ((handler_loop respond events s ≡ some s1)
          × ((accepts s1.queue ≡ 1) × IsAnswered s1))
  unfolding handler_loop
  handler_loop-Waits [] s answers valid all sound good one answered = (s, (refl, (one, answered)))
  handler_loop-Waits (event ∷ events) s answers (valid, valids) (ok, all) sound good one answered =
      let (s1, (e, (sound1, good1))) =
        next_event-IsSound respond Good Valid event s answers valid sound good in
      let (one1, answered1) =
        subst (Waits respond) e (next_event-Waits respond event s ok sound one answered) in
      rw e (handler_loop-Waits events s1 answers valids all sound1 good1 one1 answered1)

  -- As long as every operation succeeds, one call waits for a client after every sequence of events with
  -- valid messages, and every call accepted so far was finished once; the state at the start is good,
  -- and Read and Write answer the valid messages.
  pub handler_thread-accepts :
      (events : List (Event respond)) (env : Env)
      → Answering respond Good Valid
      → AllValid respond Good Valid events
      → All (λ event. event.ok ≡ true) events
      → Good env
      → (s : Service Env Response) × ((handler_thread respond events env ≡ some s)
          × ((accepts s.queue ≡ 1) × IsAnswered s))
  unfolding handler_thread new_request connect
  handler_thread-accepts events env answers valid all good =
      handler_loop-Waits events (new_request respond (empty_service respond env)) answers valid all
        (new_request-IsSound respond (empty_service respond env) (tt, tt)) good refl refl
