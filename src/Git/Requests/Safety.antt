-- ===== src/Git/Requests/Safety.antt =====
-- The handler thread over any sequence of events: what each round keeps of the objects and the operations under way.
use gitrpc.Prelude.{
  ℕ, suc, ◌<◌, ◌≡◌, refl, inl, inr, Option, none, some, List, [], ◌∷◌, arith, All, Bool-cases,
}
use gitrpc.Git.Requests.{
  read_status, connect_status, finish_status, Operation, accept, finish, tag, put, pick, Service,
  connect, new_request, read, accepted, process_status, process_request, Event, event_round,
  next_event, handler_loop, empty_service, handler_thread,
}
use gitrpc.Git.Requests.Live.{
  IsLive, Apart, IsSound, put_same, put-All, fresh-Apart, Picked, pick-Picked,
}

module _ {Env Message Response : Type 0} (respond : Message → Env → Option (Response × Env)) where
  pub new_request-IsSound : (s : Service Env Response) → IsSound s → IsSound (new_request respond s)
  unfolding new_request connect
  new_request-IsSound s (live, distinct) =
      let apart = fresh-Apart s.objects s.fresh s.queue live in
      (
        (
          (put_same s.fresh (some read_status) _, omega arith),
          put-All s.fresh (suc s.fresh) (suc s.fresh) (some read_status) _ s.queue (omega arith)
              apart
              (put-All s.fresh s.fresh (suc s.fresh) (some connect_status) s.objects s.queue
                (omega arith) apart live),
        ),
        (apart, distinct),
      )

module _ {Env Message Response : Type 0} (respond : Message → Env → Option (Response × Env))
    (Good : Env → Type 0) (Valid : Message → Type 0) where
  -- Read and Write answer every valid message in a good state of the rest of the process, and leave a
  -- good one.
  abbrev pub Answering : Type 0
  Answering =
      (message : Message) (env : Env)
      → Valid message
      → Good env
      → (r : Response × Env) × ((respond message env ≡ some r) × Good r.1)

  -- The round is served, and leaves a sound service and a good state.
  abbrev Sound : Option (Service Env Response) → Type 0
  Sound result = (s : Service Env Response) × ((result ≡ some s) × (IsSound s × Good s.env))

  accepted-Sound :
      (at : ℕ) (message : Message) (s : Service Env Response)
      → Answering
      → Valid message
      → IsSound s
      → Good s.env
      → Apart at s.queue
      → at < s.fresh
      → Sound (accepted respond at message s)
  unfolding accepted read new_request put connect
  accepted-Sound at message s answers valid sound good apart lt =
      let (answer, (e, good1)) = answers message s.env valid good in
      let objects = (new_request respond s).objects in
      let (live, distinct) = new_request-IsSound respond s sound in
      let others : Apart at (accept s.fresh ∷ s.queue) = (omega arith, apart) in
      let live1 =
        put-All at (suc s.fresh) (suc s.fresh) (some finish_status) objects
          (accept s.fresh ∷ s.queue) (omega arith) others live in
      rw e (
        _,
        (
          refl,
          (
            (((put_same at (some finish_status) objects, omega arith), live1), (others, distinct)),
            good1,
          ),
        ),
      )

  process_request-Sound :
      (operation : Operation) (message : Message) (s : Service Env Response)
      → Answering
      → Valid message
      → IsSound s
      → Good s.env
      → IsLive s.objects s.fresh operation
      → Apart (tag operation) s.queue
      → Sound (process_request respond (tag operation) message s)
  unfolding process_request process_status
  process_request-Sound (accept at) message s answers valid sound good (e, lt) apart =
      rw e (accepted-Sound at message s answers valid sound good apart lt)
  process_request-Sound (finish at) message s answers valid (live, distinct) good (e, lt) apart =
      rw e (
        _,
        (
          refl,
          (
            (put-All at s.fresh s.fresh none s.objects s.queue (omega arith) apart live, distinct),
            good,
          ),
        ),
      )

  event_round-Sound :
      (operation : Operation) (event : Event respond) (s : Service Env Response)
      → Answering
      → Valid event.message
      → IsSound s
      → Good s.env
      → IsLive s.objects s.fresh operation
      → Apart (tag operation) s.queue
      → Sound (event_round respond operation event s)
  unfolding event_round
  event_round-Sound operation event s answers valid sound good live apart =
      elim (Bool-cases event.ok) [
        | inl e ↦
            rw e
              (process_request-Sound operation event.message s answers valid sound good live apart)
        | inr e ↦ rw e (s, (refl, (sound, good)))
      ]

  Picked-Sound :
      (event : Event respond) (s : Service Env Response)
      (picked : Option (Operation × List Operation))
      → Answering
      → Valid event.message
      → IsSound s
      → Good s.env
      → Picked (IsLive s.objects s.fresh) picked
      → Sound (elim picked [
        | none ↦ some s
        | some (operation, rest) ↦ event_round respond operation event (record s { queue = rest })
      ])
  Picked-Sound event s none answers valid sound good h = (s, (refl, (sound, good)))
  Picked-Sound event s (some (operation, rest)) answers valid sound good
        (p, (all, (apart, distinct))) =
      event_round-Sound operation event (record s { queue = rest }) answers valid (all, distinct)
        good p apart

  -- Whatever operation the completion queue hands out, ok or not, a sound service serves it: it follows
  -- no freed request and fails no assertion, and it stays sound. The message of the event is valid, and
  -- Read and Write answer valid messages.
  pub next_event-IsSound :
      (event : Event respond) (s : Service Env Response)
      → Answering
      → Valid event.message
      → IsSound s
      → Good s.env
      → (s1 : Service Env Response) × ((next_event respond event s ≡ some s1)
          × (IsSound s1 × Good s1.env))
  unfolding next_event
  next_event-IsSound event s answers valid (live, distinct) good =
      Picked-Sound event s (pick event.place s.queue) answers valid (live, distinct) good
        (pick-Picked (IsLive s.objects s.fresh) event.place s.queue live distinct)

  abbrev pub AllValid : List (Event respond) → Type 0
  AllValid events = All (λ event. Valid event.message) events

  handler_loop-Sound :
      (events : List (Event respond)) (s : Service Env Response)
      → Answering
      → AllValid events
      → IsSound s
      → Good s.env
      → Sound (handler_loop respond events s)
  unfolding handler_loop
  handler_loop-Sound [] s answers all sound good = (s, (refl, (sound, good)))
  handler_loop-Sound (event ∷ events) s answers (valid, all) sound good =
      let (s1, (e, (sound1, good1))) = next_event-IsSound event s answers valid sound good in
      rw e (handler_loop-Sound events s1 answers all sound1 good1)

  -- From a good state, and if Read and Write answer the valid messages, the handler thread goes through
  -- every sequence of events with valid messages to a sound service and a good state.
  pub handler_thread-IsSound :
      (events : List (Event respond)) (env : Env)
      → Answering
      → AllValid events
      → Good env
      → (s : Service Env Response) × ((handler_thread respond events env ≡ some s)
          × (IsSound s × Good s.env))
  unfolding handler_thread new_request connect
  handler_thread-IsSound events env answers all good =
      handler_loop-Sound events (new_request respond (empty_service respond env)) answers all
        (new_request-IsSound respond (empty_service respond env) (tt, tt)) good
