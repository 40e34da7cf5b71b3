-- ===== src/Git/Requests/Trace.antt =====
-- The responses that a handler thread gave, by its events.
use gitrpc.Prelude.{
  ℕ, ◌≡◌, refl, sym, ap, subst, ◌∙◌, ◌⊎◌, inl, inr, false, if◌then◌else◌, Option, none, some, List,
  [], ◌∷◌, ◌++◌, map, append-nil, append_assoc, ◌>>=◌, Bool-cases, Option-cases,
}
use gitrpc.Git.Requests.{
  RequestStatus, read_status, write_status, connect_status, done_status, finish_status, Operation,
  tag, pick, Service, connect, new_request, read, accepted, process_status, process_request, Event,
  event_round, next_event, handler_loop, empty_service, handler_thread,
}

-- Some of the members of a list, in order.
pub data Sublist {ℓ} {A : Type ℓ} : List A → List A → Type ℓ where
  ends : Sublist [] []
  skips : {x : A} {xs ys : List A} → Sublist xs ys → Sublist xs (x ∷ ys)
  keeps : {x : A} {xs ys : List A} → Sublist xs ys → Sublist (x ∷ xs) (x ∷ ys)

module _ {Env Message Response : Type 0} (respond : Message → Env → Option (Response × Env)) where
  -- The responses that messages get one after the other.
  abbrev pub serve : List Message → Env → Option (List Response × Env)
  serve [] env = some ([], env)
  serve (message ∷ messages) env = respond message env >>= λ (response, env1).
      serve messages env1 >>= λ (responses, env2). some (response ∷ responses, env2)

  -- The event gave no response, or the one of its message.
  abbrev Advance : Message → Service Env Response → Service Env Response → Type 0
  Advance message s s1 =
      ((s1.env ≡ s.env) × (s1.responses ≡ s.responses))
      ⊎ ((at : ℕ) × ((response : Response) × ((respond message s.env ≡ some (response, s1.env))
              × (s1.responses ≡ s.responses ++ (at, response) ∷ []))))

  abbrev Advances : Message → Service Env Response → Option (Service Env Response) → Type 0
  Advances message s result = elim result [ none ↦ Unit {0} | some s1 ↦ Advance message s s1 ]

  process_status-Advances :
      (status : RequestStatus) (at : ℕ) (message : Message) (s : Service Env Response)
      → Advances message s (process_status respond status at message s)
  unfolding process_status connect accepted read new_request
  process_status-Advances connect_status at message s = inl (refl, refl)
  process_status-Advances read_status at message s = elim (Option-cases (respond message s.env)) [
    | inl e ↦ rw e tt
    | inr (answer, e) ↦ rw e (inr (at, (answer.0, (e, refl))))
  ]
  process_status-Advances finish_status at message s = inl (refl, refl)
  process_status-Advances write_status at message s = tt
  process_status-Advances done_status at message s = tt

  process_request-Advances :
      (at : ℕ) (message : Message) (s : Service Env Response)
      → Advances message s (process_request respond at message s)
  unfolding process_request
  process_request-Advances at message s = elim (Option-cases (s.objects at)) [
    | inl e ↦ rw e tt
    | inr (status, e) ↦ rw e (process_status-Advances status at message s)
  ]

  event_round-Advances :
      (operation : Operation) (event : Event respond) (s : Service Env Response)
      → Advances event.message s (event_round respond operation event s)
  unfolding event_round
  event_round-Advances operation event s = elim (Bool-cases event.ok) [
    | inl ok ↦ rw ok (process_request-Advances (tag operation) event.message s)
    | inr ok ↦ rw ok (inl (refl, refl))
  ]

  -- An event that is not ok gives no response.
  abbrev Keeps : Service Env Response → Option (Service Env Response) → Type 0
  Keeps s result = elim result [
    | none ↦ Unit {0}
    | some s1 ↦ ((s1.env ≡ s.env) × (s1.responses ≡ s.responses))
  ]

  picked-Keeps :
      (event : Event respond) (s : Service Env Response)
      (picked : Option (Operation × List Operation))
      → event.ok ≡ false
      → Keeps s (elim picked [
        | none ↦ some s
        | some (operation, rest) ↦ event_round respond operation event (record s { queue = rest })
      ])
  unfolding event_round
  picked-Keeps event s none e = (refl, refl)
  picked-Keeps event s (some (operation, rest)) e = rw e (refl, refl)

  next_event-Keeps :
      (event : Event respond) (s : Service Env Response)
      → event.ok ≡ false
      → Keeps s (next_event respond event s)
  unfolding next_event
  next_event-Keeps event s e = picked-Keeps event s (pick event.place s.queue) e

  picked-Advances :
      (event : Event respond) (s : Service Env Response)
      (picked : Option (Operation × List Operation))
      → Advances event.message s (elim picked [
        | none ↦ some s
        | some (operation, rest) ↦ event_round respond operation event (record s { queue = rest })
      ])
  picked-Advances event s none = inl (refl, refl)
  picked-Advances event s (some (operation, rest)) =
      event_round-Advances operation event (record s { queue = rest })

  next_event-Advances :
      (event : Event respond) (s : Service Env Response)
      → Advances event.message s (next_event respond event s)
  unfolding next_event
  next_event-Advances event s = picked-Advances event s (pick event.place s.queue)

  -- From one state to a later one, through messages that are among the given ones.
  abbrev Served : List Message → Service Env Response → Service Env Response → Type 0
  Served offered s s1 =
      (messages : List Message) × ((responses : List Response) × (Sublist messages offered
          × ((serve messages s.env ≡ some (responses, s1.env))
              × (map (λ r. r.1) s1.responses ≡ map (λ r. r.1) s.responses ++ responses))))

  -- The messages of the events that are ok.
  abbrev pub messages_of : List (Event respond) → List Message
  messages_of [] = []
  messages_of (event ∷ events) =
      let rest = messages_of events in if event.ok then event.message ∷ rest else rest

  abbrev AllServed : List Message → Service Env Response → Option (Service Env Response) → Type 0
  AllServed offered s result = elim result [ none ↦ Unit {0} | some s1 ↦ Served offered s s1 ]

  map-append :
      (xs ys : List (ℕ × Response))
      → map (λ r. r.1) (xs ++ ys) ≡ map (λ r. r.1) xs ++ map (λ r. r.1) ys
  map-append [] ys = refl
  map-append (x ∷ xs) ys = ap (◌∷◌ x.1) (map-append xs ys)

  Advance-Served :
      (message : Message) (offered : List Message) (s s1 : Service Env Response)
      (result : Option (Service Env Response))
      → Advance message s s1
      → AllServed offered s1 result
      → AllServed (message ∷ offered) s result
  Advance-Served message offered s s1 none advance h = tt
  Advance-Served message offered s s1 (some s2) (inl (same, same1))
        (messages, (rs, (sub, (e, e1)))) =
      (messages, (rs, (skips sub, (rw (sym same) e, e1 ∙ ap (λ x. map (λ r. r.1) x ++ rs) same1))))
  Advance-Served message offered s s1 (some s2) (inr (at, (r, (answer, given))))
        (messages, (rs, (sub, (e, e1)))) =
      (
        message ∷ messages,
        (
          r ∷ rs,
          (
            keeps sub,
            (
              rw (answer, e) refl,
              e1
                  ∙ ap (λ x. map (λ r1. r1.1) x ++ rs) given
                  ∙ ap (λ x. x ++ rs) (map-append s.responses ((at, r) ∷ []))
                  ∙ append_assoc (map (λ r1. r1.1) s.responses) (r ∷ []) rs,
            ),
          ),
        ),
      )

  Keeps-Served :
      (offered : List Message) (s s1 : Service Env Response)
      (result : Option (Service Env Response))
      → (s1.env ≡ s.env) × (s1.responses ≡ s.responses)
      → AllServed offered s1 result
      → AllServed offered s result
  Keeps-Served offered s s1 none same h = tt
  Keeps-Served offered s s1 (some s2) (same, same1) (messages, (rs, (sub, (e, e1)))) =
      (messages, (rs, (sub, (rw (sym same) e, e1 ∙ ap (λ x. map (λ r. r.1) x ++ rs) same1))))

  handler_loop-AllServed :
      (events : List (Event respond)) (s : Service Env Response)
      → AllServed (messages_of events) s (handler_loop respond events s)
  unfolding handler_loop
  handler_loop-AllServed [] s = ([], ([], (ends, (refl, sym (append-nil _)))))
  handler_loop-AllServed (event ∷ events) s = elim (Option-cases (next_event respond event s)) [
    | inl e ↦ rw e tt
    | inr (s1, e) ↦ elim (Bool-cases event.ok) [
      | inl ok ↦
          rw (e, ok)
            (Advance-Served event.message (messages_of events) s s1 (handler_loop respond events s1)
              (subst (Advances event.message s) e (next_event-Advances event s))
              (handler_loop-AllServed events s1))
      | inr failed_ ↦
          rw (e, failed_)
            (Keeps-Served (messages_of events) s s1 (handler_loop respond events s1)
              (subst (Keeps s) e (next_event-Keeps event s failed_))
              (handler_loop-AllServed events s1))
    ]
  ]

  -- Whatever events the loop has gone through, the responses so far and the state of the rest of the process are what
  -- messages of its events get, one after the other: only messages of events that are ok, each at most
  -- once, and in the order of the events.
  pub handler_thread-serve :
      (events : List (Event respond)) (env : Env) (s : Service Env Response)
      → handler_thread respond events env ≡ some s
      → (messages : List Message) × (Sublist messages (messages_of events)
          × (serve messages env ≡ some (map (λ r. r.1) s.responses, s.env)))
  unfolding handler_thread new_request connect
  handler_thread-serve events env s e =
      let (messages, (rs, (sub, (served, given)))) =
        subst (AllServed (messages_of events) (new_request respond (empty_service respond env))) e
          (handler_loop-AllServed events (new_request respond (empty_service respond env))) in
      (messages, (sub, rw given served))
