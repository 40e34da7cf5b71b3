-- ===== src/Git/Requests/Simulation.antt =====
-- Two processes behind the same handler thread: one is a view of the other.
use gitrpc.Prelude.{
  ℕ, ◌≡◌, refl, ap, ◌∙◌, Bool, true, false, Option, none, some, List, [], ◌∷◌, map, if◌then◌else◌,
  ◌>>=◌,
}
use gitrpc.Git.Requests.{
  RequestStatus, read_status, write_status, connect_status, done_status, finish_status, Operation,
  tag, pick, Service, Event, connect, new_request, read, accepted, process_status, process_request,
  event_round, next_event, handler_loop, handler_thread,
}

-- What holds of a result, if there is one.
abbrev pub Ends : {A : Type 0} → (A → Type 0) → Option A → Type 0
Ends P none = Unit {0}
Ends P (some a) = P a

-- The second result is the view of the first one, and what the first one leaves is good.
abbrev pub Views : {A B : Type 0} → (A → B) → (A → Type 0) → Option A → Option B → Type 0
Views view Good x y = ((x >>= λ a. some (view a)) ≡ y) × Ends Good x

pub Views-bind :
    {A B C D : Type 0} (view : A → B) (Good : A → Type 0) (view1 : C → D) (Good1 : C → Type 0)
    (x : Option A) (y : Option B) (f : A → Option C) (g : B → Option D)
    → Views view Good x y
    → ((a : A) → Good a → Views view1 Good1 (f a) (g (view a)))
    → Views view1 Good1 (x >>= f) (y >>= g)
Views-bind view Good view1 Good1 none y f g (e, good) each = (ap (λ z. z >>= g) e, tt)
Views-bind view Good view1 Good1 (some a) y f g (e, good) each =
    ((each a good).0 ∙ ap (λ z. z >>= g) e, (each a good).1)

module _ {E1 E2 Message Response : Type 0} (respond1 : Message → E1 → Option (Response × E1))
    (respond2 : Message → E2 → Option (Response × E2)) (view : E1 → E2) (Good : E1 → Type 0) where
  abbrev pub Answers : Option (Response × E1) → Option (Response × E2) → Type 0
  Answers x y =
      Views (λ (out : Response × E1). (out.0, view out.1)) (λ (out : Response × E1). Good out.1) x y

  -- The answers to a message are the same, and lead to views again.
  abbrev pub IsSimulated : Type 0
  IsSimulated =
      (message : Message) (env : E1)
      → Good env
      → Answers (respond1 message env) (respond2 message (view env))

  abbrev pub seen : Service E1 Response → Service E2 Response
  seen s = record {
    objects = s.objects;
    fresh = s.fresh;
    queue = s.queue;
    responses = s.responses;
    env = view s.env;
  }

  abbrev pub Sees : Option (Service E1 Response) → Option (Service E2 Response) → Type 0
  Sees x y = Views seen (λ (s : Service E1 Response). Good s.env) x y

  abbrev pub event_seen : Event respond1 → Event respond2
  event_seen event = record { place = event.place; ok = event.ok; message = event.message }

  read-Sees :
      IsSimulated
      → (at : ℕ) (message : Message) (s : Service E1 Response) → Good s.env
      → Sees (read respond1 at message s) (read respond2 at message (seen s))
  unfolding read
  read-Sees simulated at message s good =
      Views-bind _ _ seen (λ t. Good t.env) (respond1 message s.env) (respond2 message (view s.env))
        _ _ (simulated message s.env good) (λ out g. (refl, g))

  accepted-Sees :
      IsSimulated
      → (at : ℕ) (message : Message) (s : Service E1 Response) → Good s.env
      → Sees (accepted respond1 at message s) (accepted respond2 at message (seen s))
  unfolding accepted new_request connect
  accepted-Sees simulated at message s good =
      Views-bind seen (λ t. Good t.env) seen (λ t. Good t.env) _ _ _ _
        (read-Sees simulated at message (new_request respond1 s) good) (λ t g. (refl, g))

  process_status-Sees :
      IsSimulated
      → (status : RequestStatus) (at : ℕ) (message : Message) (s : Service E1 Response) → Good s.env
      → Sees
          (process_status respond1 status at message s)
          (process_status respond2 status at message (seen s))
  unfolding process_status connect
  process_status-Sees simulated connect_status at message s good = (refl, good)
  process_status-Sees simulated read_status at message s good =
      accepted-Sees simulated at message s good
  process_status-Sees simulated finish_status at message s good = (refl, good)
  process_status-Sees simulated write_status at message s good = (refl, tt)
  process_status-Sees simulated done_status at message s good = (refl, tt)

  process_object-Sees :
      IsSimulated
      → (object : Option RequestStatus) (at : ℕ) (message : Message) (s : Service E1 Response)
      → Good s.env
      → Sees
          (object >>= λ status. process_status respond1 status at message s)
          (object >>= λ status. process_status respond2 status at message (seen s))
  process_object-Sees simulated none at message s good = (refl, tt)
  process_object-Sees simulated (some status) at message s good =
      process_status-Sees simulated status at message s good

  event_round-Sees :
      IsSimulated
      → (operation : Operation) (event : Event respond1) (ok : Bool) (s : Service E1 Response)
      → Good s.env
      → Sees (if ok then process_request respond1 (tag operation) event.message s else some s) (
          if ok
          then process_request respond2 (tag operation) event.message (seen s)
          else some (seen s))
  unfolding process_request
  event_round-Sees simulated operation event true s good =
      process_object-Sees simulated (s.objects (tag operation)) (tag operation) event.message s good
  event_round-Sees simulated operation event false s good = (refl, good)

  picked-Sees :
      IsSimulated
      → (picked : Option (Operation × List Operation)) (event : Event respond1)
        (s : Service E1 Response)
      → Good s.env
      → Sees
          (elim picked [
            | none ↦ some s
            | some (operation, rest) ↦
                event_round respond1 operation event (record s { queue = rest })
          ])
          (elim picked [
            | none ↦ some (seen s)
            | some (operation, rest) ↦
                event_round respond2 operation (event_seen event) (record (seen s) { queue = rest })
          ])
  unfolding event_round
  picked-Sees simulated none event s good = (refl, good)
  picked-Sees simulated (some (operation, rest)) event s good =
      event_round-Sees simulated operation event event.ok (record s { queue = rest }) good

  handler_loop-Sees :
      IsSimulated
      → (events : List (Event respond1)) (s : Service E1 Response) → Good s.env
      → Sees
          (handler_loop respond1 events s)
          (handler_loop respond2 (map event_seen events) (seen s))
  unfolding handler_loop next_event
  handler_loop-Sees simulated [] s good = (refl, good)
  handler_loop-Sees simulated (event ∷ events) s good =
      Views-bind seen (λ t. Good t.env) seen (λ t. Good t.env) _ _ _ _
        (picked-Sees simulated (pick event.place s.queue) event s good)
        (λ t g. handler_loop-Sees simulated events t g)

  -- If the answers to every message are the same, the whole life of the handler thread is: the same objects,
  -- operations and responses, over a process that is the view of the other, and a stop where the other stops.
  pub handler_thread-Sees :
      IsSimulated
      → (events : List (Event respond1)) (env : E1) → Good env
      → Sees
          (handler_thread respond1 events env)
          (handler_thread respond2 (map event_seen events) (view env))
  unfolding handler_thread new_request connect
  handler_thread-Sees simulated events env good = handler_loop-Sees simulated events _ good
