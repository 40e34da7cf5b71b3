-- ===== src/Git/Requests.antt =====
-- The unary handlers of services/git/requests: RepoStateChange and WriteReference share all of their
-- code but `Read` and `Write`, so the section takes the two as `respond`: the response that a message
-- gets and what becomes of the rest of the process, `none` if the process stops. A `ServerCompletionQueue`
-- is the list of the operations that are under way: it hands out any of them, with `ok` or without.
pub mod Answers
pub mod Live
pub mod PackStream
pub mod Safety
pub mod Simulation
pub mod Trace
pub mod Waiting
mod Tests
use mathlib.Core.Option
use gitrpc.Prelude.{
  ℕ, ◌+◌, zero, suc, ◌==◌, Bool, true, false, Option, none, some, List, [], ◌∷◌, ◌++◌,
  if◌then◌else◌, ◌>>=◌,
}

-- GitServiceCommon.h.
pub data RequestStatus : Type 0 where
  read_status : RequestStatus
  write_status : RequestStatus
  connect_status : RequestStatus
  done_status : RequestStatus
  finish_status : RequestStatus

-- The operations of gRPC that a request starts, by the address of the request, which is the tag.
pub data Operation : Type 0 where
  accept : ℕ → Operation
  finish : ℕ → Operation

abbrev pub tag : Operation → ℕ
tag (accept at) = at
tag (finish at) = at

-- The objects of the heap that are there, by address.
abbrev pub Objects : Type 0
Objects = ℕ → Option RequestStatus

unfoldable pub put : ℕ → Option RequestStatus → Objects → Objects
put at object objects address = if address == at then object else objects address

-- Takes the operation at a place out of those under way.
unfoldable pub pick {ℓ} : {A : Type ℓ} → ℕ → List A → Option (A × List A)
pick n [] = none
pick zero (x ∷ xs) = some (x, xs)
pick (suc n) (x ∷ xs) = pick n xs >>= λ (y, rest). some (y, x ∷ rest)

pub record Service (Env Response : Type 0) : Type 0 where
  pub objects : Objects
  -- The address of the next object.
  pub fresh : ℕ
  pub queue : List Operation
  -- What the calls were finished with, in order.
  pub responses : List (ℕ × Response)
  pub env : Env

module _ {Env Message Response : Type 0} (respond : Message → Env → Option (Response × Env)) where
  abbrev Handler : Type 0
  Handler = Service Env Response

  -- ProcessRequest in the status CONNECT: the call waits for a client.
  unfoldable pub connect : ℕ → Handler → Handler
  connect at s = record s {
    objects = put at (some read_status) s.objects;
    queue = accept at ∷ s.queue;
  }

  -- The constructor of Request, with its call of ProcessRequest.
  unfoldable pub new_request : Handler → Handler
  new_request s =
      connect s.fresh
        (record s { objects = put s.fresh (some connect_status) s.objects; fresh = suc s.fresh })

  -- Read and Write, which finish the call.
  unfoldable pub read : ℕ → Message → Handler → Option Handler
  read at message s = respond message s.env >>= λ (response, env). some (record s {
    queue = finish at ∷ s.queue;
    responses = s.responses ++ (at, response) ∷ [];
    env = env;
  })

  -- ProcessRequest in the status READ.
  unfoldable pub accepted : ℕ → Message → Handler → Option Handler
  accepted at message s = read at message (new_request s) >>= λ s1.
      some (record s1 { objects = put at (some finish_status) s1.objects })

  -- ProcessRequest of the object at an address; `none` if it is not there, and if the assertion fails.
  unfoldable pub process_status : RequestStatus → ℕ → Message → Handler → Option Handler
  process_status connect_status at message s = some (connect at s)
  process_status read_status at message s = accepted at message s
  process_status finish_status at message s = some (record s { objects = put at none s.objects })
  process_status write_status at message s = none
  process_status done_status at message s = none

  unfoldable pub process_request : ℕ → Message → Handler → Option Handler
  process_request at message s = s.objects at >>= λ status. process_status status at message s

  -- One round of the loop of HandlerThread: the completion queue hands out the operation at a place,
  -- and an accepted call carries the message of its client.
  pub record Event : Type 0 where
    pub place : ℕ
    pub ok : Bool
    pub message : Message

  unfoldable pub event_round : Operation → Event → Handler → Option Handler
  event_round operation event s =
      if event.ok then process_request (tag operation) event.message s else some s

  -- No operation at the place: the loop still waits.
  unfoldable pub next_event : Event → Handler → Option Handler
  next_event event s = elim (pick event.place s.queue) [
    | none ↦ some s
    | some (operation, rest) ↦ event_round operation event (record s { queue = rest })
  ]

  -- HandlerThread for as long as there are events.
  unfoldable pub handler_loop : List Event → Handler → Option Handler
  handler_loop [] s = some s
  handler_loop (event ∷ events) s = next_event event s >>= λ s1. handler_loop events s1

  abbrev empty_service : Env → Handler
  empty_service env = record {
    objects = λ _. none;
    fresh = 0;
    queue = [];
    responses = [];
    env = env;
  }

  unfoldable pub handler_thread : List Event → Env → Option Handler
  handler_thread events env = handler_loop events (new_request (empty_service env))
