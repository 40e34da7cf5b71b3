-- ===== src/Git/Requests/Live.antt =====
-- The operations under way of a handler thread, the objects that they name, and the completion queue.
use gitrpc.Prelude.{
  ℕ, zero, suc, ◌<◌, ◌≤◌, ◌≡◌, ◌≢◌, sym, ◌∙◌, Option, none, some, List, [], ◌∷◌, ◌>>=◌, arith, All,
}
use gitrpc.Git.Requests.{
  RequestStatus, read_status, finish_status, Operation, accept, finish, tag, Objects, put, pick,
  Service,
}

-- The status that an operation under way asks of its object.
abbrev pub awaits : Operation → RequestStatus
awaits (accept at) = read_status
awaits (finish at) = finish_status

abbrev pub IsLive : Objects → ℕ → Operation → Type 0
IsLive objects fresh operation =
    (objects (tag operation) ≡ some (awaits operation)) × (tag operation < fresh)

abbrev pub Apart : ℕ → List Operation → Type 0
Apart at = All (λ operation. tag operation ≢ at)

abbrev pub Distinct : List Operation → Type 0
Distinct [] = Unit {0}
Distinct (operation ∷ operations) = Apart (tag operation) operations × Distinct operations

-- Every operation under way belongs to an object that is there, in the status that it waits in, and no
-- two of them to the same one.
abbrev pub IsSound : {Env Response : Type 0} → Service Env Response → Type 0
IsSound s = All (IsLive s.objects s.fresh) s.queue × Distinct s.queue

pub put_same :
    (at : ℕ) (object : Option RequestStatus) (objects : Objects) → put at object objects at ≡ object
unfolding put
put_same at object objects = ground arith

put_other :
    (at address : ℕ) (object : Option RequestStatus) (objects : Objects)
    → address ≢ at
    → put at object objects address ≡ objects address
unfolding put
put_other at address object objects n = ground arith

pub put-All :
    (at fresh fresh1 : ℕ) (object : Option RequestStatus) (objects : Objects)
    (operations : List Operation)
    → fresh ≤ fresh1
    → Apart at operations
    → All (IsLive objects fresh) operations
    → All (IsLive (put at object objects) fresh1) operations
put-All at fresh fresh1 object objects [] le apart live = tt
put-All at fresh fresh1 object objects (operation ∷ operations) le (n, apart) ((e, lt), live) = (
  (put_other at (tag operation) object objects n ∙ e, omega arith),
  put-All at fresh fresh1 object objects operations le apart live,
)

pub fresh-Apart :
    (objects : Objects) (fresh : ℕ) (operations : List Operation)
    → All (IsLive objects fresh) operations
    → Apart fresh operations
fresh-Apart objects fresh [] live = tt
fresh-Apart objects fresh (operation ∷ operations) ((e, lt), live) =
    (omega arith, fresh-Apart objects fresh operations live)

-- What holds of the operations under way holds of the one that is taken and of the rest.
abbrev pub Picked : (Operation → Type 0) → Option (Operation × List Operation) → Type 0
Picked P picked = elim picked [
  | none ↦ Unit {0}
  | some (operation, rest) ↦
      P operation × (All P rest × (Apart (tag operation) rest × Distinct rest))
]

All-pair :
    (P Q : Operation → Type 0) (operations : List Operation)
    → All P operations
    → All Q operations
    → All (λ x. P x × Q x) operations
All-pair P Q [] p q = tt
All-pair P Q (x ∷ xs) (p, ps) (q, qs) = ((p, q), All-pair P Q xs ps qs)

All-unpair :
    (P Q : Operation → Type 0) (operations : List Operation)
    → All (λ x. P x × Q x) operations
    → All P operations × All Q operations
All-unpair P Q [] h = (tt, tt)
All-unpair P Q (x ∷ xs) ((p, q), h) = let (ps, qs) = All-unpair P Q xs h in ((p, ps), (q, qs))

later-Picked :
    (P : Operation → Type 0) (operation : Operation) (picked : Option (Operation × List Operation))
    → P operation
    → Picked (λ x. P x × (tag x ≢ tag operation)) picked
    → Picked P (picked >>= λ (y, rest). some (y, operation ∷ rest))
later-Picked P operation none p h = tt
later-Picked P operation (some (y, rest)) p ((py, n), (all, (apart, distinct))) =
    let (ps, ns) = All-unpair P (λ x. tag x ≢ tag operation) rest all in
    (py, ((p, ps), ((λ e. n (sym e), apart), (ns, distinct))))

pub pick-Picked :
    (P : Operation → Type 0) (n : ℕ) (operations : List Operation)
    → All P operations
    → Distinct operations
    → Picked P (pick n operations)
unfolding pick
pick-Picked P n [] all distinct = tt
pick-Picked P zero (operation ∷ operations) (p, all) (apart, distinct) =
    (p, (all, (apart, distinct)))
pick-Picked P (suc n) (operation ∷ operations) (p, all) (apart, distinct) =
    let Q : Operation → Type 0 = λ x. P x × (tag x ≢ tag operation) in
    later-Picked P operation (pick n operations) p (
      pick-Picked Q n operations (All-pair P (λ x. tag x ≢ tag operation) operations all apart)
        distinct)
