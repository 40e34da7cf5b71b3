-- ===== src/EventHub/Independence.antt =====
-- The handlers of one event among the calls for all of them.
use mathlib.Core.Option
use text.Mathlib.Text.{◌==◌ as str_eq}
use text.Mathlib.TextEquality.{eq_iff}
use gitrpc.Prelude.{
  ◌≡◌, refl, sym, ap, ◌∙◌, inl, inr, Bool, true, false, Option, none, some, List, [], ◌∷◌, ◌++◌,
  String, arith, if◌then◌else◌, Bool-cases,
}
use gitrpc.Dispatch.{find}
use gitrpc.EventHub.{
  EventHandler, Hub, assign, register_event, register_event_handler, erase,
  unregister_event_handler, trigger_event, run_handlers,
}

same : (key : String) → str_eq key key ≡ true
same key = ground (arith, eq_iff key key)

apart :
    (name key k : String) → str_eq name k ≡ true → str_eq key k ≡ false → str_eq name key ≡ false
apart name key k e n = ground (arith, eq_iff name k, eq_iff key k, eq_iff name key)

find-assign {ℓ} :
    {A : Type ℓ} (name key : String) (value : A) (entries : List (String × A))
    → find name (assign key value entries)
      ≡ (if str_eq name key then some value else find name entries)
unfolding find assign
find-assign name key value [] = refl
find-assign name key value ((k, v) ∷ entries) = elim (Bool-cases (str_eq key k)) [
  | inl e ↦
      rw (e, (eq_iff key k).0 e)
        (elim (Bool-cases (str_eq name k)) [ inl e1 ↦ rw e1 refl | inr e1 ↦ rw e1 refl ])
  | inr e ↦
      rw (e, find-assign name key value entries)
        (elim (Bool-cases (str_eq name k)) [
          | inl e1 ↦ rw (e1, apart name key k e1 e) refl
          | inr e1 ↦ rw e1 refl
        ])
]

by_name {ℓ} :
    {A : Type ℓ} (test : Bool) (x y z : A)
    → (test ≡ true → x ≡ y)
    → (if test then x else z) ≡ (if test then y else z)
by_name true x y z h = h refl
by_name false x y z h = refl

keep {ℓ} :
    {A : Type ℓ} (test : Bool) (y z : A) → (test ≡ true → z ≡ y) → z ≡ (if test then y else z)
keep true y z h = h refl
keep false y z h = refl

-- The calls that change a hub.
pub data Call (Args Env : Type 0) : Type 0 where
  event : String → Call Args Env
  add : String → EventHandler Args Env → Call Args Env
  remove : String → String → Call Args Env

module _ {Args Env : Type 0} where
  abbrev call : Call Args Env → Hub Args Env → Hub Args Env
  call (event name) hub = register_event name hub
  call (add name handler) hub = register_event_handler name handler hub
  call (remove name id) hub = unregister_event_handler name id hub

  abbrev pub call_all : List (Call Args Env) → Hub Args Env → Hub Args Env
  call_all [] hub = hub
  call_all (c ∷ cs) hub = call_all cs (call c hub)

  abbrev pub known : Option (List (EventHandler Args Env)) → List (EventHandler Args Env)
  known none = []
  known (some handlers) = handlers

  -- What one call does to the handlers of one name, if any: `none` is a name without an event.
  abbrev pub one :
      String
      → Call Args Env
      → Option (List (EventHandler Args Env))
      → Option (List (EventHandler Args Env))
  one name (event key) before = if str_eq name key then some (known before) else before
  one name (add key handler) before =
      if str_eq name key then Option.map (λ handlers. handlers ++ handler ∷ []) before else before
  one name (remove key id) before =
      if str_eq name key then some (erase id (known before)) else before

  abbrev pub one_all :
      String
      → List (Call Args Env)
      → Option (List (EventHandler Args Env))
      → Option (List (EventHandler Args Env))
  one_all name [] before = before
  one_all name (c ∷ cs) before = one_all name cs (one name c before)

  find_same :
      (name key : String) (hub : Hub Args Env)
      → str_eq name key ≡ true
      → find name hub ≡ find key hub
  find_same name key hub e = ap (λ x. find x hub) ((eq_iff name key).0 e)

  event_found :
      (name key : String) (hub : Hub Args Env) (found : Option (List (EventHandler Args Env)))
      → find key hub ≡ found
      → find name (elim found [ none ↦ assign key [] hub | some handlers ↦ hub ])
        ≡ one name (event key) (find name hub)
  event_found name key hub none h =
      find-assign name key [] hub
      ∙ by_name (str_eq name key) _ _ _ (λ e. rw (find_same name key hub e, h) refl)
  event_found name key hub (some handlers) h =
      keep (str_eq name key) _ _ (λ e. rw (find_same name key hub e, h) refl)

  add_found :
      (name key : String) (handler : EventHandler Args Env) (hub : Hub Args Env)
      (found : Option (List (EventHandler Args Env)))
      → find key hub ≡ found
      → find name
          (elim found [ none ↦ hub | some handlers ↦ assign key (handlers ++ handler ∷ []) hub ])
        ≡ one name (add key handler) (find name hub)
  add_found name key handler hub none h =
      keep (str_eq name key) _ _ (λ e. rw (find_same name key hub e, h) refl)
  add_found name key handler hub (some handlers) h =
      find-assign name key (handlers ++ handler ∷ []) hub
      ∙ by_name (str_eq name key) _ _ _ (λ e. rw (find_same name key hub e, h) refl)

  find-call :
      (name : String) (c : Call Args Env) (hub : Hub Args Env)
      → find name (call c hub) ≡ one name c (find name hub)
  unfolding register_event register_event_handler unregister_event_handler
  find-call name (event key) hub = event_found name key hub (find key hub) refl
  find-call name (add key handler) hub = add_found name key handler hub (find key hub) refl
  find-call name (remove key id) hub =
      find-assign name key (erase id (known (find key hub))) hub
      ∙ by_name (str_eq name key) _ _ _
          (λ e. ap (λ x. some (erase id (known x))) (sym (find_same name key hub e)))

  find-call_all :
      (name : String) (cs : List (Call Args Env)) (hub : Hub Args Env)
      → find name (call_all cs hub) ≡ one_all name cs (find name hub)
  find-call_all name [] hub = refl
  find-call_all name (c ∷ cs) hub =
      find-call_all name cs (call c hub) ∙ ap (one_all name cs) (find-call name c hub)

  triggered :
      (args : Args) (env : Env) (found : Option (List (EventHandler Args Env)))
      → elim found [ none ↦ ([], env) | some handlers ↦ run_handlers args handlers env ]
        ≡ run_handlers args (known found) env
  unfolding run_handlers
  triggered args env none = refl
  triggered args env (some handlers) = refl

  -- After any calls of RegisterEvent, RegisterEventHandler and UnregisterEventHandler on a new hub,
  -- TriggerEvent runs, in order, the handlers that the calls with the same name leave, whatever
  -- calls there are with other names, and nothing for a name without an event.
  pub trigger_event-one_all :
      (name : String) (cs : List (Call Args Env)) (args : Args) (env : Env)
      → trigger_event name args (call_all cs []) env
        ≡ run_handlers args (known (one_all name cs none)) env
  unfolding trigger_event find
  trigger_event-one_all name cs args env =
      triggered args env (find name (call_all cs []))
      ∙ ap (λ x. run_handlers args (known x) env) (find-call_all name cs [])
