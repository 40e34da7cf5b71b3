-- ===== src/EventHub.antt =====
-- base/events/EventHub.h and EventHub.cpp: the handlers of named events. What a handler does is a
-- parameter: it takes the arguments and the state of the process to the next state.
pub mod Independence
mod Tests
use text.Mathlib.Text.{◌==◌ as str_eq}
use gitrpc.Prelude.{
  Bool, true, false, Option, none, some, List, [], ◌∷◌, ◌++◌, String, if◌then◌else◌,
}
use gitrpc.Dispatch.{find}

pub record EventHandler (Args Env : Type 0) : Type 0 where
  pub id : String
  pub run_handler_as_task : Bool
  pub owning_thread : String
  pub handler : Args → Env → Env

-- A task with RunEventHandler and its arguments, for the thread.
pub record Dispatched (Args Env : Type 0) : Type 0 where
  pub owning_thread : String
  pub event_handler : EventHandler Args Env
  pub args : Args

-- The assignment by `[]`.
unfoldable pub assign {ℓ} : {A : Type ℓ} → String → A → List (String × A) → List (String × A)
assign name value [] = (name, value) ∷ []
assign name value ((key, existing) ∷ entries) =
    if str_eq name key then (key, value) ∷ entries else (key, existing) ∷ assign name value entries

abbrev pub Hub : Type 0 → Type 0 → Type 0
Hub Args Env = List (String × List (EventHandler Args Env))

module _ {Args Env : Type 0} where
  -- `insert` leaves a name that is there as it is.
  unfoldable pub register_event : String → Hub Args Env → Hub Args Env
  register_event name hub = elim (find name hub) [ none ↦ assign name [] hub | some handlers ↦ hub ]

  unfoldable pub register_event_handler :
      String → EventHandler Args Env → Hub Args Env → Hub Args Env
  register_event_handler name handler hub = elim (find name hub) [
    | none ↦ hub
    | some handlers ↦ assign name (handlers ++ handler ∷ []) hub
  ]

  -- find_if and erase: the first handler with the identifier.
  unfoldable pub erase : String → List (EventHandler Args Env) → List (EventHandler Args Env)
  erase id [] = []
  erase id (handler ∷ handlers) =
      if str_eq handler.id id then handlers else handler ∷ erase id handlers

  -- The first `[]` makes an event of a name that has none.
  unfoldable pub unregister_event_handler : String → String → Hub Args Env → Hub Args Env
  unregister_event_handler name id hub =
      assign name (erase id (elim (find name hub) [ none ↦ [] | some handlers ↦ handlers ])) hub

  -- The loop of TriggerEvent: the tasks posted, in order, and the state after the handlers that run at once.
  unfoldable pub run_handlers :
      Args → List (EventHandler Args Env) → Env → List (Dispatched Args Env) × Env
  run_handlers args [] env = ([], env)
  run_handlers args (eh ∷ handlers) env =
      let task : Dispatched Args Env = record {
        owning_thread = eh.owning_thread;
        event_handler = eh;
        args = args;
      } in
      let posted = run_handlers args handlers env in
      let run = run_handlers args handlers (eh.handler args env) in
      if eh.run_handler_as_task then (task ∷ posted.0, posted.1) else run

  unfoldable pub trigger_event :
      String → Args → Hub Args Env → Env → List (Dispatched Args Env) × Env
  trigger_event name args hub env = elim (find name hub) [
    | none ↦ ([], env)
    | some handlers ↦ run_handlers args handlers env
  ]

  unfoldable pub run_event_handler : Dispatched Args Env → Env → Env
  run_event_handler event_args env = event_args.event_handler.handler event_args.args env
