-- ===== src/EventHub/Tests.antt =====
-- A hub whose handlers add to a number.
use gitrpc.Prelude.{ℕ, ◌+◌, ◌≡◌, ◌∷◌, [], List, String, Bool, true, false, none}
use gitrpc.EventHub.{EventHandler, trigger_event, run_handlers}
use gitrpc.EventHub.Independence.{
  Call, event, add, remove, call_all, known, one_all, trigger_event-one_all,
}

abbrev adder : String → Bool → EventHandler ℕ ℕ
adder id as_task = record {
  id = id;
  run_handler_as_task = as_task;
  owning_thread = "Main";
  handler = λ args env. env + args;
}

abbrev calls : List (Call ℕ ℕ)
calls =
    event "push"
    ∷ add "push" (adder "a" false)
    ∷ add "close" (adder "b" false)
    ∷ add "push" (adder "c" true)
    ∷ remove "push" "a"
    ∷ []

trigger_event-one_all_example :
    trigger_event "push" 2 (call_all calls []) 5
    ≡ run_handlers 2 (known (one_all "push" calls none)) 5
trigger_event-one_all_example = trigger_event-one_all "push" calls 2 5
