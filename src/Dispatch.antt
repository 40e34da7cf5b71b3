-- ===== src/Dispatch.antt =====
-- base/threading/dispatcher/Dispatcher.h and Dispatcher.cpp: the registry of message pumps, threads and
-- task runners, and the routing of a task. The three maps compare names by `strcmp`.
pub mod Posting
pub mod Pump
pub mod Routing
pub mod Task
mod Tests
use mathlib.Core.Option
use text.Mathlib.Text.{◌==◌ as str_eq}
use gitrpc.Prelude.{
  ℕ, ◌==◌, Bool, true, false, Option, none, some, List, [], ◌∷◌, String, if◌then◌else◌,
}

-- std::map: `find`, and the assignment by `[]`.
unfoldable pub find {ℓ} : {A : Type ℓ} → String → List (String × A) → Option A
find name [] = none
find name ((key, value) ∷ entries) = if str_eq name key then some value else find name entries

unfoldable pub assign_id : ℕ → String → List (ℕ × String) → List (ℕ × String)
assign_id id name [] = (id, name) ∷ []
assign_id id name ((key, value) ∷ entries) =
    if id == key then (key, name) ∷ entries else (key, value) ∷ assign_id id name entries

unfoldable pub find_id : ℕ → List (ℕ × String) → Option String
find_id id [] = none
find_id id ((key, value) ∷ entries) = if id == key then some value else find_id id entries

-- The objects of the classes DispatcherMessagePump, TaskRunner and Thread, and the field `Id` of the last
-- two: the dispatcher uses nothing else of them.
pub record Classes : Type 1 where
  pub Pump : Type 0
  pub Runner : Type 0
  pub Thread : Type 0
  pub runner_id : Runner → ℕ
  pub thread_id : Thread → ℕ

pub record Dispatcher (classes : Classes) : Type 0 where
  pub known_dmps : List (String × classes.Pump)
  pub named_threads : List (String × classes.Thread)
  pub named_dmps : List (String × classes.Runner)
  pub thread_ids : List (ℕ × String)

-- Where PostTask hands a task to.
pub data Delivery (classes : Classes) : Type 0 where
  run_task : classes.Runner → Delivery classes
  post_to_thread : classes.Thread → Delivery classes
  post_message : classes.Pump → Delivery classes
  unknown : Delivery classes

module _ (classes : Classes) where
  open classes use {Pump, Runner, Thread, runner_id, thread_id}

  unfoldable pub add_message_pump : String → Pump → ℕ → Dispatcher classes → Dispatcher classes
  add_message_pump name dmp parent d = elim (find name d.known_dmps) [
    | none ↦ record d {
      known_dmps = (name, dmp) ∷ d.known_dmps;
      thread_ids = assign_id parent name d.thread_ids;
    }
    | some existing ↦ d
  ]

  unfoldable pub add_task_runner : String → Runner → Dispatcher classes → Dispatcher classes
  add_task_runner name runner d = elim (find name d.named_dmps) [
    | none ↦ record d {
      named_dmps = (name, runner) ∷ d.named_dmps;
      thread_ids = assign_id (runner_id runner) name d.thread_ids;
    }
    | some existing ↦ d
  ]

  unfoldable pub add_named_thread : String → Thread → Dispatcher classes → Dispatcher classes
  add_named_thread name thread d = elim (find name d.named_threads) [
    | none ↦ record d {
      named_threads = (name, thread) ∷ d.named_threads;
      thread_ids = assign_id (thread_id thread) name d.thread_ids;
    }
    | some existing ↦ d
  ]

  unfoldable pub post_task_to_task_runner : String → Dispatcher classes → Delivery classes
  post_task_to_task_runner name d = elim (find name d.named_dmps) [
    | none ↦ unknown
    | some runner ↦ run_task runner
  ]

  unfoldable pub post_task_to_thread : String → Dispatcher classes → Delivery classes
  post_task_to_thread name d = elim (find name d.named_threads) [
    | none ↦ post_task_to_task_runner name d
    | some thread ↦ post_to_thread thread
  ]

  unfoldable pub post_task : String → Dispatcher classes → Delivery classes
  post_task receiver d = elim (find receiver d.named_dmps) [
    | some runner ↦ run_task runner
    | none ↦ elim (find receiver d.named_threads) [
      | some thread ↦ post_to_thread thread
      | none ↦ elim (find receiver d.known_dmps) [ some dmp ↦ post_message dmp | none ↦ unknown ]
    ]
  ]

  -- 0 if the name belongs to no thread and no task runner.
  unfoldable pub get_thread_id : String → Dispatcher classes → ℕ
  get_thread_id name d = elim (find name d.named_dmps) [
    | some runner ↦ runner_id runner
    | none ↦ elim (find name d.named_threads) [ some thread ↦ thread_id thread | none ↦ 0 ]
  ]

  unfoldable pub get_thread_name_from_id : ℕ → Dispatcher classes → String
  get_thread_name_from_id id d = elim (find_id id d.thread_ids) [ none ↦ "" | some name ↦ name ]

  -- IsCorrectThread, on the thread with this identifier.
  unfoldable pub is_correct_thread : ℕ → String → Dispatcher classes → Bool
  is_correct_thread current name d = get_thread_id name d == current

  abbrev pub empty_dispatcher : Dispatcher classes
  empty_dispatcher = record {
    known_dmps = [];
    named_threads = [];
    named_dmps = [];
    thread_ids = [];
  }
