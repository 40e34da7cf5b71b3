-- ===== src/Dispatch/Task/Invoke.antt =====
-- What a task calls, and what Create stores in it.
use mathlib.Core.Option
use gitrpc.Prelude.{ℕ, ◌≡◌, refl, Bool, true, false, Option, none, some, if◌then◌else◌, ◌>>=◌}
use gitrpc.Dispatch.Task.{
  TaskPriority, Method, function, returning, returning_args, no_return, no_return_args, bind,
  create, invoked, invoke,
}

module _ {Args Env : Type 0} where
  -- The method itself, called with its arguments; a method with arguments needs some.
  abbrev pub call : Method Args Env → Env → Option Env
  call (function f args) env = Option.map (λ a. f a env) args
  call (returning f) env = some (f env)
  call (returning_args f args) env = Option.map (λ a. f a env) args
  call (no_return f) env = some (f env)
  call (no_return_args f args) env = Option.map (λ a. f a env) args

  -- Invoke calls the method that Create was given, with its arguments, and marks the task as complete; on
  -- null arguments of a method that takes some it calls through a pointer that was never set.
  invoke-create :
      (block : ℕ) (method : Method Args Env) (priority : TaskPriority) (env : Env)
      → invoke (create block method priority) env ≡ (
          call method env >>= λ env1.
          some (record (create block method priority) { is_complete = true }, env1))
  unfolding invoke invoked create bind
  invoke-create block (function f none) priority env = refl
  invoke-create block (function f (some args)) priority env = refl
  invoke-create block (returning f) priority env = refl
  invoke-create block (returning_args f none) priority env = refl
  invoke-create block (returning_args f (some args)) priority env = refl
  invoke-create block (no_return f) priority env = refl
  invoke-create block (no_return_args f none) priority env = refl
  invoke-create block (no_return_args f (some args)) priority env = refl

  abbrev pub stores_priority : Method Args Env → Bool
  stores_priority (function f args) = true
  stores_priority (returning f) = true
  stores_priority (returning_args f args) = true
  stores_priority (no_return f) = true
  stores_priority (no_return_args f args) = false

  -- Create stores the priority it was given for every kind of method but one: a method with arguments and
  -- no result leaves the priority unset, whatever it was given.
  create-priority :
      (block : ℕ) (method : Method Args Env) (priority : TaskPriority)
      → (create block method priority).task_priority
        ≡ (if stores_priority method then some priority else none)
  unfolding create bind
  create-priority block (function f args) priority = refl
  create-priority block (returning f) priority = refl
  create-priority block (returning_args f args) priority = refl
  create-priority block (no_return f) priority = refl
  create-priority block (no_return_args f args) priority = refl
