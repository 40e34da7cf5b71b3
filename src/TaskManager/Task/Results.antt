-- ===== src/TaskManager/Task/Results.antt =====
-- What the calls of a task that give a result return, for the tasks that Create makes.
use gitrpc.Prelude.{◌≡◌, refl, not, Option, none, some, String}
use gitrpc.TaskManager.Task.{
  Priority, Method, function, no_return_args, returning_args, no_return, returning, bind, create,
  invoke_and_return,
}

module _ {Args Result Env : Type 0} where
  -- The method itself, with its result if it has one.
  abbrev pub call_result : Method Args Result Env → Env → Option (Result × Env)
  call_result (function f args) env = some (f args env)
  call_result (no_return_args f args) env = none
  call_result (returning_args f args) env = some (f args env)
  call_result (no_return f) env = none
  call_result (returning f) env = some (f env)

  -- InvokeAndReturn, told whether the task has arguments, gives the result of the method that Create was given,
  -- called with its arguments, null or not; for a method without a result it calls through a pointer that was
  -- never set.
  invoke_and_return-create :
      (id : String) (method : Method Args Result Env) (priority : Priority) (env : Env)
      → invoke_and_return (not (create id method priority).has_args) (create id method priority) env
        ≡ call_result method env
  unfolding invoke_and_return create bind
  invoke_and_return-create id (function f none) priority env = refl
  invoke_and_return-create id (function f (some args)) priority env = refl
  invoke_and_return-create id (no_return_args f args) priority env = refl
  invoke_and_return-create id (returning_args f none) priority env = refl
  invoke_and_return-create id (returning_args f (some args)) priority env = refl
  invoke_and_return-create id (no_return f) priority env = refl
  invoke_and_return-create id (returning f) priority env = refl
