-- ===== src/TaskManager/Task.antt =====
-- base/taskmanager/dispatcher/TaskManagerTypes.h: the class Task. A function with its object takes the state of
-- the process to the next one, and may give a result; a `void*` argument may be null, which is `none`. A member
-- that nothing has set is `none`, and a call through it gives `none`.
pub mod Results
use gitrpc.Prelude.{
  Bool, true, false, not, Option, none, some, String, if◌then◌else◌, ◌>>=◌, ltb, ℕ,
}

pub data Priority : Type 0 where
  high : Priority
  normal : Priority
  low : Priority

-- What `functionArguments` points to.
pub data Argument (Args Result : Type 0) : Type 0 where
  argument : Args → Argument Args Result
  task_result : Result → Argument Args Result

pub record Task (Args Result Env : Type 0) : Type 0 where
  pub task_id : String
  pub cb_function : Option (Result → Env → Env)
  pub task_function : Option (Option Args → Env → Result × Env)
  pub task_nothing : Option (Env → Env)
  pub task_func_no_args : Option (Env → Result × Env)
  pub task_func_no_return : Option (Option Args → Env → Env)
  pub function_arguments : Option (Argument Args Result)
  pub has_cb : Bool
  pub is_cb_task : Bool
  pub has_args : Bool
  pub has_return : Bool
  pub is_complete : Bool
  pub task_priority : Option Priority

-- What the five templates of Create take.
pub data Method (Args Result Env : Type 0) : Type 0 where
  function : (Option Args → Env → Result × Env) → Option Args → Method Args Result Env
  no_return_args : (Option Args → Env → Env) → Option Args → Method Args Result Env
  returning_args : (Option Args → Env → Result × Env) → Option Args → Method Args Result Env
  no_return : (Env → Env) → Method Args Result Env
  returning : (Env → Result × Env) → Method Args Result Env

-- The value of `taskPriority` as an int, less the least int. A member that was never set holds what its memory did,
-- any int for each task by its id.
unfoldable pub priority_number : (String → ℕ) → String → Option Priority → ℕ
priority_number unset id none = unset id
priority_number unset id (some high) = 2147483648
priority_number unset id (some normal) = 2147483649
priority_number unset id (some low) = 2147483650

module _ {Args Result : Type 0} where
  abbrev pub pointer : Option Args → Option (Argument Args Result)
  pointer none = none
  pointer (some args) = some (argument args)

  -- The arguments as the bound method reads them: a result is no argument of it, nor the other way round.
  abbrev pub arguments : Option (Argument Args Result) → Option (Option Args)
  arguments none = some none
  arguments (some (argument args)) = some (some args)
  arguments (some (task_result result)) = none

  abbrev pub callback_result : Argument Args Result → Option Result
  callback_result (argument args) = none
  callback_result (task_result result) = some result

module _ {Args Result Env : Type 0} where
  -- PriorityComparer.
  abbrev pub priority_comparer : (String → ℕ) → Task Args Result Env → Task Args Result Env → Bool
  priority_comparer unset x y =
      ltb (priority_number unset y.task_id y.task_priority)
        (priority_number unset x.task_id x.task_priority)

  -- Task(), with the random text that GenerateRandomString gives it.
  abbrev pub new_task : String → Task Args Result Env
  new_task id = record {
    task_id = id;
    cb_function = none;
    task_function = none;
    task_nothing = none;
    task_func_no_args = none;
    task_func_no_return = none;
    function_arguments = none;
    has_cb = false;
    is_cb_task = false;
    has_args = false;
    has_return = true;
    is_complete = false;
    task_priority = none;
  }

  -- The five definitions of Bind.
  unfoldable pub bind :
      Method Args Result Env → Priority → Task Args Result Env → Task Args Result Env
  bind (function f args) priority task = record task {
    function_arguments = pointer args;
    has_cb = false;
    has_args = true;
    is_cb_task = false;
    has_return = true;
    task_priority = some priority;
    task_function = some f;
  }
  bind (no_return_args f args) priority task = record task {
    function_arguments = pointer args;
    has_cb = false;
    has_args = true;
    is_cb_task = false;
    has_return = false;
    task_func_no_return = some f;
  }
  bind (returning_args f args) priority task = record task {
    function_arguments = pointer args;
    has_cb = false;
    has_args = true;
    is_cb_task = false;
    has_return = true;
    task_priority = some priority;
    task_function = some f;
  }
  bind (no_return f) priority task = record task {
    function_arguments = none;
    has_cb = false;
    has_args = false;
    is_cb_task = false;
    has_return = false;
    task_priority = some priority;
    task_nothing = some f;
  }
  bind (returning f) priority task = record task {
    function_arguments = none;
    has_cb = false;
    has_args = false;
    is_cb_task = false;
    task_priority = some priority;
    task_func_no_args = some f;
  }

  unfoldable pub create : String → Method Args Result Env → Priority → Task Args Result Env
  create id method priority = bind method priority (new_task id)

  -- CallbackBind and CreateCallbackTask.
  unfoldable pub callback_bind :
      (Result → Env → Env) → Result → Task Args Result Env → Task Args Result Env
  callback_bind cb result task = record task {
    function_arguments = some (task_result result);
    cb_function = some cb;
    is_cb_task = true;
    has_return = false;
    has_cb = false;
  }

  unfoldable pub create_callback_task :
      String → Result → (Result → Env → Env) → Task Args Result Env
  create_callback_task id result cb = callback_bind cb result (new_task id)

  -- The call that Invoke makes; it drops the result.
  unfoldable pub invoked : Task Args Result Env → Env → Option Env
  invoked task env = elim task.function_arguments [
    | some pointer_ ↦
        if task.is_cb_task
        then (callback_result pointer_ >>= λ result.
            task.cb_function >>= λ cb. some (cb result env))
        else (arguments (some pointer_) >>= λ args.
            if task.has_return
            then (task.task_function >>= λ f. some (f args env).1)
            else (task.task_func_no_return >>= λ f. some (f args env)))
    | none ↦
        if task.has_return
        then (task.task_func_no_args >>= λ f. some (f env).1)
        else (task.task_nothing >>= λ f. some (f env))
  ]

  unfoldable pub invoke : Task Args Result Env → Env → Option (Task Args Result Env × Env)
  invoke task env = invoked task env >>= λ env1. some (record task { is_complete = true }, env1)

  -- InvokeAndReturn, and InvokeWithCallback, which makes the same calls and drops the result.
  unfoldable pub invoke_and_return : Bool → Task Args Result Env → Env → Option (Result × Env)
  invoke_and_return no_arguments task env =
      if not no_arguments
      then (task.task_function >>= λ f.
          arguments task.function_arguments >>= λ args. some (f args env))
      else (task.task_func_no_args >>= λ f. some (f env))

  unfoldable pub invoke_with_callback : Bool → Task Args Result Env → Env → Option Env
  invoke_with_callback no_arguments task env =
      invoke_and_return no_arguments task env >>= λ (result, env1). some env1
