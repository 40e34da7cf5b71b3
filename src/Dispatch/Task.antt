-- ===== src/Dispatch/Task.antt =====
-- base/threading/dispatcher/DispatcherTypes.h: the class Task, what Bind stores and what Invoke calls. A
-- method with its object takes the state of the process to the next one. A member that nothing has set
-- is `none`, and a call through it gives `none`; results of methods are dropped by Invoke.
pub mod Invoke
use mathlib.Core.Option
use gitrpc.Prelude.{ℕ, Bool, true, false, Option, none, some, if◌then◌else◌, ◌>>=◌}

pub data TaskPriority : Type 0 where
  high : TaskPriority
  normal : TaskPriority
  low : TaskPriority

-- The object stands in a block of memory, whose number decides what a member holds that nothing has set.
pub record Task (Args Env : Type 0) : Type 0 where
  pub block : ℕ
  pub task_function : Option (Args → Env → Env)
  pub task_nothing : Option (Env → Env)
  pub task_func_no_args : Option (Env → Env)
  pub task_func_no_return : Option (Args → Env → Env)
  pub function_arguments : Option Args
  pub has_cb : Bool
  pub is_cb_task : Bool
  pub has_args : Bool
  pub has_return : Bool
  pub is_complete : Bool
  pub task_priority : Option TaskPriority

-- What Create takes: a function or method with a result or without, with arguments or without. The
-- arguments are a pointer, and may be null.
pub data Method (Args Env : Type 0) : Type 0 where
  function : (Args → Env → Env) → Option Args → Method Args Env
  returning : (Env → Env) → Method Args Env
  returning_args : (Args → Env → Env) → Option Args → Method Args Env
  no_return : (Env → Env) → Method Args Env
  no_return_args : (Args → Env → Env) → Option Args → Method Args Env

module _ {Args Env : Type 0} where
  -- Task(), with the initial values of the members that have one. `functionArguments` has none, and every
  -- Bind stores it.
  abbrev pub new_task : ℕ → Task Args Env
  new_task block = record {
    block = block;
    task_function = none;
    task_nothing = none;
    task_func_no_args = none;
    task_func_no_return = none;
    function_arguments = none;
    has_cb = false;
    is_cb_task = false;
    has_args = false;
    has_return = true;
    is_complete = false;
    task_priority = none;
  }

  -- The five definitions of Bind.
  unfoldable pub bind : Method Args Env → TaskPriority → Task Args Env → Task Args Env
  bind (function f args) priority task = record task {
    function_arguments = args;
    has_cb = false;
    has_args = true;
    is_cb_task = false;
    has_return = true;
    task_priority = some priority;
    task_function = some f;
  }
  bind (returning f) priority task = record task {
    function_arguments = none;
    has_cb = false;
    has_args = false;
    is_cb_task = false;
    task_priority = some priority;
    task_func_no_args = some f;
  }
  bind (returning_args f args) priority task = record task {
    function_arguments = args;
    has_cb = false;
    has_args = true;
    is_cb_task = false;
    has_return = true;
    task_priority = some priority;
    task_function = some f;
  }
  bind (no_return f) priority task = record task {
    function_arguments = none;
    has_cb = false;
    has_args = false;
    is_cb_task = false;
    has_return = false;
    task_priority = some priority;
    task_nothing = some f;
  }
  bind (no_return_args f args) priority task = record task {
    function_arguments = args;
    has_cb = false;
    has_args = true;
    is_cb_task = false;
    has_return = false;
    task_func_no_return = some f;
  }

  -- Create, with the block that `new` gives.
  unfoldable pub create : ℕ → Method Args Env → TaskPriority → Task Args Env
  create block method priority = bind method priority (new_task block)

  -- The call that Invoke makes. No Bind makes a callback task, and the member that one would call has no
  -- value here.
  unfoldable pub invoked : Task Args Env → Env → Option Env
  invoked task env = elim task.function_arguments [
    | some args ↦
        if task.is_cb_task
        then none
        else if task.has_return
        then Option.map (λ f. f args env) task.task_function
        else Option.map (λ f. f args env) task.task_func_no_return
    | none ↦
        if task.has_return
        then Option.map (λ f. f env) task.task_func_no_args
        else Option.map (λ f. f env) task.task_nothing
  ]

  unfoldable pub invoke : Task Args Env → Env → Option (Task Args Env × Env)
  invoke task env = invoked task env >>= λ env1. some (record task { is_complete = true }, env1)
