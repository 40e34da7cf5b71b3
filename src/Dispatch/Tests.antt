-- ===== src/Dispatch/Tests.antt =====
-- Routing in a small registry, whose objects are numbers.
use gitrpc.Prelude.{refl, ℕ, ◌+◌, ◌≡◌, ◌∷◌, [], List, some, ◌>>=◌}
use gitrpc.Dispatch.Task.{no_return_args, high, create, bind, invoked, invoke}
use gitrpc.Dispatch.{Classes, post_task, empty_dispatcher}
use gitrpc.Dispatch.Routing.{
  Registration, pump, runner, thread, register_all, first_runner, first_thread, first_pump, route,
  post_task-route,
}

abbrev numbers : Classes
numbers = record { Pump = ℕ; Runner = ℕ; Thread = ℕ; runner_id = λ r. r; thread_id = λ t. t }

abbrev registered : List (Registration numbers)
registered = thread "Main" 1 ∷ pump "Main" 2 7 ∷ runner "Work" 3 ∷ runner "Work" 4 ∷ []

post_task-route_example :
    post_task numbers "Work" (register_all numbers registered (empty_dispatcher numbers))
    ≡ route numbers
        (first_runner numbers "Work" registered)
        (first_thread numbers "Work" registered)
        (first_pump numbers "Work" registered)
post_task-route_example = post_task-route numbers "Work" registered

abbrev add_twice : ℕ → ℕ → ℕ
add_twice args env = env + args + args

invoke_test :
    (invoke (create 0 (no_return_args add_twice (some 3)) high) 4 >>= λ (task, env). some env)
    ≡ some 10
unfolding invoke invoked create bind
invoke_test = refl
