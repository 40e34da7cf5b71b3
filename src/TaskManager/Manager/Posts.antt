-- ===== src/TaskManager/Manager/Posts.antt =====
-- Posts to runners with a name.
use mathlib.Core.List.{Permᴰ}
use mathlib.Core.List.Permᴰ
use text.Mathlib.Text.{◌==◌ as str_eq}
use text.Mathlib.TextEquality.{eq_iff}
use gitrpc.Prelude.{
  ◌≡◌, refl, sym, ap, subst, ◌∙◌, inl, inr, true, false, Option, none, some, List, [], ◌∷◌, All,
  String, if◌then◌else◌, ◌>>=◌, Bool-cases, arith, ℕ,
}
use gitrpc.TaskManager.Task.{Task, priority_comparer}
use gitrpc.TaskManager.Runner.{TaskRunner, post_task}
use gitrpc.TaskManager.Manager.{Manager, lookup, replace, post_to_runner, post_non_thread_pool_task}
use gitrpc.PriorityQueue.{PriorityQueue}

differs :
    (name other key : String)
    → str_eq name key ≡ true
    → str_eq other name ≡ false
    → str_eq other key ≡ false
differs name other key t d = ground (arith, eq_iff name key, eq_iff other key, eq_iff other name)

same : (name : String) → str_eq name name ≡ true
same name = ground (arith, eq_iff name name)

module _ {A : Type 0} where
  lookup-replace :
      (name : String) (value old : A) (entries : List (String × A))
      → lookup name entries ≡ some old
      → lookup name (replace name value entries) ≡ some value
  unfolding lookup replace
  lookup-replace name value old [] e = absurd (ground arith)
  lookup-replace name value old ((key, v) ∷ entries) e = elim (Bool-cases (str_eq name key)) [
    | inl t ↦ rw (t, t) refl
    | inr f ↦
        rw (f, f)
          (lookup-replace name value old entries
            (subst (λ b. (if b then some v else lookup name entries) ≡ some old) f e))
  ]

  lookup-replace_other :
      (name other : String) (value : A) (entries : List (String × A))
      → str_eq other name ≡ false
      → lookup other (replace name value entries) ≡ lookup other entries
  unfolding lookup replace
  lookup-replace_other name other value [] d = refl
  lookup-replace_other name other value ((key, v) ∷ entries) d =
      elim (Bool-cases (str_eq name key)) [
        | inl t ↦ rw (t, differs name other key t d) refl
        | inr f ↦ rw f (
            ap (λ x. if str_eq other key then some v else x)
              (lookup-replace_other name other value entries d))
      ]

module _ {Args Result Env : Type 0} (unset : String → ℕ)
    (queue : PriorityQueue (Task Args Result Env) (priority_comparer unset)) where
  open queue use {Heap, items, push}

  -- A runner of this name, with a queue of its own.
  pub record HasQueue (name : String) (m : Manager unset queue) : Type 0 where
    pub runner : TaskRunner unset queue
    pub heap : Heap
    pub found : lookup name m.runners ≡ some runner
    pub own : runner.thread_pool_task_runner ≡ false
    pub queued : runner.tasks ≡ some heap

  -- The tasks that the runner of this name has in its queue.
  abbrev pub tasks_of : Option (TaskRunner unset queue) → List (Task Args Result Env)
  tasks_of none = []
  tasks_of (some r) = elim r.tasks [ none ↦ [] | some h ↦ items h ]

  abbrev pub queue_of : String → Manager unset queue → List (Task Args Result Env)
  queue_of name m = tasks_of (lookup name m.runners)

  queue_of-items :
      (name : String) (m : Manager unset queue) (q : HasQueue name m)
      → queue_of name m ≡ items q.heap
  queue_of-items name m q = rw (q.found, q.queued) refl

  abbrev pub post_all :
      List (String × Task Args Result Env) → Manager unset queue → Option (Manager unset queue)
  post_all [] m = some m
  post_all ((name, task) ∷ posts) m =
      post_non_thread_pool_task unset queue task name m >>= λ m1. post_all posts m1

  -- A list with the tasks posted to a name in front of it.
  abbrev pub with_posts :
      String
      → List (String × Task Args Result Env)
      → List (Task Args Result Env)
      → List (Task Args Result Env)
  with_posts name [] tasks = tasks
  with_posts name ((other, task) ∷ posts) tasks =
      with_posts name posts (if str_eq name other then task ∷ tasks else tasks)

  with_posts-Permᴰ :
      (name : String) (posts : List (String × Task Args Result Env))
      (xs ys : List (Task Args Result Env))
      → Permᴰ xs ys
      → Permᴰ (with_posts name posts xs) (with_posts name posts ys)
  with_posts-Permᴰ name [] xs ys p = p
  with_posts-Permᴰ name ((other, task) ∷ posts) xs ys p = elim (Bool-cases (str_eq name other)) [
    | inl t ↦ rw t (with_posts-Permᴰ name posts (task ∷ xs) (task ∷ ys) (Permᴰ.cons refl p))
    | inr f ↦ rw f (with_posts-Permᴰ name posts xs ys p)
  ]

  abbrev pushed :
      (task : Task Args Result Env) (name : String) (m : Manager unset queue)
      → HasQueue name m
      → Manager unset queue
  pushed task name m q = record m {
    runners = replace name (record q.runner { tasks = some (push task q.heap) }) m.runners;
  }

  pushed-found :
      (task : Task Args Result Env) (name : String) (m : Manager unset queue) (q : HasQueue name m)
      → lookup name (pushed task name m q).runners
        ≡ some (record q.runner { tasks = some (push task q.heap) })
  pushed-found task name m q = lookup-replace name _ q.runner m.runners q.found

  pushed-HasQueue :
      (task : Task Args Result Env) (name n : String) (m : Manager unset queue)
      (q : HasQueue name m)
      → HasQueue n m
      → HasQueue n (pushed task name m q)
  pushed-HasQueue task name n m q p = elim (Bool-cases (str_eq n name)) [
    | inl t ↦
        subst (λ x. HasQueue x (pushed task name m q)) (sym ((eq_iff n name).0 t))
          (record {
            runner = record q.runner { tasks = some (push task q.heap) };
            heap = push task q.heap;
            found = pushed-found task name m q;
            own = q.own;
            queued = refl;
          })
    | inr f ↦ record {
      runner = p.runner;
      heap = p.heap;
      found = lookup-replace_other name n _ m.runners f ∙ p.found;
      own = p.own;
      queued = p.queued;
    }
  ]

  pushed-content :
      (task : Task Args Result Env) (name n : String) (m : Manager unset queue)
      (q : HasQueue name m)
      → Permᴰ
          (queue_of n (pushed task name m q))
          (if str_eq n name then task ∷ queue_of n m else queue_of n m)
  pushed-content task name n m q = elim (Bool-cases (str_eq n name)) [
    | inl t ↦ rw t (
        subst (λ x. Permᴰ (queue_of x (pushed task name m q)) (task ∷ queue_of x m))
          (sym ((eq_iff n name).0 t))
          (subst (λ x. Permᴰ (tasks_of x) (task ∷ queue_of name m))
            (sym (pushed-found task name m q))
            (subst (λ xs. Permᴰ (items (push task q.heap)) (task ∷ xs))
              (sym (queue_of-items name m q)) (queue.items-push task q.heap))))
    | inr f ↦ rw f (
        subst (λ x. Permᴰ (tasks_of x) (queue_of n m))
          (sym (lookup-replace_other name n _ m.runners f)) (Permᴰ.refl _))
  ]

  pushed-ran :
      (task : Task Args Result Env) (name : String) (m : Manager unset queue) (q : HasQueue name m)
      → post_non_thread_pool_task unset queue task name m ≡ some (pushed task name m q)
  unfolding post_non_thread_pool_task post_to_runner post_task
  pushed-ran task name m q = rw (q.found, q.own, q.queued) refl

  pushed-keeps :
      (task : Task Args Result Env) (name : String) (m : Manager unset queue) (q : HasQueue name m)
      (posts : List (String × Task Args Result Env))
      → All (λ post. HasQueue post.0 m) posts
      → All (λ post. HasQueue post.0 (pushed task name m q)) posts
  pushed-keeps task name m q [] all = tt
  pushed-keeps task name m q ((n, t) ∷ posts) (p, all) =
      (pushed-HasQueue task name n m q p, pushed-keeps task name m q posts all)

  -- Posts to runners that have a queue of their own are all done, in any order and to any of them, and afterwards
  -- each runner's queue has the tasks that it had and those that were posted to its name, each one once.
  pub post_all-with_posts :
      (posts : List (String × Task Args Result Env)) (m : Manager unset queue)
      → All (λ post. HasQueue post.0 m) posts
      → (m1 : Manager unset queue) × (post_all posts m ≡ some m1)
        × ((name : String) → Permᴰ (queue_of name m1) (with_posts name posts (queue_of name m)))
  post_all-with_posts [] m all = (m, refl, λ name. Permᴰ.refl _)
  post_all-with_posts ((name, task) ∷ posts) m (q, all) =
      let m1 = pushed task name m q in
      let (m2, ran, content) =
        post_all-with_posts posts m1 (pushed-keeps task name m q posts all) in
      (
        m2,
        rw (pushed-ran task name m q) ran,
        λ n.
            Permᴰ.trans (content n)
              (with_posts-Permᴰ n posts (queue_of n m1) _ (pushed-content task name n m q)),
      )
