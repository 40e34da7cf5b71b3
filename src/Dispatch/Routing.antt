-- ===== src/Dispatch/Routing.antt =====
-- Where a task goes after a sequence of registrations.
use text.Mathlib.Text.{◌==◌ as str_eq}
use text.Mathlib.TextEquality.{eq_iff}
use gitrpc.Prelude.{
  ℕ, ◌≡◌, refl, sym, ap, ◌∙◌, inl, inr, Option, none, some, List, [], ◌∷◌, String, if◌then◌else◌,
  Bool-cases, Option-cases,
}
use gitrpc.Dispatch.{
  Dispatcher, Delivery, run_task, post_to_thread, post_message, unknown, Classes, find,
  add_message_pump, add_task_runner, add_named_thread, post_task, empty_dispatcher,
}

abbrev or_else {ℓ} : {A : Type ℓ} → Option A → Option A → Option A
or_else none second = second
or_else (some a) second = some a

or_else_assoc {ℓ} :
    {A : Type ℓ} (a b c : Option A) → or_else (or_else a b) c ≡ or_else a (or_else b c)
or_else_assoc none b c = refl
or_else_assoc (some a) b c = refl

or_else-none {ℓ} : {A : Type ℓ} (a : Option A) → or_else a none ≡ a
or_else-none none = refl
or_else-none (some a) = refl

-- What an entry gives a name.
abbrev offered {ℓ} : {A : Type ℓ} → String → String → A → Option A
offered name key value = if str_eq name key then some value else none

entry {ℓ} :
    {A : Type ℓ} (name key : String) (value : A) (entries : List (String × A))
    → find key entries ≡ none
    → find name ((key, value) ∷ entries) ≡ or_else (find name entries) (offered name key value)
unfolding find
entry name key value entries missing = elim (Bool-cases (str_eq name key)) [
  | inl e ↦ rw (e, (eq_iff name key).0 e, missing) refl
  | inr e ↦ rw e (sym (or_else-none (find name entries)))
]

present {ℓ} :
    {A : Type ℓ} (name key : String) (value existing : A) (entries : List (String × A))
    → find key entries ≡ some existing
    → find name entries ≡ or_else (find name entries) (offered name key value)
present name key value existing entries there = elim (Bool-cases (str_eq name key)) [
  | inl e ↦ rw ((eq_iff name key).0 e, there) refl
  | inr e ↦ rw e (sym (or_else-none (find name entries)))
]

module _ (classes : Classes) where
  open classes use {Pump, Runner, Thread}

  pub data Registration : Type 0 where
    pump : String → Pump → ℕ → Registration
    runner : String → Runner → Registration
    thread : String → Thread → Registration

  abbrev register : Registration → Dispatcher classes → Dispatcher classes
  register (pump name p id) d = add_message_pump classes name p id d
  register (runner name r) d = add_task_runner classes name r d
  register (thread name t) d = add_named_thread classes name t d

  -- The calls of AddMessagePump, AddTaskRunner and AddNamedThread, in order.
  abbrev pub register_all : List Registration → Dispatcher classes → Dispatcher classes
  register_all [] d = d
  register_all (r ∷ rs) d = register_all rs (register r d)

  abbrev pub first_runner : String → List Registration → Option Runner
  first_runner name [] = none
  first_runner name (pump key p id ∷ rs) = first_runner name rs
  first_runner name (runner key r ∷ rs) = or_else (offered name key r) (first_runner name rs)
  first_runner name (thread key t ∷ rs) = first_runner name rs

  abbrev pub first_thread : String → List Registration → Option Thread
  first_thread name [] = none
  first_thread name (pump key p id ∷ rs) = first_thread name rs
  first_thread name (runner key r ∷ rs) = first_thread name rs
  first_thread name (thread key t ∷ rs) = or_else (offered name key t) (first_thread name rs)

  abbrev pub first_pump : String → List Registration → Option Pump
  first_pump name [] = none
  first_pump name (pump key p id ∷ rs) = or_else (offered name key p) (first_pump name rs)
  first_pump name (runner key r ∷ rs) = first_pump name rs
  first_pump name (thread key t ∷ rs) = first_pump name rs

  -- The first runner of the name, else the first thread, else the first pump.
  abbrev pub route : Option Runner → Option Thread → Option Pump → Delivery classes
  route (some r) t p = run_task r
  route none (some t) p = post_to_thread t
  route none none (some p) = post_message p
  route none none none = unknown

  -- The three maps of a dispatcher give a name what the first map gives it, and else the second.
  abbrev Adds :
      String
      → Dispatcher classes
      → Option Runner
      → Option Thread
      → Option Pump
      → Dispatcher classes
      → Type 0
  Adds name d r t p d1 =
      (find name d1.named_dmps ≡ or_else (find name d.named_dmps) r)
      × ((find name d1.named_threads ≡ or_else (find name d.named_threads) t)
          × (find name d1.known_dmps ≡ or_else (find name d.known_dmps) p))

  add_message_pump-Adds :
      (name key : String) (p : Pump) (id : ℕ) (d : Dispatcher classes)
      → Adds name d none none (offered name key p) (add_message_pump classes key p id d)
  unfolding add_message_pump find
  add_message_pump-Adds name key p id d = elim (Option-cases (find key d.known_dmps)) [
    | inl e ↦
        rw (e, add_message_pump)
          (sym (or_else-none _), (sym (or_else-none _), entry name key p d.known_dmps e))
    | inr (existing, e) ↦
        rw (e, add_message_pump)
          (sym (or_else-none _), (sym (or_else-none _), present name key p existing d.known_dmps e))
  ]

  add_task_runner-Adds :
      (name key : String) (r : Runner) (d : Dispatcher classes)
      → Adds name d (offered name key r) none none (add_task_runner classes key r d)
  unfolding add_task_runner find
  add_task_runner-Adds name key r d = elim (Option-cases (find key d.named_dmps)) [
    | inl e ↦
        rw (e, add_task_runner)
          (entry name key r d.named_dmps e, (sym (or_else-none _), sym (or_else-none _)))
    | inr (existing, e) ↦
        rw (e, add_task_runner)
          (present name key r existing d.named_dmps e, (sym (or_else-none _), sym (or_else-none _)))
  ]

  add_named_thread-Adds :
      (name key : String) (t : Thread) (d : Dispatcher classes)
      → Adds name d none (offered name key t) none (add_named_thread classes key t d)
  unfolding add_named_thread find
  add_named_thread-Adds name key t d = elim (Option-cases (find key d.named_threads)) [
    | inl e ↦
        rw (e, add_named_thread)
          (sym (or_else-none _), (entry name key t d.named_threads e, sym (or_else-none _)))
    | inr (existing, e) ↦
        rw (e, add_named_thread)
          (
            sym (or_else-none _),
            (present name key t existing d.named_threads e, sym (or_else-none _)),
          )
  ]

  Adds-trans :
      (name : String) (d d1 d2 : Dispatcher classes) (r r1 : Option Runner) (t t1 : Option Thread)
      (p p1 : Option Pump)
      → Adds name d r t p d1
      → Adds name d1 r1 t1 p1 d2
      → Adds name d (or_else r r1) (or_else t t1) (or_else p p1) d2
  Adds-trans name d d1 d2 r r1 t t1 p p1 (a, (b, c)) (a1, (b1, c1)) = (
    a1 ∙ ap (λ x. or_else x r1) a ∙ or_else_assoc _ r r1,
    (
      b1 ∙ ap (λ x. or_else x t1) b ∙ or_else_assoc _ t t1,
      c1 ∙ ap (λ x. or_else x p1) c ∙ or_else_assoc _ p p1,
    ),
  )

  register_all-Adds :
      (name : String) (rs : List Registration) (d : Dispatcher classes)
      → Adds name d
          (first_runner name rs)
          (first_thread name rs)
          (first_pump name rs)
          (register_all rs d)
  register_all-Adds name [] d = (sym (or_else-none _), (sym (or_else-none _), sym (or_else-none _)))
  register_all-Adds name (pump key p id ∷ rs) d =
      let d1 = register (pump key p id) d in
      Adds-trans name d d1 (register_all rs d1) none _ none _ _ _
        (add_message_pump-Adds name key p id d) (register_all-Adds name rs d1)
  register_all-Adds name (runner key r ∷ rs) d =
      let d1 = register (runner key r) d in
      Adds-trans name d d1 (register_all rs d1) _ _ none _ none _
        (add_task_runner-Adds name key r d) (register_all-Adds name rs d1)
  register_all-Adds name (thread key t ∷ rs) d =
      let d1 = register (thread key t) d in
      Adds-trans name d d1 (register_all rs d1) none _ _ _ none _
        (add_named_thread-Adds name key t d) (register_all-Adds name rs d1)

  routed :
      (r : Option Runner) (t : Option Thread) (p : Option Pump)
      → elim r [
        | some r1 ↦ run_task r1
        | none ↦ elim t [
          | some t1 ↦ post_to_thread t1
          | none ↦ elim p [ some dmp ↦ post_message dmp | none ↦ unknown ]
        ]
      ]
        ≡ route r t p
  routed (some r) t p = refl
  routed none (some t) p = refl
  routed none none (some p) = refl
  routed none none none = refl

  -- After any sequence of registrations PostTask runs a task on the first task runner that was registered
  -- under the name of the receiver, or else posts it to the first such thread, or else to the first such
  -- pump, or else drops it.
  pub post_task-route :
      (name : String) (rs : List Registration)
      → post_task classes name (register_all rs (empty_dispatcher classes))
        ≡ route (first_runner name rs) (first_thread name rs) (first_pump name rs)
  unfolding post_task find
  post_task-route name rs =
      let d = register_all rs (empty_dispatcher classes) in
      let (r, (t, p)) = register_all-Adds name rs (empty_dispatcher classes) in
      routed (find name d.named_dmps) (find name d.named_threads) (find name d.known_dmps)
      ∙ rw (r, t, p) refl
