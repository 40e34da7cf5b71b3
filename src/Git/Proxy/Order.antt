-- ===== src/Git/Proxy/Order.antt =====
-- The order in which the pump of "Main" runs the tasks of the proxy: the task of a close has the priority
-- LOW, and the task of every other call has none, since Bind does not store it.
use gitrpc.Prelude.{
  ℕ, ◌≤◌, ◌≡◌, refl, subst, Bool, true, false, List, [], ◌∷◌, map, All, ltb, if◌then◌else◌, arith,
}
use gitrpc.Dispatch.Task.{Task, create, bind}
use gitrpc.Dispatch.Pump.{priority_comparer, priority_number}
use gitrpc.PriorityQueue.{PriorityQueue}
use gitrpc.PriorityQueue.Drain.{IsOrdered}
use gitrpc.Git.Library.{Libgit2}
use gitrpc.Git.Manager.{
  open_request, close_request, append_request, commit_request, reference_request, refs_request,
}
use gitrpc.Git.Proxy.{Args, Env, proxy_task, ranked_task0, ranked_task1, new_task0, new_task1}
use gitrpc.Git.Proxy.Tasks.{Call, is_awaited, task_of}

-- `(int)TaskPriority::LOW`, as priority_number gives it.
abbrev pub low_number : ℕ
low_number = 2147483650

-- A call that comes before another one: only a call whose unset priority is at most LOW comes before a close, and
-- only one whose unset priority is at least LOW after it.
abbrev pub MayPrecede : (ℕ → ℕ) → Call → Call → Type 0
MayPrecede unset c d =
    if is_awaited c.0
    then (if is_awaited d.0 then (unset c.1 ≤ unset d.1) else (unset c.1 ≤ low_number))
    else if is_awaited d.0
    then (low_number ≤ unset d.1)
    else Unit {0}

-- Every call may precede those that come after it.
abbrev pub AreSorted : (ℕ → ℕ) → List Call → Type 0
AreSorted unset [] = Unit {0}
AreSorted unset (c ∷ order) = All (MayPrecede unset c) order × AreSorted unset order

module _ (git : Libgit2) (unset : ℕ → ℕ)
    (queue : PriorityQueue (Task Args (Env git)) (priority_comparer unset)) where
  abbrev pub number : Call → ℕ
  number c =
      priority_number unset (task_of git unset queue c).block
        (task_of git unset queue c).task_priority

  number-is_awaited : (c : Call) → number c ≡ (if is_awaited c.0 then unset c.1 else low_number)
  unfolding priority_number proxy_task create bind ranked_task0 ranked_task1 new_task0 new_task1
  number-is_awaited (open_request name, k) = refl
  number-is_awaited (close_request, k) = refl
  number-is_awaited (append_request bytes, k) = refl
  number-is_awaited (commit_request, k) = refl
  number-is_awaited (reference_request ref_name ref_rev, k) = refl
  number-is_awaited (refs_request, k) = refl

  abbrev pub AreOrdered : List Call → Type 0
  AreOrdered order = IsOrdered (priority_comparer unset) (map (task_of git unset queue) order)

  may_precede :
      (c d : Call) (first second : Bool)
      → is_awaited c.0 ≡ first
      → is_awaited d.0 ≡ second
      → ltb (if second then unset d.1 else low_number) (if first then unset c.1 else low_number)
        ≡ false
      → if first
        then (if second then (unset c.1 ≤ unset d.1) else (unset c.1 ≤ low_number))
        else if second
        then (low_number ≤ unset d.1)
        else Unit {0}
  may_precede c d true true e f later = ground arith
  may_precede c d true false e f later = ground arith
  may_precede c d false true e f later = ground arith
  may_precede c d false false e f later = tt

  -- A call that does not wait for another one may precede it.
  pub later-MayPrecede : (c d : Call) → ltb (number d) (number c) ≡ false → MayPrecede unset c d
  later-MayPrecede c d later = may_precede c d (is_awaited c.0) (is_awaited d.0) refl refl (
      subst (λ n. ltb n (if is_awaited c.0 then unset c.1 else low_number) ≡ false)
        (number-is_awaited d) (subst (λ n. ltb (number d) n ≡ false) (number-is_awaited c) later))

  precedes_rest :
      (c : Call) (order : List Call) → AreOrdered (c ∷ order) → All (MayPrecede unset c) order
  precedes_rest c [] ordered = tt
  precedes_rest c (d ∷ order) ((first, rest), (second, more)) =
      (later-MayPrecede c d first, precedes_rest c order (rest, more))

  -- An order that keeps to the priorities is sorted so, whenever the calls were made.
  pub ordered_sorted : (order : List Call) → AreOrdered order → AreSorted unset order
  ordered_sorted [] ordered = tt
  ordered_sorted (c ∷ order) ordered =
      (precedes_rest c order ordered, ordered_sorted order ordered.1)
