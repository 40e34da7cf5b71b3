-- ===== src/Git/Proxy/Handlers/Threads.antt =====
-- The handler thread of WriteReference over the dispatcher and the pump.
use gitrpc.Prelude.{ℕ, refl, List, map}
use gitrpc.Dispatch.{Dispatcher}
use gitrpc.Dispatch.Posting.{Addresses, classes}
use gitrpc.Dispatch.Task.{Task}
use gitrpc.Dispatch.Pump.{Pipe, priority_comparer}
use gitrpc.PriorityQueue.{PriorityQueue}
use gitrpc.Git.Library.{Libgit2}
use gitrpc.Git.Manager.{reference_request}
use gitrpc.Git.Requests.{Event, handler_thread}
use gitrpc.Git.Requests.Answers.{WriteReferenceRequest, proxy, write_reference}
use gitrpc.Git.Requests.Simulation.{Views-bind, Sees, event_seen, handler_thread-Sees}
use gitrpc.Git.Proxy.{Args, Env}
use gitrpc.Git.Proxy.Handlers.{
  Server, ViewsAnswer, IsServing, IsServingOf, repository, repository_of, waited_call,
  posted_write_reference, waited_call-Views,
}

module _ (git : Libgit2) (unset : ℕ → ℕ)
    (queue : PriorityQueue (Task Args (Env git)) (priority_comparer unset)) (pipe : Pipe)
    (a : Addresses) (d : Dispatcher (classes a)) (dmp : ℕ) (reports : ℕ → List ℕ) where
  write_reference-Views :
      (request : WriteReferenceRequest) (s : Server git unset queue pipe a d dmp reports)
      → IsServing git unset queue pipe a d dmp reports s
      → ViewsAnswer git unset queue pipe a d dmp reports
          (posted_write_reference git unset queue pipe a d dmp reports request s)
          (write_reference git request (repository git unset queue pipe a d dmp reports s))
  unfolding posted_write_reference write_reference
  write_reference-Views request s serving =
      let q = reference_request request.ref_name request.ref_rev in
      Views-bind (repository_of git unset queue pipe a d dmp reports)
        (IsServingOf git unset queue pipe a d dmp reports)
        (repository_of git unset queue pipe a d dmp reports)
        (IsServingOf git unset queue pipe a d dmp reports)
        (waited_call git unset queue pipe a d dmp reports q s)
        (proxy git q (repository git unset queue pipe a d dmp reports s)) _ _
        (waited_call-Views git unset queue pipe a d dmp reports q s refl serving)
        (λ (err, s1) serving1. (refl, serving1))

  -- The handler thread of WriteReference over the dispatcher and the pump, from a server whose pump of "Main" is ready, with an
  -- empty queue, and whose next promises are new: through every sequence of events it has the objects, the
  -- operations and the responses, and leaves the repository, of the handler thread for which a request is
  -- one step of the manager; the pump is ready again, and the process stops where that one does.
  pub posted_write_reference-Sees :
      (events : List (Event (posted_write_reference git unset queue pipe a d dmp reports)))
      (s : Server git unset queue pipe a d dmp reports)
      → IsServing git unset queue pipe a d dmp reports s
      → Sees
          (posted_write_reference git unset queue pipe a d dmp reports)
          (write_reference git)
          (repository git unset queue pipe a d dmp reports)
          (IsServing git unset queue pipe a d dmp reports)
          (handler_thread (posted_write_reference git unset queue pipe a d dmp reports) events s)
          (handler_thread
            (write_reference git)
            (map
              (event_seen
                (posted_write_reference git unset queue pipe a d dmp reports)
                (write_reference git)
                (repository git unset queue pipe a d dmp reports)
                (IsServing git unset queue pipe a d dmp reports))
              events)
            (repository git unset queue pipe a d dmp reports s))
  posted_write_reference-Sees events s serving =
      handler_thread-Sees (posted_write_reference git unset queue pipe a d dmp reports)
        (write_reference git) (repository git unset queue pipe a d dmp reports)
        (IsServing git unset queue pipe a d dmp reports) write_reference-Views events s serving
