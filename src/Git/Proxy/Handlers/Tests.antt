-- ===== src/Git/Proxy/Handlers/Tests.antt =====
-- Handler threads over a pump, on a small disk.
use mathlib.Core.List.{Permᴰ}
use gitrpc.Prelude.{ℕ, refl, true, false, Bool, some, Option, List, [], ◌∷◌, ◌≡◌, ◌≢◌, arith}
use gitrpc.Dispatch.Pump.{Pump, message_round}
use gitrpc.Git.Manager.{open_request, close_request}
use gitrpc.Git.Proxy.{Args, Env}
use gitrpc.Git.Proxy.Tasks.{Call, task_of, history}
use gitrpc.Git.Proxy.Order.{AreSorted}
use gitrpc.Git.Proxy.Round.{post_call}
use gitrpc.Dispatch.Pump.Samples.{bytes}
use gitrpc.Git.Samples.{disk}
use gitrpc.Git.Requests.{Event, handler_thread}
use gitrpc.Git.Requests.Answers.{Finished, WriteReferenceRequest, write_reference}
use gitrpc.Git.Requests.Simulation.{Sees}
use gitrpc.Git.Proxy.Tests.{Job, held, jobs, addresses, registry, pumps, new_process, pumps-IsMain}
use gitrpc.Git.Proxy.Handlers.{
  Server, IsServing, repository, posted_write_reference, posted_change_repository_state,
}
use gitrpc.Git.Proxy.Handlers.Close.{succeeded, posted_change_repository_state-AreSorted}
use gitrpc.Git.Proxy.Handlers.Threads.{posted_write_reference-Sees}

-- What epoll_wait reports to each round.
abbrev the_pipe : ℕ → List ℕ
the_pipe promise = 3 ∷ []

abbrev Server_ : Type 0
Server_ = Server disk held jobs bytes addresses registry 5 the_pipe

abbrev server : Server_
server = record { pumps = pumps; process = new_process; next_promise = 0 }

server-IsServing : IsServing disk held jobs bytes addresses registry 5 the_pipe server
server-IsServing = record {
  main = pumps-IsMain;
  none_queued = refl;
  promises_new = λ k larger. refl;
}

abbrev writes : WriteReferenceRequest → Server_ → Option (Finished × Server_)
writes = posted_write_reference disk held jobs bytes addresses registry 5 the_pipe

abbrev write_events : List (Event writes)
write_events =
    record {
      place = 0;
      ok = true;
      message = record { ref_name = "refs/heads/master"; ref_rev = "01" };
    }
    ∷ []

posted_write_reference-Sees_example :
    Sees writes
      (write_reference disk)
      (repository disk held jobs bytes addresses registry 5 the_pipe)
      (IsServing disk held jobs bytes addresses registry 5 the_pipe)
      (handler_thread writes write_events server)
      (handler_thread
        (write_reference disk)
        (record {
          place = 0;
          ok = true;
          message = record { ref_name = "refs/heads/master"; ref_rev = "01" };
        }
          ∷ [])
        new_process.repository)
posted_write_reference-Sees_example =
    posted_write_reference-Sees disk held jobs bytes addresses registry 5 the_pipe write_events
      server server-IsServing

-- What the round after a close and an open leaves.
abbrev Main : Type 0
Main = Pump Args (Env disk) (List Job) (ℕ × Bool)

ne_0_1 : ◌≢◌ {A = ℕ} 0 1
ne_0_1 e = omega arith

posted_change_repository_state-AreSorted_example :
    (s1 : Server_) × (order : List Call) × (next : Main) × (posted_change_repository_state disk held
        jobs bytes addresses registry 5 the_pipe
        (record { new_repo_state = false; repo_name = "a" })
        server
      ≡ some (succeeded, s1))
    × (s1.process ≡ server.process)
    × Permᴰ (s1.pumps 5).task_queue (task_of disk held jobs (close_request, 0) ∷ [])
    × Permᴰ ((open_request "a", 1) ∷ (close_request, 0) ∷ []) order
    × AreSorted held order
    × (message_round held jobs bytes
          (3 ∷ [])
          (post_call disk held jobs bytes addresses registry (open_request "a", 1) s1.pumps 5)
          (some s1.process)
        ≡ some (next, history disk order server.process))
posted_change_repository_state-AreSorted_example =
    posted_change_repository_state-AreSorted disk held jobs bytes addresses registry 5 the_pipe "a"
      (open_request "a", 1) (3 ∷ []) server pumps-IsMain refl
      (((ne_0_1, tt), (tt, tt)), (refl, (refl, tt)))
