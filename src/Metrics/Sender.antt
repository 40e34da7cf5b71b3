-- ===== src/Metrics/Sender.antt =====
-- The thread that is to send the metrics.
use gitrpc.Prelude.{◌≡◌, ℕ, ap, none, List}
use gitrpc.Logging.{Text}
use gitrpc.Dispatch.Posting.{Addresses}
use gitrpc.Dispatch.Task.{Task}
use gitrpc.Dispatch.Pump.{Pump, Pipe, priority_comparer}
use gitrpc.PriorityQueue.{PriorityQueue}
use gitrpc.App.{System, thread_start, thread_main}
use gitrpc.App.Threads.{IsUnnamed, thread_start-IsUnnamed}
use gitrpc.Metrics.{
  InfluxDbClient, MetricUpdateDetails, metric_details, update_metric_task, update_metric_internal,
  init_ifdb_connection,
}
use gitrpc.Git.Proxy.{new_task1}

module _ {E : Type 0} (unset : ℕ → ℕ)
    (queue : PriorityQueue (Task MetricUpdateDetails E) (priority_comparer unset)) (pipe : Pipe)
    (a : Addresses) where
  open queue use {Heap}

  -- Where the dispatcher does not know the name "MetricsSender" yet, no metric is ever sent: after InitIFDBConnection the
  -- thread follows a NULL pointer before its loop starts, and UpdateMetricInternal leaves every queue and every
  -- pipe as it is.
  update_metric_internal-dropped :
      (server_address db_name app_name : Text) (thread : ℕ)
      (pump : Pump MetricUpdateDetails E Heap pipe.Channel) (s : System unset queue pipe a)
      (block : ℕ) (platform name value : Text)
      → IsUnnamed unset queue pipe a "MetricsSender" s.dispatcher
      → let connected =
          init_ifdb_connection unset queue pipe a server_address db_name app_name thread pump s in
        ((thread_init : E → E) (reports : List (List ℕ)) (env : E)
          → thread_main unset queue pipe a "MetricsSender" thread thread_init reports connected.1
              env
            ≡ none)
        × (update_metric_internal unset queue pipe a block platform name value connected.0
              connected.1
            ≡ connected.1)
  unfolding init_ifdb_connection update_metric_internal
  update_metric_internal-dropped server_address db_name app_name thread pump s block platform name
        value unnamed =
      let (stops, drops) =
        thread_start-IsUnnamed unset queue pipe a "MetricsSender" thread pump s unnamed in
      let client : InfluxDbClient = record {
        app = app_name;
        database = db_name;
        db_server = server_address;
        sender_thread = thread;
      } in
      let task =
        new_task1 block (update_metric_task unset queue pipe a)
          (metric_details platform name value client) in
      (
        stops,
        ap (λ pumps. record (thread_start unset queue pipe a thread pump s) { pumps = pumps })
            (drops task),
      )
