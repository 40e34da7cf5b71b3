-- ===== src/Metrics.antt =====
-- src/base/metrics/InfluxDBClient.cpp: the line that a value of a metric makes, the task that is posted with it, and
-- the thread that is to send it. A text is the list of its characters. UpdateMetricTask does nothing: its
-- body is a comment.
pub mod Line
pub mod Sender
mod Tests
use gitrpc.Prelude.{ℕ, ◌==◌, List, [], ◌∷◌, ◌++◌, map, codes, if◌then◌else◌}
use gitrpc.Logging.{Text}
use gitrpc.Dispatch.Posting.{Addresses, classes, after_post}
use gitrpc.Dispatch.Task.{Task}
use gitrpc.Dispatch.Pump.{Pump, Pipe, priority_comparer}
use gitrpc.PriorityQueue.{PriorityQueue}
use gitrpc.Git.Proxy.{new_task1}
use gitrpc.App.{System, thread_start}

pub record MetricUpdateDetails : Type 0 where
  pub url : Text
  pub value : Text

pub record InfluxDbClient : Type 0 where
  pub app : Text
  pub database : Text
  pub db_server : Text
  pub sender_thread : ℕ

unfoldable pub underscored : Text → Text
underscored name = map (λ c. if c == 32 then 95 else c) name

-- The text `metric` of UpdateMetricInternal.
unfoldable pub metric_line : Text → Text → Text → Text
metric_line platform name value =
    underscored name
    ++ (codes ",platform=" ++ (platform ++ (codes " " ++ (codes "value=" ++ value))))

unfoldable pub metric_details : Text → Text → Text → InfluxDbClient → MetricUpdateDetails
metric_details platform name value c = record {
  url = c.db_server ++ (codes "/write?db=" ++ c.database);
  value = metric_line platform name value;
}

module _ {E : Type 0} (unset : ℕ → ℕ)
    (queue : PriorityQueue (Task MetricUpdateDetails E) (priority_comparer unset)) (pipe : Pipe)
    (a : Addresses) where
  open queue use {Heap}

  unfoldable pub update_metric_task : MetricUpdateDetails → E → E
  update_metric_task details env = env

  -- UpdateMetricInternal, with the block of memory of its task.
  unfoldable pub update_metric_internal :
      ℕ
      → Text
      → Text
      → Text
      → InfluxDbClient
      → System unset queue pipe a
      → System unset queue pipe a
  update_metric_internal block platform name value c s =
      let task = new_task1 block update_metric_task (metric_details platform name value c) in
      record s { pumps = after_post unset queue pipe a "MetricsSender" s.dispatcher task s.pumps }

  -- InitIFDBConnection, with the thread that it makes and the pump of the thread.
  unfoldable pub init_ifdb_connection :
      (server_address db_name app_name : Text)
      → ℕ
      → Pump MetricUpdateDetails E Heap pipe.Channel
      → System unset queue pipe a
      → InfluxDbClient × System unset queue pipe a
  init_ifdb_connection server_address db_name app_name thread pump s = (
    record {
      app = app_name;
      database = db_name;
      db_server = server_address;
      sender_thread = thread;
    },
    thread_start unset queue pipe a thread pump s,
  )
