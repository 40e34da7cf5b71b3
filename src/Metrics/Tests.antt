-- ===== src/Metrics/Tests.antt =====
-- A metric with a space in its name.
use gitrpc.Prelude.{◌≡◌, refl, codes}
use gitrpc.Metrics.{underscored, metric_line, metric_details}

metric_details_test :
    metric_details (codes "Linux") (codes "open repos") (codes "12") (record {
      app = codes "git";
      database = codes "db";
      db_server = codes "http://x";
      sender_thread = 9;
    })
    ≡ record {
      url = codes "http://x/write?db=db";
      value = codes "open_repos,platform=Linux value=12";
    }
unfolding metric_details metric_line underscored
metric_details_test = refl
