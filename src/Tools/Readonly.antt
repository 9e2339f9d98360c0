-- ===== src/Tools/Readonly.antt =====
-- src/tools/readonly.py: the diagnostic tools.
use durable_approval_gated_r.Prelude.{ℕ, String, Option, List}
use durable_approval_gated_r.Act.{Act, gets}
use durable_approval_gated_r.Service.{Metrics, LogLine}
use durable_approval_gated_r.App.{
  HealthReply, DiskReply, get_health, get_metrics, get_logs, get_disk,
}
use durable_approval_gated_r.Records.{Row, get_by_kind}
use durable_approval_gated_r.World.{World, request}

unfoldable pub get_service_health : String → Act World HealthReply
get_service_health service = request service get_health

unfoldable pub read_logs : String → ℕ → Act World (List LogLine)
read_logs service limit = request service (get_logs limit)

unfoldable pub read_metrics : String → Act World Metrics
read_metrics service = request service get_metrics

unfoldable pub query_db_readonly : Option String → ℕ → Act World (List Row)
query_db_readonly kind limit = gets (λ w. get_by_kind kind limit w.records)

unfoldable pub check_disk_usage : String → Act World DiskReply
check_disk_usage service = request service get_disk
