-- ===== src/Agent/Flag.antt =====
-- The flag that `classify_risk` of src/agent/nodes.py reports.
use durable_approval_gated_r.World.{World}
use durable_approval_gated_r.Observations.{Observations}
use durable_approval_gated_r.Agent.Nodes
