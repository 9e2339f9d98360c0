-- ===== src/Policy/Floor.antt =====
-- What `apply_policy` of src/risk/policy.py promises.
use durable_approval_gated_r.Prelude.{
  ℕ, String, ◌≡◌, ◌≢◌, eq_iff, ◌≤◌, ◌⊎◌, ◌↔◌, true, false, ◌&&◌, Option, none, some, arith,
  mem_text,
}
use durable_approval_gated_r.Policy.{
  RiskTier, low, medium, high, Situational, forced_high_tools, is_low, is_medium, is_sole_instance,
  apply_policy,
}

abbrev pub severity : RiskTier → ℕ
severity low = 0
severity medium = 1
severity high = 2

-- A repeated action on the only instance of a service.
abbrev pub IsThrashing : Option Situational → Type 0
IsThrashing none = ⊥
IsThrashing (some s) = (s.has_redundant_replica ≡ false) × (1 ≤ s.restart_count_this_run)

-- The policy never lowers a tier. Its tier is high exactly for a deletion of records, a rollback, or a
-- tier that is high already; it is low exactly for a low tier of another tool that is not thrashing.
pub apply_policy_raises :
    (tool : String) (tier : RiskTier) (situational : Option Situational)
    → (severity tier ≤ severity (apply_policy tool tier situational))
      × ((apply_policy tool tier situational ≡ high)
          ↔ ((mem_text tool forced_high_tools ≡ true) ⊎ (tier ≡ high)))
      × ((apply_policy tool tier situational ≡ low)
          ↔ ((mem_text tool forced_high_tools ≡ false) × (tier ≡ low) × ¬ IsThrashing situational))
unfolding apply_policy
apply_policy_raises tool tier none =
    (ground arith, (ground arith, ground arith), (ground arith, ground arith))
apply_policy_raises tool tier (some s) =
    (ground arith, (ground arith, ground arith), (ground arith, ground arith))

-- The redundancy floor raises a low tier to medium exactly for a tool that is not forced and thrashing.
pub floor_raises :
    (tool : String) (tier : RiskTier) (situational : Option Situational)
    → ((is_low tier
          && (is_medium (apply_policy tool tier situational) && is_sole_instance situational))
        ≡ true)
      ↔ ((tool ≢ "delete_records")
          × (tool ≢ "rollback_deployment")
          × (tier ≡ low)
          × IsThrashing situational)
unfolding apply_policy
floor_raises tool tier none = (ground arith, ground arith)
floor_raises tool tier (some s) = (
  ground (arith, eq_iff tool "delete_records", eq_iff tool "rollback_deployment"),
  ground (arith, eq_iff tool "delete_records", eq_iff tool "rollback_deployment"),
)
