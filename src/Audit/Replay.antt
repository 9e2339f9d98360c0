-- ===== src/Audit/Replay.antt =====
-- src/audit/replay.py: the sequence of states, and whether the log has a gap.
use durable_approval_gated_r.Prelude.{
  ℕ, Bool, true, false, ◌&&◌, Option, none, some, List, [], ◌∷◌, leb, ◌==◌, if◌then◌else◌,
}
use durable_approval_gated_r.Agent.State.{State}
use durable_approval_gated_r.Audit.Hook.{AuditRecord}

unfoldable insert_by_time : AuditRecord → List AuditRecord → List AuditRecord
insert_by_time r [] = r ∷ []
insert_by_time r (q ∷ records) =
    if leb r.timestamp q.timestamp then r ∷ (q ∷ records) else q ∷ insert_by_time r records

-- `_ordered`: a stable sort by the time.
unfoldable pub ordered : List AuditRecord → List AuditRecord
unfolding insert_by_time
ordered [] = []
ordered (r ∷ records) = insert_by_time r (ordered records)

abbrev add_state : Option State → List State → List State
add_state none states = states
add_state (some s) states = s ∷ states

abbrev to_states : List AuditRecord → List State
to_states [] = []
to_states (r ∷ records) = add_state r.to_state (to_states records)

unfoldable pub replay_run : List AuditRecord → List State
unfolding ordered
replay_run records = to_states (ordered records)

abbrev state_code : State → ℕ
state_code State.created = 0
state_code State.diagnosing = 1
state_code State.action_proposed = 2
state_code State.risk_classified = 3
state_code State.awaiting_approval = 4
state_code State.revalidating = 5
state_code State.replanning = 6
state_code State.executing = 7
state_code State.verifying = 8
state_code State.rolling_back = 9
state_code State.rolled_back = 10
state_code State.escalated = 11
state_code State.completed = 12

abbrev pub same_state : Option State → Option State → Bool
same_state none none = true
same_state none (some t) = false
same_state (some s) none = false
same_state (some s) (some t) = state_code s == state_code t

-- Each record starts in the state in which the one before it ended.
abbrev pub linked : List AuditRecord → Bool
linked [] = true
linked (r ∷ []) = true
linked (r ∷ q ∷ records) = same_state q.from_state r.to_state && linked (q ∷ records)

unfoldable pub is_complete_chain : List AuditRecord → Bool
unfolding ordered
is_complete_chain records = linked (ordered records)
