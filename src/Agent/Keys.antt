-- ===== src/Agent/Keys.antt =====
-- The keys of `AgentState` that the nodes of src/agent/nodes.py and the routes of src/agent/graph.py
-- read by subscript, which raises a `KeyError` where the key is absent.
use durable_approval_gated_r.Prelude.{
  ◌≡◌, refl, inl, inr, Option, none, some, Option-cases, true, false, arith, is_some,
}
use durable_approval_gated_r.Act.{Result, Error, ok, raised}
use durable_approval_gated_r.World.{World}
use durable_approval_gated_r.Prelude.{ℕ, Bool}
use durable_approval_gated_r.Policy.{apply_policy}
use durable_approval_gated_r.Agent.State.{AgentState, Update, AgentRuntimeContext, Resume, merge}
use durable_approval_gated_r.Agent.Nodes
use durable_approval_gated_r.Agent.Routes.{Node, goto, next_node}
use durable_approval_gated_r.Agent.Graph.{
  Interrupt, Config, NodeResult, crashed, suspended, updated, interrupted, settle, run_node, step,
}
use durable_approval_gated_r.Agent.Gate.{Clearance, Reach, begin, next}

-- The key is in the state, with a value.
abbrev Has {ℓ} : {A : Type ℓ} → Option A → Type 0
Has o = is_some o ≡ true

abbrev is_ok {ℓ} : {A : Type ℓ} → Result A → Bool
is_ok (ok a) = true
is_ok (raised e) = false

-- A run knows what it has observed and what it takes for the cause.
abbrev IsDiagnosed : AgentState → Type 0
IsDiagnosed s = Has s.observations × Has s.diagnosis

abbrev HasProposal : AgentState → Type 0
HasProposal s =
    Has s.observations × Has s.diagnosis × Has s.proposed_action × Has s.state_fingerprint

-- The keys that a node subscripts, and those that nodes after it subscript and it does not set.
abbrev pub HasKeys : Node → AgentState → Type 0
HasKeys Node.diagnose s = Unit
HasKeys Node.propose_action s = IsDiagnosed s
HasKeys Node.classify_risk s = HasProposal s
HasKeys Node.mark_awaiting_approval s = HasProposal s × Has s.risk_tier_final
HasKeys Node.await_approval s = HasProposal s × Has s.risk_tier_final
HasKeys Node.revalidate s = HasProposal s
HasKeys Node.prepare_execution s = HasProposal s
HasKeys Node.execute s = HasProposal s × Has s.idempotency_key
HasKeys Node.verify s = HasProposal s × Has s.execution_result × Has s.compensation
HasKeys Node.rolling_back s = IsDiagnosed s × Has s.compensation
HasKeys Node.rolled_back s = IsDiagnosed s
HasKeys Node.replan s = IsDiagnosed s
HasKeys Node.escalate s = Unit
HasKeys Node.completed s = Unit

step-HasKeys :
    (reval : Bool) (rt : AgentRuntimeContext) (n : Node) {m : Node} (s : AgentState) (u : Update)
    (turn : ℕ) (r : Option Resume) (w w' : World)
    → HasKeys n s
    → run_node n rt turn r s w ≡ (ok (updated u), w')
    → next_node reval n (merge s u) ≡ ok (goto m)
    → HasKeys m (merge s u)
unfolding run_node next_node merge apply_policy Nodes.diagnose Nodes.propose_action
    Nodes.classify_risk Nodes.mark_awaiting_approval Nodes.take_decision Nodes.revalidate
    Nodes.prepare_execution Nodes.execute Nodes.verify Nodes.rolling_back Nodes.rolled_back
    Nodes.replan Nodes.completed Nodes.escalate
step-HasKeys reval rt Node.diagnose s u turn r w w' i h e = ground arith
step-HasKeys reval rt Node.propose_action s u turn r w w' i h e = ground arith
step-HasKeys reval rt Node.classify_risk s u turn r w w' i h e = ground arith
step-HasKeys true rt Node.await_approval s u turn r w w' i h e = ground arith
step-HasKeys false rt Node.await_approval s u turn r w w' i h e = ground arith
step-HasKeys true rt Node.revalidate s u turn r w w' i h e = ground arith
step-HasKeys false rt Node.revalidate s u turn r w w' i h e = ground arith
step-HasKeys reval rt _ s u turn r w w' i h e = ground arith

-- Wherever a run comes, whatever the models answered and the reviewers decided: the state has every
-- key that the node there subscripts.
pub reached-HasKeys :
    {reval : Bool} {rt : AgentRuntimeContext} {n : Node} {s : AgentState} {k : Clearance}
    → Reach reval rt n s k
    → HasKeys n s
reached-HasKeys (begin s) = tt
reached-HasKeys (next {n = n} {s = s} u turn r w w' before ran st kl edge) =
    rw st (step-HasKeys _ _ n s u turn r w w' (reached-HasKeys before) ran (rw st at edge))

update_is_routed :
    (reval : Bool) (rt : AgentRuntimeContext) (n : Node) (s : AgentState) (u : Update) (turn : ℕ)
    (r : Option Resume) (w w' : World)
    → run_node n rt turn r s w ≡ (ok (updated u), w')
    → is_ok (next_node reval n (merge s u)) ≡ true
unfolding run_node next_node merge apply_policy Nodes.diagnose Nodes.propose_action
    Nodes.classify_risk Nodes.mark_awaiting_approval Nodes.take_decision Nodes.revalidate
    Nodes.prepare_execution Nodes.execute Nodes.verify Nodes.rolling_back Nodes.rolled_back
    Nodes.replan Nodes.completed Nodes.escalate
update_is_routed true rt Node.await_approval s u turn r w w' h = ground arith
update_is_routed false rt Node.await_approval s u turn r w w' h = ground arith
update_is_routed reval rt Node.classify_risk s u turn r w w' h = ground arith
update_is_routed reval rt Node.revalidate s u turn r w w' h = ground arith
update_is_routed reval rt Node.verify s u turn r w w' h = ground arith
update_is_routed reval rt _ s u turn r w w' h = ground arith

asked :
    (reval : Bool) (rt : AgentRuntimeContext) (c : Config)
    → HasKeys Node.await_approval c.state
    → (question : Interrupt) × (step reval rt Node.await_approval none c ≡ suspended question c)
      × (c.state.diagnosis ≡ some question.diagnosis)
      × (c.state.proposed_action ≡ some question.proposed_action)
      × (c.state.risk_tier_final ≡ some question.risk_tier)
unfolding step run_node
asked reval rt c ((o, d, a, f), t) = elim (Option-cases c.state.diagnosis) [
  | inl missing ↦ absurd (ground (arith, d, missing))
  | inr (diagnosis, h1) ↦ elim (Option-cases c.state.proposed_action) [
    | inl missing ↦ absurd (ground (arith, a, missing))
    | inr (action, h2) ↦ elim (Option-cases c.state.risk_tier_final) [
      | inl missing ↦ absurd (ground (arith, t, missing))
      | inr (tier, h3) ↦
          let question : Interrupt = record {
            run_id = c.state.run_id;
            diagnosis = diagnosis;
            proposed_action = action;
            risk_tier = tier;
          } in
          (question, rw (h1, h2, h3) refl, h1, h2, h3)
    ]
  ]
]

-- A run that comes to `await_approval` is suspended there, as it stands, on a question that shows the
-- diagnosis, the proposed action and the final tier of its state.
pub await_approval_suspends :
    (reval : Bool) (rt : AgentRuntimeContext) {k : Clearance} (c : Config)
    → Reach reval rt Node.await_approval c.state k
    → (question : Interrupt) × (step reval rt Node.await_approval none c ≡ suspended question c)
      × (c.state.diagnosis ≡ some question.diagnosis)
      × (c.state.proposed_action ≡ some question.proposed_action)
      × (c.state.risk_tier_final ≡ some question.risk_tier)
unfolding step run_node
await_approval_suspends reval rt c reached = asked reval rt c (reached-HasKeys reached)

settled :
    (reval : Bool) (rt : AgentRuntimeContext) (n : Node) (c c' : Config) (e : Error)
    (r : Option Resume) (out : Result NodeResult × World)
    → run_node n rt c.turn r c.state c.world ≡ out
    → settle reval rt n c out ≡ crashed e c'
    → (out.0 ≡ raised e) × (c'.state ≡ c.state) × (c'.audit ≡ c.audit) × (c'.turn ≡ c.turn)
settled reval rt n c c' e r (ok (updated u), w') ran h =
    ground (arith, h, update_is_routed reval rt n c.state u c.turn r c.world w' ran)
settled reval rt n c c' e r (ok (interrupted q), w') ran h = ground (arith, h)
settled reval rt n c c' e r (raised x, w') ran h = ground (arith, h)

-- A super-step that raises does so in its node, never on a route after it: the checkpoint, the audit
-- log and the turn stand as they were.
pub crash_is_in_node :
    (reval : Bool) (rt : AgentRuntimeContext) (n : Node) (c c' : Config) (e : Error)
    (r : Option Resume)
    → step reval rt n r c ≡ crashed e c'
    → ((run_node n rt c.turn r c.state c.world).0 ≡ raised e)
      × (c'.state ≡ c.state)
      × (c'.audit ≡ c.audit)
      × (c'.turn ≡ c.turn)
unfolding step
crash_is_in_node reval rt n c c' e r h =
    settled reval rt n c c' e r (run_node n rt c.turn r c.state c.world) refl h
