-- ===== src/Eval/Approvals.antt =====
-- The approval loop of `run_scenario` (src/eval/runner.py): how often a run that is always approved can
-- suspend, how it ends, and that no medium or high risk is taken without a wait.
use durable_approval_gated_r.Prelude.{
  ℕ, zero, suc, ◌+◌, ◌-◌, ◌≤◌, ◌≡◌, ◌≢◌, refl, ◌⊎◌, String, Bool, true, false, Option, none, some,
  arith,
}
use durable_approval_gated_r.World.{World}
use durable_approval_gated_r.Agent.State.{
  max_replan_cycles, State, AgentRuntimeContext, Resume, merge,
}
use durable_approval_gated_r.Agent.Nodes
use durable_approval_gated_r.Agent.Routes.{Node, goto, end, next_node}
use durable_approval_gated_r.Agent.Graph.{
  Config, Interrupt, moved, suspended, Stop, finished, waiting, failed, out_of_fuel, step, run,
  run_node, enough_fuel, start_workflow, resume_workflow,
}
use durable_approval_gated_r.Agent.Termination.{start_workflow_ends, resume_workflow_ends}
use durable_approval_gated_r.Agent.Rule.{run_rule}
use durable_approval_gated_r.Eval.Metrics.{AblationMode}
use durable_approval_gated_r.Eval.Scenario.{
  Progress, revalidates, approval_by, begun, enough_approvals, approve, approve_all,
}

-- The replannings that still lead to a proposal.
abbrev cycles_after : Config → ℕ
cycles_after c = max_replan_cycles - 1 - c.state.replan_cycles

-- The suspensions that an invocation can still come to from a node.
abbrev waits_left : Node → Option Resume → ℕ → ℕ
waits_left Node.diagnose r k = k + 1
waits_left Node.propose_action r k = k + 1
waits_left Node.classify_risk r k = k + 1
waits_left Node.mark_awaiting_approval r k = k + 1
waits_left Node.await_approval none k = k + 1
waits_left n r k = k

waits_fall :
    (reval : Bool) (rt : AgentRuntimeContext) (n : Node) (r : Option Resume) (c : Config) {m : Node}
    {c' : Config}
    → step reval rt n r c ≡ moved (goto m) c'
    → waits_left m none (cycles_after c') ≤ waits_left n r (cycles_after c)
unfolding step run_node next_node merge Nodes.diagnose Nodes.propose_action Nodes.classify_risk
    Nodes.mark_awaiting_approval Nodes.take_decision Nodes.revalidate Nodes.prepare_execution
    Nodes.execute Nodes.verify Nodes.rolling_back Nodes.rolled_back Nodes.replan Nodes.completed
    Nodes.escalate
waits_fall reval rt Node.diagnose r c h = ground arith
waits_fall reval rt Node.await_approval none c h = ground arith
waits_fall true rt Node.await_approval (some d) c h = ground arith
waits_fall false rt Node.await_approval (some d) c h = ground arith
waits_fall reval rt _ r c h = ground arith

suspension_counts :
    (reval : Bool) (rt : AgentRuntimeContext) (n : Node) (r : Option Resume) (c : Config)
    {q : Interrupt} {c' : Config}
    → step reval rt n r c ≡ suspended q c'
    → cycles_after c' + 1 ≤ waits_left n r (cycles_after c)
unfolding step run_node next_node merge Nodes.diagnose Nodes.propose_action Nodes.classify_risk
    Nodes.mark_awaiting_approval Nodes.take_decision Nodes.revalidate Nodes.prepare_execution
    Nodes.execute Nodes.verify Nodes.rolling_back Nodes.rolled_back Nodes.replan Nodes.completed
    Nodes.escalate
suspension_counts reval rt Node.diagnose r c h = ground arith
suspension_counts reval rt Node.await_approval none c h = ground arith
suspension_counts true rt Node.await_approval (some d) c h = ground arith
suspension_counts false rt Node.await_approval (some d) c h = ground arith
suspension_counts reval rt _ r c h = ground arith

-- The final states that a run ends in.
abbrev pub IsFinal : Option State → Type 0
IsFinal s = (s ≡ some State.completed) ⊎ (s ≡ some State.escalated)

end-IsFinal :
    (reval : Bool) (rt : AgentRuntimeContext) (n : Node) (r : Option Resume) (c : Config)
    {c' : Config}
    → step reval rt n r c ≡ moved end c'
    → IsFinal c'.state.final_state
unfolding step run_node next_node merge Nodes.diagnose Nodes.propose_action Nodes.classify_risk
    Nodes.mark_awaiting_approval Nodes.take_decision Nodes.revalidate Nodes.prepare_execution
    Nodes.execute Nodes.verify Nodes.rolling_back Nodes.rolled_back Nodes.replan Nodes.completed
    Nodes.escalate
end-IsFinal reval rt Node.diagnose r c h = ground arith
end-IsFinal reval rt Node.await_approval none c h = ground arith
end-IsFinal true rt Node.await_approval (some d) c h = ground arith
end-IsFinal false rt Node.await_approval (some d) c h = ground arith
end-IsFinal reval rt _ r c h = ground arith

-- How an invocation can stop: at its end in a final state, or suspended with fewer suspensions to come.
abbrev pub StopsWithin : ℕ → Stop × Config → Type 0
StopsWithin b (finished, c) = IsFinal c.state.final_state
StopsWithin b (waiting q, c) = cycles_after c + 1 ≤ b
StopsWithin b (failed n e, c) = Unit
StopsWithin b (out_of_fuel n, c) = Unit

run-StopsWithin :
    (reval : Bool) (rt : AgentRuntimeContext) (b fuel : ℕ) (n : Node) (r : Option Resume)
    (c : Config)
    → waits_left n r (cycles_after c) ≤ b
    → StopsWithin b (run fuel reval rt n r c)
run-StopsWithin reval rt b =
    run_rule reval rt (λ n r c. waits_left n r (cycles_after c) ≤ b) (StopsWithin b)
      (record {
        moves = λ n m r c c' i e. omega (arith, i, waits_fall reval rt n r c e);
        ends = λ n r c c' i e. end-IsFinal reval rt n r c e;
        suspends = λ n r c c' q i e. omega (arith, i, suspension_counts reval rt n r c e);
        crashes = λ n r c c' x i e. tt;
        stops = λ n r c i. tt;
      })

-- How a run that is always approved is over: in a final state, or by an error.
abbrev pub IsOver : Stop × Config → Type 0
IsOver (finished, c) = IsFinal c.state.final_state
IsOver (waiting q, c) = ⊥
IsOver (failed n e, c) = Unit
IsOver (out_of_fuel n, c) = ⊥

StopsWithin-world :
    (b : ℕ) (s : Stop) (c : Config) (w : World)
    → StopsWithin b (s, c)
    → StopsWithin b (s, record c { world = w })
StopsWithin-world b finished c w h = h
StopsWithin-world b (waiting q) c w h = h
StopsWithin-world b (failed n e) c w h = h
StopsWithin-world b (out_of_fuel n) c w h = h

module _ (mode : AblationMode) (rt : AgentRuntimeContext) (wait : ℕ) (approver : String) where
  approve_all-IsOver :
      (b : ℕ) (s : Stop) (p : Progress)
      → p.stop ≡ s
      → StopsWithin b (s, p.config)
      → ((m : Node) → s ≢ out_of_fuel m)
      → IsOver (
        (approve_all b mode rt wait approver p).stop,
        (approve_all b mode rt wait approver p).config,
      )
  unfolding approve_all approve resume_workflow
  approve_all-IsOver zero finished p e h fueled = rw e h
  approve_all-IsOver zero (failed n x) p e h fueled = rw e tt
  approve_all-IsOver b (out_of_fuel n) p e h fueled = absurd (fueled n refl)
  approve_all-IsOver zero (waiting q) p e h fueled = absurd (omega (arith, h))
  approve_all-IsOver (suc b) finished p e h fueled = rw e h
  approve_all-IsOver (suc b) (failed n x) p e h fueled = rw e tt
  approve_all-IsOver (suc b) (waiting q) p e h fueled =
      let d = approval_by approver in
      let reval = revalidates mode in
      rw e (
        approve_all-IsOver b (resume_workflow reval rt d p.config).0
          (approve mode rt wait approver (record p { stop = waiting q })) refl
          (run-StopsWithin reval rt b enough_fuel Node.await_approval (some d) p.config
            (omega (arith, h)))
          (resume_workflow_ends reval rt p.config d).0)

  -- A run that is approved at every suspension ends, after three approvals at most, whatever happens to
  -- the sandbox in its first wait and whatever the models answer: it is COMPLETED or ESCALATED, or a
  -- node raised.
  pub approvals_end :
      (c : Config) (w : World)
      → let p = begun (start_workflow (revalidates mode) rt c) in
        let q =
          approve_all enough_approvals mode rt wait approver
            (record p { config = record p.config { world = w } }) in
        IsOver (q.stop, q.config)
  unfolding start_workflow
  approvals_end c w =
      let reval = revalidates mode in
      let (s, c') = start_workflow reval rt c in
      approve_all-IsOver 3 s (record (begun (s, c')) { config = record c' { world = w } }) refl
        (StopsWithin-world 3 s c' w
          (run-StopsWithin reval rt 3 enough_fuel Node.diagnose none c (omega arith)))
        (start_workflow_ends reval rt c).0
