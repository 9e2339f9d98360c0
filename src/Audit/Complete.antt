-- ===== src/Audit/Complete.antt =====
-- The audit log of a run has no gap: `with_audit` over the nodes of src/agent/graph.py, read by
-- src/audit/replay.py.
use durable_approval_gated_r.Prelude.{
  ℕ, zero, suc, ◌+◌, ◌≡◌, refl, subst, ◌∙◌, ◌≤◌, Bool, true, Option, none, some, List, [], ◌∷◌,
  ◌++◌, arith,
}
use durable_approval_gated_r.Act.{Result, ok, raised}
use durable_approval_gated_r.World.{World}
use durable_approval_gated_r.Agent.State.{
  AgentState, Update, decided, AgentRuntimeContext, Resume, merge,
}
use durable_approval_gated_r.Agent.Routes.{Node, Next, goto, end}
use durable_approval_gated_r.Agent.Graph.{
  Config, NodeResult, updated, interrupted, Step, moved, suspended, crashed, commit, follow, settle,
  Stop, finished, waiting, failed, out_of_fuel, run_node, step, proceed, run, start_workflow,
  resume_workflow,
}
use durable_approval_gated_r.Audit.Hook.{AuditRecord, audit_record, get_run}
use durable_approval_gated_r.Audit.Replay.{linked, is_complete_chain}
use durable_approval_gated_r.Audit.Chain.{
  EndsAt, SortedTo, linked-snoc, EndsAt-snoc, SortedTo-snoc, ordered_of_SortedTo,
  get_run-store_record,
}

-- The records of the run in the log of a configuration.
abbrev pub own_records : Config → List AuditRecord
own_records c = get_run c.state.run_id c.audit

-- The run's records are linked, end in its status, and lie before the clock's next reading.
pub record Logged (rt : AgentRuntimeContext) (c : Config) : Type 0 where
  pub is_linked : linked (own_records c) ≡ true
  pub ends : EndsAt c.state.status (own_records c)
  pub sorted : SortedTo (rt.clock c.turn) (own_records c)

audit_record-to_state :
    (t : ℕ) (s : AgentState) (u : Update) → (audit_record t s u).to_state ≡ (merge s u).status
unfolding audit_record
audit_record-to_state t s (decided d a none) = ground arith
audit_record-to_state t s (decided d a (some e)) = ground arith
audit_record-to_state t s _ = refl

merge-run_id : (s : AgentState) (u : Update) → (merge s u).run_id ≡ s.run_id
unfolding merge
merge-run_id s (decided d a none) = refl
merge-run_id s (decided d a (some e)) = refl
merge-run_id s _ = refl

audit_record-run_id :
    (t : ℕ) (s : AgentState) (u : Update) → (audit_record t s u).run_id ≡ (merge s u).run_id
unfolding audit_record
audit_record-run_id t s u = refl

module _ (rt : AgentRuntimeContext) where
  commit-own :
      (c : Config) (w : World) (u : Update)
      → own_records (commit rt c w u)
        ≡ own_records c ++ audit_record (rt.clock c.turn) c.state u ∷ []
  commit-own c w u = rw (merge-run_id c.state u) (
      get_run-store_record c.state.run_id c.audit _
        (audit_record-run_id _ c.state u ∙ merge-run_id c.state u))

module _ (rt : AgentRuntimeContext) (monotone : (i : ℕ) → rt.clock i ≤ rt.clock (i + 1)) where
  commit-Logged : (c : Config) (w : World) (u : Update) → Logged rt c → Logged rt (commit rt c w u)
  unfolding audit_record
  commit-Logged c w u h =
      let r = audit_record (rt.clock c.turn) c.state u in
      record {
        is_linked = rw (commit-own rt c w u) (linked-snoc (own_records c) r h.ends h.is_linked);
        ends = rw (commit-own rt c w u) (
            subst (λ s. EndsAt s (own_records c ++ r ∷ []))
              (audit_record-to_state (rt.clock c.turn) c.state u) (EndsAt-snoc (own_records c) r));
        sorted =
            rw (commit-own rt c w u)
              (SortedTo-snoc (rt.clock (c.turn + 1)) (own_records c) r h.sorted (monotone c.turn));
      }

  -- The configuration of a super-step's outcome.
  abbrev after : Step → Config
  after (moved next c) = c
  after (suspended q c) = c
  after (crashed e c) = c

  follow-Logged : (n : Result Next) (c : Config) → Logged rt c → Logged rt (after (follow n c))
  follow-Logged (ok n) c h = h
  follow-Logged (raised e) c h = h

  settle-Logged :
      (reval : Bool) (n : Node) (c : Config) (x : Result NodeResult × World)
      → Logged rt c
      → Logged rt (after (settle reval rt n c x))
  settle-Logged reval n c (ok (updated u), w) h =
      follow-Logged _ (commit rt c w u) (commit-Logged c w u h)
  settle-Logged reval n c (ok (interrupted q), w) h = record {
    is_linked = h.is_linked;
    ends = h.ends;
    sorted = h.sorted;
  }
  settle-Logged reval n c (raised e, w) h = record {
    is_linked = h.is_linked;
    ends = h.ends;
    sorted = h.sorted;
  }

  step-Logged :
      (reval : Bool) (n : Node) (r : Option Resume) (c : Config)
      → Logged rt c
      → Logged rt (after (step reval rt n r c))
  unfolding step
  step-Logged reval n r c h = settle-Logged reval n c (run_node n rt c.turn r c.state c.world) h

  proceed-Logged :
      (n : Node) (x : Step) (next : Node → Config → Stop × Config)
      → Logged rt (after x)
      → ((m : Node) (c : Config) → Logged rt c → Logged rt (next m c).1)
      → Logged rt (proceed n x next).1
  proceed-Logged n (moved (goto m) c) next h k = k m c h
  proceed-Logged n (moved end c) next h k = h
  proceed-Logged n (suspended q c) next h k = h
  proceed-Logged n (crashed e c) next h k = h

  run-Logged :
      (fuel : ℕ) (reval : Bool) (n : Node) (r : Option Resume) (c : Config)
      → Logged rt c
      → Logged rt (run fuel reval rt n r c).1
  unfolding run
  run-Logged zero reval n r c h = h
  run-Logged (suc fuel) reval n r c h =
      proceed-Logged n (step reval rt n r c) _ (step-Logged reval n r c h)
        (λ m c' h'. run-Logged fuel reval m none c' h')

  Logged-is_complete_chain : (c : Config) → Logged rt c → is_complete_chain (own_records c) ≡ true
  unfolding is_complete_chain
  Logged-is_complete_chain c h = rw (ordered_of_SortedTo _ (own_records c) h.sorted) h.is_linked

-- What is decided one after the other, for as long as the run waits for a decision.
unfoldable pub resume_all : Bool → AgentRuntimeContext → List Resume → Stop × Config → Stop × Config
resume_all reval rt [] x = x
resume_all reval rt (d ∷ ds) (waiting q, c) = resume_all reval rt ds (resume_workflow reval rt d c)
resume_all reval rt (d ∷ ds) (finished, c) = (finished, c)
resume_all reval rt (d ∷ ds) (failed n e, c) = (failed n e, c)
resume_all reval rt (d ∷ ds) (out_of_fuel n, c) = (out_of_fuel n, c)

module _ (rt : AgentRuntimeContext) (monotone : (i : ℕ) → rt.clock i ≤ rt.clock (i + 1))
    (reval : Bool) where
  start-Logged : (c : Config) → Logged rt c → Logged rt (start_workflow reval rt c).1
  unfolding start_workflow
  start-Logged c h = run-Logged rt monotone _ reval Node.diagnose none c h

  resume_all-Logged :
      (ds : List Resume) (x : Stop × Config)
      → Logged rt x.1
      → Logged rt (resume_all reval rt ds x).1
  unfolding resume_all resume_workflow
  resume_all-Logged [] x h = h
  resume_all-Logged (d ∷ ds) (waiting q, c) h =
      resume_all-Logged ds (resume_workflow reval rt d c)
        (run-Logged rt monotone _ reval Node.await_approval (some d) c h)
  resume_all-Logged (d ∷ ds) (finished, c) h = h
  resume_all-Logged (d ∷ ds) (failed n e, c) h = h
  resume_all-Logged (d ∷ ds) (out_of_fuel n, c) h = h

  -- However a run that has no record yet goes, over any decisions and to any end, an error included,
  -- its records in the store form a chain without a gap, if the clock never goes back.
  pub run_is_complete_chain :
      (c : Config) (ds : List Resume)
      → own_records c ≡ []
      → is_complete_chain (own_records (resume_all reval rt ds (start_workflow reval rt c)).1)
        ≡ true
  run_is_complete_chain c ds fresh = Logged-is_complete_chain rt monotone _ (
      resume_all-Logged ds _ (
        start-Logged c (record { is_linked = rw fresh; ends = rw fresh tt; sorted = rw fresh tt })))
