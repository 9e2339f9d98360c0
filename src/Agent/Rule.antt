-- ===== src/Agent/Rule.antt =====
-- The invariant rule for `run`: an invocation of src/agent/graph.py, super-step by super-step.
use durable_approval_gated_r.Prelude.{ℕ, zero, suc, ◌≡◌, inl, inr, Bool, Option, none}
use durable_approval_gated_r.Act.{Error}
use durable_approval_gated_r.Agent.State.{AgentRuntimeContext, Resume}
use durable_approval_gated_r.Agent.Routes.{Node, goto, end}
use durable_approval_gated_r.Agent.Graph.{
  Config, Interrupt, moved, suspended, crashed, Stop, finished, waiting, failed, out_of_fuel, step,
  run,
}
use durable_approval_gated_r.Agent.Termination.{step_case}

module _ (reval : Bool) (rt : AgentRuntimeContext) (I : Node → Option Resume → Config → Type 0)
    (Q : Stop × Config → Type 0) where
  -- What holds at a node holds at the next one, and leads to what is claimed of the end.
  pub record Leads : Type 0 where
    pub moves :
        (n m : Node) (r : Option Resume) (c c' : Config)
        → I n r c
        → step reval rt n r c ≡ moved (goto m) c'
        → I m none c'
    pub ends :
        (n : Node) (r : Option Resume) (c c' : Config)
        → I n r c
        → step reval rt n r c ≡ moved end c'
        → Q (finished, c')
    pub suspends :
        (n : Node) (r : Option Resume) (c c' : Config) (q : Interrupt)
        → I n r c
        → step reval rt n r c ≡ suspended q c'
        → Q (waiting q, c')
    pub crashes :
        (n : Node) (r : Option Resume) (c c' : Config) (e : Error)
        → I n r c
        → step reval rt n r c ≡ crashed e c'
        → Q (failed n e, c')
    pub stops : (n : Node) (r : Option Resume) (c : Config) → I n r c → Q (out_of_fuel n, c)

  pub run_rule :
      Leads
      → (fuel : ℕ) (n : Node) (r : Option Resume) (c : Config) → I n r c
      → Q (run fuel reval rt n r c)
  unfolding run
  run_rule l zero n r c i = l.stops n r c i
  run_rule l (suc fuel) n r c i = elim (step_case (step reval rt n r c)) [
    | inl (m, c', e) ↦ rw e (run_rule l fuel m none c' (l.moves n m r c c' i e))
    | inr (inl (c', e)) ↦ rw e (l.ends n r c c' i e)
    | inr (inr (inl (q, c', e))) ↦ rw e (l.suspends n r c c' q i e)
    | inr (inr (inr (x, c', e))) ↦ rw e (l.crashes n r c c' x i e)
  ]
