-- ===== src/Agent/Attempts.antt =====
-- What a second attempt in one run does: `prepare_execution` and `execute` of src/agent/nodes.py.
use durable_approval_gated_r.Prelude.{
  ℕ, suc, String, ◌≡◌, refl, ◌∙◌, ap, subst, Option-cases, inl, inr, some,
}
use durable_approval_gated_r.Act.{
  Result, ok, raised, Act, pure, go_on, ◌>>=◌, Result-cases, raised-ne-ok,
}
use durable_approval_gated_r.World.{Execution, World, store_get}
use durable_approval_gated_r.Execution.{execute_action}
use durable_approval_gated_r.Tools.Once.{execute_action-replay, executed_has_row}
use durable_approval_gated_r.Agent.State.{AgentState, Update, AgentRuntimeContext, merge}
use durable_approval_gated_r.Agent.Nodes
use durable_approval_gated_r.Agent.Nodes.{idempotency_key, or_none}

-- The edge from `prepare_execution` leads to `execute`: the one, its update merged, and the other.
unfoldable pub attempt : AgentRuntimeContext → ℕ → AgentState → Act World Update
unfolding Nodes.prepare_execution Nodes.execute merge
attempt rt turn s = do
  update ← Nodes.prepare_execution rt turn s
  Nodes.execute rt (suc turn) (merge s update)

-- The rows of a ledger stay in another.
abbrev pub KeepsRows : World → World → Type 0
KeepsRows w v = (key : String) (e : Execution) → store_get key w ≡ some e → store_get key v ≡ some e

go_on-pure-state {ℓ} :
    {S A B : Type ℓ} (f : A → B) (r : Result A) (s : S) → (go_on r (λ a. pure (f a)) s).1 ≡ s
go_on-pure-state f (ok a) s = refl
go_on-pure-state f (raised e) s = refl

attempt_has_row :
    (rt : AgentRuntimeContext) (turn : ℕ) (s : AgentState) (w w' : World) (update : Update)
    → attempt rt turn s w ≡ (ok update, w')
    → (action : String) × (s.proposed_action ≡ some action)
      × ((e : Execution) × (store_get (idempotency_key s.run_id action) w' ≡ some e))
unfolding attempt Nodes.prepare_execution Nodes.execute merge
attempt_has_row rt turn s w w' update h = elim (Option-cases s.proposed_action) [
  | inl missing ↦ absurd (raised-ne-ok _ w w' update (rw missing at h))
  | inr (action, proposed) ↦
      let p = or_none s.action_parameters in
      let key = idempotency_key s.run_id action in
      let ran = execute_action action p key w in
      elim (Result-cases ran.0) [
        | inr (x, bad) ↦ absurd (raised-ne-ok x ran.1 w' update (rw (proposed, bad) at h))
        | inl (out, good) ↦
            let then : (ok (Update.executed out.0 out.1), ran.1) ≡ (ok update, w') =
              rw (proposed, good) at h in
            let (e, found) = executed_has_row action p key w ran.1 out (λ j. (good j, ran.1)) in
            (
              action,
              proposed,
              (e, subst (λ v. store_get key v ≡ some e) (ap (λ q. q.1) then) found),
            )
      ]
]

attempt_is_idle :
    (rt : AgentRuntimeContext) (turn : ℕ) (s : AgentState) (w : World) (action : String)
    (e : Execution)
    → s.proposed_action ≡ some action
    → store_get (idempotency_key s.run_id action) w ≡ some e
    → (attempt rt turn s w).1 ≡ w
unfolding attempt Nodes.prepare_execution Nodes.execute merge
attempt_is_idle rt turn s w action e proposed recorded =
    rw proposed (go_on-pure-state _ _ _ ∙ (execute_action-replay action _ _ w e recorded).0)

-- The key of an action depends on the run and the action alone. So once a run has prepared and executed
-- an action, to prepare and execute it again in the same run does nothing in the sandbox, whatever the
-- sandbox has become, as long as the ledger keeps its rows, and with any parameters and models.
pub second_attempt_is_idle :
    (rt rt' : AgentRuntimeContext) (turn turn' : ℕ) (s t : AgentState) (w w' v : World)
    (update : Update)
    → attempt rt turn s w ≡ (ok update, w')
    → t.run_id ≡ s.run_id
    → t.proposed_action ≡ s.proposed_action
    → KeepsRows w' v
    → (attempt rt' turn' t v).1 ≡ v
second_attempt_is_idle rt rt' turn turn' s t w w' v update first same_run same_action kept =
    let (action, proposed, (e, found)) = attempt_has_row rt turn s w w' update first in
    attempt_is_idle rt' turn' t v action e (same_action ∙ proposed) (rw same_run (kept _ e found))
