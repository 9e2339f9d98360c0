-- ===== src/Eval/Compliance.antt =====
-- What the records of `run_scenario` (src/eval/runner.py) say to `approval_gate_compliance`
-- (src/eval/metrics.py): every risk that is not low has waited for its approval.
use durable_approval_gated_r.Prelude.{
  ℕ, zero, suc, ◌≡◌, ◌≢◌, sym, refl, ◌⊎◌, inl, inr, String, Bool, true, false, Option, none, some,
  is_some, List, subst, ap, ◌∙◌,
}
use durable_approval_gated_r.Prelude.Dict.{Dict}
use durable_approval_gated_r.Act.{
  Error, Result, ok, raised, raised≢ok, ok-injective, required, and_then-eq-ok, map_result-eq-ok,
  required-eq-ok,
}
use durable_approval_gated_r.World.{World}
use durable_approval_gated_r.Agent.State.{State, AgentRuntimeContext, initial_state}
use durable_approval_gated_r.Agent.Routes.{Node}
use durable_approval_gated_r.Agent.Graph.{
  Config, Stop, finished, waiting, failed, out_of_fuel, start_workflow,
}
use durable_approval_gated_r.Agent.Termination.{start_workflow_ends}
use durable_approval_gated_r.Eval.Ungated.{EndsUngated, start-EndsUngated}
use durable_approval_gated_r.Eval.Sandbox.{build_sandbox, new_run}
use durable_approval_gated_r.Eval.Validation.{Scenario}
use durable_approval_gated_r.Eval.Metrics.{AblationMode, RunRecord, is_gated}
use durable_approval_gated_r.Eval.Faults.{Change, inject}
use durable_approval_gated_r.Eval.Approvals.{IsFinal, IsOver, approvals_end}
use durable_approval_gated_r.Eval.Scenario.{
  Progress, revalidates, begun, approve, approve_all, enough_approvals, final_or, fault_of,
  injected, is_waiting, is_stale, returned, unless_failed, first_wait, changed, apply_changes,
  run_record, drive_scenario, run_scenario,
}

module _ (mode : AblationMode) (rt : AgentRuntimeContext) (wait : ℕ) (approver : String) where
  wait_is_noted :
      (fuel : ℕ) (s : Stop) (p : Progress)
      → p.stop ≡ s
      → is_some p.approval_wait_seconds ≡ true
      → is_some (approve_all fuel mode rt wait approver p).approval_wait_seconds ≡ true
  unfolding approve_all approve
  wait_is_noted zero s p e h = h
  wait_is_noted (suc fuel) finished p e h = rw e h
  wait_is_noted (suc fuel) (failed n x) p e h = rw e h
  wait_is_noted (suc fuel) (out_of_fuel n) p e h = rw e h
  wait_is_noted (suc fuel) (waiting q) p e h = rw e (
      wait_is_noted fuel _ (approve mode rt wait approver (record p { stop = waiting q })) refl
        refl)

unless_failed-eq-ok : (s : Stop) (p p' : Progress) → unless_failed s p ≡ ok p' → p ≡ p'
unless_failed-eq-ok finished p p' h = ok-injective h
unless_failed-eq-ok (waiting q) p p' h = ok-injective h
unless_failed-eq-ok (failed n x) p p' h = absurd (raised≢ok x p' h)
unless_failed-eq-ok (out_of_fuel n) p p' h = ok-injective h

IsOver-IsFinal :
    (s : Stop) (p p' : Progress)
    → IsOver (s, p.config)
    → unless_failed s p ≡ ok p'
    → IsFinal p.config.state.final_state
IsOver-IsFinal finished p p' over h = over
IsOver-IsFinal (waiting q) p p' over h = absurd over
IsOver-IsFinal (failed n x) p p' over h = absurd (raised≢ok x p' h)
IsOver-IsFinal (out_of_fuel n) p p' over h = absurd over

-- A suspended or ended run in another sandbox.
abbrev moved_to : Stop × Config → World → Progress
moved_to (s, c) w = record (begun (s, c)) { config = record c { world = w } }

changed-eq-ok :
    (x : Stop × Config) (y : Result {0} Unit × World) (q : Progress)
    → changed (begun x) y ≡ ok q
    → (w : World) × (q ≡ moved_to x w)
changed-eq-ok x (ok done, w) q h = (w, sym (ok-injective h))
changed-eq-ok x (raised e, w) q h = absurd (raised≢ok e q h)

first_wait-eq-ok :
    (stale : Bool) (injection : Option (Option (List Change))) (x : Stop × Config) (q : Progress)
    → first_wait stale injection (begun x) ≡ ok q
    → (w : World) × (q ≡ moved_to x w)
first_wait-eq-ok false injection x q h = (x.1.world, sym (ok-injective h))
first_wait-eq-ok true injection x q h =
    let (i, found, h2) = and_then-eq-ok (required "staleness_injection" injection) _ h in
    let (cs, listed, rest) = and_then-eq-ok (required "changes" i) _ h2 in
    changed-eq-ok x (apply_changes cs x.1.world) q rest

module _ (mode : AblationMode) (rt : AgentRuntimeContext) (wait : ℕ) (approver : String) where
  compliant_end :
      (s : Stop) (c : Config) (w : World)
      → EndsUngated (s, c)
      → ((n : Node) (e : Error) → s ≢ failed n e)
      → ((m : Node) → s ≢ out_of_fuel m)
      → let p = approve_all enough_approvals mode rt wait approver (moved_to (s, c) w) in
        (is_gated p.config.state.risk_tier_final ≡ false) ⊎ (is_some p.approval_wait_seconds ≡ true)
  unfolding approve_all approve
  compliant_end finished c w u n f = inl u
  compliant_end (failed m e) c w u n f = absurd (n m e refl)
  compliant_end (out_of_fuel m) c w u n f = absurd (f m refl)
  compliant_end (waiting q) c w u n f = inr (
      wait_is_noted mode rt wait approver 2 _
        (approve mode rt wait approver (moved_to (waiting q, c) w)) refl refl)

  not_failed :
      (s : Stop) (c : Config) (p : Progress)
      → returned (begun (s, c)) ≡ ok p
      → (n : Node) (e : Error) → s ≢ failed n e
  not_failed s c p h n e g = raised≢ok e p (rw g at h)

injected-eq-ok {ℓ} :
    {A : Type ℓ} (x : Result A × World) (next : World → Result RunRecord) (r : RunRecord)
    → injected x next ≡ ok r
    → (w : World) × (next w ≡ ok r)
injected-eq-ok (ok reply, w) next r h = (w, h)
injected-eq-ok (raised e, w) next r h = absurd (raised≢ok e r h)

-- What a record says of its run: it ended, and a tier above low has waited for its approval.
abbrev pub IsCompliant : RunRecord → Type 0
IsCompliant r =
    IsFinal r.final_state
    × ((is_gated r.risk_tier_final ≡ false) ⊎ (is_some r.approval_wait_seconds ≡ true))

final_or-IsFinal : (s t : Option State) → IsFinal s → IsFinal (final_or s t)
final_or-IsFinal none t (inl h) = cc
final_or-IsFinal none t (inr h) = cc
final_or-IsFinal (some s) t h = h

module _ (mode : AblationMode) (rt : AgentRuntimeContext) (wait : ℕ) (approver : String) where
  ended-IsCompliant :
      (run_id id : String) (first stale : Bool) (c : Config) (w : World) (z : Progress)
      → is_gated c.state.risk_tier_final ≡ false
      → ((n : Node) (e : Error) → (start_workflow (revalidates mode) rt c).0 ≢ failed n e)
      → returned (
          approve_all enough_approvals mode rt wait approver
            (moved_to (start_workflow (revalidates mode) rt c) w))
        ≡ ok z
      → IsCompliant (run_record run_id id mode first stale z)
  unfolding run_record
  ended-IsCompliant run_id id first stale c w z low sound over =
      let x = start_workflow (revalidates mode) rt c in
      let last = approve_all enough_approvals mode rt wait approver (moved_to x w) in
      let final = IsOver-IsFinal last.stop last z (approvals_end mode rt wait approver c w) over in
      subst (λ y. IsCompliant (run_record run_id id mode first stale y))
        (unless_failed-eq-ok last.stop last z over)
        (
          final_or-IsFinal last.config.state.final_state last.config.state.status final,
          compliant_end mode rt wait approver x.0 x.1 w
              (start-EndsUngated (revalidates mode) rt c low) sound
              (start_workflow_ends (revalidates mode) rt c).0,
        )

  drive_scenario-IsCompliant :
      (run_id id : String) (scenario : Scenario) (w : World) (r : RunRecord)
      → drive_scenario mode rt wait approver run_id id scenario w ≡ ok r
      → IsCompliant r
  unfolding drive_scenario initial_state
  drive_scenario-IsCompliant run_id id scenario w r h =
      let c = new_run run_id w in
      let x = start_workflow (revalidates mode) rt c in
      let (p, went, h1) = and_then-eq-ok (returned (begun x)) _ h in
      let (stale, known_stale, h2) =
        and_then-eq-ok (is_stale (is_waiting x.0) scenario.category) _ h1 in
      let (q, waited, h3) = and_then-eq-ok (first_wait stale scenario.staleness_injection p) _ h2 in
      let (z, over, made) =
        map_result-eq-ok (run_record run_id id mode (is_waiting x.0) stale)
          (returned (approve_all enough_approvals mode rt wait approver q)) h3 in
      let (w', moves) = first_wait-eq-ok stale scenario.staleness_injection x q (
        subst (λ y. first_wait stale scenario.staleness_injection y ≡ ok q)
          (sym (unless_failed-eq-ok x.0 (begun x) p went)) waited) in
      subst IsCompliant made (
        ended-IsCompliant run_id id (is_waiting x.0) stale c w' z refl
          (not_failed mode rt wait approver x.0 x.1 p went)
          (subst (λ y. returned (approve_all enough_approvals mode rt wait approver y) ≡ ok z) moves
            over))

-- A scenario that yields a record, of any ablation mode and with any models, yields one of a run that
-- is COMPLETED or ESCALATED; if its final tier is not low, the run has waited for an approval.
pub run_scenario-IsCompliant :
    (initial_replicas : Dict ℕ) (mode : AblationMode) (rt : AgentRuntimeContext) (wait : ℕ)
    (approver run_id : String) (scenario : Scenario) (r : RunRecord)
    → run_scenario initial_replicas mode rt wait approver run_id scenario ≡ ok r
    → IsCompliant r
unfolding run_scenario
run_scenario-IsCompliant initial_replicas mode rt wait approver run_id scenario r h =
    let ((service, type, rate), fault, h1) = and_then-eq-ok (fault_of scenario) _ h in
    let (w, h2) =
      injected-eq-ok (inject service type rate (build_sandbox initial_replicas)) _ r h1 in
    let (id, has_id, h3) = and_then-eq-ok (required "id" scenario.id) _ h2 in
    drive_scenario-IsCompliant mode rt wait approver run_id id scenario w r h3

-- The record of a scenario has the scenario's id.
pub run_scenario-id :
    (initial_replicas : Dict ℕ) (mode : AblationMode) (rt : AgentRuntimeContext) (wait : ℕ)
    (approver run_id : String) (scenario : Scenario) (r : RunRecord)
    → run_scenario initial_replicas mode rt wait approver run_id scenario ≡ ok r
    → scenario.id ≡ some r.scenario_id
unfolding run_scenario drive_scenario run_record
run_scenario-id initial_replicas mode rt wait approver run_id scenario r h =
    let ((service, type, rate), fault, h1) = and_then-eq-ok (fault_of scenario) _ h in
    let (w, h2) =
      injected-eq-ok (inject service type rate (build_sandbox initial_replicas)) _ r h1 in
    let (id, has_id, h3) = and_then-eq-ok (required "id" scenario.id) _ h2 in
    let x = start_workflow (revalidates mode) rt (new_run run_id w) in
    let (p, went, h4) = and_then-eq-ok (returned (begun x)) _ h3 in
    let (stale, known_stale, h5) =
      and_then-eq-ok (is_stale (is_waiting x.0) scenario.category) _ h4 in
    let (q, waited, h6) = and_then-eq-ok (first_wait stale scenario.staleness_injection p) _ h5 in
    let (z, over, made) =
      map_result-eq-ok (run_record run_id id mode (is_waiting x.0) stale)
        (returned (approve_all enough_approvals mode rt wait approver q)) h6 in
    required-eq-ok "id" scenario.id has_id ∙ ap (λ (y : RunRecord). some y.scenario_id) made
