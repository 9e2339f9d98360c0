-- ===== src/Agent/Termination.antt =====
-- Every invocation of the graph ends: `run` on the fuel of `start_workflow` and `resume_workflow`.
use durable_approval_gated_r.Prelude.{
  ℕ, zero, suc, ◌+◌, ◌≤◌, ◌<◌, ◌≡◌, ◌≢◌, refl, subst, ◌⊎◌, inl, inr, Bool, Option, none, some,
  arith,
}
use native.Mathlib.Nat.{add-suc}
use durable_approval_gated_r.Act.{Error, Result, ok, raised}
use durable_approval_gated_r.World.{World}
use durable_approval_gated_r.Agent.State.{AgentRuntimeContext, Resume}
use durable_approval_gated_r.Agent.Routes.{Node, Next, goto, end}
use durable_approval_gated_r.Agent.Graph.{
  Config, Interrupt, Step, moved, suspended, crashed, out_of_fuel, NodeResult, updated, interrupted,
  commit, follow, settle, run_node, step, run, enough_fuel, start_workflow, resume_workflow,
}
use durable_approval_gated_r.Agent.Bound.{cycles_left, steps_left, step_falls}

-- The four ways in which a super-step goes on.
abbrev pub StepCase : Step → Type 0
StepCase x =
    ((m : Node) × (c : Config) × (x ≡ moved (goto m) c))
    ⊎ ((c : Config) × (x ≡ moved end c))
    ⊎ ((q : Interrupt) × (c : Config) × (x ≡ suspended q c))
    ⊎ ((e : Error) × (c : Config) × (x ≡ crashed e c))

pub step_case : (x : Step) → StepCase x
step_case (moved (goto m) c) = inl (m, c, refl)
step_case (moved end c) = inr (inl (c, refl))
step_case (suspended q c) = inr (inr (inl (q, c, refl)))
step_case (crashed e c) = inr (inr (inr (e, c, refl)))

steps_left_pos : (n : Node) (r : Option Resume) (c : Config) → 0 < steps_left n r (cycles_left c)
steps_left_pos Node.await_approval none c = omega arith
steps_left_pos Node.await_approval (some d) c = omega arith
steps_left_pos _ r c = omega arith

-- The turn after a step that was made, or that was not.
abbrev Turned : Config → Step → Type 0
Turned c (moved next c') = c'.turn ≡ c.turn + 1
Turned c (suspended q c') = c'.turn ≡ c.turn
Turned c (crashed e c') = c'.turn ≤ c.turn + 1

follow-turn : (next : Result Next) (c d : Config) → d.turn ≡ c.turn + 1 → Turned c (follow next d)
follow-turn (ok n) c d h = h
follow-turn (raised e) c d h = omega arith

settle-turn :
    (reval : Bool) (rt : AgentRuntimeContext) (n : Node) (c : Config)
    (r : Result NodeResult × World)
    → Turned c (settle reval rt n c r)
settle-turn reval rt n c (ok (updated u), w) = follow-turn _ c (commit rt c w u) refl
settle-turn reval rt n c (ok (interrupted q), w) = refl
settle-turn reval rt n c (raised e, w) = omega arith

step-turn :
    (reval : Bool) (rt : AgentRuntimeContext) (n : Node) (r : Option Resume) (c : Config) {x : Step}
    → step reval rt n r c ≡ x
    → Turned c x
unfolding step
step-turn reval rt n r c h =
    subst (Turned c) h (settle-turn reval rt n c (run_node n rt c.turn r c.state c.world))

module _ (reval : Bool) (rt : AgentRuntimeContext) where
  run-ne-out_of_fuel :
      (fuel : ℕ) (n : Node) (r : Option Resume) (c : Config)
      → steps_left n r (cycles_left c) ≤ fuel
      → (m : Node) → (run fuel reval rt n r c).0 ≢ out_of_fuel m
  unfolding run
  run-ne-out_of_fuel zero n r c h m = absurd (omega (arith, steps_left_pos n r c))
  run-ne-out_of_fuel (suc fuel) n r c h m = elim (step_case (step reval rt n r c)) [
    | inl (n', c', e) ↦
        rw e (run-ne-out_of_fuel fuel n' none c' (omega (arith, step_falls reval rt n r c e)) m)
    | inr (inl (c', e)) ↦ rw e (λ p. cc)
    | inr (inr (inl (q, c', e))) ↦ rw e (λ p. cc)
    | inr (inr (inr (x, c', e))) ↦ rw e (λ p. cc)
  ]

  run-add_fuel :
      (fuel k : ℕ) (n : Node) (r : Option Resume) (c : Config)
      → steps_left n r (cycles_left c) ≤ fuel
      → run (k + fuel) reval rt n r c ≡ run fuel reval rt n r c
  unfolding run
  run-add_fuel zero k n r c h = absurd (omega (arith, steps_left_pos n r c))
  run-add_fuel (suc fuel) k n r c h = rw (add-suc k fuel) (elim (step_case (step reval rt n r c)) [
    | inl (n', c', e) ↦
        rw e (run-add_fuel fuel k n' none c' (omega (arith, step_falls reval rt n r c e)))
    | inr (inl (c', e)) ↦ rw e
    | inr (inr (inl (q, c', e))) ↦ rw e
    | inr (inr (inr (x, c', e))) ↦ rw e
  ])

  run-turn :
      (fuel : ℕ) (n : Node) (r : Option Resume) (c : Config)
      → (run fuel reval rt n r c).1.turn ≤ c.turn + steps_left n r (cycles_left c)
  unfolding run
  run-turn zero n r c = omega arith
  run-turn (suc fuel) n r c = elim (step_case (step reval rt n r c)) [
    | inl (n', c', e) ↦ rw e (
        omega (
          arith,
          run-turn fuel n' none c',
          step_falls reval rt n r c e,
          step-turn reval rt n r c e,
        ))
    | inr (inl (c', e)) ↦ rw e (omega (arith, steps_left_pos n r c, step-turn reval rt n r c e))
    | inr (inr (inl (q, c', e))) ↦
        rw e (omega (arith, steps_left_pos n r c, step-turn reval rt n r c e))
    | inr (inr (inr (x, c', e))) ↦
        rw e (omega (arith, steps_left_pos n r c, step-turn reval rt n r c e))
  ]

-- The bound of any invocation, from any state: at most 26 super-steps.
steps_left-le : (n : Node) (r : Option Resume) (c : Config) → steps_left n r (cycles_left c) ≤ 26
steps_left-le Node.await_approval none c = omega arith
steps_left-le Node.await_approval (some d) c = omega arith
steps_left-le _ r c = omega arith

module _ (reval : Bool) (rt : AgentRuntimeContext) (c : Config) where
  -- Starting a run ends within 26 super-steps, from any state, with any models and in any sandbox:
  -- it does not run out of fuel, more fuel changes nothing, and the turn grows by 26 at most.
  pub start_workflow_ends :
      ((m : Node) → (start_workflow reval rt c).0 ≢ out_of_fuel m)
      × ((k : ℕ) → run (k + enough_fuel) reval rt Node.diagnose none c ≡ start_workflow reval rt c)
      × ((start_workflow reval rt c).1.turn ≤ c.turn + 26)
  unfolding start_workflow
  start_workflow_ends = (
    run-ne-out_of_fuel reval rt enough_fuel Node.diagnose none c
        (omega (arith, steps_left-le Node.diagnose none c)),
    λ k.
        run-add_fuel reval rt enough_fuel k Node.diagnose none c
          (omega (arith, steps_left-le Node.diagnose none c)),
    omega (
      arith,
      run-turn reval rt enough_fuel Node.diagnose none c,
      steps_left-le Node.diagnose none c,
    ),
  )

  -- Resuming a run ends within 26 super-steps, whatever the decision.
  pub resume_workflow_ends :
      (d : Resume)
      → ((m : Node) → (resume_workflow reval rt d c).0 ≢ out_of_fuel m)
        × ((k : ℕ)
            → run (k + enough_fuel) reval rt Node.await_approval (some d) c
              ≡ resume_workflow reval rt d c)
        × ((resume_workflow reval rt d c).1.turn ≤ c.turn + 26)
  unfolding resume_workflow
  resume_workflow_ends d = (
    run-ne-out_of_fuel reval rt enough_fuel Node.await_approval (some d) c
        (omega (arith, steps_left-le Node.await_approval (some d) c)),
    λ k.
        run-add_fuel reval rt enough_fuel k Node.await_approval (some d) c
          (omega (arith, steps_left-le Node.await_approval (some d) c)),
    omega (
      arith,
      run-turn reval rt enough_fuel Node.await_approval (some d) c,
      steps_left-le Node.await_approval (some d) c,
    ),
  )
