-- ===== src/Eval/Accepted.antt =====
-- A scenario that src/eval/scenario_validation.py accepts, in the sandbox of src/eval/runner.py: its
-- fault, and the changes of a staleness scenario.
use durable_approval_gated_r.Prelude.{
  ◌≡◌, refl, sym, subst, inl, inr, Bool, true, false, not, Option-cases, Bool-cases, mem_text,
  OneOf-of_mem_text, length, ◌+◌, ◌≤◌, String, none, some, List, [], ◌∷◌, ◌++◌, arith,
  if◌then◌else◌,
}
use durable_approval_gated_r.Prelude.Dict.{lookup}
use durable_approval_gated_r.Act.{ok}
use durable_approval_gated_r.App.{FaultReply}
use durable_approval_gated_r.Service.{ServiceState, new_service}
use durable_approval_gated_r.World.{World}
use durable_approval_gated_r.Observations.{known_services, has_disk}
use durable_approval_gated_r.Eval.Sandbox.{build_sandbox}
use durable_approval_gated_r.Eval.Faults.{Change, require_client, inject}
use durable_approval_gated_r.Eval.Validation.{
  ValidationError, missing_keys, fault_errors, Scenario, validate_fault_injection,
  validate_staleness_change, change_errors, has_required_keys, validate_scenario,
}
use durable_approval_gated_r.Eval.Scenario.{fault_of, apply_changes}
use durable_approval_gated_r.Eval.Injectable.{validated_fault_injects}
use durable_approval_gated_r.Eval.Changes.{rollbacks, IsStocked, put-IsStocked, inject-Put}
use durable_approval_gated_r.Eval.Staleness.{AreValid, IsStocked-IsReady, changes_apply}

append-empty : (xs ys : List ValidationError) → xs ++ ys ≡ [] → (xs ≡ []) × (ys ≡ [])
append-empty [] ys h = (refl, h)
append-empty (x ∷ xs) ys h = cc

change_errors-AreValid : (changes : List Change) → change_errors changes ≡ [] → AreValid changes
unfolding change_errors
change_errors-AreValid [] h = tt
change_errors-AreValid (change ∷ changes) h =
    let (here, rest) = append-empty (validate_staleness_change change) (change_errors changes) h in
    (here, change_errors-AreValid changes rest)

-- What an accepted staleness scenario has.
abbrev IsAccepted : Scenario → List Change → Type 0
IsAccepted scenario changes =
    ((fault : Change) × (scenario.fault_injection ≡ some fault)
      × (validate_fault_injection fault ≡ []))
    × AreValid changes

keys_checked :
    (b : Bool) (e : ValidationError) (errors : List ValidationError)
    → (if not b then e ∷ [] else errors) ≡ []
    → (b ≡ true) × (errors ≡ [])
keys_checked true e errors h = (refl, h)
keys_checked false e errors h = cc

drift_checked :
    (b : Bool) (e : ValidationError) (errors : List ValidationError)
    → (if b then errors else e ∷ []) ≡ []
    → errors ≡ []
drift_checked true e errors h = h
drift_checked false e errors h = cc

fault_of_keys :
    (scenario : Scenario)
    → has_required_keys scenario ≡ true
    → fault_errors scenario.fault_injection ≡ []
    → (fault : Change) × (scenario.fault_injection ≡ some fault)
      × (validate_fault_injection fault ≡ [])
unfolding has_required_keys
fault_of_keys scenario has_keys h = elim (Option-cases scenario.fault_injection) [
  | inl missing ↦ absurd (ground (arith, missing, has_keys))
  | inr (fault, is) ↦ (fault, is, rw is at h)
]

accepted :
    (scenario : Scenario) (changes : List Change)
    → scenario.category ≡ some "staleness"
    → scenario.staleness_injection ≡ some (some changes)
    → validate_scenario scenario ≡ []
    → IsAccepted scenario changes
unfolding validate_scenario
accepted scenario changes stale listed valid =
    let (has_keys, r0) = keys_checked (has_required_keys scenario) missing_keys _ valid in
    let (front, changes_checked) = append-empty _ _ r0 in
    let (front2, overlap) = append-empty _ _ front in
    let (front3, subset) = append-empty _ _ front2 in
    let (front4, forbidden) = append-empty _ _ front3 in
    let (front5, acceptable) = append-empty _ _ front4 in
    let (front6, correct) = append-empty _ _ front5 in
    let (fault, tier) = append-empty _ _ front6 in
    (
      fault_of_keys scenario has_keys fault,
      change_errors-AreValid changes
          (drift_checked scenario.has_expected_drift _ _ (rw (stale, listed) at changes_checked)),
    )

abbrev no_change : Change
no_change = record { action = none; service = none; fault_type = none; rate = none; kind = none }

-- The injection of a fault takes no versions.
injected-IsStocked :
    (changes : List Change) (w : World) (service type rate : String)
    → IsStocked changes w
    → IsStocked changes (inject service type rate w).1
unfolding inject require_client
injected-IsStocked changes w service type rate stocked =
    elim (Option-cases (lookup service w.clients)) [
      | inl missing ↦ rw missing stocked
      | inr (s, found) ↦
          let (t, moved, disk, versions) = inject-Put service type rate w s found in
          subst (IsStocked changes) (sym moved) (
            put-IsStocked no_change changes w service s t stocked found disk
              (λ enough few. rw versions enough))
    ]

-- In a sandbox where every known service has a client, a disk as the registry says, and a version for
-- each of at most two rollbacks of it, a staleness scenario that the validation accepts has its fault
-- injected without an error, and then its changes applied without one.
pub accepted_scenario_applies :
    (scenario : Scenario) (changes : List Change) (w : World)
    → validate_scenario scenario ≡ []
    → scenario.category ≡ some "staleness"
    → scenario.staleness_injection ≡ some (some changes)
    → IsStocked changes w
    → (service : String) × (type : String) × (rate : String) × (fault_of scenario
        ≡ ok (service, type, rate))
      × ((reply : FaultReply) × ((inject service type rate w).0 ≡ ok reply))
      × ((apply_changes changes (inject service type rate w).1).0 ≡ ok tt)
accepted_scenario_applies scenario changes w valid stale listed stocked =
    let ((fault, is, fault_valid), changes_valid) = accepted scenario changes stale listed valid in
    let (service, type, rate, fs, ft, fr, ran) =
      validated_fault_injects fault w (IsStocked-IsReady changes w stocked) fault_valid in
    (
      service,
      type,
      rate,
      rw (is, fs, ft, fr) refl,
      ran,
      changes_apply changes (inject service type rate w).1 changes_valid
          (injected-IsStocked changes w service type rate stocked),
    )

abbrev HasClient : List Change → String → Type 0
HasClient changes service =
    (s : ServiceState) × (lookup service (build_sandbox []).clients ≡ some s)
    × (s.has_disk ≡ has_disk service)
    × (rollbacks service changes + 1 ≤ length s.version_history)
    × (rollbacks service changes ≤ 2)

-- The sandbox that the suite builds has versions for two rollbacks of each service.
pub build_sandbox-IsStocked :
    (changes : List Change)
    → ((service : String) → rollbacks service changes ≤ 2)
    → IsStocked changes (build_sandbox [])
unfolding build_sandbox new_service has_disk lookup
build_sandbox-IsStocked changes few service = elim (Bool-cases (mem_text service known_services)) [
  | inr unknown ↦ inl unknown
  | inl member ↦ inr (elim (OneOf-of_mem_text service known_services member) [
    | inl e ↦
        subst (HasClient changes) (sym e)
          (_, refl, refl, omega (arith, few "service_a"), few "service_a")
    | inr (inl e) ↦
        subst (HasClient changes) (sym e)
          (_, refl, refl, omega (arith, few "service_b"), few "service_b")
    | inr (inr (inl e)) ↦
        subst (HasClient changes) (sym e)
          (_, refl, refl, omega (arith, few "service_c"), few "service_c")
    | inr (inr (inr e)) ↦ absurd e
  ])
]
