-- ===== src/Eval/Staleness.antt =====
-- The changes of a staleness scenario that src/eval/scenario_validation.py accepts, one after another in
-- the sandbox of src/eval/runner.py.
use durable_approval_gated_r.Prelude.{
  ◌+◌, ◌≤◌, ◌≡◌, refl, sym, ap, ◌∙◌, subst, ◌⊎◌, inl, inr, true, String, some, List, [], ◌∷◌,
  length, OneOf-of_mem_text, arith, eq_refl,
}
use durable_approval_gated_r.Action.{record_kinds}
use durable_approval_gated_r.Prelude.Dict.{lookup, insert}
use durable_approval_gated_r.Act.{ok}
use durable_approval_gated_r.Service.{ServiceState, reset}
use durable_approval_gated_r.App.{FaultReply, RollbackReply, post_rollback, admin_reset}
use durable_approval_gated_r.Observations.{known_services}
use durable_approval_gated_r.World.{World, request}
use durable_approval_gated_r.Eval.Faults.{Change, delete_kind, inject, apply_staleness_change}
use durable_approval_gated_r.Eval.Validation.{
  known, validate_fault_injection, staleness_actions, validate_staleness_change,
}
use durable_approval_gated_r.Eval.Scenario.{apply_changes}
use durable_approval_gated_r.Eval.Injectable.{IsReady, known-some, validated_fault_injects}
use durable_approval_gated_r.Eval.Changes.{
  rolls_back, rollbacks, IsStocked, fewer, put-IsStocked, inject-Put, rollback_applies,
}

-- A change that raises nothing and leaves the versions for the changes after it.
abbrev Applies : Change → List Change → World → Type 0
Applies change changes w =
    ((apply_staleness_change change w).0 ≡ ok tt)
    × IsStocked changes (apply_staleness_change change w).1

pub IsStocked-IsReady : (changes : List Change) (w : World) → IsStocked changes w → IsReady w
IsStocked-IsReady changes w stocked service = elim (stocked service) [
  | inl unknown ↦ inl unknown
  | inr (s, found, disk, enough, few) ↦ inr (s, found, disk)
]

moved-Applies :
    (change : Change) (changes : List Change) (w w' : World)
    → (apply_staleness_change change w).0 ≡ ok tt
    → (apply_staleness_change change w).1 ≡ w'
    → IsStocked changes w'
    → Applies change changes w
moved-Applies change changes w w' ran moved h = (ran, rw moved h)

module _ (change : Change) (changes : List Change) (w : World) (service : String)
    (s : ServiceState) where
  reset-Applies :
      change.action ≡ some "reset"
      → change.service ≡ some service
      → lookup service w.clients ≡ some s
      → rollbacks service (change ∷ changes) ≤ 2
      → IsStocked (change ∷ changes) w
      → Applies change changes w
  unfolding apply_staleness_change request admin_reset reset
  reset-Applies is named found few stocked =
      moved-Applies change changes w (record w { clients = insert service (reset s) w.clients })
        (rw (is, named, found) refl) (rw (is, named, found) refl)
        (put-IsStocked change changes w service s (reset s) stocked found refl
          (λ enough few. omega (arith, few, fewer service change changes)))

  rollback-Applies :
      (reply : RollbackReply) (t : ServiceState)
      → change.action ≡ some "rollback"
      → change.service ≡ some service
      → lookup service w.clients ≡ some s
      → rollbacks service changes + 2 ≤ length s.version_history
      → (request service post_rollback w).0 ≡ ok reply
      → (request service post_rollback w).1 ≡ record w { clients = insert service t w.clients }
      → t.has_disk ≡ s.has_disk
      → length t.version_history + 1 ≡ length s.version_history
      → IsStocked (change ∷ changes) w
      → Applies change changes w
  unfolding apply_staleness_change
  rollback-Applies reply t is named found more ran moved disk versions stocked =
      moved-Applies change changes w (record w { clients = insert service t w.clients })
        (rw (is, named, ran) refl) (rw (is, named, ran) moved)
        (put-IsStocked change changes w service s t stocked found disk
          (λ enough few. omega (arith, more, versions)))

  rolled :
      change.action ≡ some "rollback"
      → change.service ≡ some service
      → rollbacks service (change ∷ changes) + 1 ≤ length s.version_history
      → rollbacks service changes + 2 ≤ length s.version_history
  rolled is named enough =
      let counted : rolls_back service change ≡ true = rw (is, named) (rw (eq_refl service) refl) in
      omega (arith, rw counted at enough)

  fault-Applies :
      (type rate : String) (reply : FaultReply)
      → change.action ≡ some "inject_fault"
      → change.service ≡ some service
      → change.fault_type ≡ some type
      → change.rate ≡ some rate
      → (inject service type rate w).0 ≡ ok reply
      → lookup service w.clients ≡ some s
      → IsStocked (change ∷ changes) w
      → Applies change changes w
  unfolding apply_staleness_change
  fault-Applies type rate reply is named typed rated ran found stocked =
      let (t, moved, disk, versions) = inject-Put service type rate w s found in
      moved-Applies change changes w (record w { clients = insert service t w.clients })
        (rw (is, named, typed, rated, ran) refl) (rw (is, named, typed, rated, ran) moved)
        (put-IsStocked change changes w service s t stocked found disk
          (λ enough few. rw versions (omega (arith, enough, fewer service change changes))))

delete-Applies :
    (change : Change) (changes : List Change) (w : World) (kind : String)
    → change.action ≡ some "delete_records"
    → change.kind ≡ some kind
    → IsStocked (change ∷ changes) w
    → Applies change changes w
unfolding apply_staleness_change
delete-Applies change changes w kind is named stocked =
    moved-Applies change changes w (delete_kind kind w) (rw (is, named) refl) (rw (is, named) refl)
      (λ service. elim (stocked service) [
        | inl unknown ↦ inl unknown
        | inr (s, found, disk, enough, few) ↦ inr (
          s,
          found,
          disk,
          omega (arith, enough, fewer service change changes),
          omega (arith, few, fewer service change changes),
        )
      ])

allowed :
    (change : Change)
    → validate_staleness_change change ≡ []
    → known change.action staleness_actions ≡ true
unfolding validate_staleness_change
allowed change valid = ground arith

names_service :
    (change : Change)
    → (change.action ≡ some "reset") ⊎ (change.action ≡ some "rollback")
    → validate_staleness_change change ≡ []
    → known change.service known_services ≡ true
unfolding validate_staleness_change
names_service change (inl is) valid = ground (arith, is, rw is at valid)
names_service change (inr is) valid = ground (arith, is, rw is at valid)

names_kind :
    (change : Change)
    → change.action ≡ some "delete_records"
    → validate_staleness_change change ≡ []
    → known change.kind record_kinds ≡ true
unfolding validate_staleness_change
names_kind change is valid = ground (arith, is, rw is at valid)

names_fault :
    (change : Change)
    → change.action ≡ some "inject_fault"
    → validate_staleness_change change ≡ []
    → validate_fault_injection change ≡ []
unfolding validate_staleness_change
names_fault change is valid = rw is at valid

-- A service that a change names, as the change finds it.
abbrev Named : Change → List Change → World → Type 0
Named change changes w =
    (service : String) × (s : ServiceState) × (change.service ≡ some service)
    × (lookup service w.clients ≡ some s)
    × (rollbacks service (change ∷ changes) + 1 ≤ length s.version_history)
    × (rollbacks service (change ∷ changes) ≤ 2)

named :
    (change : Change) (changes : List Change) (w : World)
    → known change.service known_services ≡ true
    → IsStocked (change ∷ changes) w
    → Named change changes w
named change changes w h stocked =
    let (service, is, member) = known-some change.service known_services h in
    elim (stocked service) [
      | inl unknown ↦ absurd (ground (arith, member, unknown))
      | inr (s, found, disk, enough, few) ↦ (service, s, is, found, enough, few)
    ]

reset_or_rollback :
    (change : Change) (changes : List Change) (w : World)
    → (change.action ≡ some "reset") ⊎ (change.action ≡ some "rollback")
    → IsStocked (change ∷ changes) w
    → Named change changes w
    → Applies change changes w
reset_or_rollback change changes w (inl is) stocked (service, s, n, found, enough, few) =
    reset-Applies change changes w service s is n found few stocked
reset_or_rollback change changes w (inr is) stocked (service, s, n, found, enough, few) =
    let more = rolled change changes w service s is n enough in
    let (reply, ran, (t, moved, disk, versions)) =
      rollback_applies w service s found (omega (arith, more)) in
    rollback-Applies change changes w service s reply t is n found more ran moved disk versions
      stocked

names_known :
    (change : Change)
    → validate_fault_injection change ≡ []
    → known change.service known_services ≡ true
unfolding validate_fault_injection
names_known change valid = ground arith

some-injective : {a b : String} → some a ≡ some b → a ≡ b
some-injective h = cc

fault_of_change :
    (change : Change) (changes : List Change) (w : World)
    → change.action ≡ some "inject_fault"
    → IsStocked (change ∷ changes) w
    → known change.service known_services ≡ true
    → validate_fault_injection change ≡ []
    → Applies change changes w
fault_of_change change changes w is stocked member valid =
    let (service, type, rate, fs, ft, fr, (reply, ran)) =
      validated_fault_injects change w (IsStocked-IsReady (change ∷ changes) w stocked) valid in
    let (other, s, n, found, enough, few) = named change changes w member stocked in
    let same : other ≡ service = some-injective (sym n ∙ fs) in
    fault-Applies change changes w service s type rate reply is fs ft fr ran
      (subst (λ i. lookup i w.clients ≡ some s) same found) stocked

change-Applies :
    (change : Change) (changes : List Change) (w : World)
    → validate_staleness_change change ≡ []
    → IsStocked (change ∷ changes) w
    → Applies change changes w
change-Applies change changes w valid stocked =
    let (action, is, member) = known-some change.action staleness_actions (allowed change valid) in
    elim (OneOf-of_mem_text action staleness_actions member) [
      | inl e ↦
          let h = inl (is ∙ ap some e) in
          reset_or_rollback change changes w h stocked
            (named change changes w (names_service change h valid) stocked)
      | inr (inl e) ↦
          let h : change.action ≡ some "inject_fault" = is ∙ ap some e in
          let fault = names_fault change h valid in
          fault_of_change change changes w h stocked (names_known change fault) fault
      | inr (inr (inl e)) ↦
          let h = inr (is ∙ ap some e) in
          reset_or_rollback change changes w h stocked
            (named change changes w (names_service change h valid) stocked)
      | inr (inr (inr (inl e))) ↦
          let h : change.action ≡ some "delete_records" = is ∙ ap some e in
          let (kind, k, member) = known-some change.kind record_kinds (names_kind change h valid) in
          delete-Applies change changes w kind h k stocked
      | inr (inr (inr (inr e))) ↦ absurd e
    ]

abbrev pub AreValid : List Change → Type 0
AreValid [] = Unit
AreValid (change ∷ changes) = (validate_staleness_change change ≡ []) × AreValid changes

pub changes_apply :
    (changes : List Change) (w : World)
    → AreValid changes
    → IsStocked changes w
    → (apply_changes changes w).0 ≡ ok tt
unfolding apply_changes
changes_apply [] w valid stocked = refl
changes_apply (change ∷ changes) w (v, vs) stocked =
    let (ran, left) = change-Applies change changes w v stocked in
    rw ran (changes_apply changes (apply_staleness_change change w).1 vs left)
