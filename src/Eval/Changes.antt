-- ===== src/Eval/Changes.antt =====
-- The staleness changes that src/eval/scenario_validation.py accepts, in `_apply_staleness_change` of
-- src/eval/runner.py.
use durable_approval_gated_r.Prelude.{
  ℕ, suc, ltb, ◌+◌, ◌≤◌, ◌≡◌, refl, sym, ap, ◌∙◌, subst, ◌⊎◌, inl, inr, Bool, false, ◌&&◌, String,
  some, List, [], ◌∷◌, length, mem_text, str_eq, arith, Bool-cases, if◌then◌else◌, eq_iff,
}
use durable_approval_gated_r.Prelude.Dict.{lookup, insert, lookup-insert, insert-lookup_self}
use durable_approval_gated_r.Act.{ok, Result-cases}
use durable_approval_gated_r.Service.{
  ServiceState, FaultType, FaultRate, memory_leak, high_error_rate, cpu_spike, service_down,
  disk_full, apply_fault, reset, rollback, last, but_last, deployed_version,
}
use durable_approval_gated_r.App.{RollbackReply, admin_fault, post_rollback, admin_reset}
use durable_approval_gated_r.Observations.{known_services, has_disk}
use durable_approval_gated_r.World.{World, request}
use durable_approval_gated_r.Eval.Faults.{
  Change, parse_fault_type, parse_fault_rate, require_client, inject,
}
use durable_approval_gated_r.Eval.Validation.{known}

-- The change rolls the service back.
abbrev pub rolls_back : String → Change → Bool
rolls_back service change =
    known change.action ("rollback" ∷ []) && known change.service (service ∷ [])

-- How often the changes roll the service back.
abbrev pub rollbacks : String → List Change → ℕ
rollbacks service [] = 0
rollbacks service (change ∷ changes) =
    let rest = rollbacks service changes in if rolls_back service change then rest + 1 else rest

-- Every known service has a client with a disk as the registry says, and a version for each of its
-- rollbacks in the changes, which are at most two.
abbrev pub IsStocked : List Change → World → Type 0
IsStocked changes w =
    (service : String)
    → (mem_text service known_services ≡ false)
      ⊎ ((s : ServiceState) × (lookup service w.clients ≡ some s)
          × (s.has_disk ≡ has_disk service)
          × (rollbacks service changes + 1 ≤ length s.version_history)
          × (rollbacks service changes ≤ 2))

pub fewer :
    (service : String) (change : Change) (changes : List Change)
    → rollbacks service changes ≤ rollbacks service (change ∷ changes)
fewer service change changes = elim (Bool-cases (rolls_back service change)) [
  | inl rolls ↦ rw rolls (omega arith)
  | inr keeps ↦ rw keeps (omega arith)
]

-- A client of a service is replaced by one with its disk and the versions that the other changes need.
pub put-IsStocked :
    (change : Change) (changes : List Change) (w : World) (service : String) (s t : ServiceState)
    → IsStocked (change ∷ changes) w
    → lookup service w.clients ≡ some s
    → t.has_disk ≡ s.has_disk
    → (rollbacks service (change ∷ changes) + 1 ≤ length s.version_history
        → rollbacks service (change ∷ changes) ≤ 2
        → rollbacks service changes + 1 ≤ length t.version_history)
    → IsStocked changes (record w { clients = insert service t w.clients })
put-IsStocked change changes w service s t stocked found disk versions j = elim (stocked j) [
  | inl unknown ↦ inl unknown
  | inr (x, here, xd, enough, few) ↦ elim (Bool-cases (str_eq service j)) [
    | inl same ↦
        let e : service ≡ j = (eq_iff service j).0 same in
        let own : s ≡ x = ground (arith, found, here, e) in
        inr (
          t,
          rw (lookup-insert service j t w.clients, same) refl,
          disk ∙ ap (λ y. y.has_disk) own ∙ xd,
          subst (λ i. rollbacks i changes + 1 ≤ length t.version_history) e
              (versions
                (subst (λ i. rollbacks i (change ∷ changes) + 1 ≤ length s.version_history) (sym e)
                  (subst (λ y. rollbacks j (change ∷ changes) + 1 ≤ length y.version_history)
                    (sym own) enough))
                (subst (λ i. rollbacks i (change ∷ changes) ≤ 2) (sym e) few)),
          omega (arith, few, fewer j change changes),
        )
    | inr other ↦ inr (
      x,
      rw (lookup-insert service j t w.clients, other) here,
      xd,
      omega (arith, enough, fewer j change changes),
      omega (arith, few, fewer j change changes),
    )
  ]
]

-- An injection leaves the service its disk and its versions.
fault_keeps :
    (f : FaultType) (r : FaultRate) (s : ServiceState)
    → ((admin_fault f r s).1.has_disk ≡ s.has_disk)
      × ((admin_fault f r s).1.version_history ≡ s.version_history)
unfolding admin_fault apply_fault
fault_keeps memory_leak r s = (refl, refl)
fault_keeps high_error_rate r s = (refl, refl)
fault_keeps cpu_spike r s = (refl, refl)
fault_keeps service_down r s = (refl, refl)
fault_keeps disk_full r s = (ground arith, ground arith)

abbrev pub Put : String → ServiceState → World → World → Type 0
Put service s w w' =
    (t : ServiceState) × (w' ≡ record w { clients = insert service t w.clients })
    × (t.has_disk ≡ s.has_disk)
    × (t.version_history ≡ s.version_history)

pub inject-Put :
    (service type rate : String) (w : World) (s : ServiceState)
    → lookup service w.clients ≡ some s
    → Put service s w (inject service type rate w).1
unfolding inject require_client request
inject-Put service type rate w s found = elim (Result-cases (parse_fault_type type)) [
  | inr (e, bad) ↦ (
    s,
    rw (found, bad)
        (ap (λ c. record w { clients = c }) (sym (insert-lookup_self service s w.clients found))),
    refl,
    refl,
  )
  | inl (f, parsed) ↦ elim (Result-cases (parse_fault_rate rate)) [
    | inr (e, bad) ↦ (
      s,
      rw (found, parsed, bad)
          (ap (λ c. record w { clients = c }) (sym (insert-lookup_self service s w.clients found))),
      refl,
      refl,
    )
    | inl (r, rated) ↦ (
      (admin_fault f r s).1,
      ground (arith, found, parsed, rated),
      (fault_keeps f r s).0,
      (fault_keeps f r s).1,
    )
  ]
]

-- What the requests of a reset and of a rollback do.
pub reset_applies :
    (w : World) (service : String) (s : ServiceState)
    → lookup service w.clients ≡ some s
    → (request service admin_reset w).1 ≡ record w { clients = insert service (reset s) w.clients }
unfolding request admin_reset
reset_applies w service s found = rw found refl

length-but_last : (v : String) (vs : List String) → length (but_last (v ∷ vs)) ≡ length vs
length-but_last v [] = refl
length-but_last v (u ∷ vs) = ap suc (length-but_last u vs)

last-ok : (v : String) (vs : List String) → (x : String) × (last (v ∷ vs) ≡ ok x)
last-ok v [] = (v, refl)
last-ok v (u ∷ vs) = last-ok u vs

-- A service with a version before the current one, where there is one.
versions_found :
    (vs : List String)
    → 2 ≤ length vs
    → (previous : String) × (current : String) × (last vs ≡ ok previous)
      × (last (but_last vs) ≡ ok current)
      × (length (but_last vs) + 1 ≡ length vs)
      × (ltb (length vs) 2 ≡ false)
versions_found [] h = absurd (omega (arith, h))
versions_found (v ∷ []) h = absurd (omega (arith, h))
versions_found (v ∷ u ∷ vs) h =
    let (previous, p) = last-ok u vs in
    let (current, c) = last-ok v (but_last (u ∷ vs)) in
    (previous, current, p, c, omega (arith, length-but_last u vs), ground arith)

pub rollback_applies :
    (w : World) (service : String) (s : ServiceState)
    → lookup service w.clients ≡ some s
    → 2 ≤ length s.version_history
    → (reply : RollbackReply) × ((request service post_rollback w).0 ≡ ok reply)
      × ((t : ServiceState) × ((request service post_rollback w).1
            ≡ record w { clients = insert service t w.clients })
          × (t.has_disk ≡ s.has_disk)
          × (length t.version_history + 1 ≡ length s.version_history))
unfolding request post_rollback rollback deployed_version
rollback_applies w service s found enough =
    let (previous, current, p, c, shorter, several) = versions_found s.version_history enough in
    rw (found, several, p, c) (_, refl, (_, refl, refl, shorter))
