-- ===== src/Eval/Injectable.antt =====
-- What src/eval/scenario_validation.py accepts, src/env/fault_injector.py and `_apply_staleness_change` of
-- src/eval/runner.py can do.
use durable_approval_gated_r.Prelude.{
  ◌≡◌, refl, sym, subst, ◌⊎◌, inl, inr, Bool, true, false, not, ◌&&◌, String, Option, none, some,
  List, [], ◌∷◌, ◌++◌, mem_text, OneOf-of_mem_text, str_eq, arith, if◌then◌else◌,
}
use durable_approval_gated_r.Prelude.Dict.{lookup}
use durable_approval_gated_r.Act.{ok}
use durable_approval_gated_r.Service.{
  ServiceState, FaultType, FaultRate, memory_leak, high_error_rate, cpu_spike, service_down,
  disk_full, low, medium, high, same_fault, apply_fault,
}
use durable_approval_gated_r.App.{FaultReply, admin_fault}
use durable_approval_gated_r.Observations.{known_services, has_disk}
use durable_approval_gated_r.World.{World, request}
use durable_approval_gated_r.Eval.Faults.{
  Change, parse_fault_type, parse_fault_rate, require_client, inject,
}
use durable_approval_gated_r.Eval.Validation.{
  ValidationError, required_risk_tiers, known, validate_fault_injection,
}

-- Every known service has a client, with a disk as the registry says.
abbrev pub IsReady : World → Type 0
IsReady w =
    (service : String)
    → (mem_text service known_services ≡ false)
      ⊎ ((s : ServiceState) × (lookup service w.clients ≡ some s) × (s.has_disk ≡ has_disk service))

abbrev IsFault : String → Type 0
IsFault value =
    (f : FaultType) × (parse_fault_type value ≡ ok f)
    × (same_fault disk_full f ≡ str_eq value "disk_full")

abbrev type_names : List String
type_names = "memory_leak" ∷ "high_error_rate" ∷ "cpu_spike" ∷ "service_down" ∷ "disk_full" ∷ []

IsFault-known : (value : String) → mem_text value type_names ≡ true → IsFault value
unfolding parse_fault_type lookup
IsFault-known value h = elim (OneOf-of_mem_text value type_names h) [
  | inl e ↦ subst IsFault (sym e) (memory_leak, refl, refl)
  | inr (inl e) ↦ subst IsFault (sym e) (high_error_rate, refl, refl)
  | inr (inr (inl e)) ↦ subst IsFault (sym e) (cpu_spike, refl, refl)
  | inr (inr (inr (inl e))) ↦ subst IsFault (sym e) (service_down, refl, refl)
  | inr (inr (inr (inr (inl e)))) ↦ subst IsFault (sym e) (disk_full, refl, refl)
  | inr (inr (inr (inr (inr e)))) ↦ absurd e
]

abbrev IsRate : String → Type 0
IsRate value = (r : FaultRate) × (parse_fault_rate value ≡ ok r)

IsRate-known : (value : String) → mem_text value required_risk_tiers ≡ true → IsRate value
unfolding parse_fault_rate lookup
IsRate-known value h = elim (OneOf-of_mem_text value required_risk_tiers h) [
  | inl e ↦ subst IsRate (sym e) (low, refl)
  | inr (inl e) ↦ subst IsRate (sym e) (medium, refl)
  | inr (inr (inl e)) ↦ subst IsRate (sym e) (high, refl)
  | inr (inr (inr e)) ↦ absurd e
]

fault_applies :
    (f : FaultType) (r : FaultRate) (s : ServiceState)
    → (same_fault disk_full f ≡ false) ⊎ (s.has_disk ≡ true)
    → (reply : FaultReply) × ((admin_fault f r s).0 ≡ ok reply)
unfolding admin_fault apply_fault
fault_applies memory_leak r s h = (_, refl)
fault_applies high_error_rate r s h = (_, refl)
fault_applies cpu_spike r s h = (_, refl)
fault_applies service_down r s h = (_, refl)
fault_applies disk_full r s (inl e) = absurd (ground (arith, e))
fault_applies disk_full r s (inr has) = rw has (_, refl)

inject_runs :
    (service type rate : String) (w : World) (s : ServiceState) (f : FaultType) (r : FaultRate)
    → lookup service w.clients ≡ some s
    → parse_fault_type type ≡ ok f
    → parse_fault_rate rate ≡ ok r
    → (same_fault disk_full f ≡ false) ⊎ (s.has_disk ≡ true)
    → (reply : FaultReply) × ((inject service type rate w).0 ≡ ok reply)
unfolding inject require_client request
inject_runs service type rate w s f r found ft fr h =
    let (reply, ran) = fault_applies f r s h in (reply, ground (arith, found, ft, fr, ran))

pub known-some :
    (o : Option String) (names : List String)
    → known o names ≡ true
    → (s : String) × (o ≡ some s) × (mem_text s names ≡ true)
known-some none names h = absurd (ground (arith, h))
known-some (some s) names h = (s, refl, h)

passes :
    (fault : Change)
    → validate_fault_injection fault ≡ []
    → (known fault.service known_services ≡ true)
      × (known fault.fault_type type_names ≡ true)
      × (known fault.rate required_risk_tiers ≡ true)
unfolding validate_fault_injection
passes fault h = (ground arith, ground arith, ground arith)

-- The last check of a fault, behind the others.
last_check :
    (a b c d e : Bool) (x y z t : ValidationError)
    → (if not a
        then x ∷ []
        else if not b
        then y ∷ []
        else (if not c then z ∷ [] else []) ++ (if d && not e then t ∷ [] else []))
      ≡ []
    → (d ≡ false) ⊎ (e ≡ true)
last_check a b c d e x y z t h = ground arith

passes_disk :
    (fault : Change) (service type : String)
    → fault.service ≡ some service
    → fault.fault_type ≡ some type
    → validate_fault_injection fault ≡ []
    → (str_eq type "disk_full" ≡ false) ⊎ (has_disk service ≡ true)
unfolding validate_fault_injection
passes_disk fault service type fs ft h =
    last_check (mem_text service known_services) (mem_text type type_names) _ _ _ _ _ _ _
      (rw (fs, ft) at h)

-- In a sandbox where every known service has a client and a disk as the registry says, a fault that the validation accepts is injected without an error.
pub validated_fault_injects :
    (fault : Change) (w : World)
    → IsReady w
    → validate_fault_injection fault ≡ []
    → (service : String) × (type : String) × (rate : String) × (fault.service ≡ some service)
      × (fault.fault_type ≡ some type)
      × (fault.rate ≡ some rate)
      × ((reply : FaultReply) × ((inject service type rate w).0 ≡ ok reply))
validated_fault_injects fault w ready valid =
    let (a, b, c) = passes fault valid in
    let (service, fs, known_s) = known-some fault.service known_services a in
    let (type, ft, known_t) = known-some fault.fault_type type_names b in
    let (rate, fr, known_r) = known-some fault.rate required_risk_tiers c in
    let (f, parsed, same) = IsFault-known type known_t in
    let (r, rated) = IsRate-known rate known_r in
    elim (ready service) [
      | inl unknown ↦ absurd (ground (arith, known_s, unknown))
      | inr (s, found, disk) ↦ (
        service,
        type,
        rate,
        fs,
        ft,
        fr,
        inject_runs service type rate w s f r found parsed rated
            (ground (arith, same, disk, passes_disk fault service type fs ft valid)),
      )
    ]
