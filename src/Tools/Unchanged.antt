-- ===== src/Tools/Unchanged.antt =====
-- The actions that leave the sandbox as it is: the read-only tools, the sweep, and the verification.
use durable_approval_gated_r.Prelude.{
  ℕ, String, ◌≡◌, refl, ◌∙◌, inl, inr, Bool, true, false, List, [], ◌∷◌, Option-cases, Bool-cases,
  if◌then◌else◌,
}
use durable_approval_gated_r.Prelude.Dict.{lookup, insert-lookup_self}
use durable_approval_gated_r.Act.{Result, ok, raised, Act, pure, lift, gets, go_on, ◌>>=◌}
use durable_approval_gated_r.Service.{ServiceState}
use durable_approval_gated_r.App.{get_health, get_metrics, get_logs, get_disk}
use durable_approval_gated_r.World.{ToolResult, request}
use durable_approval_gated_r.Tools.Readonly.{
  get_service_health, read_logs, read_metrics, query_db_readonly, check_disk_usage,
}
use durable_approval_gated_r.Observations.{
  disk_if, known_services, observe, observe_all, gather_observations,
}
use durable_approval_gated_r.Execution.{none_remain, verify_action}

-- An action that returns the object it was given, whether it returns or raises.
pub record Keeps {ℓ κ} {S : Type ℓ} {A : Type κ} (m : Act S A) : Type ℓ where
  pub at : (s : S) → (m s).1 ≡ s

module _ {ℓ κ} {S : Type ℓ} {A : Type κ} where
  pub Keeps-pure : (a : A) → Keeps {S = S} (pure a)
  Keeps-pure a = record { at = λ s. refl }

  pub Keeps-lift : (r : Result A) → Keeps {S = S} (lift r)
  Keeps-lift r = record { at = λ s. refl }

  pub Keeps-gets : (f : S → A) → Keeps (gets f)
  Keeps-gets f = record { at = λ s. refl }

  pub Keeps-if : (b : Bool) (m n : Act S A) → Keeps m → Keeps n → Keeps (if b then m else n)
  Keeps-if true m n km kn = km
  Keeps-if false m n km kn = kn

module _ {ℓ κ μ} {S : Type ℓ} {A : Type κ} {B : Type μ} where
  go_on-Keeps : (r : Result A) (f : A → Act S B) → ((a : A) → Keeps (f a)) → Keeps (go_on r f)
  go_on-Keeps (ok a) f kf = kf a
  go_on-Keeps (raised e) f kf = record { at = λ s. refl }

  pub Keeps-bind :
      (m : Act S A) (f : A → Act S B) → Keeps m → ((a : A) → Keeps (f a)) → Keeps (m >>= f)
  Keeps-bind m f km kf = record { at = λ s. (go_on-Keeps (m s).0 f kf).at (m s).1 ∙ km.at s }

pub Keeps-request {ℓ} :
    {A : Type ℓ} (service : String) (handler : Act ServiceState A)
    → Keeps handler
    → Keeps (request service handler)
unfolding request
Keeps-request service handler k = record {
  at = λ w. elim (Option-cases (lookup service w.clients)) [
    | inl e ↦ rw e
    | inr (s, e) ↦ rw e (rw (k.at s) (rw (insert-lookup_self service s w.clients e)))
  ];
}

pub Keeps-get_health : Keeps get_health
unfolding get_health
Keeps-get_health = Keeps-gets _

pub Keeps-get_metrics : Keeps get_metrics
unfolding get_metrics
Keeps-get_metrics = record { at = λ s. refl }

pub Keeps-get_logs : (limit : ℕ) → Keeps (get_logs limit)
unfolding get_logs
Keeps-get_logs limit = Keeps-gets _

pub Keeps-get_disk : Keeps get_disk
unfolding get_disk
Keeps-get_disk = record { at = λ s. elim (Bool-cases s.has_disk) [ inl e ↦ rw e | inr e ↦ rw e ] }

pub ruleset keeps_rules = (
  Keeps-pure, Keeps-lift, Keeps-gets, Keeps-if, Keeps-bind, Keeps-request, Keeps-get_health,
  Keeps-get_metrics, Keeps-get_logs, Keeps-get_disk,
)

Keeps-disk_if : (b : Bool) (service : String) → Keeps (disk_if b service)
unfolding check_disk_usage
Keeps-disk_if true service = search keeps_rules
Keeps-disk_if false service = search keeps_rules

Keeps-observe : (service : String) → Keeps (observe service)
unfolding observe get_service_health read_metrics read_logs
Keeps-observe service = search (keeps_rules, Keeps-disk_if)

Keeps-observe_all : (services : List String) → Keeps (observe_all services)
unfolding observe_all
Keeps-observe_all [] = search keeps_rules
Keeps-observe_all (service ∷ services) =
    Keeps-bind (observe service) _ (Keeps-observe service) (λ obs.
      Keeps-bind (observe_all services) _ (Keeps-observe_all services) (λ rest. Keeps-pure _))

-- The diagnostic sweep leaves the sandbox as it is, also where it raises.
pub Keeps-gather_observations : Keeps gather_observations
unfolding gather_observations query_db_readonly
Keeps-gather_observations =
    Keeps-bind (observe_all known_services) _ (Keeps-observe_all known_services)
      (λ services. search keeps_rules)

Keeps-none_remain : (target : String) (ids : List ℕ) → Keeps (none_remain target ids)
unfolding query_db_readonly
Keeps-none_remain target [] = search keeps_rules
Keeps-none_remain target (id ∷ ids) = search keeps_rules

pub Keeps-verify_action :
    (action : String) (result : ToolResult) → Keeps (verify_action action result)
unfolding verify_action get_service_health
Keeps-verify_action action result = search (keeps_rules, Keeps-none_remain)
