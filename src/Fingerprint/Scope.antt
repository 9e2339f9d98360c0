-- ===== src/Fingerprint/Scope.antt =====
-- What the fingerprint of src/revalidation/fingerprint.py depends on, and when it is defined.
use durable_approval_gated_r.Prelude.{
  String, ◌≡◌, ◌≢◌, refl, sym, subst, ◌∙◌, not, inl, inr, Bool, true, false, Option, none, some,
  List, mem_text, OneOf, OneOf-of_mem_text, arith, eq_iff, if◌then◌else◌,
}
use durable_approval_gated_r.Prelude.Dict.{lookup, insert, lookup-insert}
use durable_approval_gated_r.Act.{Error, ok, raised, Result-cases, raised≢ok, ok-injective}
use durable_approval_gated_r.Action.{known_tools, split_action}
use durable_approval_gated_r.Records.{Row}
use durable_approval_gated_r.Observations.{ServiceObs, Observations}
use durable_approval_gated_r.Fingerprint.{
  Fields, InvalidReason, service_fields, relevant_fields, validate, validate_proposal,
  compute_fingerprint,
}

-- Behind a refusal that was not made.
passed :
    (b : Bool) (r : InvalidReason) (rest : Option InvalidReason)
    → (if not b then some r else rest) ≡ none
    → b ≡ true
passed true r rest h = refl
passed false r rest h = cc

module _ (o : Observations) (target : String) where
  -- No lookup fails for a valid proposal with the tool.
  abbrev IsTotalFor : String → Type 0
  IsTotalFor tool =
      (x : Error) → validate o tool target ≡ none → relevant_fields o tool target ≡ raised x → ⊥

  restart_total : IsTotalFor "restart_service"
  unfolding relevant_fields
  restart_total x h e = ground arith

  scale_total : IsTotalFor "scale_service"
  unfolding relevant_fields
  scale_total x h e = ground arith

  delete_total : IsTotalFor "delete_records"
  unfolding relevant_fields
  delete_total x h e = cc

  clear_total : IsTotalFor "clear_cache"
  unfolding relevant_fields
  clear_total x h e = ground arith

  config_total : IsTotalFor "apply_config_change"
  unfolding relevant_fields
  config_total x h e = ground arith

  rollback_total : IsTotalFor "rollback_deployment"
  unfolding relevant_fields
  rollback_total x h e = ground arith

  known_total : (tool : String) → OneOf tool known_tools → IsTotalFor tool
  known_total tool (inl e) = subst IsTotalFor (sym e) restart_total
  known_total tool (inr (inl e)) = subst IsTotalFor (sym e) scale_total
  known_total tool (inr (inr (inl e))) = subst IsTotalFor (sym e) delete_total
  known_total tool (inr (inr (inr (inl e)))) = subst IsTotalFor (sym e) clear_total
  known_total tool (inr (inr (inr (inr (inl e))))) = subst IsTotalFor (sym e) config_total
  known_total tool (inr (inr (inr (inr (inr (inl e)))))) = subst IsTotalFor (sym e) rollback_total
  known_total tool (inr (inr (inr (inr (inr (inr e)))))) = absurd e

  valid_total : (tool : String) → IsTotalFor tool
  valid_total tool x h e =
      known_total tool
        (OneOf-of_mem_text tool known_tools (passed (mem_text tool known_tools) _ _ h)) x h e

module _ (digest : Fields → String) where
  -- A proposal that is found valid has a fingerprint: none of the lookups behind it fails.
  pub validated_has_fingerprint :
      (o : Observations) (action : String)
      → validate_proposal o action ≡ ok none
      → (f : String) × (compute_fingerprint digest o action ≡ ok f)
  unfolding validate_proposal compute_fingerprint
  validated_has_fingerprint o action h = elim (Result-cases (split_action action)) [
    | inr (y, bad) ↦ absurd (raised≢ok y none (rw bad at h))
    | inl ((tool, target), split) ↦ elim (Result-cases (relevant_fields o tool target)) [
      | inl (fields, total) ↦ (digest fields, rw split (rw total refl))
      | inr (y, fails) ↦ absurd (valid_total o target tool y (ok-injective (rw split at h)) fails)
    ]
  ]

  -- What is observed of another service does not count, whatever the tool.
  pub other_service_is_irrelevant :
      (o : Observations) (action tool target other : String) (obs : ServiceObs)
      → split_action action ≡ ok (tool, target)
      → other ≢ target
      → compute_fingerprint digest (record o { services = insert other obs o.services }) action
        ≡ compute_fingerprint digest o action
  unfolding compute_fingerprint relevant_fields service_fields
  other_service_is_irrelevant o action tool target other obs split differs =
      let same : lookup target (insert other obs o.services) ≡ lookup target o.services =
        lookup-insert other target obs o.services ∙ ground (arith, eq_iff other target) in
      rw (split, same) refl

  -- The records count for a deletion of records alone.
  pub records_are_irrelevant :
      (o : Observations) (action tool target : String) (rows : List Row)
      → split_action action ≡ ok (tool, target)
      → tool ≢ "delete_records"
      → compute_fingerprint digest (record o { records = rows }) action
        ≡ compute_fingerprint digest o action
  unfolding compute_fingerprint relevant_fields
  records_are_irrelevant o action tool target rows split differs =
      rw split (ground (arith, eq_iff tool "delete_records"))
