-- ===== src/Eval/Proposable.antt =====
-- What the validation of scenarios (src/eval/scenario_validation.py) and that of proposals
-- (src/revalidation/fingerprint.py) say of the same action.
use durable_approval_gated_r.Prelude.{
  ◌≡◌, ◌≢◌, ◌⊎◌, Bool, true, false, String, none, some, [], ◌∷◌, mem_text, str_eq, eq_iff, is_some,
  arith, not, if◌then◌else◌, ◌++◌,
}
use durable_approval_gated_r.Prelude.Dict.{lookup}
use durable_approval_gated_r.Act.{ok}
use durable_approval_gated_r.Action.{split_colon, split_action, known_tools, record_kinds}
use durable_approval_gated_r.Observations.{Observations, known_services}
use durable_approval_gated_r.Fingerprint.{no_disk_surface, validate_proposal}
use durable_approval_gated_r.Eval.Validation.{ValidationError, validate_action_ref}

-- Every known service was observed.
abbrev pub HasServices : Observations → Type 0
HasServices o =
    (service : String)
    → (mem_text service known_services ≡ false) ⊎ (is_some (lookup service o.services) ≡ true)

ref_checks :
    (a b c d e : Bool) (x y z : ValidationError)
    → b ≡ false
    → (if not a then x ∷ [] else [])
        ++ (if b
            then []
            else if c
            then (if not d then y ∷ [] else [])
            else (if not e then z ∷ [] else []))
      ≡ []
    → (a ≡ true) × (((c ≡ true) × (d ≡ true)) ⊎ ((c ≡ false) × (e ≡ true)))
ref_checks a b c d e x y z plain h = ground arith

ref_is_grounded :
    (action tool target : String)
    → split_colon action ≡ some (tool, target)
    → target ≢ "*"
    → validate_action_ref action ≡ []
    → (mem_text tool known_tools ≡ true)
      × (((str_eq tool "delete_records" ≡ true) × (mem_text target record_kinds ≡ true))
          ⊎ ((str_eq tool "delete_records" ≡ false) × (mem_text target known_services ≡ true)))
unfolding validate_action_ref
ref_is_grounded action tool target split wild valid =
    ref_checks (mem_text tool known_tools) (str_eq target "*") (str_eq tool "delete_records")
      (mem_text target record_kinds) (mem_text target known_services) _ _ _
      (ground (arith, eq_iff target "*")) (rw split at valid)

-- An action with a target that the validation of scenarios accepts is, where every known service was
-- observed, also a valid proposal, or it is refused for the one reason that the target has no disk.
pub accepted_ref_is_valid :
    (o : Observations) (action tool target : String)
    → HasServices o
    → split_colon action ≡ some (tool, target)
    → target ≢ "*"
    → validate_action_ref action ≡ []
    → (validate_proposal o action ≡ ok none)
      ⊎ (validate_proposal o action ≡ ok (some (no_disk_surface target)))
unfolding validate_proposal split_action
accepted_ref_is_valid o action tool target seen split wild valid =
    let grounded = ref_is_grounded action tool target split wild valid in
    rw split (ground (arith, grounded, seen target))
