-- ===== src/Tools/Once.antt =====
-- Exactly-once execution of an action: src/tools/mutating.py behind `execute_action` of
-- src/agent/execution.py, in src/agent/nodes.py's `execute`.
use durable_approval_gated_r.Prelude.{
  ℕ, String, ◌≡◌, refl, ◌∙◌, sym, ap, subst, ◌⊎◌, inl, inr, Option, none, some, List, Bool-cases,
  Option-cases, str_eq,
}
use durable_approval_gated_r.Act.{
  Error, ok, raised, required, Act, pure, lift, ◌>>=◌, Result-cases, raised-ne-ok,
}
use durable_approval_gated_r.Action.{split_action}
use durable_approval_gated_r.Records.{Row}
use durable_approval_gated_r.World.{ToolResult, Compensation, Execution, World, store_get}
use durable_approval_gated_r.Tools.Mutating.{
  MutationResult, delete_found, restart_service, scale_service, delete_records, clear_cache,
  apply_config_change, rollback_deployment,
}
use durable_approval_gated_r.Tools.Idempotent.{
  KeepsStore, store_rules, IsIdempotent, run_idempotent-IsIdempotent,
}
use durable_approval_gated_r.Execution.{Parameters, dispatch, execute_action}

KeepsStore-delete_found : (kind : String) (rows : List Row) → KeepsStore (delete_found kind rows)
KeepsStore-delete_found kind rows = record { at = λ w. refl }

module _ (target key : String) where
  restart_service-IsIdempotent : IsIdempotent "restart_service" key (restart_service target key)
  unfolding restart_service
  restart_service-IsIdempotent = run_idempotent-IsIdempotent _ key _ _ (search store_rules)

  scale_service-IsIdempotent :
      (n : ℕ) → IsIdempotent "scale_service" key (scale_service target n key)
  unfolding scale_service
  scale_service-IsIdempotent n = run_idempotent-IsIdempotent _ key _ _ (search store_rules)

  delete_records-IsIdempotent :
      (ids : Option (List ℕ)) → IsIdempotent "delete_records" key (delete_records target ids key)
  unfolding delete_records
  delete_records-IsIdempotent ids =
      run_idempotent-IsIdempotent _ key _ _ (search (store_rules, KeepsStore-delete_found))

  clear_cache-IsIdempotent : IsIdempotent "clear_cache" key (clear_cache target key)
  unfolding clear_cache
  clear_cache-IsIdempotent = run_idempotent-IsIdempotent _ key _ _ (search store_rules)

  apply_config_change-IsIdempotent :
      (name value : String)
      → IsIdempotent "apply_config_change" key (apply_config_change target name value key)
  unfolding apply_config_change
  apply_config_change-IsIdempotent name value =
      run_idempotent-IsIdempotent _ key _ _ (search store_rules)

  rollback_deployment-IsIdempotent :
      IsIdempotent "rollback_deployment" key (rollback_deployment target key)
  unfolding rollback_deployment
  rollback_deployment-IsIdempotent = run_idempotent-IsIdempotent _ key _ _ (search store_rules)

  -- A dispatch raises and does nothing, or is a call that is idempotent on the key.
  abbrev IsOnce : Act World MutationResult → Type 0
  IsOnce m =
      ((x : Error) × ((w : World) → m w ≡ (raised x, w)))
      ⊎ ((tool : String) × IsIdempotent tool key m)

  config-IsOnce :
      (name value : Option String)
      → IsOnce (
          lift (required "key" name) >>= λ n.
          lift (required "value" value) >>= λ v. apply_config_change target n v key)
  config-IsOnce none value = inl (_, λ w. refl)
  config-IsOnce (some n) none = inl (_, λ w. refl)
  config-IsOnce (some n) (some v) = inr (_, apply_config_change-IsIdempotent n v)

  dispatch-IsOnce : (tool : String) (p : Parameters) → IsOnce (dispatch tool target p key)
  unfolding dispatch
  dispatch-IsOnce tool p = elim (Bool-cases (str_eq tool "restart_service")) [
    | inl a ↦ rw a (inr (_, restart_service-IsIdempotent))
    | inr a ↦ rw a (elim (Bool-cases (str_eq tool "scale_service")) [
      | inl b ↦ rw b (inr (_, scale_service-IsIdempotent _))
      | inr b ↦ rw b (elim (Bool-cases (str_eq tool "clear_cache")) [
        | inl c ↦ rw c (inr (_, clear_cache-IsIdempotent))
        | inr c ↦ rw c (elim (Bool-cases (str_eq tool "apply_config_change")) [
          | inl d ↦ rw d (config-IsOnce p.key p.value)
          | inr d ↦ rw d (elim (Bool-cases (str_eq tool "rollback_deployment")) [
            | inl e ↦ rw e (inr (_, rollback_deployment-IsIdempotent))
            | inr e ↦ rw e (elim (Bool-cases (str_eq tool "delete_records")) [
              | inl f ↦ rw f (inr (_, delete_records-IsIdempotent p.ids))
              | inr f ↦ rw f (inl (_, λ w. refl))
            ])
          ])
        ])
      ])
    ])
  ]

abbrev outcome_of : MutationResult → ToolResult × Compensation
outcome_of o = (o.result, o.compensation)

module _ (key : String) (tool : String) (m : Act World MutationResult)
    (i : IsIdempotent tool key m) where
  replayed :
      (w : World) (e : Execution)
      → store_get key w ≡ some e
      → (m >>= λ o. pure (outcome_of o)) w ≡ (ok (e.result, e.compensation), w)
  replayed w e h = rw (i.replays w e h) refl

  again :
      (w : World) (o : MutationResult)
      → store_get key w ≡ none
      → m w ≡ (ok o, (m w).1)
      → (m >>= λ o. pure (outcome_of o)) (m w).1 ≡ (ok (outcome_of o), (m w).1)
  again w o fresh ran =
      let (e, found, same_result, same_compensation) = i.records w (m w).1 fresh ran in
      replayed (m w).1 e found ∙ cc (same_result, same_compensation)

  once :
      (w w' : World) (out : ToolResult × Compensation)
      → (m >>= λ o. pure (outcome_of o)) w ≡ (ok out, w')
      → (m >>= λ o. pure (outcome_of o)) w' ≡ (ok out, w')
  once w w' out h = elim (Option-cases (store_get key w)) [
    | inr (e, found) ↦
        subst (λ v. (m >>= λ o. pure (outcome_of o)) v ≡ (ok out, w'))
          (ap (λ q. q.1) (sym (replayed w e found) ∙ h)) h
    | inl fresh ↦ elim (Result-cases (m w).0) [
      | inl (o, ran) ↦
          let then : (ok (outcome_of o), (m w).1) ≡ (ok out, w') = rw ran at h in
          subst (λ v. (m >>= λ o. pure (outcome_of o)) v ≡ (ok out, w')) (ap (λ q. q.1) then)
            (again w o fresh (λ j. (ran j, (m w).1)) ∙ then)
      | inr (x, failed) ↦ absurd (raised-ne-ok x (m w).1 w' out (rw failed at h))
    ]
  ]

module _ (key : String) (tool : String) (m : Act World MutationResult)
    (i : IsIdempotent tool key m) where
  leaves_row :
      (w w' : World) (out : ToolResult × Compensation)
      → (m >>= λ o. pure (outcome_of o)) w ≡ (ok out, w')
      → (e : Execution) × (store_get key w' ≡ some e)
  leaves_row w w' out h = elim (Option-cases (store_get key w)) [
    | inr (e, found) ↦ (
      e,
      subst (λ v. store_get key v ≡ some e)
          (ap (λ q. q.1) (sym (replayed key tool m i w e found) ∙ h)) found,
    )
    | inl fresh ↦ elim (Result-cases (m w).0) [
      | inl (o, ran) ↦
          let (e, found, r, c) = i.records w (m w).1 fresh (λ j. (ran j, (m w).1)) in
          let then : (ok (outcome_of o), (m w).1) ≡ (ok out, w') = rw ran at h in
          (e, subst (λ v. store_get key v ≡ some e) (ap (λ q. q.1) then) found)
      | inr (x, failed) ↦ absurd (raised-ne-ok x (m w).1 w' out (rw failed at h))
    ]
  ]

-- An action that was executed has a row in the ledger.
pub executed_has_row :
    (action : String) (p : Parameters) (key : String) (w w' : World)
    (out : ToolResult × Compensation)
    → execute_action action p key w ≡ (ok out, w')
    → (e : Execution) × (store_get key w' ≡ some e)
unfolding execute_action
executed_has_row action p key w w' out h = elim (Result-cases (split_action action)) [
  | inr (x, bad) ↦ absurd (raised-ne-ok x w w' out (rw bad at h))
  | inl ((tool, target), split) ↦ elim (dispatch-IsOnce target key tool p) [
    | inl (x, stops) ↦ absurd (raised-ne-ok x w w' out (rw (split, stops w) at h))
    | inr (name, i) ↦ leaves_row key name (dispatch tool target p key) i w w' out (rw split at h)
  ]
]

-- A call whose key is in the ledger leaves the whole sandbox as it is, whatever its parameters, and
-- returns the recorded result and compensation, or raises.
pub execute_action-replay :
    (action : String) (p : Parameters) (key : String) (w : World) (e : Execution)
    → store_get key w ≡ some e
    → ((execute_action action p key w).1 ≡ w)
      × (((execute_action action p key w).0 ≡ ok (e.result, e.compensation))
          ⊎ ((x : Error) × ((execute_action action p key w).0 ≡ raised x)))
unfolding execute_action
execute_action-replay action p key w e h = elim (Result-cases (split_action action)) [
  | inr (x, bad) ↦ rw bad (refl, inr (x, refl))
  | inl ((tool, target), split) ↦ rw split (elim (dispatch-IsOnce target key tool p) [
    | inl (x, stops) ↦ rw (stops w) (refl, inr (x, refl))
    | inr (name, i) ↦ rw (i.replays w e h) (refl, inl refl)
  ])
]

-- Once an action has been executed and recorded, to execute it again under its key, with the same
-- parameters, returns the same and changes nothing: what a node that is run again after a kill relies on.
pub execute_action_once :
    (action : String) (p : Parameters) (key : String) (w w' : World)
    (out : ToolResult × Compensation)
    → execute_action action p key w ≡ (ok out, w')
    → execute_action action p key w' ≡ (ok out, w')
unfolding execute_action
execute_action_once action p key w w' out h = elim (Result-cases (split_action action)) [
  | inr (x, bad) ↦ absurd (raised-ne-ok x w w' out (rw bad at h))
  | inl ((tool, target), split) ↦ rw split (elim (dispatch-IsOnce target key tool p) [
    | inl (x, stops) ↦ absurd (raised-ne-ok x w w' out (rw (split, stops w) at h))
    | inr (name, i) ↦ once key name (dispatch tool target p key) i w w' out (rw split at h)
  ])
]
