-- ===== src/Execution/Undo.antt =====
-- What the registered compensations of src/tools/mutating.py undo, by `apply_compensation` of
-- src/agent/execution.py.
use durable_approval_gated_r.Prelude.{
  ℕ, String, ◌≡◌, ap, List, map, take, filter, Option, sym, ◌∙◌, none, some, [], ◌∷◌, arith,
  Option-cases, inl, inr, eq_iff, str_eq,
}
use durable_approval_gated_r.Prelude.Dict.{Dict, lookup, insert, lookup-insert, insert-lookup_self}
use durable_approval_gated_r.Act.{Act, raised, http_status, ◌>>=◌}
use durable_approval_gated_r.Service.{ServiceState, scale, set_config}
use durable_approval_gated_r.App.{post_scale, post_config}
use durable_approval_gated_r.World.{World, request, store_get, store_record}
use durable_approval_gated_r.Tools.Mutating.{
  MutationResult, run_idempotent, rows_to_delete, delete_records, scale_service,
  apply_config_change,
}
use durable_approval_gated_r.Records.{Repository, get_by_kind, sorted_by_id, delete, insert_many}
use durable_approval_gated_r.Records.Table.{HasDistinctIds, filter-sorted_by_id}
use durable_approval_gated_r.Records.Lookup.{AreDistinct}
use durable_approval_gated_r.Records.Reinsert.{AreOwn, sorted_by_id-reinserted}
use durable_approval_gated_r.Records.Own.{get_by_kind-AreOwn, get_by_ids-AreOwn}
use durable_approval_gated_r.Execution.{RollbackResult, apply_compensation}

-- A mutating tool, then the compensation it has registered.
unfoldable pub undo : Act World MutationResult → Act World RollbackResult
undo mutation = do out ← mutation; apply_compensation out.compensation

insert_twice :
    {V : Type 0} (k : String) (u v : V) (d : Dict V) → insert k u (insert k v d) ≡ insert k u d
unfolding insert
insert_twice k u v [] = ground (arith, eq_iff k k)
insert_twice k u v ((i, x) ∷ d) = ground (arith, eq_iff i k, insert_twice k u v d)

-- What a run of `scale_service` with a fresh idempotency key changes, the call of its compensation
-- changes back, at every client.
pub scale_is_undone :
    (service : String) (n : ℕ) (key : String) (w : World) (j : String)
    → store_get key w ≡ none
    → lookup j (undo (scale_service service n key) w).1.clients ≡ lookup j w.clients
unfolding undo scale_service run_idempotent request store_record post_scale scale apply_compensation
scale_is_undone service n key w j fresh = elim (Option-cases (lookup service w.clients)) [
  | inl missing ↦ rw (fresh, missing)
  | inr (s, found) ↦ ground (
    fresh,
    found,
    arith,
    eq_iff service j,
    eq_iff service service,
    lookup-insert service j s w.clients,
    insert_twice service s (record s { replicas = n }) w.clients,
    lookup-insert service service (record s { replicas = n }) w.clients,
  )
]

-- When the service has a value at the key, a run of `apply_config_change` with a fresh idempotency
-- key and the call of its compensation leave every client as it was.
pub config_is_undone :
    (service name value old key : String) (s : ServiceState) (w : World) (j : String)
    → store_get key w ≡ none
    → lookup service w.clients ≡ some s
    → lookup name s.config ≡ some old
    → lookup j (undo (apply_config_change service name value key) w).1.clients ≡ lookup j w.clients
unfolding undo apply_config_change run_idempotent request store_record post_config set_config
    apply_compensation
config_is_undone service name value old key s w j fresh found had =
    let changed = record s { config = insert name value s.config } in
    ground (
      fresh,
      found,
      had,
      arith,
      eq_iff service j,
      eq_iff service service,
      lookup-insert service service changed w.clients,
      lookup-insert service j s w.clients,
      insert_twice service s changed w.clients,
      insert_twice name old value s.config,
      insert-lookup_self name old s.config had,
    )

-- When the service has no value at the key, the compensation of `apply_config_change` writes null
-- back: the request is refused with 422, the compensation raises, and the new value stays.
pub new_config_is_not_undone :
    (service name value key : String) (s : ServiceState) (w : World)
    → store_get key w ≡ none
    → lookup service w.clients ≡ some s
    → lookup name s.config ≡ none
    → let after = undo (apply_config_change service name value key) w in
      (after.0 ≡ raised (http_status 422))
      × (lookup service after.1.clients ≡ some (record s { config = insert name value s.config }))
unfolding undo apply_config_change run_idempotent request store_record post_config set_config
    apply_compensation
new_config_is_not_undone service name value key s w fresh found missing =
    let changed = record s { config = insert name value s.config } in
    ground (
      fresh,
      found,
      missing,
      arith,
      eq_iff service service,
      lookup-insert service service changed w.clients,
      insert_twice service changed changed w.clients,
    )

-- The ids of a proposal, where it names some, are distinct.
abbrev pub NamesOnce : Option (List ℕ) → Type 0
NamesOnce none = Unit
NamesOnce (some ids) = AreDistinct ids

rows_to_delete-AreOwn :
    (kind : String) (ids : Option (List ℕ)) (w : World)
    → NamesOnce ids
    → HasDistinctIds w.records.rows
    → AreOwn (rows_to_delete kind ids w) w.records.rows
rows_to_delete-AreOwn kind none w once u = get_by_kind-AreOwn kind 1000000 w.records u
rows_to_delete-AreOwn kind (some ids) w once u = get_by_ids-AreOwn ids w.records once

get_by_kind-sorted_by_id :
    (kind : Option String) (limit : ℕ) (before after : Repository)
    → sorted_by_id after.rows ≡ sorted_by_id before.rows
    → get_by_kind kind limit after ≡ get_by_kind kind limit before
unfolding get_by_kind
get_by_kind-sorted_by_id none limit before after h = ap (take limit) h
get_by_kind-sorted_by_id (some kind) limit before after h = ap (take limit) (
    sym (filter-sorted_by_id (λ r. str_eq r.kind kind) after.rows)
    ∙ ap (filter (λ r. str_eq r.kind kind)) h
    ∙ filter-sorted_by_id (λ r. str_eq r.kind kind) before.rows)

-- In a table that has each id once, a run of `delete_records` of a kind, or of distinct ids, with a
-- fresh idempotency key and the insertion of its compensation leave the table as it was: every query,
-- of any kind and with any limit, finds the rows that it found before.
pub deletion_is_undone :
    (kind : String) (ids : Option (List ℕ)) (key : String) (w : World) (wanted : Option String)
    (limit : ℕ)
    → store_get key w ≡ none
    → NamesOnce ids
    → HasDistinctIds w.records.rows
    → get_by_kind wanted limit (undo (delete_records kind ids key) w).1.records
      ≡ get_by_kind wanted limit w.records
unfolding undo delete_records run_idempotent store_record apply_compensation delete
deletion_is_undone kind ids key w wanted limit fresh once u =
    let rows = rows_to_delete kind ids w in
    rw fresh (
      get_by_kind-sorted_by_id wanted limit w.records
        (insert_many rows (delete (map (λ r. r.id) rows) w.records))
        (sorted_by_id-reinserted rows w.records.rows w.records.next_id u
          (rows_to_delete-AreOwn kind ids w once u)))
