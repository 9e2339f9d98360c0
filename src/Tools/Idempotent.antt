-- ===== src/Tools/Idempotent.antt =====
-- The promise of src/tools/mutating.py: a call whose key is in the ledger acts no more and returns what
-- the first call returned.
use durable_approval_gated_r.Prelude.{
  String, ◌≡◌, refl, ◌∙◌, ap, subst, inl, inr, none, some, Option-cases, arith, eq_refl,
}
use durable_approval_gated_r.Prelude.Dict.{lookup, lookup-insert}
use durable_approval_gated_r.Act.{Result, ok, raised, Act, pure, gets, go_on, ◌>>=◌}
use durable_approval_gated_r.Service.{ServiceState}
use durable_approval_gated_r.World.{
  ToolResult, Compensation, ToolArgs, Execution, World, request, store_get, store_record,
}
use durable_approval_gated_r.Tools.Mutating.{MutationResult, replay, persist, run_idempotent}

-- An action that leaves the ledger as it is.
pub record KeepsStore {A : Type 0} (m : Act World A) : Type 0 where
  pub at : (w : World) → (m w).1.store ≡ w.store

module _ {A B : Type 0} where
  go_on-KeepsStore :
      (r : Result A) (f : A → Act World B) → ((a : A) → KeepsStore (f a)) → KeepsStore (go_on r f)
  go_on-KeepsStore (ok a) f kf = kf a
  go_on-KeepsStore (raised e) f kf = record { at = λ w. refl }

  pub KeepsStore-bind :
      (m : Act World A) (f : A → Act World B)
      → KeepsStore m
      → ((a : A) → KeepsStore (f a))
      → KeepsStore (m >>= f)
  KeepsStore-bind m f km kf = record {
    at = λ w. (go_on-KeepsStore (m w).0 f kf).at (m w).1 ∙ km.at w;
  }

module _ {A : Type 0} where
  pub KeepsStore-pure : (a : A) → KeepsStore (pure a)
  KeepsStore-pure a = record { at = λ w. refl }

  pub KeepsStore-gets : (f : World → A) → KeepsStore (gets f)
  KeepsStore-gets f = record { at = λ w. refl }

  pub KeepsStore-request :
      (service : String) (handler : Act ServiceState A) → KeepsStore (request service handler)
  unfolding request
  KeepsStore-request service handler = record {
    at = λ w. elim (Option-cases (lookup service w.clients)) [ inl e ↦ rw e | inr (s, e) ↦ rw e ];
  }

pub ruleset store_rules = (KeepsStore-bind, KeepsStore-pure, KeepsStore-gets, KeepsStore-request)

-- A call of a tool that is idempotent on its key: with a row in the ledger it is a replay, and without
-- one a call that returns leaves a row with what it returned.
pub record IsIdempotent (tool key : String) (m : Act World MutationResult) : Type 0 where
  pub replays :
      (w : World) (e : Execution) → store_get key w ≡ some e → m w ≡ (ok (replay tool key e), w)
  pub records :
      (w w' : World) {out : MutationResult}
      → store_get key w ≡ none
      → m w ≡ (ok out, w')
      → (e : Execution) × (store_get key w' ≡ some e)
        × (e.result ≡ out.result)
        × (e.compensation ≡ out.compensation)

store_get-store_record :
    (key : String) (row : Execution) (w : World)
    → store_get key w ≡ none
    → store_get key (store_record key row w) ≡ some row
unfolding store_get store_record
store_get-store_record key row w h = rw h (rw (lookup-insert key key row w.store, eq_refl key) refl)

persist_records :
    (tool key : String) (args : ToolArgs) (w w' : World) {out : MutationResult}
    (x : Result (ToolResult × Compensation) × World)
    → store_get key w ≡ none
    → x.1.store ≡ w.store
    → go_on x.0 (persist tool key args) x.1 ≡ (ok out, w')
    → (e : Execution) × (store_get key w' ≡ some e)
      × (e.result ≡ out.result)
      × (e.compensation ≡ out.compensation)
persist_records tool key args w w' (ok (result, comp), v) fresh same h =
    let row : Execution = record {
      tool_name = tool;
      args = args;
      result = result;
      compensation = comp;
    } in
    (
      row,
      subst (λ (u : World). store_get key u ≡ some row) (ap (λ p. p.1) h)
          (store_get-store_record key row v (unfold store_get in rw same fresh)),
      ground arith,
      ground arith,
    )
persist_records tool key args w w' (raised e, v) fresh same h = absurd (ground arith)

pub run_idempotent-IsIdempotent :
    (tool key : String) (args : ToolArgs) (perform : Act World (ToolResult × Compensation))
    → KeepsStore perform
    → IsIdempotent tool key (run_idempotent tool key args perform)
unfolding run_idempotent
run_idempotent-IsIdempotent tool key args perform k = record {
  replays = λ w e h. rw h refl;
  records =
      λ w w' fresh h. persist_records tool key args w w' (perform w) fresh (k.at w) (rw fresh at h);
}
