-- ===== src/Audit/Chain.antt =====
-- Logs to which records are appended at the end: linked, in the order of time, of one run.
use durable_approval_gated_r.Prelude.{
  ℕ, String, ◌≡◌, refl, ◌≤◌, true, Option, none, some, List, [], ◌∷◌, ◌++◌, arith, str_eq, eq_refl,
  Bool-cases, inl, inr,
}
use durable_approval_gated_r.Agent.State.{State}
use durable_approval_gated_r.Audit.Hook.{AuditRecord, store_record, get_run}
use durable_approval_gated_r.Audit.Replay.{ordered, same_state, linked}

-- The last record, if there is one, ended in the state.
abbrev pub EndsAt : Option State → List AuditRecord → Type 0
EndsAt s [] = Unit
EndsAt s (r ∷ []) = r.to_state ≡ s
EndsAt s (r ∷ q ∷ records) = EndsAt s (q ∷ records)

-- In the order of time, and none after the time.
abbrev pub SortedTo : ℕ → List AuditRecord → Type 0
SortedTo now [] = Unit
SortedTo now (r ∷ []) = r.timestamp ≤ now
SortedTo now (r ∷ q ∷ records) = (r.timestamp ≤ q.timestamp) × SortedTo now (q ∷ records)

same_state_refl : (s : Option State) → same_state s s ≡ true
same_state_refl none = refl
same_state_refl (some s) = ground arith

pub linked-snoc :
    (records : List AuditRecord) (r : AuditRecord)
    → EndsAt r.from_state records
    → linked records ≡ true
    → linked (records ++ r ∷ []) ≡ true
linked-snoc [] r e h = refl
linked-snoc (p ∷ []) r e h = rw (e, same_state_refl r.from_state) refl
linked-snoc (p ∷ q ∷ records) r e h = ground (arith, linked-snoc (q ∷ records) r e)

pub EndsAt-snoc :
    (records : List AuditRecord) (r : AuditRecord) → EndsAt r.to_state (records ++ r ∷ [])
EndsAt-snoc [] r = refl
EndsAt-snoc (p ∷ []) r = refl
EndsAt-snoc (p ∷ q ∷ records) r = EndsAt-snoc (q ∷ records) r

pub SortedTo-snoc :
    (now : ℕ) (records : List AuditRecord) (r : AuditRecord)
    → SortedTo r.timestamp records
    → r.timestamp ≤ now
    → SortedTo now (records ++ r ∷ [])
SortedTo-snoc now [] r h l = l
SortedTo-snoc now (p ∷ []) r h l = (h, l)
SortedTo-snoc now (p ∷ q ∷ records) r h l = (h.0, SortedTo-snoc now (q ∷ records) r h.1 l)

SortedTo-later :
    (a b : ℕ) (records : List AuditRecord) → SortedTo a records → a ≤ b → SortedTo b records
SortedTo-later a b [] h l = tt
SortedTo-later a b (p ∷ []) h l = omega arith
SortedTo-later a b (p ∷ q ∷ records) h l = (h.0, SortedTo-later a b (q ∷ records) h.1 l)

-- Sorting a log that is in the order of time changes nothing.
pub ordered_of_SortedTo :
    (now : ℕ) (records : List AuditRecord) → SortedTo now records → ordered records ≡ records
unfolding ordered
ordered_of_SortedTo now [] h = refl
ordered_of_SortedTo now (p ∷ []) h = refl
ordered_of_SortedTo now (p ∷ q ∷ records) h =
    rw (ordered_of_SortedTo now (q ∷ records) h.1) (ground arith)

pub get_run-store_record :
    (run_id : String) (records : List AuditRecord) (r : AuditRecord)
    → r.run_id ≡ run_id
    → get_run run_id (store_record r records) ≡ get_run run_id records ++ r ∷ []
unfolding get_run store_record
get_run-store_record run_id [] r h = rw (h, eq_refl run_id) refl
get_run-store_record run_id (q ∷ records) r h = elim (Bool-cases (str_eq q.run_id run_id)) [
  | inl e ↦ rw (e, get_run-store_record run_id records r h) refl
  | inr e ↦ rw (e, get_run-store_record run_id records r h) refl
]
