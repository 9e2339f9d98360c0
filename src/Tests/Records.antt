-- ===== src/Tests/Records.antt =====
-- A table that does what SQL says, with the seed rows of src/eval/runner.py.
use durable_approval_gated_r.Eval.Reset
use durable_approval_gated_r.Eval.Sandbox.{build_sandbox}
use durable_approval_gated_r.Prelude.{
  ℕ, ◌+◌, ◌≡◌, refl, sym, inl, inr, not, none, some, List, [], ◌∷◌, filter, take, mem_nat, str_eq,
  Bool-cases, if◌then◌else◌,
}
use durable_approval_gated_r.Records.{
  Row, Repository, insert_sorted, sorted_by_id, delete, delete_rows, pop_row, insert_many, put_row,
}
use durable_approval_gated_r.Records.Postgres.{Driver, IsSql, has_id}
use durable_approval_gated_r.Records.Table.{filter-sorted_by_id, has_id-sorted_by_id}
use durable_approval_gated_r.Records.Refines.{
  Call, by_kind, by_ids, deletion, insertion, AreAllowed, HasRows, answers, sql_answers,
  same_answers,
}

-- A heap of rows, sorted for every answer.
abbrev heap : Driver
heap = record {
  Db = List Row;
  rows = sorted_by_id;
  select = λ limit db. take limit (sorted_by_id db);
  select_kind = λ kind limit db. take limit (filter (λ r. str_eq r.kind kind) (sorted_by_id db));
  select_ids = λ ids db. filter (λ r. mem_nat r.id ids) (sorted_by_id db);
  delete_ids = λ ids db. filter (λ r. not (mem_nat r.id ids)) db;
  insert_row = λ r db. if has_id r.id db then db else r ∷ db;
}

heap_insertion :
    (r : Row) (db : List Row)
    → sorted_by_id (if has_id r.id db then db else r ∷ db) ≡ (
        if has_id r.id (sorted_by_id db)
        then sorted_by_id db
        else insert_sorted r (sorted_by_id db))
unfolding sorted_by_id
heap_insertion r db = elim (Bool-cases (has_id r.id db)) [
  | inl present ↦ rw (has_id-sorted_by_id r.id db, present) refl
  | inr new ↦ rw (has_id-sorted_by_id r.id db, new) refl
]

heap-IsSql : IsSql heap
heap-IsSql = record {
  select_lem = λ limit db. refl;
  select_kind_lem = λ kind limit db. refl;
  select_ids_lem = λ ids db. refl;
  delete_ids_lem = λ ids db. sym (filter-sorted_by_id (λ r. not (mem_nat r.id ids)) db);
  insert_row_lem = heap_insertion;
}

abbrev order_row : Row
order_row = record { id = 1; kind = "order"; payload = "order-1001: shipped" }

abbrev session_row : Row
session_row = record { id = 4; kind = "session"; payload = "session-a1: active" }

abbrev table : List Row
table = session_row ∷ order_row ∷ []

abbrev repository : Repository
repository = record { next_id = 5; rows = table }

-- A deletion that is undone.
abbrev calls : List Call
calls =
    by_kind (some "session") 100
    ∷ by_ids (4 ∷ 1 ∷ [])
    ∷ deletion (4 ∷ [])
    ∷ by_kind none 100
    ∷ insertion (session_row ∷ [])
    ∷ by_kind none 1
    ∷ []

calls-AreAllowed : AreAllowed calls repository
unfolding delete delete_rows pop_row insert_many put_row
calls-AreAllowed = ((refl, (refl, tt)), ((refl, tt), tt))

table-HasRows : HasRows heap table repository
table-HasRows = ((refl, (refl, tt)), refl)

same_answers_example : sql_answers heap calls table ≡ answers calls repository
same_answers_example =
    same_answers heap heap-IsSql calls table repository calls-AreAllowed table-HasRows

-- A table with a sequence, sorted for every answer.
abbrev numbered_heap : Reset.Driver
numbered_heap = record {
  Db = ℕ × List Row;
  rows = λ db. sorted_by_id db.1;
  next_id = λ db. db.0;
  truncate = λ db. (1, []);
  insert_next =
      λ kind payload db. (db.0 + 1, record { id = db.0; kind = kind; payload = payload } ∷ db.1);
}

numbered_heap-IsSerial : Reset.IsSerial numbered_heap
unfolding sorted_by_id
numbered_heap-IsSerial = record {
  truncate_rows = λ db. refl;
  truncate_next_id = λ db. refl;
  insert_next_rows = λ kind payload db. refl;
  insert_next_next_id = λ kind payload db. refl;
}

abbrev disturbed : ℕ × List Row
disturbed = (9, table)

reset_database-build_sandbox_example :
    sorted_by_id (Reset.reset_database numbered_heap disturbed).1
    ≡ sorted_by_id (build_sandbox []).records.rows
reset_database-build_sandbox_example =
    Reset.reset_database-build_sandbox numbered_heap numbered_heap-IsSerial disturbed
