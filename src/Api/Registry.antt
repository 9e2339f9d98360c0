-- ===== src/Api/Registry.antt =====
-- `PostgresRunRegistry` of src/api/run_registry.py. The database is not code of the repository: its
-- statements are the operations of a driver, and `IsSql` is what SQL says of them, where no two
-- transactions have the same `now()`.
use durable_approval_gated_r.Prelude.{
  String, ◌≡◌, not, Option, none, some, List, [], ◌∷◌, ◌++◌, filter, if◌then◌else◌, str_eq,
}
use durable_approval_gated_r.Prelude.Dict.{Dict, lookup, insert}
use durable_approval_gated_r.Api.{RunStatusResponse, is_waiting, upsert, list_pending_approval}

-- The statements of the class. A row has `RUN_FIELDS`.
pub record Driver : Type 1 where
  pub Db : Type 0
  -- `SELECT ... FROM runs ORDER BY updated_at`, of which the others speak
  pub rows : Db → List RunStatusResponse
  -- `INSERT INTO runs (...) VALUES (...) ON CONFLICT (run_id) DO UPDATE SET ..., updated_at = now()`
  pub upsert_row : RunStatusResponse → Db → Db
  -- `SELECT ... FROM runs WHERE run_id = $1`
  pub select_run : String → Db → Option RunStatusResponse
  -- `SELECT ... FROM runs WHERE status = 'AWAITING_APPROVAL' ORDER BY updated_at`
  pub select_waiting : Db → List RunStatusResponse

-- The rows of other runs.
abbrev pub others : String → List RunStatusResponse → List RunStatusResponse
others id rows = filter (λ r. not (str_eq r.run_id id)) rows

unfoldable pub find_run : String → List RunStatusResponse → Option RunStatusResponse
find_run id [] = none
find_run id (r ∷ rows) = if str_eq r.run_id id then some r else find_run id rows

-- What SQL says of the statements: an upsert makes the row the last one updated.
pub record IsSql (d : Driver) : Type 0 where
  pub upsert_row_lem :
      (r : RunStatusResponse) (db : d.Db)
      → d.rows (d.upsert_row r db) ≡ others r.run_id (d.rows db) ++ r ∷ []
  pub select_run_lem : (id : String) (db : d.Db) → d.select_run id db ≡ find_run id (d.rows db)
  pub select_waiting_lem :
      (db : d.Db) → d.select_waiting db ≡ filter (λ r. is_waiting r.status) (d.rows db)

module _ (d : Driver) where
  abbrev pub postgres_upsert : RunStatusResponse → d.Db → d.Db
  postgres_upsert row db = d.upsert_row row db

  abbrev pub postgres_get : String → d.Db → Option RunStatusResponse
  postgres_get id db = d.select_run id db

  abbrev pub postgres_list_pending_approval : d.Db → List RunStatusResponse
  postgres_list_pending_approval db = d.select_waiting db

-- The methods of `RunRegistry`, and what they return.
pub data Call : Type 0 where
  upsert_call : RunStatusResponse → Call
  get_call : String → Call
  list_call : Call

pub data Answer : Type 0 where
  run_of : Option RunStatusResponse → Answer
  waiting_runs : List RunStatusResponse → Answer

-- What `InMemoryRunRegistry` answers to calls.
unfoldable pub answers : List Call → Dict RunStatusResponse → List Answer
unfolding lookup insert
answers [] runs = []
answers (upsert_call row ∷ calls) runs = answers calls (upsert row runs)
answers (get_call id ∷ calls) runs = run_of (lookup id runs) ∷ answers calls runs
answers (list_call ∷ calls) runs = waiting_runs (list_pending_approval runs) ∷ answers calls runs

-- What `PostgresRunRegistry` answers to calls.
unfoldable pub sql_answers : (d : Driver) → List Call → d.Db → List Answer
sql_answers d [] db = []
sql_answers d (upsert_call row ∷ calls) db = sql_answers d calls (postgres_upsert d row db)
sql_answers d (get_call id ∷ calls) db = run_of (postgres_get d id db) ∷ sql_answers d calls db
sql_answers d (list_call ∷ calls) db =
    waiting_runs (postgres_list_pending_approval d db) ∷ sql_answers d calls db
