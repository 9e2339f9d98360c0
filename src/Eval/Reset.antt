-- ===== src/Eval/Reset.antt =====
-- `reset_database` of src/env/db/reset.py. The statements are the operations of a driver, and `IsSerial`
-- is what SQL says of them: the table numbers new rows from 1 on.
use durable_approval_gated_r.Prelude.{ℕ, ◌+◌, String, ◌≡◌, refl, ◌∙◌, List, [], ◌∷◌}
use durable_approval_gated_r.Records.{
  Row, insert_sorted, sorted_by_id, put_row, insert_many, new_repository,
}
use durable_approval_gated_r.Eval.Sandbox.{build_sandbox}

-- The statements of the function.
pub record Driver : Type 1 where
  pub Db : Type 0
  -- `SELECT id, kind, payload FROM records ORDER BY id`
  pub rows : Db → List Row
  -- the next value of the table's sequence
  pub next_id : Db → ℕ
  -- `TRUNCATE TABLE records RESTART IDENTITY`
  pub truncate : Db → Db
  -- `INSERT INTO records (kind, payload) VALUES ($1, $2)`
  pub insert_next : String → String → Db → Db

abbrev numbered : ℕ → String → String → Row
numbered id kind payload = record { id = id; kind = kind; payload = payload }

pub record IsSerial (d : Driver) : Type 0 where
  pub truncate_rows : (db : d.Db) → d.rows (d.truncate db) ≡ []
  pub truncate_next_id : (db : d.Db) → d.next_id (d.truncate db) ≡ 1
  pub insert_next_rows :
      (kind payload : String) (db : d.Db)
      → d.rows (d.insert_next kind payload db)
        ≡ insert_sorted (numbered (d.next_id db) kind payload) (d.rows db)
  pub insert_next_next_id :
      (kind payload : String) (db : d.Db)
      → d.next_id (d.insert_next kind payload db) ≡ d.next_id db + 1

-- `SEED_RECORDS`
abbrev pub seed_rows : List (String × String)
seed_rows =
    ("order", "order-1001: shipped")
    ∷ ("order", "order-1002: pending")
    ∷ ("order", "order-1003: delivered")
    ∷ ("session", "session-a1: active")
    ∷ ("session", "session-a2: expired")
    ∷ ("cache_entry", "cache-key-42: stale")
    ∷ []

module _ (d : Driver) where
  unfoldable pub insert_all : List (String × String) → d.Db → d.Db
  insert_all [] db = db
  insert_all ((kind, payload) ∷ rows) db = insert_all rows (d.insert_next kind payload db)

  unfoldable pub reset_database : d.Db → d.Db
  unfolding insert_all
  reset_database db = insert_all seed_rows (d.truncate db)

-- What the insertions make of sorted rows and a sequence.
abbrev number_all : List (String × String) → ℕ → List Row → List Row
number_all [] n rows = rows
number_all ((kind, payload) ∷ more) n rows =
    number_all more (n + 1) (insert_sorted (numbered n kind payload) rows)

module _ (d : Driver) (serial : IsSerial d) where
  insert_all-number_all :
      (more : List (String × String)) (db : d.Db)
      → d.rows (insert_all d more db) ≡ number_all more (d.next_id db) (d.rows db)
  unfolding insert_all
  insert_all-number_all [] db = refl
  insert_all-number_all ((kind, payload) ∷ more) db =
      insert_all-number_all more (d.insert_next kind payload db)
      ∙ rw (serial.insert_next_rows kind payload db, serial.insert_next_next_id kind payload db)
          refl

  -- Whatever was in the table, after the reset it has the rows of a sandbox that `build_sandbox` makes, in
  -- the order of their ids: the two lists of seed records are the same.
  pub reset_database-build_sandbox :
      (db : d.Db) → d.rows (reset_database d db) ≡ sorted_by_id (build_sandbox []).records.rows
  unfolding reset_database build_sandbox sorted_by_id insert_sorted new_repository insert_many
      put_row
  reset_database-build_sandbox db =
      insert_all-number_all seed_rows (d.truncate db)
      ∙ rw (serial.truncate_rows db, serial.truncate_next_id db) refl
