-- ===== src/Records/Postgres.antt =====
-- `PostgresRecordsRepository` of src/tools/context.py. The database is not code of the repository: its
-- statements are the operations of a driver, and `IsSql` is what SQL says of them.
use durable_approval_gated_r.Prelude.{
  ℕ, String, Bool, true, not, Option, none, some, List, [], ◌∷◌, ◌≡◌, filter, take, any, mem_nat,
  leb, ◌==◌, if◌then◌else◌,
}
use durable_approval_gated_r.Records.{Row, of_kind, insert_sorted}

-- The statements of the class, each with its parameters.
pub record Driver : Type 1 where
  pub Db : Type 0
  -- `SELECT id, kind, payload FROM records ORDER BY id`, of which the others speak
  pub rows : Db → List Row
  -- `... ORDER BY id LIMIT $1`
  pub select : ℕ → Db → List Row
  -- `... WHERE kind = $1 ORDER BY id LIMIT $2`
  pub select_kind : String → ℕ → Db → List Row
  -- `... WHERE id = ANY($1::int[]) ORDER BY id`
  pub select_ids : List ℕ → Db → List Row
  -- `DELETE FROM records WHERE id = ANY($1::int[])`
  pub delete_ids : List ℕ → Db → Db
  -- `INSERT INTO records (id, kind, payload) VALUES ($1, $2, $3) ON CONFLICT (id) DO NOTHING`
  pub insert_row : Row → Db → Db

abbrev pub has_id : ℕ → List Row → Bool
has_id id rows = any (λ r. r.id == id) rows

-- Rows in the order of their ids, each id once.
abbrev pub Above : ℕ → List Row → Type 0
Above id [] = Unit
Above id (r ∷ rows) = (leb id r.id ≡ true) × Above id rows

abbrev pub IsSorted : List Row → Type 0
IsSorted [] = Unit
IsSorted (r ∷ rows) = Above r.id rows × IsSorted rows

-- What SQL says of the statements.
pub record IsSql (d : Driver) : Type 0 where
  pub select_lem : (limit : ℕ) (db : d.Db) → d.select limit db ≡ take limit (d.rows db)
  pub select_kind_lem :
      (kind : String) (limit : ℕ) (db : d.Db)
      → d.select_kind kind limit db ≡ take limit (of_kind (some kind) (d.rows db))
  pub select_ids_lem :
      (ids : List ℕ) (db : d.Db) → d.select_ids ids db ≡ filter (λ r. mem_nat r.id ids) (d.rows db)
  pub delete_ids_lem :
      (ids : List ℕ) (db : d.Db)
      → d.rows (d.delete_ids ids db) ≡ filter (λ r. not (mem_nat r.id ids)) (d.rows db)
  pub insert_row_lem :
      (r : Row) (db : d.Db)
      → d.rows (d.insert_row r db)
        ≡ (if has_id r.id (d.rows db) then d.rows db else insert_sorted r (d.rows db))

module _ (d : Driver) where
  unfoldable pub get_by_kind : Option String → ℕ → d.Db → List Row
  get_by_kind none limit db = d.select limit db
  get_by_kind (some kind) limit db = d.select_kind kind limit db

  unfoldable pub get_by_ids : List ℕ → d.Db → List Row
  get_by_ids [] db = []
  get_by_ids (id ∷ ids) db = d.select_ids (id ∷ ids) db

  unfoldable pub delete : List ℕ → d.Db → d.Db
  delete [] db = db
  delete (id ∷ ids) db = d.delete_ids (id ∷ ids) db

  -- `executemany`
  unfoldable pub insert_many : List Row → d.Db → d.Db
  insert_many [] db = db
  insert_many (r ∷ rows) db = insert_many rows (d.insert_row r db)
