-- ===== src/Records.antt =====
-- src/tools/context.py: `InMemoryRecordsRepository`, the mock production `records` table. A `dict` from
-- ids to rows is the list of its rows in the order of insertion.
pub mod Postgres
pub mod Table
pub mod Lookup
pub mod Refines
pub mod Reinsert
pub mod Own
use durable_approval_gated_r.Prelude.{
  ℕ, ◌+◌, max, String, Option, none, some, List, [], ◌∷◌, leb, ◌==◌, if◌then◌else◌, filter, take,
  str_eq,
}

pub record Row : Type 0 where
  pub id : ℕ
  pub kind : String
  pub payload : String

pub record Repository : Type 0 where
  pub next_id : ℕ
  pub rows : List Row

-- `rows.get(id)`
unfoldable pub find_row : ℕ → List Row → Option Row
find_row id [] = none
find_row id (r ∷ rows) = if r.id == id then some r else find_row id rows

-- `rows[row["id"]] = row`
unfoldable pub put_row : Row → List Row → List Row
put_row row [] = row ∷ []
put_row row (r ∷ rows) = if r.id == row.id then row ∷ rows else r ∷ put_row row rows

-- `rows.pop(id, None)`
unfoldable pub pop_row : ℕ → List Row → List Row
pop_row id [] = []
pop_row id (r ∷ rows) = if r.id == id then rows else r ∷ pop_row id rows

-- `sorted(rows, key=lambda r: r["id"])`
unfoldable pub insert_sorted : Row → List Row → List Row
insert_sorted row [] = row ∷ []
insert_sorted row (r ∷ rows) =
    if leb row.id r.id then row ∷ (r ∷ rows) else r ∷ insert_sorted row rows

unfoldable pub sorted_by_id : List Row → List Row
unfolding insert_sorted
sorted_by_id [] = []
sorted_by_id (r ∷ rows) = insert_sorted r (sorted_by_id rows)

abbrev pub of_kind : Option String → List Row → List Row
of_kind none rows = rows
of_kind (some kind) rows = filter (λ r. str_eq r.kind kind) rows

unfoldable pub get_by_kind : Option String → ℕ → Repository → List Row
unfolding sorted_by_id
get_by_kind kind limit repo = take limit (sorted_by_id (of_kind kind repo.rows))

abbrev pub add_found : Option Row → List Row → List Row
add_found none rows = rows
add_found (some r) rows = r ∷ rows

unfoldable pub get_by_ids : List ℕ → Repository → List Row
unfolding find_row
get_by_ids [] repo = []
get_by_ids (id ∷ ids) repo = add_found (find_row id repo.rows) (get_by_ids ids repo)

unfoldable pub delete_rows : List ℕ → List Row → List Row
unfolding pop_row
delete_rows [] rows = rows
delete_rows (id ∷ ids) rows = delete_rows ids (pop_row id rows)

unfoldable pub delete : List ℕ → Repository → Repository
unfolding delete_rows
delete ids repo = record repo { rows = delete_rows ids repo.rows }

-- Every row that the program inserts has an id, so `setdefault("id", ...)` changes nothing.
unfoldable pub insert_many : List Row → Repository → Repository
unfolding put_row
insert_many [] repo = repo
insert_many (row ∷ rows) repo =
    insert_many rows
      (record { next_id = max repo.next_id (row.id + 1); rows = put_row row repo.rows })

abbrev max_id : List Row → ℕ
max_id [] = 0
max_id (r ∷ rows) = max r.id (max_id rows)

-- `InMemoryRecordsRepository(rows)`
unfoldable pub new_repository : List Row → Repository
unfolding insert_many
new_repository rows = record {
  next_id = max_id rows + 1;
  rows = (insert_many rows (record { next_id = 1; rows = [] })).rows;
}
