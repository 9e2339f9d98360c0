-- ===== src/Records/Refines.antt =====
-- The Postgres repository of src/tools/context.py answers as the in-memory one.
use durable_approval_gated_r.Prelude.{
  ℕ, ◌≡◌, refl, sym, ap, ◌∙◌, subst, String, false, not, Option, none, some, List, [], ◌∷◌, filter,
  take, mem_nat,
}
use durable_approval_gated_r.Records.{
  Row, Repository, of_kind, sorted_by_id, delete_rows, get_by_kind, get_by_ids, delete, insert_many,
}
use durable_approval_gated_r.Records.Postgres
use durable_approval_gated_r.Records.Postgres.{Driver, IsSql, has_id}
use durable_approval_gated_r.Records.Table.{
  HasDistinctIds, filter-sorted_by_id, filter-HasDistinctIds, delete_rows-filter,
  has_id-sorted_by_id, sorted_by_id-put_row, put_row-HasDistinctIds,
}
use durable_approval_gated_r.Records.Lookup.{AreDistinct, get_by_ids-filter}

-- The methods of `RecordsRepository`.
pub data Call : Type 0 where
  by_kind : Option String → ℕ → Call
  by_ids deletion : List ℕ → Call
  insertion : List Row → Call

-- What the calls return. Rows looked up by ids are taken in the order of their ids.
unfoldable pub answers : List Call → Repository → List (List Row)
unfolding get_by_kind get_by_ids delete insert_many sorted_by_id
answers [] repo = []
answers (by_kind kind limit ∷ calls) repo = get_by_kind kind limit repo ∷ answers calls repo
answers (by_ids ids ∷ calls) repo = sorted_by_id (get_by_ids ids repo) ∷ answers calls repo
answers (deletion ids ∷ calls) repo = answers calls (delete ids repo)
answers (insertion rows ∷ calls) repo = answers calls (insert_many rows repo)

unfoldable pub sql_answers : (d : Driver) → List Call → d.Db → List (List Row)
unfolding Postgres.get_by_kind Postgres.get_by_ids Postgres.delete Postgres.insert_many
sql_answers d [] db = []
sql_answers d (by_kind kind limit ∷ calls) db =
    Postgres.get_by_kind d kind limit db ∷ sql_answers d calls db
sql_answers d (by_ids ids ∷ calls) db = Postgres.get_by_ids d ids db ∷ sql_answers d calls db
sql_answers d (deletion ids ∷ calls) db = sql_answers d calls (Postgres.delete d ids db)
sql_answers d (insertion rows ∷ calls) db = sql_answers d calls (Postgres.insert_many d rows db)

-- No row of an insertion has the id of a present one.
abbrev pub AreNew : List Row → Repository → Type 0
AreNew [] repo = Unit
AreNew (r ∷ rows) repo = (has_id r.id repo.rows ≡ false) × AreNew rows (insert_many (r ∷ []) repo)

-- Ids are looked up once each, and what is inserted is new.
abbrev pub AreAllowed : List Call → Repository → Type 0
AreAllowed [] repo = Unit
AreAllowed (by_kind kind limit ∷ calls) repo = AreAllowed calls repo
AreAllowed (by_ids ids ∷ calls) repo = AreDistinct ids × AreAllowed calls repo
AreAllowed (deletion ids ∷ calls) repo = AreAllowed calls (delete ids repo)
AreAllowed (insertion rows ∷ calls) repo =
    AreNew rows repo × AreAllowed calls (insert_many rows repo)

-- The table has the rows of the dictionary.
abbrev pub HasRows : (d : Driver) → d.Db → Repository → Type 0
HasRows d db repo = HasDistinctIds repo.rows × (d.rows db ≡ sorted_by_id repo.rows)

module _ (d : Driver) (sql : IsSql d) where
  by_kind-same :
      (kind : Option String) (limit : ℕ) (db : d.Db) (repo : Repository)
      → HasRows d db repo
      → Postgres.get_by_kind d kind limit db ≡ get_by_kind kind limit repo
  unfolding Postgres.get_by_kind get_by_kind
  by_kind-same none limit db repo (u, h) = sql.select_lem limit db ∙ ap (take limit) h
  by_kind-same (some kind) limit db repo (u, h) =
      sql.select_kind_lem kind limit db
      ∙ ap (λ rows. take limit (of_kind (some kind) rows)) h
      ∙ ap (take limit) (filter-sorted_by_id _ repo.rows)

  by_ids-same :
      (ids : List ℕ) (db : d.Db) (repo : Repository)
      → AreDistinct ids
      → HasRows d db repo
      → Postgres.get_by_ids d ids db ≡ sorted_by_id (get_by_ids ids repo)
  unfolding Postgres.get_by_ids get_by_ids sorted_by_id
  by_ids-same [] db repo a (u, h) = refl
  by_ids-same (id ∷ ids) db repo a (u, h) =
      sql.select_ids_lem (id ∷ ids) db
      ∙ ap (filter (λ r. mem_nat r.id (id ∷ ids))) h
      ∙ sym (get_by_ids-filter (id ∷ ids) repo a u)

  delete-HasRows :
      (ids : List ℕ) (db : d.Db) (repo : Repository)
      → HasRows d db repo
      → HasRows d (Postgres.delete d ids db) (delete ids repo)
  unfolding Postgres.delete delete delete_rows
  delete-HasRows [] db repo h = h
  delete-HasRows (id ∷ ids) db repo (u, h) =
      let kept = λ (r : Row). not (mem_nat r.id (id ∷ ids)) in
      let same = delete_rows-filter (id ∷ ids) repo.rows u in
      (
        subst HasDistinctIds (sym same) (filter-HasDistinctIds kept repo.rows u),
        sql.delete_ids_lem (id ∷ ids) db
            ∙ ap (filter kept) h
            ∙ filter-sorted_by_id kept repo.rows
            ∙ ap sorted_by_id (sym same),
      )

  insert_many-HasRows :
      (rows : List Row) (db : d.Db) (repo : Repository)
      → AreNew rows repo
      → HasRows d db repo
      → HasRows d (Postgres.insert_many d rows db) (insert_many rows repo)
  unfolding Postgres.insert_many insert_many
  insert_many-HasRows [] db repo new h = h
  insert_many-HasRows (r ∷ rows) db repo (new, later) (u, h) =
      insert_many-HasRows rows (d.insert_row r db) _ later (
        put_row-HasDistinctIds r repo.rows u,
        sql.insert_row_lem r db
            ∙ rw (h, has_id-sorted_by_id r.id repo.rows, new)
                (sym (sorted_by_id-put_row r repo.rows new)),
      )

  -- A database that does what SQL says, with the rows of an in-memory repository, gives the same answers
  -- to any sequence of calls of which no insertion meets a present id and no lookup repeats an id. The
  -- order in which rows are looked up by their ids is forgotten.
  pub same_answers :
      (calls : List Call) (db : d.Db) (repo : Repository)
      → AreAllowed calls repo
      → HasRows d db repo
      → sql_answers d calls db ≡ answers calls repo
  unfolding answers sql_answers
  same_answers [] db repo a h = refl
  same_answers (by_kind kind limit ∷ calls) db repo a h =
      rw (by_kind-same kind limit db repo h, same_answers calls db repo a h) refl
  same_answers (by_ids ids ∷ calls) db repo (a, rest) h =
      rw (by_ids-same ids db repo a h, same_answers calls db repo rest h) refl
  same_answers (deletion ids ∷ calls) db repo a h =
      same_answers calls (Postgres.delete d ids db) (delete ids repo) a
        (delete-HasRows ids db repo h)
  same_answers (insertion rows ∷ calls) db repo (new, a) h =
      same_answers calls (Postgres.insert_many d rows db) (insert_many rows repo) a
        (insert_many-HasRows rows db repo new h)
