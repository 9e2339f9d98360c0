-- ===== src/Records/Reinsert.antt =====
-- Rows that are deleted and inserted again (src/tools/context.py), as by a deletion of records and its
-- compensation in src/tools/mutating.py and src/agent/execution.py.
use durable_approval_gated_r.Prelude.{
  ℕ, ◌≡◌, refl, ap, ◌∙◌, inl, inr, false, some, List, [], ◌∷◌, map, ◌++◌, ◌==◌, Bool-cases, arith,
}
use durable_approval_gated_r.Records.{
  Row, insert_sorted, sorted_by_id, find_row, put_row, pop_row, delete_rows, insert_many,
}
use durable_approval_gated_r.Records.Postgres.{has_id}
use durable_approval_gated_r.Records.Table.{
  HasDistinctIds, insert_sorted_comm, sorted_by_id-put_row, has_id-put_row,
}

insert_sorted-pop_row :
    (r : Row) (rows : List Row)
    → find_row r.id rows ≡ some r
    → insert_sorted r (sorted_by_id (pop_row r.id rows)) ≡ sorted_by_id rows
unfolding sorted_by_id pop_row find_row
insert_sorted-pop_row r [] h = cc
insert_sorted-pop_row r (x ∷ rows) h = elim (Bool-cases (x.id == r.id)) [
  | inl same ↦ let here : x ≡ r = ground (arith, same, h) in rw (same, here) refl
  | inr other ↦ rw other (
      insert_sorted_comm r x (sorted_by_id (pop_row r.id rows)) (ground (arith, other))
      ∙ ap (insert_sorted x) (insert_sorted-pop_row r rows (ground (arith, other, h))))
]

find_row-pop_row :
    (id : ℕ) (r : Row) (rows : List Row)
    → (r.id == id) ≡ false
    → find_row r.id rows ≡ some r
    → find_row r.id (pop_row id rows) ≡ some r
unfolding find_row pop_row
find_row-pop_row id r [] other h = h
find_row-pop_row id r (x ∷ rows) other h =
    ground (arith, other, h, find_row-pop_row id r rows other)

-- Rows of distinct ids, each of them the row that its id finds.
abbrev pub AreOwn : List Row → List Row → Type 0
AreOwn [] rows = Unit
AreOwn (r ∷ own) rows = (find_row r.id rows ≡ some r) × (has_id r.id own ≡ false) × AreOwn own rows

AreOwn-pop_row :
    (id : ℕ) (own rows : List Row)
    → has_id id own ≡ false
    → AreOwn own rows
    → AreOwn own (pop_row id rows)
AreOwn-pop_row id [] rows fresh h = tt
AreOwn-pop_row id (r ∷ own) rows fresh (found, once, rest) = (
  find_row-pop_row id r rows (ground (arith, fresh)) found,
  once,
  AreOwn-pop_row id own rows (ground (arith, fresh)) rest,
)

-- What is sorted after other rows counts only up to its order.
insert_sorted-append :
    (r : Row) (own rows : List Row)
    → has_id r.id own ≡ false
    → sorted_by_id (own ++ (r ∷ rows)) ≡ insert_sorted r (sorted_by_id (own ++ rows))
unfolding sorted_by_id
insert_sorted-append r [] rows fresh = refl
insert_sorted-append r (x ∷ own) rows fresh =
    ap (insert_sorted x) (insert_sorted-append r own rows (ground (arith, fresh)))
    ∙ insert_sorted_comm x r (sorted_by_id (own ++ rows)) (ground (arith, fresh))

append-cong :
    (own rows others : List Row)
    → sorted_by_id rows ≡ sorted_by_id others
    → sorted_by_id (own ++ rows) ≡ sorted_by_id (own ++ others)
unfolding sorted_by_id
append-cong [] rows others h = h
append-cong (r ∷ own) rows others h = ap (insert_sorted r) (append-cong own rows others h)

-- Own rows beside what is left without them are all the rows.
append-delete_rows :
    (own rows : List Row)
    → AreOwn own rows
    → sorted_by_id (own ++ delete_rows (map (λ r. r.id) own) rows) ≡ sorted_by_id rows
unfolding sorted_by_id delete_rows
append-delete_rows [] rows h = refl
append-delete_rows (r ∷ own) rows (found, once, rest) =
    ap (insert_sorted r)
      (append-delete_rows own (pop_row r.id rows) (AreOwn-pop_row r.id own rows once rest))
    ∙ insert_sorted-pop_row r rows found

abbrev AreFresh : List Row → List Row → Type 0
AreFresh [] rows = Unit
AreFresh (r ∷ own) rows = (has_id r.id rows ≡ false) × (has_id r.id own ≡ false) × AreFresh own rows

AreFresh-put_row :
    (r : Row) (own rows : List Row)
    → has_id r.id own ≡ false
    → AreFresh own rows
    → AreFresh own (put_row r rows)
AreFresh-put_row r [] rows new h = tt
AreFresh-put_row r (x ∷ own) rows new (fresh, once, rest) = (
  has_id-put_row x.id r rows fresh (ground (arith, new)),
  once,
  AreFresh-put_row r own rows (ground (arith, new)) rest,
)

placed :
    (r : Row) (rows : List Row)
    → has_id r.id rows ≡ false
    → sorted_by_id (put_row r rows) ≡ sorted_by_id (r ∷ rows)
unfolding sorted_by_id
placed r rows fresh = sorted_by_id-put_row r rows fresh

-- Fresh rows that are inserted stand beside the others.
insert_many-append :
    (own rows : List Row) (n : ℕ)
    → AreFresh own rows
    → sorted_by_id (insert_many own (record { next_id = n; rows = rows })).rows
      ≡ sorted_by_id (own ++ rows)
unfolding insert_many sorted_by_id
insert_many-append [] rows n h = refl
insert_many-append (r ∷ own) rows n (fresh, once, rest) =
    insert_many-append own (put_row r rows) _ (AreFresh-put_row r own rows once rest)
    ∙ append-cong own (put_row r rows) (r ∷ rows) (placed r rows fresh)
    ∙ insert_sorted-append r own rows once

has_id-pop_row :
    (id other : ℕ) (rows : List Row)
    → has_id id rows ≡ false
    → has_id id (pop_row other rows) ≡ false
unfolding pop_row
has_id-pop_row id other [] h = refl
has_id-pop_row id other (x ∷ rows) h = ground (arith, h, has_id-pop_row id other rows)

has_id-delete_rows :
    (id : ℕ) (ids : List ℕ) (rows : List Row)
    → has_id id rows ≡ false
    → has_id id (delete_rows ids rows) ≡ false
unfolding delete_rows
has_id-delete_rows id [] rows h = h
has_id-delete_rows id (i ∷ ids) rows h =
    has_id-delete_rows id ids (pop_row i rows) (has_id-pop_row id i rows h)

popped : (id : ℕ) (rows : List Row) → HasDistinctIds rows → has_id id (pop_row id rows) ≡ false
unfolding pop_row
popped id [] u = refl
popped id (x ∷ rows) (u, us) = ground (arith, u, popped id rows us)

HasDistinctIds-pop_row :
    (id : ℕ) (rows : List Row) → HasDistinctIds rows → HasDistinctIds (pop_row id rows)
unfolding pop_row
HasDistinctIds-pop_row id [] u = tt
HasDistinctIds-pop_row id (x ∷ rows) (u, us) = elim (Bool-cases (x.id == id)) [
  | inl same ↦ rw same us
  | inr other ↦ rw other (has_id-pop_row x.id id rows u, HasDistinctIds-pop_row id rows us)
]

AreFresh-delete_rows :
    (own rows : List Row)
    → HasDistinctIds rows
    → AreOwn own rows
    → AreFresh own (delete_rows (map (λ r. r.id) own) rows)
unfolding delete_rows
AreFresh-delete_rows [] rows u h = tt
AreFresh-delete_rows (r ∷ own) rows u (found, once, rest) = (
  has_id-delete_rows r.id (map (λ r. r.id) own) (pop_row r.id rows) (popped r.id rows u),
  once,
  AreFresh-delete_rows own (pop_row r.id rows) (HasDistinctIds-pop_row r.id rows u)
      (AreOwn-pop_row r.id own rows once rest),
)

-- Own rows, deleted and inserted again, are back in their places.
pub sorted_by_id-reinserted :
    (own rows : List Row) (n : ℕ)
    → HasDistinctIds rows
    → AreOwn own rows
    → sorted_by_id
        (insert_many own
          (record { next_id = n; rows = delete_rows (map (λ r. r.id) own) rows })).rows
      ≡ sorted_by_id rows
sorted_by_id-reinserted own rows n u h =
    insert_many-append own (delete_rows (map (λ r. r.id) own) rows) n
      (AreFresh-delete_rows own rows u h)
    ∙ append-delete_rows own rows h
