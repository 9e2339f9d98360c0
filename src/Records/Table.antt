-- ===== src/Records/Table.antt =====
-- Rows in the order of their ids: how sorting meets selection, deletion and insertion of rows
-- (src/tools/context.py).
use durable_approval_gated_r.Prelude.{
  ℕ, ◌≡◌, refl, sym, ap, ◌∙◌, inl, inr, Bool, true, false, not, ◌||◌, List, [], ◌∷◌, filter,
  mem_nat, leb, ◌==◌, if◌then◌else◌, Bool-cases, arith,
}
use durable_approval_gated_r.Records.{
  Row, insert_sorted, sorted_by_id, put_row, pop_row, delete_rows,
}
use durable_approval_gated_r.Records.Postgres.{has_id, Above, IsSorted}

Above-weaken : (m n : ℕ) (rows : List Row) → leb m n ≡ true → Above n rows → Above m rows
Above-weaken m n [] h a = tt
Above-weaken m n (r ∷ rows) h (a, rest) = (ground (arith, a, h), Above-weaken m n rows h rest)

insert_sorted-Above :
    (n : ℕ) (r : Row) (rows : List Row)
    → leb n r.id ≡ true
    → Above n rows
    → Above n (insert_sorted r rows)
unfolding insert_sorted
insert_sorted-Above n r [] h a = (h, tt)
insert_sorted-Above n r (x ∷ rows) h (a, rest) = elim (Bool-cases (leb r.id x.id)) [
  | inl below ↦ rw below (h, (a, rest))
  | inr above ↦ rw above (a, insert_sorted-Above n r rows h rest)
]

insert_sorted-IsSorted :
    (r : Row) (rows : List Row) → IsSorted rows → IsSorted (insert_sorted r rows)
unfolding insert_sorted
insert_sorted-IsSorted r [] s = (tt, tt)
insert_sorted-IsSorted r (x ∷ rows) (a, s) = elim (Bool-cases (leb r.id x.id)) [
  | inl below ↦ rw below ((below, Above-weaken r.id x.id rows below a), (a, s))
  | inr above ↦
      rw above
        (insert_sorted-Above x.id r rows (ground (arith, above)) a, insert_sorted-IsSorted r rows s)
]

pub sorted_by_id-IsSorted : (rows : List Row) → IsSorted (sorted_by_id rows)
unfolding sorted_by_id
sorted_by_id-IsSorted [] = tt
sorted_by_id-IsSorted (r ∷ rows) =
    insert_sorted-IsSorted r (sorted_by_id rows) (sorted_by_id-IsSorted rows)

insert_first : (r : Row) (rows : List Row) → Above r.id rows → insert_sorted r rows ≡ r ∷ rows
unfolding insert_sorted
insert_first r [] a = refl
insert_first r (x ∷ rows) (a, rest) = rw a refl

filter-Above : (p : Row → Bool) (n : ℕ) (rows : List Row) → Above n rows → Above n (filter p rows)
filter-Above p n [] a = tt
filter-Above p n (x ∷ rows) (a, rest) = elim (Bool-cases (p x)) [
  | inl keeps ↦ rw keeps (a, filter-Above p n rows rest)
  | inr drops ↦ rw drops (filter-Above p n rows rest)
]

filter-insert_sorted :
    (p : Row → Bool) (r : Row) (rows : List Row)
    → IsSorted rows
    → filter p (insert_sorted r rows)
      ≡ (if p r then insert_sorted r (filter p rows) else filter p rows)
unfolding insert_sorted
filter-insert_sorted p r [] s = refl
filter-insert_sorted p r (x ∷ rows) (a, s) = elim (Bool-cases (leb r.id x.id)) [
  | inl below ↦
      rw
        (
          below,
          insert_first r (filter p (x ∷ rows))
              (filter-Above p r.id (x ∷ rows) (below, Above-weaken r.id x.id rows below a)),
        )
        refl
  | inr above ↦ rw (above, filter-insert_sorted p r rows s) (cases (p x) (p r) above)
]
  where
    cases :
        (b c : Bool)
        → leb r.id x.id ≡ false
        → (if b
            then x ∷ (if c then insert_sorted r (filter p rows) else filter p rows)
            else (if c then insert_sorted r (filter p rows) else filter p rows))
          ≡ (if c
              then insert_sorted r (if b then x ∷ filter p rows else filter p rows)
              else (if b then x ∷ filter p rows else filter p rows))
    cases true true h = rw h refl
    cases true false h = refl
    cases false true h = refl
    cases false false h = refl

-- To select and to sort commute.
pub filter-sorted_by_id :
    (p : Row → Bool) (rows : List Row) → filter p (sorted_by_id rows) ≡ sorted_by_id (filter p rows)
unfolding sorted_by_id
filter-sorted_by_id p [] = refl
filter-sorted_by_id p (r ∷ rows) =
    filter-insert_sorted p r (sorted_by_id rows) (sorted_by_id-IsSorted rows)
    ∙ rw (filter-sorted_by_id p rows)
        (elim (Bool-cases (p r)) [ inl keeps ↦ rw keeps refl | inr drops ↦ rw drops refl ])

-- Each id once.
abbrev pub HasDistinctIds : List Row → Type 0
HasDistinctIds [] = Unit
HasDistinctIds (r ∷ rows) = (has_id r.id rows ≡ false) × HasDistinctIds rows

kept_all :
    (id : ℕ) (rows : List Row) → has_id id rows ≡ false → filter (λ r. not (r.id == id)) rows ≡ rows
kept_all id [] h = refl
kept_all id (r ∷ rows) h = ground (arith, kept_all id rows, h)

-- Deleting the only row of an id is selecting the rows of other ids.
pop_row-filter :
    (id : ℕ) (rows : List Row)
    → HasDistinctIds rows
    → pop_row id rows ≡ filter (λ r. not (r.id == id)) rows
unfolding pop_row
pop_row-filter id [] u = refl
pop_row-filter id (r ∷ rows) (u, us) = elim (Bool-cases (r.id == id)) [
  | inl same ↦ rw same (sym (kept_all id rows (ground (arith, u, same))))
  | inr other ↦ rw (other, pop_row-filter id rows us) refl
]

has_id-filter :
    (p : Row → Bool) (id : ℕ) (rows : List Row)
    → has_id id rows ≡ false
    → has_id id (filter p rows) ≡ false
has_id-filter p id [] h = refl
has_id-filter p id (r ∷ rows) h = ground (arith, has_id-filter p id rows, h)

pub filter-HasDistinctIds :
    (p : Row → Bool) (rows : List Row) → HasDistinctIds rows → HasDistinctIds (filter p rows)
filter-HasDistinctIds p [] u = tt
filter-HasDistinctIds p (r ∷ rows) (u, us) = elim (Bool-cases (p r)) [
  | inl keeps ↦ rw keeps (has_id-filter p r.id rows u, filter-HasDistinctIds p rows us)
  | inr drops ↦ rw drops (filter-HasDistinctIds p rows us)
]

filter_all : (rows : List Row) → filter (λ r. true) rows ≡ rows
filter_all [] = refl
filter_all (r ∷ rows) = ap (λ rest. r ∷ rest) (filter_all rows)

filter_twice :
    (id : ℕ) (ids : List ℕ) (rows : List Row)
    → filter (λ r. not (mem_nat r.id ids)) (filter (λ r. not (r.id == id)) rows)
      ≡ filter (λ r. not (mem_nat r.id (id ∷ ids))) rows
filter_twice id ids [] = refl
filter_twice id ids (r ∷ rows) = elim (Bool-cases (r.id == id)) [
  | inl same ↦ rw (same, filter_twice id ids rows) refl
  | inr other ↦ rw (other, filter_twice id ids rows) refl
]

pub delete_rows-filter :
    (ids : List ℕ) (rows : List Row)
    → HasDistinctIds rows
    → delete_rows ids rows ≡ filter (λ r. not (mem_nat r.id ids)) rows
unfolding delete_rows
delete_rows-filter [] rows u = sym (filter_all rows)
delete_rows-filter (id ∷ ids) rows u = rw (pop_row-filter id rows u) (
    delete_rows-filter ids (filter (λ r. not (r.id == id)) rows)
      (filter-HasDistinctIds (λ r. not (r.id == id)) rows u)
    ∙ filter_twice id ids rows)

-- To sort rows of distinct ids does not ask for their order.
pub insert_sorted_comm :
    (a b : Row) (rows : List Row)
    → (a.id == b.id) ≡ false
    → insert_sorted a (insert_sorted b rows) ≡ insert_sorted b (insert_sorted a rows)
unfolding insert_sorted
insert_sorted_comm a b [] h = ground (arith, h)
insert_sorted_comm a b (x ∷ rows) h = ground (arith, h, insert_sorted_comm a b rows h)

pub has_id-insert_sorted :
    (id : ℕ) (r : Row) (rows : List Row)
    → has_id id (insert_sorted r rows) ≡ ((r.id == id) || has_id id rows)
unfolding insert_sorted
has_id-insert_sorted id r [] = refl
has_id-insert_sorted id r (x ∷ rows) = ground (arith, has_id-insert_sorted id r rows)

pub has_id-sorted_by_id :
    (id : ℕ) (rows : List Row) → has_id id (sorted_by_id rows) ≡ has_id id rows
unfolding sorted_by_id
has_id-sorted_by_id id [] = refl
has_id-sorted_by_id id (r ∷ rows) =
    has_id-insert_sorted id r (sorted_by_id rows)
    ∙ ap (λ b. (r.id == id) || b) (has_id-sorted_by_id id rows)

-- A row of a new id goes to its place.
pub sorted_by_id-put_row :
    (r : Row) (rows : List Row)
    → has_id r.id rows ≡ false
    → sorted_by_id (put_row r rows) ≡ insert_sorted r (sorted_by_id rows)
unfolding sorted_by_id put_row
sorted_by_id-put_row r [] h = refl
sorted_by_id-put_row r (x ∷ rows) h = elim (Bool-cases (x.id == r.id)) [
  | inl same ↦ absurd (ground (arith, same, h))
  | inr other ↦
      rw (other, sorted_by_id-put_row r rows (ground (arith, other, h)))
        (insert_sorted_comm x r (sorted_by_id rows) other)
]

pub has_id-put_row :
    (id : ℕ) (r : Row) (rows : List Row)
    → has_id id rows ≡ false
    → (r.id == id) ≡ false
    → has_id id (put_row r rows) ≡ false
unfolding put_row
has_id-put_row id r [] h e = ground (arith, e)
has_id-put_row id r (x ∷ rows) h e = ground (arith, h, e, has_id-put_row id r rows)

pub put_row-HasDistinctIds :
    (r : Row) (rows : List Row) → HasDistinctIds rows → HasDistinctIds (put_row r rows)
unfolding put_row
put_row-HasDistinctIds r [] u = (refl, tt)
put_row-HasDistinctIds r (x ∷ rows) (u, us) = elim (Bool-cases (x.id == r.id)) [
  | inl same ↦ rw same (ground (arith, u, same), us)
  | inr other ↦
      rw other
        (has_id-put_row x.id r rows u (ground (arith, other)), put_row-HasDistinctIds r rows us)
]
