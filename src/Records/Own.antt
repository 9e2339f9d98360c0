-- ===== src/Records/Own.antt =====
-- The rows that src/tools/context.py selects, by ids or by a kind, are rows of the table, each once.
use durable_approval_gated_r.Prelude.{
  ℕ, zero, suc, String, ◌≡◌, refl, ◌∙◌, ap, inl, inr, Bool, false, Option, none, some, List, [],
  ◌∷◌, sym, leb, filter, take, mem_nat, ◌==◌, str_eq, Bool-cases, arith,
}
use durable_approval_gated_r.Records.{
  Row, Repository, insert_sorted, sorted_by_id, find_row, get_by_kind, add_found, get_by_ids,
}
use durable_approval_gated_r.Records.Postgres.{has_id}
use durable_approval_gated_r.Records.Table.{
  HasDistinctIds, has_id-insert_sorted, has_id-sorted_by_id, filter-HasDistinctIds,
}
use durable_approval_gated_r.Records.Lookup.{AreDistinct, find_row-id}
use durable_approval_gated_r.Records.Reinsert.{AreOwn}

find_row-absent :
    (r x : Row) (rows : List Row)
    → has_id x.id rows ≡ false
    → find_row r.id rows ≡ some r
    → (x.id == r.id) ≡ false
unfolding find_row
find_row-absent r x [] h found = cc
find_row-absent r x (y ∷ rows) h found = ground (arith, h, found, find_row-absent r x rows)

-- Each row is the one that its id finds.
abbrev AreFound : List Row → List Row → Type 0
AreFound [] rows = Unit
AreFound (r ∷ some_rows) rows = (find_row r.id rows ≡ some r) × AreFound some_rows rows

AreFound-more :
    (x : Row) (some_rows rows : List Row)
    → has_id x.id rows ≡ false
    → AreFound some_rows rows
    → AreFound some_rows (x ∷ rows)
unfolding find_row
AreFound-more x [] rows h found = tt
AreFound-more x (r ∷ some_rows) rows h (here, rest) =
    (rw (find_row-absent r x rows h here) here, AreFound-more x some_rows rows h rest)

own_rows : (rows : List Row) → HasDistinctIds rows → AreFound rows rows
unfolding find_row
own_rows [] u = tt
own_rows (x ∷ rows) (u, us) = (ground arith, AreFound-more x rows rows u (own_rows rows us))

AreFound-filter :
    (p : Row → Bool) (some_rows rows : List Row)
    → AreFound some_rows rows
    → AreFound (filter p some_rows) rows
AreFound-filter p [] rows h = tt
AreFound-filter p (r ∷ some_rows) rows (here, rest) = elim (Bool-cases (p r)) [
  | inl keeps ↦ rw keeps (here, AreFound-filter p some_rows rows rest)
  | inr drops ↦ rw drops (AreFound-filter p some_rows rows rest)
]

AreFound-insert_sorted :
    (r : Row) (some_rows rows : List Row)
    → find_row r.id rows ≡ some r
    → AreFound some_rows rows
    → AreFound (insert_sorted r some_rows) rows
unfolding insert_sorted
AreFound-insert_sorted r [] rows found h = (found, tt)
AreFound-insert_sorted r (x ∷ some_rows) rows found (here, rest) =
    elim (Bool-cases (leb r.id x.id)) [
      | inl below ↦ rw below (found, (here, rest))
      | inr above ↦ rw above (here, AreFound-insert_sorted r some_rows rows found rest)
    ]

AreFound-sorted_by_id :
    (some_rows rows : List Row) → AreFound some_rows rows → AreFound (sorted_by_id some_rows) rows
unfolding sorted_by_id
AreFound-sorted_by_id [] rows h = tt
AreFound-sorted_by_id (r ∷ some_rows) rows (here, rest) =
    AreFound-insert_sorted r (sorted_by_id some_rows) rows here
      (AreFound-sorted_by_id some_rows rows rest)

insert_sorted-HasDistinctIds :
    (r : Row) (rows : List Row)
    → has_id r.id rows ≡ false
    → HasDistinctIds rows
    → HasDistinctIds (insert_sorted r rows)
unfolding insert_sorted
insert_sorted-HasDistinctIds r [] new u = (refl, tt)
insert_sorted-HasDistinctIds r (x ∷ rows) new (u, us) = elim (Bool-cases (leb r.id x.id)) [
  | inl below ↦ rw below (new, (u, us))
  | inr above ↦ rw above (
    has_id-insert_sorted x.id r rows ∙ ground (arith, new, u),
    insert_sorted-HasDistinctIds r rows (ground (arith, new)) us,
  )
]

sorted_by_id-HasDistinctIds :
    (rows : List Row) → HasDistinctIds rows → HasDistinctIds (sorted_by_id rows)
unfolding sorted_by_id
sorted_by_id-HasDistinctIds [] u = tt
sorted_by_id-HasDistinctIds (r ∷ rows) (u, us) =
    insert_sorted-HasDistinctIds r (sorted_by_id rows) (has_id-sorted_by_id r.id rows ∙ u)
      (sorted_by_id-HasDistinctIds rows us)

has_id-take :
    (id n : ℕ) (rows : List Row) → has_id id rows ≡ false → has_id id (take n rows) ≡ false
has_id-take id zero rows h = refl
has_id-take id (suc n) [] h = refl
has_id-take id (suc n) (x ∷ rows) h = ground (arith, h, has_id-take id n rows)

take-AreOwn :
    (n : ℕ) (some_rows rows : List Row)
    → HasDistinctIds some_rows
    → AreFound some_rows rows
    → AreOwn (take n some_rows) rows
take-AreOwn zero some_rows rows u h = tt
take-AreOwn (suc n) [] rows u h = tt
take-AreOwn (suc n) (r ∷ some_rows) rows (u, us) (here, rest) =
    (here, has_id-take r.id n some_rows u, take-AreOwn n some_rows rows us rest)

of_kind-AreOwn :
    (n : ℕ) (p : Row → Bool) (rows : List Row)
    → HasDistinctIds rows
    → AreOwn (take n (sorted_by_id (filter p rows))) rows
of_kind-AreOwn n p rows u =
    take-AreOwn n (sorted_by_id (filter p rows)) rows
      (sorted_by_id-HasDistinctIds (filter p rows) (filter-HasDistinctIds p rows u))
      (AreFound-sorted_by_id (filter p rows) rows (AreFound-filter p rows rows (own_rows rows u)))

pub get_by_kind-AreOwn :
    (kind : String) (n : ℕ) (repo : Repository)
    → HasDistinctIds repo.rows
    → AreOwn (get_by_kind (some kind) n repo) repo.rows
unfolding get_by_kind
get_by_kind-AreOwn kind n repo u = of_kind-AreOwn n (λ r. str_eq r.kind kind) repo.rows u

not_added :
    (id : ℕ) (found : Option Row) (rows : List Row)
    → ((r : Row) → found ≡ some r → (r.id == id) ≡ false)
    → has_id id rows ≡ false
    → has_id id (add_found found rows) ≡ false
not_added id none rows other h = h
not_added id (some r) rows other h = ground (arith, other r refl, h)

has_id-get_by_ids :
    (id : ℕ) (ids : List ℕ) (repo : Repository)
    → mem_nat id ids ≡ false
    → has_id id (get_by_ids ids repo) ≡ false
unfolding get_by_ids
has_id-get_by_ids id [] repo h = refl
has_id-get_by_ids id (i ∷ ids) repo h =
    not_added id (find_row i repo.rows) (get_by_ids ids repo)
      (λ r found. let own : r.id ≡ i = find_row-id i repo.rows r found in ground (arith, own, h))
      (has_id-get_by_ids id ids repo (ground (arith, h)))

add_found-AreOwn :
    (id : ℕ) (found : Option Row) (own rows : List Row)
    → found ≡ find_row id rows
    → has_id id own ≡ false
    → AreOwn own rows
    → AreOwn (add_found found own) rows
add_found-AreOwn id none own rows here new h = h
add_found-AreOwn id (some r) own rows here new h =
    let same : r.id ≡ id = find_row-id id rows r (sym here) in
    (ap (λ i. find_row i rows) same ∙ sym here, ap (λ i. has_id i own) same ∙ new, h)

pub get_by_ids-AreOwn :
    (ids : List ℕ) (repo : Repository) → AreDistinct ids → AreOwn (get_by_ids ids repo) repo.rows
unfolding get_by_ids
get_by_ids-AreOwn [] repo a = tt
get_by_ids-AreOwn (id ∷ ids) repo (a, rest) =
    add_found-AreOwn id (find_row id repo.rows) (get_by_ids ids repo) repo.rows refl
      (has_id-get_by_ids id ids repo a) (get_by_ids-AreOwn ids repo rest)
