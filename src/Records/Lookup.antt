-- ===== src/Records/Lookup.antt =====
-- Looking rows up by their ids, one by one or by a selection (src/tools/context.py).
use durable_approval_gated_r.Prelude.{
  ℕ, ◌≡◌, refl, sym, ap, ◌∙◌, subst, inl, inr, false, Option, none, some, List, [], ◌∷◌, filter,
  mem_nat, ◌==◌, Bool-cases, arith,
}
use durable_approval_gated_r.Records.{
  Row, Repository, insert_sorted, sorted_by_id, find_row, add_found, get_by_ids,
}
use durable_approval_gated_r.Records.Postgres.{has_id}
use durable_approval_gated_r.Records.Table.{HasDistinctIds, insert_sorted_comm, filter-sorted_by_id}

-- The rows of some ids, sorted, are those that a selection finds.
abbrev placed : Option Row → List Row → List Row
placed none rows = rows
placed (some r) rows = insert_sorted r rows

unselected :
    (id : ℕ) (ids : List ℕ) (rows : List Row)
    → has_id id rows ≡ false
    → filter (λ r. mem_nat r.id (id ∷ ids)) rows ≡ filter (λ r. mem_nat r.id ids) rows
unselected id ids [] h = refl
unselected id ids (r ∷ rows) h = elim (Bool-cases (r.id == id)) [
  | inl same ↦ absurd (ground (arith, same, h))
  | inr other ↦ rw (other, unselected id ids rows (ground (arith, other, h))) refl
]

pub find_row-id : (id : ℕ) (rows : List Row) (r : Row) → find_row id rows ≡ some r → r.id ≡ id
unfolding find_row
find_row-id id [] r h = cc
find_row-id id (x ∷ rows) r h = ground (arith, h, find_row-id id rows r)

placed_comm :
    (x : Row) (id : ℕ) (rows : List Row) (found : Option Row)
    → (x.id == id) ≡ false
    → ((r : Row) → found ≡ some r → r.id ≡ id)
    → insert_sorted x (placed found rows) ≡ placed found (insert_sorted x rows)
placed_comm x id rows none h own = refl
placed_comm x id rows (some r) h own = insert_sorted_comm x r rows (rw (own r refl) h)

one_more :
    (id : ℕ) (ids : List ℕ) (rows : List Row)
    → HasDistinctIds rows
    → mem_nat id ids ≡ false
    → sorted_by_id (filter (λ r. mem_nat r.id (id ∷ ids)) rows)
      ≡ placed (find_row id rows) (sorted_by_id (filter (λ r. mem_nat r.id ids) rows))
unfolding sorted_by_id find_row
one_more id ids [] u h = refl
one_more id ids (x ∷ rows) (u, us) h = elim (Bool-cases (x.id == id)) [
  | inl same ↦
      let here : x.id ≡ id = ground (arith, same) in
      rw (same, unselected id ids rows (subst (λ i. has_id i rows ≡ false) here u))
        (rw (subst (λ i. mem_nat i ids ≡ false) (sym here) h) refl)
  | inr other ↦ elim (Bool-cases (mem_nat x.id ids)) [
    | inl selected ↦
        rw (other, selected, one_more id ids rows us h)
          (placed_comm x id (sorted_by_id (filter (λ r. mem_nat r.id ids) rows)) (find_row id rows)
            other (find_row-id id rows))
    | inr left ↦ rw (other, left) (one_more id ids rows us h)
  ]
]

abbrev pub AreDistinct : List ℕ → Type 0
AreDistinct [] = Unit
AreDistinct (id ∷ ids) = (mem_nat id ids ≡ false) × AreDistinct ids

none_selected : (rows : List Row) → filter (λ r. mem_nat r.id []) rows ≡ []
none_selected [] = refl
none_selected (r ∷ rows) = none_selected rows

sorted_by_id-add_found :
    (found : Option Row) (rows : List Row)
    → sorted_by_id (add_found found rows) ≡ placed found (sorted_by_id rows)
unfolding sorted_by_id
sorted_by_id-add_found none rows = refl
sorted_by_id-add_found (some r) rows = refl

sorted_by_id-get_by_ids :
    (ids : List ℕ) (repo : Repository)
    → AreDistinct ids
    → HasDistinctIds repo.rows
    → sorted_by_id (get_by_ids ids repo) ≡ sorted_by_id (filter (λ r. mem_nat r.id ids) repo.rows)
unfolding get_by_ids
sorted_by_id-get_by_ids [] repo a u = ap sorted_by_id (sym (none_selected repo.rows))
sorted_by_id-get_by_ids (id ∷ ids) repo (a, rest) u =
    sorted_by_id-add_found (find_row id repo.rows) (get_by_ids ids repo)
    ∙ ap (placed (find_row id repo.rows)) (sorted_by_id-get_by_ids ids repo rest u)
    ∙ sym (one_more id ids repo.rows u a)

pub get_by_ids-filter :
    (ids : List ℕ) (repo : Repository)
    → AreDistinct ids
    → HasDistinctIds repo.rows
    → sorted_by_id (get_by_ids ids repo) ≡ filter (λ r. mem_nat r.id ids) (sorted_by_id repo.rows)
get_by_ids-filter ids repo a u =
    sorted_by_id-get_by_ids ids repo a u
    ∙ sym (filter-sorted_by_id (λ r. mem_nat r.id ids) repo.rows)
