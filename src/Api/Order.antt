-- ===== src/Api/Order.antt =====
-- The two registries of src/api/run_registry.py answer alike, up to the order of the waiting runs.
use mathlib.Core.List.{Permᴰ, perm_middle, append-nil}
use mathlib.Core.List.Permᴰ
use mathlib.Core.List.Perm
use mathlib.Core.Logic.{∥∥₁_map}
use durable_approval_gated_r.Prelude.{
  String, ◌≡◌, refl, sym, ap, ◌∙◌, subst, inl, inr, Bool, false, not, none, some, List, [], ◌∷◌,
  ◌++◌, map, filter, if◌then◌else◌, str_eq, Bool-cases, arith, eq_iff, Perm,
}
use durable_approval_gated_r.Prelude.Dict.{Dict, lookup, insert, lookup-insert}
use durable_approval_gated_r.Api.{RunStatusResponse, is_waiting, upsert}
use durable_approval_gated_r.Api.Registry.{
  Driver, IsSql, others, find_run, Call, upsert_call, get_call, list_call, Answer, run_of,
  waiting_runs, answers, sql_answers,
}

module _ {A : Type 0} (p : A → Bool) where
  filter-cons-same :
      (a b : A) (l₁ l₂ : List A)
      → a ≡ b
      → Permᴰ (filter p l₁) (filter p l₂)
      → Permᴰ (filter p (a ∷ l₁)) (filter p (b ∷ l₂))
  filter-cons-same a b l₁ l₂ e h = elim (Bool-cases (p a)) [
    | inl keeps ↦ rw (keeps, (ap p (sym e) ∙ keeps)) (Permᴰ.cons e h)
    | inr drops ↦ rw (drops, (ap p (sym e) ∙ drops)) h
  ]

  filter-swapped : (a b : A) (l : List A) → Permᴰ (filter p (a ∷ b ∷ l)) (filter p (b ∷ a ∷ l))
  filter-swapped a b l = elim (Bool-cases (p a)) [
    | inl one ↦ elim (Bool-cases (p b)) [
      | inl other ↦ rw (one, other) (Permᴰ.swap refl refl)
      | inr other ↦ rw (one, other) (Permᴰ.refl _)
    ]
    | inr one ↦ elim (Bool-cases (p b)) [
      | inl other ↦ rw (one, other) (Permᴰ.refl _)
      | inr other ↦ rw (one, other) (Permᴰ.refl _)
    ]
  ]

  filter-Permᴰ : {l₁ l₂ : List A} → Permᴰ l₁ l₂ → Permᴰ (filter p l₁) (filter p l₂)
  filter-Permᴰ Permᴰ.nil = Permᴰ.nil
  filter-Permᴰ (Permᴰ.cons {a = a} {b = b} {l₁ = l₁} {l₂ = l₂} e h) =
      filter-cons-same a b l₁ l₂ e (filter-Permᴰ h)
  filter-Permᴰ (Permᴰ.swap {a = a} {b = b} {a' = a'} {b' = b'} {l = l} e₁ e₂) =
      subst (λ x. Permᴰ (filter p (a ∷ b ∷ l)) (filter p (x ∷ b' ∷ l))) e₂
        (subst (λ y. Permᴰ (filter p (a ∷ b ∷ l)) (filter p (b ∷ y ∷ l))) e₁ (filter-swapped a b l))
  filter-Permᴰ (Permᴰ.trans h k) = Permᴰ.trans (filter-Permᴰ h) (filter-Permᴰ k)

  filter-Perm : {l₁ l₂ : List A} → Perm l₁ l₂ → Perm (filter p l₁) (filter p l₂)
  filter-Perm {l₁} {l₂} h = ∥∥₁_map {B = Permᴰ (filter p l₁) (filter p l₂)} h filter-Permᴰ

abbrev values : Dict RunStatusResponse → List RunStatusResponse
values runs = map (λ p. p.1) runs

-- Each row is at its run's id, and each id is there once.
abbrev pub IsRegistry : Dict RunStatusResponse → Type 0
IsRegistry [] = Unit
IsRegistry ((id, r) ∷ runs) = (r.run_id ≡ id) × (lookup id runs ≡ none) × IsRegistry runs

others_all :
    (id : String) (runs : Dict RunStatusResponse)
    → IsRegistry runs
    → lookup id runs ≡ none
    → others id (values runs) ≡ values runs
unfolding lookup
others_all id [] own absent = refl
others_all id ((j, r) ∷ runs) (here, once, rest) absent = elim (Bool-cases (str_eq r.run_id id)) [
  | inl same ↦ absurd (ground (arith, rw here at same, absent))
  | inr other ↦
      rw other
        (ap (λ rows. r ∷ rows) (others_all id runs rest (ground (arith, rw here at other, absent))))
]

lookup-insert_other :
    (j id : String) (row : RunStatusResponse) (runs : Dict RunStatusResponse)
    → str_eq id j ≡ false
    → lookup j runs ≡ none
    → lookup j (insert id row runs) ≡ none
lookup-insert_other j id row runs other absent = rw (lookup-insert id j row runs, other) absent

upsert-IsRegistry :
    (row : RunStatusResponse) (runs : Dict RunStatusResponse)
    → IsRegistry runs
    → IsRegistry (upsert row runs)
unfolding insert lookup
upsert-IsRegistry row [] own = (refl, refl, tt)
upsert-IsRegistry row ((j, r) ∷ runs) (here, once, rest) = elim (Bool-cases (str_eq j row.run_id)) [
  | inl same ↦ rw same (sym ((eq_iff j row.run_id).0 same), once, rest)
  | inr other ↦ rw other (
    here,
    lookup-insert_other j row.run_id row runs
        (ground (arith, other, eq_iff j row.run_id, eq_iff row.run_id j)) once,
    upsert-IsRegistry row runs rest,
  )
]

-- The rows after an upsert: the row, and those of the other runs.
values-upsert :
    (row : RunStatusResponse) (runs : Dict RunStatusResponse)
    → IsRegistry runs
    → Perm (values (upsert row runs)) (row ∷ others row.run_id (values runs))
unfolding insert
values-upsert row [] own = Perm.refl _
values-upsert row ((j, r) ∷ runs) (here, once, rest) = elim (Bool-cases (str_eq j row.run_id)) [
  | inl same ↦
      let is : j ≡ row.run_id = (eq_iff j row.run_id).0 same in
      rw (same, ap (λ i. str_eq i row.run_id) here ∙ same)
        (rw (others_all row.run_id runs rest (subst (λ i. lookup i runs ≡ none) is once))
          (Perm.refl _))
  | inr other ↦
      rw (other, ap (λ i. str_eq i row.run_id) here ∙ other)
        (Perm.trans (Perm.cons r (values-upsert row runs rest)) (Perm.swap row r _))
]

find_run-upsert :
    (row : RunStatusResponse) (id : String) (rows : List RunStatusResponse)
    → find_run id (others row.run_id rows ++ row ∷ [])
      ≡ (if str_eq row.run_id id then some row else find_run id rows)
unfolding find_run
find_run-upsert row id [] = refl
find_run-upsert row id (r ∷ rows) = elim (Bool-cases (str_eq r.run_id row.run_id)) [
  | inl same ↦
      rw same (find_run-upsert row id rows ∙ ground (arith, same, eq_iff r.run_id row.run_id))
  | inr other ↦ rw other (
      rw (find_run-upsert row id rows) (
        ground
          (arith, other, eq_iff r.run_id row.run_id, eq_iff r.run_id id, eq_iff row.run_id id)))
]

-- The table has the rows of the dictionary, in any order.
abbrev pub Matches : (d : Driver) → d.Db → Dict RunStatusResponse → Type 0
Matches d db runs =
    Perm (d.rows db) (values runs)
    × ((id : String) → find_run id (d.rows db) ≡ lookup id runs)
    × IsRegistry runs

-- The same run, or the same runs in some order.
abbrev pub SameAnswer : Answer → Answer → Type 0
SameAnswer (run_of r) (run_of s) = r ≡ s
SameAnswer (waiting_runs rows) (waiting_runs others) = Perm rows others
SameAnswer (run_of r) (waiting_runs rows) = ⊥
SameAnswer (waiting_runs rows) (run_of r) = ⊥

abbrev pub SameAnswers : List Answer → List Answer → Type 0
SameAnswers [] [] = Unit
SameAnswers (a ∷ as_) (b ∷ bs) = SameAnswer a b × SameAnswers as_ bs
SameAnswers [] (b ∷ bs) = ⊥
SameAnswers (a ∷ as_) [] = ⊥

last_first : (r : RunStatusResponse) (l : List RunStatusResponse) → Perm (l ++ r ∷ []) (r ∷ l)
last_first r l = rw (append-nil l) at (perm_middle {a = r} l [])

module _ (d : Driver) (sql : IsSql d) where
  upsert-Matches :
      (row : RunStatusResponse) (db : d.Db) (runs : Dict RunStatusResponse)
      → Matches d db runs
      → Matches d (d.upsert_row row db) (upsert row runs)
  upsert-Matches row db runs (rows, found, own) = (
    rw (sql.upsert_row_lem row db) (
        Perm.trans (last_first row (others row.run_id (d.rows db))) (
          Perm.trans (Perm.cons row (filter-Perm (λ r. not (str_eq r.run_id row.run_id)) rows))
            (Perm.symm (values-upsert row runs own)))),
    λ id.
        ap (find_run id) (sql.upsert_row_lem row db)
        ∙ find_run-upsert row id (d.rows db)
        ∙ rw (found id) (sym (lookup-insert row.run_id id row runs)),
    upsert-IsRegistry row runs own,
  )

  -- A database that does what SQL says, with the rows of a registry in memory, gives the same answers to
  -- any sequence of calls, up to the order of the waiting runs: the database lists them in the order of
  -- their last change, the dictionary in the order of their creation.
  pub same_runs :
      (calls : List Call) (db : d.Db) (runs : Dict RunStatusResponse)
      → Matches d db runs
      → SameAnswers (sql_answers d calls db) (answers calls runs)
  unfolding sql_answers answers
  same_runs [] db runs h = tt
  same_runs (upsert_call row ∷ calls) db runs h =
      same_runs calls (d.upsert_row row db) (upsert row runs) (upsert-Matches row db runs h)
  same_runs (get_call id ∷ calls) db runs (rows, found, own) =
      (sql.select_run_lem id db ∙ found id, same_runs calls db runs (rows, found, own))
  same_runs (list_call ∷ calls) db runs (rows, found, own) = (
    rw (sql.select_waiting_lem db) (filter-Perm (λ r. is_waiting r.status) rows),
    same_runs calls db runs (rows, found, own),
  )
