-- ===== src/Eval/Resumption.antt =====
-- Going on after a crash in `_run_mode` (src/eval/run_suite.py).
use durable_approval_gated_r.Prelude.{
  ◌≡◌, refl, sym, ◌∙◌, ◌⊎◌, inl, inr, subst, String, true, false, ◌||◌, some, List, [], ◌∷◌, ◌++◌,
  map, str_eq, mem_text, arith, eq_iff,
}
use mathlib.Core.Option.{some-injective}
use durable_approval_gated_r.Act.{Error, Result, ok, raised, Result-cases, raised≢ok}
use durable_approval_gated_r.Eval.Validation.{Scenario}
use durable_approval_gated_r.Eval.Metrics.{AblationMode, RunRecord}
use durable_approval_gated_r.Eval.ResultFiles.{
  HasRecords, open-HasRecords, write-HasRecords, opened_files_kept, read-primary,
}
use durable_approval_gated_r.Eval.RunSuite.{
  Results, mode_output_paths, open_files, write_line, remaining, run_todo, run_mode,
}

-- The loop of `_run_mode` gets from scenarios to do, records and files to others.
data Reached (run : Scenario → Result RunRecord) (paths : List String)
    : List Scenario
      → List RunRecord
      → Results
      → List Scenario
      → List RunRecord
      → Results
      → Type 0 where
  stay :
      (todo : List Scenario) (records : List RunRecord) (d : Results)
      → Reached run paths todo records d todo records d
  more :
      (s : Scenario) (r : RunRecord) {todo left : List Scenario} {records last : List RunRecord}
      {d d' : Results}
      → run s ≡ ok r
      → Reached run paths todo (records ++ (r ∷ [])) (write_line r paths d) left last d'
      → Reached run paths (s ∷ todo) records d left last d'

module _ (run : Scenario → Result RunRecord) (mode : AblationMode) where
  -- The files have the records that the loop has.
  Reached-HasRecords :
      {todo left : List Scenario} {records last : List RunRecord} {d d' : Results}
      → Reached run (mode_output_paths mode) todo records d left last d'
      → HasRecords (mode_output_paths mode) records d
      → HasRecords (mode_output_paths mode) last d'
  Reached-HasRecords (stay todo records d) h = h
  Reached-HasRecords (more s r e reached) h =
      Reached-HasRecords reached (write-HasRecords mode r _ _ h)

  -- From there the loop comes to the same end.
  run_todo-Reached :
      {todo left : List Scenario} {records last : List RunRecord} {d d' : Results}
      → Reached run (mode_output_paths mode) todo records d left last d'
      → run_todo run (mode_output_paths mode) todo records d
        ≡ run_todo run (mode_output_paths mode) left last d'
  unfolding run_todo
  run_todo-Reached (stay todo records d) = refl
  run_todo-Reached (more s r e reached) = rw e (run_todo-Reached reached)

  -- A runner that sometimes raises gets to a point that the runner without its failures reaches too.
  crashing-Reached :
      (crashing : Scenario → Result RunRecord) (todo : List Scenario) (records : List RunRecord)
      (d : Results)
      → ((s : Scenario) → (crashing s ≡ run s) ⊎ ((e : Error) × (crashing s ≡ raised e)))
      → (left : List Scenario) × (last : List RunRecord) × Reached run
          (mode_output_paths mode)
          todo
          records
          d
          left
          last
          (run_todo crashing (mode_output_paths mode) todo records d).1
  unfolding run_todo
  crashing-Reached crashing [] records d same = ([], records, stay [] records d)
  crashing-Reached crashing (s ∷ todo) records d same = elim (Result-cases (crashing s)) [
    | inr (e, h) ↦ rw h (s ∷ todo, records, stay (s ∷ todo) records d)
    | inl (r, h) ↦ elim (same s) [
      | inr (e, h') ↦ absurd (raised≢ok e r (sym h' ∙ h))
      | inl agree ↦
          let rest =
            crashing-Reached crashing todo (records ++ (r ∷ []))
              (write_line r (mode_output_paths mode) d) same in
          rw h (rest.0, rest.1, more s r (sym agree ∙ h) rest.2)
    ]
  ]

-- The scenarios have these ids.
abbrev pub HasIds : List String → List Scenario → Type 0
HasIds [] [] = Unit
HasIds [] (s ∷ scenarios) = ⊥
HasIds (id ∷ ids) [] = ⊥
HasIds (id ∷ ids) (s ∷ scenarios) = (s.id ≡ some id) × HasIds ids scenarios

abbrev pub Distinct : List String → Type 0
Distinct [] = Unit
Distinct (id ∷ ids) = (mem_text id ids ≡ false) × Distinct ids

abbrev ids_of : List RunRecord → List String
ids_of records = map (λ r. r.scenario_id) records

abbrev Absent : List String → List RunRecord → Type 0
Absent [] records = Unit
Absent (id ∷ ids) records = (mem_text id (ids_of records) ≡ false) × Absent ids records

mem_text-append :
    (id : String) (r : RunRecord) (records : List RunRecord)
    → mem_text id (ids_of (records ++ (r ∷ [])))
      ≡ (mem_text id (ids_of records) || str_eq id r.scenario_id)
mem_text-append id r [] = ground arith
mem_text-append id r (q ∷ records) = ground (arith, mem_text-append id r records)

Absent-append :
    (ids : List String) (r : RunRecord) (records : List RunRecord)
    → Absent ids records
    → mem_text r.scenario_id ids ≡ false
    → Absent ids (records ++ (r ∷ []))
Absent-append [] r records a h = tt
Absent-append (id ∷ ids) r records (a, rest) h = (
  ground
      (arith, mem_text-append id r records, a, h, eq_iff id r.scenario_id, eq_iff r.scenario_id id),
  Absent-append ids r records rest (ground (arith, h)),
)

mem_text-Reached :
    (run : Scenario → Result RunRecord) (paths : List String) (id : String)
    {todo left : List Scenario} {records last : List RunRecord} {d d' : Results}
    → Reached run paths todo records d left last d'
    → mem_text id (ids_of records) ≡ true
    → mem_text id (ids_of last) ≡ true
mem_text-Reached run paths id (stay todo records d) h = h
mem_text-Reached run paths id (more s r {records = records} e reached) h =
    mem_text-Reached run paths id reached (rw (mem_text-append id r records) (ground (arith, h)))

remaining-Absent :
    (ids : List String) (todo : List Scenario) (records : List RunRecord)
    → HasIds ids todo
    → Absent ids records
    → remaining (ids_of records) todo ≡ ok todo
unfolding remaining
remaining-Absent [] [] records h a = refl
remaining-Absent [] (s ∷ todo) records h a = absurd h
remaining-Absent (id ∷ ids) [] records h a = absurd h
remaining-Absent (id ∷ ids) (s ∷ todo) records (h, hs) (a, rest) =
    rw h (rw (remaining-Absent ids todo records hs rest) (rw a refl))

-- What is left to do is what the records do not have.
remaining-Reached :
    (run : Scenario → Result RunRecord) (paths : List String) {todo left : List Scenario}
    {records last : List RunRecord} {d d' : Results} (ids : List String)
    → ((s : Scenario) (r : RunRecord) → run s ≡ ok r → s.id ≡ some r.scenario_id)
    → Reached run paths todo records d left last d'
    → HasIds ids todo
    → Distinct ids
    → Absent ids records
    → remaining (ids_of last) todo ≡ ok left
unfolding remaining
remaining-Reached run paths ids own (stay todo records d) h u a =
    remaining-Absent ids todo records h a
remaining-Reached run paths [] own (more s r e reached) h u a = absurd h
remaining-Reached run paths (id ∷ ids) own (more s r {records = records} e reached) (h, hs) (u, us)
      (a, rest) =
    let same = some-injective _ _ (sym h ∙ own s r e) in
    let done =
      mem_text-Reached run paths id reached
        (rw (mem_text-append id r records) (ground (arith, eq_iff id r.scenario_id, same))) in
    rw h (
      rw
        (remaining-Reached run paths ids own reached hs us
          (Absent-append ids r records rest (subst (λ i. mem_text i ids ≡ false) same u)))
        (rw done refl))

none_done : (ids : List String) → Absent ids []
none_done [] = tt
none_done (id ∷ ids) = (refl, none_done ids)

-- A mode that stopped at an error, wherever that was, and is resumed returns the records, and leaves
-- the files, of a mode that never stopped: no scenario is run twice and none is left out. The scenarios
-- have distinct ids, and a record has the id of its scenario.
pub resume_completes :
    (run crashing : Scenario → Result RunRecord) (mode : AblationMode) (ids : List String)
    (scenarios : List Scenario) (d : Results)
    → ((s : Scenario) (r : RunRecord) → run s ≡ ok r → s.id ≡ some r.scenario_id)
    → ((s : Scenario) → (crashing s ≡ run s) ⊎ ((e : Error) × (crashing s ≡ raised e)))
    → HasIds ids scenarios
    → Distinct ids
    → run_mode run mode true scenarios (run_mode crashing mode false scenarios d).1
      ≡ run_mode run mode false scenarios d
unfolding run_mode
resume_completes run crashing mode ids scenarios d own same h u =
    let paths = mode_output_paths mode in
    let d0 = open_files false paths d in
    let (left, last, reached) = crashing-Reached run mode crashing scenarios [] d0 same in
    let kept = Reached-HasRecords run mode reached (open-HasRecords mode d) in
    rw (read-primary mode last _ kept) (
      rw (remaining-Reached run paths ids own reached h u (none_done ids))
        (rw (opened_files_kept paths last _ kept) (sym (run_todo-Reached run mode reached))))
