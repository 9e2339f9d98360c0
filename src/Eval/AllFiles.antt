-- ===== src/Eval/AllFiles.antt =====
-- What holds of every record that src/eval/run_suite.py runs or reads, through its files under results/.
use durable_approval_gated_r.Prelude.{
  str_eq, Option, some, ◌≡◌, subst, inl, inr, String, Bool, true, false, List, [], ◌∷◌, ◌++◌,
  if◌then◌else◌, not, ◌&&◌,
}
use durable_approval_gated_r.Prelude.Dict.{lookup, insert, lookup-insert}
use durable_approval_gated_r.Act.{Result, ok, raised≢ok, ok-injective, Result-cases, go_on-eq-ok}
use durable_approval_gated_r.Eval.Validation.{Scenario}
use durable_approval_gated_r.Eval.Metrics.{AblationMode, RunRecord}
use durable_approval_gated_r.Eval.RunSuite.{
  Results, primary, mode_output_paths, lines, opened, run_modes, read_jsonl, open_files, write_line,
  is_empty, todo_of, run_todo, run_mode,
}

abbrev pub Every {ℓ} : {A : Type ℓ} → (A → Type 0) → List A → Type 0
Every P [] = Unit
Every P (x ∷ xs) = P x × Every P xs

Every-append {ℓ} :
    {A : Type ℓ} (P : A → Type 0) (xs : List A) (x : A)
    → Every P xs
    → P x
    → Every P (xs ++ (x ∷ []))
Every-append P [] x h p = (p, tt)
Every-append P (y ∷ xs) x (h, hs) p = (h, Every-append P xs x hs p)

module _ (P : RunRecord → Type 0) (run : Scenario → Result RunRecord) (paths : List String) where
  run_todo-Every :
      (todo : List Scenario) (records all : List RunRecord) (d : Results)
      → ((s : Scenario) (r : RunRecord) → run s ≡ ok r → P r)
      → Every P records
      → (run_todo run paths todo records d).0 ≡ ok all
      → Every P all
  unfolding run_todo
  run_todo-Every [] records all d good h e = subst (Every P) (ok-injective e) h
  run_todo-Every (s ∷ todo) records all d good h e = elim (Result-cases (run s)) [
    | inr (x, failed) ↦ absurd (raised≢ok x all (rw failed at e))
    | inl (r, done) ↦
        run_todo-Every todo (records ++ (r ∷ [])) all (write_line r paths d) good
          (Every-append P records r h (good s r done)) (rw done at e)
  ]

abbrev kept_of : Bool → AblationMode → Results → List RunRecord
kept_of resume mode d = if resume then read_jsonl (primary mode) d else []

kept-Every :
    (P : RunRecord → Type 0) (resume : Bool) (mode : AblationMode) (d : Results)
    → Every P (read_jsonl (primary mode) d)
    → Every P (kept_of resume mode d)
kept-Every P true mode d h = h
kept-Every P false mode d h = tt

run_mode-Every :
    (P : RunRecord → Type 0) (run : Scenario → Result RunRecord) (mode : AblationMode)
    (resume : Bool) (scenarios : List Scenario) (records : List RunRecord) (d : Results)
    → ((s : Scenario) (r : RunRecord) → run s ≡ ok r → P r)
    → Every P (read_jsonl (primary mode) d)
    → (run_mode run mode resume scenarios d).0 ≡ ok records
    → Every P records
unfolding run_mode
run_mode-Every P run mode resume scenarios records d good h e =
    let already = kept_of resume mode d in
    elim (Result-cases (todo_of resume already scenarios)) [
      | inr (x, failed) ↦ absurd (raised≢ok x records (rw failed at e))
      | inl (todo, found) ↦
          run_todo-Every P run (mode_output_paths mode) todo already records
            (open_files (resume && not (is_empty already)) (mode_output_paths mode) d) good
            (kept-Every P resume mode d h) (rw found at e)
    ]

-- What holds of each record in the files of results/.
abbrev pub AllFiles : (RunRecord → Type 0) → Results → Type 0
AllFiles P d = (path : String) → Every P (read_jsonl path d)

module _ (P : RunRecord → Type 0) where
  lines-Every :
      (b : Bool) (records : List RunRecord) (o : Option (List RunRecord))
      → Every P records
      → Every P (lines o)
      → Every P (lines (if b then some records else o))
  lines-Every true records o h k = h
  lines-Every false records o h k = k

  insert-AllFiles :
      (path : String) (records : List RunRecord) (d : Results)
      → Every P records
      → AllFiles P d
      → AllFiles P (insert path records d)
  unfolding read_jsonl
  insert-AllFiles path records d h k other =
      rw (lookup-insert path other records d)
        (lines-Every (str_eq path other) records (lookup other d) h (k other))

  kept-AllFiles :
      (append : Bool) (path : String) (d : Results)
      → AllFiles P d
      → AllFiles P (opened append path d)
  kept-AllFiles true path d k = insert-AllFiles path (read_jsonl path d) d (k path) k
  kept-AllFiles false path d k = insert-AllFiles path [] d tt k

  open_files-AllFiles :
      (append : Bool) (paths : List String) (d : Results)
      → AllFiles P d
      → AllFiles P (open_files append paths d)
  unfolding open_files
  open_files-AllFiles append [] d k = k
  open_files-AllFiles append (path ∷ paths) d k =
      open_files-AllFiles append paths (opened append path d) (kept-AllFiles append path d k)

  write_line-AllFiles :
      (r : RunRecord) (paths : List String) (d : Results)
      → P r
      → AllFiles P d
      → AllFiles P (write_line r paths d)
  unfolding write_line
  write_line-AllFiles r [] d h k = k
  write_line-AllFiles r (path ∷ paths) d h k =
      write_line-AllFiles r paths _ h
        (insert-AllFiles path _ d (Every-append P (read_jsonl path d) r (k path) h) k)

  module _ (run : Scenario → Result RunRecord)
      (good : (s : Scenario) (r : RunRecord) → run s ≡ ok r → P r) where
    run_todo-AllFiles :
        (paths : List String) (todo : List Scenario) (records : List RunRecord) (d : Results)
        → AllFiles P d
        → AllFiles P (run_todo run paths todo records d).1
    unfolding run_todo
    run_todo-AllFiles paths [] records d k = k
    run_todo-AllFiles paths (s ∷ todo) records d k = elim (Result-cases (run s)) [
      | inr (x, failed) ↦ rw failed k
      | inl (r, done) ↦ rw done (
          run_todo-AllFiles paths todo (records ++ (r ∷ [])) (write_line r paths d)
            (write_line-AllFiles r paths d (good s r done) k))
    ]

    run_mode-AllFiles :
        (mode : AblationMode) (resume : Bool) (scenarios : List Scenario) (d : Results)
        → AllFiles P d
        → AllFiles P (run_mode run mode resume scenarios d).1
    unfolding run_mode
    run_mode-AllFiles mode resume scenarios d k =
        let already = kept_of resume mode d in
        elim (Result-cases (todo_of resume already scenarios)) [
          | inr (x, failed) ↦ rw failed k
          | inl (todo, found) ↦ rw found (
              run_todo-AllFiles (mode_output_paths mode) todo already _ (
                open_files-AllFiles (resume && not (is_empty already)) (mode_output_paths mode) d
                  k))
        ]

module _ (P : RunRecord → Type 0) (run : AblationMode → Scenario → Result RunRecord)
    (good : (mode : AblationMode) (s : Scenario) (r : RunRecord) → run mode s ≡ ok r → P r) where
  pub run_modes-Every :
      (modes : List AblationMode) (resume : Bool) (scenarios : List Scenario)
      (by_mode : List (AblationMode × List RunRecord)) (d : Results)
      → AllFiles P d
      → (run_modes run modes resume scenarios d).0 ≡ ok by_mode
      → Every (λ m. Every P m.1) by_mode
  unfolding run_modes
  run_modes-Every [] resume scenarios by_mode d k e =
      subst (Every (λ m. Every P m.1)) (ok-injective e) tt
  run_modes-Every (mode ∷ modes) resume scenarios by_mode d k e =
      let first = run_mode (run mode) mode resume scenarios d in
      let (records, done, e1) = go_on-eq-ok first.0 _ first.1 e in
      let rest = run_modes run modes resume scenarios first.1 in
      let (others, more, e2) = go_on-eq-ok rest.0 _ rest.1 e1 in
      subst (Every (λ m. Every P m.1)) (ok-injective e2) (
        run_mode-Every P (run mode) mode resume scenarios records d (good mode) (k (primary mode))
            done,
        run_modes-Every modes resume scenarios others first.1
            (run_mode-AllFiles P (run mode) (good mode) mode resume scenarios d k) more,
      )
