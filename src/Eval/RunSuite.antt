-- ===== src/Eval/RunSuite.antt =====
-- src/eval/run_suite.py: one ablation mode of the suite, its files under results/, and going on after a
-- crash. A file of JSON lines is the list of its records; the runner of a scenario is an argument.
use durable_approval_gated_r.Prelude.{
  String, Bool, true, false, ◌&&◌, not, Option, none, some, List, [], ◌∷◌, ◌++◌, map, if◌then◌else◌,
  mem_text,
}
use durable_approval_gated_r.Prelude.Dict.{Dict, lookup, insert}
use durable_approval_gated_r.Act.{
  Result, ok, required, map_result, and_then, Act, pure, lift, gets, ◌>>=◌,
}
use durable_approval_gated_r.Eval.Validation.{Scenario}
use durable_approval_gated_r.Eval.Metrics.{AblationMode, RunRecord}

-- The files of results/ by name.
abbrev pub Results : Type 0
Results = Dict (List RunRecord)

abbrev pub primary : AblationMode → String
primary AblationMode.full = "runs_full.jsonl"
primary AblationMode.no_durability = "runs_no_durability.jsonl"
primary AblationMode.no_revalidation = "runs_no_revalidation.jsonl"

-- `_mode_output_paths`
abbrev pub mode_output_paths : AblationMode → List String
mode_output_paths AblationMode.full = primary AblationMode.full ∷ "runs.jsonl" ∷ []
mode_output_paths AblationMode.no_durability = primary AblationMode.no_durability ∷ []
mode_output_paths AblationMode.no_revalidation = primary AblationMode.no_revalidation ∷ []

abbrev pub lines : Option (List RunRecord) → List RunRecord
lines none = []
lines (some records) = records

-- `_read_jsonl`: no file is no records.
unfoldable pub read_jsonl : String → Results → List RunRecord
unfolding lookup
read_jsonl path results = lines (lookup path results)

-- `p.open(write_mode)`: the mode "a" keeps what the file has, "w" does not.
abbrev pub opened : Bool → String → Results → Results
opened append path results = insert path (if append then read_jsonl path results else []) results

unfoldable pub open_files : Bool → List String → Results → Results
unfolding read_jsonl insert
open_files append [] results = results
open_files append (path ∷ paths) results = open_files append paths (opened append path results)

-- `f.write(line)` to each of the files.
unfoldable pub write_line : RunRecord → List String → Results → Results
unfolding read_jsonl insert
write_line r [] results = results
write_line r (path ∷ paths) results =
    write_line r paths (insert path (read_jsonl path results ++ (r ∷ [])) results)

abbrev pub change {ℓ} : {S : Type ℓ} → (S → S) → Act {ℓ, 0} S Unit
change f s = (ok tt, f s)

-- `[s for s in scenarios if s["id"] not in done_ids]`
unfoldable pub remaining : List String → List Scenario → Result (List Scenario)
remaining done_ids [] = ok []
remaining done_ids (s ∷ scenarios) =
    let rest = remaining done_ids scenarios in
    and_then (required "id" s.id)
      (λ id. map_result (λ todo. if mem_text id done_ids then todo else s ∷ todo) rest)

abbrev pub todo_of : Bool → List RunRecord → List Scenario → Result (List Scenario)
todo_of false already scenarios = ok scenarios
todo_of true already scenarios = remaining (map (λ r. r.scenario_id) already) scenarios

abbrev pub is_empty {ℓ} : {A : Type ℓ} → List A → Bool
is_empty [] = true
is_empty (x ∷ xs) = false

-- The loop of `_run_mode`: each record is written as soon as its scenario is done.
unfoldable pub run_todo :
    (Scenario → Result RunRecord)
    → List String
    → List Scenario
    → List RunRecord
    → Act Results (List RunRecord)
unfolding write_line
run_todo run paths [] records = pure records
run_todo run paths (s ∷ todo) records = do
  r ← lift (run s)
  written ← change (write_line r paths)
  run_todo run paths todo (records ++ (r ∷ []))

-- `_run_mode`
unfoldable pub run_mode :
    (Scenario → Result RunRecord)
    → AblationMode
    → Bool
    → List Scenario
    → Act Results (List RunRecord)
unfolding read_jsonl remaining open_files run_todo
run_mode run mode resume scenarios = do
  already ← gets (λ results. if resume then read_jsonl (primary mode) results else [])
  todo ← lift (todo_of resume already scenarios)
  files ← change (open_files (resume && not (is_empty already)) (mode_output_paths mode))
  run_todo run (mode_output_paths mode) todo already

-- `[s for s in scenarios if s["id"] in scenario_ids]`, if there are any ids.
unfoldable pub selected : List String → List Scenario → Result (List Scenario)
selected [] scenarios = ok scenarios
selected (id ∷ ids) [] = ok []
selected (id ∷ ids) (s ∷ scenarios) =
    let rest = selected (id ∷ ids) scenarios in
    and_then (required "id" s.id)
      (λ name. map_result (λ kept. if mem_text name (id ∷ ids) then s ∷ kept else kept) rest)

-- The loop of `run_suite` over the modes; each has its runner. A mode that is named twice keeps both of
-- its results, where the dictionary of the source keeps the second.
unfoldable pub run_modes :
    (AblationMode → Scenario → Result RunRecord)
    → List AblationMode
    → Bool
    → List Scenario
    → Act Results (List (AblationMode × List RunRecord))
unfolding run_mode
run_modes run [] resume scenarios = pure []
run_modes run (mode ∷ modes) resume scenarios = do
  records ← run_mode (run mode) mode resume scenarios
  rest ← run_modes run modes resume scenarios
  pure ((mode, records) ∷ rest)

-- `run_suite` up to its summary, for the scenarios of the file.
unfoldable pub run_suite :
    (AblationMode → Scenario → Result RunRecord)
    → List AblationMode
    → List String
    → Bool
    → List Scenario
    → Act Results (List (AblationMode × List RunRecord))
unfolding selected run_modes
run_suite run modes scenario_ids resume scenarios = do
  chosen ← lift (selected scenario_ids scenarios)
  run_modes run modes resume chosen
