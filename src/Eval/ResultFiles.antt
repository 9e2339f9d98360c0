-- ===== src/Eval/ResultFiles.antt =====
-- The files under results/ that `_run_mode` of src/eval/run_suite.py writes.
use durable_approval_gated_r.Prelude.{◌≡◌, refl, ap, String, false, not, some, List, [], ◌∷◌, ◌++◌}
use durable_approval_gated_r.Prelude.Dict.{lookup, insert, lookup-insert, insert-lookup_self}
use durable_approval_gated_r.Eval.Metrics.{AblationMode, RunRecord}
use durable_approval_gated_r.Eval.RunSuite.{
  Results, primary, mode_output_paths, lines, read_jsonl, open_files, write_line, is_empty,
}

-- Each file of a mode has the records.
abbrev pub HasRecords : List String → List RunRecord → Results → Type 0
HasRecords [] records d = Unit
HasRecords (p ∷ ps) records d = (lookup p d ≡ some records) × HasRecords ps records d

pub open-HasRecords :
    (mode : AblationMode) (d : Results)
    → HasRecords (mode_output_paths mode) [] (open_files false (mode_output_paths mode) d)
unfolding open_files
open-HasRecords AblationMode.full d = (
  rw (lookup-insert "runs.jsonl" "runs_full.jsonl" [] (insert "runs_full.jsonl" [] d))
      (lookup-insert "runs_full.jsonl" "runs_full.jsonl" [] d),
  (lookup-insert "runs.jsonl" "runs.jsonl" [] (insert "runs_full.jsonl" [] d), tt),
)
open-HasRecords AblationMode.no_durability d =
    (lookup-insert "runs_no_durability.jsonl" "runs_no_durability.jsonl" [] d, tt)
open-HasRecords AblationMode.no_revalidation d =
    (lookup-insert "runs_no_revalidation.jsonl" "runs_no_revalidation.jsonl" [] d, tt)

pub write-HasRecords :
    (mode : AblationMode) (r : RunRecord) (records : List RunRecord) (d : Results)
    → HasRecords (mode_output_paths mode) records d
    → HasRecords
        (mode_output_paths mode)
        (records ++ (r ∷ []))
        (write_line r (mode_output_paths mode) d)
unfolding write_line read_jsonl
write-HasRecords AblationMode.full r records d (h, (h', done)) =
    let more = records ++ (r ∷ []) in
    let d1 = insert "runs_full.jsonl" more d in
    rw h (
      rw (lookup-insert "runs_full.jsonl" "runs.jsonl" more d) (
        rw h' (
          rw (lookup-insert "runs.jsonl" "runs_full.jsonl" more d1)
              (lookup-insert "runs_full.jsonl" "runs_full.jsonl" more d),
          (lookup-insert "runs.jsonl" "runs.jsonl" more d1, tt),
        )))
write-HasRecords AblationMode.no_durability r records d (h, done) = rw h (
  lookup-insert "runs_no_durability.jsonl" "runs_no_durability.jsonl" (records ++ (r ∷ [])) d,
  tt,
)
write-HasRecords AblationMode.no_revalidation r records d (h, done) = rw h (
  lookup-insert "runs_no_revalidation.jsonl" "runs_no_revalidation.jsonl" (records ++ (r ∷ [])) d,
  tt,
)

-- A file that is opened and keeps its records is as it was.
pub opened_files_kept :
    (paths : List String) (records : List RunRecord) (d : Results)
    → HasRecords paths records d
    → open_files (not (is_empty records)) paths d ≡ d
unfolding open_files read_jsonl
opened_files_kept [] records d h = refl
opened_files_kept (p ∷ ps) [] d (h, hs) =
    rw (insert-lookup_self p [] d h) (opened_files_kept ps [] d hs)
opened_files_kept (p ∷ ps) (r ∷ records) d (h, hs) =
    rw h (rw (insert-lookup_self p (r ∷ records) d h) (opened_files_kept ps (r ∷ records) d hs))

-- The first file is the one that a resumed mode reads.
pub read-primary :
    (mode : AblationMode) (records : List RunRecord) (d : Results)
    → HasRecords (mode_output_paths mode) records d
    → read_jsonl (primary mode) d ≡ records
unfolding read_jsonl
read-primary AblationMode.full records d h = ap lines h.0
read-primary AblationMode.no_durability records d h = ap lines h.0
read-primary AblationMode.no_revalidation records d h = ap lines h.0
