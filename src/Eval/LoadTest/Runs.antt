-- ===== src/Eval/LoadTest/Runs.antt =====
-- The load test of src/eval/load_test.py, for any number of runs and any order of their super-steps.
use durable_approval_gated_r.Prelude.{
  ℕ, zero, suc, ◌≤◌, ◌<◌, String, ◌≡◌, refl, sym, ap, subst, true, none, some, List, [], ==_iff,
}
use durable_approval_gated_r.Prelude.Dict.{Dict, lookup}
use durable_approval_gated_r.Act.{ok}
use durable_approval_gated_r.World.{ToolResult, Compensation, Execution}
use durable_approval_gated_r.Fingerprint.{Fields}
use durable_approval_gated_r.Agent.State.{AgentRuntimeContext, initial_state, merge}
use durable_approval_gated_r.Agent.Routes.{Node}
use durable_approval_gated_r.Agent.Graph.{Interrupt, waiting, finished}
use durable_approval_gated_r.Eval.Sandbox.{build_sandbox}
use durable_approval_gated_r.Eval.Scenario.{approval_by}
use durable_approval_gated_r.Eval.LoadTest.{
  load_test_context, Shared, Task, running, stopped, advance, gather, is_suspended, ended_completed,
  error_of, failure, unless_raised, start_task, resume_task, report_of, run_load_test,
}
use durable_approval_gated_r.Eval.LoadTest.Phases.{
  world_at, at_proposal, at_risk, at_marking, at_approval, at_check, at_preparation, at_execution,
  at_verification, at_completion, at_end, Goes, start_steps, burst_steps, check_step,
  execution_step,
}
use durable_approval_gated_r.Eval.LoadTest.Schedules.{
  turns, NamesBelow, less, gather-ends, count_all, no_failure,
}

-- The sandbox as it was built, up to restarts of service_a and its ledger.
abbrev Standing : Shared → Type 0
Standing sh = (j : ℕ) × (store : Dict Execution) × (sh.world ≡ world_at j store)

as_built : build_sandbox [] ≡ world_at 0 []
unfolding build_sandbox lookup
as_built = refl

-- All of the runs are suspended at first, and completed at last.
report-ok :
    (n : ℕ) (results resumed : ℕ → Task)
    → ((i : ℕ) → i < n → (is_suspended (results i) ≡ true) × (error_of (results i) ≡ none))
    → ((i : ℕ) → i < n → (ended_completed (resumed i) ≡ true) × (error_of (resumed i) ≡ none))
    → unless_raised
        (failure n results)
        (unless_raised (failure n resumed) (ok (report_of n results resumed)))
      ≡ ok (record {
        n = n;
        suspended_count = n;
        all_suspended = true;
        completed_count = n;
        state_intact = true;
      })
report-ok n results resumed s c =
    rw
      (
        no_failure n results (λ i below. (s i below).1),
        no_failure n resumed (λ i below. (c i below).1),
        count_all is_suspended n results (λ i below. (s i below).0),
        count_all ended_completed n resumed (λ i below. (c i below).0),
        (==_iff n n).1 refl,
      )
      refl

module _ (digest : Fields → String) (clock : ℕ → ℕ) (run_id : ℕ → String) where
  abbrev rt : AgentRuntimeContext
  rt = load_test_context digest clock

  -- What a super-step of the task gives in a standing sandbox.
  abbrev Forward : (Task → Type 0) → Task → Shared → Type 0
  Forward P t sh = P (advance rt t sh).0 × Standing (advance rt t sh).1

  step_to :
      (id : String) (k : ℕ) (P : Task → Type 0) (t from to : Task) (sh : Shared) (j : ℕ)
      (store : Dict Execution)
      → t ≡ from
      → sh.world ≡ world_at j store
      → Goes digest clock id k j store sh.audit sh.turn from to
      → P to
      → Forward P t sh
  step_to id k P t from to sh j store is at (a, b) p =
      subst (λ x. Forward P x sh) (sym is)
        (subst (λ w. Forward P from (record sh { world = w })) (sym at)
          (subst P (sym a) p, (j, store, b)))

  -- A run with m super-steps to its suspension.
  abbrev Starting : ℕ → ℕ → Task → Type 0
  Starting i zero t =
      (k : ℕ) × (q : Interrupt) × (t ≡ stopped (waiting q) (at_approval digest (run_id i) k))
  Starting i (suc zero) t =
      (k : ℕ) × (t ≡ running Node.await_approval none (at_approval digest (run_id i) k))
  Starting i (suc (suc zero)) t =
      (k : ℕ) × (t ≡ running Node.mark_awaiting_approval none (at_marking digest (run_id i) k))
  Starting i (suc (suc (suc zero))) t =
      (k : ℕ) × (t ≡ running Node.classify_risk none (at_risk digest (run_id i) k))
  Starting i (suc (suc (suc (suc zero)))) t =
      (k : ℕ) × (t ≡ running Node.propose_action none (at_proposal digest (run_id i) k))
  Starting i (suc (suc (suc (suc (suc zero))))) t =
      t ≡ running Node.diagnose none (initial_state (run_id i))
  Starting i (suc (suc (suc (suc (suc (suc m)))))) t = ⊥

  advance-Starting :
      (i m : ℕ) (t : Task) (sh : Shared)
      → Starting i m t
      → Standing sh
      → Forward (Starting i (less m)) t sh
  unfolding advance
  advance-Starting i zero t sh (k, q, is) standing = rw is ((k, q, refl), standing)
  advance-Starting i (suc zero) t sh (k, is) (j, store, at) =
      let (_, _, _, _, next) = start_steps digest clock (run_id i) k j store sh.audit sh.turn in
      step_to (run_id i) k (Starting i zero) t _ _ sh j store is at next (k, _, refl)
  advance-Starting i (suc (suc zero)) t sh (k, is) (j, store, at) =
      let (_, _, _, next, _) = start_steps digest clock (run_id i) k j store sh.audit sh.turn in
      step_to (run_id i) k (Starting i (suc zero)) t _ _ sh j store is at next (k, refl)
  advance-Starting i (suc (suc (suc zero))) t sh (k, is) (j, store, at) =
      let (_, _, next, _, _) = start_steps digest clock (run_id i) k j store sh.audit sh.turn in
      step_to (run_id i) k (Starting i (suc (suc zero))) t _ _ sh j store is at next (k, refl)
  advance-Starting i (suc (suc (suc (suc zero)))) t sh (k, is) (j, store, at) =
      let (_, next, _, _, _) = start_steps digest clock (run_id i) k j store sh.audit sh.turn in
      step_to (run_id i) k (Starting i (suc (suc (suc zero)))) t _ _ sh j store is at next (k, refl)
  advance-Starting i (suc (suc (suc (suc (suc zero))))) t sh is (j, store, at) =
      let (next, _, _, _, _) = start_steps digest clock (run_id i) 0 j store sh.audit sh.turn in
      step_to (run_id i) 0 (Starting i (suc (suc (suc (suc zero))))) t _ _ sh j store is at next
        (j, refl)
  advance-Starting i (suc (suc (suc (suc (suc (suc m)))))) t sh h standing = absurd h

  -- A run with m super-steps from its approval to its end.
  abbrev Bursting : ℕ → ℕ → Task → Type 0
  Bursting i zero t =
      (k : ℕ) × (j : ℕ) × (r : ToolResult) × (c : Compensation) × (t
        ≡ stopped finished (at_end digest (run_id i) k j r c))
  Bursting i (suc zero) t =
      (k : ℕ) × (j : ℕ) × (r : ToolResult) × (c : Compensation) × (t
        ≡ running Node.completed none (at_completion digest (run_id i) k j r c))
  Bursting i (suc (suc zero)) t =
      (k : ℕ) × (j : ℕ) × (r : ToolResult) × (c : Compensation) × (t
        ≡ running Node.verify none (at_verification digest (run_id i) k j r c))
  Bursting i (suc (suc (suc zero))) t =
      (k : ℕ) × (j : ℕ) × (t ≡ running Node.execute none (at_execution digest (run_id i) k j))
  Bursting i (suc (suc (suc (suc zero)))) t =
      (k : ℕ) × (j : ℕ) × (t
        ≡ running Node.prepare_execution none (at_preparation digest (run_id i) k j))
  Bursting i (suc (suc (suc (suc (suc zero))))) t =
      (k : ℕ) × (t ≡ running Node.revalidate none (at_check digest (run_id i) k))
  Bursting i (suc (suc (suc (suc (suc (suc zero)))))) t =
      (k : ℕ) × (t
        ≡ running Node.await_approval (some (approval_by "load-test"))
            (at_approval digest (run_id i) k))
  Bursting i (suc (suc (suc (suc (suc (suc (suc m))))))) t = ⊥

  advance-Bursting :
      (i m : ℕ) (t : Task) (sh : Shared)
      → Bursting i m t
      → Standing sh
      → Forward (Bursting i (less m)) t sh
  unfolding advance
  advance-Bursting i zero t sh (k, j, r, c, is) standing = rw is ((k, j, r, c, refl), standing)
  advance-Bursting i (suc zero) t sh (k, l, r, c, is) (j, store, at) =
      let (_, _, _, next) = burst_steps digest clock (run_id i) k j store sh.audit sh.turn l r c in
      step_to (run_id i) k (Bursting i zero) t _ _ sh j store is at next (k, l, r, c, refl)
  advance-Bursting i (suc (suc zero)) t sh (k, l, r, c, is) (j, store, at) =
      let (_, _, next, _) = burst_steps digest clock (run_id i) k j store sh.audit sh.turn l r c in
      step_to (run_id i) k (Bursting i (suc zero)) t _ _ sh j store is at next (k, l, r, c, refl)
  advance-Bursting i (suc (suc (suc zero))) t sh (k, l, is) (j, store, at) =
      let (r, c, m, rows, goes, world) =
        execution_step digest clock (run_id i) k j store sh.audit sh.turn l in
      subst (λ x. Forward (Bursting i (suc (suc zero))) x sh) (sym is)
        (subst
          (λ w.
            Forward (Bursting i (suc (suc zero)))
              (running Node.execute none (at_execution digest (run_id i) k l))
              (record sh { world = w }))
          (sym at) ((k, l, r, c, goes), (m, rows, world)))
  advance-Bursting i (suc (suc (suc (suc zero)))) t sh (k, l, is) (j, store, at) =
      let (_, next, _, _) =
        burst_steps digest clock (run_id i) k j store sh.audit sh.turn l
          (ToolResult.deleted "" [] 0) (Compensation.noop "") in
      step_to (run_id i) k (Bursting i (suc (suc (suc zero)))) t _ _ sh j store is at next
        (k, l, refl)
  advance-Bursting i (suc (suc (suc (suc (suc zero))))) t sh (k, is) (j, store, at) =
      step_to (run_id i) k (Bursting i (suc (suc (suc (suc zero))))) t _ _ sh j store is at
        (check_step digest clock (run_id i) k j store sh.audit sh.turn) (k, j, refl)
  advance-Bursting i (suc (suc (suc (suc (suc (suc zero)))))) t sh (k, is) (j, store, at) =
      let (next, _, _, _) =
        burst_steps digest clock (run_id i) k j store sh.audit sh.turn 0
          (ToolResult.deleted "" [] 0) (Compensation.noop "") in
      step_to (run_id i) k (Bursting i (suc (suc (suc (suc (suc zero)))))) t _ _ sh j store is at
        next (k, refl)
  advance-Bursting i (suc (suc (suc (suc (suc (suc (suc m))))))) t sh h standing = absurd h

  resumed_Bursting : (i : ℕ) (t : Task) → Starting i zero t → Bursting i 6 (resume_task t)
  resumed_Bursting i t (k, q, is) = (k, ap resume_task is)

  suspended_run :
      (i : ℕ) (t : Task) → Starting i zero t → (is_suspended t ≡ true) × (error_of t ≡ none)
  suspended_run i t (k, q, is) = (ap is_suspended is, ap error_of is)

  completed_run :
      (i : ℕ) (t : Task) → Bursting i zero t → (ended_completed t ≡ true) × (error_of t ≡ none)
  unfolding merge
  completed_run i t (k, j, r, c, is) = (ap ended_completed is, ap error_of is)

  -- In any order of the super-steps that gives each of n runs five turns to start and six to end, all of
  -- the runs are suspended, and after their approval all of them are completed.
  pub load_test_is_intact :
      (n : ℕ) (starts burst : List ℕ)
      → NamesBelow n starts
      → NamesBelow n burst
      → ((i : ℕ) → i < n → 5 ≤ turns i starts)
      → ((i : ℕ) → i < n → 6 ≤ turns i burst)
      → run_load_test rt run_id n starts burst (build_sandbox [])
        ≡ ok (record {
          n = n;
          suspended_count = n;
          all_suspended = true;
          completed_count = n;
          state_intact = true;
        })
  unfolding run_load_test
  load_test_is_intact n starts burst named named' enough enough' =
      let tasks : ℕ → Task = start_task run_id in
      let begun : Shared = record { world = build_sandbox []; audit = []; turn = 0 } in
      let (suspended, stands) =
        gather-ends rt Starting Standing advance-Starting n starts 5 tasks begun named enough
          (λ i below. refl) (0, [], as_built) in
      let results = gather rt starts (tasks, begun) in
      let (completed, stands') =
        gather-ends rt Bursting Standing advance-Bursting n burst 6 (λ i. resume_task (results.0 i))
          results.1 named' enough' (λ i below. resumed_Bursting i (results.0 i) (suspended i below))
          stands in
      report-ok n results.0 (gather rt burst ((λ i. resume_task (results.0 i)), results.1)).0
        (λ i below. suspended_run i (results.0 i) (suspended i below))
        (λ i below. completed_run i _ (completed i below))
