-- ===== src/Tests/Load.antt =====
-- A load test of two runs whose super-steps alternate.
use durable_approval_gated_r.Prelude.{
  ℕ, zero, suc, ◌≤◌, ◌<◌, String, ◌≡◌, true, List, [], ◌∷◌, ◌++◌, if◌then◌else◌, ◌==◌, arith,
}
use durable_approval_gated_r.Act.{ok}
use durable_approval_gated_r.Eval.Sandbox.{build_sandbox}
use durable_approval_gated_r.Eval.LoadTest.{load_test_context, run_load_test}
use durable_approval_gated_r.Eval.LoadTest.Schedules.{turns, NamesBelow}
use durable_approval_gated_r.Eval.LoadTest.Runs.{load_test_is_intact}

abbrev run_id : ℕ → String
run_id i = if i == 0 then "load-0" else "load-1"

abbrev starts : List ℕ
starts = 0 ∷ 1 ∷ 0 ∷ 1 ∷ 1 ∷ 0 ∷ 0 ∷ 1 ∷ 0 ∷ 1 ∷ []

abbrev burst : List ℕ
burst = 1 ∷ 1 ∷ 0 ∷ starts ++ 0 ∷ []

named : NamesBelow 2 starts
named = search arith

each_starts : (i : ℕ) → i < 2 → 5 ≤ turns i starts
each_starts zero below = omega arith
each_starts (suc zero) below = omega arith
each_starts (suc (suc i)) below = absurd (omega (arith, below))

named_burst : NamesBelow 2 burst
named_burst = search arith

each_ends : (i : ℕ) → i < 2 → 6 ≤ turns i burst
each_ends zero below = omega arith
each_ends (suc zero) below = omega arith
each_ends (suc (suc i)) below = absurd (omega (arith, below))

load_test_is_intact_example :
    run_load_test
      (load_test_context (λ fields. "digest") (λ turn. turn))
      run_id
      2
      starts
      burst
      (build_sandbox [])
    ≡ ok (record {
      n = 2;
      suspended_count = 2;
      all_suspended = true;
      completed_count = 2;
      state_intact = true;
    })
load_test_is_intact_example =
    load_test_is_intact (λ fields. "digest") (λ turn. turn) run_id 2 starts burst named named_burst
      each_starts each_ends
