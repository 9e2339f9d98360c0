-- ===== src/Eval/LoadTest/Schedules.antt =====
-- Tasks that take their super-steps in the order of a schedule (src/eval/load_test.py): what each super-step
-- brings forward, a schedule with enough turns for everyone brings to the end.
use durable_approval_gated_r.Prelude.{
  ℕ, zero, suc, ◌+◌, ◌≤◌, ◌<◌, ◌≡◌, refl, subst, inl, inr, Bool, true, ◌==◌, ==_iff, none, List, [],
  ◌∷◌, if◌then◌else◌, Bool-cases, arith,
}
use durable_approval_gated_r.Agent.State.{AgentRuntimeContext}
use durable_approval_gated_r.Eval.LoadTest.{
  Shared, Task, put_task, advance, gather, count_tasks, failure, error_of,
}

-- How many turns a schedule gives a task.
abbrev pub turns : ℕ → List ℕ → ℕ
turns i [] = 0
turns i (j ∷ schedule) = let rest = turns i schedule in if j == i then rest + 1 else rest

-- The schedule names the first n tasks only.
abbrev pub NamesBelow : ℕ → List ℕ → Type 0
NamesBelow n [] = Unit
NamesBelow n (i ∷ schedule) = (i < n) × NamesBelow n schedule

abbrev pub less : ℕ → ℕ
less zero = zero
less (suc m) = m

-- What is left of m super-steps after the turns that a schedule gives.
abbrev left : ℕ → ℕ → List ℕ → ℕ
left m i [] = m
left m i (j ∷ schedule) = left (if j == i then less m else m) i schedule

left-enough : (m i : ℕ) (schedule : List ℕ) → m ≤ turns i schedule → left m i schedule ≡ 0
left-enough m i [] h = omega (arith, h)
left-enough m i (j ∷ schedule) h = elim (Bool-cases (j == i)) [
  | inl same ↦ rw same (left-enough (less m) i schedule (fewer m (rw same at h)))
  | inr other ↦ rw other (left-enough m i schedule (rw other at h))
]
  where
    fewer : (m : ℕ) → m ≤ turns i schedule + 1 → less m ≤ turns i schedule
    fewer zero h = omega arith
    fewer (suc m) h = omega (arith, h)

-- A measure of tasks that every super-step in a standing sandbox brings forward by one.
module _ (rt : AgentRuntimeContext) (Phase : ℕ → ℕ → Task → Type 0) (Standing : Shared → Type 0)
    (forward : (i m : ℕ) (t : Task) (sh : Shared)
      → Phase i m t
      → Standing sh
      → Phase i (less m) (advance rt t sh).0 × Standing (advance rt t sh).1)
    (n : ℕ) where
  put-Phase :
      (i : ℕ) (m : ℕ → ℕ) (t : Task) (tasks : ℕ → Task)
      → Phase i (less (m i)) t
      → ((j : ℕ) → j < n → Phase j (m j) (tasks j))
      → (j : ℕ) → j < n
      → Phase j (if i == j then less (m j) else m j) (put_task i t tasks j)
  put-Phase i m t tasks here all j below = elim (Bool-cases (i == j)) [
    | inl same ↦ rw same (subst (λ x. Phase x (less (m x)) t) ((==_iff i j).0 same) here)
    | inr other ↦ rw other (all j below)
  ]

  pub gather-Phase :
      (schedule : List ℕ) (m : ℕ → ℕ) (tasks : ℕ → Task) (sh : Shared)
      → NamesBelow n schedule
      → ((j : ℕ) → j < n → Phase j (m j) (tasks j))
      → Standing sh
      → ((j : ℕ) → j < n → Phase j (left (m j) j schedule) ((gather rt schedule (tasks, sh)).0 j))
        × Standing (gather rt schedule (tasks, sh)).1
  unfolding gather
  gather-Phase [] m tasks sh named all standing = (all, standing)
  gather-Phase (i ∷ schedule) m tasks sh (here, named) all standing =
      let (phase, stands) = forward i (m i) (tasks i) sh (all i here) standing in
      gather-Phase schedule (λ j. if i == j then less (m j) else m j)
        (put_task i (advance rt (tasks i) sh).0 tasks) (advance rt (tasks i) sh).1 named
        (put-Phase i m (advance rt (tasks i) sh).0 tasks phase all) stands

  -- With m turns for each of the first n tasks, all of them are where m super-steps lead.
  pub gather-ends :
      (schedule : List ℕ) (m : ℕ) (tasks : ℕ → Task) (sh : Shared)
      → NamesBelow n schedule
      → ((j : ℕ) → j < n → m ≤ turns j schedule)
      → ((j : ℕ) → j < n → Phase j m (tasks j))
      → Standing sh
      → ((j : ℕ) → j < n → Phase j 0 ((gather rt schedule (tasks, sh)).0 j))
        × Standing (gather rt schedule (tasks, sh)).1
  gather-ends schedule m tasks sh named enough all standing =
      let (ended, stands) = gather-Phase schedule (λ j. m) tasks sh named all standing in
      (
        λ j below.
            subst (λ x. Phase j x ((gather rt schedule (tasks, sh)).0 j))
              (left-enough m j schedule (enough j below)) (ended j below),
        stands,
      )

pub count_all :
    (test : Task → Bool) (n : ℕ) (tasks : ℕ → Task)
    → ((j : ℕ) → j < n → test (tasks j) ≡ true)
    → count_tasks test n tasks ≡ n
count_all test zero tasks h = refl
count_all test (suc n) tasks h =
    rw (h n (omega arith))
      (omega (arith, count_all test n tasks (λ j below. h j (omega (arith, below)))))

pub no_failure :
    (n : ℕ) (tasks : ℕ → Task)
    → ((j : ℕ) → j < n → error_of (tasks j) ≡ none)
    → failure n tasks ≡ none
no_failure zero tasks h = refl
no_failure (suc n) tasks h =
    rw (no_failure n tasks (λ j below. h j (omega (arith, below)))) (h n (omega arith))
