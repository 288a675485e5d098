-- ===== src/Tests/Tasks.antt =====
-- Runs of a few tasks that count (pkg/helper/task_runner.go).
use scale_operator.Prelude.{
  ℕ, suc, String, ◌≡◌, refl, ◌↔◌, Option, none, some, List, [], ◌∷◌, ◌==◌, nat_eq, string_eq,
  int_eq,
}
use scale_operator.Helper.Tasks.{Task, after_task, run_tasks, run_all}
use scale_operator.Helper.Tasks.Laws.{Succeed, run_all_lem}

abbrev count_up : ℕ → Option String × ℕ
count_up n = (none, suc n)

abbrev fail_once : ℕ → Option String × ℕ
fail_once n = (some "referenced", n)

abbrev counters : List (Task ℕ String)
counters = record { name = "a"; run = count_up } ∷ record { name = "b"; run = count_up } ∷ []

abbrev with_failure : List (Task ℕ String)
with_failure = record { name = "f"; run = fail_once } ∷ counters

abbrev named_error : String → String → String
named_error name err = name

run_all_lem_example :
    (run_all (λ err. err == "referenced") named_error "deleted" counters 3 ≡ (none, 5))
    ↔ Succeed (λ err. err == "referenced") named_error "deleted" counters 3 5
run_all_lem_example = run_all_lem (λ err. err == "referenced") named_error "deleted" counters 3 5

-- The tasks after a skipped error run, and the error is reported at the end.
skip_run :
    run_all (λ err. err == "referenced") named_error "deleted" with_failure 3 ≡ (some "deleted", 5)
unfolding run_all run_tasks after_task
skip_run = refl

stop_run : run_all (λ err. err == "other") named_error "deleted" with_failure 3 ≡ (some "f", 3)
unfolding run_all run_tasks after_task
stop_run = refl
