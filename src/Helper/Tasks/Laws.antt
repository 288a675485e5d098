-- ===== src/Helper/Tasks/Laws.antt =====
-- When a run of tasks returns no error, and what a skipped error leaves.
use scale_operator.Prelude.{
  String, ◌≡◌, refl, sym, ap, ◌≢◌, ◌↔◌, inl, inr, Bool, true, false, Option, none, some, List, [],
  ◌∷◌, Bool-cases, nat_eq, string_eq, int_eq, subst,
}
use scale_operator.Helper.Tasks.{Task, after_task, run_tasks, run_all}

module _ {S E : Type 0} (is_referenced : E → Bool) (task_failed : String → E → E)
    (referenced_deleted : E) where
  -- The tasks succeed one after the other, from the first state to the second.
  abbrev pub Succeed : List (Task S E) → S → S → Type 0
  Succeed [] s s' = s' ≡ s
  Succeed (task ∷ tasks) s s' = (t : S) × (task.run s ≡ (none, t)) × Succeed tasks t s'

  abbrev runner : List (Task S E) → Bool → S → Option E × S
  runner = run_tasks is_referenced task_failed referenced_deleted

  abbrev after : String → (Bool → S → Option E × S) → Bool → Option E × S → Option E × S
  after = after_task is_referenced task_failed referenced_deleted

  after_task-none :
      (name : String) (rest : Bool → S → Option E × S) (reqerr : Bool) (r : Option E × S) (s' : S)
      → ((t : S) → (rest true t).0 ≢ none)
      → after name rest reqerr r ≡ (none, s')
      → (r.0 ≡ none) × (rest reqerr r.1 ≡ (none, s'))
  unfolding after_task
  after_task-none name rest reqerr (none, s) s' law = λ h. (refl, h)
  after_task-none name rest reqerr (some err, s) s' law = elim (Bool-cases (is_referenced err)) [
    | inl skipped ↦ rw skipped (λ h. absurd (law s (ap (λ p. p.0) h)))
    | inr stops ↦ rw stops (λ h. cc)
  ]

  after_task-flagged :
      (name : String) (rest : Bool → S → Option E × S) (r : Option E × S)
      → ((t : S) → (rest true t).0 ≢ none)
      → (after name rest true r).0 ≢ none
  unfolding after_task
  after_task-flagged name rest (none, s) law = law s
  after_task-flagged name rest (some err, s) law = elim (Bool-cases (is_referenced err)) [
    | inl skipped ↦ rw skipped (law s)
    | inr stops ↦ rw stops (λ h. cc)
  ]

  run_tasks-flagged : (tasks : List (Task S E)) (s : S) → (runner tasks true s).0 ≢ none
  unfolding run_tasks
  run_tasks-flagged [] s = λ h. cc
  run_tasks-flagged (task ∷ tasks) s =
      after_task-flagged task.name (runner tasks) (task.run s) (run_tasks-flagged tasks)

  run_tasks-Succeed :
      (tasks : List (Task S E)) (s s' : S) → runner tasks false s ≡ (none, s') → Succeed tasks s s'
  unfolding run_tasks
  run_tasks-Succeed [] s s' h = cc
  run_tasks-Succeed (task ∷ tasks) s s' h =
      let r = task.run s in
      let (ok, rest) =
        after_task-none task.name (runner tasks) false r s' (run_tasks-flagged tasks) h in
      (r.1, ap (λ o. (o, r.1)) ok, run_tasks-Succeed tasks r.1 s' rest)

  Succeed-run_tasks :
      (tasks : List (Task S E)) (s s' : S) → Succeed tasks s s' → runner tasks false s ≡ (none, s')
  unfolding run_tasks after_task
  Succeed-run_tasks [] s s' e = ap (λ t. (none, t)) (sym e)
  Succeed-run_tasks (task ∷ tasks) s s' (t, ok, rest) =
      subst (λ r. after task.name (runner tasks) false r ≡ (none, s')) (sym ok)
        (Succeed-run_tasks tasks t s' rest)

  -- A run returns no error exactly if every task succeeds in its turn; the state is then what the tasks
  -- make of the first one, in their order.
  pub run_all_lem :
      (tasks : List (Task S E)) (s s' : S)
      → (run_all is_referenced task_failed referenced_deleted tasks s ≡ (none, s'))
        ↔ Succeed tasks s s'
  unfolding run_all
  run_all_lem tasks s s' = (run_tasks-Succeed tasks s s', Succeed-run_tasks tasks s s')
