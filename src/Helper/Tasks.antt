-- ===== src/Helper/Tasks.antt =====
-- pkg/helper/task_runner.go: tasks that are run in their order. A task acts on a state, and its context
-- is a part of that. Parameters: whether the text of an error says that a referenced method is being
-- deleted, the error that names a failed task, and `ErrReferencedMethodIsBeingDeleted`. The times that
-- are logged are left out.
pub mod Laws
use scale_operator.Prelude.{
  String, Bool, true, false, Option, none, some, List, [], ◌∷◌, ◌++◌, if◌then◌else◌, nat_eq,
  string_eq, int_eq,
}

pub record Task (S E : Type 0) : Type 0 where
  pub name : String
  pub run : S → Option E × S

-- `AddTask`
unfoldable pub add_task :
    {S E : Type 0} → List (Task S E) → String → (S → Option E × S) → List (Task S E)
add_task tasks name run = tasks ++ record { name = name; run = run } ∷ []

module _ {S E : Type 0} (is_referenced : E → Bool) (task_failed : String → E → E)
    (referenced_deleted : E) where
  -- What follows a task: the rest of the loop takes `reqerr` and the state.
  unfoldable pub after_task :
      String → (Bool → S → Option E × S) → Bool → Option E × S → Option E × S
  after_task name rest reqerr (none, s) = rest reqerr s
  after_task name rest reqerr (some err, s) =
      if is_referenced err then rest true s else (some (task_failed name err), s)

  unfoldable pub run_tasks : List (Task S E) → Bool → S → Option E × S
  unfolding after_task
  run_tasks [] reqerr s = ((if reqerr then some referenced_deleted else none), s)
  run_tasks (task ∷ tasks) reqerr s = after_task task.name (run_tasks tasks) reqerr (task.run s)

  -- `Run`
  unfoldable pub run_all : List (Task S E) → S → Option E × S
  unfolding run_tasks
  run_all tasks s = run_tasks tasks false s
