-- ===== src/Dag/Runnable.antt =====
-- The scheduler's questions in app/dag.py: which tasks can run, and whether a run has finished.
use auto_bot.Prelude.{
  String, List, [], ◌∷◌, Bool, true, false, ◌&&◌, ◌||◌, map, keep, any, all, if◌then◌else◌,
}
use auto_bot.Prelude.Names.{mem}
use auto_bot.Models.{Task, is_pending, is_queued, is_running, is_success, is_failed}

-- {t.task_name for t in tasks if t.status == TASK_SUCCESS}
unfoldable pub completed_names : List Task → List String
completed_names tasks = map (λ t. t.task_name) (keep (λ t. is_success t.status) tasks)

unfoldable pub is_runnable : List String → Task → Bool
is_runnable completed task =
    is_pending task.status && all (λ dep. mem dep completed) task.depends_on

unfoldable pub get_runnable_tasks : List Task → List Task
unfolding completed_names is_runnable
get_runnable_tasks tasks = keep (is_runnable (completed_names tasks)) tasks

abbrev is_empty : List Task → Bool
is_empty [] = true
is_empty (t ∷ ts) = false

unfoldable pub is_run_finished : List Task → Bool
unfolding get_runnable_tasks
is_run_finished tasks =
    if any (λ t. is_queued t.status || is_running t.status) tasks
    then false
    else if all (λ t. is_success t.status) tasks
    then true
    else is_empty (get_runnable_tasks tasks)

unfoldable pub is_run_failed : List Task → Bool
is_run_failed tasks = any (λ t. is_failed t.status) tasks
