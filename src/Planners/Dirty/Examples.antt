-- ===== src/Planners/Dirty/Examples.antt =====
-- Three tasks, of which one is as before.
use smoking_data.Prelude.{
  ◌≡◌, ◌↔◌, false, refl, String, not, Option, none, some, List, [], ◌∷◌, keep, str_eq,
  if◌then◌else◌,
}
use smoking_data.Planners.Dirty.{
  IsUnchanged, task_dirty, select_dirty_tasks, select_dirty_tasks-keep,
}

abbrev before : String → Option String
before task = if str_eq task "c" then none else some "h"

abbrev now : String → Option String
now task = if str_eq task "b" then some "g" else some "h"

abbrev tasks : List String
tasks = "a" ∷ "b" ∷ "c" ∷ []

skipped : (select_dirty_tasks (λ t. t) before now tasks).skipped_tasks ≡ "a" ∷ []
unfolding select_dirty_tasks
skipped = refl

select_dirty_tasks-keep_example :
    ((select_dirty_tasks (λ t. t) before now tasks).dirty_tasks
      ≡ keep (task_dirty (λ t. t) before now) tasks)
    × ((select_dirty_tasks (λ t. t) before now tasks).skipped_tasks
        ≡ keep (λ t. not (task_dirty (λ t. t) before now t)) tasks)
    × ((task_dirty (λ t. t) before now "a" ≡ false) ↔ IsUnchanged (before "a") (now "a"))
select_dirty_tasks-keep_example = select_dirty_tasks-keep (λ t. t) before now tasks "a"
