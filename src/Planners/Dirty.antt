-- ===== src/Planners/Dirty.antt =====
-- `select_dirty_tasks` of src/smoking_data/planners/dirty.py. Of a task only its id is read.
mod Examples
use smoking_data.Prelude.{
  ◌≡◌, ◌≢◌, ◌↔◌, eq_iff, subst, refl, sym, ap, ◌∙◌, String, Bool, true, false, not, ◌&&◌, ◌||◌,
  Option, none, some, List, [], ◌∷◌, ◌++◌, append_assoc, append-nil, keep, arith, if◌then◌else◌,
  str_eq, Bool-cases, ◌⊎◌, inl, inr,
}

pub record DirtyPlan (Task : Type 0) : Type 0 where
  pub dirty_tasks : List Task
  pub skipped_tasks : List Task

-- `not current or previous != current`
abbrev pub is_dirty : Option String → Option String → Bool
is_dirty previous none = true
is_dirty none (some current) = true
is_dirty (some previous) (some current) = str_eq current "" || not (str_eq previous current)

-- There is a current fingerprint, not empty, and the previous one is the same.
pub data IsUnchanged : Option String → Option String → Type 0 where
  unchanged :
      (fingerprint : String) → fingerprint ≢ "" → IsUnchanged (some fingerprint) (some fingerprint)

is_dirty-IsUnchanged :
    (previous current : Option String)
    → is_dirty previous current ≡ false
    → IsUnchanged previous current
is_dirty-IsUnchanged previous none e = ground arith
is_dirty-IsUnchanged none (some current) e = ground arith
is_dirty-IsUnchanged (some previous) (some current) e =
    let same : previous ≡ current = ground (arith, eq_iff previous current) in
    let filled : current ≢ "" = ground (arith, eq_iff current "") in
    subst (λ p. IsUnchanged (some p) (some current)) (sym same) (unchanged current filled)

IsUnchanged-is_dirty :
    (previous current : Option String)
    → IsUnchanged previous current
    → is_dirty previous current ≡ false
IsUnchanged-is_dirty _ _ (unchanged fingerprint filled) =
    ground (arith, eq_iff fingerprint fingerprint, eq_iff fingerprint "")

is_dirty_iff :
    (previous current : Option String)
    → (is_dirty previous current ≡ false) ↔ IsUnchanged previous current
is_dirty_iff previous current =
    (is_dirty-IsUnchanged previous current, IsUnchanged-is_dirty previous current)

module _ {Task : Type 0} (task_id : Task → String) (previous current : String → Option String) where
  abbrev pub task_dirty : Task → Bool
  task_dirty task = is_dirty (previous (task_id task)) (current (task_id task))

  -- The body of the loop.
  unfoldable pub place_task : DirtyPlan Task → Task → DirtyPlan Task
  place_task plan task =
      if task_dirty task
      then record plan { dirty_tasks = plan.dirty_tasks ++ task ∷ [] }
      else record plan { skipped_tasks = plan.skipped_tasks ++ task ∷ [] }

  unfoldable pub select_from : DirtyPlan Task → List Task → DirtyPlan Task
  unfolding place_task
  select_from plan [] = plan
  select_from plan (task ∷ tasks) = select_from (place_task plan task) tasks

  unfoldable pub select_dirty_tasks : List Task → DirtyPlan Task
  unfolding select_from
  select_dirty_tasks tasks = select_from (record { dirty_tasks = []; skipped_tasks = [] }) tasks

  place_task-keep :
      (plan : DirtyPlan Task) (task : Task) (tasks : List Task)
      → ((place_task plan task).dirty_tasks ++ keep task_dirty tasks
          ≡ plan.dirty_tasks ++ keep task_dirty (task ∷ tasks))
        × ((place_task plan task).skipped_tasks ++ keep (λ t. not (task_dirty t)) tasks
            ≡ plan.skipped_tasks ++ keep (λ t. not (task_dirty t)) (task ∷ tasks))
  unfolding place_task
  place_task-keep plan task tasks = (
    ground (arith, append_assoc plan.dirty_tasks (task ∷ []) (keep task_dirty tasks)),
    ground
        (arith, append_assoc plan.skipped_tasks (task ∷ []) (keep (λ t. not (task_dirty t)) tasks)),
  )

  select_from-keep :
      (plan : DirtyPlan Task) (tasks : List Task)
      → ((select_from plan tasks).dirty_tasks ≡ plan.dirty_tasks ++ keep task_dirty tasks)
        × ((select_from plan tasks).skipped_tasks
            ≡ plan.skipped_tasks ++ keep (λ t. not (task_dirty t)) tasks)
  unfolding select_from
  select_from-keep plan [] =
      (sym (append-nil plan.dirty_tasks), sym (append-nil plan.skipped_tasks))
  select_from-keep plan (task ∷ tasks) =
      let (p, q) = select_from-keep (place_task plan task) tasks in
      let (d, k) = place_task-keep plan task tasks in (p ∙ d, q ∙ k)

  -- A task is skipped exactly when its current fingerprint is not empty and is the previous one.
  task_dirty_iff :
      (task : Task)
      → (task_dirty task ≡ false) ↔ IsUnchanged (previous (task_id task)) (current (task_id task))
  task_dirty_iff task = is_dirty_iff (previous (task_id task)) (current (task_id task))

  -- The dirty tasks and the skipped tasks are the tasks in their order, divided by a test that is false
  -- of a task exactly when its current fingerprint is not empty and is the previous one.
  pub select_dirty_tasks-keep :
      (tasks : List Task) (task : Task)
      → ((select_dirty_tasks tasks).dirty_tasks ≡ keep task_dirty tasks)
        × ((select_dirty_tasks tasks).skipped_tasks ≡ keep (λ t. not (task_dirty t)) tasks)
        × ((task_dirty task ≡ false)
            ↔ IsUnchanged (previous (task_id task)) (current (task_id task)))
  unfolding select_dirty_tasks
  select_dirty_tasks-keep tasks task =
      let (dirty, skipped) =
        select_from-keep (record { dirty_tasks = []; skipped_tasks = [] }) tasks in
      (dirty, skipped, task_dirty_iff task)
