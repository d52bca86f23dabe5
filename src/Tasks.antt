-- ===== src/Tasks.antt =====
-- Background tasks (src/services/task_manager.rs and src/models/task.rs, with the handlers of
-- src/api/tasks.rs). `Json` is `serde_json::Value`. The body of a task is what the closures of the
-- server do: progress is reported any number of times, then one call of `complete` or of `fail` is
-- the last. A manager is the map of active tasks, the writes to Redis that are under way, and what
-- Redis holds; an event is one step of any of the tasks that run at the same time.
pub mod Events
pub mod Consistent
pub mod Visible
pub mod Steps
pub mod Outcome
use elidune_server.Prelude.{
  ℕ, String, Bool, true, false, ◌==◌, ◌||◌, ◌&&◌, not, if◌then◌else◌, Option, none, some, List, [],
  ◌∷◌, ◌++◌, map,
}
use elidune_server.Prelude.Int.{ℤ, ltb_ℤ}
use elidune_server.Prelude.Table.{
  select_first, select_where, delete_where, update_where, exists_where,
}
use elidune_server.Error.{Result, ok, err, not_found, authorization, literal}

pub data TaskKind : Type 0 where
  marc_batch_import maintenance inventory_batch_scan inventory_consolidation : TaskKind

pub data TaskStatus : Type 0 where
  waiting running completed failed : TaskStatus

pub record TaskProgress (Json : Type 0) : Type 0 where
  pub current : ℕ
  pub total : ℕ
  pub message : Option Json

pub record BackgroundTask (Json : Type 0) : Type 0 where
  pub id : ℕ
  pub kind : TaskKind
  pub status : TaskStatus
  pub progress : Option (TaskProgress Json)
  pub result : Option Json
  pub error : Option String
  pub created_at : ℤ
  pub started_at : Option ℤ
  pub completed_at : Option ℤ
  pub user_id : ℕ

-- What is left of a closure: the calls of its handle.
pub data Body (Json : Type 0) : Type 0 where
  report : TaskProgress Json → Body Json → Body Json
  complete : Json → Body Json
  fail : String → Body Json

-- Where the spawned future stands: before its first poll, in the closure, or asleep after it.
pub data Stage (Json : Type 0) : Type 0 where
  queued : Body Json → Stage Json
  in_body : Body Json → Stage Json
  grace : Stage Json

pub record Job (Json : Type 0) : Type 0 where
  pub task : BackgroundTask Json
  pub stage : Stage Json

pub record Manager (Json : Type 0) : Type 0 where
  -- `TaskManager::active`
  pub active : List (Job Json)
  -- snapshots that `persist` has handed to a future
  pub writes : List (BackgroundTask Json)
  -- `task:{id}`
  pub redis : List (BackgroundTask Json)
  -- the pairs of a user and a task id in the sets `task:user:{user_id}`
  pub user_index : List (ℕ × ℕ)

module _ {Json : Type 0} where
  abbrev pub new_task : ℤ → ℕ → TaskKind → ℕ → BackgroundTask Json
  new_task now id kind user_id = record {
    id = id;
    kind = kind;
    status = waiting;
    progress = none;
    result = none;
    error = none;
    created_at = now;
    started_at = none;
    completed_at = none;
    user_id = user_id;
  }

  abbrev pub start_task : ℤ → BackgroundTask Json → BackgroundTask Json
  start_task now task = record task { status = running; started_at = some now }

  abbrev pub set_progress : TaskProgress Json → BackgroundTask Json → BackgroundTask Json
  set_progress p task = record task { progress = some p }

  abbrev pub complete_task : ℤ → Json → BackgroundTask Json → BackgroundTask Json
  complete_task now result task = record task {
    status = completed;
    result = some result;
    completed_at = some now;
    progress = none;
  }

  abbrev pub fail_task : ℤ → String → BackgroundTask Json → BackgroundTask Json
  fail_task now error task = record task {
    status = failed;
    error = some error;
    completed_at = some now;
    progress = none;
  }

  abbrev pub has_id : ℕ → BackgroundTask Json → Bool
  has_id id task = task.id == id

  abbrev pub job_has_id : ℕ → Job Json → Bool
  job_has_id id job = job.task.id == id

  -- `HashMap::insert` and `SETEX`
  abbrev pub insert_job : Job Json → List (Job Json) → List (Job Json)
  insert_job job jobs = delete_where (job_has_id job.task.id) jobs ++ job ∷ []

  abbrev pub store : BackgroundTask Json → List (BackgroundTask Json) → List (BackgroundTask Json)
  store task tasks = delete_where (has_id task.id) tasks ++ task ∷ []

  -- The next step of a task's future.
  abbrev pub advance : ℤ → BackgroundTask Json → Stage Json → Job Json
  advance now task (queued body) = record { task = start_task now task; stage = in_body body }
  advance now task (in_body (report p body)) = record {
    task = set_progress p task;
    stage = in_body body;
  }
  advance now task (in_body (complete result)) = record {
    task = complete_task now result task;
    stage = grace;
  }
  advance now task (in_body (fail error)) = record {
    task = fail_task now error task;
    stage = grace;
  }
  advance now task grace = record { task = task; stage = grace }

  -- The snapshots that the step hands to `persist`.
  abbrev pub snapshots : ℤ → BackgroundTask Json → Stage Json → List (BackgroundTask Json)
  snapshots now task (queued body) = []
  snapshots now task (in_body (report p body)) = []
  snapshots now task (in_body (complete result)) = complete_task now result task ∷ []
  snapshots now task (in_body (fail error)) = fail_task now error task ∷ []
  snapshots now task grace = []

  -- The pairs that the step adds to the index: a start does, if Redis answers.
  abbrev pub index_entries : Bool → BackgroundTask Json → Stage Json → List (ℕ × ℕ)
  index_entries true task (queued body) = (task.user_id, task.id) ∷ []
  index_entries false task (queued body) = []
  index_entries up task (in_body body) = []
  index_entries up task grace = []

  -- `get_task`; `up` tells whether Redis answers.
  unfoldable pub load_from_redis : Bool → ℕ → Manager Json → Option (BackgroundTask Json)
  load_from_redis false id m = none
  load_from_redis true id m = select_first (has_id id) m.redis

  unfoldable pub get_task : Bool → ℕ → Manager Json → Option (BackgroundTask Json)
  get_task up id m = elim (select_first (job_has_id id) m.active) [
    | some job ↦ some job.task
    | none ↦ load_from_redis up id m
  ]

  abbrev pub indexed_tasks :
      ℕ → List (BackgroundTask Json) → List (ℕ × ℕ) → List (BackgroundTask Json)
  indexed_tasks user_id redis [] = []
  indexed_tasks user_id redis ((user, id) ∷ index) =
      let rest = indexed_tasks user_id redis index in
      if user == user_id
      then elim (select_first (has_id id) redis) [ some task ↦ task ∷ rest | none ↦ rest ]
      else rest

  unfoldable pub load_user_tasks_from_redis : Bool → ℕ → Manager Json → List (BackgroundTask Json)
  load_user_tasks_from_redis false user_id m = []
  load_user_tasks_from_redis true user_id m = indexed_tasks user_id m.redis m.user_index

  -- The stable sort that puts the newest first.
  abbrev pub insert_newest :
      BackgroundTask Json → List (BackgroundTask Json) → List (BackgroundTask Json)
  insert_newest task [] = task ∷ []
  insert_newest task (t ∷ ts) =
      let rest = insert_newest task ts in
      if ltb_ℤ task.created_at t.created_at then t ∷ rest else task ∷ t ∷ ts

  abbrev pub sort_newest : List (BackgroundTask Json) → List (BackgroundTask Json)
  sort_newest [] = []
  sort_newest (t ∷ ts) = insert_newest t (sort_newest ts)

  abbrev pub visible_to : ℕ → Bool → BackgroundTask Json → Bool
  visible_to user_id is_admin task = is_admin || (task.user_id == user_id)

  -- The active tasks that are listed.
  abbrev pub shown : ℕ → Bool → Manager Json → List (BackgroundTask Json)
  shown user_id is_admin m =
      select_where (visible_to user_id is_admin) (map (λ job. job.task) m.active)

  -- The tasks of Redis that are not among them.
  abbrev pub others :
      List (BackgroundTask Json) → List (BackgroundTask Json) → List (BackgroundTask Json)
  others listed redis_tasks =
      select_where (λ t. not (exists_where (has_id t.id) listed)) redis_tasks

  unfoldable pub list_tasks : Bool → ℕ → Bool → Manager Json → List (BackgroundTask Json)
  list_tasks up user_id is_admin m =
      let listed = shown user_id is_admin m in
      sort_newest (listed ++ others listed (load_user_tasks_from_redis up user_id m))

  -- `GET /tasks/:id`
  unfoldable pub show_task : Bool → ℕ → Bool → ℕ → Manager Json → Result (BackgroundTask Json)
  show_task up user_id is_admin id m = elim (get_task up id m) [
    | none ↦ err (not_found (literal "Task not found or expired"))
    | some task ↦
        if not is_admin && not (task.user_id == user_id)
        then err (authorization (literal "Task belongs to another user"))
        else ok task
  ]
