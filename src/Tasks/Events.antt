-- ===== src/Tasks/Events.antt =====
-- The steps of the tasks that run at the same time, and their runs (src/services/task_manager.rs).
use elidune_server.Prelude.{
  ℕ, Bool, true, false, ◌==◌, ◌&&◌, if◌then◌else◌, Option, none, some, List, [], ◌∷◌, ◌++◌,
}
use elidune_server.Prelude.Int.{ℤ}
use elidune_server.Prelude.Table.{exists_where, select_first, delete_where, update_where}
use elidune_server.Tasks.{
  BackgroundTask, TaskKind, Body, Stage, queued, in_body, grace, Job, Manager, new_task, has_id,
  job_has_id, insert_job, store, advance, snapshots, index_entries,
}

pub data Event (Json : Type 0) : Type 0 where
  -- `spawn_task` at an instant, with an id that no other task has
  spawned : ℤ → ℕ → TaskKind → ℕ → Body Json → Event Json
  -- a step of the future of a task at an instant; whether Redis answers a start
  advanced : ℤ → Bool → ℕ → Event Json
  -- the end of a task's grace period
  evicted : ℕ → Event Json
  -- the end of a write: whether it reached Redis
  written : Bool → ℕ → Event Json
  -- the end of the time to live of a task, or of the index of a user
  task_expired index_expired : ℕ → Event Json

-- `SADD` of a task's id to the set of its user, which holds an id once.
abbrev pub add_entries : List (ℕ × ℕ) → List (ℕ × ℕ) → List (ℕ × ℕ)
add_entries [] index = index
add_entries ((user, id) ∷ entries) index =
    let rest = add_entries entries index in
    if exists_where (λ e. (e.0 == user) && (e.1 == id)) rest then rest else rest ++ (user, id) ∷ []

module _ {Json : Type 0} where
  abbrev pub asleep : Stage Json → Bool
  asleep (queued body) = false
  asleep (in_body body) = false
  asleep grace = true

  abbrev pub advance_found : ℤ → Bool → Option (Job Json) → Manager Json → Manager Json
  advance_found now up none m = m
  advance_found now up (some job) m = record m {
    active = update_where (job_has_id job.task.id) (λ j. advance now job.task job.stage) m.active;
    writes = m.writes ++ snapshots now job.task job.stage;
    user_index = add_entries (index_entries up job.task job.stage) m.user_index;
  }

  abbrev pub evict_found : Bool → ℕ → Manager Json → Manager Json
  evict_found true id m = record m { active = delete_where (job_has_id id) m.active }
  evict_found false id m = m

  abbrev pub is_asleep : Option (Job Json) → Bool
  is_asleep none = false
  is_asleep (some job) = asleep job.stage

  abbrev pub write_found : Bool → Option (BackgroundTask Json) → Manager Json → Manager Json
  write_found reached none m = m
  write_found false (some task) m = record m { writes = delete_where (has_id task.id) m.writes }
  write_found true (some task) m = record m {
    writes = delete_where (has_id task.id) m.writes;
    redis = store task m.redis;
    user_index = add_entries ((task.user_id, task.id) ∷ []) m.user_index;
  }

  unfoldable pub happen : Event Json → Manager Json → Manager Json
  happen (spawned now id kind user_id body) m = record m {
    active =
        insert_job (record { task = new_task now id kind user_id; stage = queued body }) m.active;
  }
  happen (advanced now up id) m = advance_found now up (select_first (job_has_id id) m.active) m
  happen (evicted id) m = evict_found (is_asleep (select_first (job_has_id id) m.active)) id m
  happen (written reached id) m = write_found reached (select_first (has_id id) m.writes) m
  happen (task_expired id) m = record m { redis = delete_where (has_id id) m.redis }
  happen (index_expired user_id) m = record m {
    user_index = delete_where (λ entry. entry.0 == user_id) m.user_index;
  }

  unfoldable pub run : List (Event Json) → Manager Json → Manager Json
  run [] m = m
  run (e ∷ es) m = run es (happen e m)
