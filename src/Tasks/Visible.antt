-- ===== src/Tasks/Visible.antt =====
-- Who sees a task: `list_tasks` and `GET /tasks/:id` (src/services/task_manager.rs, src/api/tasks.rs).
pub mod Lists
use elidune_server.Prelude.{
  ℕ, ◌≡◌, refl, subst, sym, ap, arith, Bool, true, false, not, ◌||◌, ◌&&◌, ◌==◌, Bool-cases,
  Option-cases, ◌⊎◌, inl, inr, Option, none, some, List, [], ◌∷◌, ◌++◌, map,
}
use elidune_server.Prelude.Int.{ℤ, ltb_ℤ}
use elidune_server.Prelude.Table.{
  All, All-append, exists_where, select_first, select_where, delete_where, update_where,
}
use elidune_server.Prelude.Rows.{All-update, All-delete, All-select_first, All-select_where}
use elidune_server.Tasks.{
  BackgroundTask, Body, report, complete, fail, Stage, queued, in_body, grace, Job, Manager,
  new_task, has_id, job_has_id, insert_job, store, advance, snapshots, index_entries, indexed_tasks,
  load_user_tasks_from_redis, insert_newest, sort_newest, visible_to, list_tasks,
}
use elidune_server.Tasks.Events.{
  Event, spawned, advanced, evicted, written, task_expired, index_expired, add_entries,
  advance_found, evict_found, is_asleep, write_found, happen, run,
}

-- `owner` says to which user an id was given.
module _ (owner : ℕ → ℕ) where
  abbrev pub OwnedEntry : ℕ × ℕ → Type 0
  OwnedEntry (user, id) = owner id ≡ user

  add_entries-OwnedEntry :
      (entries index : List (ℕ × ℕ))
      → All OwnedEntry entries
      → All OwnedEntry index
      → All OwnedEntry (add_entries entries index)
  add_entries-OwnedEntry [] index h k = k
  add_entries-OwnedEntry ((user, id) ∷ entries) index (h, hs) k =
      let rest = add_entries-OwnedEntry entries index hs k in
      elim (Bool-cases
        (exists_where (λ e. (e.0 == user) && (e.1 == id)) (add_entries entries index))) [
          | inl yes' ↦ rw yes' rest
          | inr no' ↦
              rw no'
                (All-append OwnedEntry (add_entries entries index) ((user, id) ∷ []) rest (h, tt))
        ]

module _ {Json : Type 0} (owner : ℕ → ℕ) where
  abbrev pub OwnedTask : BackgroundTask Json → Type 0
  OwnedTask t = owner t.id ≡ t.user_id

  abbrev pub OwnedJob : Job Json → Type 0
  OwnedJob job = OwnedTask job.task

  abbrev pub Owned : Manager Json → Type 0
  Owned m =
      All OwnedJob m.active
      × All OwnedTask m.writes
      × All OwnedTask m.redis
      × All (OwnedEntry owner) m.user_index

  -- The generator gives an id to one user only.
  abbrev pub Gives : Event Json → Type 0
  Gives (spawned now id kind user_id body) = owner id ≡ user_id
  Gives (advanced now up id) = Unit
  Gives (evicted id) = Unit
  Gives (written reached id) = Unit
  Gives (task_expired id) = Unit
  Gives (index_expired user_id) = Unit

  advance-OwnedJob :
      (now : ℤ) (t : BackgroundTask Json) (s : Stage Json)
      → OwnedTask t
      → OwnedJob (advance now t s)
  advance-OwnedJob now t (queued body) h = h
  advance-OwnedJob now t (in_body (report p body)) h = h
  advance-OwnedJob now t (in_body (complete v)) h = h
  advance-OwnedJob now t (in_body (fail v)) h = h
  advance-OwnedJob now t grace h = h

  snapshots-OwnedTask :
      (now : ℤ) (t : BackgroundTask Json) (s : Stage Json)
      → OwnedTask t
      → All OwnedTask (snapshots now t s)
  snapshots-OwnedTask now t (queued body) h = tt
  snapshots-OwnedTask now t (in_body (report p body)) h = tt
  snapshots-OwnedTask now t (in_body (complete v)) h = (h, tt)
  snapshots-OwnedTask now t (in_body (fail v)) h = (h, tt)
  snapshots-OwnedTask now t grace h = tt

  entries-OwnedEntry :
      (up : Bool) (t : BackgroundTask Json) (s : Stage Json)
      → OwnedTask t
      → All (OwnedEntry owner) (index_entries up t s)
  entries-OwnedEntry true t (queued body) h = (h, tt)
  entries-OwnedEntry false t (queued body) h = tt
  entries-OwnedEntry true t (in_body body) h = tt
  entries-OwnedEntry false t (in_body body) h = tt
  entries-OwnedEntry true t grace h = tt
  entries-OwnedEntry false t grace h = tt

  advance_found-Owned :
      (now : ℤ) (up : Bool) (id : ℕ) (m : Manager Json)
      → Owned m
      → Owned (advance_found now up (select_first (job_has_id id) m.active) m)
  advance_found-Owned now up id m (a, w, r, x) =
      elim (Option-cases (select_first (job_has_id id) m.active)) [
        | inl missing ↦ rw missing (a, w, r, x)
        | inr (job, found) ↦ rw found (
            let own = All-select_first OwnedJob (job_has_id id) m.active job a found in
            (
              All-update OwnedJob (job_has_id job.task.id) (λ j. advance now job.task job.stage)
                  m.active (λ j k. advance-OwnedJob now job.task job.stage own) a,
              All-append OwnedTask m.writes (snapshots now job.task job.stage) w
                  (snapshots-OwnedTask now job.task job.stage own),
              r,
              add_entries-OwnedEntry owner (index_entries up job.task job.stage) m.user_index
                  (entries-OwnedEntry up job.task job.stage own) x,
            ))
      ]

  evict_found-Owned : (b : Bool) (id : ℕ) (m : Manager Json) → Owned m → Owned (evict_found b id m)
  evict_found-Owned true id m (a, w, r, x) =
      (All-delete OwnedJob (job_has_id id) m.active a, w, r, x)
  evict_found-Owned false id m h = h

  write_found-Owned :
      (reached : Bool) (id : ℕ) (m : Manager Json)
      → Owned m
      → Owned (write_found reached (select_first (has_id id) m.writes) m)
  write_found-Owned reached id m (a, w, r, x) =
      elim (Option-cases (select_first (has_id id) m.writes)) [
        | inl missing ↦ rw missing (a, w, r, x)
        | inr (task, found) ↦ rw found (
            written_Owned reached task
              (All-select_first OwnedTask (has_id id) m.writes task w found))
      ]
    where
      written_Owned :
          (reached : Bool) (task : BackgroundTask Json)
          → OwnedTask task
          → Owned (write_found reached (some task) m)
      written_Owned false task e = (a, All-delete OwnedTask (has_id task.id) m.writes w, r, x)
      written_Owned true task e = (
        a,
        All-delete OwnedTask (has_id task.id) m.writes w,
        All-append OwnedTask (delete_where (has_id task.id) m.redis) (task ∷ [])
            (All-delete OwnedTask (has_id task.id) m.redis r) (e, tt),
        add_entries-OwnedEntry owner ((task.user_id, task.id) ∷ []) m.user_index (e, tt) x,
      )

  happen-Owned : (e : Event Json) (m : Manager Json) → Gives e → Owned m → Owned (happen e m)
  unfolding happen
  happen-Owned (spawned now id kind user_id body) m g (a, w, r, x) = (
    All-append OwnedJob (delete_where (job_has_id id) m.active) _
        (All-delete OwnedJob (job_has_id id) m.active a) (g, tt),
    w,
    r,
    x,
  )
  happen-Owned (advanced now up id) m g h = advance_found-Owned now up id m h
  happen-Owned (evicted id) m g h =
      evict_found-Owned (is_asleep (select_first (job_has_id id) m.active)) id m h
  happen-Owned (written reached id) m g h = write_found-Owned reached id m h
  happen-Owned (task_expired id) m g (a, w, r, x) =
      (a, w, All-delete OwnedTask (has_id id) m.redis r, x)
  happen-Owned (index_expired user_id) m g (a, w, r, x) =
      (a, w, r, All-delete (OwnedEntry owner) (λ entry. entry.0 == user_id) m.user_index x)

  run-Owned :
      (es : List (Event Json)) (m : Manager Json) → All Gives es → Owned m → Owned (run es m)
  unfolding run
  run-Owned [] m g h = h
  run-Owned (e ∷ es) m (g, gs) h = run-Owned es (happen e m) gs (happen-Owned e m g h)
