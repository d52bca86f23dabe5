-- ===== src/Tasks/Consistent.antt =====
-- The fields of a task agree with its status (src/models/task.rs).
use elidune_server.Prelude.{
  ℕ, ◌≡◌, refl, Bool, true, false, Option-cases, inl, inr, ◌⊎◌, Option, none, some, List, [], ◌∷◌,
}
use elidune_server.Prelude.Int.{ℤ}
use elidune_server.Prelude.Table.{All, All-append, select_first, delete_where}
use elidune_server.Prelude.Rows.{All-update, All-delete, All-select_first}
use elidune_server.Tasks.{
  BackgroundTask, TaskStatus, waiting, running, completed, failed, report, complete, fail, Stage,
  queued, in_body, grace, Job, Manager, has_id, job_has_id, advance, snapshots,
}
use elidune_server.Tasks.Events.{
  Event, spawned, advanced, evicted, written, task_expired, index_expired, advance_found,
  evict_found, is_asleep, write_found, happen, run,
}

abbrev pub Is : {A : Type 0} → Option A → Type 0
Is {A} o = (a : A) × (o ≡ some a)

module _ {Json : Type 0} where
  -- A result only when completed, an error only when failed, progress only while running.
  abbrev pub Fields : TaskStatus → BackgroundTask Json → Type 0
  Fields waiting t =
      (t.progress ≡ none)
      × (t.result ≡ none)
      × (t.error ≡ none)
      × (t.started_at ≡ none)
      × (t.completed_at ≡ none)
  Fields running t =
      (t.result ≡ none) × (t.error ≡ none) × Is t.started_at × (t.completed_at ≡ none)
  Fields completed t =
      (t.progress ≡ none) × Is t.result × (t.error ≡ none) × Is t.started_at × Is t.completed_at
  Fields failed t =
      (t.progress ≡ none) × (t.result ≡ none) × Is t.error × Is t.started_at × Is t.completed_at

  -- A task that has ended, one way or the other.
  abbrev pub Ended : BackgroundTask Json → Type 0
  Ended t = ((t.status ≡ completed) × Fields completed t) ⊎ ((t.status ≡ failed) × Fields failed t)

  abbrev pub InStage : BackgroundTask Json → Stage Json → Type 0
  InStage t (queued body) = (t.status ≡ waiting) × Fields waiting t
  InStage t (in_body body) = (t.status ≡ running) × Fields running t
  InStage t grace = Ended t

  abbrev pub JobFits : Job Json → Type 0
  JobFits job = InStage job.task job.stage

  -- Active tasks have the fields of their status and stage; what is written has ended.
  abbrev pub Fits : Manager Json → Type 0
  Fits m = All JobFits m.active × All Ended m.writes × All Ended m.redis

  advance-JobFits :
      (now : ℤ) (t : BackgroundTask Json) (s : Stage Json) → InStage t s → JobFits (advance now t s)
  advance-JobFits now t (queued body) (e, (p, r, x, a, c)) = (refl, (r, x, (now, refl), c))
  advance-JobFits now t (in_body (report p body)) (e, h) = (e, h)
  advance-JobFits now t (in_body (complete v)) (e, (r, x, a, c)) =
      inl (refl, (refl, (v, refl), x, a, (now, refl)))
  advance-JobFits now t (in_body (fail v)) (e, (r, x, a, c)) =
      inr (refl, (refl, r, (v, refl), a, (now, refl)))
  advance-JobFits now t grace h = h

  snapshots-Ended :
      (now : ℤ) (t : BackgroundTask Json) (s : Stage Json)
      → InStage t s
      → All Ended (snapshots now t s)
  snapshots-Ended now t (queued body) h = tt
  snapshots-Ended now t (in_body (report p body)) h = tt
  snapshots-Ended now t (in_body (complete v)) (e, (r, x, a, c)) =
      (inl (refl, (refl, (v, refl), x, a, (now, refl))), tt)
  snapshots-Ended now t (in_body (fail v)) (e, (r, x, a, c)) =
      (inr (refl, (refl, r, (v, refl), a, (now, refl))), tt)
  snapshots-Ended now t grace h = tt

  advance_found-Fits :
      (now : ℤ) (up : Bool) (id : ℕ) (m : Manager Json)
      → Fits m
      → Fits (advance_found now up (select_first (job_has_id id) m.active) m)
  advance_found-Fits now up id m (a, w, r) =
      elim (Option-cases (select_first (job_has_id id) m.active)) [
        | inl missing ↦ rw missing (a, w, r)
        | inr (job, found) ↦ rw found (
            let fits = All-select_first JobFits (job_has_id id) m.active job a found in
            (
              All-update JobFits (job_has_id job.task.id) (λ j. advance now job.task job.stage)
                  m.active (λ j k. advance-JobFits now job.task job.stage fits) a,
              All-append Ended m.writes (snapshots now job.task job.stage) w
                  (snapshots-Ended now job.task job.stage fits),
              r,
            ))
      ]

  evict_found-Fits : (b : Bool) (id : ℕ) (m : Manager Json) → Fits m → Fits (evict_found b id m)
  evict_found-Fits true id m (a, w, r) = (All-delete JobFits (job_has_id id) m.active a, w, r)
  evict_found-Fits false id m f = f

  write_found-Fits :
      (reached : Bool) (id : ℕ) (m : Manager Json)
      → Fits m
      → Fits (write_found reached (select_first (has_id id) m.writes) m)
  write_found-Fits reached id m (a, w, r) =
      elim (Option-cases (select_first (has_id id) m.writes)) [
        | inl missing ↦ rw missing (a, w, r)
        | inr (task, found) ↦
            rw found
              (written_Fits reached task (All-select_first Ended (has_id id) m.writes task w found))
      ]
    where
      written_Fits :
          (reached : Bool) (task : BackgroundTask Json)
          → Ended task
          → Fits (write_found reached (some task) m)
      written_Fits false task e = (a, All-delete Ended (has_id task.id) m.writes w, r)
      written_Fits true task e = (
        a,
        All-delete Ended (has_id task.id) m.writes w,
        All-append Ended (delete_where (has_id task.id) m.redis) (task ∷ [])
            (All-delete Ended (has_id task.id) m.redis r) (e, tt),
      )

  happen-Fits : (e : Event Json) (m : Manager Json) → Fits m → Fits (happen e m)
  unfolding happen
  happen-Fits (spawned now id kind user_id body) m (a, w, r) = (
    All-append JobFits (delete_where (job_has_id id) m.active) _
        (All-delete JobFits (job_has_id id) m.active a)
        ((refl, (refl, refl, refl, refl, refl)), tt),
    w,
    r,
  )
  happen-Fits (advanced now up id) m f = advance_found-Fits now up id m f
  happen-Fits (evicted id) m f =
      evict_found-Fits (is_asleep (select_first (job_has_id id) m.active)) id m f
  happen-Fits (written reached id) m f = write_found-Fits reached id m f
  happen-Fits (task_expired id) m (a, w, r) = (a, w, All-delete Ended (has_id id) m.redis r)
  happen-Fits (index_expired user_id) m f = f

  -- If every active task has the fields of its status, and whatever is written or kept in Redis has
  -- ended, then this holds after any interleaving of starts, reports, outcomes, writes, evictions
  -- and expiries: a result only on completed tasks, an error only on failed ones, and progress on
  -- none that has ended.
  pub run-Fits : (es : List (Event Json)) (m : Manager Json) → Fits m → Fits (run es m)
  unfolding run
  run-Fits [] m f = f
  run-Fits (e ∷ es) m f = run-Fits es (happen e m) (happen-Fits e m f)
