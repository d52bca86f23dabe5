-- ===== src/Tasks/Outcome.antt =====
-- A task whose future is polled often enough shows its outcome (src/services/task_manager.rs).
use elidune_server.Prelude.{
  ℕ, suc, ◌-◌, ◌≤◌, ◌≡◌, refl, arith, Bool, true, Bool-cases, ◌∙◌, inl, inr, some, List, [], ◌∷◌,
  ◌++◌,
}
use elidune_server.Prelude.Int.{ℤ}
use elidune_server.Prelude.Table.{
  All, count_where, select_first, select_first_holds, delete_where, update_where,
}
use elidune_server.Prelude.Rows.{select_first-update_found}
use elidune_server.Tasks.{
  BackgroundTask, TaskKind, Body, report, complete, fail, Stage, queued, in_body, grace, Job,
  Manager, job_has_id, advance, get_task,
}
use elidune_server.Tasks.Events.{
  Event, spawned, advanced, evicted, written, task_expired, index_expired, advance_found, happen,
  run,
}
use elidune_server.Tasks.Steps.{
  test_eq, body_steps, steps_left, Shows, LeadsTo, advances, Keeps, advance-LeadsTo, advance-steps,
  Tracked, advance_id, happen-other,
}

module _ {Json : Type 0} where
  lookup_updated :
      (j id : ℕ) (jobs : List (Job Json)) (job next : Job Json)
      → j ≡ id
      → next.task.id ≡ id
      → select_first (job_has_id id) jobs ≡ some job
      → select_first (job_has_id id) (update_where (job_has_id j) (λ x. next) jobs) ≡ some next
  lookup_updated j id jobs job next e h f =
      rw e
        (select_first-update_found (job_has_id id) (λ x. next) jobs job (λ y. ground (arith, h)) f)

  -- A step of the task.
  advance_found-Tracked :
      (now : ℤ) (up : Bool) (id n : ℕ) (body : Body Json) (m : Manager Json)
      → Tracked id body (suc n) m
      → Tracked id body n (advance_found now up (select_first (job_has_id id) m.active) m)
  advance_found-Tracked now up id n body m (job, f, l, s) =
      let same = select_first_holds (job_has_id id) m.active f in
      let next = advance now job.task job.stage in
      rw f (
        next,
        lookup_updated job.task.id id m.active job next (test_eq job.task.id id same)
            (advance_id now job.task job.stage ∙ test_eq job.task.id id same) f,
        advance-LeadsTo body now job.task job.stage l,
        omega (arith, advance-steps now job.task job.stage, s),
      )

  happen-Tracked :
      (id n : ℕ) (body : Body Json) (e : Event Json) (m : Manager Json)
      → advances id e ≡ true
      → Tracked id body (suc n) m
      → Tracked id body n (happen e m)
  unfolding happen
  happen-Tracked id n body (spawned now j kind user_id b) m h t = cc
  happen-Tracked id n body (advanced now up j) m h t =
      rw (test_eq j id h) (advance_found-Tracked now up id n body m t)
  happen-Tracked id n body (evicted j) m h t = cc
  happen-Tracked id n body (written reached j) m h t = cc
  happen-Tracked id n body (task_expired j) m h t = cc
  happen-Tracked id n body (index_expired user_id) m h t = cc

  -- As many steps are still needed as there are left to come.
  run-Tracked :
      (id n : ℕ) (body : Body Json) (es : List (Event Json)) (m : Manager Json)
      → All (Keeps id) es
      → n ≤ count_where (advances id) es
      → Tracked id body n m
      → Tracked id body 0 (run es m)
  unfolding run
  run-Tracked id n body [] m k c (job, f, l, s) = (job, f, l, omega (arith, c, s))
  run-Tracked id n body (e ∷ es) m (k, ks) c (job, f, l, s) = elim (Bool-cases (advances id e)) [
    | inl steps ↦
        run-Tracked id (n - 1) body es (happen e m) ks (ground arith)
          (happen-Tracked id (n - 1) body e m steps (job, f, l, ground arith))
    | inr other ↦
        run-Tracked id n body es (happen e m) ks (ground arith)
          (job, happen-other id e m job k other f, l, s)
  ]

  lookup_inserted :
      (id : ℕ) (jobs : List (Job Json)) (job : Job Json)
      → job.task.id ≡ id
      → select_first (job_has_id id) (delete_where (job_has_id id) jobs ++ job ∷ []) ≡ some job
  lookup_inserted id [] job e = ground arith
  lookup_inserted id (j ∷ jobs) job e = ground (arith, lookup_inserted id jobs job e)

  tracked-Shows :
      (up : Bool) (id : ℕ) (body : Body Json) (m : Manager Json) (job : Job Json) (s : Stage Json)
      → select_first (job_has_id id) m.active ≡ some job
      → steps_left s ≤ 0
      → LeadsTo body job.task s
      → (t : BackgroundTask Json) × (get_task up id m ≡ some t) × Shows body t
  unfolding get_task
  tracked-Shows up id body m job grace f n l = (job.task, rw (f, get_task) refl, l)
  tracked-Shows up id body m job (queued rest) f n l = absurd (omega arith)
  tracked-Shows up id body m job (in_body (report p rest)) f n l = absurd (omega arith)
  tracked-Shows up id body m job (in_body (complete v)) f n l = absurd (omega arith)
  tracked-Shows up id body m job (in_body (fail v)) f n l = absurd (omega arith)

  -- A spawned task whose future takes one step to start and one for each call of its body, in any
  -- interleaving with the other tasks in which its id is not given again and its grace period does
  -- not end, is answered by `get_task` with its outcome: completed with the result, or failed with
  -- the error. Redis may be down all the time.
  pub spawn-Shows :
      (now : ℤ) (id : ℕ) (kind : TaskKind) (user_id : ℕ) (body : Body Json) (es : List (Event Json))
      (m : Manager Json) (up : Bool)
      → All (Keeps id) es
      → suc (body_steps body) ≤ count_where (advances id) es
      → (t : BackgroundTask Json) × (get_task up id (run (spawned now id kind user_id body ∷ es) m)
          ≡ some t)
        × Shows body t
  unfolding run happen
  spawn-Shows now id kind user_id body es m up k c =
      let started = happen (spawned now id kind user_id body) m in
      let (job, f, l, n) =
        run-Tracked id (suc (body_steps body)) body es started k c
          (_, lookup_inserted id m.active _ refl, (λ u h. h), omega arith) in
      tracked-Shows up id body (run es started) job job.stage f n l
