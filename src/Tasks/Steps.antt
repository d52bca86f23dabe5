-- ===== src/Tasks/Steps.antt =====
-- The steps that a task's future still takes, and the events that do not touch it.
use elidune_server.Prelude.{
  ℕ, suc, ◌≤◌, ◌≡◌, ◌≢◌, refl, arith, Bool, true, false, ◌==◌, Option-cases, ◌∙◌, inl, inr, ◌⊎◌,
  Option, none, some,
}
use elidune_server.Prelude.Int.{ℤ}
use elidune_server.Prelude.Table.{select_first, select_first_holds, delete_where}
use elidune_server.Prelude.Rows.{select_first-delete, select_first-grow, select_first-update_other}
use elidune_server.Tasks.{
  BackgroundTask, completed, failed, Body, report, complete, fail, Stage, queued, in_body, grace,
  Job, Manager, has_id, job_has_id, advance,
}
use elidune_server.Tasks.Events.{
  Event, spawned, advanced, evicted, written, task_expired, index_expired, advance_found,
  evict_found, is_asleep, write_found, happen,
}

pub test_eq : (i j : ℕ) → i == j ≡ true → i ≡ j
test_eq i j h = ground arith

module _ {Json : Type 0} where
  -- The number of steps that a body takes.
  abbrev pub body_steps : Body Json → ℕ
  body_steps (report p body) = suc (body_steps body)
  body_steps (complete v) = 1
  body_steps (fail v) = 1

  abbrev pub steps_left : Stage Json → ℕ
  steps_left (queued body) = suc (body_steps body)
  steps_left (in_body body) = body_steps body
  steps_left grace = 0

  -- The task has the outcome that the body ends with.
  abbrev pub Shows : Body Json → BackgroundTask Json → Type 0
  Shows (report p body) t = Shows body t
  Shows (complete v) t = (t.status ≡ completed) × (t.result ≡ some v)
  Shows (fail v) t = (t.status ≡ failed) × (t.error ≡ some v)

  -- Wherever the future stands, it ends with the outcome of `body`.
  abbrev pub LeadsTo : Body Json → BackgroundTask Json → Stage Json → Type 0
  LeadsTo body t (queued rest) = (u : BackgroundTask Json) → Shows rest u → Shows body u
  LeadsTo body t (in_body rest) = (u : BackgroundTask Json) → Shows rest u → Shows body u
  LeadsTo body t grace = Shows body t

  -- A step of the task's future.
  abbrev pub advances : ℕ → Event Json → Bool
  advances id (spawned now j kind user_id body) = false
  advances id (advanced now up j) = j == id
  advances id (evicted j) = false
  advances id (written reached j) = false
  advances id (task_expired j) = false
  advances id (index_expired user_id) = false

  -- No event takes the id for another task or ends its grace period.
  abbrev pub Keeps : ℕ → Event Json → Type 0
  Keeps id (spawned now j kind user_id body) = j ≢ id
  Keeps id (advanced now up j) = Unit
  Keeps id (evicted j) = j ≢ id
  Keeps id (written reached j) = Unit
  Keeps id (task_expired j) = Unit
  Keeps id (index_expired user_id) = Unit

  pub advance-LeadsTo :
      (body : Body Json) (now : ℤ) (t : BackgroundTask Json) (s : Stage Json)
      → LeadsTo body t s
      → LeadsTo body (advance now t s).task (advance now t s).stage
  advance-LeadsTo body now t (queued rest) h = h
  advance-LeadsTo body now t (in_body (report p rest)) h = h
  advance-LeadsTo body now t (in_body (complete v)) h = h _ (refl, refl)
  advance-LeadsTo body now t (in_body (fail v)) h = h _ (refl, refl)
  advance-LeadsTo body now t grace h = h

  -- A step is one step nearer to the end.
  pub advance-steps :
      (now : ℤ) (t : BackgroundTask Json) (s : Stage Json)
      → suc (steps_left (advance now t s).stage) ≡ steps_left s
        ⊎ (steps_left s ≡ 0) × (steps_left (advance now t s).stage ≡ 0)
  advance-steps now t (queued rest) = inl refl
  advance-steps now t (in_body (report p rest)) = inl refl
  advance-steps now t (in_body (complete v)) = inl refl
  advance-steps now t (in_body (fail v)) = inl refl
  advance-steps now t grace = inr (refl, refl)

  -- The task of an id stands in the map at a stage that leads to the outcome.
  abbrev pub Tracked : ℕ → Body Json → ℕ → Manager Json → Type 0
  Tracked id body n m =
      (job : Job Json) × (select_first (job_has_id id) m.active ≡ some job)
      × LeadsTo body job.task job.stage
      × (steps_left job.stage ≤ n)

  pub advance_id :
      (now : ℤ) (t : BackgroundTask Json) (s : Stage Json) → (advance now t s).task.id ≡ t.id
  advance_id now t (queued rest) = refl
  advance_id now t (in_body (report p rest)) = refl
  advance_id now t (in_body (complete v)) = refl
  advance_id now t (in_body (fail v)) = refl
  advance_id now t grace = refl

  pub not_both :
      (i j : ℕ) (job : Job Json) → j ≢ i → job_has_id i job ≡ true → job_has_id j job ≡ false
  not_both i j job n h = ground arith

  pub advance_found-other :
      (now : ℤ) (up : Bool) (id j : ℕ) (m : Manager Json) (job : Job Json)
      → j == id ≡ false
      → select_first (job_has_id id) m.active ≡ some job
      → select_first
          (job_has_id id)
          (advance_found now up (select_first (job_has_id j) m.active) m).active
        ≡ some job
  advance_found-other now up id j m job n f =
      elim (Option-cases (select_first (job_has_id j) m.active)) [
        | inl missing ↦ rw missing f
        | inr (other, found) ↦ rw found (
            let same = select_first_holds (job_has_id j) m.active found in
            select_first-update_other (job_has_id id) (job_has_id other.task.id)
              (λ x. advance now other.task other.stage) m.active (λ x e. ground (arith, same))
              (λ x e. ground (arith, same, advance_id now other.task other.stage))
            ∙ f)
      ]

  pub write_found-active :
      (reached : Bool) (o : Option (BackgroundTask Json)) (m : Manager Json)
      → (write_found reached o m).active ≡ m.active
  write_found-active reached none m = refl
  write_found-active true (some t) m = refl
  write_found-active false (some t) m = refl

  pub evict_found-other :
      (b : Bool) (id j : ℕ) (m : Manager Json) (job : Job Json)
      → j ≢ id
      → select_first (job_has_id id) m.active ≡ some job
      → select_first (job_has_id id) (evict_found b j m).active ≡ some job
  evict_found-other true id j m job n f =
      select_first-delete (job_has_id id) (job_has_id j) m.active (λ x e. not_both id j x n e) ∙ f
  evict_found-other false id j m job n f = f

  -- An event that does not step the task leaves it as it is.
  pub happen-other :
      (id : ℕ) (e : Event Json) (m : Manager Json) (job : Job Json)
      → Keeps id e
      → advances id e ≡ false
      → select_first (job_has_id id) m.active ≡ some job
      → select_first (job_has_id id) (happen e m).active ≡ some job
  unfolding happen
  happen-other id (spawned now j kind user_id body) m job k a f =
      select_first-grow (job_has_id id) (delete_where (job_has_id j) m.active) _ job (
        select_first-delete (job_has_id id) (job_has_id j) m.active (λ x e. not_both id j x k e)
        ∙ f)
  happen-other id (advanced now up j) m job k a f = advance_found-other now up id j m job a f
  happen-other id (evicted j) m job k a f =
      evict_found-other (is_asleep (select_first (job_has_id j) m.active)) id j m job k f
  happen-other id (written reached j) m job k a f =
      rw (write_found-active reached (select_first (has_id j) m.writes) m) f
  happen-other id (task_expired j) m job k a f = f
  happen-other id (index_expired user_id) m job k a f = f
