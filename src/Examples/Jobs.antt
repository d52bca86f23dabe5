-- ===== src/Examples/Jobs.antt =====
-- The theorems on background tasks at work on two tasks that run at the same time.
use elidune_server.Prelude.{
  ℕ, ◌≡◌, ◌≢◌, ◌==◌, if◌then◌else◌, refl, arith, true, false, none, some, List, [], ◌∷◌,
}
use elidune_server.Prelude.Int.{pos}
use elidune_server.Prelude.Table.{All}
use elidune_server.Tasks.{
  Body, report, complete, fail, marc_batch_import, maintenance, Manager, BackgroundTask, get_task,
  list_tasks,
}
use elidune_server.Tasks.Events.{Event, spawned, advanced, evicted, written, run}
use elidune_server.Tasks.Consistent.{Fits, run-Fits}
use elidune_server.Tasks.Visible.Lists.{MayList, list_tasks-MayList}
use elidune_server.Tasks.Steps.{Shows}
use elidune_server.Tasks.Outcome.{spawn-Shows}

abbrev idle : Manager ℕ
idle = record { active = []; writes = []; redis = []; user_index = [] }

-- An import that reports once, and completes with 42.
abbrev import_body : Body ℕ
import_body = report record { current = 1; total = 2; message = none } (complete 42)

-- The steps after the import is spawned: a maintenance run of another user fails in between.
abbrev steps : List (Event ℕ)
steps =
    spawned (pos 1) 8 maintenance 4 (fail "no connection")
    ∷ advanced (pos 2) true 7
    ∷ advanced (pos 3) false 8
    ∷ advanced (pos 4) true 7
    ∷ advanced (pos 5) true 8
    ∷ written true 8
    ∷ evicted 8
    ∷ advanced (pos 6) true 7
    ∷ []

abbrev all_steps : List (Event ℕ)
all_steps = spawned (pos 0) 7 marc_batch_import 3 import_body ∷ steps

run-Fits_example : Fits (run all_steps idle)
run-Fits_example = run-Fits all_steps idle (tt, tt, tt)

abbrev owner : ℕ → ℕ
owner id = if id == 7 then 3 else 4

list_tasks-MayList_example :
    All (MayList 3 false (run all_steps idle)) (list_tasks true 3 false (run all_steps idle))
list_tasks-MayList_example =
    list_tasks-MayList owner all_steps idle true 3 false
      (refl, (refl, (tt, (tt, (tt, (tt, (tt, (tt, (tt, tt))))))))) (tt, tt, tt, tt)

eight : ◌≢◌ {A = ℕ} 8 7
eight e = ground arith

spawn-Shows_example :
    (t : BackgroundTask ℕ) × (get_task false 7 (run all_steps idle) ≡ some t) × Shows import_body t
spawn-Shows_example =
    spawn-Shows (pos 0) 7 marc_batch_import 3 import_body steps idle false
      (eight, (tt, (tt, (tt, (tt, (tt, (eight, (tt, tt)))))))) (omega arith)
