-- ===== src/Scheduler/Next.antt =====
-- The sleep before a daily job ends within a second of its time (src/services/scheduler.rs).
use elidune_server.Prelude.{
  ℕ, ◌+◌, ◌*◌, ◌≤◌, ◌<◌, ◌≡◌, refl, ◌⊎◌, inl, inr, String, ltb, leb, if◌then◌else◌, arith,
}
use elidune_server.Scheduler.{
  second, day, target_of, hour_and_minute, target_seconds, seconds_until, duration_until_next_send,
}
use elidune_server.Stats.Text.{split}

target_of_bound : (h m : ℕ) → target_of (h, m) < 86400
target_of_bound h m = ground arith

-- The time of the next run, today or tomorrow.
abbrev pub next_run : ℕ → ℕ → ℕ
next_run now target = if ltb now (target * second) then target * second else target * second + day

abbrev at_least_one : ℕ → ℕ
at_least_one n = if leb 1 n then n else 1

not_late :
    (now target : ℕ)
    → now < day
    → target < 86400
    → now + at_least_one (seconds_until now target) * second < next_run now target + second
not_late now target h k = ground arith

not_early :
    (now target : ℕ)
    → now < day
    → target < 86400
    → next_run now target < now + at_least_one (seconds_until now target) * second + second
not_early now target h k = ground arith

sleeps :
    (now target : ℕ)
    → now < day
    → target < 86400
    → (1 ≤ at_least_one (seconds_until now target))
      × (at_least_one (seconds_until now target) ≤ 86400)
sleeps now target h k = (ground arith, ground arith)

on_time : (h m : ℕ) → h < 24 → m < 60 → target_of (h, m) ≡ 3600 * h + 60 * m
on_time h m a b = ground arith

at_nine : (h m : ℕ) → (24 ≤ h) ⊎ (60 ≤ m) → target_of (h, m) ≡ 32400
at_nine h m o = elim o [ inl a ↦ ground (arith, a) | inr b ↦ ground (arith, b) ]

-- At any time of day and for any text of a time, a job sleeps between one second and one day, and
-- ends its sleep less than a second before or after the next run: the job's time of day, today if
-- it is still to come and else tomorrow. The hour and the minute are what `hour_and_minute` reads
-- between the colons of the text; the job's time is that of the clock if the hour is less than 24
-- and the minute less than 60, and else nine o'clock.
pub duration_until_next_send_lem :
    (now : ℕ) (send_time : String)
    → now < day
    → (1 ≤ duration_until_next_send now send_time)
      × (duration_until_next_send now send_time ≤ 86400)
      × (next_run now (target_seconds send_time)
          < now + duration_until_next_send now send_time * second + second)
      × (now + duration_until_next_send now send_time * second
          < next_run now (target_seconds send_time) + second)
      × (let (hour, minute) = hour_and_minute (split b':' send_time) in
          (hour < 24 → minute < 60 → target_seconds send_time ≡ 3600 * hour + 60 * minute)
          × ((24 ≤ hour) ⊎ (60 ≤ minute) → target_seconds send_time ≡ 32400))
unfolding duration_until_next_send
duration_until_next_send_lem now send_time h =
    let parts = hour_and_minute (split b':' send_time) in
    let k = target_of_bound parts.0 parts.1 in
    let (least, most) = sleeps now (target_seconds send_time) h k in
    (
      least,
      most,
      not_early now (target_seconds send_time) h k,
      not_late now (target_seconds send_time) h k,
      (on_time parts.0 parts.1, at_nine parts.0 parts.1),
    )

-- The first sleep after a start can end early: half a second before seven in the morning, the job
-- that was due at seven runs, and sleeps one second for the same time.
early : duration_until_next_send (25199 * second + 500000000) "07:00" ≡ 1
unfolding duration_until_next_send
early = refl
