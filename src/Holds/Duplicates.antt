-- ===== src/Holds/Duplicates.antt =====
-- No patron has two active holds on one copy, whatever calls are made in whatever order.
use elidune_server.Prelude.{
  ℕ, ◌≤◌, ◌≡◌, refl, Bool, true, false, ◌&&◌, List, [], ◌∷◌, ◌++◌, arith, Bool-cases, Option-cases,
  inl, inr,
}
use elidune_server.Prelude.Int.{ℤ, ◌+ℤ◌}
use elidune_server.Prelude.Table.{
  count_where, count_where-append, count_where-update_le, count_where-exists, exists_where,
  update_where,
}
use elidune_server.Rights.{DateTime}
use elidune_server.Db.{Db, Hold, HoldStatus, cancelled, fulfilled, expired}
use elidune_server.Holds.{
  CreateHold, active_for, has_id, is_active, is_pending, is_overdue, pending_on, active_on,
  set_status, set_ready, days, place_hold, cancel, holds_mark_ready, holds_fulfill,
  holds_expire_overdue, holds_notify_next_tx, holds_fulfill_active_for_user_item_tx,
  holds_cancel_active_for_item_tx, first_by_position, new_hold, next_position,
}

-- The calls that write the table, with their arguments.
pub data Call : Type 0 where
  place : ℕ → DateTime → CreateHold → Call
  cancel_hold : ℕ → ℕ → Bool → Call
  mark_ready : DateTime → ℤ → ℕ → Call
  fulfill : ℕ → Call
  expire_overdue : DateTime → Call
  notify_next : DateTime → ℤ → ℕ → Call
  fulfill_active : ℕ → ℕ → Call
  cancel_active : ℕ → Call

unfoldable pub step : Call → Db → Db
step (place id now d) db = (place_hold id now d db).1
step (cancel_hold id user manages) db = (cancel id user manages db).1
step (mark_ready now expiry_days id) db = (holds_mark_ready now expiry_days id db).1
step (fulfill id) db = (holds_fulfill id db).1
step (expire_overdue now) db = (holds_expire_overdue now db).1
step (notify_next now expiry_days item) db = (holds_notify_next_tx now expiry_days item db).1
step (fulfill_active user item) db = (holds_fulfill_active_for_user_item_tx user item db).1
step (cancel_active item) db = (holds_cancel_active_for_item_tx item db).1

pub run : List Call → Db → Db
unfolding step
run [] db = db
run (c ∷ cs) db = run cs (step c db)

-- At most one active hold for each patron and copy.
abbrev pub NoDuplicates : List Hold → Type 0
NoDuplicates hs = (user item : ℕ) → count_where (active_for user item) hs ≤ 1

-- An update that opens no hold again.
pub record OpensNone (p : Hold → Bool) (f : Hold → Hold) : Type 0 where
  pub keeps : (h : Hold) → p h ≡ true → is_active (f h).status ≡ true → is_active h.status ≡ true
  pub same_user : (h : Hold) → (f h).user_id ≡ h.user_id
  pub same_item : (h : Hold) → (f h).item_id ≡ h.item_id

pub update-NoDuplicates :
    (p : Hold → Bool) (f : Hold → Hold) (hs : List Hold)
    → OpensNone p f
    → NoDuplicates hs
    → NoDuplicates (update_where p f hs)
update-NoDuplicates p f hs o n user item = omega (
  arith,
  n user item,
  count_where-update_le (active_for user item) p f hs
      (λ h ph a. ground (arith, o.keeps h ph, o.same_user h, o.same_item h)),
)

closing : (p : Hold → Bool) (s : HoldStatus) → is_active s ≡ false → OpensNone p (set_status s)
closing p s e = record { keeps = λ h ph a. cc; same_user = λ h. refl; same_item = λ h. refl }

readying :
    (p : Hold → Bool) (now until : DateTime)
    → ((h : Hold) → p h ≡ true → is_active h.status ≡ true)
    → OpensNone p (set_ready now until)
readying p now until e = record {
  keeps = λ h ph a. e h ph;
  same_user = λ h. refl;
  same_item = λ h. refl;
}

mark_ready-NoDuplicates :
    (now : DateTime) (expiry_days : ℤ) (id : ℕ) (db : Db)
    → NoDuplicates db.holds
    → NoDuplicates (holds_mark_ready now expiry_days id db).1.holds
unfolding holds_mark_ready
mark_ready-NoDuplicates now expiry_days id db n =
    update-NoDuplicates (λ h. has_id id h && is_pending h.status)
      (set_ready now (now +ℤ days expiry_days)) db.holds (readying _ now _ (λ h e. ground arith)) n

notify-NoDuplicates :
    (now : DateTime) (expiry_days : ℤ) (item : ℕ) (db : Db)
    → NoDuplicates db.holds
    → NoDuplicates (holds_notify_next_tx now expiry_days item db).1.holds
unfolding holds_notify_next_tx
notify-NoDuplicates now expiry_days item db n user item' =
    elim (Option-cases (first_by_position (pending_on item) db.holds)) [
      | inl nothing ↦ ground (arith, n user item')
      | inr (r, found) ↦
          ground (arith, mark_ready-NoDuplicates now expiry_days r.id db n user item')
    ]

append-NoDuplicates :
    (h : Hold) (hs : List Hold)
    → count_where (active_for h.user_id h.item_id) hs ≡ 0
    → NoDuplicates hs
    → NoDuplicates (hs ++ h ∷ [])
append-NoDuplicates h hs free n user item = elim (Bool-cases (active_for user item h)) [
  | inl same ↦
      let u : h.user_id ≡ user = ground arith in
      let i : h.item_id ≡ item = ground arith in
      rw (count_where-append (active_for user item) hs (h ∷ []), ← u, ← i, free) (ground arith)
  | inr other ↦
      rw (count_where-append (active_for user item) hs (h ∷ []), other) (omega (arith, n user item))
]

place-NoDuplicates :
    (id : ℕ) (now : DateTime) (d : CreateHold) (db : Db)
    → NoDuplicates db.holds
    → NoDuplicates (place_hold id now d db).1.holds
unfolding place_hold
place-NoDuplicates id now d db n user item =
    elim (Bool-cases (exists_where (active_for d.user_id d.item_id) db.holds)) [
      | inl duplicate ↦ ground (arith, n user item)
      | inr free ↦
          let position = next_position d.item_id db.holds in
          ground (
            arith,
            n user item,
            append-NoDuplicates (new_hold id now d position) db.holds
                (count_where-exists (active_for d.user_id d.item_id) db.holds free) n user item,
          )
    ]

cancel-NoDuplicates :
    (id user : ℕ) (manages : Bool) (db : Db)
    → NoDuplicates db.holds
    → NoDuplicates (cancel id user manages db).1.holds
unfolding cancel
cancel-NoDuplicates id user manages db n user' item = ground (
  arith,
  n user' item,
  update-NoDuplicates (has_id id) (set_status cancelled) db.holds
      (closing (has_id id) cancelled refl) n user' item,
)

-- Every call keeps the invariant, also when it fails.
pub step-NoDuplicates :
    (c : Call) (db : Db) → NoDuplicates db.holds → NoDuplicates (step c db).holds
unfolding step holds_fulfill holds_expire_overdue holds_fulfill_active_for_user_item_tx
    holds_cancel_active_for_item_tx
step-NoDuplicates (place id now d) db n = place-NoDuplicates id now d db n
step-NoDuplicates (cancel_hold id user manages) db n = cancel-NoDuplicates id user manages db n
step-NoDuplicates (mark_ready now expiry_days id) db n =
    mark_ready-NoDuplicates now expiry_days id db n
step-NoDuplicates (fulfill id) db n =
    update-NoDuplicates (has_id id) (set_status fulfilled) db.holds (closing _ fulfilled refl) n
step-NoDuplicates (expire_overdue now) db n =
    update-NoDuplicates (is_overdue now) (set_status expired) db.holds (closing _ expired refl) n
step-NoDuplicates (notify_next now expiry_days item) db n =
    notify-NoDuplicates now expiry_days item db n
step-NoDuplicates (fulfill_active user item) db n =
    update-NoDuplicates (active_for user item) (set_status fulfilled) db.holds
      (closing _ fulfilled refl) n
step-NoDuplicates (cancel_active item) db n =
    update-NoDuplicates (active_on item) (set_status cancelled) db.holds (closing _ cancelled refl)
      n

-- From a table in which no patron has two active holds on one copy, no sequence of calls, failed
-- ones included, leads to one in which a patron has.
pub run-NoDuplicates :
    (cs : List Call) (db : Db) → NoDuplicates db.holds → NoDuplicates (run cs db).holds
unfolding run
run-NoDuplicates [] db n = n
run-NoDuplicates (c ∷ cs) db n = run-NoDuplicates cs (step c db) (step-NoDuplicates c db n)
