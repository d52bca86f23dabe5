-- ===== src/Holds/Frame.antt =====
-- What the calls on the queues keep: the ids of the holds, and every other table.
use elidune_server.Prelude.{ℕ, ◌≡◌, refl, inl, inr, Bool, List, [], ◌∷◌, arith, Bool-cases}
use elidune_server.Prelude.Table.{
  count_where-update, count_where-append, count_where-exists, exists_where, update_where,
}
use elidune_server.Rights.{DateTime}
use elidune_server.Db.{Db, Hold, cancelled, fulfilled, expired}
use elidune_server.Holds.{
  has_id, is_overdue, active_for, active_on, set_status, place_hold, cancel, holds_mark_ready,
  holds_fulfill, holds_expire_overdue, holds_notify_next_tx, holds_fulfill_active_for_user_item_tx,
  holds_cancel_active_for_item_tx, CreateHold, new_hold, next_position,
}
use elidune_server.Holds.Queue.{UniqueIds, notify_next_tx-UniqueIds, mark_ready-UniqueIds}
use elidune_server.Holds.Duplicates.{
  Call, place, cancel_hold, mark_ready, fulfill, expire_overdue, notify_next, fulfill_active,
  cancel_active, step,
}

update-UniqueIds :
    (p : Hold → Bool) (f : Hold → Hold) (hs : List Hold)
    → ((h : Hold) → (f h).id ≡ h.id)
    → UniqueIds hs
    → UniqueIds (update_where p f hs)
update-UniqueIds p f hs same u k =
    rw (count_where-update (has_id k) p f hs (λ h. rw (same h) refl)) (u k)

place-UniqueIds :
    (id : ℕ) (now : DateTime) (d : CreateHold) (db : Db)
    → UniqueIds db.holds
    → UniqueIds (place_hold id now d db).1.holds
unfolding place_hold
place-UniqueIds id now d db u k = elim (Bool-cases (exists_where (has_id id) db.holds)) [
  | inl taken ↦ ground (arith, u k)
  | inr free ↦ ground (
    arith,
    u k,
    count_where-exists (has_id id) db.holds free,
    count_where-append (has_id k) db.holds
        (new_hold id now d (next_position d.item_id db.holds) ∷ []),
  )
]

pub step-UniqueIds : (c : Call) (db : Db) → UniqueIds db.holds → UniqueIds (step c db).holds
unfolding step cancel holds_fulfill holds_expire_overdue holds_fulfill_active_for_user_item_tx
    holds_cancel_active_for_item_tx
step-UniqueIds (place id now d) db u = place-UniqueIds id now d db u
step-UniqueIds (cancel_hold id user manages) db u = λ k.
    ground
      (arith, u k, update-UniqueIds (has_id id) (set_status cancelled) db.holds (λ h. refl) u k)
step-UniqueIds (mark_ready now expiry_days id) db u = mark_ready-UniqueIds now expiry_days id db u
step-UniqueIds (fulfill id) db u =
    update-UniqueIds (has_id id) (set_status fulfilled) db.holds (λ h. refl) u
step-UniqueIds (expire_overdue now) db u =
    update-UniqueIds (is_overdue now) (set_status expired) db.holds (λ h. refl) u
step-UniqueIds (notify_next now expiry_days item) db u =
    notify_next_tx-UniqueIds now expiry_days item db u
step-UniqueIds (fulfill_active user item) db u =
    update-UniqueIds (active_for user item) (set_status fulfilled) db.holds (λ h. refl) u
step-UniqueIds (cancel_active item) db u =
    update-UniqueIds (active_on item) (set_status cancelled) db.holds (λ h. refl) u

-- A call on the queues leaves the loans alone.
pub step_only_holds : (c : Call) (db : Db) → step c db ≡ record db { holds = (step c db).holds }
unfolding step place_hold cancel holds_mark_ready holds_fulfill holds_expire_overdue
    holds_notify_next_tx holds_fulfill_active_for_user_item_tx holds_cancel_active_for_item_tx
step_only_holds (place id now d) db = ground arith
step_only_holds (cancel_hold id user manages) db = ground arith
step_only_holds (mark_ready now expiry_days id) db = ground arith
step_only_holds (fulfill id) db = refl
step_only_holds (expire_overdue now) db = refl
step_only_holds (notify_next now expiry_days item) db = ground arith
step_only_holds (fulfill_active user item) db = refl
step_only_holds (cancel_active item) db = refl
