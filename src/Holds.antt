-- ===== src/Holds.antt =====
-- The hold queue of a physical copy: the statements of src/repository/holds.rs, and
-- `place_hold` and `cancel` of src/services/holds.rs.
-- `now` is both `Utc::now()` and the database's `NOW()` of a call. New ids come from the snowflake
-- generator and are an argument. Rows are read in the order of the table where two positions tie.
pub mod Order
pub mod Queue
pub mod Duplicates
pub mod Lifecycle
pub mod Frame
use elidune_server.Prelude.{
  ℕ, ◌+◌, String, str_eq, Bool, true, false, ◌&&◌, ◌||◌, Option, none, some, List, [], ◌∷◌, ◌++◌,
  map, ltb, leb, ◌==◌, if◌then◌else◌, is_some, or_else,
}
use elidune_server.Prelude.Int.{ℤ, pos, ◌+ℤ◌, ◌*ℤ◌, ltb_ℤ}
use elidune_server.Prelude.Table.{
  select_first, select_where, count_where, exists_where, update_where,
}
use elidune_server.Error.{
  Result, ok, err, literal, hold_not_found, pending_hold_not_found, not_found, conflict,
  authorization, database, foreign_key_violation, unique_violation, numeric_out_of_range, ok_or,
  fail_if,
}
use elidune_server.Rights.{DateTime, User}
use elidune_server.Db.{
  Db, Hold, HoldStatus, pending, ready, fulfilled, cancelled, expired, Item, Action, pure, reads,
  lift, modify, ◌>>=◌, ◌>>◌,
}

pub status_as_str : HoldStatus → String
status_as_str pending = "pending"
status_as_str ready = "ready"
status_as_str fulfilled = "fulfilled"
status_as_str cancelled = "cancelled"
status_as_str expired = "expired"

pub status_from_string : String → HoldStatus
status_from_string s =
    if str_eq s "ready"
    then ready
    else if str_eq s "fulfilled"
    then fulfilled
    else if str_eq s "cancelled"
    then cancelled
    else if str_eq s "expired"
    then expired
    else pending

abbrev pub is_pending : HoldStatus → Bool
is_pending pending = true
is_pending ready = false
is_pending fulfilled = false
is_pending cancelled = false
is_pending expired = false

abbrev pub is_ready : HoldStatus → Bool
is_ready ready = true
is_ready pending = false
is_ready fulfilled = false
is_ready cancelled = false
is_ready expired = false

-- `status IN ('pending','ready')`
abbrev pub is_active : HoldStatus → Bool
is_active s = is_pending s || is_ready s

abbrev pub has_id : ℕ → Hold → Bool
has_id i h = h.id == i

abbrev pub active_on : ℕ → Hold → Bool
active_on item h = (h.item_id == item) && is_active h.status

abbrev pub pending_on : ℕ → Hold → Bool
pending_on item h = (h.item_id == item) && is_pending h.status

abbrev pub ready_on : ℕ → Hold → Bool
ready_on item h = (h.item_id == item) && is_ready h.status

abbrev pub active_for : ℕ → ℕ → Hold → Bool
active_for user item h = (h.user_id == user) && active_on item h

-- `ORDER BY position ASC LIMIT 1` over the rows that match.
abbrev pub earlier : Hold → Option Hold → Option Hold
earlier h none = some h
earlier h (some k) = if leb h.position k.position then some h else some k

abbrev pub first_by_position : (Hold → Bool) → List Hold → Option Hold
first_by_position p [] = none
first_by_position p (h ∷ hs) =
    let rest = first_by_position p hs in if p h then earlier h rest else rest

-- `COALESCE(MAX(position), 0)` over the rows that match.
abbrev pub max_position : (Hold → Bool) → List Hold → ℕ
max_position p [] = 0
max_position p (h ∷ hs) =
    let rest = max_position p hs in
    if p h then (if leb rest h.position then h.position else rest) else rest

pub record CreateHold : Type 0 where
  pub user_id : ℕ
  pub item_id : ℕ
  pub notes : Option String

-- The greatest value of a PostgreSQL INTEGER.
abbrev pub integer_max : ℕ
integer_max = 2147483647

abbrev pub days : ℤ → ℤ
days d = d *ℤ pos 86400

abbrev pub set_status : HoldStatus → Hold → Hold
set_status s h = record h { status = s }

abbrev pub set_ready : DateTime → DateTime → Hold → Hold
set_ready now until h = record h { status = ready; notified_at = some now; expires_at = some until }

-- The first row that an `UPDATE … RETURNING` wrote.
abbrev returning : (Hold → Bool) → (Hold → Hold) → List Hold → Option Hold
returning p f hs = elim (select_first p hs) [ none ↦ none | some h ↦ some (f h) ]

-- An `UPDATE` of the holds and the answer to its `RETURNING *`.
abbrev update_holds : (Hold → Bool) → (Hold → Hold) → Action (Option Hold)
update_holds p f db = (ok (returning p f db.holds), record db { holds = update_where p f db.holds })

pub holds_get_by_id : ℕ → Action Hold
holds_get_by_id id =
    reads (λ db. ok_or (not_found (hold_not_found id)) (select_first (has_id id) db.holds))

abbrev new_hold : ℕ → DateTime → CreateHold → ℕ → Hold
new_hold id now d position = record {
  id = id;
  user_id = d.user_id;
  item_id = d.item_id;
  created_at = now;
  notified_at = none;
  expires_at = none;
  status = pending;
  position = position;
  notes = d.notes;
}

-- The new row's position is computed before the constraints of the table `holds` are checked.
abbrev insert_check : ℕ → CreateHold → ℕ → Db → Result Unit
insert_check id d position db =
    if ltb integer_max position
    then err (database numeric_out_of_range)
    else if exists_where (has_id id) db.holds
    then err (database unique_violation)
    else if exists_where (λ u. u.id == d.user_id) db.users
        && exists_where (λ i. i.id == d.item_id) db.items
    then ok tt
    else err (database foreign_key_violation)

abbrev next_position : ℕ → List Hold → ℕ
next_position item hs = max_position (active_on item) hs + 1

pub holds_create : ℕ → DateTime → CreateHold → Action Hold
holds_create id now d = do
  position ← reads (λ db. ok (next_position d.item_id db.holds))
  reads (insert_check id d position)
  modify (λ db. record db { holds = db.holds ++ new_hold id now d position ∷ [] })
  pure (new_hold id now d position)

pub holds_mark_ready : DateTime → ℤ → ℕ → Action Hold
holds_mark_ready now expiry_days id = do
  row ←
      update_holds (λ h. has_id id h && is_pending h.status)
        (set_ready now (now +ℤ days expiry_days))
  lift (ok_or (not_found (pending_hold_not_found id)) row)

pub holds_cancel : ℕ → Action Hold
holds_cancel id = do
  row ← update_holds (has_id id) (set_status cancelled)
  lift (ok_or (not_found (hold_not_found id)) row)

abbrev pub is_past : DateTime → Option DateTime → Bool
is_past now none = false
is_past now (some t) = ltb_ℤ t now

abbrev pub is_overdue : DateTime → Hold → Bool
is_overdue now h = is_ready h.status && is_past now h.expires_at

pub holds_expire_overdue : DateTime → Action (List ℕ)
holds_expire_overdue now db = (
  ok (map (λ h. h.id) (select_where (is_overdue now) db.holds)),
  record db { holds = update_where (is_overdue now) (set_status expired) db.holds },
)

pub holds_count_for_item : ℕ → Action ℕ
holds_count_for_item item = reads (λ db. ok (count_where (active_on item) db.holds))

pub holds_get_next_pending : ℕ → Action (Option Hold)
holds_get_next_pending item = reads (λ db. ok (first_by_position (pending_on item) db.holds))

pub holds_fulfill : ℕ → Action Hold
holds_fulfill id = do
  row ← update_holds (has_id id) (set_status fulfilled)
  lift (ok_or (not_found (hold_not_found id)) row)

abbrev mark_found : DateTime → ℤ → Option Hold → Action (Option Hold)
mark_found now expiry_days none = pure none
mark_found now expiry_days (some r) = do holds_mark_ready now expiry_days r.id; pure (some r)

-- The answer is the row as it was before the update.
pub holds_notify_next : DateTime → ℤ → ℕ → Action (Option Hold)
unfolding holds_get_next_pending holds_mark_ready
holds_notify_next now expiry_days item = do
  next ← holds_get_next_pending item
  mark_found now expiry_days next

abbrev mark_found_tx : DateTime → ℤ → Option Hold → Action (Option Hold)
mark_found_tx now expiry_days none = pure none
mark_found_tx now expiry_days (some r) = do
  updated ← holds_mark_ready now expiry_days r.id
  pure (some updated)

-- The same inside an open transaction; the answer is the updated row.
unfoldable pub holds_notify_next_tx : DateTime → ℤ → ℕ → Action (Option Hold)
unfolding holds_get_next_pending holds_mark_ready
holds_notify_next_tx now expiry_days item = do
  next ← holds_get_next_pending item
  mark_found_tx now expiry_days next

abbrev pub user_of : Option Hold → Option ℕ
user_of none = none
user_of (some h) = some h.user_id

-- `ready` first, else the first `pending`.
unfoldable pub eligible_borrower : ℕ → List Hold → Option ℕ
eligible_borrower item hs =
    or_else (user_of (first_by_position (ready_on item) hs))
      (user_of (first_by_position (pending_on item) hs))

unfoldable pub holds_eligible_borrower_for_item : ℕ → Action (Option ℕ)
holds_eligible_borrower_for_item item = reads (λ db. ok (eligible_borrower item db.holds))

unfoldable pub holds_fulfill_active_for_user_item_tx : ℕ → ℕ → Action (Option ℕ)
holds_fulfill_active_for_user_item_tx user item = do
  row ← update_holds (active_for user item) (set_status fulfilled)
  pure (elim row [ none ↦ none | some h ↦ some h.id ])

-- Also `holds_cancel_active_for_item`, which is the same statement outside a transaction.
unfoldable pub holds_cancel_active_for_item_tx : ℕ → Action ℕ
holds_cancel_active_for_item_tx item db = (
  ok (count_where (active_on item) db.holds),
  record db { holds = update_where (active_on item) (set_status cancelled) db.holds },
)

pub holds_has_active_for_user_item : ℕ → ℕ → Action Bool
holds_has_active_for_user_item user item =
    reads (λ db. ok (exists_where (active_for user item) db.holds))

abbrev item_of_biblio : ℕ → List Item → Hold → Bool
item_of_biblio biblio items h =
    exists_where
      (λ i. (i.id == h.item_id) && (elim i.biblio_id [ none ↦ false | some b ↦ b == biblio ])) items

-- The join finds one copy for each hold, since `items.id` is the key.
pub holds_count_active_for_biblio : ℕ → Action ℕ
holds_count_active_for_biblio biblio =
    reads (λ db.
      ok (count_where (λ h. item_of_biblio biblio db.items h && is_active h.status) db.holds))

-- `HoldsService::place_hold`
unfoldable pub place_hold : ℕ → DateTime → CreateHold → Action Hold
unfolding holds_has_active_for_user_item holds_create
place_hold id now d = do
  duplicate ← holds_has_active_for_user_item d.user_id d.item_id
  lift (fail_if duplicate (conflict (literal "User already has an active hold for this item")))
  holds_create id now d

-- `HoldsService::cancel`
pub cancel : ℕ → ℕ → Bool → Action Hold
unfolding holds_get_by_id holds_cancel
cancel id requesting_user_id can_manage_others = do
  hold ← holds_get_by_id id
  lift (
      fail_if
        ((if can_manage_others then false else true)
          && (if hold.user_id == requesting_user_id then false else true))
        (authorization (literal "Cannot cancel another user's hold")))
  holds_cancel id
