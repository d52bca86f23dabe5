-- ===== src/Holds/Lifecycle.antt =====
-- The life of one hold: cancelling it, and the daily expiry of holds that were not picked up.
use elidune_server.Prelude.{
  ℕ, ◌≡◌, ◌≢◌, refl, ◌⊎◌, inl, inr, Bool, ◌&&◌, true, false, Bool-cases, List, [], ◌∷◌, Option,
  none, some, arith, map,
}
use elidune_server.Prelude.Int.{ℤ, ◌<ℤ◌, ltb_ℤ}
use elidune_server.Prelude.Table.{All, select_first, select_where, update_where}
use elidune_server.Error.{ok, err, not_found, hold_not_found, authorization, literal}
use elidune_server.Rights.{DateTime}
use elidune_server.Db.{Db, Hold, HoldStatus, pending, ready, fulfilled, cancelled, expired}
use elidune_server.Holds.{
  status_as_str, status_from_string, has_id, is_ready, is_past, is_overdue, set_status, cancel,
  holds_expire_overdue,
}

-- A hold's status is read back from the text that stores it.
pub status_round_trip : (s : HoldStatus) → status_from_string (status_as_str s) ≡ s
unfolding status_as_str status_from_string
status_round_trip pending = refl
status_round_trip ready = refl
status_round_trip fulfilled = refl
status_round_trip cancelled = refl
status_round_trip expired = refl

before : (a b : ℤ) → a <ℤ b → ltb_ℤ a b ≡ true
before a b h = ground arith

expired_waits : ¬ (expired ≡ ready)
expired_waits e = cc

module _ (id user : ℕ) (manages : Bool) (db : Db) where
  -- Cancelling, on every branch: an unknown id is not found; another patron's hold may be
  -- cancelled by a manager only; any other call succeeds, and marks the hold as cancelled
  -- whatever its status was. A call that fails changes nothing.
  pub cancel_lem :
      (select_first (has_id id) db.holds ≡ none
        → cancel id user manages db ≡ (err (not_found (hold_not_found id)), db))
      × ((h : Hold)
          → select_first (has_id id) db.holds ≡ some h
          → (manages ≡ false
              → h.user_id ≢ user
              → cancel id user manages db
                ≡ (err (authorization (literal "Cannot cancel another user's hold")), db))
            × ((manages ≡ true) ⊎ (h.user_id ≡ user)
                → cancel id user manages db ≡ (
                  ok (set_status cancelled h),
                  record db { holds = update_where (has_id id) (set_status cancelled) db.holds },
                )))
  unfolding cancel
  cancel_lem = (λ e. ground arith, λ h e. (λ m u. ground arith, λ c. ground arith))

-- A ready hold whose pickup window ended before `now`.
pub record Missed (now : DateTime) (h : Hold) : Type 0 where
  pub waits : h.status ≡ ready
  pub until : DateTime
  pub window : h.expires_at ≡ some until
  pub passed : until <ℤ now

-- The table before and after the expiry, and the ids of the rows that it changed, in their order.
pub data Expires (now : DateTime) : List Hold → List Hold → List ℕ → Type 0 where
  no_rows : Expires now [] [] []
  missed :
      {hs ks : List Hold} {ids : List ℕ} (h : Hold)
      → Missed now h
      → Expires now hs ks ids
      → Expires now (h ∷ hs) (record h { status = expired } ∷ ks) (h.id ∷ ids)
  kept :
      {hs ks : List Hold} {ids : List ℕ} (h : Hold)
      → ¬ Missed now h
      → Expires now hs ks ids
      → Expires now (h ∷ hs) (h ∷ ks) ids

past_window :
    (now : DateTime) (end : Option DateTime)
    → is_past now end ≡ true
    → (t : DateTime) × (end ≡ some t) × (t <ℤ now)
past_window now none e = cc
past_window now (some t) e = (t, refl, ground arith)

ready_status : (s : HoldStatus) → is_ready s ≡ true → s ≡ ready
ready_status ready e = refl
ready_status pending e = cc
ready_status fulfilled e = cc
ready_status cancelled e = cc
ready_status expired e = cc

both : (a b : Bool) → a && b ≡ true → (a ≡ true) × (b ≡ true)
both a b e = (ground arith, ground arith)

overdue-Missed : (now : DateTime) (h : Hold) → is_overdue now h ≡ true → Missed now h
overdue-Missed now h e =
    let (r, w) = both (is_ready h.status) (is_past now h.expires_at) e in
    let (t, window, passed) = past_window now h.expires_at w in
    record { waits = ready_status h.status r; until = t; window = window; passed = passed }

Missed-overdue : (now : DateTime) (h : Hold) → Missed now h → is_overdue now h ≡ true
Missed-overdue now h m = rw (m.waits, m.window) (before m.until now m.passed)

-- What the statement writes and returns is what the relation says.
expires :
    (now : DateTime) (hs : List Hold)
    → Expires now hs
        (update_where (is_overdue now) (set_status expired) hs)
        (map (λ h. h.id) (select_where (is_overdue now) hs))
expires now [] = no_rows
expires now (h ∷ hs) = elim (Bool-cases (is_overdue now h)) [
  | inl e ↦ rw e (missed h (overdue-Missed now h e) (expires now hs))
  | inr e ↦ rw e (kept h (λ m. absurd (ground (arith, Missed-overdue now h m))) (expires now hs))
]

none_left :
    (now : DateTime) (hs ks : List Hold) (ids : List ℕ)
    → Expires now hs ks ids
    → All (λ k. ¬ Missed now k) ks
none_left now _ _ _ no_rows = tt
none_left now _ _ _ (missed h m rest) =
    (λ k. absurd (expired_waits k.waits), none_left now _ _ _ rest)
none_left now _ _ _ (kept h n rest) = (n, none_left now _ _ _ rest)

-- The daily run never fails and writes the table of holds only. Row by row, a ready hold whose
-- pickup window ended before now becomes expired, with its other columns kept, and any other hold
-- stays as it is. The answer is the ids of the holds that became expired, in the order of the
-- table, and no ready hold whose window has ended is left.
pub expire_overdue_lem :
    (now : DateTime) (db : Db)
    → (ids : List ℕ) × (hs : List Hold) × (holds_expire_overdue now db
        ≡ (ok ids, record db { holds = hs }))
      × Expires now db.holds hs ids
      × All (λ k. ¬ Missed now k) hs
unfolding holds_expire_overdue
expire_overdue_lem now db = (
  map (λ h. h.id) (select_where (is_overdue now) db.holds),
  update_where (is_overdue now) (set_status expired) db.holds,
  refl,
  expires now db.holds,
  none_left now _ _ _ (expires now db.holds),
)
