-- ===== src/Holds/Queue.antt =====
-- Whose turn it is, who is told next, and where a new hold stands.
use elidune_server.Prelude.{
  ℕ, ◌+◌, ◌==◌, ◌≤◌, ◌≡◌, refl, ap, ◌⊎◌, true, false, ◌&&◌, Option, none, some, List, [], ◌∷◌, ◌++◌,
  arith, Option-cases, inl, inr,
}
use elidune_server.Prelude.Int.{ℤ, pos, ◌+ℤ◌, ◌*ℤ◌}
use elidune_server.Prelude.Table.{
  All, select_first, select_first_by_key, count_where, count_where-exists, count_where-update,
  exists_where, update_where, IsRow,
}
use elidune_server.Error.{ok}
use elidune_server.Rights.{DateTime}
use elidune_server.Db.{Db, Hold, pending, ready}
use elidune_server.Holds.{
  active_for, is_pending, has_id, active_on, pending_on, ready_on, first_by_position, CreateHold,
  days, set_ready, eligible_borrower, holds_notify_next_tx, holds_notify_next, place_hold,
  max_position, next_position, new_hold, holds_mark_ready,
}
use elidune_server.Holds.Order.{
  IsFrom, IsUpTo, first_by_position_least, first_by_position-none, max_position_bounds,
  first_by_position-IsRow,
}

-- `h` is served no later than `k`: a ready hold before any pending one, else by position.
pub record ServedBefore (h k : Hold) : Type 0 where
  pub ready_first : k.status ≡ ready → h.status ≡ ready
  pub by_position : h.status ≡ k.status → h.position ≤ k.position

-- `h` heads the queue of the item: it is active and served before every active hold of it.
pub record IsHead (item : ℕ) (hs : List Hold) (h : Hold) : Type 0 where
  pub is_active_head : active_on item h ≡ true
  pub before_all : All (λ k. active_on item k ≡ true → ServedBefore h k) hs

active_split :
    (item : ℕ) (hs : List Hold)
    → count_where (active_on item) hs
      ≡ count_where (ready_on item) hs + count_where (pending_on item) hs
active_split item [] = refl
active_split item (h ∷ hs) = ground (arith, active_split item hs)

-- Nobody is preferred only if the copy has no active hold at all.
pub eligible_borrower-none :
    (item : ℕ) (hs : List Hold)
    → eligible_borrower item hs ≡ none
    → count_where (active_on item) hs ≡ 0
unfolding eligible_borrower
eligible_borrower-none item hs e = ground (
  arith,
  active_split item hs,
  first_by_position-none (ready_on item) hs,
  first_by_position-none (pending_on item) hs,
)

-- `holds.id` is the primary key.
abbrev pub UniqueIds : List Hold → Type 0
UniqueIds hs = (k : ℕ) → count_where (has_id k) hs ≤ 1

pending_row :
    (item : ℕ) (h : Hold) → pending_on item h ≡ true → (h.item_id ≡ item) × (h.status ≡ pending)
pending_row item h e = (ground arith, ground arith)

module _ (now : DateTime) (expiry_days : ℤ) (item : ℕ) (db : Db) where
  -- Ready as of now, to be fetched within the pickup window, in days of 86400 seconds.
  abbrev readied : Hold → Hold
  readied h = record h {
    status = ready;
    notified_at = some now;
    expires_at = some (now +ℤ expiry_days *ℤ pos 86400);
  }

  -- The call has made the hold `h`, a row of the table that is pending on the copy and has the
  -- least position of these, ready, and changed no other row.
  pub record Readies (h : Hold) : Type 0 where
    pub is_row : IsRow h db.holds
    pub of_item : h.item_id ≡ item
    pub was_pending : h.status ≡ pending
    pub was_first : IsFrom (pending_on item) h.position db.holds
    pub result : holds_notify_next_tx now expiry_days item db ≡ (
      ok (some (readied h)),
      record db {
        holds = update_where (λ k. (k.id == h.id) && is_pending k.status) readied db.holds;
      },
    )

  notify_first :
      (h : Hold)
      → UniqueIds db.holds
      → first_by_position (pending_on item) db.holds ≡ some h
      → Readies h
  unfolding holds_notify_next_tx
  notify_first h unique found =
      let least = first_by_position_least (pending_on item) db.holds h found in
      let row = first_by_position-IsRow (pending_on item) db.holds h found in
      let selected : select_first (λ k. has_id h.id k && is_pending k.status) db.holds ≡ some h =
        select_first_by_key (has_id h.id) (λ k. has_id h.id k && is_pending k.status) h db.holds row
          (unique h.id) (ground arith) (ground arith) (λ y e. ground arith) in
      record {
        is_row = row;
        of_item = (pending_row item h least.0).0;
        was_pending = (pending_row item h least.0).1;
        was_first = least.1;
        result = rw found (rw selected refl);
      }

  -- With unique hold ids, either the copy has no pending hold, the answer is none and nothing
  -- changes, or its pending hold with the least position gets the status ready, now as the
  -- instant of its notice, and an end of the pickup window that lies the given days, of 86400
  -- seconds, after now; that row is the answer, and no other row changes. The call never fails.
  pub notify_next_tx_lem :
      UniqueIds db.holds
      → ((count_where (pending_on item) db.holds ≡ 0)
          × (holds_notify_next_tx now expiry_days item db ≡ (ok none, db)))
        ⊎ ((h : Hold) × Readies h)
  notify_next_tx_lem unique = elim (Option-cases (first_by_position (pending_on item) db.holds)) [
    | inl nothing ↦ inl (
      first_by_position-none (pending_on item) db.holds nothing,
      unfold holds_notify_next_tx in rw nothing refl,
    )
    | inr (h, found) ↦ inr (h, notify_first h unique found)
  ]

-- The call succeeds, and writes the table of holds only.
pub notify_next_tx_ok :
    (now : DateTime) (expiry_days : ℤ) (item : ℕ) (db : Db)
    → UniqueIds db.holds
    → (r : Option Hold) × (hs : List Hold) × (holds_notify_next_tx now expiry_days item db
        ≡ (ok r, record db { holds = hs }))
notify_next_tx_ok now expiry_days item db unique =
    elim (notify_next_tx_lem now expiry_days item db unique) [
      | inl (nothing, e) ↦ (none, db.holds, e)
      | inr (h, r) ↦ (_, _, r.result)
    ]

pub mark_ready-UniqueIds :
    (now : DateTime) (expiry_days : ℤ) (id : ℕ) (db : Db)
    → UniqueIds db.holds
    → UniqueIds (holds_mark_ready now expiry_days id db).1.holds
unfolding holds_mark_ready
mark_ready-UniqueIds now expiry_days id db n k =
    rw
      (count_where-update (has_id k) (λ h. has_id id h && is_pending h.status)
        (set_ready now (now +ℤ days expiry_days)) db.holds (λ h. refl))
      (n k)

pub notify_next_tx-UniqueIds :
    (now : DateTime) (expiry_days : ℤ) (item : ℕ) (db : Db)
    → UniqueIds db.holds
    → UniqueIds (holds_notify_next_tx now expiry_days item db).1.holds
unfolding holds_notify_next_tx
notify_next_tx-UniqueIds now expiry_days item db n k =
    elim (Option-cases (first_by_position (pending_on item) db.holds)) [
      | inl nothing ↦ ground (arith, n k)
      | inr (r, found) ↦ ground (arith, mark_ready-UniqueIds now expiry_days r.id db n k)
    ]

-- The two versions of the call leave the same database, whatever it holds.
pub notify_next-same_state :
    (now : DateTime) (expiry_days : ℤ) (item : ℕ) (db : Db)
    → (holds_notify_next now expiry_days item db).1
      ≡ (holds_notify_next_tx now expiry_days item db).1
unfolding holds_notify_next holds_notify_next_tx
notify_next-same_state now expiry_days item db = ground arith

placed :
    (id : ℕ) (now : DateTime) (d : CreateHold) (db db' : Db) (h : Hold)
    → place_hold id now d db ≡ (ok h, db')
    → (h ≡ new_hold id now d (next_position d.item_id db.holds))
      × (db' ≡ record db { holds = db.holds ++ h ∷ [] })
      × (exists_where (active_for d.user_id d.item_id) db.holds ≡ false)
unfolding place_hold
placed id now d db db' h e = (ground arith, ground arith, ground arith)

-- A placed hold is pending and stands behind every active hold of its copy; the patron had no
-- active hold on the copy, and no other row of the table changed.
pub place_hold-last :
    (id : ℕ) (now : DateTime) (d : CreateHold) (db db' : Db) (h : Hold)
    → place_hold id now d db ≡ (ok h, db')
    → (db' ≡ record db { holds = db.holds ++ h ∷ [] })
      × (h.status ≡ pending)
      × (h.user_id ≡ d.user_id)
      × (h.item_id ≡ d.item_id)
      × (count_where (active_for d.user_id d.item_id) db.holds ≡ 0)
      × ((last : ℕ) × (h.position ≡ last + 1) × IsUpTo (active_on d.item_id) last db.holds)
place_hold-last id now d db db' h e =
    let (same, appended, free) = placed id now d db db' h e in
    (
      appended,
      ap (λ k. k.status) same,
      ap (λ k. k.user_id) same,
      ap (λ k. k.item_id) same,
      count_where-exists (active_for d.user_id d.item_id) db.holds free,
      (
        max_position (active_on d.item_id) db.holds,
        ap (λ k. k.position) same,
        max_position_bounds (active_on d.item_id) db.holds,
      ),
    )
