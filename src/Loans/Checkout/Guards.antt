-- ===== src/Loans/Checkout/Guards.antt =====
-- When a copy may be taken out without `force`, and what the checkout writes.
use elidune_server.Prelude.{
  ℕ, ◌+◌, ◌==◌, [], ◌∷◌, ◌++◌, ◌≡◌, refl, ap, ◌⊎◌, inl, inr, String, Bool, ◌&&◌, ◌||◌, true, false,
  Option, none, some, arith, Option-cases, Bool-cases,
}
use elidune_server.Prelude.Int.{ℤ, pos, ◌+ℤ◌, ◌*ℤ◌, ◌<ℤ◌, leb_ℤ}
use elidune_server.Prelude.Table.{select_first, update_where}
use elidune_server.Error.{
  Result, ok, err, business_rule, literal, AppError, unit_cases, result_cases, ok_or, fail_if,
}
use elidune_server.Rights.{DateTime}
use elidune_server.Db.{Db, Hold, Item, Biblio, fulfilled, transaction}
use elidune_server.Holds.{
  is_pending, is_ready, eligible_borrower, active_for, set_status,
  holds_fulfill_active_for_user_item_tx,
}
use elidune_server.Loans.Settings.{Resolved, resolve_loan_settings}
use elidune_server.Loans.Rows.{open_for_item, item_biblio, public_type_of}
use elidune_server.Loans.Checkout.{
  CreateLoan, LoanCreateOutcome, resolve_item, release, count_total, count_media, check_limits,
  check_queue, checkout_checks, open_loan, loans_create,
}

ok_or-ok : {A : Type 0} (e : AppError) (x : Option A) (a : A) → ok_or e x ≡ ok a → x ≡ some a
ok_or-ok e none a h = ground arith
ok_or-ok e (some b) a h = ground arith

not_reached : (a b : ℤ) → a <ℤ b → leb_ℤ b a ≡ false
not_reached a b h = ground arith

reached : (a b : ℤ) → leb_ℤ b a ≡ false → a <ℤ b
reached a b h = ground arith

settled_id :
    (x : Option Hold)
    → elim (elim x as (λ _. Option Hold) [ none ↦ none | some h ↦ some (set_status fulfilled h) ])
        as (λ _. Option ℕ) [ none ↦ none | some h ↦ some h.id ]
      ≡ elim x as (λ _. Option ℕ) [ none ↦ none | some h ↦ some h.id ]
settled_id none = refl
settled_id (some h) = refl

neither :
    (a b : Bool) (e : AppError) → fail_if ((a || b) && true) e ≡ ok tt → (a ≡ false) × (b ≡ false)
neither a b e h = ground arith

module _ (now : DateTime) (user item : ℕ) (db : Db) where
  abbrev pub rules_for : Item × Biblio → Resolved
  rules_for row = resolve_loan_settings (public_type_of user db) (row.1).media_type db

  -- What a checkout asks for: the copy is on no open loan, has a record and may be borrowed; the
  -- patron is below both limits; and nobody else is first in the copy's queue.
  pub record Admits (row : Item × Biblio) : Type 0 where
    pub at_home : select_first (open_for_item item) db.loans ≡ none
    pub joined : item_biblio item db ≡ some row
    pub lendable : (row.0).borrowable ≡ true
    pub below_total : pos (count_total user db) <ℤ (rules_for row).nb_max_total
    pub below_media : pos (count_media user (row.1).media_type db) <ℤ (rules_for row).nb_max_media
    pub queue :
        (eligible_borrower item db.holds ≡ none) ⊎ (eligible_borrower item db.holds ≡ some user)

  -- The duration is in days, of 86400 seconds.
  abbrev pub due : Item × Biblio → DateTime
  due row = now +ℤ (rules_for row).duration *ℤ pos 86400

  -- The patron waits for the copy, or may fetch it.
  abbrev own : Hold → Bool
  own h = (h.user_id == user) && ((h.item_id == item) && (is_pending h.status || is_ready h.status))

  -- One row more in the table of loans, the patron's own holds fulfilled, all else as in `db`.
  abbrev pub lent_to : DateTime → Db
  lent_to until = record db {
    loans =
        db.loans
        ++ record {
          id = db.next_loan_id;
          user_id = user;
          item_id = item;
          date = now;
          renew_at = none;
          nb_renews = some (pos 0);
          expiry_at = some until;
          notes = none;
          returned_at = none;
        }
          ∷ [];
    next_loan_id = db.next_loan_id + 1;
    holds = update_where own (λ h. record h { status = fulfilled }) db.holds;
  }

  abbrev pub own_hold : Option ℕ
  own_hold = elim (select_first own db.holds) [ none ↦ none | some h ↦ some h.id ]

  abbrev outcome : DateTime → Option ℕ → Result LoanCreateOutcome × Db
  outcome until h = (
    ok (record { loan_id = db.next_loan_id; expiry_at = until; fulfilled_hold_id = h }),
    lent_to until,
  )

  limits_pass :
      (row : Item × Biblio)
      → Admits row
      → check_limits false user (row.1).media_type (rules_for row) db ≡ ok tt
  unfolding check_limits
  limits_pass row a =
      rw
        (
          not_reached (pos (count_total user db)) (rules_for row).nb_max_total a.below_total,
          not_reached (pos (count_media user (row.1).media_type db)) (rules_for row).nb_max_media
              a.below_media,
        )
        refl

  queue_pass : (row : Item × Biblio) → Admits row → check_queue false user item db ≡ ok tt
  unfolding check_queue
  queue_pass row a = elim a.queue [ inl e ↦ rw e refl | inr e ↦ rw e (ground arith) ]

  checks_pass :
      (row : Item × Biblio)
      → Admits row
      → checkout_checks now false user item db ≡ (ok (due row), db)
  unfolding checkout_checks
  checks_pass row a = rw (a.joined, a.lendable, limits_pass row a, queue_pass row a) refl

  release_pass :
      (ready_days : ℤ) (row : Item × Biblio)
      → Admits row
      → release now ready_days false item db ≡ (ok tt, db)
  unfolding release
  release_pass ready_days row a = rw a.at_home refl

  open_loan_fulfils :
      (until : DateTime)
      → open_loan now until false user item db ≡ (
        ok (record { loan_id = db.next_loan_id; expiry_at = until; fulfilled_hold_id = own_hold }),
        lent_to until,
      )
  unfolding open_loan transaction holds_fulfill_active_for_user_item_tx
  open_loan_fulfils until =
      ap (λ x. outcome until x) (settled_id (select_first (active_for user item) db.holds))

  limits_hold :
      (mt : Option String) (rules : Resolved)
      → check_limits false user mt rules db ≡ ok tt
      → (pos (count_total user db) <ℤ rules.nb_max_total)
        × (pos (count_media user mt db) <ℤ rules.nb_max_media)
  unfolding check_limits
  limits_hold mt rules h =
      let (total, media) = neither _ _ _ h in
      (
        reached (pos (count_total user db)) rules.nb_max_total total,
        reached (pos (count_media user mt db)) rules.nb_max_media media,
      )

  queue_holds :
      check_queue false user item db ≡ ok tt
      → (eligible_borrower item db.holds ≡ none) ⊎ (eligible_borrower item db.holds ≡ some user)
  unfolding check_queue
  queue_holds h = elim (Option-cases (eligible_borrower item db.holds)) [
    | inl e ↦ inl e
    | inr (u, e) ↦ inr (ground (arith, e))
  ]

  checks_hold :
      (until : DateTime) (mid : Db)
      → select_first (open_for_item item) db.loans ≡ none
      → checkout_checks now false user item db ≡ (ok until, mid)
      → (row : Item × Biblio) × Admits row
  unfolding checkout_checks
  checks_hold until mid home h = elim (Option-cases (item_biblio item db)) [
    | inl lone ↦ absurd (ground (arith, lone))
    | inr (row, joined) ↦ elim (Bool-cases (row.0).borrowable) [
      | inr kept ↦ absurd (ground (arith, joined, kept))
      | inl lendable ↦
          elim (unit_cases (check_limits false user (row.1).media_type (rules_for row) db)) [
            | inr (e, full) ↦ absurd (ground (arith, joined, lendable, full))
            | inl free ↦ elim (unit_cases (check_queue false user item db)) [
              | inr (e, queued) ↦ absurd (ground (arith, joined, lendable, free, queued))
              | inl first ↦
                  let (total, media) = limits_hold (row.1).media_type (rules_for row) free in
                  (
                    row,
                    record {
                      at_home = home;
                      joined = joined;
                      lendable = lendable;
                      below_total = total;
                      below_media = media;
                      queue = queue_holds first;
                    },
                  )
            ]
          ]
    ]
  ]

  pub checks-ReadsOnly : (force : Bool) → (checkout_checks now force user item db).1 ≡ db
  unfolding checkout_checks
  checks-ReadsOnly force = ground arith

module _ (now : DateTime) (ready_days : ℤ) (d : CreateLoan) (db : Db) where
  -- A checkout without `force` that is admitted succeeds. One loan is added to the table: it has
  -- the next id, is of the patron and the copy, starts now, is not renewed yet and is due the
  -- rules' duration in days, of 86400 seconds, from now. The patron's own pending and ready holds
  -- on the copy become fulfilled, of which the first is named in the answer. Nothing else changes.
  pub checkout_ok :
      (item : ℕ) (row : Item × Biblio)
      → d.force ≡ false
      → resolve_item d.item_id d.item_identification db ≡ ok item
      → Admits now d.user_id item db row
      → loans_create now ready_days d db ≡ (
        ok (record {
          loan_id = db.next_loan_id;
          expiry_at = due now d.user_id item db row;
          fulfilled_hold_id = own_hold now d.user_id item db;
        }),
        lent_to now d.user_id item db (due now d.user_id item db row),
      )
  unfolding loans_create
  checkout_ok item row unforced named a =
      rw
        (
          named,
          unforced,
          release_pass now d.user_id item db ready_days row a,
          checks_pass now d.user_id item db row a,
          open_loan_fulfils now d.user_id item db (due now d.user_id item db row),
        )
        refl

  -- A checkout without `force` is admitted, or it is an error and leaves the database as it was.
  pub checkout_refused :
      d.force ≡ false
      → ((item : ℕ) × (row : Item × Biblio) × (resolve_item d.item_id d.item_identification db
            ≡ ok item)
          × Admits now d.user_id item db row)
        ⊎ ((e : AppError) × (loans_create now ready_days d db ≡ (err e, db)))
  unfolding loans_create release
  checkout_refused unforced =
      elim (result_cases (resolve_item d.item_id d.item_identification db)) [
        | inr (e, unknown) ↦ inr (e, rw unknown refl)
        | inl (item, named) ↦ elim (Option-cases (select_first (open_for_item item) db.loans)) [
          | inr (l, out) ↦
              inr
                (business_rule (literal "Item is already borrowed"), rw (named, unforced, out) refl)
          | inl home ↦ elim (result_cases (checkout_checks now false d.user_id item db).0) [
            | inr (e, bad) ↦ inr (
              e,
              rw (named, unforced, home)
                  (ground (arith, bad, checks-ReadsOnly now d.user_id item db false)),
            )
            | inl (until, good) ↦
                let (row, a) =
                  checks_hold now d.user_id item db until
                    (checkout_checks now false d.user_id item db).1 home (ground (arith, good)) in
                inl (item, row, named, a)
          ]
        ]
      ]
