-- ===== src/Loans/Checkout.antt =====
-- Checkout of a copy (`loans_create`, src/repository/loans/mutations.rs).
pub mod Guards
pub mod Effect
pub mod Invariant
use elidune_server.Prelude.{
  ℕ, ◌+◌, String, str_eq, Bool, true, false, ◌&&◌, ◌||◌, Option, none, some, List, [], ◌∷◌, ◌++◌,
  ◌==◌, ltb, if◌then◌else◌, is_some, is_none, unwrap_or, and_then,
}
use elidune_server.Prelude.Int.{ℤ, pos, ◌+ℤ◌, leb_ℤ}
use elidune_server.Prelude.Table.{select_first, count_where, update_where, delete_where}
use elidune_server.Error.{
  Result, ok, err, literal, loan_not_found, no_active_loan_for, max_total_and_media, max_total,
  max_media, max_renewals, not_found, bad_request, business_rule, database, row_not_found, ok_or,
  fail_if, Message,
}
use elidune_server.Rights.{DateTime, User}
use elidune_server.Db.{
  Db, Item, Biblio, Loan, LoanArchive, Hold, Action, pure, throw, reads, lift, modify, transaction,
  ◌>>=◌, ◌>>◌,
}
use elidune_server.Holds.{
  days, holds_notify_next_tx, eligible_borrower, holds_fulfill_active_for_user_item_tx,
  holds_cancel_active_for_item_tx,
}
use elidune_server.Loans.Settings.{
  Resolved, resolve_loan_settings, at_due_date, LoanSettingsRenewAt,
}
use elidune_server.Loans.Rows.{
  has_id, open_for_item, open_for_user, user_row, item_biblio, public_type_of, loans_get_by_id,
  is_barcode,
}
use elidune_server.Loans.Return.{loans_return}

pub record CreateLoan : Type 0 where
  pub user_id : ℕ
  pub item_id : Option ℕ
  pub item_identification : Option String
  pub force : Bool

pub record LoanCreateOutcome : Type 0 where
  pub loan_id : ℕ
  pub expiry_at : DateTime
  pub fulfilled_hold_id : Option ℕ

abbrev pub resolve_item : Option ℕ → Option String → Db → Result ℕ
resolve_item (some id) s db = ok id
resolve_item none (some s) db =
    ok_or (not_found (literal "Item not found"))
      (elim (select_first (is_barcode s) db.items) [ none ↦ none | some it ↦ some it.id ])
resolve_item none none db = err (bad_request (literal "item_id or item_identification required"))

abbrev release_found : DateTime → ℤ → Bool → Option Loan → Action Unit
release_found now ready_days force none = pure tt
release_found now ready_days true (some l) = do loans_return now ready_days l.id; pure tt
release_found now ready_days false (some l) =
    throw (business_rule (literal "Item is already borrowed"))

-- The copy may be out: an error, or with `force` a return on the spot, which is committed.
unfoldable pub release : DateTime → ℤ → Bool → ℕ → Action Unit
release now ready_days force item = do
  found ← reads (λ db. ok (select_first (open_for_item item) db.loans))
  release_found now ready_days force found

abbrev has_media : String → Option (Item × Biblio) → Bool
has_media mt none = false
has_media mt (some row) = elim (row.1).media_type [ none ↦ false | some m ↦ str_eq m mt ]

abbrev pub count_total : ℕ → Db → ℕ
count_total user db = count_where (open_for_user user) db.loans

abbrev pub count_media : ℕ → Option String → Db → ℕ
count_media user none db = 0
count_media user (some mt) db =
    count_where (λ l. open_for_user user l && has_media mt (item_biblio l.item_id db)) db.loans

abbrev limit_message : Bool → Bool → ℕ → ℤ → ℕ → ℤ → Message
limit_message true true total nb_total media nb_media =
    max_total_and_media total nb_total media nb_media
limit_message true false total nb_total media nb_media = max_total total nb_total
limit_message false m total nb_total media nb_media = max_media media nb_media

unfoldable pub check_limits : Bool → ℕ → Option String → Resolved → Db → Result Unit
check_limits force user mt rules db =
    let total = count_total user db in
    let media = count_media user mt db in
    let total_limit_reached = leb_ℤ rules.nb_max_total (pos total) in
    let media_limit_reached = leb_ℤ rules.nb_max_media (pos media) in
    fail_if ((total_limit_reached || media_limit_reached) && (if force then false else true)) (
      business_rule (
        limit_message total_limit_reached media_limit_reached total rules.nb_max_total media
          rules.nb_max_media))

abbrev is_other : ℕ → Option ℕ → Bool
is_other user none = false
is_other user (some eligible) = if eligible == user then false else true

unfoldable pub check_queue : Bool → ℕ → ℕ → Db → Result Unit
check_queue force user item db =
    fail_if ((if force then false else true) && is_other user (eligible_borrower item db.holds)) (
      business_rule (
        literal
          "This copy has an active hold for another patron — only the queued patron may borrow it, or use force=true to override"))

abbrev pub new_loan : ℕ → ℕ → ℕ → DateTime → DateTime → Loan
new_loan id user item now until = record {
  id = id;
  user_id = user;
  item_id = item;
  date = now;
  renew_at = none;
  nb_renews = some (pos 0);
  expiry_at = some until;
  notes = none;
  returned_at = none;
}

abbrev pub insert_loan : ℕ → ℕ → DateTime → DateTime → Db → Db
insert_loan user item now until db = record db {
  loans = db.loans ++ new_loan db.next_loan_id user item now until ∷ [];
  next_loan_id = db.next_loan_id + 1;
}

abbrev settle_holds : Bool → ℕ → ℕ → Action (Option ℕ)
settle_holds true user item = do holds_cancel_active_for_item_tx item; pure none
settle_holds false user item = holds_fulfill_active_for_user_item_tx user item

-- The transaction of a checkout.
unfoldable pub open_loan : DateTime → DateTime → Bool → ℕ → ℕ → Action LoanCreateOutcome
unfolding transaction holds_cancel_active_for_item_tx holds_fulfill_active_for_user_item_tx
open_loan now until force user item = transaction (do
  loan_id ← reads (λ db. ok db.next_loan_id)
  modify (insert_loan user item now until)
  fulfilled ← settle_holds force user item
  pure (record { loan_id = loan_id; expiry_at = until; fulfilled_hold_id = fulfilled }))

-- The checks of a checkout once the copy is in, and the due date.
unfoldable pub checkout_checks : DateTime → Bool → ℕ → ℕ → Action DateTime
checkout_checks now force user item = do
  row ← reads (λ db. ok_or (database row_not_found) (item_biblio item db))
  lift (
      fail_if ((if (row.0).borrowable then false else true) && (if force then false else true))
        (business_rule (literal "Item is not borrowable")))
  rules ← reads (λ db. ok (resolve_loan_settings (public_type_of user db) (row.1).media_type db))
  reads (check_limits force user (row.1).media_type rules)
  reads (check_queue force user item)
  pure (now +ℤ days rules.duration)

unfoldable pub loans_create : DateTime → ℤ → CreateLoan → Action LoanCreateOutcome
unfolding release checkout_checks open_loan
loans_create now ready_days loan = do
  item ← reads (resolve_item loan.item_id loan.item_identification)
  release now ready_days loan.force item
  until ← checkout_checks now loan.force loan.user_id item
  open_loan now until loan.force loan.user_id item
