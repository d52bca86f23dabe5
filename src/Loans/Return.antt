-- ===== src/Loans/Return.antt =====
-- Return of a copy (`loans_return`, src/repository/loans/mutations.rs). `now` is the one instant of
-- a call and `ready_days` the configured pickup window. Of the rows joined for the answer the
-- parts that the rules read are kept.
pub mod Laws
pub mod Soundness
use elidune_server.Prelude.{
  ℕ, ◌+◌, String, str_eq, Bool, true, false, ◌&&◌, ◌||◌, Option, none, some, List, [], ◌∷◌, ◌++◌,
  ◌==◌, ltb, if◌then◌else◌, is_some, is_none, unwrap_or, and_then,
}
use elidune_server.Prelude.Int.{ℤ, pos, ◌+ℤ◌, leb_ℤ}
use elidune_server.Prelude.Table.{select_first, count_where, update_where, delete_where}
use elidune_server.Error.{
  Result, ok, err, literal, loan_not_found, no_active_loan_for, max_total_and_media, max_total,
  max_media, max_renewals, not_found, bad_request, business_rule, database, row_not_found, ok_or,
  fail_if, Message,
}
use elidune_server.Rights.{DateTime, User}
use elidune_server.Db.{
  Db, Item, Biblio, Loan, LoanArchive, Hold, Action, pure, throw, reads, lift, modify, transaction,
  ◌>>=◌, ◌>>◌,
}
use elidune_server.Holds.{
  days, holds_notify_next_tx, eligible_borrower, holds_fulfill_active_for_user_item_tx,
  holds_cancel_active_for_item_tx,
}
use elidune_server.Loans.Settings.{
  Resolved, resolve_loan_settings, at_due_date, LoanSettingsRenewAt,
}
use elidune_server.Loans.Rows.{
  has_id, open_for_item, open_for_user, user_row, item_biblio, public_type_of, loans_get_by_id,
  is_barcode,
}

pub record LoanDetails : Type 0 where
  pub id : ℕ
  pub item_id : ℕ
  pub start_date : DateTime
  pub expiry_at : DateTime
  pub renewal_date : Option DateTime
  pub nb_renews : ℤ
  pub returned_at : Option DateTime
  pub biblio : Biblio
  pub user : Option ℕ
  pub item_identification : Option String
  pub is_overdue : Bool

pub record LoanReturnOutcome : Type 0 where
  pub details : LoanDetails
  pub readied_hold : Option Hold

abbrev pub archive_of : DateTime → Loan → Option User → LoanArchive
archive_of now loan user = record {
  user_id = loan.user_id;
  item_id = loan.item_id;
  date = loan.date;
  nb_renews = loan.nb_renews;
  expiry_at = loan.expiry_at;
  returned_at = some now;
  notes = loan.notes;
  borrower_public_type = and_then user (λ u. u.public_type);
  addr_city = and_then user (λ u. u.addr_city);
  account_type = elim user [ none ↦ none | some u ↦ some u.account_type ];
}

abbrev details_of : DateTime → Loan → Item × Biblio → Option User → LoanDetails
details_of now loan row user = record {
  id = loan.id;
  item_id = loan.item_id;
  start_date = loan.date;
  expiry_at = unwrap_or now loan.expiry_at;
  renewal_date = loan.renew_at;
  nb_renews = unwrap_or (pos 0) loan.nb_renews;
  returned_at = some now;
  biblio = row.1;
  user = elim user [ none ↦ none | some u ↦ some u.id ];
  item_identification = (row.0).barcode;
  is_overdue = false;
}

abbrev pub archive_loan : DateTime → Loan → Db → Db
archive_loan now loan db = record db {
  loans_archives = db.loans_archives ++ archive_of now loan (user_row loan.user_id db) ∷ [];
  loans = delete_where (has_id loan.id) db.loans;
}

-- The transaction of a return: archive, delete, wake the next hold.
unfoldable pub close_loan : DateTime → ℤ → Loan → Action (Option Hold)
unfolding transaction
close_loan now ready_days loan =
    transaction
      (do modify (archive_loan now loan); holds_notify_next_tx now ready_days loan.item_id)

-- The rows for the answer are read after the commit.
unfoldable pub loans_return : DateTime → ℤ → ℕ → Action LoanReturnOutcome
unfolding close_loan
loans_return now ready_days loan_id = do
  loan ← loans_get_by_id loan_id
  lift (fail_if (is_some loan.returned_at) (business_rule (literal "Loan already returned")))
  readied ← close_loan now ready_days loan
  row ← reads (λ db. ok_or (database row_not_found) (item_biblio loan.item_id db))
  user ← reads (λ db. ok (user_row loan.user_id db))
  pure (record { details = details_of now loan row user; readied_hold = readied })
