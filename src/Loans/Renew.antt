-- ===== src/Loans/Renew.antt =====
-- Renewal of a loan (`loans_renew`, src/repository/loans/mutations.rs).
pub mod Policy
use elidune_server.Prelude.{
  ℕ, ◌+◌, String, str_eq, Bool, true, false, ◌&&◌, ◌||◌, Option, none, some, List, [], ◌∷◌, ◌++◌,
  ◌==◌, ltb, if◌then◌else◌, is_some, is_none, unwrap_or, and_then,
}
use elidune_server.Prelude.Int.{ℤ, pos, ◌+ℤ◌, leb_ℤ}
use elidune_server.Prelude.Table.{select_first, count_where, update_where, delete_where}
use elidune_server.Error.{
  Result, ok, err, literal, loan_not_found, no_active_loan_for, max_total_and_media, max_total,
  max_media, max_renewals, not_found, bad_request, business_rule, database, row_not_found, ok_or,
  fail_if, Message,
}
use elidune_server.Rights.{DateTime, User}
use elidune_server.Db.{
  Db, Item, Biblio, Loan, LoanArchive, Hold, Action, pure, throw, reads, lift, modify, transaction,
  ◌>>=◌, ◌>>◌,
}
use elidune_server.Holds.{
  days, holds_notify_next_tx, eligible_borrower, holds_fulfill_active_for_user_item_tx,
  holds_cancel_active_for_item_tx,
}
use elidune_server.Loans.Settings.{
  Resolved, resolve_loan_settings, at_due_date, LoanSettingsRenewAt,
}
use elidune_server.Loans.Rows.{
  has_id, open_for_item, open_for_user, user_row, item_biblio, public_type_of, loans_get_by_id,
  is_barcode,
}

abbrev anchor_of : LoanSettingsRenewAt → DateTime → Loan → DateTime
anchor_of LoanSettingsRenewAt.now t loan = t
anchor_of at_due_date t loan = unwrap_or t loan.expiry_at

abbrev set_renewed : DateTime → DateTime → ℤ → Loan → Loan
set_renewed t until n l = record l { expiry_at = some until; renew_at = some t; nb_renews = some n }

unfoldable pub loans_renew : DateTime → ℕ → Action (DateTime × ℤ)
loans_renew t loan_id = do
  loan ← loans_get_by_id loan_id
  lift (fail_if (is_some loan.returned_at) (business_rule (literal "Cannot renew a returned loan")))
  row ← reads (λ db. ok_or (database row_not_found) (item_biblio loan.item_id db))
  rules ←
      reads
        (λ db. ok (resolve_loan_settings (public_type_of loan.user_id db) (row.1).media_type db))
  let current_renews = unwrap_or (pos 0) loan.nb_renews
  lift (
      fail_if (leb_ℤ rules.nb_renews current_renews)
        (business_rule (max_renewals current_renews rules.nb_renews)))
  let until = anchor_of rules.renew_at t loan +ℤ days rules.duration
  modify (λ db. record db {
    loans = update_where (has_id loan_id) (set_renewed t until (current_renews +ℤ pos 1)) db.loans;
  })
  pure (until, current_renews +ℤ pos 1)
