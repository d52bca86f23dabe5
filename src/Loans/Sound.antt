-- ===== src/Loans/Sound.antt =====
-- What holds of the table `loans` between two calls.
use elidune_server.Prelude.{ℕ, ◌≤◌, ◌≡◌}
use elidune_server.Prelude.Table.{count_where}
use elidune_server.Db.{Db}
use elidune_server.Holds.Queue.{UniqueIds}
use elidune_server.Loans.Rows.{has_id, open_for_item}

-- Loan ids are unique and below the sequence's next value, and no copy is lent twice at a time;
-- hold ids are unique.
pub record IsSound (db : Db) : Type 0 where
  pub unique_ids : (k : ℕ) → count_where (has_id k) db.loans ≤ 1
  pub fresh_ids : (k : ℕ) → db.next_loan_id ≤ k → count_where (has_id k) db.loans ≡ 0
  pub lent_once : (item : ℕ) → count_where (open_for_item item) db.loans ≤ 1
  pub unique_holds : UniqueIds db.holds
