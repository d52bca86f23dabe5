-- ===== src/Loans/Return/Laws.antt =====
-- What a return does, on every branch.
use elidune_server.Prelude.{
  ℕ, ◌==◌, ◌≡◌, refl, true, false, ◌&&◌, Option, none, some, List, [], ◌∷◌, ◌++◌, arith, is_some,
  and_then, inl, inr,
}
use elidune_server.Prelude.Int.{ℤ, pos, ◌+ℤ◌, ◌*ℤ◌}
use elidune_server.Prelude.Table.{
  select_first, select_first_holds, count_where, update_where, delete_where, IsRow,
}
use elidune_server.Error.{
  ok, err, literal, loan_not_found, not_found, business_rule, database, row_not_found,
}
use elidune_server.Rights.{DateTime}
use elidune_server.Db.{Db, Item, Biblio, Loan, Hold, pending, ready}
use elidune_server.Holds.{holds_notify_next_tx, is_pending, pending_on}
use elidune_server.Holds.Order.{IsFrom}
use elidune_server.Holds.Queue.{UniqueIds, notify_next_tx_ok, notify_next_tx_lem}
use elidune_server.Loans.Rows.{has_id, item_biblio}
use elidune_server.Loans.Return.{LoanDetails, archive_loan, close_loan, loans_return}

module _ (now : DateTime) (ready_days : ℤ) (db : Db) where
  -- A return that is refused leaves the database alone: no loan has the id, or the loan is closed.
  pub return_refused :
      (id : ℕ)
      → (select_first (has_id id) db.loans ≡ none
          → loans_return now ready_days id db ≡ (err (not_found (loan_not_found id)), db))
        × ((loan : Loan)
            → select_first (has_id id) db.loans ≡ some loan
            → is_some loan.returned_at ≡ true
            → loans_return now ready_days id db
              ≡ (err (business_rule (literal "Loan already returned")), db))
  unfolding loans_return
  return_refused id = (λ e. ground arith, λ loan e c. ground arith)

  -- The transaction goes through: the loan is archived and deleted, and the queue is told.
  pub close_loan_lem :
      (loan : Loan) (r : Option Hold) (hs : List Hold)
      → holds_notify_next_tx now ready_days loan.item_id (archive_loan now loan db)
        ≡ (ok r, record (archive_loan now loan db) { holds = hs })
      → close_loan now ready_days loan db ≡ (ok r, record (archive_loan now loan db) { holds = hs })
  unfolding close_loan
  close_loan_lem loan r hs e = rw e refl

  -- The rows after a return of `loan`, with the table of holds `hs`.
  abbrev pub without_loan : Loan → List Hold → Db
  without_loan loan hs = record db {
    loans = delete_where (λ l. l.id == loan.id) db.loans;
    loans_archives =
        db.loans_archives
        ++ record {
          user_id = loan.user_id;
          item_id = loan.item_id;
          date = loan.date;
          nb_renews = loan.nb_renews;
          expiry_at = loan.expiry_at;
          returned_at = some now;
          notes = loan.notes;
          borrower_public_type =
              and_then (select_first (λ u. u.id == loan.user_id) db.users) (λ u. u.public_type);
          addr_city =
              and_then (select_first (λ u. u.id == loan.user_id) db.users) (λ u. u.addr_city);
          account_type = elim (select_first (λ u. u.id == loan.user_id) db.users) [
            | none ↦ none
            | some u ↦ some u.account_type
          ];
        }
          ∷ [];
    holds = hs;
  }

  -- What the answer says of the loan, the copy and the borrower.
  abbrev pub answer : Loan → Item × Biblio → LoanDetails
  answer loan row = record {
    id = loan.id;
    item_id = loan.item_id;
    start_date = loan.date;
    expiry_at = elim loan.expiry_at [ none ↦ now | some t ↦ t ];
    renewal_date = loan.renew_at;
    nb_renews = elim loan.nb_renews [ none ↦ pos 0 | some n ↦ n ];
    returned_at = some now;
    biblio = row.1;
    user = elim (select_first (λ u. u.id == loan.user_id) db.users) [
      | none ↦ none
      | some u ↦ some u.id
    ];
    item_identification = (row.0).barcode;
    is_overdue = false;
  }

  -- The state and the answer, once the queue was told.
  return_told :
      (id : ℕ) (loan : Loan) (r : Option Hold) (hs : List Hold)
      → select_first (has_id id) db.loans ≡ some loan
      → loan.returned_at ≡ none
      → holds_notify_next_tx now ready_days loan.item_id (archive_loan now loan db)
        ≡ (ok r, record (archive_loan now loan db) { holds = hs })
      → ((loans_return now ready_days id db).1 ≡ without_loan loan hs)
        × ((row : Item × Biblio)
            → item_biblio loan.item_id db ≡ some row
            → (loans_return now ready_days id db).0
              ≡ ok (record { details = answer loan row; readied_hold = r }))
        × (item_biblio loan.item_id db ≡ none
            → (loans_return now ready_days id db).0 ≡ err (database row_not_found))
  unfolding loans_return
  return_told id loan r hs found lent told =
      let closed = close_loan_lem loan r hs told in
      (
        rw (found, lent, closed) (ground arith),
        λ row e. rw (found, lent, closed, e) refl,
        λ e. rw (found, lent, closed, e) refl,
      )

  pub return_outcome :
      (id : ℕ) (loan : Loan)
      → UniqueIds db.holds
      → select_first (has_id id) db.loans ≡ some loan
      → loan.returned_at ≡ none
      → (r : Option Hold) × (hs : List Hold) × (holds_notify_next_tx now ready_days loan.item_id
            (archive_loan now loan db)
          ≡ (ok r, record (archive_loan now loan db) { holds = hs }))
        × ((loans_return now ready_days id db).1 ≡ without_loan loan hs)
        × ((row : Item × Biblio)
            → item_biblio loan.item_id db ≡ some row
            → (loans_return now ready_days id db).0
              ≡ ok (record { details = answer loan row; readied_hold = r }))
        × (item_biblio loan.item_id db ≡ none
            → (loans_return now ready_days id db).0 ≡ err (database row_not_found))
  return_outcome id loan unique found lent =
      let (r, hs, told) =
        notify_next_tx_ok now ready_days loan.item_id (archive_loan now loan db) unique in
      let (state, good, bad) = return_told id loan r hs found lent told in
      (r, hs, told, state, good, bad)

  -- What becomes of the copy's queue: it has no pending hold and stays as it is, or its pending
  -- hold with the least position is ready, to be fetched within `ready_days` days.
  pub data Woken (item : ℕ) : Option Hold → List Hold → Type 0 where
    nobody : count_where (pending_on item) db.holds ≡ 0 → Woken item none db.holds
    next_one :
        (h : Hold)
        → IsRow h db.holds
        → h.item_id ≡ item
        → h.status ≡ pending
        → IsFrom (pending_on item) h.position db.holds
        → Woken item
            (some (record h {
              status = ready;
              notified_at = some now;
              expires_at = some (now +ℤ ready_days *ℤ pos 86400);
            }))
            (update_where
              (λ k. (k.id == h.id) && is_pending k.status)
              (λ k. record k {
                status = ready;
                notified_at = some now;
                expires_at = some (now +ℤ ready_days *ℤ pos 86400);
              })
              db.holds)

  wakes :
      (loan : Loan)
      → UniqueIds db.holds
      → (r : Option Hold) × (hs : List Hold) × Woken loan.item_id r hs
        × (holds_notify_next_tx now ready_days loan.item_id (archive_loan now loan db)
            ≡ (ok r, record (archive_loan now loan db) { holds = hs }))
  wakes loan unique =
      elim (notify_next_tx_lem now ready_days loan.item_id (archive_loan now loan db) unique) [
        | inl (empty, e) ↦ (none, db.holds, nobody empty, e)
        | inr (h, r) ↦ (_, _, next_one h r.is_row r.of_item r.was_pending r.was_first, r.result)
      ]

  -- With unique hold ids, an open loan that is returned leaves the table of loans, and one row
  -- enters the archive: the loan's, with the instant of the return and the public type, the city
  -- and the account type that the patron's record has at that moment. The copy's pending hold
  -- with the least position, if there is one, becomes ready for the pickup window from now on, in
  -- days of 86400 seconds. No other row changes. All of it is written even if the copy's record
  -- cannot be read back for the answer: only then is the call an error; else the answer describes
  -- the loan as returned now, and names the hold.
  pub return_lem :
      (id : ℕ) (loan : Loan)
      → UniqueIds db.holds
      → select_first (has_id id) db.loans ≡ some loan
      → loan.returned_at ≡ none
      → (r : Option Hold) × (hs : List Hold) × Woken loan.item_id r hs
        × (loan.id ≡ id)
        × ((loans_return now ready_days id db).1 ≡ without_loan loan hs)
        × ((row : Item × Biblio)
            → item_biblio loan.item_id db ≡ some row
            → (loans_return now ready_days id db).0
              ≡ ok (record { details = answer loan row; readied_hold = r }))
        × (item_biblio loan.item_id db ≡ none
            → (loans_return now ready_days id db).0 ≡ err (database row_not_found))
  return_lem id loan unique found lent =
      let (r, hs, woken, told) = wakes loan unique in
      let (state, good, bad) = return_told id loan r hs found lent told in
      (
        r,
        hs,
        woken,
        ground (arith, select_first_holds (has_id id) db.loans {x = loan} found),
        state,
        good,
        bad,
      )
