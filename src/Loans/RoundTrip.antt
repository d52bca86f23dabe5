-- ===== src/Loans/RoundTrip.antt =====
-- A checkout and the return of the same loan.
use elidune_server.Prelude.{
  ℕ, ◌≤◌, ◌≡◌, refl, ap, Bool, true, false, some, List, [], ◌∷◌, ◌++◌, arith, Bool-cases, inl, inr,
}
use elidune_server.Prelude.Int.{ℤ}
use elidune_server.Prelude.Table.{
  select_first, count_where, count_where-update, count_where_eq_zero, delete_where,
}
use elidune_server.Error.{ok}
use elidune_server.Rights.{DateTime}
use elidune_server.Db.{Db, Loan, LoanArchive, Item, Biblio, fulfilled}
use elidune_server.Holds.{has_id as has_hold_id, active_for, set_status}
use elidune_server.Loans.Rows.{has_id, open_for_item, user_row}
use elidune_server.Loans.Sound.{IsSound}
use elidune_server.Loans.Return.{archive_of, loans_return}
use elidune_server.Loans.Return.Laws.{return_outcome}
use elidune_server.Loans.Checkout.{CreateLoan, resolve_item, new_loan, loans_create}
use elidune_server.Loans.Checkout.Guards.{Admits, due, lent_to, checkout_ok}

select_first_end :
    (p : Loan → Bool) (xs : List Loan) (x : Loan)
    → count_where p xs ≡ 0
    → p x ≡ true
    → select_first p (xs ++ x ∷ []) ≡ some x
select_first_end p [] x h e = rw e
select_first_end p (y ∷ ys) x h e = ground (arith, select_first_end p ys x)

delete_where_end :
    (p : Loan → Bool) (xs : List Loan) (x : Loan)
    → count_where p xs ≡ 0
    → p x ≡ true
    → delete_where p (xs ++ x ∷ []) ≡ xs
delete_where_end p [] x h e = rw e
delete_where_end p (y ∷ ys) x h e = elim (Bool-cases (p y)) [
  | inl here ↦ absurd (ground arith)
  | inr other ↦ rw (other, delete_where_end p ys x (ground arith) e) refl
]

module _ (now later : DateTime) (ready_days : ℤ) (d : CreateLoan) (db : Db) (item : ℕ)
    (row : Item × Biblio) where
  abbrev pub lent : Loan
  lent = new_loan db.next_loan_id d.user_id item now (due now d.user_id item db row)

  abbrev pub mid : Db
  mid = lent_to now d.user_id item db (due now d.user_id item db row)

  -- On sound tables, a checkout without `force` that is admitted and a later return of the loan that
  -- it made leave the loans as they were before, the copy on no open loan, and one more row in the
  -- archive: the loan's, with the instant of its return.
  pub checkout-return :
      IsSound db
      → d.force ≡ false
      → resolve_item d.item_id d.item_identification db ≡ ok item
      → Admits now d.user_id item db row
      → let after =
          (loans_return later ready_days db.next_loan_id (loans_create now ready_days d db).1).1 in
        (after.loans ≡ db.loans)
        × (count_where (open_for_item item) after.loans ≡ 0)
        × ((closed : LoanArchive) × (after.loans_archives ≡ db.loans_archives ++ closed ∷ [])
            × (closed.user_id ≡ d.user_id)
            × (closed.item_id ≡ item)
            × (closed.date ≡ now)
            × (closed.returned_at ≡ some later))
  checkout-return s unforced named a =
      let fresh : count_where (has_id db.next_loan_id) db.loans ≡ 0 =
        s.fresh_ids db.next_loan_id (omega arith) in
      let made = ap (λ p. p.1) (checkout_ok now ready_days d db item row unforced named a) in
      let unique : (k : ℕ) → count_where (has_hold_id k) mid.holds ≤ 1 = λ k.
        rw
          (count_where-update (has_hold_id k) (active_for d.user_id item) (set_status fulfilled)
            db.holds (λ h. refl))
          (s.unique_holds k) in
      let (r, hs, told, state, good, bad) =
        return_outcome later ready_days mid db.next_loan_id lent unique
          (select_first_end (has_id db.next_loan_id) db.loans lent fresh (ground arith)) refl in
      let back = delete_where_end (has_id db.next_loan_id) db.loans lent fresh (ground arith) in
      rw (made, state)
        (
          back,
          rw back (count_where_eq_zero (open_for_item item) db.loans a.at_home),
          (archive_of later lent (user_row d.user_id mid), refl, refl, refl, refl, refl),
        )
