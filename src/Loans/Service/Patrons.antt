-- ===== src/Loans/Service/Patrons.antt =====
-- Who may borrow and renew.
use elidune_server.Prelude.{
  ◌≡◌, ◌≢◌, refl, ◌⊎◌, inl, inr, String, Bool, true, false, Option, none, some, arith, unwrap_or,
}
use elidune_server.Prelude.Int.{ℤ}
use elidune_server.Prelude.Table.{select_first}
use elidune_server.Error.{
  ok, err, literal, user_not_found, not_found, business_rule, AppError, unit_cases,
}
use elidune_server.Rights.{
  DateTime, User, UserStatus, active, blocked, deleted, can_borrow, AccountTypeSlug, guest, reader,
  librarian, admin, group, is_guest, is_active,
}
use elidune_server.Db.{Db, Loan}
use elidune_server.Loans.Rows.{user_row, has_id, loans_get_by_item_identification}
use elidune_server.Loans.Renew.{loans_renew}
use elidune_server.Loans.Checkout.{CreateLoan, LoanCreateOutcome, loans_create}
use elidune_server.Loans.Service.{
  is_deleted, is_expired, patron_checks, created_notices, create_loan, renew_loan,
  renew_loan_by_item,
}

guest_cases : (t : AccountTypeSlug) → (t ≡ guest) ⊎ (is_guest t ≡ false)
guest_cases guest = inl refl
guest_cases reader = inr refl
guest_cases librarian = inr refl
guest_cases admin = inr refl
guest_cases group = inr refl

-- Only an account that is marked active, is not archived and is not a guest's may borrow: an
-- account without a status may not.
pub can_borrow_lem :
    (u : User)
    → (can_borrow u ≡ true
        → (u.status ≡ some active) × (u.archived_at ≡ none) × (u.account_type ≢ guest))
      × ((u.status ≡ some active) × (u.archived_at ≡ none) × (u.account_type ≢ guest)
          → can_borrow u ≡ true)
unfolding can_borrow is_active
can_borrow_lem u = (
  λ e. (ground arith, ground arith, λ g. ground (arith, g)),
  λ (s, a, g). elim (guest_cases u.account_type) [
    | inl is ↦ absurd (g is)
    | inr isnt ↦ rw (s, a, isnt) refl
  ],
)

blocked_refused :
    (now : DateTime) (user : User)
    → can_borrow user ≡ false
    → (e : AppError) × (patron_checks now false user ≡ err e)
blocked_refused now user c = elim (unit_cases (patron_checks now false user)) [
  | inl passed ↦ absurd (ground (arith, passed))
  | inr refused ↦ refused
]

expired_refused :
    (now : DateTime) (user : User)
    → is_expired now user ≡ true
    → (e : AppError) × (patron_checks now false user ≡ err e)
expired_refused now user x = elim (unit_cases (patron_checks now false user)) [
  | inl passed ↦ absurd (ground (arith, passed))
  | inr refused ↦ refused
]

not_deleted : (s : Option UserStatus) → s ≢ some deleted → is_deleted (unwrap_or active s) ≡ false
not_deleted none n = refl
not_deleted (some active) n = refl
not_deleted (some blocked) n = refl
not_deleted (some deleted) n = absurd (n refl)

passes :
    (now : DateTime) (force : Bool) (user : User)
    → user.status ≢ some deleted
    → (force ≡ true) ⊎ ((can_borrow user ≡ true) × (is_expired now user ≡ false))
    → patron_checks now force user ≡ ok tt
passes now force user n (inl f) = ground (arith, not_deleted user.status n)
passes now force user n (inr (c, x)) = ground (arith, not_deleted user.status n)

module _ (now : DateTime) (ready_days : ℤ) (d : CreateLoan) (db : Db) where
  -- A checkout that the patron's account forbids is an error and leaves the database alone: there
  -- is no such patron; the account is deleted, also with `force`; it may not borrow or has expired
  -- and nothing forces the checkout.
  pub create_refused :
      (user_row d.user_id db ≡ none
        → create_loan now ready_days d db ≡ (err (not_found (user_not_found d.user_id)), db))
      × ((user : User)
          → user_row d.user_id db ≡ some user
          → (user.status ≡ some deleted
              → create_loan now ready_days d db ≡ (
                err (business_rule (literal "Cannot create a loan for a deleted user account")),
                db,
              ))
            × (d.force ≡ false
                → can_borrow user ≡ false
                → (e : AppError) × (create_loan now ready_days d db ≡ (err e, db)))
            × (d.force ≡ false
                → is_expired now user ≡ true
                → (e : AppError) × (create_loan now ready_days d db ≡ (err e, db))))
  unfolding create_loan
  create_refused = (
    λ e. rw e refl,
    λ user e. (
      λ gone. rw (e, gone) refl,
      λ f c. let (bad, why) = blocked_refused now user c in (bad, rw (e, f, why) refl),
      λ f x. let (bad, why) = expired_refused now user x in (bad, rw (e, f, why) refl),
    ),
  )

  -- A patron whom the account allows gets what the checkout of the copy gives, and the notices
  -- that go with it. With `force` every account that is not deleted is such a patron.
  pub create_lem :
      (user : User)
      → user_row d.user_id db ≡ some user
      → user.status ≢ some deleted
      → (d.force ≡ true) ⊎ ((can_borrow user ≡ true) × (is_expired now user ≡ false))
      → ((create_loan now ready_days d db).1 ≡ (loans_create now ready_days d db).1)
        × ((o : LoanCreateOutcome)
            → (loans_create now ready_days d db).0 ≡ ok o
            → (create_loan now ready_days d db).0 ≡ ok (o, created_notices d o))
        × ((e : AppError)
            → (loans_create now ready_days d db).0 ≡ err e
            → (create_loan now ready_days d db).0 ≡ err e)
  unfolding create_loan
  create_lem user e stays may =
      let pass = passes now d.force user stays may in
      (rw (e, pass) (ground arith), λ o h. rw (e, pass, h) refl, λ x h. rw (e, pass, h) refl)

module _ (now : DateTime) (db : Db) where
  -- For a loan that both lookups find: by the loan's id a patron who may not borrow is refused
  -- and nothing changes, and one who may gets the renewal; by the copy's barcode the renewal is
  -- done whoever the patron is.
  pub renew_desk :
      (barcode : String) (loan : Loan) (user : User)
      → loans_get_by_item_identification barcode db ≡ (ok loan, db)
      → select_first (has_id loan.id) db.loans ≡ some loan
      → user_row loan.user_id db ≡ some user
      → (can_borrow user ≡ false → (e : AppError) × (renew_loan now loan.id db ≡ (err e, db)))
        × (can_borrow user ≡ true → renew_loan now loan.id db ≡ loans_renew now loan.id db)
        × ((renew_loan_by_item now barcode db).1 ≡ (loans_renew now loan.id db).1)
        × ((until : DateTime) (n : ℤ)
            → (loans_renew now loan.id db).0 ≡ ok (until, n)
            → (renew_loan_by_item now barcode db).0 ≡ ok (loan.id, until, n))
  unfolding renew_loan renew_loan_by_item
  renew_desk barcode loan user scanned found holder = (
    λ c. (
      business_rule
          (literal "User account is not active or cannot borrow — use force=true to override"),
      rw (found, holder, c) refl,
    ),
    λ c. rw (found, holder, c) refl,
    rw scanned (ground arith),
    λ until n e. rw (scanned, e) refl,
  )
