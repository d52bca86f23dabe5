-- ===== src/Loans/Service.antt =====
-- The circulation service (src/services/loans.rs): what it adds to the rows' calls, that is the
-- checks of the patron, the events published and the audit entries. Events and entries are a part
-- of the answer; the e-mail that tells a patron of a ready hold is not modelled.
pub mod Patrons
pub mod History
use elidune_server.Prelude.{
  ℕ, String, Bool, true, false, ◌&&◌, Option, none, some, List, [], ◌∷◌, ◌++◌, if◌then◌else◌,
  unwrap_or,
}
use elidune_server.Prelude.Int.{ℤ, ltb_ℤ}
use elidune_server.Error.{
  Result, ok, err, literal, user_not_found, subscription_expired, not_found, business_rule, ok_or,
  fail_if,
}
use elidune_server.Rights.{DateTime, User, UserStatus, active, blocked, deleted, can_borrow}
use elidune_server.Db.{Db, Loan, Hold, Action, pure, reads, lift, ◌>>=◌, ◌>>◌}
use elidune_server.Loans.Rows.{user_row, loans_get_by_id, loans_get_by_item_identification}
use elidune_server.Loans.Return.{LoanDetails, LoanReturnOutcome, loans_return}
use elidune_server.Loans.Renew.{loans_renew}
use elidune_server.Loans.Checkout.{CreateLoan, LoanCreateOutcome, loans_create}

-- What a call tells the rest of the system: events of the bus and entries of the audit log.
pub data Notice : Type 0 where
  loan_created : ℕ → ℕ → ℕ → Notice
  hold_fulfilled : ℕ → ℕ → ℕ → Option ℕ → Notice
  loan_returned : ℕ → ℕ → ℕ → Notice
  hold_ready : ℕ → ℕ → ℕ → Notice
  hold_ready_audit : ℕ → ℕ → ℕ → Option DateTime → Notice

abbrev pub users_get_by_id : ℕ → Action User
users_get_by_id id = reads (λ db. ok_or (not_found (user_not_found id)) (user_row id db))

abbrev pub is_deleted : UserStatus → Bool
is_deleted active = false
is_deleted blocked = false
is_deleted deleted = true

abbrev pub is_expired : DateTime → User → Bool
is_expired now user = elim user.expiry_at [ none ↦ false | some t ↦ ltb_ℤ t now ]

abbrev pub patron_checks : DateTime → Bool → User → Result Unit
patron_checks now force user =
    if is_deleted (unwrap_or active user.status)
    then err (business_rule (literal "Cannot create a loan for a deleted user account"))
    else if (if can_borrow user then false else true) && (if force then false else true)
    then err (
        business_rule
          (literal "User account is not active or cannot borrow — use force=true to override"))
    else if is_expired now user && (if force then false else true)
    then err (business_rule (subscription_expired (unwrap_or now user.expiry_at)))
    else ok tt

-- The event names the copy, so a checkout by barcode publishes none.
abbrev pub created_notices : CreateLoan → LoanCreateOutcome → List Notice
created_notices d o =
    (elim d.item_id [ none ↦ [] | some item ↦ loan_created o.loan_id d.user_id item ∷ [] ])
    ++ (elim o.fulfilled_hold_id [
      | none ↦ []
      | some hold ↦ hold_fulfilled hold o.loan_id d.user_id d.item_id ∷ []
    ])

unfoldable pub create_loan : DateTime → ℤ → CreateLoan → Action (LoanCreateOutcome × List Notice)
create_loan now ready_days d = do
  user ← users_get_by_id d.user_id
  lift (patron_checks now d.force user)
  outcome ← loans_create now ready_days d
  pure (outcome, created_notices d outcome)

abbrev ready_notices : Option Hold → List Notice
ready_notices none = []
ready_notices (some h) =
    hold_ready h.id h.user_id h.item_id
    ∷ hold_ready_audit h.id h.user_id h.item_id h.expires_at
    ∷ []

abbrev return_notices : LoanReturnOutcome → List Notice
return_notices o =
    loan_returned (o.details).id (unwrap_or 0 (o.details).user) (o.details).item_id
    ∷ ready_notices o.readied_hold

unfoldable pub return_loan : DateTime → ℤ → ℕ → Action (LoanDetails × List Notice)
return_loan now ready_days loan_id = do
  outcome ← loans_return now ready_days loan_id
  pure (outcome.details, return_notices outcome)

unfoldable pub return_loan_by_item : DateTime → ℤ → String → Action (LoanDetails × List Notice)
return_loan_by_item now ready_days item_identification = do
  loan ← loans_get_by_item_identification item_identification
  outcome ← loans_return now ready_days loan.id
  pure (outcome.details, return_notices outcome)

abbrev pub renewal_check : User → Result Unit
renewal_check user = fail_if (if can_borrow user then false else true) (
    business_rule
      (literal "User account is not active or cannot borrow — use force=true to override"))

unfoldable pub renew_loan : DateTime → ℕ → Action (DateTime × ℤ)
renew_loan now loan_id = do
  loan ← loans_get_by_id loan_id
  user ← users_get_by_id loan.user_id
  lift (renewal_check user)
  loans_renew now loan_id

-- Here the patron's status is not looked at.
unfoldable pub renew_loan_by_item : DateTime → String → Action (ℕ × DateTime × ℤ)
renew_loan_by_item now item_identification = do
  loan ← loans_get_by_item_identification item_identification
  renewed ← loans_renew now loan.id
  pure (loan.id, renewed.0, renewed.1)
