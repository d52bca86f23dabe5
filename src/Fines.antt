-- ===== src/Fines.antt =====
-- Fines (src/services/fines.rs, src/repository/fines.rs, src/models/fine.rs): accrual, payment,
-- waiver and the unpaid total.
-- The upsert of a rule is left out: its effect rests on a constraint of a table without a migration.
-- Amounts are integers in the smallest unit of the currency; a `Decimal` times a whole number of
-- days and sums of `Decimal`s keep their scale. The migrations have no table `fines`, so what the
-- schema gives a new row where the statement does not say (`paid_amount`, `status`) is an argument.
pub mod Accrual
pub mod Payment
use elidune_server.Prelude.{
  ℕ, String, str_eq, Bool, true, false, ◌&&◌, ◌||◌, Option, none, some, List, [], ◌∷◌, ◌++◌, ◌==◌,
  if◌then◌else◌, is_none, or_else,
}
use elidune_server.Prelude.Int.{ℤ, pos, ◌+ℤ◌, ◌-ℤ◌, ◌*ℤ◌, leb_ℤ, ltb_ℤ, min_ℤ, max_ℤ}
use elidune_server.Prelude.Table.{select_first, update_where}
use elidune_server.Error.{
  Result, ok, err, literal, fine_not_found, not_found, internal, business_rule, validation, ok_or,
}
use elidune_server.Rights.{DateTime}

pub data FineStatus : Type 0 where
  pending partial paid waived : FineStatus

pub fine_status_as_str : FineStatus → String
fine_status_as_str pending = "pending"
fine_status_as_str partial = "partial"
fine_status_as_str paid = "paid"
fine_status_as_str waived = "waived"

pub fine_status_from_string : String → FineStatus
fine_status_from_string s =
    if str_eq s "partial"
    then partial
    else if str_eq s "paid"
    then paid
    else if str_eq s "waived"
    then waived
    else pending

pub record Fine : Type 0 where
  pub id : ℕ
  pub loan_id : ℕ
  pub user_id : ℕ
  pub amount : ℤ
  pub paid_amount : ℤ
  pub created_at : DateTime
  pub paid_at : Option DateTime
  pub status : FineStatus
  pub notes : Option String

pub record FineRule : Type 0 where
  pub media_type : Option String
  pub daily_rate : ℤ
  pub max_amount : Option ℤ
  pub grace_days : ℤ

-- `r.media_type.as_deref() == media_type`
abbrev pub same_media : Option String → FineRule → Bool
same_media none r = is_none r.media_type
same_media (some mt) r = elim r.media_type [ none ↦ false | some m ↦ str_eq m mt ]

abbrev pub is_default : FineRule → Bool
is_default r = is_none r.media_type

abbrev pub rule_for : Option String → List FineRule → Option FineRule
rule_for media_type rules =
    or_else (select_first (same_media media_type) rules) (select_first is_default rules)

abbrev pub effective_days : FineRule → ℤ → ℤ
effective_days rule overdue_days = max_ℤ (overdue_days -ℤ rule.grace_days) (pos 0)

abbrev pub cap : Option ℤ → ℤ → ℤ
cap none amount = amount
cap (some most) amount = min_ℤ amount most

unfoldable pub fine_amount : FineRule → ℤ → ℤ
fine_amount rule overdue_days =
    cap rule.max_amount (rule.daily_rate *ℤ effective_days rule overdue_days)

-- The table's defaults for a new row.
pub record FineDefaults : Type 0 where
  pub paid_amount : ℤ
  pub status : FineStatus

abbrev pub new_fine : FineDefaults → ℕ → DateTime → ℕ → ℕ → ℤ → Option String → Fine
new_fine defaults id now loan_id user_id amount notes = record {
  id = id;
  loan_id = loan_id;
  user_id = user_id;
  amount = amount;
  paid_amount = defaults.paid_amount;
  created_at = now;
  paid_at = none;
  status = defaults.status;
  notes = notes;
}

-- A call on the table.
abbrev pub FineAction : Type 0 → Type 0
FineAction A = List Fine → Result A × List Fine

abbrev pub fines_create : FineDefaults → ℕ → DateTime → ℕ → ℕ → ℤ → Option String → FineAction Fine
fines_create defaults id now loan_id user_id amount notes fines =
    let row = new_fine defaults id now loan_id user_id amount notes in (ok row, fines ++ row ∷ [])

abbrev accrue_by : FineDefaults → ℕ → DateTime → ℕ → ℕ → ℤ → Option FineRule → FineAction Fine
accrue_by defaults id now loan_id user_id overdue_days none fines =
    (err (internal (literal "No fine rule configured")), fines)
accrue_by defaults id now loan_id user_id overdue_days (some rule) fines =
    let amount = fine_amount rule overdue_days in
    if leb_ℤ amount (pos 0)
    then (err (business_rule (literal "Fine amount is zero — within grace period")), fines)
    else fines_create defaults id now loan_id user_id amount none fines

unfoldable pub accrue :
    FineDefaults → ℕ → DateTime → List FineRule → ℕ → ℕ → Option String → ℤ → FineAction Fine
accrue defaults id now rules loan_id user_id media_type overdue_days fines =
    accrue_by defaults id now loan_id user_id overdue_days (rule_for media_type rules) fines

abbrev pub fine_has_id : ℕ → Fine → Bool
fine_has_id i f = f.id == i

-- The columns that a payment sets; all of them are computed from the row as it was.
abbrev pub paid_by : DateTime → ℤ → Option String → Fine → Fine
paid_by now payment notes f =
    let covered = leb_ℤ f.amount (f.paid_amount +ℤ payment) in
    record f {
      paid_amount = f.paid_amount +ℤ payment;
      notes = or_else notes f.notes;
      paid_at = if covered then some now else none;
      status = if covered then paid else partial;
    }

abbrev pub waived_by : DateTime → Option String → Fine → Fine
waived_by now notes f = record f {
  status = waived;
  paid_at = some now;
  notes = or_else notes f.notes;
}

abbrev update_fine : ℕ → (Fine → Fine) → FineAction Fine
update_fine id f fines = (
  ok_or (not_found (fine_not_found id))
      (elim (select_first (fine_has_id id) fines) [ none ↦ none | some row ↦ some (f row) ]),
  update_where (fine_has_id id) f fines,
)

abbrev pub fines_pay : DateTime → ℕ → ℤ → Option String → FineAction Fine
fines_pay now id payment notes = update_fine id (paid_by now payment notes)

unfoldable pub pay : DateTime → ℕ → ℤ → Option String → FineAction Fine
pay now id amount notes fines =
    if leb_ℤ amount (pos 0)
    then (err (validation (literal "Payment amount must be positive")), fines)
    else fines_pay now id amount notes fines

-- `waive` of the service and `fines_waive` of the repository.
unfoldable pub waive : DateTime → ℕ → Option String → FineAction Fine
waive now id notes = update_fine id (waived_by now notes)

-- `status IN ('pending','partial')`
abbrev pub is_unpaid : FineStatus → Bool
is_unpaid pending = true
is_unpaid partial = true
is_unpaid paid = false
is_unpaid waived = false

-- What a fine counts for in a patron's total.
abbrev pub owed : ℕ → Fine → ℤ
owed user f = if (f.user_id == user) && is_unpaid f.status then f.amount -ℤ f.paid_amount else pos 0

-- `SUM(amount - paid_amount)` over the patron's unpaid fines, zero over none.
unfoldable pub total_unpaid : ℕ → List Fine → ℤ
total_unpaid user [] = pos 0
total_unpaid user (f ∷ fs) = owed user f +ℤ total_unpaid user fs
