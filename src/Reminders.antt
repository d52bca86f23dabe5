-- ===== src/Reminders.antt =====
-- Reminders of overdue loans (src/services/reminders.rs), with the selection of
-- src/repository/loans/reminders.rs and `enqueue_overdue_reminder` of src/email.rs, on the tables of
-- the outbox. Audit entries are left out. Arguments are the clock, the k-th id of the generator, the
-- template that is loaded, the format of a date and the JSON of a body; the groups of the map by
-- user are taken in the order of their first rows.
pub mod Batch
pub mod Queued
pub mod Report
use elidune_server.Prelude.{
  ℕ, zero, suc, ◌+◌, ◌*◌, String, str_eq, Bool, true, false, ◌==◌, ◌&&◌, not, if◌then◌else◌, Option,
  none, some, List, [], ◌∷◌, ◌++◌, map,
}
use elidune_server.Prelude.Int.{ℤ, pos, ◌-ℤ◌, ltb_ℤ}
use elidune_server.Prelude.Table.{length, exists_where, select_where}
use elidune_server.Error.{Result, ok, err, AppError, database, unique_violation}
use elidune_server.Rights.{DateTime}
use elidune_server.Outbox.{Mail, OutboxRow, pending, is_pending}
use elidune_server.Stats.Text.{codes, replace_from, ◌<>◌}

pub record OverdueLoanRow : Type 0 where
  pub loan_id : ℕ
  pub user_id : ℕ
  pub loan_date : DateTime
  pub expiry_at : Option DateTime
  pub last_reminder_sent_at : Option DateTime
  pub reminder_count : ℕ
  pub firstname : Option String
  pub lastname : Option String
  pub user_email : Option String
  pub user_language : Option String
  pub biblio_id : ℕ
  pub title : Option String
  pub authors : Option String
  pub item_barcode : Option String

-- A row of the join, with the columns that only the WHERE clause reads.
pub record LoanSource : Type 0 where
  pub row : OverdueLoanRow
  pub returned_at : Option DateTime
  pub receive_reminders : Bool

pub record EmailTemplate : Type 0 where
  pub subject : String
  pub body_plain : String
  pub body_html : Option String

pub record ReminderDetail : Type 0 where
  pub user_id : ℕ
  pub email : String
  pub firstname : Option String
  pub lastname : Option String
  pub loan_count : ℕ

-- The text of an error: `Template load error: {}`, or the error's own.
pub data ErrorMessage : Type 0 where
  template_load_error own_text : AppError → ErrorMessage

pub record ReminderError : Type 0 where
  pub user_id : ℕ
  pub email : String
  pub error_message : ErrorMessage

pub record ReminderReport : Type 0 where
  pub dry_run : Bool
  pub emails_sent : ℕ
  pub loans_reminded : ℕ
  pub details : List ReminderDetail
  pub errors : List ReminderError

abbrev unwrap_or {ℓ} : {A : Type ℓ} → A → Option A → A
unwrap_or a none = a
unwrap_or a (some b) = b

abbrev is_none {ℓ} : {A : Type ℓ} → Option A → Bool
is_none none = true
is_none (some a) = false

abbrev before : Option DateTime → DateTime → Bool
before none t = false
before (some s) t = ltb_ℤ s t

abbrev has_address : Option String → Bool
has_address none = false
has_address (some e) = not (str_eq e "")

-- A pending outbox row reserves the loan.
abbrev pub is_reserved : ℕ → Mail → Bool
is_reserved loan m =
    exists_where
      (λ l. (l.1 == loan) && exists_where (λ r. (r.id == l.0) && is_pending r) m.email_outbox)
      m.reminder_loans

-- The WHERE clause of `loans_get_overdue_for_reminders`; a day has 86400 seconds.
unfoldable pub is_eligible : DateTime → ℕ → Mail → LoanSource → Bool
is_eligible now frequency_days m s =
    is_none s.returned_at
    && before s.row.expiry_at now
    && (if is_none s.row.last_reminder_sent_at
        then true
        else before s.row.last_reminder_sent_at (now -ℤ pos (86400 * frequency_days)))
    && has_address s.row.user_email
    && s.receive_reminders
    && not (is_reserved s.row.loan_id m)

unfoldable pub loans_get_overdue_for_reminders :
    DateTime → ℕ → Mail → List LoanSource → List OverdueLoanRow
loans_get_overdue_for_reminders now frequency_days m sources =
    map (λ s. s.row) (select_where (is_eligible now frequency_days m) sources)

-- A user's rows, which are one or more.
pub record Group : Type 0 where
  pub first : OverdueLoanRow
  pub rest : List OverdueLoanRow

abbrev pub loans_of : Group → List OverdueLoanRow
loans_of g = g.first ∷ g.rest

abbrev pub loan_ids : Group → List ℕ
loan_ids g = map (λ l. l.loan_id) (loans_of g)

-- `by_user.entry(row.user_id).or_default().push(row)`
abbrev push_row : OverdueLoanRow → List Group → List Group
push_row row [] = record { first = row; rest = [] } ∷ []
push_row row (g ∷ gs) =
    let rest = push_row row gs in
    if g.first.user_id == row.user_id then record g { rest = g.rest ++ row ∷ [] } ∷ gs else g ∷ rest

abbrev group_from : List Group → List OverdueLoanRow → List Group
group_from gs [] = gs
group_from gs (row ∷ rows) = group_from (push_row row gs) rows

abbrev pub by_user : List OverdueLoanRow → List Group
by_user rows = group_from [] rows

abbrev concat : List String → String
concat [] = ""
concat (s ∷ ss) = s <> concat ss

abbrev join : String → List String → String
join separator [] = ""
join separator (s ∷ []) = s
join separator (s ∷ t ∷ ts) = s <> (separator <> join separator (t ∷ ts))

module _ (format_date : DateTime → String) where
  abbrev due_date : OverdueLoanRow → String
  due_date l = elim l.expiry_at [ none ↦ "N/A" | some d ↦ format_date d ]

  abbrev pub list_line : OverdueLoanRow → String
  list_line l = concat (
      "- "
      ∷ unwrap_or "(unknown title)" l.title
      ∷ " ("
      ∷ unwrap_or "" l.authors
      ∷ ") — borrowed: "
      ∷ format_date l.loan_date
      ∷ ", due: "
      ∷ due_date l
      ∷ [])

  abbrev pub table_row : OverdueLoanRow → String
  table_row l = concat (
      "<tr><td style=\"padding:4px 8px;border:1px solid #ccc\">"
      ∷ unwrap_or "(unknown title)" l.title
      ∷ "</td><td style=\"padding:4px 8px;border:1px solid #ccc\">"
      ∷ unwrap_or "" l.authors
      ∷ "</td><td style=\"padding:4px 8px;border:1px solid #ccc\">"
      ∷ format_date l.loan_date
      ∷ "</td><td style=\"padding:4px 8px;border:1px solid #ccc;color:#c00\"><strong>"
      ∷ due_date l
      ∷ "</strong></td></tr>"
      ∷ [])

  abbrev pub table_html : Group → String
  table_html g = concat (
      "<table style=\"border-collapse:collapse;width:100%\"><thead><tr><th style=\"padding:4px 8px;border:1px solid #ccc;background:#f5f5f5\">Title</th><th style=\"padding:4px 8px;border:1px solid #ccc;background:#f5f5f5\">Author(s)</th><th style=\"padding:4px 8px;border:1px solid #ccc;background:#f5f5f5\">Borrowed</th><th style=\"padding:4px 8px;border:1px solid #ccc;background:#f5f5f5\">Due date</th></tr></thead><tbody>"
      ∷ join "\n" (map table_row (loans_of g))
      ∷ "</tbody></table>"
      ∷ [])

  abbrev pub vars : Group → List (String × String)
  vars g =
      ("firstname", unwrap_or "" g.first.firstname)
      ∷ ("lastname", unwrap_or "" g.first.lastname)
      ∷ ("loans_list", join "\n" (map list_line (loans_of g)))
      ∷ ("loans_table_html", table_html g)
      ∷ []
