-- ===== src/Outbox.antt =====
-- The e-mail outbox (src/services/email_outbox.rs, src/repository/email_outbox.rs): one drain of the
-- table, with the reminders and event announcements that a delivery confirms.
-- The mail server and the JSON reader are not part of the program: `parse` and `send` are arguments.
-- Every statement is answered, so the batch returns its report. Audit entries are left out.
pub mod Delivery
pub mod Report
pub mod Reminders
use elidune_server.Prelude.{
  ℕ, zero, suc, ◌+◌, ◌≤◌, String, Bool, true, false, ◌&&◌, Option, none, some, List, [], ◌∷◌, ◌==◌,
  leb, if◌then◌else◌, map, unwrap_or,
}
use elidune_server.Prelude.Int.{ℤ, pos, leb_ℤ, negsuc}
use elidune_server.Prelude.Table.{
  select_first, select_where, count_where, exists_where, update_where, delete_where,
}
use elidune_server.Rights.{DateTime}

pub data OutboxStatus : Type 0 where
  pending sent failed : OutboxStatus

pub record OutboxRow : Type 0 where
  pub id : ℕ
  pub to_addr : String
  pub subject : String
  pub body : String
  pub status : OutboxStatus
  pub attempts : ℕ
  pub created_at : DateTime
  pub sent_at : Option DateTime

pub record OutboxBody : Type 0 where
  pub plain : String
  pub html : String

-- `MAX_ATTEMPTS` and `DEFAULT_BATCH_SIZE`
abbrev pub max_attempts : ℕ
max_attempts = 5

abbrev pub default_batch_size : ℤ
default_batch_size = pos 20

pub record EmailOutboxBatchReport : Type 0 where
  pub processed : ℕ
  pub sent : ℕ
  pub failed : ℕ
  pub deferred : ℕ
  pub reminders_confirmed : ℕ

-- The reminder columns of a loan.
pub record LoanReminder : Type 0 where
  pub id : ℕ
  pub last_reminder_sent_at : Option DateTime
  pub reminder_count : ℕ

pub record Announced : Type 0 where
  pub id : ℕ
  pub announcement_sent_at : Option DateTime

-- `email_outbox`, its two reservation tables (outbox id, loan or event id), and the columns of
-- `loans` and `events` that a delivery writes.
pub record Mail : Type 0 where
  pub email_outbox : List OutboxRow
  pub reminder_loans : List (ℕ × ℕ)
  pub event_announcements : List (ℕ × ℕ)
  pub loans : List LoanReminder
  pub events : List Announced

abbrev pub is_pending : OutboxRow → Bool
is_pending r = elim r.status [ pending ↦ true | sent ↦ false | failed ↦ false ]

abbrev pub row_id : ℕ → OutboxRow → Bool
row_id i r = r.id == i

abbrev pub reserved_by : ℕ → ℕ × ℕ → Bool
reserved_by i r = r.0 == i

-- The order of the ids does not matter to the statements that take them.
abbrev pub reminder_loan_ids : ℕ → Mail → List ℕ
reminder_loan_ids i m = map (λ r. r.1) (select_where (reserved_by i) m.reminder_loans)

abbrev pub release_reminder_loans : ℕ → Mail → Mail
release_reminder_loans i m = record m {
  reminder_loans = delete_where (reserved_by i) m.reminder_loans;
}

abbrev pub release_event_announcement : ℕ → Mail → Mail
release_event_announcement i m = record m {
  event_announcements = delete_where (reserved_by i) m.event_announcements;
}

abbrev reminded : DateTime → LoanReminder → LoanReminder
reminded now l = record l {
  last_reminder_sent_at = some now;
  reminder_count = l.reminder_count + 1;
}

abbrev pub update_reminder_sent : DateTime → List ℕ → Mail → Mail
update_reminder_sent now ids m = record m {
  loans = update_where (λ l. exists_where (λ i. i == l.id) ids) (reminded now) m.loans;
}

abbrev confirm_reminders : DateTime → ℕ → List ℕ → Mail → Bool × Mail
confirm_reminders now i [] m = (false, m)
confirm_reminders now i (l ∷ ls) m =
    (true, release_reminder_loans i (update_reminder_sent now (l ∷ ls) m))

-- Whether a reminder was confirmed, and the state after it.
unfoldable pub apply_reminder_delivery : DateTime → ℕ → Mail → Bool × Mail
apply_reminder_delivery now i m = confirm_reminders now i (reminder_loan_ids i m) m

abbrev pub event_id_for_outbox : ℕ → Mail → Option ℕ
event_id_for_outbox i m = elim (select_first (reserved_by i) m.event_announcements) [
  | none ↦ none
  | some r ↦ some r.1
]

-- Reservations of the event whose outbox row is pending.
abbrev pub pending_announcements : ℕ → Mail → ℕ
pending_announcements event m =
    count_where
      (λ a. (a.1 == event) && exists_where (λ r. (r.id == a.0) && is_pending r) m.email_outbox)
      m.event_announcements

abbrev pub set_announcement_sent : DateTime → ℕ → Mail → Mail
set_announcement_sent now event m = record m {
  events =
      update_where (λ e. e.id == event) (λ e. record e { announcement_sent_at = some now })
        m.events;
}

abbrev announce : DateTime → Option ℕ → Mail → Mail
announce now none m = m
announce now (some event) m =
    if pending_announcements event m == 0 then set_announcement_sent now event m else m

unfoldable pub apply_event_announcement_delivery : DateTime → ℕ → Mail → Mail
apply_event_announcement_delivery now i m = announce now (event_id_for_outbox i m) m

abbrev pub set_row : ℕ → (OutboxRow → OutboxRow) → Mail → Mail
set_row i f m = record m { email_outbox = update_where (row_id i) f m.email_outbox }

abbrev pub set_failed : ℕ → OutboxRow → OutboxRow
set_failed attempts r = record r { status = failed; attempts = attempts + 1 }

abbrev pub set_sent : DateTime → OutboxRow → OutboxRow
set_sent now r = record r { status = sent; sent_at = some now; attempts = r.attempts + 1 }

abbrev pub set_deferred : OutboxRow → OutboxRow
set_deferred r = record r { attempts = r.attempts + 1 }

-- Nothing is deleted if nothing is reserved, so the release needs no test.
unfoldable pub mark_failed : ℕ → ℕ → Mail → Mail
mark_failed i attempts m =
    release_event_announcement i (release_reminder_loans i (set_row i (set_failed attempts) m))

abbrev add_processed : EmailOutboxBatchReport → EmailOutboxBatchReport
add_processed p = record p { processed = p.processed + 1 }

abbrev add_sent : Bool → EmailOutboxBatchReport → EmailOutboxBatchReport
add_sent confirmed p = record p {
  sent = p.sent + 1;
  reminders_confirmed = if confirmed then p.reminders_confirmed + 1 else p.reminders_confirmed;
}

abbrev add_failed : EmailOutboxBatchReport → EmailOutboxBatchReport
add_failed p = record p { failed = p.failed + 1 }

abbrev add_deferred : EmailOutboxBatchReport → EmailOutboxBatchReport
add_deferred p = record p { deferred = p.deferred + 1 }

module _ (parse : String → Option OutboxBody) (send : OutboxRow → OutboxBody → Bool)
    (now : DateTime) where
  abbrev pub delivered : OutboxRow → EmailOutboxBatchReport × Mail → EmailOutboxBatchReport × Mail
  delivered row (p, m) =
      let (confirmed, after) =
        apply_reminder_delivery now row.id (set_row row.id (set_sent now) m) in
      (add_sent confirmed p, apply_event_announcement_delivery now row.id after)

  abbrev pub not_delivered :
      OutboxRow → EmailOutboxBatchReport × Mail → EmailOutboxBatchReport × Mail
  not_delivered row (p, m) =
      if leb max_attempts (row.attempts + 1)
      then (add_failed p, mark_failed row.id row.attempts m)
      else (add_deferred p, set_row row.id set_deferred m)

  abbrev with_body :
      Option OutboxBody → OutboxRow → EmailOutboxBatchReport × Mail → EmailOutboxBatchReport × Mail
  with_body none row (p, m) = (add_failed p, mark_failed row.id row.attempts m)
  with_body (some body) row s = if send row body then delivered row s else not_delivered row s

  -- One turn of the loop, on a row as the batch read it.
  unfoldable pub process_row :
      OutboxRow → EmailOutboxBatchReport × Mail → EmailOutboxBatchReport × Mail
  process_row row (p, m) = with_body (parse row.body) row (add_processed p, m)

  pub process_rows : List OutboxRow → EmailOutboxBatchReport × Mail → EmailOutboxBatchReport × Mail
  process_rows [] s = s
  process_rows (r ∷ rs) s = process_rows rs (process_row r s)

-- `ORDER BY created_at ASC`
abbrev pub insert_by_date : OutboxRow → List OutboxRow → List OutboxRow
insert_by_date r [] = r ∷ []
insert_by_date r (k ∷ ks) =
    if leb_ℤ r.created_at k.created_at then r ∷ k ∷ ks else k ∷ insert_by_date r ks

abbrev pub sort_by_date : List OutboxRow → List OutboxRow
sort_by_date [] = []
sort_by_date (r ∷ rs) = insert_by_date r (sort_by_date rs)

abbrev pub take : ℕ → List OutboxRow → List OutboxRow
take zero rs = []
take (suc n) [] = []
take (suc n) (r ∷ rs) = r ∷ take n rs

-- `clamp(1, 100)`
abbrev pub clamp_limit : ℤ → ℕ
clamp_limit (pos n) = if leb n 1 then 1 else if leb 100 n then 100 else n
clamp_limit (negsuc n) = 1

abbrev pub empty_report : EmailOutboxBatchReport
empty_report = record { processed = 0; sent = 0; failed = 0; deferred = 0; reminders_confirmed = 0 }

abbrev pub batch_rows : Option ℤ → Mail → List OutboxRow
batch_rows batch_size m =
    take (clamp_limit (unwrap_or default_batch_size batch_size))
      (sort_by_date (select_where is_pending m.email_outbox))

unfoldable pub process_outbox_batch :
    (String → Option OutboxBody)
    → (OutboxRow → OutboxBody → Bool)
    → DateTime
    → Option ℤ
    → Mail
    → EmailOutboxBatchReport × Mail
unfolding process_rows
process_outbox_batch parse send now batch_size m =
    process_rows parse send now (batch_rows batch_size m) (empty_report, m)
