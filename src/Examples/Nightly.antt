-- ===== src/Examples/Nightly.antt =====
-- The theorems on the scheduled jobs at work.
use elidune_server.Prelude.{
  ℕ, ◌+◌, ◌*◌, ◌≤◌, ◌<◌, ◌≡◌, refl, arith, String, Bool, true, false, Option, none, some, List, [],
  ◌∷◌,
}
use elidune_server.Prelude.Int.{pos}
use elidune_server.Prelude.Table.{length, All}
use elidune_server.Error.{Result, ok}
use elidune_server.Rights.{DateTime}
use elidune_server.Outbox.{Mail}
use elidune_server.Reminders.{
  LoanSource, EmailTemplate, ReminderReport, is_eligible, loans_get_overdue_for_reminders,
}
use elidune_server.Reminders.Batch.{
  enqueue_overdue_reminder, remind, remind_all, run_batch, send_overdue_reminders,
}
use elidune_server.Reminders.Report.{send_overdue_reminders_lem}
use elidune_server.Scheduler.{second, target_seconds, duration_until_next_send}
use elidune_server.Scheduler.Next.{next_run, duration_until_next_send_lem}

duration_until_next_send_example :
    (1 ≤ duration_until_next_send (28800 * second) "07:30")
    × (duration_until_next_send (28800 * second) "07:30" ≤ 86400)
    × (next_run (28800 * second) (target_seconds "07:30")
        < 28800 * second + duration_until_next_send (28800 * second) "07:30" * second + second)
    × (28800 * second + duration_until_next_send (28800 * second) "07:30" * second
        < next_run (28800 * second) (target_seconds "07:30") + second)
    × (target_seconds "07:30" ≡ 3600 * 7 + 60 * 30)
duration_until_next_send_example =
    let (least, most, early, late, times) =
      duration_until_next_send_lem (28800 * second) "07:30" (omega arith) in
    (least, most, early, late, times.0 (omega arith) (omega arith))

abbrev late_loan : ℕ → ℕ → Option String → LoanSource
late_loan id user address = record {
  row = record {
    loan_id = id;
    user_id = user;
    loan_date = pos 0;
    expiry_at = some (pos 100);
    last_reminder_sent_at = none;
    reminder_count = 0;
    firstname = some "Ann";
    lastname = none;
    user_email = address;
    user_language = none;
    biblio_id = 5;
    title = some "Emma";
    authors = none;
    item_barcode = none;
  };
  returned_at = none;
  receive_reminders = true;
}

abbrev late_loans : List LoanSource
late_loans =
    late_loan 1 7 (some "ann@example.org")
    ∷ late_loan 2 8 none
    ∷ late_loan 3 7 (some "ann@example.org")
    ∷ []

abbrev no_mail : Mail
no_mail = record {
  email_outbox = [];
  reminder_loans = [];
  event_announcements = [];
  loans = [];
  events = [];
}

abbrev template : Option String → Result EmailTemplate
template language =
    ok record { subject = "Late"; body_plain = "{{firstname}}: {{loans_list}}"; body_html = none }

abbrev plain_body : String → String → String
plain_body plain html = plain

abbrev new_year : DateTime → String
new_year d = "01/01/2026"

abbrev id_after : ℕ → ℕ
id_after k = k + 50

abbrev reminders : Bool → ReminderReport × Mail
reminders dry_run =
    send_overdue_reminders (pos 1000) plain_body template new_year dry_run id_after 7 late_loans
      no_mail

send_overdue_reminders_lem_example :
    (length (reminders false).1.email_outbox ≡ 0 + (reminders false).0.emails_sent)
    × (length (reminders false).1.reminder_loans ≡ 0 + (reminders false).0.loans_reminded)
    × All
        (λ loan.
          (s : LoanSource)
          → s.row.loan_id ≡ loan
          → is_eligible (pos 1000) 7 (reminders false).1 s ≡ false)
        (run_batch
          (pos 1000)
          plain_body
          template
          new_year
          false
          id_after
          7
          late_loans
          no_mail).queued_loan_ids
    × ((reminders true).1 ≡ no_mail)
send_overdue_reminders_lem_example =
    send_overdue_reminders_lem (pos 1000) plain_body template new_year id_after 7 late_loans no_mail

one_mail_two_loans :
    ((reminders false).0.emails_sent ≡ 1) × ((reminders false).0.loans_reminded ≡ 2)
unfolding send_overdue_reminders run_batch remind_all remind enqueue_overdue_reminder
    loans_get_overdue_for_reminders is_eligible
one_mail_two_loans = (refl, refl)
