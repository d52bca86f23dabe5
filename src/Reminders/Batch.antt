-- ===== src/Reminders/Batch.antt =====
-- `send_overdue_reminders` (src/services/reminders.rs), `enqueue_overdue_reminder` (src/email.rs) and
-- `substitute` (src/email_templates.rs).
use elidune_server.Prelude.{
  ℕ, zero, suc, ◌-◌, String, str_eq, Bool, ◌==◌, ◌||◌, if◌then◌else◌, Option, none, some, List, [],
  ◌∷◌, ◌++◌, map,
}
use elidune_server.Prelude.Table.{length, exists_where}
use elidune_server.Error.{Result, ok, err, database, unique_violation}
use elidune_server.Rights.{DateTime}
use elidune_server.Outbox.{Mail, OutboxRow, pending, row_id}
use elidune_server.Stats.Text.{codes, replace_from, replace_char, ◌<>◌}
use elidune_server.Reminders.{
  LoanSource, EmailTemplate, ReminderDetail, ReminderError, ErrorMessage, template_load_error,
  own_text, ReminderReport, Group, loans_of, loan_ids, by_user, vars,
  loans_get_overdue_for_reminders,
}

-- `str::replace(pattern, by)`
abbrev replace : String → String → String → String
replace pattern by s = let p = codes pattern in replace_from p (length p - 1) by zero s

abbrev pub substitute_str : String → List (String × String) → String
substitute_str s [] = s
substitute_str s ((k, v) ∷ vs) = substitute_str (replace ("{{" <> (k <> "}}")) v s) vs

abbrev html_of : Option String → String → List (String × String) → String
html_of (some h) plain vs = substitute_str h vs
html_of none plain vs =
    "<html><body><pre>" <> (replace_char b'\n' "<br>" plain <> "</pre></body></html>")

abbrev pub substitute : EmailTemplate → List (String × String) → String × String × String
substitute t vs =
    let plain = substitute_str t.body_plain vs in
    (substitute_str t.subject vs, plain, html_of t.body_html plain vs)

-- The two primary keys: of the outbox and, by loan, of the reservations.
abbrev pub is_refused : ℕ → List ℕ → Mail → Bool
is_refused id loans m =
    exists_where (row_id id) m.email_outbox
    || exists_where (λ loan. exists_where (λ l. l.1 == loan) m.reminder_loans) loans

-- The state of the loop over the users.
pub record Batch : Type 0 where
  pub details : List ReminderDetail
  pub errors : List ReminderError
  pub queued_loan_ids : List ℕ
  pub mail : Mail

abbrev pub detail_of : Group → String → ReminderDetail
detail_of g email = record {
  user_id = g.first.user_id;
  email = email;
  firstname = g.first.firstname;
  lastname = g.first.lastname;
  loan_count = length (loans_of g);
}

abbrev pub error_of : Group → String → ErrorMessage → ReminderError
error_of g email message = record {
  user_id = g.first.user_id;
  email = email;
  error_message = message;
}

abbrev pub add_error : Group → String → ErrorMessage → Batch → Batch
add_error g email error b = record b { errors = b.errors ++ error_of g email error ∷ [] }

abbrev pub add_detail : Group → String → Batch → Batch
add_detail g email b = record b { details = b.details ++ detail_of g email ∷ [] }

module _ (now : DateTime) (json_body : String → String → String)
    (load_template : Option String → Result EmailTemplate) (format_date : DateTime → String) where
  abbrev pub outbox_row : ℕ → String → String × String × String → OutboxRow
  outbox_row id to (subject, plain, html) = record {
    id = id;
    to_addr = to;
    subject = subject;
    body = json_body plain html;
    status = pending;
    attempts = 0;
    created_at = now;
    sent_at = none;
  }

  -- The transaction, which a primary key can refuse as a whole.
  unfoldable pub enqueue_overdue_reminder :
      ℕ → String → String × String × String → List ℕ → Mail → Result Mail
  enqueue_overdue_reminder id to texts loans m =
      if is_refused id loans m
      then err (database unique_violation)
      else ok record m {
        email_outbox = m.email_outbox ++ outbox_row id to texts ∷ [];
        reminder_loans = m.reminder_loans ++ map (λ loan. (id, loan)) loans;
      }

  abbrev pub enqueued : Group → String → Result Mail → Batch → Batch
  enqueued g email (err e) b = add_error g email (own_text e) b
  enqueued g email (ok m) b = record (add_detail g email b) {
    queued_loan_ids = b.queued_loan_ids ++ loan_ids g;
    mail = m;
  }

  abbrev pub with_template : ℕ → Group → String → Result EmailTemplate → Batch → Batch
  with_template id g email (err e) b = add_error g email (template_load_error e) b
  with_template id g email (ok t) b =
      enqueued g email
        (enqueue_overdue_reminder id email (substitute t (vars format_date g)) (loan_ids g) b.mail)
        b

  -- One turn of the loop; `id` is the next number of the generator.
  unfoldable pub remind : Bool → ℕ → Group → Option String → Batch → Batch
  remind dry_run id g none b = b
  remind dry_run id g (some email) b =
      if str_eq email ""
      then b
      else if dry_run
      then add_detail g email b
      else with_template id g email (load_template g.first.user_language) b

  unfoldable pub remind_all : Bool → (ℕ → ℕ) → ℕ → List Group → Batch → Batch
  remind_all dry_run ids k [] b = b
  remind_all dry_run ids k (g ∷ gs) b =
      remind_all dry_run ids (suc k) gs (remind dry_run (ids k) g g.first.user_email b)

  abbrev pub report_of : Bool → Batch → ReminderReport
  report_of dry_run b = record {
    dry_run = dry_run;
    emails_sent = length b.details;
    loans_reminded = length b.queued_loan_ids;
    details = b.details;
    errors = b.errors;
  }

  -- The loop; no row gives the report of an empty batch.
  unfoldable pub run_batch : Bool → (ℕ → ℕ) → ℕ → List LoanSource → Mail → Batch
  run_batch dry_run ids frequency_days sources m =
      remind_all dry_run ids 0
        (by_user (loans_get_overdue_for_reminders now frequency_days m sources))
        record { details = []; errors = []; queued_loan_ids = []; mail = m }

  unfoldable pub send_overdue_reminders :
      Bool → (ℕ → ℕ) → ℕ → List LoanSource → Mail → ReminderReport × Mail
  send_overdue_reminders dry_run ids frequency_days sources m =
      let b = run_batch dry_run ids frequency_days sources m in (report_of dry_run b, b.mail)
