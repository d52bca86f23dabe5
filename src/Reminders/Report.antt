-- ===== src/Reminders/Report.antt =====
-- What a batch of reminders reports and reserves (src/services/reminders.rs).
use elidune_server.Prelude.{
  ℕ, suc, ◌+◌, ◌≡◌, refl, sym, subst, ◌∙◌, arith, String, str_eq, Bool, true, false, Bool-cases,
  inl, inr, Option, none, some, List, [], ◌∷◌, map,
}
use elidune_server.Prelude.Table.{length, length-append, All, All-append}
use elidune_server.Prelude.Rows.{All-map}
use elidune_server.Error.{Result, ok, result_cases}
use elidune_server.Rights.{DateTime}
use elidune_server.Outbox.{Mail}
use elidune_server.Reminders.{
  LoanSource, EmailTemplate, Group, loan_ids, is_reserved, is_eligible, vars, by_user,
  loans_get_overdue_for_reminders, ReminderReport,
}
use elidune_server.Reminders.Batch.{
  Batch, detail_of, substitute, is_refused, outbox_row, enqueue_overdue_reminder, with_template,
  remind, remind_all, run_batch, send_overdue_reminders,
}
use elidune_server.Reminders.Queued.{Queued, length-map, keeps-Queued, new-Queued}

-- A batch that has come to `b` from the tables of `m`.
abbrev Counts : Mail → Batch → Type 0
Counts m b =
    (length b.mail.email_outbox ≡ length m.email_outbox + length b.details)
    × (length b.mail.reminder_loans ≡ length m.reminder_loans + length b.queued_loan_ids)
    × All (Queued b.mail) b.queued_loan_ids

module _ (now : DateTime) (json_body : String → String → String)
    (load_template : Option String → Result EmailTemplate) (format_date : DateTime → String) where
  enqueued-Counts :
      (m0 : Mail) (id : ℕ) (g : Group) (email : String) (t : EmailTemplate) (b : Batch)
      → Counts m0 b
      → Counts m0 (with_template now json_body load_template format_date id g email (ok t) b)
  unfolding enqueue_overdue_reminder
  enqueued-Counts m0 id g email t b (rows, loans, queued) =
      elim (Bool-cases (is_refused id (loan_ids g) b.mail)) [
        | inl refused ↦ rw refused (rows, loans, queued)
        | inr accepted ↦ rw accepted (
          omega (
            arith,
            rows,
            length-append b.mail.email_outbox (
                outbox_row now json_body load_template format_date id email
                  (substitute t (vars format_date g))
                ∷ []),
            length-append b.details (detail_of g email ∷ []),
          ),
          omega (
            arith,
            loans,
            length-append b.mail.reminder_loans (map (λ loan. (id, loan)) (loan_ids g)),
            length-map {B = ℕ × ℕ} (λ loan. (id, loan)) (loan_ids g),
            length-append b.queued_loan_ids (loan_ids g),
          ),
          All-append (Queued _) b.queued_loan_ids (loan_ids g)
              (All-map (Queued b.mail) (Queued _) b.queued_loan_ids
                (keeps-Queued now json_body load_template format_date id email
                  (substitute t (vars format_date g)) (loan_ids g) b.mail)
                queued)
              (new-Queued now json_body load_template format_date id email
                (substitute t (vars format_date g)) (loan_ids g) b.mail),
        )
      ]

  remind-Counts :
      (m0 : Mail) (id : ℕ) (g : Group) (email : Option String) (b : Batch)
      → Counts m0 b
      → Counts m0 (remind now json_body load_template format_date false id g email b)
  unfolding remind
  remind-Counts m0 id g none b c = c
  remind-Counts m0 id g (some email) b c = elim (Bool-cases (str_eq email "")) [
    | inl empty ↦ rw empty c
    | inr given ↦ elim (result_cases (load_template g.first.user_language)) [
      | inl (t, loaded) ↦ rw (given, loaded) (enqueued-Counts m0 id g email t b c)
      | inr (e, failed) ↦ rw (given, failed) c
    ]
  ]

  remind_all-Counts :
      (m0 : Mail) (ids : ℕ → ℕ) (k : ℕ) (gs : List Group) (b : Batch)
      → Counts m0 b
      → Counts m0 (remind_all now json_body load_template format_date false ids k gs b)
  unfolding remind_all
  remind_all-Counts m0 ids k [] b c = c
  remind_all-Counts m0 ids k (g ∷ gs) b c =
      remind_all-Counts m0 ids (suc k) gs _ (remind-Counts m0 (ids k) g g.first.user_email b c)

  remind_dry :
      (id : ℕ) (g : Group) (email : Option String) (b : Batch)
      → (remind now json_body load_template format_date true id g email b).mail ≡ b.mail
  unfolding remind
  remind_dry id g none b = refl
  remind_dry id g (some email) b = elim (Bool-cases (str_eq email "")) [
    | inl empty ↦ rw empty refl
    | inr given ↦ rw given refl
  ]

  remind_all_dry :
      (ids : ℕ → ℕ) (k : ℕ) (gs : List Group) (b : Batch)
      → (remind_all now json_body load_template format_date true ids k gs b).mail ≡ b.mail
  unfolding remind_all
  remind_all_dry ids k [] b = refl
  remind_all_dry ids k (g ∷ gs) b =
      remind_all_dry ids (suc k) gs _ ∙ remind_dry (ids k) g g.first.user_email b

  -- The selection leaves out what is queued.
  Queued-not_eligible :
      (frequency_days loan : ℕ) (m : Mail)
      → Queued m loan
      → (s : LoanSource) → s.row.loan_id ≡ loan
      → is_eligible now frequency_days m s ≡ false
  unfolding is_eligible Queued
  Queued-not_eligible frequency_days loan m q s e =
      ground (arith, subst (λ i. is_reserved i m ≡ true) (sym e) q)

  -- A batch adds as many pending mails to the outbox as it reports to be sent and as many
  -- reservations as it reports loans to be reminded, and right after it no loan that it queued would
  -- be selected again; a dry run leaves the tables as they are.
  pub send_overdue_reminders_lem :
      (ids : ℕ → ℕ) (frequency_days : ℕ) (sources : List LoanSource) (m : Mail)
      → let send : Bool → ReminderReport × Mail = λ dry_run.
        send_overdue_reminders now json_body load_template format_date dry_run ids frequency_days
          sources m in
        let batch : Batch =
          run_batch now json_body load_template format_date false ids frequency_days sources m in
        (length (send false).1.email_outbox ≡ length m.email_outbox + (send false).0.emails_sent)
        × (length (send false).1.reminder_loans
            ≡ length m.reminder_loans + (send false).0.loans_reminded)
        × All
            (λ loan.
              (s : LoanSource)
              → s.row.loan_id ≡ loan
              → is_eligible now frequency_days (send false).1 s ≡ false)
            batch.queued_loan_ids
        × ((send true).1 ≡ m)
  unfolding send_overdue_reminders run_batch
  send_overdue_reminders_lem ids frequency_days sources m =
      let groups = by_user (loans_get_overdue_for_reminders now frequency_days m sources) in
      let start : Batch = record { details = []; errors = []; queued_loan_ids = []; mail = m } in
      let b = remind_all now json_body load_template format_date false ids 0 groups start in
      let (rows, loans, queued) =
        remind_all-Counts m ids 0 groups start (omega arith, omega arith, tt) in
      (
        rows,
        loans,
        All-map (Queued b.mail) _ b.queued_loan_ids
            (λ loan q. Queued-not_eligible frequency_days loan b.mail q) queued,
        remind_all_dry ids 0 groups start,
      )
