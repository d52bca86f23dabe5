-- ===== src/Examples/Office.antt =====
-- The theorems on fines and on the outbox at work.
use elidune_server.Prelude.{
  ◌+◌, ◌≤◌, ◌≡◌, refl, Bool, false, String, Option, none, some, [], ◌∷◌, arith, unwrap_or,
}
use elidune_server.Prelude.Int.{pos, ◌+ℤ◌, ◌-ℤ◌, ◌≤ℤ◌}
use elidune_server.Prelude.Table.{count_where, select_first}
use elidune_server.Error.{ok, err, literal, validation}
use elidune_server.Fines.{
  Fine, FineRule, FineDefaults, pending, partial, pay, accrue, fine_amount, total_unpaid,
}
use elidune_server.Fines.Accrual.{accrue_lem, fine_amount_mono, charged}
use elidune_server.Fines.Payment.{pay_lem, pay-total}
use elidune_server.Outbox.{
  apply_reminder_delivery, pending as waiting, OutboxRow, OutboxBody, Mail, is_pending, row_id,
  failed, clamp_limit, process_row, process_outbox_batch, empty_report, default_batch_size,
}
use elidune_server.Outbox.Reminders.{delivered_once}
use elidune_server.Outbox.Report.{batch_report, least}
use elidune_server.Outbox.Delivery.{ReservedByPending, batch-ReservedByPending, process_row_lem}

abbrev book_rule : FineRule
book_rule = record {
  media_type = none;
  daily_rate = pos 10;
  max_amount = some (pos 500);
  grace_days = pos 3;
}

abbrev fresh : FineDefaults
fresh = record { paid_amount = pos 0; status = pending }

abbrev old_fine : Fine
old_fine = record {
  id = 5;
  loan_id = 1;
  user_id = 2;
  amount = pos 500;
  paid_amount = pos 100;
  created_at = pos 50;
  paid_at = none;
  status = partial;
  notes = none;
}

accrue_lem_example :
    accrue fresh 6 (pos 60) (book_rule ∷ []) 1 2 (some "b") (pos 9) (old_fine ∷ []) ≡ (
      ok (
          charged fresh 6
            (pos 60)
            (book_rule ∷ [])
            1
            2
            (some "b")
            (pos 9)
            (old_fine ∷ [])
            book_rule),
      old_fine
          ∷ charged fresh 6
              (pos 60)
              (book_rule ∷ [])
              1
              2
              (some "b")
              (pos 9)
              (old_fine ∷ [])
              book_rule
          ∷ [],
    )
accrue_lem_example =
    (((accrue_lem fresh 6 (pos 60) (book_rule ∷ []) 1 2 (some "b") (pos 9) (old_fine ∷ [])).1
        book_rule refl).1
      (omega arith) (omega arith) (λ most e. ground arith)).0

fine_amount_mono_example : fine_amount book_rule (pos 5) ≤ℤ fine_amount book_rule (pos 90)
fine_amount_mono_example =
    (fine_amount_mono book_rule (pos 5) (pos 90) (omega arith) (omega arith)).0

pay_lem_example :
    pay (pos 60) 5 (pos 0) none (old_fine ∷ [])
    ≡ (err (validation (literal "Payment amount must be positive")), old_fine ∷ [])
pay_lem_example = (pay_lem (pos 60) 5 none (old_fine ∷ []) (pos 0)).0 (omega arith)

pay-total_example :
    total_unpaid 2 (pay (pos 60) 5 (pos 150) none (old_fine ∷ [])).1
    ≡ total_unpaid 2 (old_fine ∷ []) -ℤ pos 150
unfolding ◌+ℤ◌
pay-total_example =
    ((pay-total (pos 60) 5 none (old_fine ∷ []) 2 (pos 150) old_fine (omega arith) (omega arith)
          refl refl).1
        refl).0
      (omega arith)

-- Bodies are read as they stand, and the mail server refuses every mail.
abbrev read_body : String → Option OutboxBody
read_body s = some (record { plain = s; html = s })

abbrev refuse : OutboxRow → OutboxBody → Bool
refuse r b = false

abbrev tired_row : OutboxRow
tired_row = record {
  id = 1;
  to_addr = "ann";
  subject = "late";
  body = "please";
  status = waiting;
  attempts = 4;
  created_at = pos 10;
  sent_at = none;
}

abbrev post : Mail
post = record {
  email_outbox = tired_row ∷ [];
  reminder_loans = (1, 7) ∷ [];
  event_announcements = [];
  loans = [];
  events = [];
}

batch_report_example :
    let q = (process_outbox_batch read_body refuse (pos 60) none post).0 in
    let limit = clamp_limit (unwrap_or default_batch_size none) in
    (q.processed ≡ q.sent + q.failed + q.deferred)
    × (q.reminders_confirmed ≤ q.sent)
    × (q.processed ≡ least limit (count_where is_pending post.email_outbox))
    × (1 ≤ limit)
    × (limit ≤ 100)
batch_report_example = batch_report read_body refuse (pos 60) none post

post-ReservedByPending : ReservedByPending post
post-ReservedByPending i e = ground arith

batch-ReservedByPending_example :
    ReservedByPending (process_outbox_batch read_body refuse (pos 60) none post).1
batch-ReservedByPending_example =
    batch-ReservedByPending read_body refuse (pos 60) none post post-ReservedByPending

process_row_lem_example :
    select_first
      (row_id 1)
      (process_row read_body refuse (pos 60) tired_row (empty_report, post)).1.email_outbox
    ≡ some (record tired_row { status = failed; attempts = 5 })
process_row_lem_example =
    ((process_row_lem read_body refuse (pos 60) tired_row empty_report post refl).1
        (record { plain = "please"; html = "please" }) refl).1
      refl (omega arith)

delivered_once_example :
    apply_reminder_delivery (pos 70) 1 (apply_reminder_delivery (pos 60) 1 post).1
    ≡ (false, (apply_reminder_delivery (pos 60) 1 post).1)
delivered_once_example = (delivered_once (pos 60) (pos 70) 1 post).2
