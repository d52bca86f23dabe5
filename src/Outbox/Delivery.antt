-- ===== src/Outbox/Delivery.antt =====
-- What becomes of a row, and of the loans that it reserves.
use elidune_server.Prelude.{
  ℕ, ◌+◌, ◌≤◌, ◌<◌, ◌≡◌, ◌≢◌, refl, ap, sym, subst, ◌==◌, ◌&&◌, inl, inr, Bool, true, false, String,
  Option, none, some, List, [], ◌∷◌, arith, map, Bool-cases, Option-cases, leb, ◌∙◌,
}
use elidune_server.Prelude.Int.{ℤ}
use elidune_server.Prelude.Table.{
  select_first, select_where, count_where, update_where, delete_where, count_where-delete_le,
  count_where-update,
}
use elidune_server.Rights.{DateTime}
use elidune_server.Outbox.{
  OutboxRow, OutboxBody, EmailOutboxBatchReport, Mail, sent, failed, is_pending, row_id,
  reserved_by, reminder_loan_ids, set_row, set_sent, set_failed, set_deferred,
  apply_reminder_delivery, apply_event_announcement_delivery, mark_failed, process_row,
  process_rows, batch_rows, empty_report, process_outbox_batch, max_attempts, delivered,
  add_processed,
}

-- A loan is reserved only by a row that is pending.
abbrev pub ReservedByPending : Mail → Type 0
ReservedByPending m =
    (i : ℕ)
    → count_where (λ r. row_id i r && is_pending r) m.email_outbox ≡ 0
    → count_where (reserved_by i) m.reminder_loans ≡ 0

none_left :
    (i : ℕ) (xs : List (ℕ × ℕ)) → count_where (reserved_by i) (delete_where (reserved_by i) xs) ≡ 0
none_left i [] = refl
none_left i (x ∷ xs) = ground (arith, none_left i xs)

no_ids :
    (i : ℕ) (xs : List (ℕ × ℕ))
    → map (λ r. r.1) (select_where (reserved_by i) xs) ≡ []
    → count_where (reserved_by i) xs ≡ 0
no_ids i [] e = refl
no_ids i (x ∷ xs) e = ground (arith, no_ids i xs)

-- Writing one row leaves the rows with other ids alone.
other_rows :
    (i j : ℕ) (f : OutboxRow → OutboxRow) (rs : List OutboxRow)
    → j ≢ i
    → ((r : OutboxRow) → (f r).id ≡ r.id)
    → count_where (λ r. row_id i r && is_pending r) (update_where (row_id j) f rs)
      ≡ count_where (λ r. row_id i r && is_pending r) rs
other_rows i j f [] n h = refl
other_rows i j f (r ∷ rs) n h = ground (arith, h r, other_rows i j f rs n h)

written :
    (i : ℕ) (f : OutboxRow → OutboxRow) (rs : List OutboxRow) (r : OutboxRow)
    → ((x : OutboxRow) → (f x).id ≡ x.id)
    → select_first (row_id i) rs ≡ some r
    → select_first (row_id i) (update_where (row_id i) f rs) ≡ some (f r)
written i f [] r h e = absurd (ground arith)
written i f (x ∷ xs) r h e = elim (Bool-cases (row_id i x)) [
  | inl here ↦
      let same : x ≡ r = ground arith in
      let still : row_id i (f x) ≡ true = rw (h x) here in rw (here, still, same) refl
  | inr other ↦ rw (other, other) (written i f xs r h (ground arith))
]

reached : (n : ℕ) → max_attempts ≤ n → leb max_attempts n ≡ true
reached n h = ground arith

below : (n : ℕ) → n < max_attempts → leb max_attempts n ≡ false
below n h = ground arith

announcement_frame :
    (now : DateTime) (i : ℕ) (m : Mail)
    → ((apply_event_announcement_delivery now i m).email_outbox ≡ m.email_outbox)
      × ((apply_event_announcement_delivery now i m).reminder_loans ≡ m.reminder_loans)
unfolding apply_event_announcement_delivery
announcement_frame now i m = (ground arith, ground arith)

reminder_frame :
    (now : DateTime) (i : ℕ) (m : Mail)
    → ((apply_reminder_delivery now i m).1.email_outbox ≡ m.email_outbox)
      × (count_where (reserved_by i) (apply_reminder_delivery now i m).1.reminder_loans ≡ 0)
      × ((k : ℕ)
          → count_where (reserved_by k) (apply_reminder_delivery now i m).1.reminder_loans
            ≤ count_where (reserved_by k) m.reminder_loans)
unfolding apply_reminder_delivery
reminder_frame now i m = go (reminder_loan_ids i m) refl
  where
    go :
        (ids : List ℕ)
        → reminder_loan_ids i m ≡ ids
        → ((apply_reminder_delivery now i m).1.email_outbox ≡ m.email_outbox)
          × (count_where (reserved_by i) (apply_reminder_delivery now i m).1.reminder_loans ≡ 0)
          × ((k : ℕ)
              → count_where (reserved_by k) (apply_reminder_delivery now i m).1.reminder_loans
                ≤ count_where (reserved_by k) m.reminder_loans)
    go [] e = rw e (refl, no_ids i m.reminder_loans e, λ k. omega arith)
    go (l ∷ ls) e = rw e (
      refl,
      none_left i m.reminder_loans,
      λ k. count_where-delete_le (reserved_by k) (reserved_by i) m.reminder_loans,
    )

-- The row `i` was written and its reservations are gone; all else about reservations is as it was.
record Closes (i : ℕ) (m after : Mail) : Type 0 where
  released : count_where (reserved_by i) after.reminder_loans ≡ 0
  fewer :
      (k : ℕ)
      → count_where (reserved_by k) after.reminder_loans
        ≤ count_where (reserved_by k) m.reminder_loans
  others :
      (k : ℕ)
      → i ≢ k
      → count_where (λ r. row_id k r && is_pending r) after.email_outbox
        ≡ count_where (λ r. row_id k r && is_pending r) m.email_outbox

Closes-keeps :
    (i : ℕ) (m after : Mail) → Closes i m after → ReservedByPending m → ReservedByPending after
Closes-keeps i m after c h k e = elim (Bool-cases (i == k)) [
  | inl same ↦
      let eq : i ≡ k = ground arith in
      subst (λ j. count_where (reserved_by j) after.reminder_loans ≡ 0) eq c.released
  | inr other ↦
      let ne : i ≢ k = λ e'. ground arith in omega (arith, c.fewer k, h k (sym (c.others k ne) ∙ e))
]

module _ (parse : String → Option OutboxBody) (send : OutboxRow → OutboxBody → Bool)
    (now : DateTime) where
  sent-Closes :
      (r : OutboxRow) (p : EmailOutboxBatchReport) (m : Mail)
      → Closes r.id m (delivered parse send now r (p, m)).1
  sent-Closes r p m =
      let mid = set_row r.id (set_sent now) m in
      let after = (apply_reminder_delivery now r.id mid).1 in
      let (rows, gone, fewer) = reminder_frame now r.id mid in
      let (same_rows, same_loans) = announcement_frame now r.id after in
      record {
        released = rw same_loans gone;
        fewer = λ k. rw same_loans (fewer k);
        others = λ k ne.
            rw (same_rows, rows) (other_rows k r.id (set_sent now) m.email_outbox ne (λ x. refl));
      }

  sent_rows :
      (r : OutboxRow) (p : EmailOutboxBatchReport) (m : Mail)
      → (delivered parse send now r (p, m)).1.email_outbox
        ≡ update_where (row_id r.id) (set_sent now) m.email_outbox
  sent_rows r p m =
      let mid = set_row r.id (set_sent now) m in
      (announcement_frame now r.id (apply_reminder_delivery now r.id mid).1).0
      ∙ (reminder_frame now r.id mid).0

  failed-Closes : (i attempts : ℕ) (m : Mail) → Closes i m (mark_failed i attempts m)
  unfolding mark_failed
  failed-Closes i attempts m = record {
    released = none_left i m.reminder_loans;
    fewer = λ k. count_where-delete_le (reserved_by k) (reserved_by i) m.reminder_loans;
    others = λ k ne. other_rows k i (set_failed attempts) m.email_outbox ne (λ x. refl);
  }

  deferred_keeps :
      (i : ℕ) (m : Mail) → ReservedByPending m → ReservedByPending (set_row i set_deferred m)
  deferred_keeps i m h k e = h k (
      sym (
        count_where-update (λ r. row_id k r && is_pending r) (row_id i) set_deferred m.email_outbox
          (λ r. refl))
      ∙ e)

  row_keeps :
      (r : OutboxRow) (p : EmailOutboxBatchReport) (m : Mail)
      → ReservedByPending m
      → ReservedByPending (process_row parse send now r (p, m)).1
  unfolding process_row
  row_keeps r p m h = elim (Option-cases (parse r.body)) [
    | inl bad ↦ rw bad (Closes-keeps r.id m _ (failed-Closes r.id r.attempts m) h)
    | inr (body, good) ↦ elim (Bool-cases (send r body)) [
      | inl gone ↦ rw (good, gone) (Closes-keeps r.id m _ (sent-Closes r (add_processed p) m) h)
      | inr back ↦ elim (Bool-cases (leb max_attempts (r.attempts + 1))) [
        | inl last ↦
            rw (good, back, last) (Closes-keeps r.id m _ (failed-Closes r.id r.attempts m) h)
        | inr again ↦ rw (good, back, again) (deferred_keeps r.id m h)
      ]
    ]
  ]

  rows_keep :
      (rs : List OutboxRow) (p : EmailOutboxBatchReport) (m : Mail)
      → ReservedByPending m
      → ReservedByPending (process_rows parse send now rs (p, m)).1
  unfolding process_rows
  rows_keep [] p m h = h
  rows_keep (r ∷ rs) p m h =
      let s = process_row parse send now r (p, m) in rows_keep rs s.0 s.1 (row_keeps r p m h)

  -- If loans are reserved by pending rows only, then so they are after a batch, whatever the mail
  -- server answers: a row that was sent or has failed for good holds no loan back.
  pub batch-ReservedByPending :
      (batch_size : Option ℤ) (m : Mail)
      → ReservedByPending m
      → ReservedByPending (process_outbox_batch parse send now batch_size m).1
  unfolding process_outbox_batch
  batch-ReservedByPending batch_size m h = rows_keep (batch_rows batch_size m) empty_report m h

  -- One turn of the loop on a row that the table holds as it was read counts one attempt more. A
  -- body that cannot be read, or a refusal at the fifth attempt or a later one, makes the row
  -- failed; a delivery makes it sent, with the instant of it; a refusal at an earlier attempt
  -- leaves its status. The row's other columns stay.
  pub process_row_lem :
      (r : OutboxRow) (p : EmailOutboxBatchReport) (m : Mail)
      → select_first (row_id r.id) m.email_outbox ≡ some r
      → let after = (process_row parse send now r (p, m)).1 in
        let found = select_first (row_id r.id) after.email_outbox in
        (parse r.body ≡ none
          → found ≡ some (record r { status = failed; attempts = r.attempts + 1 }))
        × ((body : OutboxBody)
            → parse r.body ≡ some body
            → (send r body ≡ true
                → found
                  ≡ some
                      (record r { status = sent; sent_at = some now; attempts = r.attempts + 1 }))
              × (send r body ≡ false
                  → 5 ≤ r.attempts + 1
                  → found ≡ some (record r { status = failed; attempts = r.attempts + 1 }))
              × (send r body ≡ false
                  → r.attempts + 1 < 5
                  → found ≡ some (record r { attempts = r.attempts + 1 })))
  unfolding process_row mark_failed
  process_row_lem r p m here = (
    λ bad. rw bad (written r.id (set_failed r.attempts) m.email_outbox r (λ x. refl) here),
    λ body good. (
      λ gone.
          rw (good, gone)
            (ap (select_first (row_id r.id)) (sent_rows r (add_processed p) m)
              ∙ written r.id (set_sent now) m.email_outbox r (λ x. refl) here),
      λ back last.
          rw (good, back, reached (r.attempts + 1) last)
            (written r.id (set_failed r.attempts) m.email_outbox r (λ x. refl) here),
      λ back again.
          rw (good, back, below (r.attempts + 1) again)
            (written r.id set_deferred m.email_outbox r (λ x. refl) here),
    ),
  )
