-- ===== src/Outbox/Report.antt =====
-- The report of a batch accounts for every row that the batch took.
use elidune_server.Prelude.{
  ℕ, zero, suc, ◌+◌, ◌≤◌, ◌≡◌, refl, Bool, String, Option, List, [], ◌∷◌, arith, unwrap_or, leb,
  if◌then◌else◌,
}
use elidune_server.Prelude.Int.{ℤ, pos, negsuc}
use elidune_server.Prelude.Table.{length, select_where, count_where}
use elidune_server.Rights.{DateTime}
use elidune_server.Outbox.{
  OutboxRow, OutboxBody, EmailOutboxBatchReport, Mail, is_pending, process_row, process_rows, take,
  sort_by_date, insert_by_date, clamp_limit, default_batch_size, batch_rows, empty_report,
  process_outbox_batch,
}

-- Every row that was taken was sent, failed or deferred, and only a sent one confirms reminders.
pub record Accounts (p : EmailOutboxBatchReport) : Type 0 where
  pub all_rows : p.processed ≡ p.sent + p.failed + p.deferred
  pub confirmed_le : p.reminders_confirmed ≤ p.sent

length-insert : (r : OutboxRow) (rs : List OutboxRow) → length (insert_by_date r rs) ≡ length rs + 1
length-insert r [] = refl
length-insert r (k ∷ ks) = ground (arith, length-insert r ks)

length-sort : (rs : List OutboxRow) → length (sort_by_date rs) ≡ length rs
length-sort [] = refl
length-sort (r ∷ rs) = omega (arith, length-insert r (sort_by_date rs), length-sort rs)

length-select :
    (rs : List OutboxRow) → length (select_where is_pending rs) ≡ count_where is_pending rs
length-select [] = refl
length-select (r ∷ rs) = ground (arith, length-select rs)

abbrev pub least : ℕ → ℕ → ℕ
least a b = if leb a b then a else b

length-take : (n : ℕ) (rs : List OutboxRow) → length (take n rs) ≡ least n (length rs)
length-take zero rs = ground arith
length-take (suc n) [] = ground arith
length-take (suc n) (r ∷ rs) = ground (arith, length-take n rs)

clamp_bounds : (z : ℤ) → (1 ≤ clamp_limit z) × (clamp_limit z ≤ 100)
clamp_bounds (pos n) = ground arith
clamp_bounds (negsuc n) = (omega arith, omega arith)

module _ (parse : String → Option OutboxBody) (send : OutboxRow → OutboxBody → Bool)
    (now : DateTime) where
  row-Accounts :
      (r : OutboxRow) (p : EmailOutboxBatchReport) (m : Mail)
      → Accounts p
      → let q = (process_row parse send now r (p, m)).0 in
        Accounts q × (q.processed ≡ p.processed + 1)
  unfolding process_row
  row-Accounts r p m a =
      (record { all_rows = ground arith; confirmed_le = ground arith }, ground arith)

  rows-Accounts :
      (rs : List OutboxRow) (p : EmailOutboxBatchReport) (m : Mail)
      → Accounts p
      → let q = (process_rows parse send now rs (p, m)).0 in
        Accounts q × (q.processed ≡ p.processed + length rs)
  unfolding process_rows
  rows-Accounts [] p m a = (a, omega arith)
  rows-Accounts (r ∷ rs) p m a =
      let (here, one) = row-Accounts r p m a in
      let s = process_row parse send now r (p, m) in
      let (there, rest) = rows-Accounts rs s.0 s.1 here in (there, omega (arith, one, rest))

  -- A batch takes as many rows as are pending, up to its limit, which is from 1 to 100 whatever size
  -- is asked for; every row that it takes is counted as sent, failed or deferred, once; and the
  -- reminders that it confirms are at most the rows that it sent.
  pub batch_report :
      (batch_size : Option ℤ) (m : Mail)
      → let q = (process_outbox_batch parse send now batch_size m).0 in
        let limit = clamp_limit (unwrap_or default_batch_size batch_size) in
        (q.processed ≡ q.sent + q.failed + q.deferred)
        × (q.reminders_confirmed ≤ q.sent)
        × (q.processed ≡ least limit (count_where is_pending m.email_outbox))
        × (1 ≤ limit)
        × (limit ≤ 100)
  unfolding process_outbox_batch
  batch_report batch_size m =
      let (a, n) =
        rows-Accounts (batch_rows batch_size m) empty_report m
          (record { all_rows = refl; confirmed_le = omega arith }) in
      let limit = clamp_limit (unwrap_or default_batch_size batch_size) in
      let (low, high) = clamp_bounds (unwrap_or default_batch_size batch_size) in
      (
        a.all_rows,
        a.confirmed_le,
        ground (
          arith,
          n,
          length-take limit (sort_by_date (select_where is_pending m.email_outbox)),
          length-sort (select_where is_pending m.email_outbox),
          length-select m.email_outbox,
        ),
        low,
        high,
      )
