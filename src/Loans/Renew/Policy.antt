-- ===== src/Loans/Renew/Policy.antt =====
-- When a loan may be renewed, for how long, and what the renewal writes.
use elidune_server.Prelude.{
  ℕ, ◌==◌, ◌≡◌, refl, true, false, none, some, arith, Option-cases, ◌⊎◌, inl, inr, unwrap_or,
  is_some, ap, ◌∙◌, sym, subst,
}
use elidune_server.Prelude.Int.{ℤ, pos, ◌+ℤ◌, ◌*ℤ◌, ◌≤ℤ◌, ◌<ℤ◌, leb_ℤ, int_laws}
use elidune_server.Prelude.Table.{select_first, count_where-update, update_where}
use elidune_server.Error.{
  Result, ok, err, literal, loan_not_found, max_renewals, not_found, business_rule, database,
  row_not_found,
}
use elidune_server.Rights.{DateTime}
use elidune_server.Db.{Db, Loan, Item, Biblio}
use elidune_server.Holds.{days}
use elidune_server.Loans.Settings.{
  Resolved, LoanSettingsRenewAt, at_due_date, resolve_loan_settings,
}
use elidune_server.Loans.Rows.{has_id, open_for_item, item_biblio, public_type_of}
use elidune_server.Loans.Sound.{IsSound}
use elidune_server.Loans.Renew.{anchor_of, set_renewed, loans_renew}

all_used : (a b : ℤ) → a ≤ℤ b → leb_ℤ a b ≡ true
all_used a b h = ground arith

some_left : (a b : ℤ) → b <ℤ a → leb_ℤ a b ≡ false
some_left a b h = ground arith

int_le_or_lt : (a b : ℤ) → (a ≤ℤ b) ⊎ (b <ℤ a)
int_le_or_lt a b = ground (arith)

module _ (now : DateTime) (id : ℕ) (db : Db) where
  abbrev pub rules_for : Loan → Item × Biblio → Resolved
  rules_for loan row = resolve_loan_settings (public_type_of loan.user_id db) (row.1).media_type db

  -- The duration in days, of 86400 seconds, is counted from now or, where the rules say so, from
  -- the old due date if there is one.
  abbrev counted_from : Loan → LoanSettingsRenewAt → DateTime
  counted_from loan rule = elim rule as (λ _. DateTime) [
    | LoanSettingsRenewAt.now ↦ now
    | at_due_date ↦ elim loan.expiry_at [ none ↦ now | some t ↦ t ]
  ]

  abbrev pub due_date : Loan → Item × Biblio → DateTime
  due_date loan row =
      counted_from loan (rules_for loan row).renew_at +ℤ (rules_for loan row).duration *ℤ pos 86400

  anchor-counted_from :
      (loan : Loan) (rule : LoanSettingsRenewAt) → anchor_of rule now loan ≡ counted_from loan rule
  anchor-counted_from loan LoanSettingsRenewAt.now = refl
  anchor-counted_from loan at_due_date = refl

  -- The answer, and the table with the row that the renewal writes.
  abbrev renewed : ℤ → DateTime → Result (DateTime × ℤ) × Db
  renewed count until = (
    ok (until, count),
    record db {
      loans =
          update_where (λ l. l.id == id)
            (λ l. record l { expiry_at = some until; renew_at = some now; nb_renews = some count })
            db.loans;
    },
  )

  -- A renewal that is refused before the rules are read leaves the database alone: there is no
  -- such loan, it is closed, or its copy has no record.
  pub renew_refused :
      (select_first (has_id id) db.loans ≡ none
        → loans_renew now id db ≡ (err (not_found (loan_not_found id)), db))
      × ((loan : Loan)
          → select_first (has_id id) db.loans ≡ some loan
          → (is_some loan.returned_at ≡ true
              → loans_renew now id db
                ≡ (err (business_rule (literal "Cannot renew a returned loan")), db))
            × (loan.returned_at ≡ none
                → item_biblio loan.item_id db ≡ none
                → loans_renew now id db ≡ (err (database row_not_found), db)))
  unfolding loans_renew
  renew_refused = (λ e. ground arith, λ loan e. (λ c. ground arith, λ lent j. rw (e, lent, j) refl))

  renews :
      (loan : Loan) (row : Item × Biblio)
      → select_first (has_id id) db.loans ≡ some loan
      → loan.returned_at ≡ none
      → item_biblio loan.item_id db ≡ some row
      → unwrap_or (pos 0) loan.nb_renews <ℤ (rules_for loan row).nb_renews
      → loans_renew now id db
        ≡ renewed
            (unwrap_or (pos 0) loan.nb_renews +ℤ pos 1)
            (anchor_of (rules_for loan row).renew_at now loan +ℤ days (rules_for loan row).duration)
  unfolding loans_renew
  renews loan row found lent joined left = rw (found, lent, joined, some_left _ _ left) refl

  -- An open loan whose copy has a record is renewed if it was renewed fewer times than the rules
  -- for the patron and the document allow. Its row then counts one renewal more, still within
  -- what is allowed, has now as the instant of its renewal, and is due the rules' duration in
  -- days, of 86400 seconds, after its anchor: the old due date if the rules count from it and the
  -- loan has one, else now. The answer is that date and that count, and nothing else changes. A
  -- loan renewed as often as allowed is an error and nothing changes.
  pub renew_lem :
      (loan : Loan) (row : Item × Biblio)
      → select_first (has_id id) db.loans ≡ some loan
      → loan.returned_at ≡ none
      → item_biblio loan.item_id db ≡ some row
      → let used = unwrap_or (pos 0) loan.nb_renews in
        let allowed = (rules_for loan row).nb_renews in
        (allowed ≤ℤ used
          → loans_renew now id db ≡ (err (business_rule (max_renewals used allowed)), db))
        × (used <ℤ allowed
            → (used +ℤ pos 1 ≤ℤ allowed)
              × (loans_renew now id db ≡ (
                ok (due_date loan row, used +ℤ pos 1),
                record db {
                  loans =
                      update_where
                        (λ l. l.id == id)
                        (λ l. record l {
                          expiry_at = some (due_date loan row);
                          renew_at = some now;
                          nb_renews = some (used +ℤ pos 1);
                        })
                        db.loans;
                },
              )))
  unfolding loans_renew
  renew_lem loan row found lent joined = (
    λ full. rw (found, lent, joined, all_used _ _ full) refl,
    λ left. (
      omega int_laws,
      renews loan row found lent joined left
          ∙ ap
              (λ anchor.
                renewed (unwrap_or (pos 0) loan.nb_renews +ℤ pos 1)
                  (anchor +ℤ days (rules_for loan row).duration))
              (anchor-counted_from loan (rules_for loan row).renew_at),
    ),
  )

  renewed-IsSound :
      (until : DateTime) (n : ℤ)
      → IsSound db
      → IsSound (record db { loans = update_where (has_id id) (set_renewed now until n) db.loans })
  renewed-IsSound until n s = record {
    unique_ids = λ k.
        rw
          (count_where-update (has_id k) (has_id id) (set_renewed now until n) db.loans (λ l. refl))
          (s.unique_ids k);
    fresh_ids = λ k le.
        rw
          (count_where-update (has_id k) (has_id id) (set_renewed now until n) db.loans (λ l. refl))
          (s.fresh_ids k le);
    lent_once = λ i.
        rw
          (count_where-update (open_for_item i) (has_id id) (set_renewed now until n) db.loans
            (λ l. refl))
          (s.lent_once i);
    unique_holds = s.unique_holds;
  }

  -- A renewal keeps the tables sound, however it ends.
  pub renew-IsSound : IsSound db → IsSound (loans_renew now id db).1
  renew-IsSound s = elim (Option-cases (select_first (has_id id) db.loans)) [
    | inl nothing ↦ subst IsSound (sym (ap (λ p. p.1) (renew_refused.0 nothing))) s
    | inr (loan, found) ↦ elim (Option-cases loan.returned_at) [
      | inr (t, closed) ↦
          subst IsSound (sym (ap (λ p. p.1) ((renew_refused.1 loan found).0 (rw closed refl)))) s
      | inl lent ↦ elim (Option-cases (item_biblio loan.item_id db)) [
        | inl lone ↦
            subst IsSound (sym (ap (λ p. p.1) ((renew_refused.1 loan found).1 lent lone))) s
        | inr (row, joined) ↦
            let (full, left) = renew_lem loan row found lent joined in
            elim (int_le_or_lt (rules_for loan row).nb_renews (unwrap_or (pos 0) loan.nb_renews)) [
              | inl h ↦ subst IsSound (sym (ap (λ p. p.1) (full h))) s
              | inr h ↦ subst IsSound (sym (ap (λ p. p.1) ((left h).1))) (
                  renewed-IsSound (due_date loan row) (unwrap_or (pos 0) loan.nb_renews +ℤ pos 1) s)
            ]
      ]
    ]
  ]
