-- ===== src/Loans/Settings/Precedence.antt =====
-- Which row decides each rule of a loan.
use elidune_server.Prelude.{ℕ, ◌≡◌, refl, String, Option, none, some, List, [], ◌∷◌, arith}
use elidune_server.Prelude.Int.{pos}
use elidune_server.Db.{Db, LoanSettingsRow}
use elidune_server.Loans.Settings.{
  LoanSettingsRenewAt, now, at_due_date, as_db_str, renew_at_from_str, resolve_loan_settings,
  ptls_spec, ptls_default, ls_spec, ls_default, field_of, pick_renew,
}

-- A stored policy is read back as it was written.
pub renew_at_round_trip : (p : LoanSettingsRenewAt) → renew_at_from_str (as_db_str p) ≡ p
unfolding renew_at_from_str as_db_str
renew_at_round_trip now = refl
renew_at_round_trip at_due_date = refl

-- The first answer in a list of candidates, or the fallback.
abbrev pub first_answer : {A : Type 0} → A → List (Option A) → A
first_answer d [] = d
first_answer d (none ∷ rest) = first_answer d rest
first_answer d (some a ∷ rest) = a

abbrev pub candidates : Option ℕ → Option String → Db → List (Option LoanSettingsRow)
candidates pt mt db = ptls_spec pt mt db ∷ ptls_default pt db ∷ ls_spec mt db ∷ ls_default db ∷ []

abbrev pub answers :
    {A : Type 0}
    → (Option LoanSettingsRow → Option A)
    → List (Option LoanSettingsRow)
    → List (Option A)
answers f [] = []
answers f (r ∷ rs) = f r ∷ answers f rs

module _ (pt : Option ℕ) (mt : Option String) (db : Db) where
  -- The duration, the number of renewals and the renewal policy come from the first row that gives
  -- them: the public type's row for the document type, its default row, the global row for the
  -- document type, the global default; else 21 days, 2 renewals, counted from the renewal. The cap
  -- for the document type is read from the two rows for it only, and the cap on all loans from the
  -- two default rows only; else both are 5.
  pub resolve_precedence :
      let r = resolve_loan_settings pt mt db in
      (r.duration
        ≡ first_answer (pos 21) (answers (field_of (λ s. s.duration)) (candidates pt mt db)))
      × (r.nb_renews
          ≡ first_answer (pos 2) (answers (field_of (λ s. s.nb_renews)) (candidates pt mt db)))
      × (r.renew_at ≡ first_answer now (answers pick_renew (candidates pt mt db)))
      × (r.nb_max_media
          ≡ first_answer
              (pos 5)
              (answers (field_of (λ s. s.nb_max)) (ptls_spec pt mt db ∷ ls_spec mt db ∷ [])))
      × (r.nb_max_total
          ≡ first_answer
              (pos 5)
              (answers (field_of (λ s. s.nb_max)) (ptls_default pt db ∷ ls_default db ∷ [])))
  unfolding resolve_loan_settings
  resolve_precedence = (ground arith, ground arith, ground arith, ground arith, ground arith)
