-- ===== src/Loans/Settings/Upsert.antt =====
-- Writing the global rules and reading them back.
use elidune_server.Prelude.{
  ◌≤◌, ◌≡◌, refl, String, str_eq, eq_iff, true, Option, none, some, List, [], ◌∷◌, arith,
  Bool-cases, inl, inr,
}
use elidune_server.Prelude.Int.{ℤ}
use elidune_server.Prelude.Table.{
  select_first, exists_where, count_where, count_where-append, select_first-update,
  select_first-append, count_where-update, count_where-exists,
}
use elidune_server.Db.{Db, LoanSettingsRow}
use elidune_server.Loans.Settings.{
  LoanSettingsRenewAt, resolve_loan_settings, speaks_for, set_rule, new_rule,
  loans_settings_upsert_row,
}
use elidune_server.Loans.Settings.Precedence.{renew_at_round_trip}

same_type : (m : String) → str_eq m m ≡ true
same_type m = (eq_iff m m).1 refl

module _ (nb_max nb_renews duration : ℤ) (renew_at : LoanSettingsRenewAt) where
  speaks_for-new :
      (m : Option String) → speaks_for m (new_rule m nb_max nb_renews duration renew_at) ≡ true
  speaks_for-new none = refl
  speaks_for-new (some m) = same_type m

  speaks_for-set :
      (m : Option String) (r : LoanSettingsRow)
      → speaks_for m (set_rule nb_max nb_renews duration renew_at r) ≡ speaks_for m r
  speaks_for-set none r = refl
  speaks_for-set (some m) r = refl

  speaks_for-new_eq :
      (m k : Option String)
      → speaks_for m (new_rule k nb_max nb_renews duration renew_at) ≡ true
      → m ≡ k
  speaks_for-new_eq none none e = refl
  speaks_for-new_eq none (some k) e = cc
  speaks_for-new_eq (some m) none e = cc
  speaks_for-new_eq (some m) (some k) e = ground (arith, eq_iff k m)

  -- The row that an upsert leaves for its document type.
  upserted :
      (media_type : Option String) (rows : List LoanSettingsRow)
      → (r : LoanSettingsRow) × (select_first
            (speaks_for media_type)
            (loans_settings_upsert_row media_type nb_max nb_renews duration renew_at rows)
          ≡ some (set_rule nb_max nb_renews duration renew_at r))
  unfolding loans_settings_upsert_row
  upserted media_type rows = elim (Bool-cases (exists_where (speaks_for media_type) rows)) [
    | inl there ↦ rw there (
        select_first-update (speaks_for media_type) (set_rule nb_max nb_renews duration renew_at)
          rows (speaks_for-set media_type) there)
    | inr new ↦ (
      new_rule media_type nb_max nb_renews duration renew_at,
      rw new (
          select_first-append (speaks_for media_type) rows
            (new_rule media_type nb_max nb_renews duration renew_at) new
            (speaks_for-new media_type)),
    )
  ]

  -- After an upsert of a document type's global rule, the loan rules of a patron without a public
  -- type are the written ones for that type.
  pub upsert-resolve :
      (mt : String) (db : Db)
      → let rows =
          loans_settings_upsert_row
            (some mt)
            nb_max
            nb_renews
            duration
            renew_at
            db.loans_settings in
        let r = resolve_loan_settings none (some mt) (record db { loans_settings = rows }) in
        (r.duration ≡ duration)
        × (r.nb_max_media ≡ nb_max)
        × (r.nb_renews ≡ nb_renews)
        × (r.renew_at ≡ renew_at)
  unfolding resolve_loan_settings
  upsert-resolve mt db =
      let (r, found) = upserted (some mt) db.loans_settings in
      let back = renew_at_round_trip renew_at in
      (rw found refl, rw found refl, rw found refl, rw found back)

  -- If the table has at most one row for each document type and at most one default row, it
  -- still has after an upsert of any of them.
  pub upsert_unique :
      (media_type : Option String) (rows : List LoanSettingsRow)
      → ((m : Option String) → count_where (speaks_for m) rows ≤ 1)
      → (m : Option String)
      → count_where
          (speaks_for m)
          (loans_settings_upsert_row media_type nb_max nb_renews duration renew_at rows)
        ≤ 1
  unfolding loans_settings_upsert_row
  upsert_unique media_type rows h m =
      elim (Bool-cases (exists_where (speaks_for media_type) rows)) [
        | inl there ↦
            rw
              (
                there,
                count_where-update (speaks_for m) (speaks_for media_type)
                    (set_rule nb_max nb_renews duration renew_at) rows (speaks_for-set m),
              )
              (h m)
        | inr new ↦
            let row = new_rule media_type nb_max nb_renews duration renew_at in
            rw (new, count_where-append (speaks_for m) rows (row ∷ []))
              (elim (Bool-cases (speaks_for m row)) [
                | inl same ↦
                    rw
                      (
                        same,
                        speaks_for-new_eq m media_type same,
                        count_where-exists (speaks_for media_type) rows new,
                      )
                      (omega arith)
                | inr other ↦ rw other (omega (arith, h m))
              ])
      ]
