-- ===== src/Loans/Return/Soundness.antt =====
-- A return keeps the tables sound, frees the copy and loses no loan.
use elidune_server.Prelude.{
  ℕ, ◌+◌, ◌<◌, ◌≡◌, refl, ap, sym, subst, ◌⊎◌, inl, inr, none, some, List, [], ◌∷◌, arith,
  Option-cases,
}
use elidune_server.Prelude.Int.{ℤ}
use elidune_server.Prelude.Table.{
  select_first, count_where, count_where-delete_le, count_where-delete_lt, select_first_holds,
  length, length-append, length-delete_where, select_first_count,
}
use elidune_server.Rights.{DateTime}
use elidune_server.Db.{Db, Loan, Hold}
use elidune_server.Holds.Queue.{UniqueIds, notify_next_tx-UniqueIds}
use elidune_server.Loans.Rows.{has_id, open_for_item, user_row}
use elidune_server.Loans.Sound.{IsSound}
use elidune_server.Loans.Return.{archive_of, archive_loan, loans_return}
use elidune_server.Loans.Return.Laws.{return_refused, return_outcome}

module _ (now : DateTime) (ready_days : ℤ) (id : ℕ) (db : Db) where
  abbrev after : Db
  after = (loans_return now ready_days id db).1

  archived-IsSound :
      (loan : Loan) (hs : List Hold)
      → IsSound db
      → UniqueIds hs
      → IsSound (record (archive_loan now loan db) { holds = hs })
  archived-IsSound loan hs s u = record {
    unique_ids = λ k.
        omega (arith, s.unique_ids k, count_where-delete_le (has_id k) (has_id loan.id) db.loans);
    fresh_ids = λ k le.
        omega (arith, s.fresh_ids k le, count_where-delete_le (has_id k) (has_id loan.id) db.loans);
    lent_once = λ i.
        omega
          (arith, s.lent_once i, count_where-delete_le (open_for_item i) (has_id loan.id) db.loans);
    unique_holds = u;
  }

  -- The call wrote nothing, or closed the loan that it found.
  pub record Closes (loan : Loan) (hs : List Hold) : Type 0 where
    pub found : select_first (has_id id) db.loans ≡ some loan
    pub lent : loan.returned_at ≡ none
    pub unique : UniqueIds hs
    pub state : after ≡ record (archive_loan now loan db) { holds = hs }

  -- An open loan that is found is closed.
  pub return-Closes :
      (loan : Loan)
      → UniqueIds db.holds
      → select_first (has_id id) db.loans ≡ some loan
      → loan.returned_at ≡ none
      → (hs : List Hold) × Closes loan hs
  return-Closes loan u found lent =
      let (r, hs, told, state, good, bad) = return_outcome now ready_days db id loan u found lent in
      (
        hs,
        record {
          found = found;
          lent = lent;
          unique =
              subst (λ (d : Db). UniqueIds d.holds) (ap (λ p. p.1) told)
                (notify_next_tx-UniqueIds now ready_days loan.item_id (archive_loan now loan db) u);
          state = state;
        },
      )

  pub return_cases :
      UniqueIds db.holds → (after ≡ db) ⊎ ((loan : Loan) × (hs : List Hold) × Closes loan hs)
  return_cases u = elim (Option-cases (select_first (has_id id) db.loans)) [
    | inl nothing ↦ inl (ap (λ p. p.1) ((return_refused now ready_days db id).0 nothing))
    | inr (loan, found) ↦ elim (Option-cases loan.returned_at) [
      | inr (t, closed) ↦
          inl (ap (λ p. p.1) ((return_refused now ready_days db id).1 loan found (rw closed refl)))
      | inl lent ↦ let (hs, c) = return-Closes loan u found lent in inr (loan, hs, c)
    ]
  ]

  -- The tables stay sound, however the call ends.
  pub return-IsSound : IsSound db → IsSound after
  return-IsSound s = elim (return_cases s.unique_holds) [
    | inl same ↦ subst IsSound (sym same) s
    | inr (loan, hs, c) ↦ subst IsSound (sym c.state) (archived-IsSound loan hs s c.unique)
  ]

  -- The copy that came back is on no open loan.
  pub return_frees :
      (loan : Loan) (hs : List Hold)
      → IsSound db
      → Closes loan hs
      → count_where (open_for_item loan.item_id) after.loans ≡ 0
  return_frees loan hs s c =
      subst (λ (d : Db). count_where (open_for_item loan.item_id) d.loans ≡ 0) (sym c.state)
        (omega (
          arith,
          s.lent_once loan.item_id,
          count_where-delete_lt (has_id id) (has_id loan.id) (open_for_item loan.item_id) db.loans
              c.found (ground arith) (ground (arith, c.lent)),
        ))

  -- On sound tables no return loses a loan: the open and the archived loans together are as many
  -- as before, however the call ends.
  pub return_conserves :
      IsSound db
      → length after.loans + length after.loans_archives
        ≡ length db.loans + length db.loans_archives
  return_conserves s = elim (return_cases s.unique_holds) [
    | inl same ↦ rw same refl
    | inr (loan, hs, c) ↦
        let same_id : loan.id ≡ id =
          ground (arith, select_first_holds (has_id id) db.loans c.found) in
        let there : 0 < count_where (has_id loan.id) db.loans =
          rw same_id (select_first_count (has_id id) db.loans loan c.found) in
        subst
          (λ (d : Db).
            length d.loans + length d.loans_archives ≡ length db.loans + length db.loans_archives)
          (sym c.state)
          (omega (
            arith,
            s.unique_ids loan.id,
            length-append db.loans_archives (archive_of now loan (user_row loan.user_id db) ∷ []),
            length-delete_where (has_id loan.id) db.loans,
            there,
          ))
  ]
