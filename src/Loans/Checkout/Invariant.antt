-- ===== src/Loans/Checkout/Invariant.antt =====
-- A checkout keeps the tables sound, also where it forces a return first.
use elidune_server.Prelude.{
  ℕ, ◌≡◌, refl, ap, sym, subst, inl, inr, Bool, true, false, none, some, List, [], ◌∷◌, arith,
  Option-cases,
}
use elidune_server.Prelude.Int.{ℤ}
use elidune_server.Prelude.Table.{
  select_first, count_where, count_where_eq_zero, update_where, count_where-append,
  count_where-update, count_where-update_none, select_first_by_key, select_first-IsRow,
  select_first_holds,
}
use elidune_server.Error.{ok, result_cases}
use elidune_server.Rights.{DateTime}
use elidune_server.Db.{Db, Loan, Hold, fulfilled, cancelled, transaction, reads}
use elidune_server.Holds.{
  has_id as has_hold_id, active_for, active_on, set_status, holds_fulfill_active_for_user_item_tx,
  holds_cancel_active_for_item_tx,
}
use elidune_server.Db.Laws.{>>=-keeps}
use elidune_server.Holds.Queue.{UniqueIds}
use elidune_server.Loans.Rows.{has_id, open_for_item}
use elidune_server.Loans.Sound.{IsSound}
use elidune_server.Loans.Return.{loans_return}
use elidune_server.Loans.Return.Soundness.{return-IsSound, return_frees, return-Closes}
use elidune_server.Loans.Checkout.Guards.{checks-ReadsOnly}
use elidune_server.Loans.Checkout.{
  CreateLoan, LoanCreateOutcome, resolve_item, release, release_found, new_loan, insert_loan,
  open_loan, loans_create, checkout_checks,
}

module _ (now : DateTime) (ready_days : ℤ) (item : ℕ) (db : Db) where
  -- The open loan that the lookup by copy finds is the one that the lookup by its id finds.
  pub found_by_id :
      (l : Loan)
      → IsSound db
      → select_first (open_for_item item) db.loans ≡ some l
      → select_first (has_id l.id) db.loans ≡ some l
  found_by_id l s e =
      select_first_by_key (has_id l.id) (has_id l.id) l db.loans
        (select_first-IsRow (open_for_item item) l db.loans e) (s.unique_ids l.id) (ground arith)
        (ground arith) (λ y h. h)

  release_state :
      (l : Loan)
      → (release_found now ready_days true (some l) db).1 ≡ (loans_return now ready_days l.id db).1
  release_state l = elim (result_cases (loans_return now ready_days l.id db).0) [
    | inl (o, e) ↦ ground (arith, e)
    | inr (o, e) ↦ ground (arith, e)
  ]

  pub open_loan_of :
      (l : Loan)
      → select_first (open_for_item item) db.loans ≡ some l
      → (l.item_id ≡ item) × (l.returned_at ≡ none)
  open_loan_of l e = elim (Option-cases l.returned_at) [
    | inl none' ↦ (ground (arith, select_first_holds (open_for_item item) db.loans e), none')
    | inr (t, back) ↦
        absurd (ground (arith, back, select_first_holds (open_for_item item) db.loans e))
  ]

  forced_lem :
      (force : Bool) (l : Loan)
      → select_first (open_for_item item) db.loans ≡ some l
      → IsSound db
      → IsSound (release_found now ready_days force (some l) db).1
        × ((release_found now ready_days force (some l) db).0 ≡ ok tt
            → count_where
                (open_for_item item)
                (release_found now ready_days force (some l) db).1.loans
              ≡ 0)
  forced_lem false l out s = (s, λ h. absurd (ground arith))
  forced_lem true l out s =
      let (same_item, lent) = open_loan_of l out in
      let (hs, c) =
        return-Closes now ready_days l.id db l s.unique_holds (found_by_id l s out) lent in
      let free = return_frees now ready_days l.id db l hs s c in
      let state = release_state l in
      (
        subst IsSound (sym state) (return-IsSound now ready_days l.id db s),
        λ h.
            subst (λ (d : Db). count_where (open_for_item item) d.loans ≡ 0) (sym state)
              (subst
                (λ i.
                  count_where (open_for_item i) (loans_return now ready_days l.id db).1.loans ≡ 0)
                same_item free),
      )

  -- After a successful release the copy is on no open loan.
  pub release_lem :
      (force : Bool)
      → IsSound db
      → IsSound (release now ready_days force item db).1
        × ((release now ready_days force item db).0 ≡ ok tt
            → count_where (open_for_item item) (release now ready_days force item db).1.loans ≡ 0)
  unfolding release
  release_lem force s = elim (Option-cases (select_first (open_for_item item) db.loans)) [
    | inl home ↦ rw home (s, λ h. count_where_eq_zero (open_for_item item) db.loans home)
    | inr (l, out) ↦ rw out (forced_lem force l out s)
  ]

module _ (now : DateTime) (item : ℕ) (db : Db) where
  opened-IsSound :
      (user : ℕ) (until : DateTime) (hs : List Hold)
      → UniqueIds hs
      → count_where (open_for_item item) db.loans ≡ 0
      → IsSound db
      → IsSound (record (insert_loan user item now until db) { holds = hs })
  opened-IsSound user until hs u home s = record {
    unique_ids = λ k. ground (
      arith,
      count_where-append (has_id k) db.loans (new_loan db.next_loan_id user item now until ∷ []),
      s.unique_ids k,
      s.fresh_ids k,
    );
    fresh_ids = λ k le. ground (
      arith,
      count_where-append (has_id k) db.loans (new_loan db.next_loan_id user item now until ∷ []),
      s.fresh_ids k,
    );
    lent_once = λ i. ground (
      arith,
      count_where-append (open_for_item i) db.loans
          (new_loan db.next_loan_id user item now until ∷ []),
      s.lent_once i,
    );
    unique_holds = u;
  }

module _ (now : DateTime) (item : ℕ) (db : Db) where
  -- The transaction of a checkout always goes through; all but the holds is `insert_loan`.
  pub open_loan_lem :
      (user : ℕ) (until : DateTime) (force : Bool)
      → UniqueIds db.holds
      → (o : LoanCreateOutcome) × (hs : List Hold) × UniqueIds hs
        × (open_loan now until force user item db
            ≡ (ok o, record (insert_loan user item now until db) { holds = hs }))
        × (force ≡ true → count_where (active_on item) hs ≡ 0)
  unfolding open_loan transaction holds_fulfill_active_for_user_item_tx
      holds_cancel_active_for_item_tx
  open_loan_lem user until true u = (
    record { loan_id = db.next_loan_id; expiry_at = until; fulfilled_hold_id = none },
    update_where (active_on item) (set_status cancelled) db.holds,
    λ k.
        rw
          (count_where-update (has_hold_id k) (active_on item) (set_status cancelled) db.holds
            (λ h. refl))
          (u k),
    refl,
    λ e.
        count_where-update_none (active_on item) (active_on item) (set_status cancelled) db.holds
          (λ h e'. ground arith) (λ h e'. e'),
  )
  open_loan_lem user until false u = (
    _,
    update_where (active_for user item) (set_status fulfilled) db.holds,
    λ k.
        rw
          (count_where-update (has_hold_id k) (active_for user item) (set_status fulfilled) db.holds
            (λ h. refl))
          (u k),
    refl,
    λ e. absurd (ground arith),
  )

  opened :
      (user : ℕ) (until : DateTime) (force : Bool)
      → count_where (open_for_item item) db.loans ≡ 0
      → IsSound db
      → IsSound (open_loan now until force user item db).1
  opened user until force free s =
      let (o, hs, u, e, none_left) = open_loan_lem user until force s.unique_holds in
      subst IsSound (sym (ap (λ p. p.1) e)) (opened-IsSound now item db user until hs u free s)

module _ (now : DateTime) (ready_days : ℤ) (d : CreateLoan) (db : Db) where
  -- A checkout keeps the tables sound, however it ends.
  pub create-IsSound : IsSound db → IsSound (loans_create now ready_days d db).1
  unfolding loans_create
  create-IsSound s =
      >>=-keeps IsSound (reads (resolve_item d.item_id d.item_identification)) _ db s (λ item named.
        let (kept, free) = release_lem now ready_days item db d.force s in
        >>=-keeps IsSound (release now ready_days d.force item) _ db kept (λ done back.
          let mid = (release now ready_days d.force item db).1 in
          let same = checks-ReadsOnly now d.user_id item mid d.force in
          >>=-keeps IsSound (checkout_checks now d.force d.user_id item) _ mid
            (subst IsSound (sym same) kept)
            (λ until passed.
              subst (λ (x : Db). IsSound (open_loan now until d.force d.user_id item x).1)
                (sym same) (opened now item mid d.user_id until d.force (free back) kept))))
