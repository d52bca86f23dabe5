-- ===== src/Loans/Checkout/Effect.antt =====
-- What `force` does: the copy is taken back, and every check and hold gives way.
use elidune_server.Prelude.{
  ℕ, ◌≡◌, refl, ap, inl, inr, String, Bool, ◌&&◌, if◌then◌else◌, true, false, Option, none, some,
  List, [], ◌∷◌, arith, Option-cases,
}
use elidune_server.Prelude.Int.{ℤ}
use elidune_server.Prelude.Table.{
  select_first, count_where, count_where-append, count_where-update_none,
}
use elidune_server.Error.{ok, fail_if, AppError}
use elidune_server.Rights.{DateTime}
use elidune_server.Db.{Db, Loan, LoanArchive, Hold, Item, Biblio, cancelled}
use elidune_server.Holds.{active_on, set_status}
use elidune_server.Loans.Rows.{open_for_item, item_biblio, public_type_of}
use elidune_server.Loans.Settings.{resolve_loan_settings}
use elidune_server.Loans.Sound.{IsSound}
use elidune_server.Loans.Return.{archive_loan}
use elidune_server.Loans.Return.Laws.{return_outcome}
use elidune_server.Loans.Checkout.{
  CreateLoan, resolve_item, release, new_loan, check_limits, check_queue, checkout_checks,
  loans_create,
}
use elidune_server.Loans.Checkout.Guards.{due}
use elidune_server.Loans.Checkout.Invariant.{release_lem, found_by_id, open_loan_of}

-- A check that `force` waives.
waived : (b : Bool) (e : AppError) → fail_if (b && false) e ≡ ok tt
waived b e = ground arith

abbrev with_tables : Db → List Loan → List LoanArchive → List Hold → Db
with_tables db ls old hs = record db { loans = ls; loans_archives = old; holds = hs }

-- The rules do not depend on what is lent.
same_rules :
    (db : Db) (ls : List Loan) (old : List LoanArchive) (hs : List Hold) (pt : Option ℕ)
    (mt : Option String)
    → resolve_loan_settings pt mt (with_tables db ls old hs) ≡ resolve_loan_settings pt mt db
unfolding resolve_loan_settings
same_rules db ls old hs none none = refl
same_rules db ls old hs none (some mt) = refl
same_rules db ls old hs (some pt) none = refl
same_rules db ls old hs (some pt) (some mt) = refl

module _ (now : DateTime) (ready_days : ℤ) (item : ℕ) (row : Item × Biblio) (db : Db) where
  -- A forced release succeeds.
  release_forced :
      IsSound db
      → item_biblio item db ≡ some row
      → (ls : List Loan) × (old : List LoanArchive) × (hs : List Hold) × (release now ready_days
            true item db
          ≡ (ok tt, with_tables db ls old hs))
  unfolding release
  release_forced s joined = elim (Option-cases (select_first (open_for_item item) db.loans)) [
    | inl home ↦ (db.loans, db.loans_archives, db.holds, rw home refl)
    | inr (l, out) ↦
        let (same_item, lent) = open_loan_of now ready_days item db l out in
        let (r, hs, told, state, good, bad) =
          return_outcome now ready_days db l.id l s.unique_holds
            (found_by_id now ready_days item db l s out) lent in
        (
          (archive_loan now l db).loans,
          (archive_loan now l db).loans_archives,
          hs,
          rw out (ground (arith, good row (rw same_item joined), state)),
        )
  ]

  -- With `force` only a copy without a record is refused.
  checks_forced :
      (user : ℕ) (ls : List Loan) (old : List LoanArchive) (hs : List Hold)
      → item_biblio item db ≡ some row
      → checkout_checks now true user item (with_tables db ls old hs)
        ≡ (ok (due now user item db row), with_tables db ls old hs)
  unfolding checkout_checks check_limits check_queue
  checks_forced user ls old hs joined =
      rw
        (
          joined,
          waived (if (row.0).borrowable then false else true),
          waived,
          same_rules db ls old hs (public_type_of user db) (row.1).media_type,
        )
        refl

module _ (now : DateTime) (ready_days : ℤ) (d : CreateLoan) (db : Db) where
  -- On sound tables a checkout with `force` of a copy that has a record always succeeds: afterwards
  -- the copy is on exactly one open loan and no hold on it is active. A loan that was open is
  -- returned first.
  pub forced_checkout :
      (item : ℕ) (row : Item × Biblio)
      → IsSound db
      → d.force ≡ true
      → resolve_item d.item_id d.item_identification db ≡ ok item
      → item_biblio item db ≡ some row
      → ((loans_create now ready_days d db).0
          ≡ ok (record {
            loan_id = db.next_loan_id;
            expiry_at = due now d.user_id item db row;
            fulfilled_hold_id = none;
          }))
        × (count_where (open_for_item item) (loans_create now ready_days d db).1.loans ≡ 1)
        × (count_where (active_on item) (loans_create now ready_days d db).1.holds ≡ 0)
  unfolding loans_create
  forced_checkout item row s forced named joined =
      let (ls, old, hs, freed) = release_forced now ready_days item row db s joined in
      let until = due now d.user_id item db row in
      let back = (release_lem now ready_days item db true s).1 (ap (λ p. p.0) freed) in
      let passed = checks_forced now ready_days item row db d.user_id ls old hs joined in
      (
        rw (named, forced, freed, passed) refl,
        rw (named, forced, freed, passed)
            (ground (
              arith,
              back,
              freed,
              count_where-append (open_for_item item) ls
                  (new_loan db.next_loan_id d.user_id item now until ∷ []),
            )),
        rw (named, forced, freed, passed)
            (count_where-update_none (active_on item) (active_on item) (set_status cancelled) hs
              (λ h e. ground arith) (λ h e. e)),
      )
