-- ===== src/Examples/Desk.antt =====
-- The circulation theorems at work in the small library.
use elidune_server.Prelude.{
  ℕ, ◌+◌, ◌≡◌, refl, ap, true, false, ◌⊎◌, inl, inr, Option, none, some, List, [], ◌∷◌, arith,
}
use elidune_server.Prelude.Int.{pos, ◌+ℤ◌}
use elidune_server.Prelude.Table.{count_where, length}
use elidune_server.Error.{ok, err, AppError, literal, business_rule}
use elidune_server.Rights.{can_borrow, is_active}
use elidune_server.Db.{Item, Biblio, Hold}
use elidune_server.Holds.{eligible_borrower}
use elidune_server.Holds.Duplicates.{place, fulfill_active, run, NoDuplicates, run-NoDuplicates}
use elidune_server.Loans.Settings.{resolve_loan_settings}
use elidune_server.Loans.Rows.{open_for_item, loans_get_by_item_identification}
use elidune_server.Loans.Sound.{IsSound}
use elidune_server.Loans.Return.{loans_return}
use elidune_server.Loans.Return.Laws.{without_loan, answer, Woken, return_lem}
use elidune_server.Loans.Return.Soundness.{return_conserves}
use elidune_server.Loans.Renew.{loans_renew}
use elidune_server.Loans.Renew.Policy.{due_date, renew_lem}
use elidune_server.Loans.Checkout.{loans_create}
use elidune_server.Loans.Checkout.Guards.{Admits, due, lent_to, checkout_ok, checkout_refused}
use elidune_server.Loans.Checkout.Effect.{forced_checkout}
use elidune_server.Loans.Service.{create_loan, renew_loan}
use elidune_server.Loans.Service.Patrons.{create_refused, create_lem, renew_desk, can_borrow_lem}
use elidune_server.Loans.RoundTrip.{checkout-return}
use elidune_server.Loans.Service.History.{
  Visit, checkout, hand_in, extend, on_queue, history, history-IsSound,
}
use elidune_server.Examples.{
  ann, bob, eve, novel, copy_at_home, copy_lent, loan_of_bob, library, request, library-IsSound,
}

abbrev busy_day : List Visit
busy_day =
    checkout (pos 300) (pos 7) (request 1 10 false)
    ∷ checkout (pos 310) (pos 7) (request 1 11 true)
    ∷ extend (pos 320) 1
    ∷ hand_in (pos 400) (pos 7) 2
    ∷ on_queue (fulfill_active 1 11)
    ∷ []

history-IsSound_example : IsSound (history busy_day library)
history-IsSound_example = history-IsSound busy_day library library-IsSound

ann-Admits : Admits (pos 300) 1 10 library (copy_at_home, novel)
unfolding resolve_loan_settings eligible_borrower
ann-Admits = record {
  at_home = refl;
  joined = refl;
  lendable = refl;
  below_total = omega arith;
  below_media = omega arith;
  queue = inr refl;
}

checkout_ok_example : loans_create (pos 300) (pos 7) (request 1 10 false) library ≡ (
  ok (record {
    loan_id = 2;
    expiry_at = due (pos 300) 1 10 library (copy_at_home, novel);
    fulfilled_hold_id = some 100;
  }),
  lent_to (pos 300) 1 10 library (due (pos 300) 1 10 library (copy_at_home, novel)),
)
checkout_ok_example =
    checkout_ok (pos 300) (pos 7) (request 1 10 false) library 10 (copy_at_home, novel) refl refl
      ann-Admits

checkout_refused_example :
    ((item : ℕ) × (row : Item × Biblio) × (ok 11 ≡ ok item) × Admits (pos 300) 1 item library row)
    ⊎ ((e : AppError) × (loans_create (pos 300) (pos 7) (request 1 11 false) library
          ≡ (err e, library)))
checkout_refused_example = checkout_refused (pos 300) (pos 7) (request 1 11 false) library refl

forced_checkout_example :
    count_where
      (open_for_item 11)
      (loans_create (pos 300) (pos 7) (request 1 11 true) library).1.loans
    ≡ 1
forced_checkout_example =
    (forced_checkout (pos 300) (pos 7) (request 1 11 true) library 11 (copy_lent, novel)
      library-IsSound refl refl refl).1

no_duplicates : NoDuplicates library.holds
no_duplicates user item = ground arith

run-NoDuplicates_example :
    NoDuplicates
      (run
        (place 200 (pos 300) (record { user_id = 1; item_id = 11; notes = none })
          ∷ fulfill_active 1 11
          ∷ place 201 (pos 310) (record { user_id = 1; item_id = 11; notes = none })
          ∷ [])
        library).holds
run-NoDuplicates_example =
    run-NoDuplicates
      (place 200 (pos 300) (record { user_id = 1; item_id = 11; notes = none })
        ∷ fulfill_active 1 11
        ∷ place 201 (pos 310) (record { user_id = 1; item_id = 11; notes = none })
        ∷ [])
      library no_duplicates

return_conserves_example :
    length (loans_return (pos 300) (pos 7) 1 library).1.loans
      + length (loans_return (pos 300) (pos 7) 1 library).1.loans_archives
    ≡ 1
return_conserves_example = return_conserves (pos 300) (pos 7) 1 library library-IsSound

return_lem_example :
    (r : Option Hold) × (hs : List Hold) × Woken (pos 300) (pos 7) library 11 r hs
    × ((loans_return (pos 300) (pos 7) 1 library).1
        ≡ without_loan (pos 300) (pos 7) library loan_of_bob hs)
    × ((loans_return (pos 300) (pos 7) 1 library).0
        ≡ ok (record {
          details = answer (pos 300) (pos 7) library loan_of_bob (copy_lent, novel);
          readied_hold = r;
        }))
return_lem_example =
    let (r, hs, woken, same, state, good, bad) =
      return_lem (pos 300) (pos 7) library 1 loan_of_bob library-IsSound.unique_holds refl refl in
    (r, hs, woken, state, good (copy_lent, novel) refl)

renew_lem_example :
    (loans_renew (pos 300) 1 library).0
    ≡ ok (due_date (pos 300) 1 library loan_of_bob (copy_lent, novel), pos 0 +ℤ pos 1)
unfolding resolve_loan_settings
renew_lem_example =
    ap (λ p. p.0)
      (((renew_lem (pos 300) 1 library loan_of_bob (copy_lent, novel) refl refl refl).1
        (omega arith)).1)

create_refused_example :
    create_loan (pos 300) (pos 7) (request 3 10 true) library
    ≡ (err (business_rule (literal "Cannot create a loan for a deleted user account")), library)
create_refused_example =
    ((create_refused (pos 300) (pos 7) (request 3 10 true) library).1 eve refl).0 refl

create_lem_example :
    (create_loan (pos 300) (pos 7) (request 2 10 true) library).1
    ≡ (loans_create (pos 300) (pos 7) (request 2 10 true) library).1
create_lem_example =
    (create_lem (pos 300) (pos 7) (request 2 10 true) library bob refl (λ e. ground arith)
      (inl refl)).0

renew_desk_example : (e : AppError) × (renew_loan (pos 300) 1 library ≡ (err e, library))
unfolding can_borrow is_active loans_get_by_item_identification
renew_desk_example = (renew_desk (pos 300) library "A11" loan_of_bob bob refl refl refl).0 refl

can_borrow_lem_example : can_borrow ann ≡ true
can_borrow_lem_example = (can_borrow_lem ann).1 (refl, refl, λ e. ground arith)

checkout-return_example :
    (loans_return
      (pos 900)
      (pos 7)
      2
      (loans_create (pos 300) (pos 7) (request 1 10 false) library).1).1.loans
    ≡ loan_of_bob ∷ []
checkout-return_example =
    (checkout-return (pos 300) (pos 900) (pos 7) (request 1 10 false) library 10
      (copy_at_home, novel) library-IsSound refl refl ann-Admits).0
