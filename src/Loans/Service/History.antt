-- ===== src/Loans/Service/History.antt =====
-- The circulation desk over time: sequences of calls, whoever makes them.
use elidune_server.Prelude.{ℕ, sym, subst, String, List, [], ◌∷◌}
use elidune_server.Prelude.Int.{ℤ}
use elidune_server.Rights.{DateTime}
use elidune_server.Db.{Db, lift}
use elidune_server.Db.Laws.{>>=-keeps}
use elidune_server.Holds.Duplicates.{Call, step}
use elidune_server.Holds.Frame.{step-UniqueIds, step_only_holds}
use elidune_server.Loans.Rows.{loans_get_by_id, loans_get_by_item_identification}
use elidune_server.Loans.Return.{loans_return}
use elidune_server.Loans.Renew.{loans_renew}
use elidune_server.Loans.Sound.{IsSound}
use elidune_server.Loans.Return.Soundness.{return-IsSound}
use elidune_server.Loans.Renew.Policy.{renew-IsSound}
use elidune_server.Loans.Checkout.{CreateLoan, loans_create}
use elidune_server.Loans.Checkout.Invariant.{create-IsSound}
use elidune_server.Loans.Service.{
  users_get_by_id, patron_checks, renewal_check, create_loan, return_loan, return_loan_by_item,
  renew_loan, renew_loan_by_item,
}

-- One call of the service, at an instant and with the pickup window of that time; or a call on the
-- queues.
pub data Visit : Type 0 where
  checkout : DateTime → ℤ → CreateLoan → Visit
  hand_in : DateTime → ℤ → ℕ → Visit
  hand_in_by_item : DateTime → ℤ → String → Visit
  extend : DateTime → ℕ → Visit
  extend_by_item : DateTime → String → Visit
  on_queue : Call → Visit

pub visit : Visit → Db → Db
visit (checkout now ready_days d) db = (create_loan now ready_days d db).1
visit (hand_in now ready_days id) db = (return_loan now ready_days id db).1
visit (hand_in_by_item now ready_days s) db = (return_loan_by_item now ready_days s db).1
visit (extend now id) db = (renew_loan now id db).1
visit (extend_by_item now s) db = (renew_loan_by_item now s db).1
visit (on_queue c) db = step c db

pub history : List Visit → Db → Db
unfolding visit
history [] db = db
history (v ∷ vs) db = history vs (visit v db)

queue-IsSound : (c : Call) (db : Db) → IsSound db → IsSound (step c db)
queue-IsSound c db s = subst IsSound (sym (step_only_holds c db)) (record {
  unique_ids = s.unique_ids;
  fresh_ids = s.fresh_ids;
  lent_once = s.lent_once;
  unique_holds = step-UniqueIds c db s.unique_holds;
})

-- Every call keeps the tables sound, also when it fails.
pub visit-IsSound : (v : Visit) (db : Db) → IsSound db → IsSound (visit v db)
unfolding visit create_loan return_loan return_loan_by_item renew_loan renew_loan_by_item
    loans_get_by_item_identification
visit-IsSound (checkout now ready_days d) db s =
    >>=-keeps IsSound (users_get_by_id d.user_id) _ db s (λ user found.
      >>=-keeps IsSound (lift (patron_checks now d.force user)) _ db s (λ done passed.
        >>=-keeps IsSound (loans_create now ready_days d) _ db
          (create-IsSound now ready_days d db s) (λ o made. create-IsSound now ready_days d db s)))
visit-IsSound (hand_in now ready_days id) db s =
    >>=-keeps IsSound (loans_return now ready_days id) _ db (return-IsSound now ready_days id db s)
      (λ o made. return-IsSound now ready_days id db s)
visit-IsSound (hand_in_by_item now ready_days code) db s =
    >>=-keeps IsSound (loans_get_by_item_identification code) _ db s (λ loan found.
      >>=-keeps IsSound (loans_return now ready_days loan.id) _ db
        (return-IsSound now ready_days loan.id db s)
        (λ o made. return-IsSound now ready_days loan.id db s))
visit-IsSound (extend now id) db s = >>=-keeps IsSound (loans_get_by_id id) _ db s (λ loan found.
    >>=-keeps IsSound (users_get_by_id loan.user_id) _ db s (λ user known.
      >>=-keeps IsSound (lift (renewal_check user)) _ db s
        (λ done passed. renew-IsSound now id db s)))
visit-IsSound (extend_by_item now code) db s =
    >>=-keeps IsSound (loans_get_by_item_identification code) _ db s (λ loan found.
      >>=-keeps IsSound (loans_renew now loan.id) _ db (renew-IsSound now loan.id db s)
        (λ o made. renew-IsSound now loan.id db s))
visit-IsSound (on_queue c) db s = queue-IsSound c db s

-- From sound tables no sequence of calls, made one after the other, failed and forced ones
-- included, leads to tables that are not sound: so no copy is on two open loans afterwards.
pub history-IsSound : (vs : List Visit) (db : Db) → IsSound db → IsSound (history vs db)
unfolding history
history-IsSound [] db s = s
history-IsSound (v ∷ vs) db s = history-IsSound vs (visit v db) (visit-IsSound v db s)
