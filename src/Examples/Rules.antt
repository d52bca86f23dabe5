-- ===== src/Examples/Rules.antt =====
-- The theorems on queues, loan rules, rights and errors at work.
use elidune_server.Prelude.{ℕ, ◌+◌, ◌≡◌, refl, true, ◌⊎◌, ◌↔◌, none, some, List, [], ◌∷◌, ◌++◌}
use elidune_server.Prelude.Int.{pos}
use elidune_server.Prelude.Table.{All, count_where}
use elidune_server.Error.{
  ok, err, IsOk, literal, not_found, hold_not_found, duplicate_barcode_needs_confirmation,
}
use elidune_server.Error.Http.{
  audit_http_fields, seen_by_client, into_response, audit-matches-response,
}
use elidune_server.Rights.{own, read, write, librarian, admin}
use elidune_server.Rights.Claims.{UserClaims, require_self_or_staff}
use elidune_server.Rights.Claims.Access.{personal_access}
use elidune_server.Db.{Hold, pending}
use elidune_server.Holds.{
  active_on, pending_on, holds_notify_next_tx, cancel, holds_expire_overdue, place_hold, CreateHold,
}
use elidune_server.Holds.Queue.{Readies, notify_next_tx_lem, place_hold-last}
use elidune_server.Holds.Lifecycle.{cancel_lem, expire_overdue_lem, Missed, Expires}
use elidune_server.Loans.Settings.{
  at_due_date, field_of, resolve_loan_settings, loans_settings_upsert_row,
}
use elidune_server.Loans.Settings.Precedence.{resolve_precedence, first_answer, answers, candidates}
use elidune_server.Loans.Settings.Upsert.{upsert-resolve}
use elidune_server.Holds.Order.{IsUpTo}
use elidune_server.Examples.{waiting, library, library-IsSound}

notify_next_tx_lem_example :
    ((count_where (pending_on 11) library.holds ≡ 0)
      × (holds_notify_next_tx (pos 300) (pos 7) 11 library ≡ (ok none, library)))
    ⊎ ((h : Hold) × Readies (pos 300) (pos 7) 11 library h)
notify_next_tx_lem_example =
    notify_next_tx_lem (pos 300) (pos 7) 11 library library-IsSound.unique_holds

cancel_lem_example : cancel 9 1 true library ≡ (err (not_found (hold_not_found 9)), library)
cancel_lem_example = (cancel_lem 9 1 true library).0 refl

expire_overdue_lem_example :
    (ids : List ℕ) × (hs : List Hold) × (holds_expire_overdue (pos 300) library
      ≡ (ok ids, record library { holds = hs }))
    × Expires (pos 300) library.holds hs ids
    × All (λ k. ¬ Missed (pos 300) k) hs
expire_overdue_lem_example = expire_overdue_lem (pos 300) library

resolve_precedence_example :
    (resolve_loan_settings none (some "b") library).duration
    ≡ first_answer
        (pos 21)
        (answers (field_of (λ s. s.duration)) (candidates none (some "b") library))
resolve_precedence_example = (resolve_precedence none (some "b") library).0

upsert-resolve_example :
    (resolve_loan_settings none (some "b") (record library {
      loans_settings =
          loans_settings_upsert_row
            (some "b")
            (pos 4)
            (pos 1)
            (pos 14)
            at_due_date
            library.loans_settings;
    })).duration
    ≡ pos 14
upsert-resolve_example = (upsert-resolve (pos 4) (pos 1) (pos 14) at_due_date "b" library).0

abbrev clerk : UserClaims
clerk = record {
  user_id = 5;
  account_type = librarian;
  rights = record {
    items_rights = read;
    users_rights = read;
    loans_rights = write;
    holds_rights = own;
    settings_rights = read;
    events_rights = read;
  };
  token_version = 0;
  scope = none;
}

personal_access_example :
    IsOk (require_self_or_staff clerk 1)
    ↔ ((clerk.user_id ≡ 1) ⊎ ((clerk.account_type ≡ librarian) ⊎ (clerk.account_type ≡ admin)))
personal_access_example = (personal_access clerk 1).0

audit-matches-response_example :
    audit_http_fields (duplicate_barcode_needs_confirmation 4 (literal "in use"))
    ≡ seen_by_client (into_response (duplicate_barcode_needs_confirmation 4 (literal "in use")))
audit-matches-response_example =
    audit-matches-response (duplicate_barcode_needs_confirmation 4 (literal "in use"))

abbrev new_request : CreateHold
new_request = record { user_id = 2; item_id = 10; notes = none }

abbrev placed_hold : Hold
placed_hold = record (waiting 200 2 10 2 pending) { created_at = pos 300 }

place_hold-last_example : (last : ℕ) × (2 ≡ last + 1) × IsUpTo (active_on 10) last library.holds
unfolding place_hold
place_hold-last_example =
    let (table, state, patron, item, none_before, behind) =
      place_hold-last 200 (pos 300) new_request library
        (record library { holds = library.holds ++ placed_hold ∷ [] }) placed_hold refl in
    behind
