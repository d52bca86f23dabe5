-- ===== src/Lib.antt =====
-- Elidune server: the circulation of a library, its mails, its statistics queries and its background
-- tasks.
--
-- The program is an HTTP server over a PostgreSQL database. Its handlers (src/api) check the claims
-- of the signed-in user (src/models/user.rs) and call services (src/services), which apply the rules
-- of the house and call the methods of `Repository` (src/repository), which send SQL statements. An
-- error of any layer is an `AppError` (src/error.rs) and ends as an HTTP response and an audit entry.
--
-- Parts and files:
--   Prelude   names passed on, Boolean tests, signed integers (Prelude/Int), and SQL statements as
--             functions on the list of a table's rows (Prelude/Table)
--   Error     `AppError`, `AppResult`; Error/Http: `http_fields`, `into_response`, `audit_http_fields`
--   Enums     the enumerations of src/models/enums.rs with their numeric codes, and `MediaType` of
--             src/models/biblio.rs
--   Rights    `Rights`, `User`, `can_borrow`; Rights/Claims: `UserClaims` and its `require_` checks
--   Db        the tables of circulation as one record, and the monad of calls: a state passed on, an
--             error that keeps what was written, `transaction` that undoes it
--   Holds     src/repository/holds.rs and src/services/holds.rs, by the names of the methods
--   Loans     Loans/Settings: `resolve_loan_settings` and the upsert of
--             src/repository/loans/settings.rs; Loans/Checkout, Loans/Return, Loans/Renew:
--             `loans_create`, `loans_return`, `loans_renew` of src/repository/loans/mutations.rs;
--             Loans/Service: the methods of `LoansService` (src/services/loans.rs)
--   Fines     src/services/fines.rs and src/repository/fines.rs; Fines/Accrual and Fines/Payment
--   Outbox    src/services/email_outbox.rs: `process_outbox_batch` as a fold over the rows that the
--             batch read, with the statements of src/repository/email_outbox.rs
--   Stats     the statistics queries of src/services/stats: Stats/Schema and Stats/Union
--             (schema.rs), Stats/Validator (validator.rs), Stats/JoinGraph (join_graph.rs) and
--             Stats/Conditions with Stats/Builder (query_builder.rs), over the request of
--             src/models/stats_builder.rs (Stats/Body); a statement is a list of pieces (Stats/Sql),
--             `text_of` writes it out, and Stats/Sql/Quotes reads the text with its double quotes
--   Tasks     src/services/task_manager.rs with src/models/task.rs and src/api/tasks.rs: one step of
--             a task's future, the end of a write to Redis, an eviction or an expiry is an event
--             (Tasks/Events), and a run is any sequence of events of all the tasks
--   Reminders src/services/reminders.rs with the selection of src/repository/loans/reminders.rs,
--             `enqueue_overdue_reminder` of src/email.rs and `substitute` of src/email_templates.rs
--   Scheduler `duration_until_next_send` of src/services/scheduler.rs, on times of day without changes
--             of the local clock
--   Examples  a small library on which the theorems are applied
--
-- The service calls the repository's three methods; checkout calls the return (with `force`) and
-- reads the queue; the return wakes the queue. Loans/Service/History runs all of them in sequence,
-- one call after the other, and Loans/RoundTrip a checkout with its return.
--
-- A batch of reminders writes the tables that the outbox drains. A statistics query is validated,
-- its joins and fields are resolved against the whitelist, and its statement is built from them.
--
-- Bounds: identifiers are natural numbers, SMALLINT and INTEGER columns are integers, and instants
-- are integers in seconds (a time of day is in nanoseconds); their machine limits are not modelled,
-- except the INTEGER range of a hold's position and the sum of the filter clauses of a query, which
-- saturates. Money is an integer of the smallest unit. Only the digits of a number are written with
-- fuel, one more than the number, which has no more digits than that; the other loops run over the
-- rows that were read, the request, the text or the body of a task.
--
-- Not modelled: the connection's own failures; concurrent sessions, so that every statement sees
-- what the one before it wrote (the events of background tasks do interleave, with ids that are
-- new); the texts of mails other than reminders, the listings and the MARC export; and the other
-- parts of the server: the catalogue, inventory, the fixed statistics and the execution of
-- statistics queries, search and import, users and sign-in, maintenance, configuration and the HTTP
-- handlers. Arguments are the clock, the pickup window, new identifiers, the JSON values of a query
-- and of a task, the JSON reader and writer, the mail server, the templates, the format of dates, and
-- the defaults of the table of fines, for which there is no migration.
pub mod Prelude
pub mod Error
pub mod Enums
pub mod Rights
pub mod Db
pub mod Holds
pub mod Loans
pub mod Fines
pub mod Outbox
pub mod Stats
pub mod Tasks
pub mod Scheduler
pub mod Reminders
pub mod Examples
