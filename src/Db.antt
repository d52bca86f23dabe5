-- ===== src/Db.antt =====
-- The database: the tables that circulation reads and writes (migrations/001_initial_schema.sql
-- and later), and the calls on it. A call returns a value or an error, and the state that it
-- leaves: what a statement wrote before an error stays written, unless a transaction undoes it.
-- The connection itself never fails here: every statement is answered.
pub mod Laws
use elidune_server.Prelude.{ℕ, String, Bool, Option, none, some, List}
use elidune_server.Prelude.Int.{ℤ}
use elidune_server.Error.{AppError, Result, ok, err}
use elidune_server.Rights.{AccountTypeSlug, DateTime, User}

pub record Biblio : Type 0 where
  pub id : ℕ
  pub media_type : Option String

-- A physical copy; `biblio_id` may be null in the schema.
pub record Item : Type 0 where
  pub id : ℕ
  pub biblio_id : Option ℕ
  pub barcode : Option String
  pub borrowable : Bool

pub record Loan : Type 0 where
  pub id : ℕ
  pub user_id : ℕ
  pub item_id : ℕ
  pub date : DateTime
  pub renew_at : Option DateTime
  pub nb_renews : Option ℤ
  pub expiry_at : Option DateTime
  pub notes : Option String
  pub returned_at : Option DateTime

pub record LoanArchive : Type 0 where
  pub user_id : ℕ
  pub item_id : ℕ
  pub date : DateTime
  pub nb_renews : Option ℤ
  pub expiry_at : Option DateTime
  pub returned_at : Option DateTime
  pub notes : Option String
  pub borrower_public_type : Option ℕ
  pub addr_city : Option String
  pub account_type : Option AccountTypeSlug

pub data HoldStatus : Type 0 where
  pending ready fulfilled cancelled expired : HoldStatus

pub record Hold : Type 0 where
  pub id : ℕ
  pub user_id : ℕ
  pub item_id : ℕ
  pub created_at : DateTime
  pub notified_at : Option DateTime
  pub expires_at : Option DateTime
  pub status : HoldStatus
  pub position : ℕ
  pub notes : Option String

-- A row of `loans_settings`, or of `public_type_loan_settings` for one public type.
pub record LoanSettingsRow : Type 0 where
  pub media_type : Option String
  pub duration : Option ℤ
  pub nb_max : Option ℤ
  pub nb_renews : Option ℤ
  pub renew_at : Option String

pub record Db : Type 0 where
  pub users : List User
  pub biblios : List Biblio
  pub items : List Item
  pub loans : List Loan
  pub loans_archives : List LoanArchive
  pub holds : List Hold
  pub loans_settings : List LoanSettingsRow
  pub public_type_loan_settings : List (ℕ × LoanSettingsRow)
  -- the sequence behind `loans.id`
  pub next_loan_id : ℕ

-- A method that sends statements.
abbrev pub Action : Type 0 → Type 0
Action A = Db → Result A × Db

module _ {A : Type 0} where
  abbrev pub pure : A → Action A
  pure a db = (ok a, db)

  abbrev pub throw : AppError → Action A
  throw e db = (err e, db)

  -- A statement that only reads, with the check of its answer.
  abbrev pub reads : (Db → Result A) → Action A
  reads f db = (f db, db)

  abbrev pub lift : Result A → Action A
  lift r db = (r, db)

  abbrev ended : Db → Result A → Db → Result A × Db
  ended before (ok a) after = (ok a, after)
  ended before (err e) after = (err e, before)

  -- `begin … commit`: an error on the way rolls back what the block wrote.
  unfoldable pub transaction : Action A → Action A
  transaction m db = let (r, db') = m db in ended db r db'

abbrev pub modify : (Db → Db) → Action (Unit {0})
modify f db = (ok tt, f db)

module _ {A B : Type 0} where
  abbrev continue : Result A → (A → Action B) → Action B
  continue (ok a) f db = f a db
  continue (err e) f db = (err e, db)

  infixl 5 ◌>>=◌ ◌>>◌
  -- the `?` operator
  abbrev pub ◌>>=◌ : Action A → (A → Action B) → Action B
  ◌>>=◌ m f db = let (r, db') = m db in continue r f db'

  abbrev pub ◌>>◌ : Action A → Action B → Action B
  m >> n = m >>= λ _. n
