-- ===== src/Loans/Settings.antt =====
-- The loan rules (src/repository/loans/settings.rs): `resolve_loan_settings` and the rows of
-- `loans_settings`, with the renewal policy of src/models/loan.rs.
pub mod Precedence
pub mod Upsert
use elidune_server.Prelude.{
  ℕ, String, str_eq, Bool, true, false, ◌&&◌, Option, none, some, List, [], ◌∷◌, ◌++◌, ◌==◌,
  if◌then◌else◌, unwrap_or, or_else, and_then, is_none,
}
use elidune_server.Prelude.Int.{ℤ, pos}
use elidune_server.Prelude.Table.{select_first, exists_where, update_where}
use elidune_server.Db.{Db, LoanSettingsRow}

pub data LoanSettingsRenewAt : Type 0 where
  now at_due_date : LoanSettingsRenewAt

pub as_db_str : LoanSettingsRenewAt → String
as_db_str now = "now"
as_db_str at_due_date = "at_due_date"

unfoldable pub renew_at_from_str : String → LoanSettingsRenewAt
renew_at_from_str s = if str_eq s "at_due_date" then at_due_date else now

pub record Resolved : Type 0 where
  pub duration : ℤ
  pub nb_max_media : ℤ
  pub nb_max_total : ℤ
  pub nb_renews : ℤ
  pub renew_at : LoanSettingsRenewAt

-- `media_type = $1`, which is not true of a null
abbrev pub is_for : String → LoanSettingsRow → Bool
is_for mt r = elim r.media_type [ none ↦ false | some m ↦ str_eq m mt ]

-- `media_type IS NULL`
abbrev pub is_default : LoanSettingsRow → Bool
is_default r = is_none r.media_type

abbrev pub row_of : Option (ℕ × LoanSettingsRow) → Option LoanSettingsRow
row_of none = none
row_of (some (pt, r)) = some r

-- The four rows that may speak, from the most specific to the most general.
abbrev pub ptls_spec : Option ℕ → Option String → Db → Option LoanSettingsRow
ptls_spec (some pt) (some mt) db =
    row_of (select_first (λ r. (r.0 == pt) && is_for mt r.1) db.public_type_loan_settings)
ptls_spec none mt db = none
ptls_spec (some pt) none db = none

abbrev pub ptls_default : Option ℕ → Db → Option LoanSettingsRow
ptls_default (some pt) db =
    row_of (select_first (λ r. (r.0 == pt) && is_default r.1) db.public_type_loan_settings)
ptls_default none db = none

abbrev pub ls_spec : Option String → Db → Option LoanSettingsRow
ls_spec (some mt) db = select_first (is_for mt) db.loans_settings
ls_spec none db = none

abbrev pub ls_default : Db → Option LoanSettingsRow
ls_default db = select_first is_default db.loans_settings

abbrev pub field_of :
    {A : Type 0} → (LoanSettingsRow → Option A) → Option LoanSettingsRow → Option A
field_of f row = and_then row f

abbrev pub pick_renew : Option LoanSettingsRow → Option LoanSettingsRenewAt
pick_renew row = elim (field_of (λ r. r.renew_at) row) [
  | none ↦ none
  | some s ↦ some (renew_at_from_str s)
]

unfoldable pub resolve_loan_settings : Option ℕ → Option String → Db → Resolved
unfolding renew_at_from_str
resolve_loan_settings user_public_type media_type db =
    let p_spec = ptls_spec user_public_type media_type db in
    let p_default = ptls_default user_public_type db in
    let l_spec = ls_spec media_type db in
    let l_default = ls_default db in
    record {
      duration = unwrap_or (pos 21) (
          or_else (field_of (λ r. r.duration) p_spec) (
            or_else (field_of (λ r. r.duration) p_default) (
              or_else (field_of (λ r. r.duration) l_spec) (field_of (λ r. r.duration) l_default))));
      nb_max_media =
          unwrap_or (pos 5)
            (or_else (field_of (λ r. r.nb_max) p_spec) (field_of (λ r. r.nb_max) l_spec));
      nb_max_total =
          unwrap_or (pos 5)
            (or_else (field_of (λ r. r.nb_max) p_default) (field_of (λ r. r.nb_max) l_default));
      nb_renews = unwrap_or (pos 2) (
          or_else (field_of (λ r. r.nb_renews) p_spec) (
            or_else (field_of (λ r. r.nb_renews) p_default) (
              or_else (field_of (λ r. r.nb_renews) l_spec)
                (field_of (λ r. r.nb_renews) l_default))));
      renew_at = unwrap_or now (
          or_else (pick_renew p_spec)
            (or_else (pick_renew p_default) (or_else (pick_renew l_spec) (pick_renew l_default))));
    }

abbrev pub speaks_for : Option String → LoanSettingsRow → Bool
speaks_for none = is_default
speaks_for (some mt) = is_for mt

abbrev set_rule : ℤ → ℤ → ℤ → LoanSettingsRenewAt → LoanSettingsRow → LoanSettingsRow
set_rule nb_max nb_renews duration renew_at r = record r {
  nb_max = some nb_max;
  nb_renews = some nb_renews;
  duration = some duration;
  renew_at = some (as_db_str renew_at);
}

abbrev new_rule : Option String → ℤ → ℤ → ℤ → LoanSettingsRenewAt → LoanSettingsRow
new_rule media_type nb_max nb_renews duration renew_at = record {
  media_type = media_type;
  nb_max = some nb_max;
  nb_renews = some nb_renews;
  duration = some duration;
  renew_at = some (as_db_str renew_at);
}

-- An update, and an insert if it met no row.
pub loans_settings_upsert_row :
    Option String → ℤ → ℤ → ℤ → LoanSettingsRenewAt → List LoanSettingsRow → List LoanSettingsRow
unfolding as_db_str
loans_settings_upsert_row media_type nb_max nb_renews duration renew_at rows =
    if exists_where (speaks_for media_type) rows
    then update_where (speaks_for media_type) (set_rule nb_max nb_renews duration renew_at) rows
    else rows ++ new_rule media_type nb_max nb_renews duration renew_at ∷ []

pub record LoanSettingsDto : Type 0 where
  pub media_type : Option String
  pub max_loans : ℤ
  pub max_renewals : ℤ
  pub duration_days : ℤ
  pub renew_at : LoanSettingsRenewAt

upsert_all : List LoanSettingsDto → List LoanSettingsRow → List LoanSettingsRow
unfolding loans_settings_upsert_row
upsert_all [] rows = rows
upsert_all (s ∷ ss) rows = upsert_all ss (
    loans_settings_upsert_row s.media_type s.max_loans s.max_renewals s.duration_days s.renew_at
      rows)

-- `LoansService::update_global_loan_settings`, up to the reading of the result: all rows are
-- deleted first.
pub update_global_loan_settings : Option (List LoanSettingsDto) → Db → Db
unfolding upsert_all
update_global_loan_settings none db = record db { loans_settings = [] }
update_global_loan_settings (some settings) db = record db {
  loans_settings = upsert_all settings [];
}
