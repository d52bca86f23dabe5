-- ===== src/Rights/Claims.antt =====
-- The checks on a token's claims (src/models/user.rs, `UserClaims`): each returns `Ok(())` or an
-- authorization error. The text of the `sub` claim, `exp` and `iat` are read by the token library
-- only and are left out.
pub mod Access
use elidune_server.Prelude.{
  ℕ, ◌≡◌, String, str_eq, Bool, true, false, ◌||◌, Option, none, some, leb, ◌==◌, if◌then◌else◌,
}
use elidune_server.Error.{
  Message, literal, AppError, authentication, authorization, Result, ok, err,
}
use elidune_server.Rights.{
  Rights, none_, own, read, write, rank, AccountTypeSlug, guest, reader, librarian, admin, group,
}

pub record UserRights : Type 0 where
  pub items_rights : Rights
  pub users_rights : Rights
  pub loans_rights : Rights
  pub holds_rights : Rights
  pub settings_rights : Rights
  pub events_rights : Rights

pub record UserClaims : Type 0 where
  pub user_id : ℕ
  pub account_type : AccountTypeSlug
  pub rights : UserRights
  pub token_version : ℕ
  pub scope : Option String

abbrev allow_if : Bool → Message → Result Unit
allow_if true m = ok tt
allow_if false m = err (authorization m)

abbrev at_least : Rights → Rights → Bool
at_least needed held = leb (rank needed) (rank held)

abbrev is_own : Rights → Bool
is_own own = true
is_own none_ = false
is_own read = false
is_own write = false

module _ (c : UserClaims) where
  open c use {rights, user_id, account_type, token_version, scope}

  pub is_password_change_scope : Bool
  is_password_change_scope = elim scope [ none ↦ false | some s ↦ str_eq s "change_password_only" ]

  pub check_token_version : ℕ → Result Unit
  check_token_version current =
      if token_version == current
      then ok tt
      else err (authentication (literal "Token has been revoked"))

  pub require_read_items : Result Unit
  unfolding rank
  require_read_items =
      allow_if (at_least read rights.items_rights) (literal "Insufficient rights to read items")

  pub require_write_items : Result Unit
  unfolding rank
  require_write_items =
      allow_if (at_least write rights.items_rights) (literal "Insufficient rights to write items")

  pub require_read_users : Result Unit
  unfolding rank
  require_read_users =
      allow_if (at_least read rights.users_rights) (literal "Insufficient rights to read users")

  pub require_write_users : Result Unit
  unfolding rank
  require_write_users =
      allow_if (at_least write rights.users_rights) (literal "Insufficient rights to write users")

  pub require_read_catalog : Result Unit
  unfolding rank
  require_read_catalog =
      allow_if (at_least read rights.items_rights) (literal "Insufficient rights to read catalog")

  pub require_write_holds : Result Unit
  unfolding rank
  require_write_holds =
      allow_if (at_least write rights.holds_rights)
        (literal "Insufficient rights for circulation/hold management")

  pub require_read_holds_staff : Result Unit
  unfolding rank
  require_read_holds_staff =
      allow_if (at_least read rights.holds_rights)
        (literal "Insufficient rights to view hold queues")

  pub require_read_loans : Result Unit
  unfolding rank
  require_read_loans =
      allow_if (at_least read rights.loans_rights) (literal "Insufficient rights to read loans")

  unfoldable pub require_write_loans : Result Unit
  unfolding rank
  require_write_loans =
      allow_if (at_least write rights.loans_rights) (literal "Insufficient rights to write loans")

  pub require_read_settings : Result Unit
  unfolding rank
  require_read_settings =
      allow_if (at_least read rights.settings_rights)
        (literal "Insufficient rights to read settings")

  pub require_write_settings : Result Unit
  unfolding rank
  require_write_settings =
      allow_if (at_least write rights.settings_rights)
        (literal "Insufficient rights to write settings")

  pub require_read_events : Result Unit
  unfolding rank
  require_read_events =
      allow_if (at_least read rights.events_rights) (literal "Insufficient rights to read events")

  pub require_write_events : Result Unit
  unfolding rank
  require_write_events =
      allow_if (at_least write rights.events_rights)
        (literal "Insufficient rights to manage events")

  pub require_list_holds : Result Unit
  unfolding rank
  require_list_holds =
      allow_if (at_least read rights.holds_rights || is_own rights.holds_rights)
        (literal "Insufficient rights to list holds")

  pub require_create_hold : Result Unit
  unfolding rank
  require_create_hold =
      allow_if (at_least write rights.holds_rights || is_own rights.holds_rights)
        (literal "Insufficient rights to place a hold")

  pub require_cancel_hold : Result Unit
  unfolding rank
  require_cancel_hold =
      allow_if (at_least write rights.holds_rights || is_own rights.holds_rights)
        (literal "Insufficient rights to cancel a hold")

abbrev is_admin_type : AccountTypeSlug → Bool
is_admin_type admin = true
is_admin_type guest = false
is_admin_type reader = false
is_admin_type librarian = false
is_admin_type group = false

abbrev is_librarian_type : AccountTypeSlug → Bool
is_librarian_type librarian = true
is_librarian_type admin = true
is_librarian_type guest = false
is_librarian_type reader = false
is_librarian_type group = false

pub is_admin : UserClaims → Bool
is_admin c = is_admin_type c.account_type

pub is_librarian : UserClaims → Bool
is_librarian c = is_librarian_type c.account_type

pub require_admin : UserClaims → Result Unit
unfolding is_admin
require_admin c = allow_if (is_admin c) (literal "Administrator privileges required")

pub require_self_or_staff : UserClaims → ℕ → Result Unit
unfolding is_librarian
require_self_or_staff c target_user_id =
    allow_if ((c.user_id == target_user_id) || is_librarian c) (literal "Access denied")

pub require_self_or_admin : UserClaims → ℕ → Result Unit
unfolding is_admin
require_self_or_admin c target_user_id =
    allow_if ((c.user_id == target_user_id) || is_admin c) (literal "Access denied")
