-- ===== src/Rights/Claims/Access.antt =====
-- Who is let through: the domains are graded, holds have their own self-service level, and the
-- checks on a person are nested.
use elidune_server.Prelude.{ℕ, ◌≡◌, ◌↔◌, ◌⊎◌, arith}
use elidune_server.Error.{IsOk}
use elidune_server.Rights.{own, read, write, librarian, admin}
use elidune_server.Rights.Claims.{
  UserClaims, require_read_items, require_write_items, require_read_users, require_write_users,
  require_read_catalog, require_write_holds, require_read_holds_staff, require_read_loans,
  require_write_loans, require_read_settings, require_write_settings, require_read_events,
  require_write_events, require_list_holds, require_create_hold, require_cancel_hold, require_admin,
  require_self_or_staff, require_self_or_admin,
}

-- In every domain, whoever may write may also read.
pub write_includes_read :
    (c : UserClaims)
    → (IsOk (require_write_items c) → IsOk (require_read_items c) × IsOk (require_read_catalog c))
      × (IsOk (require_write_users c) → IsOk (require_read_users c))
      × (IsOk (require_write_loans c) → IsOk (require_read_loans c))
      × (IsOk (require_write_settings c) → IsOk (require_read_settings c))
      × (IsOk (require_write_events c) → IsOk (require_read_events c))
      × (IsOk (require_write_holds c) → IsOk (require_read_holds_staff c))
unfolding require_read_items require_write_items require_read_users require_write_users
    require_read_catalog require_write_holds require_read_holds_staff require_read_loans
    require_write_loans require_read_settings require_write_settings require_read_events
    require_write_events
write_includes_read c = ground arith

-- Listing holds is open to every level but none; placing and cancelling one are open to `own` and
-- `write` and not to `read`; the queues of other patrons are open to `read` and `write` only.
pub holds_access :
    (c : UserClaims)
    → let r = c.rights.holds_rights in
      (IsOk (require_list_holds c) ↔ ((r ≡ own) ⊎ ((r ≡ read) ⊎ (r ≡ write))))
      × (IsOk (require_create_hold c) ↔ ((r ≡ own) ⊎ (r ≡ write)))
      × (IsOk (require_cancel_hold c) ↔ IsOk (require_create_hold c))
      × (IsOk (require_read_holds_staff c) ↔ ((r ≡ read) ⊎ (r ≡ write)))
unfolding require_list_holds require_create_hold require_cancel_hold require_read_holds_staff
holds_access c = ground arith

-- The check for a person or staff passes exactly for that person, for librarians and for admins.
-- Whoever passes the check for a person or an admin passes it too, and whoever passes the check
-- for an admin passes that one.
pub personal_access :
    (c : UserClaims) (target_user_id : ℕ)
    → (IsOk (require_self_or_staff c target_user_id) ↔ (
        (c.user_id ≡ target_user_id) ⊎ ((c.account_type ≡ librarian) ⊎ (c.account_type ≡ admin))))
      × (IsOk (require_self_or_admin c target_user_id)
          → IsOk (require_self_or_staff c target_user_id))
      × (IsOk (require_admin c) → IsOk (require_self_or_admin c target_user_id))
unfolding require_self_or_staff require_self_or_admin require_admin
personal_access c target_user_id = ground arith
