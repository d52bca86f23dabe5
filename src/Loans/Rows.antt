-- ===== src/Loans/Rows.antt =====
-- The rows that circulation looks up (src/repository/loans/queries.rs, mutations.rs): loans by id,
-- by copy, by patron and by barcode, and a copy with its record.
use elidune_server.Prelude.{
  ℕ, String, str_eq, Bool, false, ◌&&◌, Option, none, some, List, [], ◌∷◌, ◌==◌, ltb, if◌then◌else◌,
  is_some, is_none, and_then,
}
use elidune_server.Prelude.Table.{select_first}
use elidune_server.Error.{loan_not_found, no_active_loan_for, not_found, ok_or}
use elidune_server.Rights.{User}
use elidune_server.Db.{Db, Item, Biblio, Loan, Action, reads}

abbrev pub has_id : ℕ → Loan → Bool
has_id i l = l.id == i

-- `item_id = $1 AND returned_at IS NULL`
abbrev pub open_for_item : ℕ → Loan → Bool
open_for_item item l = (l.item_id == item) && is_none l.returned_at

-- `user_id = $1 AND returned_at IS NULL`
abbrev pub open_for_user : ℕ → Loan → Bool
open_for_user user l = (l.user_id == user) && is_none l.returned_at

abbrev pub user_row : ℕ → Db → Option User
user_row user db = select_first (λ u. u.id == user) db.users

abbrev pub biblio_of : Item → Db → Option Biblio
biblio_of it db = and_then it.biblio_id (λ b. select_first (λ r. r.id == b) db.biblios)

-- `items JOIN biblios`, which has no row for a copy without a record.
abbrev pub item_biblio : ℕ → Db → Option (Item × Biblio)
item_biblio item db =
    and_then (select_first (λ it. it.id == item) db.items)
      (λ it. elim (biblio_of it db) [ none ↦ none | some b ↦ some (it, b) ])

abbrev pub loans_get_by_id : ℕ → Action Loan
loans_get_by_id id =
    reads (λ db. ok_or (not_found (loan_not_found id)) (select_first (has_id id) db.loans))

abbrev pub is_barcode : String → Item → Bool
is_barcode s it = elim it.barcode [ none ↦ false | some b ↦ str_eq b s ]

abbrev lent_under : String → List Item → Loan → Bool
lent_under s items l =
    is_some (select_first (λ it. (it.id == l.item_id) && is_barcode s it) items)
    && is_none l.returned_at

-- `ORDER BY l.id DESC LIMIT 1`
abbrev later : Loan → Option Loan → Option Loan
later l none = some l
later l (some k) = if ltb k.id l.id then some l else some k

abbrev newest : (Loan → Bool) → List Loan → Option Loan
newest p [] = none
newest p (l ∷ ls) = let rest = newest p ls in if p l then later l rest else rest

-- An open loan by the barcode of its copy.
unfoldable pub loans_get_by_item_identification : String → Action Loan
loans_get_by_item_identification s =
    reads (λ db. ok_or (not_found (no_active_loan_for s)) (newest (lent_under s db.items) db.loans))

abbrev pub public_type_of : ℕ → Db → Option ℕ
public_type_of user db = and_then (user_row user db) (λ u. u.public_type)
