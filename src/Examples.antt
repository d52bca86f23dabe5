-- ===== src/Examples.antt =====
-- A small library: two copies of one record, one of them lent, and a queue on each.
mod Desk
mod Rules
mod Office
mod Queries
mod Jobs
mod Nightly
use elidune_server.Prelude.{
  ℕ, ◌≡◌, ◌≤◌, refl, Bool, true, false, Option, none, some, List, [], ◌∷◌, arith,
}
use elidune_server.Prelude.Int.{ℤ, pos}
use elidune_server.Prelude.Table.{count_where}
use elidune_server.Rights.{User, UserStatus, active, blocked, deleted, reader}
use elidune_server.Db.{Db, Biblio, Item, Loan, Hold, HoldStatus, pending, ready}
use elidune_server.Loans.Sound.{IsSound}
use elidune_server.Loans.Checkout.{CreateLoan}

abbrev pub patron : ℕ → UserStatus → User
patron id s = record {
  id = id;
  account_type = reader;
  public_type = none;
  addr_city = none;
  status = some s;
  expiry_at = none;
  archived_at = none;
}

abbrev pub ann : User
ann = patron 1 active

abbrev pub bob : User
bob = patron 2 blocked

abbrev pub eve : User
eve = patron 3 deleted

abbrev pub novel : Biblio
novel = record { id = 7; media_type = some "b" }

abbrev pub copy_at_home : Item
copy_at_home = record { id = 10; biblio_id = some 7; barcode = some "A10"; borrowable = true }

abbrev pub copy_lent : Item
copy_lent = record { id = 11; biblio_id = some 7; barcode = some "A11"; borrowable = true }

abbrev pub loan_of_bob : Loan
loan_of_bob = record {
  id = 1;
  user_id = 2;
  item_id = 11;
  date = pos 100;
  renew_at = none;
  nb_renews = some (pos 0);
  expiry_at = some (pos 5000);
  notes = none;
  returned_at = none;
}

abbrev pub waiting : ℕ → ℕ → ℕ → ℕ → HoldStatus → Hold
waiting id user item position s = record {
  id = id;
  user_id = user;
  item_id = item;
  created_at = pos 200;
  notified_at = none;
  expires_at = none;
  status = s;
  position = position;
  notes = none;
}

abbrev pub library : Db
library = record {
  users = ann ∷ bob ∷ eve ∷ [];
  biblios = novel ∷ [];
  items = copy_at_home ∷ copy_lent ∷ [];
  loans = loan_of_bob ∷ [];
  loans_archives = [];
  holds = waiting 100 1 10 1 ready ∷ waiting 101 1 11 1 pending ∷ waiting 102 3 11 2 pending ∷ [];
  loans_settings = [];
  public_type_loan_settings = [];
  next_loan_id = 2;
}

abbrev pub request : ℕ → ℕ → Bool → CreateLoan
request user item force = record {
  user_id = user;
  item_id = some item;
  item_identification = none;
  force = force;
}

pub library-IsSound : IsSound library
library-IsSound = record {
  unique_ids = λ k. ground arith;
  fresh_ids = λ k le. ground arith;
  lent_once = λ i. ground arith;
  unique_holds = λ k. ground arith;
}
