-- ===== src/Rights.antt =====
-- Access rights and the claims of a signed-in user (src/models/user.rs): the rights levels, the
-- account types, what a token lets its bearer do, and whether a patron may borrow.
-- Of a `User` row the fields that these rules and the circulation desk read are kept.
pub mod Claims
use Prim.Native.Char.{code}
use elidune_server.Prelude.{
  ℕ, ◌+◌, String, Bool, true, false, ◌&&◌, Option, none, some, ltb, leb, ◌==◌, if◌then◌else◌,
  is_none,
}
use elidune_server.Prelude.Int.{ℤ}

pub data Rights : Type 0 where
  none_ own read write : Rights

unfoldable pub rank : Rights → ℕ
rank none_ = 0
rank own = 1
rank read = 2
rank write = 3

-- `char::to_ascii_lowercase`
abbrev pub to_ascii_lowercase : ℕ → ℕ
to_ascii_lowercase c = if leb b'A' c && leb c b'Z' then c + 32 else c

abbrev rights_letter : ℕ → Rights
rights_letter c =
    if c == b'o' then own else if c == b'r' then read else if c == b'w' then write else none_

pub rights_from_char : ℕ → Rights
rights_from_char c = rights_letter (to_ascii_lowercase c)

-- The first character of the stored text, if there is one.
pub rights_from_text : Option String → Rights
unfolding rights_from_char
rights_from_text none = none_
rights_from_text (some String.[]) = none_
rights_from_text (some (String.◌∷◌ c s)) = rights_from_char (code c)

pub data AccountTypeSlug : Type 0 where
  guest reader librarian admin group : AccountTypeSlug

pub data UserStatus : Type 0 where
  active blocked deleted : UserStatus

-- An instant, in seconds.
abbrev pub DateTime : Type 0
DateTime = ℤ

pub record User : Type 0 where
  pub id : ℕ
  pub account_type : AccountTypeSlug
  pub public_type : Option ℕ
  pub addr_city : Option String
  pub status : Option UserStatus
  pub expiry_at : Option DateTime
  pub archived_at : Option DateTime

abbrev is_active_status : Option UserStatus → Bool
is_active_status (some active) = true
is_active_status (some blocked) = false
is_active_status (some deleted) = false
is_active_status none = false

abbrev pub is_guest : AccountTypeSlug → Bool
is_guest guest = true
is_guest reader = false
is_guest librarian = false
is_guest admin = false
is_guest group = false

unfoldable pub is_active : User → Bool
is_active u = is_active_status u.status && is_none u.archived_at

unfoldable pub can_borrow : User → Bool
unfolding is_active
can_borrow u = is_active u && (if is_guest u.account_type then false else true)
