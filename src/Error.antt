-- ===== src/Error.antt =====
-- `AppError` and its two HTTP views (src/error.rs): `http_fields`, `into_response` and
-- `audit_http_fields`.
-- A message is a fixed text or a format with its values. The row that a duplicate error carries
-- for display (`existing_item`) is its id here; the code only passes the row on.
pub mod Http
use elidune_server.Prelude.{
  ℕ, String, Bool, true, false, Option, none, some, ◌≡◌, refl, ◌⊎◌, inl, inr,
}
use elidune_server.Prelude.Int.{ℤ}

-- The messages that the modelled code builds: the constructors other than `literal` are `format!`
-- calls, with the values that they print.
pub data Message : Type 0 where
  literal : String → Message
  loan_not_found hold_not_found pending_hold_not_found fine_not_found user_not_found : ℕ → Message
  no_active_loan_for : String → Message
  max_total_and_media : ℕ → ℤ → ℕ → ℤ → Message
  max_total max_media : ℕ → ℤ → Message
  max_renewals : ℤ → ℤ → Message
  subscription_expired : ℤ → Message
  too_many : String → ℕ → Message
  too_many_filter_clauses : ℕ → Message
  unknown_entity unknown_root_entity unknown_entity_in_join_graph unknown_union_branch :
      String → Message
  target_not_registered unknown_entity_in_field not_joined ambiguous : String → Message
  unknown_having_alias : String → Message
  unknown_relation field_not_allowed : String → String → Message

-- The `sqlx::Error` values that the modelled statements can meet.
pub data DbError : Type 0 where
  row_not_found foreign_key_violation unique_violation numeric_out_of_range : DbError

pub data AppError : Type 0 where
  authentication authorization not_found gone validation : Message → AppError
  database : DbError → AppError
  conflict bad_request internal z3950 business_rule : Message → AppError
  duplicate_needs_confirmation duplicate_barcode_needs_confirmation : ℕ → Message → AppError

-- `AppResult`
pub data Result (A : Type 0) : Type 0 where
  ok : A → Result A
  err : AppError → Result A

abbrev pub IsOk : {A : Type 0} → Result A → Type 0
IsOk (ok a) = Unit
IsOk (err e) = ⊥

-- `Option::ok_or_else`
abbrev pub ok_or : {A : Type 0} → AppError → Option A → Result A
ok_or e none = err e
ok_or e (some a) = ok a

-- `if cond { return Err(e) }`
abbrev pub fail_if : Bool → AppError → Result (Unit {0})
fail_if true e = err e
fail_if false e = ok tt

-- The two ends of a call.
pub unit_cases : (r : Result Unit) → (r ≡ ok tt) ⊎ ((e : AppError) × (r ≡ err e))
unit_cases (ok u) = inl refl
unit_cases (err e) = inr (e, refl)

pub result_cases :
    {A : Type 0} (r : Result A) → ((a : A) × (r ≡ ok a)) ⊎ ((e : AppError) × (r ≡ err e))
result_cases (ok a) = inl (a, refl)
result_cases (err e) = inr (e, refl)
