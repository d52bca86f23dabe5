-- ===== src/Error/Http.antt =====
-- How an `AppError` is answered over HTTP and how it is written to the audit log (src/error.rs).
use elidune_server.Prelude.{ℕ, ◌≤◌, ◌<◌, ◌≡◌, refl, Bool, true, false, String, arith, leb}
use elidune_server.Error.{
  Message, literal, AppError, authentication, authorization, not_found, gone, validation, database,
  conflict, bad_request, internal, z3950, business_rule, duplicate_needs_confirmation,
  duplicate_barcode_needs_confirmation,
}

pub record HttpErrorFields : Type 0 where
  pub status : ℕ
  pub code : String
  pub label : String
  pub message : Message

fields : ℕ → String → String → Message → HttpErrorFields
fields s c l m = record { status = s; code = c; label = l; message = m }

pub http_fields : AppError → HttpErrorFields
unfolding fields
http_fields (authentication msg) = fields 401 "authentication_failed" "Unauthorized" msg
http_fields (authorization msg) = fields 403 "authorization_failed" "Forbidden" msg
http_fields (not_found msg) = fields 404 "not_found" "Not Found" msg
http_fields (gone msg) = fields 410 "gone" "Gone" msg
http_fields (validation msg) = fields 400 "validation_error" "Validation Error" msg
http_fields (database e) =
    fields 500 "database_error" "Internal Server Error" (literal "A database error occurred")
http_fields (conflict msg) = fields 409 "conflict" "Conflict" msg
http_fields (bad_request msg) = fields 400 "bad_request" "Bad Request" msg
http_fields (internal msg) =
    fields 500 "internal_error" "Internal Server Error" (literal "An unexpected error occurred")
http_fields (z3950 msg) = fields 502 "z3950_error" "Z39.50 Error" msg
http_fields (business_rule msg) = fields 422 "business_rule_violation" "Business Rule Violation" msg
http_fields (duplicate_needs_confirmation id msg) = fields 409 "conflict" "Conflict" (literal "")
http_fields (duplicate_barcode_needs_confirmation id msg) =
    fields 409 "conflict" "Conflict" (literal "")

-- The status and the JSON body: `ErrorResponse`, or the two duplicate bodies, which carry the
-- existing record's id.
pub data Response : Type 0 where
  error_response : ℕ → String → String → Message → Response
  duplicate_response : ℕ → String → ℕ → Message → Response

from_fields : HttpErrorFields → Response
from_fields f = error_response f.status f.code f.label f.message

pub into_response : AppError → Response
unfolding from_fields http_fields
into_response (duplicate_needs_confirmation id msg) =
    duplicate_response 409 "duplicate_isbn_needs_confirmation" id msg
into_response (duplicate_barcode_needs_confirmation id msg) =
    duplicate_response 409 "duplicate_barcode_needs_confirmation" id msg
into_response other = from_fields (http_fields other)

audit_of : HttpErrorFields → ℕ × String × Message
audit_of f = (f.status, f.code, f.message)

pub audit_http_fields : AppError → ℕ × String × Message
unfolding audit_of http_fields
audit_http_fields (duplicate_needs_confirmation id msg) =
    (409, "duplicate_isbn_needs_confirmation", msg)
audit_http_fields (duplicate_barcode_needs_confirmation id msg) =
    (409, "duplicate_barcode_needs_confirmation", msg)
audit_http_fields other = audit_of (http_fields other)

-- What a client reads off the response.
abbrev pub seen_by_client : Response → ℕ × String × Message
seen_by_client (error_response status code label msg) = (status, code, msg)
seen_by_client (duplicate_response status code id msg) = (status, code, msg)

-- For every error, the status, the code and the message in the audit log are those of the
-- response that the client gets.
pub audit-matches-response : (e : AppError) → audit_http_fields e ≡ seen_by_client (into_response e)
unfolding audit_http_fields into_response
audit-matches-response (duplicate_needs_confirmation id msg) = refl
audit-matches-response (duplicate_barcode_needs_confirmation id msg) = refl
audit-matches-response (database e) = refl
audit-matches-response _ = refl

-- The errors that are the server's fault, or a remote catalogue's.
abbrev pub is_server_fault : AppError → Bool
is_server_fault (database e) = true
is_server_fault (internal m) = true
is_server_fault (z3950 m) = true
is_server_fault _ = false

-- The response's status is 500 or more for database, internal and Z39.50 errors and for no other;
-- every status is at least 400 and below 600.
pub status-is_server_fault :
    (e : AppError)
    → let status = (seen_by_client (into_response e)).0 in
      (leb 500 status ≡ is_server_fault e) × (400 ≤ status) × (status < 600)
unfolding into_response
status-is_server_fault (database e) = (refl, omega arith, omega arith)
status-is_server_fault (duplicate_needs_confirmation id msg) = (refl, omega arith, omega arith)
status-is_server_fault (duplicate_barcode_needs_confirmation id msg) =
    (refl, omega arith, omega arith)
status-is_server_fault _ = (refl, omega arith, omega arith)
