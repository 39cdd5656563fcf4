-- ===== src/Errcode.antt =====
-- pkg/errcode: the API's error codes (type.go) and their catalogue (common.go). `http_status` is
-- (Error).HTTPStatus; HTTPStatusFor calls it on the two fields.
pub mod Status
mod Tests
use go_skeleton.Base.{
  ℕ, String, Bool, true, false, ◌&&◌, List, [], ◌∷◌, ◌≡◌, refl, str_eq, if◌then◌else◌, leb, ltb,
  ◌==◌,
}
use go_skeleton.Base.Int.{ℤ, pos, negsuc, leb_ℤ, ltb_ℤ}

-- errcode.Error; both fields are private in the source.
pub record Error : Type 0 where
  pub code : ℤ
  pub reason : String

-- (Error).Code
unfoldable pub code_of : Error → ℤ
code_of e = if leb_ℤ e.code (pos 0) then pos 0 else e.code

-- (Error).Reason
unfoldable pub reason_of : Error → String
reason_of e = if str_eq e.reason "" then "UNKNOWN_ERROR" else e.reason

abbrev is_zero_ℤ : ℤ → Bool
is_zero_ℤ (pos n) = n == 0
is_zero_ℤ (negsuc n) = false

-- The fallback of HTTPStatus, by the range that the code lies in.
status_by_code : Error → ℕ
unfolding code_of
status_by_code e =
    if is_zero_ℤ e.code
    then 500
    else if leb_ℤ (pos 1000) (code_of e) && ltb_ℤ (code_of e) (pos 2000)
    then 400
    else if leb_ℤ (pos 9000) (code_of e) && ltb_ℤ (code_of e) (pos 10000)
    then 500
    else 500

status_by_reason : String → ℕ → ℕ
status_by_reason reason fallback =
    if str_eq reason "INVALID_PARAMS"
    then 400
    else if str_eq reason "UNAUTHORIZED"
    then 401
    else if str_eq reason "PERMISSION_DENIED"
    then 403
    else if str_eq reason "TOO_MANY_REQUESTS"
    then 429
    else if str_eq reason "REQUEST_TIMEOUT"
    then 408
    else if str_eq reason "SERVICE_DISABLED"
    then 503
    else if str_eq reason "QUEUE_UNAVAILABLE"
    then 503
    else if str_eq reason "NOT_IMPLEMENTED_YET"
    then 501
    else if str_eq reason "NOT_FOUND"
    then 404
    else if str_eq reason "CONFLICT"
    then 409
    else fallback

-- (Error).HTTPStatus
unfoldable pub http_status : Error → ℕ
unfolding reason_of status_by_reason status_by_code
http_status e = status_by_reason (reason_of e) (status_by_code e)

abbrev pub new_error : ℕ → String → Error
new_error code reason = record { code = pos code; reason = reason }

abbrev pub invalid_params : Error
invalid_params = new_error 1001 "INVALID_PARAMS"

abbrev pub unauthorized : Error
unauthorized = new_error 1002 "UNAUTHORIZED"

abbrev pub permission_denied : Error
permission_denied = new_error 1003 "PERMISSION_DENIED"

abbrev pub too_many_requests : Error
too_many_requests = new_error 1004 "TOO_MANY_REQUESTS"

abbrev pub request_timeout : Error
request_timeout = new_error 1005 "REQUEST_TIMEOUT"

abbrev pub service_disabled : Error
service_disabled = new_error 1006 "SERVICE_DISABLED"

abbrev pub not_found : Error
not_found = new_error 1007 "NOT_FOUND"

abbrev pub conflict : Error
conflict = new_error 1008 "CONFLICT"

abbrev pub internal_error : Error
internal_error = new_error 9001 "INTERNAL_ERROR"

abbrev pub database_error : Error
database_error = new_error 9002 "DATABASE_ERROR"

abbrev pub queue_unavailable : Error
queue_unavailable = new_error 9003 "QUEUE_UNAVAILABLE"

abbrev pub queue_error : Error
queue_error = new_error 9004 "QUEUE_ERROR"

abbrev pub not_implemented_yet : Error
not_implemented_yet = new_error 9005 "NOT_IMPLEMENTED_YET"

-- Every exported variable of common.go.
abbrev pub catalogue : List Error
catalogue =
    invalid_params ∷ unauthorized ∷ permission_denied ∷ too_many_requests ∷ request_timeout
    ∷ service_disabled ∷ not_found ∷ conflict ∷ internal_error ∷ database_error ∷ queue_unavailable
    ∷ queue_error ∷ not_implemented_yet ∷ []
