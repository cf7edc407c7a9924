-- ===== src/Http/Status.antt =====
-- backend/internal/shared/errors/errors.go and shared/response/json.go: what a client is told of an
-- error.
use nim_near.Prelude.{
  ℕ, ◌≡◌, refl, ◌↔◌, ◌≤◌, ◌<◌, Bool, true, false, Option, none, some, arith, leb, if◌then◌else◌,
  Error, Kind, Code, not_found, already_exists, unauthorized, forbidden, bad_request, internal,
  rate_limited, gone, conflict, validation, event_past, paid_event, sold_out, not_implemented,
}

-- HTTPStatusCode, of a DomainError.
unfoldable pub http_status_code : Kind → ℕ
http_status_code not_found = 404
http_status_code already_exists = 409
http_status_code unauthorized = 401
http_status_code forbidden = 403
http_status_code validation = 422
http_status_code bad_request = 400
http_status_code conflict = 409
http_status_code rate_limited = 429
http_status_code gone = 410
http_status_code not_implemented = 501
http_status_code paid_event = 422
http_status_code event_past = 409
http_status_code sold_out = 409
http_status_code internal = 500

-- HTTPStatusCode of any error: `none` is one that wraps no DomainError.
unfoldable pub status_of : Option Error → ℕ
unfolding http_status_code
status_of none = 500
status_of (some e) = http_status_code e.kind

-- The body of response.Error: the status, and whether it shows the error's own text.
pub record ErrorResponse : Type 0 where
  pub code : ℕ
  pub error_code : Option Code
  pub shows_message : Bool

abbrev code_of : Option Error → Option Code
code_of none = none
code_of (some e) = some e.code

unfoldable pub error_response : Option Error → ErrorResponse
unfolding status_of
error_response e = record {
  code = status_of e;
  error_code = code_of e;
  shows_message = if leb 500 (status_of e) then false else true;
}

http_status_code_bounds : (k : Kind) → (400 ≤ http_status_code k) × (http_status_code k < 600)
unfolding http_status_code
http_status_code_bounds not_found = (omega arith, omega arith)
http_status_code_bounds already_exists = (omega arith, omega arith)
http_status_code_bounds unauthorized = (omega arith, omega arith)
http_status_code_bounds forbidden = (omega arith, omega arith)
http_status_code_bounds validation = (omega arith, omega arith)
http_status_code_bounds bad_request = (omega arith, omega arith)
http_status_code_bounds conflict = (omega arith, omega arith)
http_status_code_bounds rate_limited = (omega arith, omega arith)
http_status_code_bounds gone = (omega arith, omega arith)
http_status_code_bounds not_implemented = (omega arith, omega arith)
http_status_code_bounds paid_event = (omega arith, omega arith)
http_status_code_bounds event_past = (omega arith, omega arith)
http_status_code_bounds sold_out = (omega arith, omega arith)
http_status_code_bounds internal = (omega arith, omega arith)

shown : (n : ℕ) → ((if leb 500 n then false else true) ≡ true) ↔ (n < 500)
shown n = ground arith

-- Every error is answered by a status from 400 to 599, and its own text is shown exactly when it is
-- a domain error whose status is below 500.
error_response_lem :
    (e : Option Error)
    → (400 ≤ (error_response e).code)
      × ((error_response e).code < 600)
      × (((error_response e).shows_message ≡ true)
          ↔ ((d : Error) × (e ≡ some d) × ((error_response e).code < 500)))
unfolding error_response status_of
error_response_lem none = (omega arith, omega arith, ((λ h. cc), (λ p. cc)))
error_response_lem (some d) =
    let b = http_status_code_bounds d.kind in
    let s = shown (http_status_code d.kind) in (b.0, b.1, ((λ h. (d, refl, s.0 h)), (λ p. s.1 p.2)))
