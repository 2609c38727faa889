-- ===== src/Server/ApiError.antt =====
-- crates/server/src/error.rs: the errors of the handlers, and how they are answered.
use sub_merge.Base.{ℕ}
use sub_merge.Base.Text.{Text, str}
use sub_merge.Crates.{Json, string, object, end, member}

-- What axum gives of a request that it could not read.
pub record Rejection : Type 0 where
  pub status : ℕ
  pub body_text : Text

pub data ApiError : Type 0 where
  unauthorized : Text → ApiError
  conflict : Text → ApiError
  bad_request : Text → ApiError
  not_found : Text → ApiError
  internal : Text → ApiError
  bad_gateway : Text → ApiError
  invalid_json : Rejection → ApiError
  invalid_path : Rejection → ApiError
  invalid_query : Rejection → ApiError

unfoldable pub status_of : ApiError → ℕ
status_of (unauthorized m) = 401
status_of (conflict m) = 409
status_of (bad_request m) = 400
status_of (not_found m) = 404
status_of (internal m) = 500
status_of (bad_gateway m) = 502
status_of (invalid_json r) = r.status
status_of (invalid_path r) = r.status
status_of (invalid_query r) = r.status

unfoldable pub code_of : ApiError → Text
code_of (unauthorized m) = str "unauthorized"
code_of (conflict m) = str "conflict"
code_of (bad_request m) = str "bad_request"
code_of (not_found m) = str "not_found"
code_of (internal m) = str "internal_error"
code_of (bad_gateway m) = str "bad_gateway"
code_of (invalid_json r) = str "invalid_json"
code_of (invalid_path r) = str "invalid_path"
code_of (invalid_query r) = str "invalid_query"

unfoldable pub message_of : ApiError → Text
message_of (unauthorized m) = m
message_of (conflict m) = m
message_of (bad_request m) = m
message_of (not_found m) = m
message_of (internal m) = m
message_of (bad_gateway m) = m
message_of (invalid_json r) = r.body_text
message_of (invalid_path r) = r.body_text
message_of (invalid_query r) = r.body_text

-- The status and the JSON body of the answer.
unfoldable pub into_response : ApiError → ℕ × Json
unfolding status_of code_of message_of
into_response e = (
  status_of e,
  object (
      member (str "error")
        (object (
          member (str "code") (string (code_of e))
            (member (str "message") (string (message_of e)) end)))
        end),
)
