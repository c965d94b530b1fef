-- ===== src/Legacy.antt =====
-- The first API of src/api.rs: its errors, and the request that submits a document.
pub mod ParsePq
pub mod Numbers
pub mod Upload
pub mod Create
pub mod Goes
pub mod Received
pub mod Still
pub mod Settled
pub mod Enqueued
pub mod Registered
pub mod Answered
pub mod Media
pub mod Elsewhere
pub mod Requests
use zebra_tamer.Prelude.{
  ℕ, String, Bool, true, false, Option, none, some, List, [], ◌∷◌, all, is_empty, ◌==◌,
  if◌then◌else◌,
}
use zebra_tamer.Prelude.Text.{Text, Bytes, is_ascii_digit}
use zebra_tamer.Prelude.Result.{Error, message}
use zebra_tamer.Prelude.Exec.{Exec}
use zebra_tamer.Store.State.{Store}
use zebra_tamer.Protocol.{parse_u64}
use zebra_tamer.Auth.{Tokens, admin, authorized}
use zebra_tamer.Api.Agent.{V2Error, Handler, problem, or_error}

-- `ApiResponseError` has the fields of `V2Error`.
abbrev pub ApiResponseError : Type 0
ApiResponseError = V2Error

abbrev pub not_found : String → ApiResponseError
not_found m = record { status = 404; code = "not_found"; text = message m }

abbrev pub bad_request : String → ApiResponseError
bad_request m = record { status = 400; code = "bad_request"; text = message m }

abbrev pub unavailable : Error → ApiResponseError
unavailable e = record { status = 503; code = "unavailable"; text = e }

abbrev pub conflict : String → ApiResponseError
conflict m = record { status = 409; code = "conflict"; text = message m }

abbrev pub internal : Error → ApiResponseError
internal e = record { status = 500; code = "internal"; text = e }

-- The message has the number of bytes in place of these words.
abbrev pub job_too_large : ApiResponseError
job_too_large = record {
  status = 413;
  code = "job_too_large";
  text = message "job exceeds the configured number of bytes";
}

abbrev pub queue_full : ApiResponseError
queue_full = record {
  status = 429;
  code = "queue_full";
  text = message "printer queue has reached its configured active-job limit";
}

-- `map_err(ApiResponseError::internal)?` on an operation of the store.
abbrev pub stored : {A : Type 0} → Exec Store A → Handler A
stored action s =
    let (r, after) = action s.store in (or_error internal r, record s { store = after })

-- A piece of the request's body, or the failure of the connection.
pub data Frame : Type 0 where
  chunk : Bytes → Frame
  broken : Error → Frame

-- What `create_job` reads of a request. A header that is not text counts as missing, and a missing
-- content type as an empty one.
pub record Submission : Type 0 where
  pub content_type : Text
  pub idempotency_key : Option String
  pub label_count : Option Text
  pub origin : Option String
  pub description : Option String
  pub body : List Frame

abbrev without_plus : Text → Text
without_plus [] = []
without_plus (c ∷ cs) = if c == b'+' then cs else c ∷ cs

-- `parse::<u64>`: a sign, then digits.
unfoldable pub parse_count : Text → Option ℕ
unfolding parse_u64
parse_count text =
    if all is_ascii_digit (without_plus text) then parse_u64 (without_plus text) else none

-- `count_header`.
unfoldable pub count_of : Option Text → Option ℕ
unfolding parse_count
count_of none = none
count_of (some text) = parse_count text

abbrev pub admin_wanted : ApiResponseError
admin_wanted = record {
  status = 401;
  code = "unauthorized";
  text = message "A ZebraTamer admin token is required for the legacy v1 API";
}

-- The layer before every handler of the first API.
unfoldable pub legacy_authorization : {A : Type 0} → Tokens → Option Bytes → Handler A → Handler A
unfolding authorized
legacy_authorization config header next s = elim (authorized config header admin) [
  | true ↦ next s
  | false ↦ (problem admin_wanted, s)
]
