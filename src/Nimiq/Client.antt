-- ===== src/Nimiq/Client.antt =====
-- backend/internal/infrastructure/nimiq/rpc/client.go: Client. HTTP, url.Parse and encoding/json
-- are parameters. The metrics of a call are left out.
use Prim.Native.Nat.{zero, suc}
use nim_near.Prelude.{
  ℕ, ℤ, ◌*◌, ◌^◌, Bool, not, ◌||◌, Option, none, some, List, [], ◌∷◌, reverse, Text, codes, text_eq,
  trim_space, to_lower, is_empty, if◌then◌else◌, ◌==◌, leb, ltb, exists,
}
use nim_near.Hub.Rooms.{contains, split_first}
use nim_near.Gateway.Statements.{trim_slashes}
use nim_near.Nimiq.Wire.{ResponseEnvelope, RpcFailure, Json}

-- The errors of a call. The first four are ErrTransactionNotFound and its siblings.
pub data RpcError : Type 0 where
  transaction_not_found authentication_failed timed_out unavailable : RpcError
  not_configured not_marshalled not_created not_read : RpcError
  http_status : ℕ → RpcError
  not_decoded : RpcError
  rpc_error : ℤ → RpcError
  no_result result_not_decoded address_required : RpcError

-- A value, or an error.
pub data Answered (A : Type 0) : Type 0 where
  got : A → Answered A
  lost : RpcError → Answered A

-- A parameter of a call, of the types that the client sends.
pub data Param : Type 0 where
  text : Text → Param
  number : ℕ → Param
  flag : Bool → Param
  null : Param

-- What errors.Is and errors.As say of the error of http.Client.Do: `none` is an error of another
-- type.
pub record TransportError : Type 0 where
  pub is_deadline : Bool
  pub is_canceled : Bool
  pub net_timeout : Option Bool
  pub timeout : Option Bool

-- One POST: what json.Marshal, http.NewRequestWithContext, Do and io.ReadAll give, in this order.
pub data Exchange : Type 0 where
  unmarshallable invalid_request : Exchange
  refused : TransportError → Exchange
  unread : Exchange
  response : ℕ → Text → Exchange

-- The endpoint, the credentials of SetBasicAuth, the method and its parameters.
abbrev pub Post : Type 0
Post = Text → Option (Text × Text) → Text → List Param → Exchange

pub record Http : Type 0 where
  pub post : Post
  pub json : Json

pub record Client : Type 0 where
  pub endpoint : Text
  pub username : Text
  pub password : Text

-- url.Parse: the user of a URL with the password, and the URL without them.
pub record ParsedUrl : Type 0 where
  pub user : Option (Text × Text)
  pub anonymous : Text

-- strings.TrimRight(s, "/")
unfoldable pub trim_right_slashes : Text → Text
unfolding trim_slashes
trim_right_slashes s = reverse (trim_slashes (reverse s))

unfoldable pub new_client : (Text → Option ParsedUrl) → Text → Client
unfolding trim_right_slashes trim_space
new_client parse_url endpoint =
    let trimmed = trim_right_slashes (trim_space endpoint) in
    let plain : Client = record { endpoint = trimmed; username = []; password = [] } in
    elim (parse_url trimmed) [
      | none ↦ plain
      | some url ↦ elim url.user [
        | none ↦ plain
        | some (username, password) ↦ record {
          endpoint = trim_right_slashes url.anonymous;
          username = username;
          password = password;
        }
      ]
    ]

unfoldable pub classify_rpc_transport_error : TransportError → RpcError
classify_rpc_transport_error e =
    if e.is_deadline || e.is_canceled
    then timed_out
    else if exists (λ b. b) e.net_timeout
    then timed_out
    else if exists (λ b. b) e.timeout
    then timed_out
    else unavailable

-- io.LimitReader
unfoldable pub limit_reader : ℕ → Text → Text
limit_reader zero s = []
limit_reader (suc n) [] = []
limit_reader (suc n) (c ∷ s) = c ∷ limit_reader n s

abbrev pub body_limit : ℕ
body_limit = 2 * 2 ^ 20

-- `strings.Contains(strings.ToLower(envelope.Error.Message), "not found")`
unfoldable pub says_not_found : RpcFailure → Bool
unfolding to_lower split_first
says_not_found failure = contains (codes "not found") (to_lower failure.message)

unfoldable pub basic_auth : Client → Option (Text × Text)
basic_auth c =
    if not (is_empty c.username) || not (is_empty c.password)
    then some (c.username, c.password)
    else none

module _ {A : Type 0} (decode : Text → Option A) where
  -- From `if envelope.Result == nil` on.
  unfoldable pub decode_data : Option Text → Answered A
  unfolding text_eq
  decode_data none = lost no_result
  decode_data (some raw) =
      if is_empty raw || text_eq raw (codes "null")
      then lost no_result
      else elim (decode raw) [ none ↦ lost result_not_decoded | some a ↦ got a ]

  -- From `if envelope.Error != nil` on.
  unfoldable pub decode_envelope : ResponseEnvelope → Answered A
  decode_envelope envelope = elim envelope.failure [
    | some failure ↦
        if says_not_found failure then lost transaction_not_found else lost (rpc_error failure.code)
    | none ↦ decode_data envelope.result
  ]

  -- The part of doCall after the request.
  unfoldable pub read_response : Json → Exchange → Answered A
  read_response json unmarshallable = lost not_marshalled
  read_response json invalid_request = lost not_created
  read_response json (refused e) = lost (classify_rpc_transport_error e)
  read_response json unread = lost not_read
  read_response json (response status body) =
      if status == 401 || status == 403
      then lost authentication_failed
      else if ltb status 200 || leb 300 status
      then lost (http_status status)
      else elim (json.envelope (limit_reader body_limit body)) [
        | none ↦ lost not_decoded
        | some envelope ↦ decode_envelope envelope
      ]

  unfoldable pub do_call : Http → Option Client → Text → List Param → Answered A
  do_call http none method params = lost not_configured
  do_call http (some c) method params =
      if is_empty c.endpoint
      then lost not_configured
      else read_response http.json (http.post c.endpoint (basic_auth c) method params)
