-- ===== src/Api/Requests.antt =====
-- internal/api/api.go: the types of the API, the authentication and the checks of a request.
pub mod Auth
use doevoe.Base.{
  ℕ, Text, Bool, true, false, ◌&&◌, ◌||◌, Option, none, some, List, [], ◌∷◌, codes, text_eq,
  is_empty, if◌then◌else◌, trim_prefix,
}
use doevoe.Store.{Status, ApiKey, Store, Result, ok, err, now}
use doevoe.Store.ApiKeys.{get_api_key_by_hash, touch_api_key}
use doevoe.Delivery.Message.{
  Formats, validate_header_value, validate_header, format_address, then_check, prefix_error,
}

-- mail.Address
pub record Address : Type 0 where
  pub name : Text
  pub address : Text

pub record Env : Type 0 where
  pub formats : Formats
  pub parse_address : Text → Option Address  -- mail.ParseAddress
  pub hash_api_key : Text → Text  -- HashAPIKey of store/apikeys.go

-- sendRequest
pub record SendRequest : Type 0 where
  pub from : Text
  pub to : Text
  pub subject : Text
  pub html : Text
  pub text : Text
  pub reply_to : Text
  pub headers : List (Text × Text)

-- json.NewDecoder(http.MaxBytesReader(...)).Decode(&req)
pub data Decoded : Type 0 where
  too_large : Decoded
  invalid_json : Text → Decoded
  decoded : SendRequest → Decoded

-- A header that is not there reads as the empty text.
pub record Request : Type 0 where
  pub authorization : Text
  pub idempotency_key : Text
  pub body : Decoded

pub data Body : Type 0 where
  error : Text → Body
  email_status : ℕ → Status → Body
  email_details : ℕ → Status → ℕ → Text → ℕ → ℕ → Body

pub record Response : Type 0 where
  pub code : ℕ
  pub body : Body

abbrev pub json_error : ℕ → Text → Response
json_error code message = record { code = code; body = error message }

-- auth, as far as it is pure: the token, if a bearer token is there.
unfoldable pub bearer_token : Text → Option Text
bearer_token authorization =
    let token = trim_prefix authorization (codes "Bearer ") in
    if is_empty token || text_eq token authorization then none else some token

abbrev pub Authed : Type 0
Authed = Option ApiKey

unfoldable pub on_key : Result (Option ApiKey) × Store → Authed × Store
on_key (ok (some k), s) = (some k, (touch_api_key k.id (now s) s).1)
on_key (ok none, s) = (none, s)
on_key (err e, s) = (none, s)

unfoldable pub with_token : Env → Option Text → Store → Authed × Store
unfolding on_key
with_token env none s = (none, s)
with_token env (some token) s = on_key (get_api_key_by_hash (env.hash_api_key token) s)

-- The key of the caller, or none after a response 401.
unfoldable pub auth : Env → Text → Store → Authed × Store
unfolding with_token
auth env authorization s = with_token env (bearer_token authorization) s

abbrev pub refuse_token : Option Text → Response
refuse_token none = json_error 401 (codes "missing bearer token")
refuse_token (some token) = json_error 401 (codes "invalid api key")

abbrev pub unauthorized : Text → Response
unauthorized authorization = refuse_token (bearer_token authorization)

-- for name, value := range req.Headers, in the order that the map gives
unfoldable pub check_headers : Formats → List (Text × Text) → Option Text
check_headers fm [] = none
check_headers fm ((k, v) ∷ hs) = then_check (validate_header fm k v) (check_headers fm hs)

abbrev pub reject_if : Bool → Text → Option Text
reject_if true message = some message
reject_if false message = none

pub reply_to_error : Env → Text → Option Text
reply_to_error env reply_to =
    if is_empty reply_to then none else elim (env.parse_address reply_to) [
      | none ↦ some (codes "invalid reply_to address")
      | some a ↦ none
    ]

-- The checks on the decoded request that answer 422, in their order: the first error.
unfoldable pub request_error : Env → SendRequest → Address → Address → Option Text
unfolding reply_to_error
request_error env req from to =
    then_check
      (reject_if (is_empty req.subject || (is_empty req.html && is_empty req.text))
        (codes "subject and html or text are required"))
      (then_check
        (prefix_error (codes "invalid subject: ")
          (validate_header_value (codes "Subject") req.subject))
        (then_check (reply_to_error env req.reply_to) (
          then_check
            (prefix_error (codes "invalid from: ") (
              validate_header_value (codes "From")
                (format_address env.formats from.name from.address)))
            (then_check
              (prefix_error (codes "invalid to: ") (
                validate_header_value (codes "To") (format_address env.formats to.name to.address)))
              (prefix_error (codes "invalid header: ") (check_headers env.formats req.headers))))))
