-- ===== src/Kanal/Mesaj.antt =====
-- The messages of the channel and the numeric error codes: core/turkish_code/kanal/mesaj.py, with
-- the parsing of core/turkish_code/kanal/dogrulama.py behind its `json.loads`. An error code that
-- is negative is the number under `negative`.
pub mod Laws
use Prim.Native.String.{◌++◌ as str_append}
use turkish_code.Base.{ℕ, String, Bool, true, false, Option, none, some, if◌then◌else◌, str_eq}
use turkish_code.Hata.{
  ErrorKind, AppError, kind_of, code_of, retryable_of, Raised, type_error, Result, ok, err,
  raise_app, ◌>>=◌,
}
use turkish_code.Kanal.Json.{
  Json, Fields, find, get, or_null, field_if, null, boolean, natural, negative, text, array,
  no_items, object, no_fields, field,
}

unfoldable pub code_for_kind : ErrorKind → ℕ
code_for_kind ErrorKind.internal = 32000
code_for_kind ErrorKind.validation = 32040
code_for_kind ErrorKind.permission = 32041
code_for_kind ErrorKind.not_found = 32042
code_for_kind ErrorKind.conflict = 32043
code_for_kind ErrorKind.provider = 32044
code_for_kind ErrorKind.egress = 32045
code_for_kind ErrorKind.resource = 32046
code_for_kind ErrorKind.budget = 32047
code_for_kind ErrorKind.cancelled = 32048
code_for_kind ErrorKind.corruption = 32049
code_for_kind ErrorKind.timeout = 32050
code_for_kind ErrorKind.security = 32051

-- What a frame says is not checked further than `_classify` does: an id is any JSON value.
pub record Request : Type 0 where
  pub id : Json
  pub method : String
  pub params : Json
  pub meta : Json

pub record Notification : Type 0 where
  pub method : String
  pub params : Json

pub record JsonRpcError : Type 0 where
  pub code : Json
  pub message : Json
  pub payload : Json

pub record SuccessResponse : Type 0 where
  pub id : Json
  pub result : Json

pub record ErrorResponse : Type 0 where
  pub id : Json
  pub error : JsonRpcError

-- `ParsedMessage`
pub data Message : Type 0 where
  request : Request → Message
  notification : Notification → Message
  success : SuccessResponse → Message
  failure : ErrorResponse → Message

-- `dict(value)`, where `pairs` is what the built-in makes of a list or a text that is not empty: it
-- takes its items for pairs of a key and a value.
module _ (pairs : Json → Result Json) where
  unfoldable pub dict_of : Json → Result Json
  dict_of (object fs) = ok (object fs)
  dict_of (array no_items) = ok (object no_fields)
  dict_of (array is) = pairs (array is)
  dict_of (text String.[]) = ok (object no_fields)
  dict_of (text s) = pairs (text s)
  dict_of _ = err type_error

  -- The copy, unless the value is None.
  unfoldable pub copy_set : Json → Result Json
  unfolding dict_of
  copy_set null = ok null
  copy_set v = dict_of v

  unfoldable pub error_to_wire : JsonRpcError → Result Json
  error_to_wire e = copy_set e.payload >>= λ payload.
      ok (
        object
          (field "code" e.code (field "message" e.message (field_if "data" payload no_fields))))

  -- The `to_wire` of each kind of message.
  unfoldable pub to_wire : Message → Result Fields
  unfolding copy_set error_to_wire
  to_wire (request r) = copy_set r.params >>= λ params. copy_set r.meta >>= λ meta. ok (
      field "jsonrpc" (text "2.0") (
        field "id" r.id (
          field "method" (text r.method)
            (field_if "params" params (field_if "meta" meta no_fields)))))
  to_wire (notification n) = copy_set n.params >>= λ params. ok (
      field "jsonrpc" (text "2.0")
        (field "method" (text n.method) (field_if "params" params no_fields)))
  to_wire (success r) =
      ok (field "jsonrpc" (text "2.0") (field "id" r.id (field "result" r.result no_fields)))
  to_wire (failure r) = error_to_wire r.error >>= λ error.
      ok (field "jsonrpc" (text "2.0") (field "id" r.id (field "error" error no_fields)))

abbrev malformed {ℓ} : {A : Type ℓ} → Result A
malformed = raise_app ErrorKind.validation "ipc.malformed_frame"

abbrev error_fields : Option Json → Option Json → Json → Result JsonRpcError
error_fields (some code) (some message) payload =
    ok (record { code = code; message = message; payload = payload })
error_fields _ _ payload = malformed

-- `_parse_error`
abbrev parse_error : Json → Result JsonRpcError
parse_error (object fs) = error_fields (find "code" fs) (find "message" fs) (get "data" fs)
parse_error _ = malformed

-- The branch of a message with a method, by whether there is an id.
abbrev method_message : Fields → Option Json → Json → Result Message
method_message fs (some id) (text method) =
    ok (
      request (record { id = id; method = method; params = get "params" fs; meta = get "meta" fs }))
method_message fs none (text method) =
    ok (notification (record { method = method; params = get "params" fs }))
method_message fs _ _ = malformed

abbrev error_message : Fields → Option Json → Result Message
error_message fs none = malformed
error_message fs (some e) =
    parse_error e >>= λ error. ok (failure (record { id = get "id" fs; error = error }))

abbrev response_message : Fields → Option Json → Option Json → Result Message
response_message fs (some result) (some id) = ok (success (record { id = id; result = result }))
response_message fs _ _ = error_message fs (find "error" fs)

-- `_classify`
unfoldable pub classify : Fields → Result Message
classify fs = elim (find "method" fs) [
  | some method ↦ method_message fs (find "id" fs) method
  | none ↦ response_message fs (find "result" fs) (find "id" fs)
]

abbrev pub is_version : Json → Bool
is_version (text v) = str_eq v "2.0"
is_version _ = false

abbrev parse_object : Json → Result Message
parse_object (object fs) = if is_version (get "jsonrpc" fs) then classify fs else malformed
parse_object _ = malformed

-- `parse_frame`, where `loads` decodes the bytes and reads the JSON, and gives none for its errors.
unfoldable pub parse_frame {ℓ} : {Raw : Type ℓ} → (Raw → Option Json) → Raw → Result Message
parse_frame loads raw = elim (loads raw) [ none ↦ malformed | some data_of ↦ parse_object data_of ]

-- The wire value of `ErrorKind` (core/turkish_code/hata/kinds.py).
abbrev kind_value : ErrorKind → String
kind_value ErrorKind.validation = "Validation"
kind_value ErrorKind.permission = "Permission"
kind_value ErrorKind.not_found = "NotFound"
kind_value ErrorKind.conflict = "Conflict"
kind_value ErrorKind.provider = "Provider"
kind_value ErrorKind.egress = "Egress"
kind_value ErrorKind.resource = "Resource"
kind_value ErrorKind.budget = "Budget"
kind_value ErrorKind.timeout = "Timeout"
kind_value ErrorKind.cancelled = "Cancelled"
kind_value ErrorKind.corruption = "Corruption"
kind_value ErrorKind.internal = "Internal"
kind_value ErrorKind.security = "Security"

-- The `message_key` of an error, which is built as `hata.` with the code.
abbrev message_key_of : AppError → String
message_key_of e = str_append "hata." (code_of e)

-- `to_error_data` of core/turkish_code/hata/app_error.py, without the optional `remedy` and
-- `context`.
unfoldable pub to_error_data : AppError → Fields
to_error_data e = field "kind" (text (kind_value (kind_of e))) (
    field "code" (text (code_of e)) (
      field "messageKey" (text (message_key_of e))
        (field "retryable" (boolean (retryable_of e)) no_fields)))

unfoldable pub error_response_from_app_error : Json → AppError → ErrorResponse
error_response_from_app_error id e = record {
  id = id;
  error = record {
    code = negative (code_for_kind (kind_of e));
    message = text (message_key_of e);
    payload = object (to_error_data e);
  };
}
