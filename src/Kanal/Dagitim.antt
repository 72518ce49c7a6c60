-- ===== src/Kanal/Dagitim.antt =====
-- Dispatch of a request and of a notification: core/turkish_code/kanal/dagitim.py, with the
-- registry of the cancellation tokens of core/turkish_code/kanal/iptal.py.
pub mod Laws
use turkish_code.Base.{
  ℕ, ◌^◌, ◌-◌, leb, String, Bool, true, false, Option, none, some, if◌then◌else◌, str_eq,
}
use turkish_code.Base.Dict.{Dict, lookup, insert, pop}
use turkish_code.Hata.{
  ErrorKind, AppError, app_error, no_cause, Raised, attribute_error, overflow_error, Result, Done,
  ok, err, ◌>>=◌,
}
use turkish_code.Kanal.Json.{
  Json, Fields, array, no_items, null, boolean, natural, negative, text, object, no_fields, find,
  get,
}
use turkish_code.Kanal.Mesaj.{
  Request, Notification, Message, failure, error_response_from_app_error,
}

-- The first integer that `float` refuses: halfway from the greatest double to 2 ^ 1024.
abbrev pub float_limit : ℕ
float_limit = 2 ^ 1024 - 2 ^ 970

abbrev pub float_of : ℕ → Json → Result (Option Json)
float_of n v = if leb float_limit n then err overflow_error else ok (some v)

-- `float(value) if isinstance(value, (int, float)) else None`: a bool is an int.
abbrev pub number_of : Json → Result (Option Json)
number_of (natural n) = float_of n (natural n)
number_of (negative n) = float_of n (negative n)
number_of (boolean b) = ok (some (natural (if b then 1 else 0)))
number_of _ = ok none

-- `Request.deadline_ms` of mesaj.py. `meta.get` is an AttributeError on what is no dict.
unfoldable pub deadline_ms : Json → Result (Option Json)
deadline_ms null = ok none
deadline_ms (object fs) = number_of (get "deadlineMs" fs)
deadline_ms _ = err attribute_error

-- What a handler comes to: a response, an exception, one that is no Exception as asyncio's
-- CancelledError, or no end.
pub data Ending : Type 0 where
  responds : Message → Ending
  raises_app : AppError → Ending
  raises_timeout raises_other raises_cancelled never_ends : Ending

-- A handler for one request, and whether it is still running when a deadline passes; one that is
-- cancelled then lets the CancelledError through.
pub record Service : Type 0 where
  pub ending : Ending
  pub outlasts : Json → Bool

-- What `dispatch_request` comes to: a response, an exception, CancelledError, or no end.
pub data Dispatch : Type 0 where
  replied : Message → Dispatch
  escaped : Raised → Dispatch
  interrupted unending : Dispatch

abbrev method_not_found : AppError
method_not_found = app_error ErrorKind.not_found "ipc.method_not_found" false no_cause

abbrev deadline_exceeded : AppError
deadline_exceeded = app_error ErrorKind.timeout "ipc.deadline_exceeded" true no_cause

abbrev internal_error : AppError
internal_error = app_error ErrorKind.internal "ipc.internal_error" false no_cause

abbrev error_reply : Json → AppError → Message
error_reply id e = failure (error_response_from_app_error id e)

-- The `except` clauses: CancelledError is no Exception.
abbrev pub reply_to : Json → Ending → Dispatch
reply_to id (responds m) = replied m
reply_to id (raises_app e) = replied (error_reply id e)
reply_to id raises_timeout = replied (error_reply id deadline_exceeded)
reply_to id raises_other = replied (error_reply id internal_error)
reply_to id raises_cancelled = interrupted
reply_to id never_ends = unending

abbrev pub is_over : Ending → (outlasts : Bool) → Bool
is_over never_ends outlasts = true
is_over _ outlasts = outlasts

abbrev pub bounded : Option Json → Service → Ending
bounded none s = s.ending
bounded (some deadline) s =
    if is_over s.ending (s.outlasts deadline) then raises_timeout else s.ending

-- The deadline is read before the `try`.
unfoldable pub dispatch_request : Option (Request → Service) → Request → Dispatch
unfolding deadline_ms
dispatch_request none r = replied (error_reply r.id method_not_found)
dispatch_request (some handler) r = elim (deadline_ms r.meta) [
  | err e ↦ escaped e
  | ok deadline ↦ reply_to r.id (bounded deadline (handler r))
]

-- `CancellationRegistry`: whether each token is set.
abbrev pub CancellationRegistry : Type 0
CancellationRegistry = Dict Bool

unfoldable pub register_run : String → CancellationRegistry → CancellationRegistry
register_run run_id tokens = insert run_id false tokens

unfoldable pub cancel_run_token : String → CancellationRegistry → CancellationRegistry
cancel_run_token run_id tokens = elim (lookup run_id tokens) [
  | none ↦ tokens
  | some _ ↦ insert run_id true tokens
]

unfoldable pub unregister_run : String → CancellationRegistry → CancellationRegistry
unregister_run run_id tokens = pop run_id tokens

-- `(note.params or {}).get("runId")`: what is falsy gives no run id, what is no dict an
-- AttributeError.
abbrev run_id_of : Json → Result Json
run_id_of (object fs) = ok (get "runId" fs)
run_id_of null = ok null
run_id_of (boolean false) = ok null
run_id_of (natural ℕ.zero) = ok null
run_id_of (text String.[]) = ok null
run_id_of (array no_items) = ok null
run_id_of _ = err attribute_error

abbrev cancel_json : Json → CancellationRegistry → CancellationRegistry
cancel_json (text run_id) tokens = cancel_run_token run_id tokens
cancel_json _ tokens = tokens

-- `dispatch_notification`, where the registered handlers are given by what they end in.
unfoldable pub dispatch_notification :
    Dict (Notification → Done) → Notification → CancellationRegistry → Done × CancellationRegistry
dispatch_notification handlers note tokens =
    if str_eq note.method "$/cancel"
    then elim (run_id_of note.params) [
      | ok run_id ↦ (ok tt, cancel_json run_id tokens)
      | err e ↦ (err e, tokens)
    ]
    else elim (lookup note.method handlers) [
      | none ↦ (ok tt, tokens)
      | some handler ↦ (handler note, tokens)
    ]
