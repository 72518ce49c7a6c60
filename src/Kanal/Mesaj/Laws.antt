-- ===== src/Kanal/Mesaj/Laws.antt =====
-- Laws of the messages and the error codes of core/turkish_code/kanal.
use turkish_code.Base.{
  Bool, ◌&&◌, String, true, false, str_eq, eq_refl, ℕ, ◌≡◌, refl, sym, ap, ◌∙◌, arith, ◌≤◌, Option,
  none, some, if◌then◌else◌, ◌==◌,
}
use turkish_code.Hata.{ErrorKind, Result, ok}
use turkish_code.Kanal.Json.{
  Json, Fields, null, boolean, natural, negative, text, array, object, find, get, field, field_if,
  no_fields,
}
use turkish_code.Kanal.Mesaj.{
  Request, Notification, ErrorResponse, request, notification, success, failure, is_version,
  code_for_kind, Message, dict_of, copy_set, error_to_wire, to_wire, parse_frame, classify,
}

-- The kind that a code stands for, as a client reads it.
kind_of_code : ℕ → ErrorKind
kind_of_code n =
    if n == 32040
    then ErrorKind.validation
    else if n == 32041
    then ErrorKind.permission
    else if n == 32042
    then ErrorKind.not_found
    else if n == 32043
    then ErrorKind.conflict
    else if n == 32044
    then ErrorKind.provider
    else if n == 32045
    then ErrorKind.egress
    else if n == 32046
    then ErrorKind.resource
    else if n == 32047
    then ErrorKind.budget
    else if n == 32048
    then ErrorKind.cancelled
    else if n == 32049
    then ErrorKind.corruption
    else if n == 32050
    then ErrorKind.timeout
    else if n == 32051
    then ErrorKind.security
    else ErrorKind.internal

kind_of_code-code_for_kind : (k : ErrorKind) → kind_of_code (code_for_kind k) ≡ k
unfolding kind_of_code code_for_kind
kind_of_code-code_for_kind ErrorKind.internal = refl
kind_of_code-code_for_kind ErrorKind.validation = refl
kind_of_code-code_for_kind ErrorKind.permission = refl
kind_of_code-code_for_kind ErrorKind.not_found = refl
kind_of_code-code_for_kind ErrorKind.conflict = refl
kind_of_code-code_for_kind ErrorKind.provider = refl
kind_of_code-code_for_kind ErrorKind.egress = refl
kind_of_code-code_for_kind ErrorKind.resource = refl
kind_of_code-code_for_kind ErrorKind.budget = refl
kind_of_code-code_for_kind ErrorKind.cancelled = refl
kind_of_code-code_for_kind ErrorKind.corruption = refl
kind_of_code-code_for_kind ErrorKind.timeout = refl
kind_of_code-code_for_kind ErrorKind.security = refl

code_for_kind_bounds : (k : ErrorKind) → (32000 ≤ code_for_kind k) × (code_for_kind k ≤ 32099)
unfolding code_for_kind
code_for_kind_bounds ErrorKind.internal = (omega arith, omega arith)
code_for_kind_bounds ErrorKind.validation = (omega arith, omega arith)
code_for_kind_bounds ErrorKind.permission = (omega arith, omega arith)
code_for_kind_bounds ErrorKind.not_found = (omega arith, omega arith)
code_for_kind_bounds ErrorKind.conflict = (omega arith, omega arith)
code_for_kind_bounds ErrorKind.provider = (omega arith, omega arith)
code_for_kind_bounds ErrorKind.egress = (omega arith, omega arith)
code_for_kind_bounds ErrorKind.resource = (omega arith, omega arith)
code_for_kind_bounds ErrorKind.budget = (omega arith, omega arith)
code_for_kind_bounds ErrorKind.cancelled = (omega arith, omega arith)
code_for_kind_bounds ErrorKind.corruption = (omega arith, omega arith)
code_for_kind_bounds ErrorKind.timeout = (omega arith, omega arith)
code_for_kind_bounds ErrorKind.security = (omega arith, omega arith)

-- Two kinds of error that have the same code are the same, and every code is in the band that
-- JSON-RPC leaves to servers, -32000 to -32099.
pub code_for_kind_injective :
    (k l : ErrorKind)
    → code_for_kind k ≡ code_for_kind l
    → (k ≡ l) × (32000 ≤ code_for_kind k) × (code_for_kind k ≤ 32099)
code_for_kind_injective k l same = (
  sym (kind_of_code-code_for_kind k) ∙ ap kind_of_code same ∙ kind_of_code-code_for_kind l,
  (code_for_kind_bounds k).0,
  (code_for_kind_bounds k).1,
)

-- A key that is set unless it is None reads as what it was set to,
get-field_if :
    (k : String) (v : Json) (fs : Fields) → find k fs ≡ none → get k (field_if k v fs) ≡ v
unfolding get find
get-field_if k null fs absent = ground (arith, eq_refl k)
get-field_if k (boolean b) fs absent = ground (arith, eq_refl k)
get-field_if k (natural n) fs absent = ground (arith, eq_refl k)
get-field_if k (negative n) fs absent = ground (arith, eq_refl k)
get-field_if k (text s) fs absent = ground (arith, eq_refl k)
get-field_if k (array is) fs absent = ground (arith, eq_refl k)
get-field_if k (object gs) fs absent = ground (arith, eq_refl k)

-- and setting it changes no other key.
find-field_if :
    (j k : String) (v : Json) (fs : Fields)
    → str_eq j k ≡ false
    → find k (field_if j v fs) ≡ find k fs
unfolding find
find-field_if j k null fs apart = ground arith
find-field_if j k (boolean b) fs apart = ground arith
find-field_if j k (natural n) fs apart = ground arith
find-field_if j k (negative n) fs apart = ground arith
find-field_if j k (text s) fs apart = ground arith
find-field_if j k (array is) fs apart = ground arith
find-field_if j k (object gs) fs apart = ground arith

-- The envelope of each kind of message.
unfoldable pub wire_of : Message → Fields
wire_of (request r) = field "jsonrpc" (text "2.0") (
    field "id" r.id (
      field "method" (text r.method)
        (field_if "params" r.params (field_if "meta" r.meta no_fields))))
wire_of (notification n) =
    field "jsonrpc" (text "2.0")
      (field "method" (text n.method) (field_if "params" n.params no_fields))
wire_of (success r) =
    field "jsonrpc" (text "2.0") (field "id" r.id (field "result" r.result no_fields))
wire_of (failure r) =
    let e = r.error in
    field "jsonrpc" (text "2.0") (
      field "id" r.id (
        field "error"
          (object
            (field "code" e.code (field "message" e.message (field_if "data" e.payload no_fields))))
          no_fields))

classify-request : (r : Request) → classify (wire_of (request r)) ≡ ok (request r)
unfolding classify wire_of get find
classify-request r =
    rw
      (
        get-field_if "params" r.params (field_if "meta" r.meta no_fields)
            (find-field_if "meta" "params" r.meta no_fields refl),
        find-field_if "params" "meta" r.params (field_if "meta" r.meta no_fields) refl,
        get-field_if "meta" r.meta no_fields refl,
      )
      refl

classify-notification :
    (n : Notification) → classify (wire_of (notification n)) ≡ ok (notification n)
unfolding classify wire_of get find
classify-notification n =
    rw
      (
        find-field_if "params" "id" n.params no_fields refl,
        get-field_if "params" n.params no_fields refl,
      )
      refl

classify-failure : (r : ErrorResponse) → classify (wire_of (failure r)) ≡ ok (failure r)
unfolding classify wire_of get find
classify-failure r =
    ap (λ payload. ok (failure (record r { error = record r.error { payload = payload } })))
      (get-field_if "data" r.error.payload no_fields refl)

classify-wire_of : (m : Message) → classify (wire_of m) ≡ ok m
unfolding classify wire_of find
classify-wire_of (request r) = classify-request r
classify-wire_of (notification n) = classify-notification n
classify-wire_of (success r) = refl
classify-wire_of (failure r) = classify-failure r

wire_of-is_version : (m : Message) → is_version (get "jsonrpc" (wire_of m)) ≡ true
unfolding wire_of get find
wire_of-is_version (request r) = refl
wire_of-is_version (notification n) = refl
wire_of-is_version (success r) = refl
wire_of-is_version (failure r) = refl

-- None or a dict, which is what the types of the parameters, the metadata and the data say.
abbrev is_mapping : Json → Bool
is_mapping null = true
is_mapping (object fs) = true
is_mapping _ = false

abbrev pub has_mappings : Message → Bool
has_mappings (request r) = is_mapping r.params && is_mapping r.meta
has_mappings (notification n) = is_mapping n.params
has_mappings (success r) = true
has_mappings (failure r) = is_mapping r.error.payload

copy_set-is_mapping :
    (pairs : Json → Result Json) (v : Json) → is_mapping v ≡ true → copy_set pairs v ≡ ok v
unfolding copy_set dict_of
copy_set-is_mapping pairs null h = refl
copy_set-is_mapping pairs (object fs) h = refl
copy_set-is_mapping pairs (boolean b) h = ground (arith, h)
copy_set-is_mapping pairs (natural n) h = ground (arith, h)
copy_set-is_mapping pairs (negative n) h = ground (arith, h)
copy_set-is_mapping pairs (text s) h = ground (arith, h)
copy_set-is_mapping pairs (array is) h = ground (arith, h)

to_wire-wire_of :
    (pairs : Json → Result Json) (m : Message)
    → has_mappings m ≡ true
    → to_wire pairs m ≡ ok (wire_of m)
unfolding to_wire error_to_wire wire_of
to_wire-wire_of pairs (request r) h =
    rw
      (
        copy_set-is_mapping pairs r.params (ground (arith, h)),
        copy_set-is_mapping pairs r.meta (ground (arith, h)),
      )
      refl
to_wire-wire_of pairs (notification n) h = rw (copy_set-is_mapping pairs n.params h) refl
to_wire-wire_of pairs (success r) h = refl
to_wire-wire_of pairs (failure r) h = rw (copy_set-is_mapping pairs r.error.payload h) refl

-- A message whose parameters, metadata and error data are None or dicts, as their types say, is put
-- on the wire as the envelope of JSON-RPC, without an exception, and is read back as it was, if the
-- JSON library reads back the object that it has printed.
pub parse_frame-to_wire :
    {Raw : Type 0} (pairs : Json → Result Json) (loads : Raw → Option Json) (dumps : Json → Raw)
    (m : Message)
    → has_mappings m ≡ true
    → loads (dumps (object (wire_of m))) ≡ some (object (wire_of m))
    → (to_wire pairs m ≡ ok (wire_of m)) × (parse_frame loads (dumps (object (wire_of m))) ≡ ok m)
unfolding parse_frame
parse_frame-to_wire pairs loads dumps m typed read_back = (
  to_wire-wire_of pairs m typed,
  rw (read_back, parse_frame) (rw (wire_of-is_version m) (classify-wire_of m)),
)
