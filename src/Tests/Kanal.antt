-- ===== src/Tests/Kanal.antt =====
-- The channel of core/turkish_code/kanal at concrete streams and messages.
use turkish_code.Base.{
  ◌↔◌, ◌^◌, String, List, ◌≡◌, refl, true, false, [], ◌∷◌, ◌++◌, some, arith, take,
}
use turkish_code.Base.Bytes.{Bytes}
use turkish_code.Hata.{ok, err, type_error, overflow_error}
use turkish_code.Kanal.Cerceve.{decode_frame, read_stream}
use turkish_code.Kanal.Cerceve.Codec.{frame, IsFramed, IsTorn, decode_frame-IsTorn}
use turkish_code.Kanal.Cerceve.Loop.{frames, read_stream-clean, read_stream-torn}
use turkish_code.Kanal.Json.{null, natural, text, object, field, no_fields, get, find}
use turkish_code.Kanal.Mesaj.{Request, Message, request, success, to_wire, parse_frame}
use turkish_code.Kanal.Mesaj.Laws.{wire_of, parse_frame-to_wire}
use turkish_code.Kanal.Eslesme.{Response, Future, none_pending, create_pending}
use turkish_code.Kanal.Eslesme.Steps.{PendingCall, pending_calls}
use turkish_code.Kanal.Eslesme.Laws.{create_pending-received}
use turkish_code.Kanal.Dagitim.{Service, responds, replied, escaped, dispatch_request, deadline_ms}
use turkish_code.Kanal.Dagitim.Laws.{id_of, answerable, dispatch_request-answers}

abbrev ping : Bytes
ping = 112 ∷ 105 ∷ []

ping-IsFramed : IsFramed ping
ping-IsFramed = omega arith

-- The header is whole, the second byte of the body is not there.
decode_frame-IsTorn_example : IsTorn (decode_frame (take 5 (frame ping)))
decode_frame-IsTorn_example = decode_frame-IsTorn ping 5 ping-IsFramed (omega arith) (omega arith)

read_stream-clean_example :
    read_stream (λ p. false) (frames (ping ∷ ping ∷ []))
    ≡ record { handled = ping ∷ ping ∷ []; shutdown = true; raised = false }
read_stream-clean_example =
    read_stream-clean (λ p. false) (ping ∷ ping ∷ []) (ping-IsFramed, (ping-IsFramed, tt))
      (refl, (refl, tt))

read_stream-torn_example :
    read_stream (λ p. false) (frames (ping ∷ []) ++ take 5 (frame ping))
    ≡ record { handled = ping ∷ []; shutdown = false; raised = true }
read_stream-torn_example =
    read_stream-torn (λ p. false) (ping ∷ []) ping 5 (ping-IsFramed, tt) (refl, tt) ping-IsFramed
      (omega arith) (omega arith)

abbrev hello : Request
hello = record { id = natural 7; method = "app.hello"; params = null; meta = null }

abbrev detailed : Request
detailed = record hello { params = object (field "protocolVersion" (natural 1) no_fields) }

-- A library whose text of a value is the value.
parse_frame-to_wire_example :
    (to_wire (λ v. err type_error) (request detailed) ≡ ok (wire_of (request detailed)))
    × (parse_frame some (object (wire_of (request detailed))) ≡ ok (request detailed))
parse_frame-to_wire_example =
    parse_frame-to_wire (λ v. err type_error) some (λ v. v) (request detailed) refl refl

abbrev echo : Request → Service
echo r = record {
  ending = responds (success (record { id = r.id; result = text "ok" }));
  outlasts = λ deadline. false;
}

-- With a deadline.
abbrev urgent : Request
urgent = record hello { meta = object (field "deadlineMs" (natural 500) no_fields) }

dispatch_request-answers_example :
    ((m : Message) × (dispatch_request (some echo) urgent ≡ replied m) × (id_of m ≡ natural 7))
    ↔ (answerable urgent.meta (echo urgent) ≡ true)
dispatch_request-answers_example = dispatch_request-answers echo urgent own
  where
    own : (m : Message) → (echo urgent).ending ≡ responds m → id_of m ≡ natural 7
    own m h = ground arith

urgent-answerable : answerable urgent.meta (echo urgent) ≡ true
unfolding get find
urgent-answerable = refl

-- A deadline that no double holds: the OverflowError escapes.
abbrev endless : Request
endless = record hello { meta = object (field "deadlineMs" (natural (10 ^ 400)) no_fields) }

dispatch_request-endless : dispatch_request (some echo) endless ≡ escaped overflow_error
unfolding dispatch_request deadline_ms get find
dispatch_request-endless = refl

abbrev reply_to_text : String → Response
reply_to_text id = Response.succeeded (record { id = text id; result = null })

-- A response to another request, one with a number for an id, the awaited one and a second one.
abbrev replies : List PendingCall
replies =
    PendingCall.resolves (reply_to_text "core-1")
    ∷ PendingCall.resolves (Response.succeeded (record { id = natural 2; result = null }))
    ∷ PendingCall.resolves (reply_to_text "core-2")
    ∷ PendingCall.resolves (Response.succeeded (record { id = text "core-2"; result = natural 7 }))
    ∷ []

create_pending-received_example :
    let s = pending_calls (PendingCall.creates "core-1" ∷ []) none_pending in
    (pending_calls replies (create_pending "core-2" s)).futures s.next
    ≡ Future.resolved (reply_to_text "core-2")
create_pending-received_example =
    create_pending-received (PendingCall.creates "core-1" ∷ []) replies "core-2" refl
