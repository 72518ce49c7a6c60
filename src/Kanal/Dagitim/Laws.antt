-- ===== src/Kanal/Dagitim/Laws.antt =====
-- Laws of the dispatch of core/turkish_code/kanal/dagitim.py.
use mathlib.Core.Option.{map as Option_map}
use turkish_code.Base.{
  ℕ, ◌^◌, ◌-◌, ltb, leb, ◌↔◌, sym, ◌∙◌, inl, inr, Bool-cases, String, ◌≡◌, refl, arith, Bool, true,
  false, Option, none, some, if◌then◌else◌, str_eq, eq_iff,
}
use turkish_code.Base.Dict.{Dict, lookup, lookup-insert}
use turkish_code.Hata.{overflow_error, Result, Done, ok, err}
use turkish_code.Kanal.Json.{
  Json, Fields, boolean, natural, negative, array, null, text, object, get,
}
use turkish_code.Kanal.Mesaj.{
  Request, Notification, Message, request, notification, success, failure,
  error_response_from_app_error,
}
use turkish_code.Kanal.Dagitim.{
  Ending, responds, Service, Dispatch, replied, is_over, dispatch_request, deadline_ms, bounded,
  reply_to, number_of, CancellationRegistry, cancel_run_token, dispatch_notification,
}

-- The id that a message carries; a notification has none.
abbrev pub id_of : Message → Json
id_of (request r) = r.id
id_of (notification n) = null
id_of (success r) = r.id
id_of (failure r) = r.id

-- The handler comes to a response or an exception.
abbrev ends_well : Ending → Bool
ends_well Ending.raises_cancelled = false
ends_well Ending.never_ends = false
ends_well _ = true

abbrev is_never : Ending → Bool
is_never Ending.never_ends = true
is_never _ = false

-- A handler under a deadline: it is cut off, or it comes to a response or an exception before.
abbrev ends_by : Json → Service → Bool
ends_by deadline s =
    if is_never s.ending then true else if s.outlasts deadline then true else ends_well s.ending

-- With what stands under "deadlineMs": a number must be one that a double can hold.
abbrev answerable_by : Json → Service → Bool
answerable_by (natural n) s = if ltb n (2 ^ 1024 - 2 ^ 970) then ends_by (natural n) s else false
answerable_by (negative n) s = if ltb n (2 ^ 1024 - 2 ^ 970) then ends_by (negative n) s else false
answerable_by (boolean b) s = ends_by (natural (if b then 1 else 0)) s
answerable_by _ s = ends_well s.ending

-- By the metadata, which must be None or a dict.
abbrev pub answerable : Json → Service → Bool
answerable null s = ends_well s.ending
answerable (object fs) s = answerable_by (get "deadlineMs" fs) s
answerable _ s = false

cut_off-ends_well :
    (e : Ending) (outlasts : Bool)
    → (if is_never e then true else if outlasts then true else ends_well e)
      ≡ ends_well (if is_over e outlasts then Ending.raises_timeout else e)
cut_off-ends_well Ending.never_ends b = refl
cut_off-ends_well (responds m) b = ground arith
cut_off-ends_well (Ending.raises_app e) b = ground arith
cut_off-ends_well Ending.raises_timeout b = ground arith
cut_off-ends_well Ending.raises_other b = ground arith
cut_off-ends_well Ending.raises_cancelled b = ground arith

reply_to-replied :
    (id : Json) (ending : Ending)
    → ((m : Message) → ending ≡ responds m → id_of m ≡ id)
    → ends_well ending ≡ true
    → (m : Message) × (reply_to id ending ≡ replied m) × (id_of m ≡ id)
unfolding error_response_from_app_error
reply_to-replied id (responds m) own h = (m, refl, own m refl)
reply_to-replied id (Ending.raises_app e) own h = (_, refl, refl)
reply_to-replied id Ending.raises_timeout own h = (_, refl, refl)
reply_to-replied id Ending.raises_other own h = (_, refl, refl)
reply_to-replied id Ending.raises_cancelled own h = ground (arith, h)
reply_to-replied id Ending.never_ends own h = ground (arith, h)

replied-ends_well :
    (id : Json) (ending : Ending) (m : Message)
    → reply_to id ending ≡ replied m
    → ends_well ending ≡ true
replied-ends_well id (responds n) m h = refl
replied-ends_well id (Ending.raises_app e) m h = refl
replied-ends_well id Ending.raises_timeout m h = refl
replied-ends_well id Ending.raises_other m h = refl
replied-ends_well id Ending.raises_cancelled m h = ground (arith, h)
replied-ends_well id Ending.never_ends m h = ground (arith, h)

bounded-own :
    (id : Json) (deadline : Option Json) (s : Service)
    → ((m : Message) → s.ending ≡ responds m → id_of m ≡ id)
    → (m : Message) → bounded deadline s ≡ responds m
    → id_of m ≡ id
bounded-own id none s own m h = own m h
bounded-own id (some d) s own m h = ground (arith, own m)

-- What reading the deadline comes to decides.
abbrev Decides : Bool → Service → Result (Option Json) → Type 0
Decides answered s (ok d) = answered ≡ ends_well (bounded d s)
Decides answered s (err e) = answered ≡ false

-- An integer on either side of the limit.
float_of-Decides :
    (limit n : ℕ) (v : Json) (s : Service)
    → Decides
        (if ltb n limit then ends_by v s else false)
        s
        (if leb limit n then err overflow_error else ok (some v))
float_of-Decides limit n v s = elim (Bool-cases (leb limit n)) [
  | inl over ↦ rw over (ground (arith, over))
  | inr fits ↦ rw fits (ground (arith, fits, cut_off-ends_well s.ending (s.outlasts v)))
]

number_of-Decides : (v : Json) (s : Service) → Decides (answerable_by v s) s (number_of v)
number_of-Decides (natural n) s = float_of-Decides (2 ^ 1024 - 2 ^ 970) n (natural n) s
number_of-Decides (negative n) s = float_of-Decides (2 ^ 1024 - 2 ^ 970) n (negative n) s
number_of-Decides (boolean b) s =
    cut_off-ends_well s.ending (s.outlasts (natural (if b then 1 else 0)))
number_of-Decides null s = refl
number_of-Decides (text t) s = refl
number_of-Decides (array is) s = refl
number_of-Decides (object fs) s = refl

deadline_ms-Decides : (meta : Json) (s : Service) → Decides (answerable meta s) s (deadline_ms meta)
unfolding deadline_ms
deadline_ms-Decides null s = refl
deadline_ms-Decides (object fs) s = number_of-Decides (get "deadlineMs" fs) s
deadline_ms-Decides (boolean b) s = refl
deadline_ms-Decides (natural n) s = refl
deadline_ms-Decides (negative n) s = refl
deadline_ms-Decides (text t) s = refl
deadline_ms-Decides (array is) s = refl

abbrev IsAnswered : Json → Dispatch → Type 0
IsAnswered id d = (m : Message) × (d ≡ replied m) × (id_of m ≡ id)

reply_to-IsAnswered :
    (id : Json) (answered : Bool) (s : Service) (read : Result (Option Json))
    → ((m : Message) → s.ending ≡ responds m → id_of m ≡ id)
    → Decides answered s read
    → IsAnswered id (elim read [ err e ↦ Dispatch.escaped e | ok d ↦ reply_to id (bounded d s) ])
      ↔ (answered ≡ true)
reply_to-IsAnswered id answered s (err e) own h =
    (λ a. ground (arith, a.1), λ a. ground (arith, h, a))
reply_to-IsAnswered id answered s (ok d) own h = (
  λ a. h ∙ replied-ends_well id (bounded d s) a.0 a.1,
  λ a. reply_to-replied id (bounded d s) (bounded-own id d s own) (sym h ∙ a),
)

-- A request with a handler is answered, under its own id, exactly if its metadata is None, or a dict
-- in which "deadlineMs", if it is an integer, is within the range of a double; and the handler
-- comes to a response or an exception that is no CancelledError, or there is a deadline and it
-- overruns it. A response of the handler's own is taken to carry the id of the request.
pub dispatch_request-answers :
    (handler : Request → Service) (r : Request)
    → ((m : Message) → (handler r).ending ≡ responds m → id_of m ≡ r.id)
    → ((m : Message) × (dispatch_request (some handler) r ≡ replied m) × (id_of m ≡ r.id))
      ↔ (answerable r.meta (handler r) ≡ true)
unfolding dispatch_request
dispatch_request-answers handler r own =
    reply_to-IsAnswered r.id (answerable r.meta (handler r)) (handler r) (deadline_ms r.meta) own
      (deadline_ms-Decides r.meta (handler r))

-- `$/cancel` with a run id never fails and sets the token of that run if it is tracked; every
-- other token is as it was, and no token comes or goes, whatever handlers are registered.
dispatch_notification-cancels :
    (handlers : Dict (Notification → Done)) (fs : Fields) (run_id j : String)
    (tokens : CancellationRegistry)
    → get "runId" fs ≡ text run_id
    → let r =
        dispatch_notification handlers
          (record { method = "$/cancel"; params = object fs })
          tokens in
      (r.0 ≡ ok tt)
      × (lookup j r.1 ≡ Option_map (λ b. if str_eq run_id j then true else b) (lookup j tokens))
unfolding dispatch_notification cancel_run_token
dispatch_notification-cancels handlers fs run_id j tokens here =
    rw (here) (refl, ground (arith, lookup-insert run_id j true tokens, eq_iff run_id j))
