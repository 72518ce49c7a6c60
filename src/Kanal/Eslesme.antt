-- ===== src/Kanal/Eslesme.antt =====
-- The correlation of responses with the requests that were sent:
-- core/turkish_code/kanal/eslesme.py. A future is its number.
pub mod Steps
pub mod Laws
use turkish_code.Base.{
  ℕ, suc, ◌==◌, String, Bool, true, false, List, [], ◌∷◌, Option, none, some, if◌then◌else◌,
}
use turkish_code.Base.Dict.{Dict, lookup, insert, pop}
use turkish_code.Hata.{Raised, Result, ok, err}
use turkish_code.Kanal.Json.{Json}
use turkish_code.Kanal.Mesaj.{SuccessResponse, ErrorResponse}

pub data Response : Type 0 where
  succeeded : SuccessResponse → Response
  refused : ErrorResponse → Response

abbrev pub id_of_response : Response → Json
id_of_response (succeeded r) = r.id
id_of_response (refused r) = r.id

-- A future is done when it is not waiting.
pub data Future : Type 0 where
  waiting dropped : Future
  resolved : Response → Future

-- `PendingRequests`: the pending futures by the id of their request, which is a text here as the
-- channel makes it, how each future stands, and the number of the next one.
pub record PendingRequests : Type 0 where
  pub pending : Dict ℕ
  pub futures : ℕ → Future
  pub next : ℕ

abbrev pub none_pending : PendingRequests
none_pending = record { pending = []; futures = λ n. Future.waiting; next = 0 }

abbrev pub put_future : ℕ → Future → (ℕ → Future) → ℕ → Future
put_future f v futures n = if n == f then v else futures n

-- What ending a future makes of it: one that is done stays as it is.
abbrev pub settle : Future → Future → Future
settle v Future.waiting = v
settle v old = old

abbrev pub is_waiting : Future → Bool
is_waiting Future.waiting = true
is_waiting _ = false

-- `create`; the future is the number `next`.
unfoldable pub create_pending : String → PendingRequests → PendingRequests
create_pending id s = record {
  pending = insert id s.next s.pending;
  futures = put_future s.next Future.waiting s.futures;
  next = suc s.next;
}

-- The entry is popped and its future, if it is not done, is given an end.
unfoldable pub pop_and_settle : Future → String → PendingRequests → Bool × PendingRequests
pop_and_settle v id s = elim (lookup id s.pending) [
  | none ↦ (false, s)
  | some f ↦ (
    is_waiting (s.futures f),
    record {
      pending = pop id s.pending;
      futures = put_future f (settle v (s.futures f)) s.futures;
      next = s.next;
    },
  )
]

-- The pop of an id that is no text: no entry has it, but an array or an object is no key at all.
abbrev pub resolve_id : Response → Json → PendingRequests → Result Bool × PendingRequests
resolve_id r (Json.text id) s =
    let found = pop_and_settle (Future.resolved r) id s in (ok found.0, found.1)
resolve_id r (Json.array _) s = (err Raised.type_error, s)
resolve_id r (Json.object _) s = (err Raised.type_error, s)
resolve_id r _ s = (ok false, s)

unfoldable pub resolve_pending : Response → PendingRequests → Result Bool × PendingRequests
resolve_pending r s = resolve_id r (id_of_response r) s

unfoldable pub cancel_pending : String → PendingRequests → PendingRequests
cancel_pending id s = (pop_and_settle Future.dropped id s).1
