-- ===== src/Kanal/Eslesme/Steps.antt =====
-- What one call does to a pending request of core/turkish_code/kanal/eslesme.py.
use turkish_code.Base.{
  ℕ, ltb, ◌≡◌, ◌≢◌, refl, arith, String, Bool, true, false, inl, inr, List, [], ◌∷◌, some,
  if◌then◌else◌, str_eq, eq_iff, eq_refl, Option-cases,
}
use turkish_code.Base.Dict.{lookup, lookup-insert, lookup-pop}
use turkish_code.Kanal.Json.{Json}
use turkish_code.Kanal.Eslesme.{
  Response, id_of_response, Future, PendingRequests, none_pending, create_pending, pop_and_settle,
  resolve_id, resolve_pending, cancel_pending,
}

-- The calls on the table.
pub data PendingCall : Type 0 where
  creates cancels : String → PendingCall
  resolves : Response → PendingCall

abbrev pub pending_call : PendingCall → PendingRequests → PendingRequests
pending_call (creates id) s = create_pending id s
pending_call (cancels id) s = cancel_pending id s
pending_call (resolves r) s = (resolve_pending r s).1

unfoldable pub pending_calls : List PendingCall → PendingRequests → PendingRequests
pending_calls [] s = s
pending_calls (c ∷ cs) s = pending_calls cs (pending_call c s)

-- Some call creates or cancels a request with this id.
abbrev pub takes : String → PendingCall → Bool
takes id (creates j) = str_eq j id
takes id (cancels j) = str_eq j id
takes id (resolves r) = false

abbrev pub taken_in : String → List PendingCall → Bool
taken_in id [] = false
taken_in id (c ∷ cs) = if takes id c then true else taken_in id cs

abbrev pub is_text : String → Json → Bool
is_text id (Json.text j) = str_eq j id
is_text id _ = false

-- How the future of a request stands after the calls, by what came in first with its id.
abbrev pub received : String → List PendingCall → Future
received id [] = Future.waiting
received id (creates j ∷ cs) = received id cs
received id (cancels j ∷ cs) = received id cs
received id (resolves r ∷ cs) =
    let later = received id cs in if is_text id (id_of_response r) then Future.resolved r else later

-- The pending futures have been handed out.
abbrev pub IsBelow : PendingRequests → Type 0
IsBelow s = (k : String) (f : ℕ) → lookup k s.pending ≡ some f → ltb f s.next ≡ true

pop_and_settle-IsBelow :
    (v : Future) (id : String) (s : PendingRequests) → IsBelow s → IsBelow (pop_and_settle v id s).1
unfolding pop_and_settle
pop_and_settle-IsBelow v id s h = elim (Option-cases (lookup id s.pending)) [
  | inl absent ↦ rw (absent, pop_and_settle) h
  | inr (f, here) ↦
      rw (here, pop_and_settle) (λ k g there. ground (arith, lookup-pop id k s.pending, h k g))
]

-- A property of the table that popping keeps, a response keeps.
pub resolve_id-keeps :
    (P : PendingRequests → Type 0) (r : Response) (j : Json) (s : PendingRequests)
    → P s
    → ((id : String) → j ≡ Json.text id → P (pop_and_settle (Future.resolved r) id s).1)
    → P (resolve_id r j s).1
resolve_id-keeps P r (Json.text id) s h f = f id refl
resolve_id-keeps P r Json.null s h f = h
resolve_id-keeps P r (Json.boolean b) s h f = h
resolve_id-keeps P r (Json.natural n) s h f = h
resolve_id-keeps P r (Json.negative n) s h f = h
resolve_id-keeps P r (Json.array _) s h f = h
resolve_id-keeps P r (Json.object _) s h f = h

pending_call-IsBelow :
    (c : PendingCall) (s : PendingRequests) → IsBelow s → IsBelow (pending_call c s)
unfolding create_pending cancel_pending resolve_pending
pending_call-IsBelow (creates id) s h =
    λ k f there. ground (arith, lookup-insert id k s.next s.pending, eq_iff id k, h k f)
pending_call-IsBelow (cancels id) s h = pop_and_settle-IsBelow Future.dropped id s h
pending_call-IsBelow (resolves r) s h =
    resolve_id-keeps IsBelow r (id_of_response r) s h
      (λ id e. pop_and_settle-IsBelow (Future.resolved r) id s h)

pub pending_calls-IsBelow :
    (cs : List PendingCall) (s : PendingRequests) → IsBelow s → IsBelow (pending_calls cs s)
unfolding pending_calls
pending_calls-IsBelow [] s h = h
pending_calls-IsBelow (c ∷ cs) s h =
    pending_calls-IsBelow cs (pending_call c s) (pending_call-IsBelow c s h)

pub none_pending-IsBelow : IsBelow none_pending
unfolding lookup
none_pending-IsBelow = λ k f here. ground arith

-- The request waits: its entry is there, and no other entry has its future.
abbrev pub Waits : String → ℕ → PendingRequests → Type 0
Waits id f s =
    (lookup id s.pending ≡ some f)
    × (s.futures f ≡ Future.waiting)
    × (ltb f s.next ≡ true)
    × ((k : String) → lookup k s.pending ≡ some f → k ≡ id)

-- The future stands as given, and no entry has it.
abbrev pub Ended : Future → ℕ → PendingRequests → Type 0
Ended v f s =
    (s.futures f ≡ v) × (ltb f s.next ≡ true) × ((k : String) → lookup k s.pending ≢ some f)

pub create_pending-Waits :
    (id : String) (s : PendingRequests) → IsBelow s → Waits id s.next (create_pending id s)
unfolding create_pending
create_pending-Waits id s h = (
  ground (arith, lookup-insert id id s.next s.pending, eq_refl id),
  ground arith,
  ground arith,
  λ k there. ground (arith, lookup-insert id k s.next s.pending, eq_iff id k, h k s.next),
)

pub create_pending-Ended :
    (v : Future) (f : ℕ) (id : String) (s : PendingRequests)
    → Ended v f s
    → Ended v f (create_pending id s)
unfolding create_pending
create_pending-Ended v f id s (stands, below, gone) = (
  ground (arith, stands, below),
  ground (arith, below),
  λ k there. ground (arith, lookup-insert id k s.next s.pending, gone k, below),
)

pub pop_and_settle-Ended :
    (u v : Future) (f : ℕ) (id : String) (s : PendingRequests)
    → Ended v f s
    → Ended v f (pop_and_settle u id s).1
unfolding pop_and_settle
pop_and_settle-Ended u v f id s (stands, below, gone) = elim (Option-cases (lookup id s.pending)) [
  | inl absent ↦ rw (absent, pop_and_settle) (stands, below, gone)
  | inr (g, here) ↦
      rw (here, pop_and_settle)
        (
          ground (arith, stands, gone id, here),
          below,
          λ k there. ground (arith, lookup-pop id k s.pending, gone k),
        )
]

pub create_pending-keeps :
    (f : ℕ) (id j : String) (s : PendingRequests)
    → str_eq j id ≡ false
    → Waits id f s
    → Waits id f (create_pending j s)
unfolding create_pending
create_pending-keeps f id j s other (here, stands, below, only) = (
  ground (arith, lookup-insert j id s.next s.pending, here, other),
  ground (arith, stands, below),
  ground (arith, below),
  λ k there. ground (arith, lookup-insert j k s.next s.pending, only k, below),
)

pub pop_and_settle-keeps :
    (u : Future) (f : ℕ) (id j : String) (s : PendingRequests)
    → str_eq j id ≡ false
    → Waits id f s
    → Waits id f (pop_and_settle u j s).1
unfolding pop_and_settle
pop_and_settle-keeps u f id j s other (here, stands, below, only) =
    elim (Option-cases (lookup j s.pending)) [
      | inl absent ↦ rw (absent, pop_and_settle) (here, stands, below, only)
      | inr (g, there) ↦
          rw (there, pop_and_settle)
            (
              ground (arith, lookup-pop j id s.pending, here, other),
              ground (arith, stands, only j, eq_iff j id, there),
              below,
              λ k at_k. ground (arith, lookup-pop j k s.pending, only k),
            )
    ]

pub pop_and_settle-ends :
    (u : Future) (f : ℕ) (id : String) (s : PendingRequests)
    → Waits id f s
    → Ended u f (pop_and_settle u id s).1
unfolding pop_and_settle
pop_and_settle-ends u f id s (here, stands, below, only) =
    rw (here, pop_and_settle)
      (
        ground (arith, stands),
        below,
        λ k there. ground (arith, lookup-pop id k s.pending, eq_iff id k, only k),
      )
