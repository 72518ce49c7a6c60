-- ===== src/Kanal/Eslesme/Laws.antt =====
-- Which response a request of core/turkish_code/kanal/eslesme.py receives.
use turkish_code.Base.{
  ℕ, ◌≡◌, refl, arith, String, true, false, inl, inr, List, [], ◌∷◌, subst, sym, ◌∙◌, Bool-cases,
  eq_iff,
}
use turkish_code.Kanal.Json.{Json}
use turkish_code.Kanal.Eslesme.{
  Response, id_of_response, Future, PendingRequests, none_pending, create_pending, pop_and_settle,
  resolve_id, resolve_pending, cancel_pending,
}
use turkish_code.Kanal.Eslesme.Steps.{
  PendingCall, creates, cancels, resolves, pending_call, pending_calls, taken_in, is_text, received,
  pending_calls-IsBelow, resolve_id-keeps, none_pending-IsBelow, Waits, Ended, create_pending-Waits,
  create_pending-Ended, pop_and_settle-Ended, create_pending-keeps, pop_and_settle-keeps,
  pop_and_settle-ends,
}

pending_call-Ended :
    (v : Future) (f : ℕ) (c : PendingCall) (s : PendingRequests)
    → Ended v f s
    → Ended v f (pending_call c s)
unfolding cancel_pending resolve_pending
pending_call-Ended v f (creates id) s h = create_pending-Ended v f id s h
pending_call-Ended v f (cancels id) s h = pop_and_settle-Ended Future.dropped v f id s h
pending_call-Ended v f (resolves r) s h =
    resolve_id-keeps (Ended v f) r (id_of_response r) s h
      (λ id e. pop_and_settle-Ended (Future.resolved r) v f id s h)

pending_calls-Ended :
    (v : Future) (f : ℕ) (cs : List PendingCall) (s : PendingRequests)
    → Ended v f s
    → (pending_calls cs s).futures f ≡ v
unfolding pending_calls
pending_calls-Ended v f [] s h = h.0
pending_calls-Ended v f (c ∷ cs) s h =
    pending_calls-Ended v f cs (pending_call c s) (pending_call-Ended v f c s h)

resolve_id-ends :
    (r : Response) (j : Json) (f : ℕ) (id : String) (s : PendingRequests)
    → is_text id j ≡ true
    → Waits id f s
    → Ended (Future.resolved r) f (resolve_id r j s).1
resolve_id-ends r (Json.text k) f id s here h =
    subst (λ i. Ended (Future.resolved r) f (pop_and_settle (Future.resolved r) i s).1)
      (sym ((eq_iff k id).0 here)) (pop_and_settle-ends (Future.resolved r) f id s h)
resolve_id-ends r Json.null f id s here h = ground (arith, here)
resolve_id-ends r (Json.boolean b) f id s here h = ground (arith, here)
resolve_id-ends r (Json.natural n) f id s here h = ground (arith, here)
resolve_id-ends r (Json.negative n) f id s here h = ground (arith, here)
resolve_id-ends r (Json.array _) f id s here h = ground (arith, here)
resolve_id-ends r (Json.object _) f id s here h = ground (arith, here)

resolve_id-Waits :
    (r : Response) (j : Json) (f : ℕ) (id : String) (s : PendingRequests)
    → is_text id j ≡ false
    → Waits id f s
    → Waits id f (resolve_id r j s).1
resolve_id-Waits r j f id s other h = resolve_id-keeps (Waits id f) r j s h (λ k e.
    pop_and_settle-keeps (Future.resolved r) f id k s (subst (λ i. is_text id i ≡ false) e other) h)

pending_calls-received :
    (cs : List PendingCall) (f : ℕ) (id : String) (s : PendingRequests)
    → taken_in id cs ≡ false
    → Waits id f s
    → (pending_calls cs s).futures f ≡ received id cs
unfolding pending_calls cancel_pending resolve_pending
pending_calls-received [] f id s free (_, stands, _, _) = stands
pending_calls-received (creates j ∷ cs) f id s free h =
    pending_calls-received cs f id (create_pending j s) (ground arith)
      (create_pending-keeps f id j s (ground arith) h)
pending_calls-received (cancels j ∷ cs) f id s free h =
    pending_calls-received cs f id (cancel_pending j s) (ground arith)
      (pop_and_settle-keeps Future.dropped f id j s (ground arith) h)
pending_calls-received (resolves r ∷ cs) f id s free h =
    elim (Bool-cases (is_text id (id_of_response r))) [
      | inl mine ↦
          pending_calls-Ended (Future.resolved r) f cs (resolve_pending r s).1
            (resolve_id-ends r (id_of_response r) f id s mine h)
          ∙ rw (mine) refl
      | inr other ↦
          pending_calls-received cs f id (resolve_pending r s).1 free
            (resolve_id-Waits r (id_of_response r) f id s other h)
          ∙ rw (other) refl
    ]

-- Whatever was called on the table before: when, after a request has been created, no call creates or
-- cancels another one with its id, its future stands as the first response with its id resolves it,
-- and waits while there is none. Later responses with the id and those with other ids change
-- nothing.
pub create_pending-received :
    (before after : List PendingCall) (id : String)
    → taken_in id after ≡ false
    → let s = pending_calls before none_pending in
      (pending_calls after (create_pending id s)).futures s.next ≡ received id after
create_pending-received before after id free =
    let s = pending_calls before none_pending in
    pending_calls-received after s.next id (create_pending id s) free
      (create_pending-Waits id s (pending_calls-IsBelow before none_pending none_pending-IsBelow))
