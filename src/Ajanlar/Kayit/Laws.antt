-- ===== src/Ajanlar/Kayit/Laws.antt =====
-- Laws of the agent registry of core/turkish_code/ajanlar/kayit.py.
use turkish_code.Base.{
  String, ◌≡◌, ◌≢◌, inl, inr, arith, Bool, false, List, [], ◌∷◌, none, some, str_eq, eq_iff,
  Option-cases,
}
use turkish_code.Base.Dict.{lookup, lookup-insert}
use turkish_code.Hata.{key_error, Done, ok, err}
use turkish_code.Ajanlar.Kayit.{
  AgentMetadata, AgentRegistry, new_registry, register_agent, resolve_agent, set_default,
  resolve_default, route,
}

-- The calls that change the registry.
pub data Change : Type 0 where
  add : AgentMetadata → Bool → Change
  choose : String → Change

abbrev pub make : Change → AgentRegistry → Done × AgentRegistry
make (add a default) s = register_agent a default s
make (choose k) s = set_default k s

-- A call that raises leaves the registry as it is, and the caller may go on.
pub build : List Change → AgentRegistry → AgentRegistry
build [] s = s
build (c ∷ cs) s = build cs (make c s).1

-- Every agent stands under its own id, and the default is registered.
IsWired : AgentRegistry → Type 0
IsWired s =
    ((k : String) (a : AgentMetadata) → lookup k s.agents ≡ some a → a.id ≡ k)
    × ((k : String) → s.default_id ≡ some k → lookup k s.agents ≢ none)

register_agent-IsWired :
    (a : AgentMetadata) (default : Bool) (s : AgentRegistry)
    → IsWired s
    → IsWired (register_agent a default s).1
unfolding register_agent IsWired
register_agent-IsWired a default s (own, wired) = elim (Option-cases (lookup a.id s.agents)) [
  | inr (old, there) ↦ rw (there, register_agent) (own, wired)
  | inl absent ↦
      rw (absent, register_agent)
        (
          λ k b here. ground (arith, lookup-insert a.id k a s.agents, eq_iff a.id k, own k b),
          λ k here. ground (arith, lookup-insert a.id k a s.agents, eq_iff a.id k, wired k),
        )
]

set_default-IsWired : (j : String) (s : AgentRegistry) → IsWired s → IsWired (set_default j s).1
unfolding set_default IsWired
set_default-IsWired j s (own, wired) = elim (Option-cases (lookup j s.agents)) [
  | inl absent ↦ rw (absent, set_default) (own, wired)
  | inr (a, there) ↦ rw (there, set_default) (own, λ k here. ground (arith, eq_iff j k))
]

build-IsWired : (cs : List Change) (s : AgentRegistry) → IsWired s → IsWired (build cs s)
unfolding build
build-IsWired [] s w = w
build-IsWired (add a default ∷ cs) s w =
    build-IsWired cs (register_agent a default s).1 (register_agent-IsWired a default s w)
build-IsWired (choose k ∷ cs) s w = build-IsWired cs (set_default k s).1 (set_default-IsWired k s w)

new_registry-IsWired : IsWired new_registry
unfolding IsWired lookup
new_registry-IsWired = (λ k a here. ground arith, λ k here. ground arith)

route-IsWired :
    (s : AgentRegistry) (k : String)
    → IsWired s
    → (route k s ≢ err key_error)
      × ((a : AgentMetadata) → str_eq k "" ≡ false → route k s ≡ ok a → a.id ≡ k)
unfolding route resolve_agent resolve_default IsWired
route-IsWired s k (own, wired) = (
  elim (Option-cases s.default_id) [
    | inl unset ↦ λ h. ground arith
    | inr (d, chosen) ↦ λ h. ground (arith, wired d chosen)
  ],
  λ a named found. ground (arith, own k a),
)

-- Whatever is registered and chosen as the default, in any order, with or without errors: routing
-- a request never ends in a KeyError.
route-no_key_error :
    (cs : List Change) (k : String) → route k (build cs new_registry) ≢ err key_error
route-no_key_error cs k =
    (route-IsWired (build cs new_registry) k (build-IsWired cs new_registry new_registry-IsWired)).0
