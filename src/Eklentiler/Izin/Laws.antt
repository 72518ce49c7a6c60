-- ===== src/Eklentiler/Izin/Laws.antt =====
-- Laws of the grants and of the gate of core/turkish_code/eklentiler/izin.py.
use Prim.Native.String.append
use Prim.Native.Char.{Char}
use turkish_code.Base.{
  List, [], ◌∷◌, ap, sym, ◌∙◌, inl, inr, Option-cases, eq_refl, Option-cases, eq_refl, ◌↔◌, String,
  ◌≡◌, refl, arith, true, false, none, some, if◌then◌else◌, str_eq,
}
use turkish_code.Base.Dict.{lookup, lookup-insert, lookup-pop}
use turkish_code.Araclar.Izin.{Capability, PermissionRequest, Decision}
use turkish_code.Eklentiler.Modeller.{FsAccess, NetAccess, ShellAccess, RequestedCapabilities}
use turkish_code.Eklentiler.Izin.{
  grant_covers, str_append, no_capabilities, namespaced_name, plugin_id_of, PluginGrantStore,
  revoke, granted_to, covered, evaluate, oversteps, grant,
}

-- A character of the plugin's id is no `/`, and what follows decides.
after_char :
    (c : Char) (s more : String)
    → plugin_id_of (String.◌∷◌ c s) ≡ none
    → (plugin_id_of s ≡ none → plugin_id_of (str_append s more) ≡ some s)
    → plugin_id_of (String.◌∷◌ c (str_append s more)) ≡ some (String.◌∷◌ c s)
unfolding plugin_id_of
after_char c s more plain again = elim (Option-cases (plugin_id_of s)) [
  | inl none_before ↦ ground (arith, again none_before)
  | inr (id, found) ↦ ground arith
]

-- The name of a plugin's tool gives the plugin back, if the id of the plugin has no `/`.
plugin_id_of-namespaced_name :
    (plugin_id tool_name : String)
    → plugin_id_of plugin_id ≡ none
    → plugin_id_of (namespaced_name plugin_id tool_name) ≡ some plugin_id
unfolding plugin_id_of namespaced_name
plugin_id_of-namespaced_name String.[] tool_name plain =
    rw (append.nil (str_append "/" tool_name), append.cons "/" "" tool_name) refl
plugin_id_of-namespaced_name (String.◌∷◌ c s) tool_name plain =
    rw (append.cons c s (str_append "/" tool_name))
      (after_char c s (str_append "/" tool_name) plain (plugin_id_of-namespaced_name s tool_name))

-- What a grant permits: reading under read or write access to files, writing under write access,
-- running commands and sending under theirs, and nothing else.
pub data MayUse (g : RequestedCapabilities) : Capability → Type 0 where
  reads_by_read : g.fs ≡ FsAccess.read → MayUse g Capability.fs_read
  reads_by_write : g.fs ≡ FsAccess.write → MayUse g Capability.fs_read
  writes : g.fs ≡ FsAccess.write → MayUse g Capability.fs_write
  executes : g.shell ≡ ShellAccess.exec → MayUse g Capability.shell_exec
  sends : g.net ≡ NetAccess.egress → MayUse g Capability.net_egress

files-MayUse :
    (g : RequestedCapabilities) (a : FsAccess)
    → g.fs ≡ a
    → (grant_covers (record g { fs = a }) Capability.fs_read ≡ true → MayUse g Capability.fs_read)
      × (grant_covers (record g { fs = a }) Capability.fs_write ≡ true
          → MayUse g Capability.fs_write)
files-MayUse g FsAccess.none e = (λ h. ground (arith, h), λ h. ground (arith, h))
files-MayUse g FsAccess.read e = (λ h. reads_by_read e, λ h. ground (arith, h))
files-MayUse g FsAccess.write e = (λ h. reads_by_write e, λ h. writes e)

shell-MayUse :
    (g : RequestedCapabilities) (a : ShellAccess)
    → g.shell ≡ a
    → grant_covers (record g { shell = a }) Capability.shell_exec ≡ true
    → MayUse g Capability.shell_exec
shell-MayUse g ShellAccess.none e h = ground (arith, h)
shell-MayUse g ShellAccess.exec e h = executes e

net-MayUse :
    (g : RequestedCapabilities) (a : NetAccess)
    → g.net ≡ a
    → grant_covers (record g { net = a }) Capability.net_egress ≡ true
    → MayUse g Capability.net_egress
net-MayUse g NetAccess.none e h = ground (arith, h)
net-MayUse g NetAccess.egress e h = sends e

covers-MayUse : (g : RequestedCapabilities) (c : Capability) → grant_covers g c ≡ true → MayUse g c
covers-MayUse g Capability.fs_read h = (files-MayUse g g.fs refl).0 h
covers-MayUse g Capability.fs_write h = (files-MayUse g g.fs refl).1 h
covers-MayUse g Capability.shell_exec h = shell-MayUse g g.shell refl h
covers-MayUse g Capability.net_egress h = net-MayUse g g.net refl h
covers-MayUse g Capability.open_external h = ground (arith, h)
covers-MayUse g Capability.secret_use h = ground (arith, h)
covers-MayUse g Capability.workspace_switch h = ground (arith, h)

MayUse-covers : (g : RequestedCapabilities) (c : Capability) → MayUse g c → grant_covers g c ≡ true
MayUse-covers g _ (reads_by_read e) = rw e refl
MayUse-covers g _ (reads_by_write e) = rw e refl
MayUse-covers g _ (writes e) = rw e refl
MayUse-covers g _ (executes e) = rw e refl
MayUse-covers g _ (sends e) = rw e refl

-- The calls that change the grants.
pub data GrantCall : Type 0 where
  add_grant : (plugin_id : String) → RequestedCapabilities → GrantCall
  drop_grant : (plugin_id : String) → GrantCall

unfoldable pub store_after : List GrantCall → PluginGrantStore → PluginGrantStore
store_after [] store = store
store_after (add_grant k g ∷ calls) store = store_after calls (grant k g store)
store_after (drop_grant k ∷ calls) store = store_after calls (revoke k store)

-- What the last of the calls for a plugin leaves it.
abbrev pub last_grant : String → List GrantCall → RequestedCapabilities → RequestedCapabilities
last_grant id [] current = current
last_grant id (add_grant k g ∷ calls) current =
    last_grant id calls (if str_eq k id then g else current)
last_grant id (drop_grant k ∷ calls) current =
    last_grant id calls (if str_eq k id then no_capabilities else current)

grant_covers-no_capabilities :
    (capability : Capability) → grant_covers no_capabilities capability ≡ false
grant_covers-no_capabilities Capability.fs_read = refl
grant_covers-no_capabilities Capability.fs_write = refl
grant_covers-no_capabilities Capability.shell_exec = refl
grant_covers-no_capabilities Capability.net_egress = refl
grant_covers-no_capabilities Capability.open_external = refl
grant_covers-no_capabilities Capability.secret_use = refl
grant_covers-no_capabilities Capability.workspace_switch = refl

granted_to-revoke :
    (plugin_id other : String) (grants : PluginGrantStore)
    → granted_to other (revoke plugin_id grants)
      ≡ (if str_eq plugin_id other then no_capabilities else granted_to other grants)
unfolding granted_to revoke
granted_to-revoke plugin_id other grants = ground (arith, lookup-pop plugin_id other grants)

granted_to-nil : (id : String) → granted_to id [] ≡ no_capabilities
unfolding granted_to lookup
granted_to-nil id = refl

granted_to-grant :
    (plugin_id other : String) (g : RequestedCapabilities) (store : PluginGrantStore)
    → granted_to other (grant plugin_id g store)
      ≡ (if str_eq plugin_id other then g else granted_to other store)
unfolding granted_to grant
granted_to-grant plugin_id other g store = ground (arith, lookup-insert plugin_id other g store)

granted_to-store_after :
    (id : String) (calls : List GrantCall) (store : PluginGrantStore)
    → granted_to id (store_after calls store) ≡ last_grant id calls (granted_to id store)
unfolding store_after
granted_to-store_after id [] store = refl
granted_to-store_after id (add_grant k g ∷ calls) store =
    granted_to-store_after id calls (grant k g store)
    ∙ ap (last_grant id calls) (granted_to-grant k id g store)
granted_to-store_after id (drop_grant k ∷ calls) store =
    granted_to-store_after id calls (revoke k store)
    ∙ ap (last_grant id calls) (granted_to-revoke k id store)

evaluate-covered :
    (base : PermissionRequest → Decision) (store : PluginGrantStore) (r : PermissionRequest)
    (plugin_id : String) (capability : Capability)
    → plugin_id_of r.tool ≡ some plugin_id
    → r.capability ≡ some capability
    → (evaluate base store r ≡ Decision.allow)
      ↔ ((covered store plugin_id capability ≡ true) × (base r ≡ Decision.allow))
unfolding evaluate oversteps
evaluate-covered base store r plugin_id capability here asks =
    rw (here, asks, oversteps) (λ h. ground arith, λ h. ground arith)

-- After any calls that grant and revoke, for a tool under the name that a plugin without a `/` in
-- its id gives it, and a capability that it asks for: the gate allows the request exactly if what
-- the last call for this plugin has left it permits the capability, and the session's gate allows
-- the request.
pub evaluate-intersects :
    (base : PermissionRequest → Decision) (calls : List GrantCall) (r : PermissionRequest)
    (plugin_id tool_name : String) (capability : Capability)
    → plugin_id_of plugin_id ≡ none
    → r.tool ≡ namespaced_name plugin_id tool_name
    → r.capability ≡ some capability
    → (evaluate base (store_after calls []) r ≡ Decision.allow)
      ↔ (MayUse (last_grant plugin_id calls no_capabilities) capability × (base r ≡ Decision.allow))
unfolding covered
evaluate-intersects base calls r plugin_id tool_name capability plain named asks =
    let here : plugin_id_of r.tool ≡ some plugin_id =
      ap plugin_id_of named ∙ plugin_id_of-namespaced_name plugin_id tool_name plain in
    let gate = evaluate-covered base (store_after calls []) r plugin_id capability here asks in
    let left : granted_to plugin_id (store_after calls [])
        ≡ last_grant plugin_id calls no_capabilities =
      granted_to-store_after plugin_id calls []
      ∙ ap (last_grant plugin_id calls) (granted_to-nil plugin_id) in
    (
      λ h. (
        covers-MayUse _ capability (ap (λ g. grant_covers g capability) (sym left) ∙ (gate.0 h).0),
        (gate.0 h).1,
      ),
      λ h. gate.1 (ap (λ g. grant_covers g capability) left ∙ MayUse-covers _ capability h.0, h.1),
    )

-- After a revocation the gate denies every tool of the plugin that asks for a capability; the
-- grants of that plugin are none, and the other plugins keep theirs.
revoke-denies :
    (base : PermissionRequest → Decision) (grants : PluginGrantStore) (r : PermissionRequest)
    (plugin_id other : String) (capability : Capability)
    → plugin_id_of r.tool ≡ some plugin_id
    → r.capability ≡ some capability
    → (evaluate base (revoke plugin_id grants) r ≡ Decision.deny)
      × (granted_to other (revoke plugin_id grants)
          ≡ (if str_eq plugin_id other then no_capabilities else granted_to other grants))
unfolding evaluate oversteps covered
revoke-denies base grants r plugin_id other capability here asks =
    rw (here, asks, evaluate)
      (
        ground (
          arith,
          granted_to-revoke plugin_id plugin_id grants,
          eq_refl plugin_id,
          grant_covers-no_capabilities capability,
        ),
        granted_to-revoke plugin_id other grants,
      )
