-- ===== src/Eklentiler/Yasam/Laws.antt =====
-- Laws of the plugins' lifecycle of core/turkish_code/eklentiler/yasam.py.
use turkish_code.Base.{
  String, ◌≡◌, ◌⊎◌, inl, inr, refl, sym, subst, arith, some, if◌then◌else◌, eq_refl,
}
use turkish_code.Base.Dict.{lookup, lookup-insert}
use turkish_code.Hata.{Raised, Done, ok, err}
use turkish_code.Araclar.Kayit.{ToolRegistry}
use turkish_code.Eklentiler.Modeller.{PluginState}
use turkish_code.Eklentiler.Kopru.{activate}
use turkish_code.Eklentiler.Kopru.Laws.{SameTools, activate-atomic}
use turkish_code.Eklentiler.Kayit.{
  enabled_state, Entry, PluginRegistry, is_enabled, set_plugin_state, state_of, entry_of,
}
use turkish_code.Eklentiler.Yasam.{Host, enable, after_activate}

state_of-set_plugin_state :
    (s : PluginState) (k : String) (plugins : PluginRegistry) (e : Entry)
    → lookup k plugins ≡ some e
    → ((set_plugin_state s k plugins).0 ≡ ok tt)
      × (state_of k (set_plugin_state s k plugins).1 ≡ ok s)
unfolding set_plugin_state state_of entry_of
state_of-set_plugin_state s k plugins e here = (
  ground arith,
  ground (arith, lookup-insert k k (record { plugin = e.plugin; state = s }) plugins, eq_refl k),
)

-- What a call of `enable` may end in.
abbrev Enabled : String → ToolRegistry → Done × Host → Type 0
Enabled k tools r =
    ((r.0 ≡ ok tt) × (state_of k r.1.plugins ≡ ok PluginState.enabled))
    ⊎ ((c : Raised) × (r.0 ≡ err c)
        × (state_of k r.1.plugins ≡ ok PluginState.failed)
        × SameTools r.1.tools tools)

after_activate-Enabled :
    (k : String) (plugins : PluginRegistry) (e : Entry) (tools : ToolRegistry)
    (r : Done × ToolRegistry)
    → lookup k plugins ≡ some e
    → ((c : Raised) → r.0 ≡ err c → SameTools r.1 tools)
    → Enabled k tools (after_activate k plugins r)
after_activate-Enabled k plugins e tools (ok _, after) here atomic =
    inl (state_of-set_plugin_state PluginState.enabled k plugins e here)
after_activate-Enabled k plugins e tools (err c, after) here atomic =
    let (done, marked) = state_of-set_plugin_state PluginState.failed k plugins e here in
    inr (c, ground arith, ground arith, atomic c refl)

enable-registered :
    (k : String) (h : Host) (e : Entry)
    → lookup k h.plugins ≡ some e
    → enable k h ≡ (
        if enabled_state e.state
        then (ok tt, h)
        else after_activate k h.plugins (activate e.plugin h.tools))
unfolding enable is_enabled
enable-registered k h e here = rw (here, enable) refl

unless-Enabled :
    (k : String) (h : Host) (s : PluginState) (r : Done × Host)
    → state_of k h.plugins ≡ ok s
    → Enabled k h.tools r
    → Enabled k h.tools (if enabled_state s then (ok tt, h) else r)
unless-Enabled k h PluginState.disabled r state ended = ended
unless-Enabled k h PluginState.enabled r state ended = inl (refl, state)
unless-Enabled k h PluginState.failed r state ended = ended

-- Enabling a registered plugin ends in one of two ways. Either the call succeeds and the plugin is
-- enabled, or the call raises; then the plugin is in quarantine, and the registry of the tools
-- answers every lookup as before.
pub enable-outcome :
    (k : String) (h : Host) (e : Entry)
    → lookup k h.plugins ≡ some e
    → (((enable k h).0 ≡ ok tt) × (state_of k (enable k h).1.plugins ≡ ok PluginState.enabled))
      ⊎ ((c : Raised) × ((enable k h).0 ≡ err c)
          × (state_of k (enable k h).1.plugins ≡ ok PluginState.failed)
          × SameTools (enable k h).1.tools h.tools)
unfolding state_of entry_of
enable-outcome k h e here = subst (Enabled k h.tools) (sym (enable-registered k h e here)) (
    unless-Enabled k h e.state (after_activate k h.plugins (activate e.plugin h.tools))
      (ground arith)
      (after_activate-Enabled k h.plugins e h.tools (activate e.plugin h.tools) here
        (activate-atomic e.plugin h.tools)))
