-- ===== src/Eklentiler/Yukleyici/Laws.antt =====
-- What a scan of the plugins' directory by core/turkish_code/eklentiler/yukleyici.py leaves.
use turkish_code.Base.{
  All-map, ◌+◌, ◌≡◌, refl, arith, String, Bool, true, false, inl, inr, List, [], ◌∷◌, Option, none,
  some, eq_iff, eq_refl, length, All, Option-cases,
}
use turkish_code.Base.Dict.{lookup, insert, lookup-insert}
use turkish_code.Hata.{AppError, app, Raised, Result, ok, err}
use turkish_code.Araclar.Kayit.{Tool}
use turkish_code.Eklentiler.Modeller.{PluginState}
use turkish_code.Eklentiler.Kopru.{Plugin}
use turkish_code.Eklentiler.Kayit.{Entry, PluginRegistry, register_plugin, plugin_duplicate}
use turkish_code.Eklentiler.Dogrulama.{PluginManifest, Version}
use turkish_code.Eklentiler.Yukleyici.{
  with_loaded, with_failure, reported, Toml, ManifestFile, LoadReport, load_one, after_load,
  load_directory,
}

-- What was registered before the scan, else what is registered after it.
abbrev earlier_or : Option Entry → Option Entry → Option Entry
earlier_or none later = later
earlier_or (some e) later = some e

earlier_or_same : (e : Option Entry) → earlier_or e e ≡ e
earlier_or_same none = refl
earlier_or_same (some e) = refl

register_plugin-free :
    (p : Plugin) (registry : PluginRegistry)
    → lookup p.id registry ≡ none
    → register_plugin p registry
      ≡ (ok tt, insert p.id (record { plugin = p; state = PluginState.disabled }) registry)
unfolding register_plugin
register_plugin-free p registry free = ground (arith, free)

register_plugin-taken :
    (p : Plugin) (registry : PluginRegistry) (taken : Entry)
    → lookup p.id registry ≡ some taken
    → register_plugin p registry ≡ (plugin_duplicate, registry)
unfolding register_plugin
register_plugin-taken p registry taken found = ground (arith, found)

module _ (shown : Toml → String) (letters : String → List String) (is_plugin_id : String → Bool)
    (semver : String → Option Version) (is_blank : String → Bool) (app_version : String)
    (files : String → ManifestFile) (tools_of : PluginManifest → Result (List Tool)) where
  abbrev load_at : String → Result Plugin
  load_at = load_one shown letters is_plugin_id semver is_blank app_version files tools_of

  abbrev scan : List String → PluginRegistry → Result LoadReport × PluginRegistry
  scan = load_directory shown letters is_plugin_id semver is_blank app_version files tools_of

  -- Loading the plugin succeeds or raises an AppError.
  abbrev pub IsContained : Result Plugin → Type 0
  IsContained (err (app e)) = Unit
  IsContained (ok p) = Unit
  IsContained (err _) = true ≡ false

  -- The id was free, and its plugin, which was loaded from some path, is registered as disabled.
  abbrev IsFresh : PluginRegistry → PluginRegistry → String → Type 0
  IsFresh before after id =
      (path : String) × (plugin : Plugin) × (load_at path ≡ ok plugin)
      × (plugin.id ≡ id)
      × (lookup id before ≡ none)
      × (lookup id after ≡ some (record { plugin = plugin; state = PluginState.disabled }))

  abbrev pub Accounts : List String → PluginRegistry → Result LoadReport → PluginRegistry → Type 0
  Accounts paths before (ok report) after =
      (length report.loaded + length report.failures ≡ length paths)
      × ((id : String) → earlier_or (lookup id before) (lookup id after) ≡ lookup id after)
      × All (IsFresh before after) report.loaded
  Accounts paths before (err e) after = true ≡ false

  -- A scan of the later paths, with a failure of this one in front.
  failure-Accounts :
      (path : String) (e : AppError) (paths : List String) (registry : PluginRegistry)
      (r : Result LoadReport × PluginRegistry)
      → Accounts paths registry r.0 r.1
      → Accounts
          (path ∷ paths)
          registry
          (reported (with_failure path e) r).0
          (reported (with_failure path e) r).1
  failure-Accounts path e paths registry (ok report, after) h = (omega (arith, h.0), h.1, h.2)
  failure-Accounts path e paths registry (err x, after) h = h

  -- The same with this path's plugin, newly registered, in front.
  loaded-Accounts :
      (path : String) (p : Plugin) (paths : List String) (registry : PluginRegistry)
      (r : Result LoadReport × PluginRegistry)
      → load_at path ≡ ok p
      → lookup p.id registry ≡ none
      → Accounts paths
          (insert p.id (record { plugin = p; state = PluginState.disabled }) registry)
          r.0
          r.1
      → Accounts
          (path ∷ paths)
          registry
          (reported (with_loaded p.id) r).0
          (reported (with_loaded p.id) r).1
  loaded-Accounts path p paths registry (err x, after) e free h = h
  loaded-Accounts path p paths registry (ok report, after) e free h =
      let entry : Entry = record { plugin = p; state = PluginState.disabled } in
      (
        omega (arith, h.0),
        λ k. ground (arith, h.1 k, lookup-insert p.id k entry registry, eq_iff p.id k, free),
        (
          (
            path,
            p,
            e,
            refl,
            free,
            ground (arith, h.1 p.id, lookup-insert p.id p.id entry registry, eq_refl p.id),
          ),
          All-map _ _ report.loaded
              (λ k f. (
                f.0,
                f.1,
                f.2,
                f.3,
                ground (arith, f.4, lookup-insert p.id k entry registry, eq_iff p.id k),
                f.5,
              ))
              h.2,
        ),
      )

  -- One path, when loading it is contained.
  after_load-Accounts :
      (path : String) (paths : List String) (registry : PluginRegistry)
      → ((now : PluginRegistry) → Accounts paths now (scan paths now).0 (scan paths now).1)
      → (loaded : Result Plugin) → load_at path ≡ loaded
      → IsContained loaded
      → Accounts
          (path ∷ paths)
          registry
          (after_load (scan paths) path registry loaded).0
          (after_load (scan paths) path registry loaded).1
  after_load-Accounts path paths registry h (err (app e)) same contained =
      failure-Accounts path e paths registry (scan paths registry) (h registry)
  after_load-Accounts path paths registry h (err Raised.value_error) same contained = contained
  after_load-Accounts path paths registry h (err Raised.key_error) same contained = contained
  after_load-Accounts path paths registry h (err Raised.attribute_error) same contained = contained
  after_load-Accounts path paths registry h (err Raised.overflow_error) same contained = contained
  after_load-Accounts path paths registry h (err Raised.type_error) same contained = contained
  after_load-Accounts path paths registry h (ok p) same contained =
      elim (Option-cases (lookup p.id registry)) [
        | inl free ↦
            rw (register_plugin-free p registry free)
              (loaded-Accounts path p paths registry (scan paths _) same free (h _))
        | inr (taken, found) ↦
            rw (register_plugin-taken p registry taken found)
              (failure-Accounts path _ paths registry (scan paths registry) (h registry))
      ]

  -- When no path raises anything but an AppError, a scan returns a report. It has one entry for each
  -- path, a loaded id or a failure; every plugin that was registered before keeps its entry; and
  -- every id it reports as loaded was free, and belongs now to a disabled plugin that was loaded from
  -- some path.
  pub load_directory-Accounts :
      (paths : List String) (registry : PluginRegistry)
      → All (λ path. IsContained (load_at path)) paths
      → Accounts paths registry (scan paths registry).0 (scan paths registry).1
  unfolding load_directory
  load_directory-Accounts [] registry contained =
      (refl, λ k. earlier_or_same (lookup k registry), tt)
  load_directory-Accounts (path ∷ paths) registry contained =
      after_load-Accounts path paths registry (λ now. load_directory-Accounts paths now contained.1)
        (load_at path) refl contained.0
