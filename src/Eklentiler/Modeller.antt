-- ===== src/Eklentiler/Modeller.antt =====
-- Value objects of the plugins: core/turkish_code/eklentiler/modeller.py.
pub data FsAccess : Type 0 where
  none read write : FsAccess

pub data NetAccess : Type 0 where
  none egress : NetAccess

pub data ShellAccess : Type 0 where
  none exec : ShellAccess

pub record RequestedCapabilities : Type 0 where
  pub fs : FsAccess
  pub net : NetAccess
  pub shell : ShellAccess

-- The defaults of the fields.
abbrev pub no_capabilities : RequestedCapabilities
no_capabilities = record { fs = FsAccess.none; net = NetAccess.none; shell = ShellAccess.none }

-- `PluginState`: a plugin is registered `disabled`; `failed` is the quarantine.
pub data PluginState : Type 0 where
  disabled enabled failed : PluginState
