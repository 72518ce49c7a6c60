-- ===== src/CalismaAlani/Yapilandirma/Laws.antt =====
-- The round trip of a workspace's configuration in core/turkish_code/calisma_alani/modeller.py.
use turkish_code.Base.{◌≡◌, ◌≤◌, arith}
use turkish_code.Base.Dict.{lookup}
use turkish_code.Hata.{ok}
use turkish_code.CalismaAlani.Yapilandirma.{
  WorkspaceConfig, to_dict, from_dict, make_config, migrate_config,
}

-- A configuration that can be made, of a version from 1 on, is read back from its dict as it was.
from_dict-to_dict : (c : WorkspaceConfig) → 1 ≤ c.version → from_dict (to_dict c) ≡ ok c
unfolding from_dict to_dict lookup migrate_config make_config
from_dict-to_dict c h = ground (arith, h)
