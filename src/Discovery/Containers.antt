-- ===== src/Discovery/Containers.antt =====
-- The inventory of a server's containers (`DiscoverDockerInventoryUseCase` of
-- crates/guardian-core/src/docker.rs).
use vds_guardian.Prelude.{Option, Result, ok, ◌>>=◌, ◌>>◌, ok_or, map_err}
use vds_guardian.Identifiers.{ProfileId}
use vds_guardian.Profile.{VdsProfile, ProfileStorePortError}
use vds_guardian.Docker.{DockerInventory, DockerInventoryError, validate_inventory}

pub data DockerInventoryPortError : Type 0 where
  inventory_rejected inventory_unavailable : DockerInventoryPortError

pub data DiscoverDockerInventoryError : Type 0 where
  discover_profile_not_found : DiscoverDockerInventoryError
  discover_profile_store : ProfileStorePortError → DiscoverDockerInventoryError
  inventory_failed : DockerInventoryPortError → DiscoverDockerInventoryError
  invalid_inventory : DockerInventoryError → DiscoverDockerInventoryError

module _ (get_profile : ProfileId → Result ProfileStorePortError (Option VdsProfile))
    (inspect : VdsProfile → Result DockerInventoryPortError DockerInventory) where
  unfoldable pub discover_inventory :
      ProfileId → Result DiscoverDockerInventoryError DockerInventory
  discover_inventory profile_id = do
    found ← map_err discover_profile_store (get_profile profile_id)
    profile ← ok_or found discover_profile_not_found
    inventory ← map_err inventory_failed (inspect profile)
    map_err invalid_inventory (validate_inventory inventory)
    ok inventory
