-- ===== src/Docker/Inventory.antt =====
-- The inventory of containers and its validation (crates/guardian-core/src/docker.rs).
use vds_guardian.Prelude.{
  ℕ, Option, List, Bool, Result, leb, is_some_and, not, insert_all, is_none_or, some, ensure, ok,
  if◌then◌else◌, ◌>>◌, [], ◌&&◌, none, ◌||◌, ◌∷◌, ltb, all, ◌==◌, any, length, contains, nat_eq,
  list_eq, map, err, try_for_each,
}
use vds_guardian.Text.{
  Text, len, is_empty_text, is_lower_hex, is_alphanumeric, is_control, bytes, is_one_of,
  strip_prefix, str,
}
use vds_guardian.Identifiers.{valid_absolute_path}

pub data DockerContainerState : Type 0 where
  created running paused restarting exited dead : DockerContainerState

pub data DockerHealth : Type 0 where
  starting healthy unhealthy no_health : DockerHealth

pub data DockerMountKind : Type 0 where
  bind volume tmpfs : DockerMountKind

pub record DockerMount : Type 0 where
  pub kind : DockerMountKind
  pub source_reference : Text
  pub host_path : Option Text
  pub destination : Text
  pub read_only : Bool

pub record DockerNetwork : Type 0 where
  pub name : Text
  pub network_id : Text

pub record DockerContainer : Type 0 where
  pub id : Text
  pub name : Text
  pub image : Text
  pub image_digest : Option Text
  pub compose_project : Option Text
  pub state : DockerContainerState
  pub health : Option DockerHealth
  pub mounts : List DockerMount
  pub networks : List DockerNetwork
  pub secret_references : List Text

pub record DockerInventory : Type 0 where
  pub containers : List DockerContainer

pub data DockerInventoryError : Type 0 where
  too_many_containers duplicate_container invalid_container invalid_mount : DockerInventoryError
  invalid_network invalid_secret_reference duplicate_field : DockerInventoryError

unfoldable pub valid_id : Text → Bool
valid_id value = (leb 12 (len value) && leb (len value) 64) && all is_lower_hex (bytes value)

unfoldable pub valid_digest : Text → Bool
valid_digest value =
    is_some_and (λ digest. len digest == 64 && all is_lower_hex (bytes digest))
      (strip_prefix (str "sha256:") value)

unfoldable pub valid_label : Text → Bool
valid_label value =
    not (is_empty_text value)
    && leb (len value) 128
    && all (λ b. is_alphanumeric b || is_one_of (str "._-") b) (bytes value)

unfoldable pub valid_text : Text → ℕ → Bool
valid_text value maximum =
    not (is_empty_text value) && leb (len value) maximum && not (any is_control value)

-- `fn unique`
unfoldable pub unique : List Text → Result DockerInventoryError (Unit {0})
unique values = insert_all duplicate_field [] values

unfoldable pub validate_mount : DockerMount → Result DockerInventoryError (Unit {0})
validate_mount self =
    let host_path_valid = is_none_or valid_absolute_path self.host_path in
    ensure
      (valid_text self.source_reference 1024
        && valid_absolute_path self.destination
        && host_path_valid)
      invalid_mount

abbrev pub capturable : DockerMountKind → DockerMount → Option Text
capturable bind self = some self.source_reference
capturable volume self = self.host_path
capturable tmpfs self = none

unfoldable pub capturable_path : DockerMount → Option Text
capturable_path self = capturable self.kind self

unfoldable pub validate_network : DockerNetwork → Result DockerInventoryError (Unit {0})
validate_network self = ensure (valid_label self.name && valid_id self.network_id) invalid_network

unfoldable pub has_invalid_text : DockerContainer → Bool
has_invalid_text self =
    not (valid_id self.id) || not (valid_text self.name 255) || not (valid_text self.image 512)

unfoldable pub has_invalid_field : DockerContainer → Bool
has_invalid_field self =
    is_some_and (λ value. not (valid_digest value)) self.image_digest
    || is_some_and (λ value. not (valid_label value)) self.compose_project
    || ltb 128 (length self.mounts)
    || ltb 64 (length self.networks)
    || ltb 128 (length self.secret_references)

unfoldable pub validate_container : DockerContainer → Result DockerInventoryError (Unit {0})
unfolding has_invalid_text has_invalid_field
validate_container self = do
  ensure (not (has_invalid_text self)) invalid_container
  ensure (not (has_invalid_field self)) invalid_container
  unique (map (λ mount. mount.destination) self.mounts)
  unique (map (λ network. network.name) self.networks)
  unique self.secret_references
  try_for_each validate_mount self.mounts
  try_for_each validate_network self.networks
  ensure (all valid_label self.secret_references) invalid_secret_reference

-- the loop of `DockerInventory::validate`
unfoldable pub validate_containers :
    List Text → List DockerContainer → Result DockerInventoryError (Unit {0})
validate_containers ids [] = ok tt
validate_containers ids (container ∷ rest) =
    let later = validate_containers (container.id ∷ ids) rest in
    validate_container container
    >> (if contains ids container.id then err duplicate_container else later)

unfoldable pub validate_inventory : DockerInventory → Result DockerInventoryError (Unit {0})
unfolding validate_containers
validate_inventory self =
    if ltb 500 (length self.containers)
    then err too_many_containers
    else validate_containers [] self.containers
