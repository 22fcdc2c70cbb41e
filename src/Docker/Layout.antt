-- ===== src/Docker/Layout.antt =====
-- The layout of the captured source (crates/guardian-core/src/source_layout.rs).
use vds_guardian.Prelude.{
  Bool, Option, List, Result, contains, map, any, ok, to_set, some, if◌then◌else◌, filter_map, [],
  ◌>>=◌, ◌||◌, not, ◌∷◌, is_empty, err, filter, ltb, length, none, ◌>>◌, is_some_and, ◌==◌, nat_eq,
  list_eq,
}
use vds_guardian.Text.{Text}
use vds_guardian.Identifiers.{RemotePath, parse_remote_path, covers}
use vds_guardian.Docker.Inventory.{
  DockerContainerState, DockerContainer, DockerInventory, DockerMount, valid_id, valid_text,
  valid_digest, valid_label, capturable_path,
}

pub record DockerMountSnapshot : Type 0 where
  pub source_path : RemotePath
  pub destination : RemotePath
  pub read_only : Bool

pub record DockerWorkloadSnapshot : Type 0 where
  pub container_id : Text
  pub container_name : Text
  pub image : Text
  pub image_digest : Option Text
  pub compose_project : Option Text
  pub state : DockerContainerState
  pub mounts : List DockerMountSnapshot

pub record SourceLayout : Type 0 where
  pub roots : List RemotePath
  pub docker_workloads : List DockerWorkloadSnapshot

pub data SourceLayoutError : Type 0 where
  invalid : SourceLayoutError

-- One test of the loop for each that returns `Invalid`; `containers` holds the ids seen.
unfoldable pub invalid_workload : List Text → DockerWorkloadSnapshot → Bool
invalid_workload containers workload =
    contains containers workload.container_id
    || is_empty workload.mounts
    || ltb 128 (length workload.mounts)
    || not (valid_id workload.container_id)
    || not (valid_text workload.container_name 255)
    || not (valid_text workload.image 512)
    || is_some_and (λ value. not (valid_digest value)) workload.image_digest
    || is_some_and (λ value. not (valid_label value)) workload.compose_project

unfoldable pub repeats_destination : DockerWorkloadSnapshot → Bool
repeats_destination workload =
    let destinations = map (λ mount. mount.destination.as_str) workload.mounts in
    not (length (to_set destinations) == length workload.mounts)

unfoldable pub has_uncovered_mount : List RemotePath → DockerWorkloadSnapshot → Bool
has_uncovered_mount roots workload =
    any (λ mount. not (any (λ root. covers root mount.source_path) roots)) workload.mounts

unfoldable pub validate_workloads :
    List RemotePath → List Text → List DockerWorkloadSnapshot → Result SourceLayoutError (Unit {0})
validate_workloads roots containers [] = ok tt
validate_workloads roots containers (workload ∷ rest) =
    let later = validate_workloads roots (workload.container_id ∷ containers) rest in
    if invalid_workload containers workload
    then err invalid
    else if repeats_destination workload
    then err invalid
    else if has_uncovered_mount roots workload
    then err invalid
    else later

unfoldable pub validate_layout : SourceLayout → Result SourceLayoutError (Unit {0})
validate_layout self =
    let roots = to_set (map (λ root. root.as_str) self.roots) in
    if is_empty self.roots || ltb 32 (length self.roots) || ltb 128 (length self.docker_workloads)
    then err invalid
    else if not (length roots == length self.roots)
    then err invalid
    else validate_workloads self.roots [] self.docker_workloads

abbrev pub accepted {ℓ κ} : {E : Type ℓ} {A : Type κ} → Result E A → Option A
accepted (ok a) = some a
accepted (err e) = none

infixl 5 ◌>>?◌
abbrev pub ◌>>?◌ {ℓ κ} : {A : Type ℓ} {B : Type κ} → Option A → (A → Option B) → Option B
none >>? f = none
some a >>? f = f a

-- the closure of `snapshot`
unfoldable pub snapshot_mount : List RemotePath → DockerMount → Option DockerMountSnapshot
snapshot_mount roots mount = capturable_path mount >>? λ source.
    accepted (parse_remote_path source) >>? λ source_path.
    if not (any (λ root. covers root source_path) roots)
    then none
    else accepted (parse_remote_path mount.destination) >>? λ destination. some (record {
      source_path = source_path;
      destination = destination;
      read_only = mount.read_only;
    })

unfoldable pub snapshot :
    DockerContainer → List RemotePath → Result SourceLayoutError DockerWorkloadSnapshot
snapshot container roots =
    let mounts = filter_map (snapshot_mount roots) container.mounts in
    if is_empty mounts
    then err invalid
    else ok (record {
      container_id = container.id;
      container_name = container.name;
      image = container.image;
      image_digest = container.image_digest;
      compose_project = container.compose_project;
      state = container.state;
      mounts = mounts;
    })

-- `inventory.into_iter().flat_map(|value| &value.containers)`
abbrev pub containers_of : Option DockerInventory → List DockerContainer
containers_of none = []
containers_of (some inventory) = inventory.containers

-- `.map(|container| snapshot(container, &roots)).collect::<Result<Vec<_>, _>>()`
unfoldable pub snapshot_all :
    List RemotePath → List DockerContainer → Result SourceLayoutError (List DockerWorkloadSnapshot)
snapshot_all roots [] = ok []
snapshot_all roots (container ∷ rest) = do
  workload ← snapshot container roots
  workloads ← snapshot_all roots rest
  ok (workload ∷ workloads)

unfoldable pub from_inventory :
    List RemotePath → List Text → Option DockerInventory → Result SourceLayoutError SourceLayout
from_inventory roots selected_container_ids inventory = do
  docker_workloads ←
      snapshot_all roots (
        filter (λ container. contains selected_container_ids container.id)
          (containers_of inventory))
  let layout : SourceLayout = record { roots = roots; docker_workloads = docker_workloads }
  validate_layout layout
  ok layout
