-- ===== src/Docker/Tests.antt =====
-- Runs of the inventory's and the layout's checks on concrete inputs.
use vds_guardian.Prelude.{
  list_beq, ◌≡◌, ◌≤◌, ◌↔◌, refl, false, none, some, ok, err, [], ◌∷◌, length, All, IsUnique,
  insert_all, try_for_each, to_set,
}
use vds_guardian.Text.{str, len, bytes, encode, split, strip_prefix}
use vds_guardian.Identifiers.{
  RemotePath, valid_absolute_path, valid_remote_root, parse_remote_path, covers,
}
use vds_guardian.Docker.{
  DockerMount, DockerContainer, DockerInventory, SourceLayout, running, bind, validate_inventory,
  validate_containers, validate_container, validate_mount, unique, has_invalid_text,
  has_invalid_field, valid_id, valid_text, validate_layout, validate_workloads, invalid_workload,
  repeats_destination, has_uncovered_mount, from_inventory, snapshot_all, snapshot, snapshot_mount,
  capturable_path, duplicate_container,
}
use vds_guardian.Docker.Checked.{IsValidContainer, container_ids, validate_inventory_iff}
use vds_guardian.Docker.Described.{DescribeAll}
use vds_guardian.Docker.Layouts.{IsValidLayout, selected, validate_layout_iff, from_inventory_lem}

abbrev data_mount : DockerMount
data_mount = record {
  kind = bind;
  source_reference = str "/srv/data";
  host_path = none;
  destination = str "/data";
  read_only = false;
}

abbrev web : DockerContainer
web = record {
  id = str "0123456789ab";
  name = str "web";
  image = str "nginx";
  image_digest = none;
  compose_project = none;
  state = running;
  health = none;
  mounts = data_mount ∷ [];
  networks = [];
  secret_references = [];
}

abbrev inventory : DockerInventory
inventory = record { containers = web ∷ [] }

abbrev srv : RemotePath
srv = record { as_str = str "/srv" }

abbrev layout : SourceLayout
layout = record {
  roots = srv ∷ [];
  docker_workloads =
      record {
        container_id = str "0123456789ab";
        container_name = str "web";
        image = str "nginx";
        image_digest = none;
        compose_project = none;
        state = running;
        mounts =
            record {
              source_path = record { as_str = str "/srv/data" };
              destination = record { as_str = str "/data" };
              read_only = false;
            }
            ∷ [];
      }
      ∷ [];
}

accepts_inventory : validate_inventory inventory ≡ ok tt
unfolding validate_inventory validate_containers validate_container validate_mount unique
    has_invalid_text has_invalid_field valid_id valid_text valid_absolute_path split len bytes
    encode insert_all try_for_each list_beq
accepts_inventory = refl

rejects_duplicate :
    validate_inventory (record { containers = web ∷ web ∷ [] }) ≡ err duplicate_container
unfolding validate_inventory validate_containers validate_container validate_mount unique
    has_invalid_text has_invalid_field valid_id valid_text valid_absolute_path split len bytes
    encode insert_all try_for_each list_beq
rejects_duplicate = refl

makes_layout : from_inventory (srv ∷ []) (str "0123456789ab" ∷ []) (some inventory) ≡ ok layout
unfolding from_inventory snapshot_all snapshot snapshot_mount capturable_path parse_remote_path
    valid_remote_root covers strip_prefix validate_layout validate_workloads invalid_workload
    repeats_destination has_uncovered_mount valid_id valid_text valid_absolute_path split len bytes
    encode to_set list_beq
makes_layout = refl

validate_inventory_iff_example : (validate_inventory inventory ≡ ok tt) ↔ (
    (length inventory.containers ≤ 500)
    × IsUnique (container_ids inventory.containers)
    × All IsValidContainer inventory.containers)
validate_inventory_iff_example = validate_inventory_iff inventory

validate_layout_iff_example : (validate_layout layout ≡ ok tt) ↔ IsValidLayout layout
validate_layout_iff_example = validate_layout_iff layout

from_inventory_lem_example :
    (layout.roots ≡ srv ∷ [])
    × DescribeAll
        (srv ∷ [])
        (selected (str "0123456789ab" ∷ []) (some inventory))
        layout.docker_workloads
    × IsValidLayout layout
from_inventory_lem_example =
    from_inventory_lem (srv ∷ []) (str "0123456789ab" ∷ []) (some inventory) layout makes_layout
