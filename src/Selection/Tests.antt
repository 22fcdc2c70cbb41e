-- ===== src/Selection/Tests.antt =====
-- Runs of the selection's checks on concrete inputs.
use vds_guardian.Prelude.{
  list_beq, ◌≡◌, refl, inl, none, some, ok, err, Option, List, [], ◌∷◌, In, try_for_each, to_set,
}
use vds_guardian.Text.{Bytes, str, len, bytes, encode, split, strip_prefix}
use vds_guardian.Identifiers.{
  RemotePath, ProfileId, RepositoryId, covers, valid_remote_root, valid_absolute_path,
}
use vds_guardian.Identifiers.Segments.{IsValidPath}
use vds_guardian.Docker.{from_inventory, snapshot_all, validate_layout, validate_workloads}
use vds_guardian.Selection.{
  BackupSelection, remote_path, docker_mount, CaptureSelectionPreview, covered_path,
  docker_inventory_required, preview_capture_selection, confirmation, hex, validate_selection,
  resolve_roots, resolve_items, resolve_item, resolve_mount, normalize_roots, normalize_from,
  sort_paths, insert_path, path_le, bytes_le, append_sqlite_warning, selected_container_ids,
}
use vds_guardian.Selection.Roots.{IsNormal, normalize_roots-IsNormal, normalize_roots-warned}
use vds_guardian.Selection.Preview.{IsSoundPreview, preview-IsSoundPreview}

abbrev srv : RemotePath
srv = record { as_str = str "/srv" }

abbrev srv_data : RemotePath
srv_data = record { as_str = str "/srv/data" }

abbrev to_vec : BackupSelection → List RemotePath → Option Bytes
to_vec selection roots = some (bytes selection.profile_id.as_str)

abbrev sha256 : Bytes → Bytes
sha256 bs = bs

abbrev profile_1 : ProfileId
profile_1 = record { as_str = str "profile-1" }

abbrev repository_1 : RepositoryId
repository_1 = record { as_str = str "main" }

abbrev selection : BackupSelection
selection = record {
  profile_id = profile_1;
  repository_id = repository_1;
  items = remote_path srv_data ∷ remote_path srv ∷ [];
  sqlite_path = none;
}

abbrev preview : CaptureSelectionPreview
preview = record {
  profile_id = profile_1;
  repository_id = repository_1;
  normalized_roots = srv ∷ [];
  logical_items = remote_path srv_data ∷ remote_path srv ∷ [];
  warnings = covered_path srv_data srv ∷ [];
  sqlite_path = none;
  confirmation = str "CREATE BACKUP FOR profile-1 IN main 70726f66696c";
  source_layout = record { roots = srv ∷ []; docker_workloads = [] };
}

srv-IsValid : IsValidPath srv
unfolding valid_remote_root valid_absolute_path split len bytes encode list_beq
srv-IsValid = refl

srv_data-IsValid : IsValidPath srv_data
unfolding valid_remote_root valid_absolute_path split len bytes encode list_beq
srv_data-IsValid = refl

previews : preview_capture_selection to_vec sha256 selection none ≡ ok preview
unfolding preview_capture_selection confirmation hex validate_selection resolve_roots resolve_items
    resolve_item normalize_roots normalize_from sort_paths insert_path path_le bytes_le
    append_sqlite_warning selected_container_ids from_inventory snapshot_all validate_layout
    validate_workloads covers strip_prefix len bytes encode try_for_each to_set list_beq
previews = refl

-- A Docker mount cannot be selected without an inventory.
needs_inventory :
    resolve_items none (docker_mount (str "0123456789ab") srv srv_data ∷ []) []
    ≡ err docker_inventory_required
unfolding resolve_items resolve_item resolve_mount
needs_inventory = refl

normalize_roots-IsNormal_example :
    IsNormal
      (srv_data ∷ srv ∷ [])
      (normalize_roots (srv_data ∷ srv ∷ []) []).0
      (normalize_roots (srv_data ∷ srv ∷ []) []).1
normalize_roots-IsNormal_example =
    normalize_roots-IsNormal (srv_data ∷ srv ∷ []) [] (srv_data-IsValid, (srv-IsValid, tt))

normalize_roots-warned_example :
    In (covered_path srv_data srv) (normalize_roots (srv ∷ []) (covered_path srv_data srv ∷ [])).1
normalize_roots-warned_example =
    normalize_roots-warned (srv ∷ []) (covered_path srv_data srv ∷ []) (covered_path srv_data srv)
      (inl refl)

preview-IsSoundPreview_example : IsSoundPreview selection none preview
preview-IsSoundPreview_example =
    preview-IsSoundPreview to_vec sha256 selection none preview
      (srv_data-IsValid, (srv-IsValid, tt)) previews
