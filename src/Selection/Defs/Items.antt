-- ===== src/Selection/Defs/Items.antt =====
-- The selection and the resolution of its items against the inventory
-- (crates/guardian-core/src/capture_selection.rs).
use vds_guardian.Prelude.{
  ℕ, [], ◌∷◌, some, List, Result, Bool, if◌then◌else◌, Option, not, true, is_empty, ◌==◌, ◌&&◌, all,
  filter_map, ok, ltb, find, map, ◌>>=◌, ◌>>◌, ◌||◌, false, any, ok_or, contains, ◌++◌, filter,
  nat_eq, list_eq, option_eq, leb, length, ensure, err, try_for_each,
}
use vds_guardian.Text.{Text, is_empty_text, len, bytes, is_alphanumeric, str, is_one_of}
use vds_guardian.Identifiers.{RemotePath, ProfileId, RepositoryId}
use vds_guardian.Docker.{
  DockerContainerState, created, running, paused, restarting, exited, dead, DockerContainer,
  DockerInventory, DockerMount, capturable_path, SourceLayout,
}

pub data BackupSelectionItem : Type 0 where
  remote_path : RemotePath → BackupSelectionItem
  docker_mount : Text → RemotePath → RemotePath → BackupSelectionItem
  docker_group : Text → List RemotePath → BackupSelectionItem

pub record BackupSelection : Type 0 where
  pub profile_id : ProfileId
  pub repository_id : RepositoryId
  pub items : List BackupSelectionItem
  pub sqlite_path : Option RemotePath

pub data CaptureSelectionWarning : Type 0 where
  covered_path : RemotePath → RemotePath → CaptureSelectionWarning
  live_docker_data : Text → Text → CaptureSelectionWarning
  sqlite_also_in_filesystem : RemotePath → RemotePath → CaptureSelectionWarning

pub data CaptureSelectionError : Type 0 where
  invalid_selection docker_inventory_required docker_selection_changed : CaptureSelectionError
  serialization : CaptureSelectionError

pub record CaptureSelectionPreview : Type 0 where
  pub profile_id : ProfileId
  pub repository_id : RepositoryId
  pub normalized_roots : List RemotePath
  pub logical_items : List BackupSelectionItem
  pub warnings : List CaptureSelectionWarning
  pub sqlite_path : Option RemotePath
  pub confirmation : Text
  pub source_layout : SourceLayout

abbrev pub Warnings : Type 0
Warnings = List CaptureSelectionWarning

-- A step that may push warnings.
abbrev pub Warned : Type 0 → Type 0
Warned A = Result CaptureSelectionError (A × Warnings)

unfoldable pub valid_group_id : Text → Bool
valid_group_id value =
    not (is_empty_text value)
    && leb (len value) 128
    && all (λ b. is_alphanumeric b || is_one_of (str "._-") b) (bytes value)

abbrev pub valid_item : BackupSelectionItem → Bool
valid_item (remote_path p) = true
valid_item (docker_mount c d p) = true
valid_item (docker_group group_id capturable_paths) = not (
    not (valid_group_id group_id) || is_empty capturable_paths || ltb 128 (length capturable_paths))

abbrev pub max_selection_items : ℕ
max_selection_items = 64

unfoldable pub validate_selection : BackupSelection → Result CaptureSelectionError (Unit {0})
validate_selection selection =
    if is_empty selection.items || ltb max_selection_items (length selection.items)
    then err invalid_selection
    else try_for_each (λ item. ensure (valid_item item) invalid_selection) selection.items

abbrev pub in_project : Text → DockerContainer → Bool
in_project group_id container = container.compose_project == some group_id

abbrev pub is_live : DockerContainerState → Bool
is_live running = true
is_live paused = true
is_live restarting = true
is_live created = false
is_live exited = false
is_live dead = false

abbrev pub is_live_warning_for : Text → CaptureSelectionWarning → Bool
is_live_warning_for id (live_docker_data container_id name) = container_id == id
is_live_warning_for id (covered_path p q) = false
is_live_warning_for id (sqlite_also_in_filesystem p q) = false

unfoldable pub append_live_warning : DockerContainer → Warnings → Warnings
append_live_warning container warnings =
    if is_live container.state && not (any (is_live_warning_for container.id) warnings)
    then warnings ++ live_docker_data container.id container.name ∷ []
    else warnings

abbrev pub mount_is : RemotePath → RemotePath → DockerMount → Bool
mount_is destination path mount =
    mount.destination == destination.as_str && capturable_path mount == some path.as_str

unfoldable pub resolve_mount :
    Option DockerInventory
    → Text
    → RemotePath
    → RemotePath
    → Warnings
    → Result CaptureSelectionError Warnings
unfolding append_live_warning
resolve_mount inventory container_id destination path warnings = do
  known ← ok_or inventory docker_inventory_required
  container ←
      ok_or (find (λ candidate. candidate.id == container_id) known.containers)
        docker_selection_changed
  ensure (any (mount_is destination path) container.mounts) docker_selection_changed
  ok (append_live_warning container warnings)

-- Equality of two `BTreeSet`s.
abbrev pub same_set : List Text → List Text → Bool
same_set xs ys = all (contains ys) xs && all (contains xs) ys

-- `flat_map` of the capturable paths
unfoldable pub capturable_paths : List DockerContainer → List Text
capturable_paths [] = []
capturable_paths (container ∷ rest) =
    filter_map capturable_path container.mounts ++ capturable_paths rest

unfoldable pub append_live_warnings : List DockerContainer → Warnings → Warnings
append_live_warnings [] warnings = warnings
append_live_warnings (container ∷ rest) warnings =
    append_live_warnings rest (append_live_warning container warnings)

unfoldable pub resolve_group :
    Option DockerInventory
    → Text
    → List RemotePath
    → Warnings
    → Result CaptureSelectionError Warnings
resolve_group inventory group_id requested warnings = do
  known ← ok_or inventory docker_inventory_required
  let containers = filter (in_project group_id) known.containers
  ensure
      (not (
        is_empty containers
        || not (same_set (capturable_paths containers) (map (λ path. path.as_str) requested))))
      docker_selection_changed
  ok (append_live_warnings containers warnings)

-- One round of the loop of `resolve_roots`: the roots that the item adds.
unfoldable pub resolve_item :
    Option DockerInventory → BackupSelectionItem → Warnings → Warned (List RemotePath)
resolve_item inventory (remote_path absolute_path) warnings = ok (absolute_path ∷ [], warnings)
resolve_item inventory (docker_mount container_id mount_destination capturable_path) warnings = do
  warnings' ← resolve_mount inventory container_id mount_destination capturable_path warnings
  ok (capturable_path ∷ [], warnings')
resolve_item inventory (docker_group group_id paths) warnings = do
  warnings' ← resolve_group inventory group_id paths warnings
  ok (paths, warnings')

unfoldable pub resolve_items :
    Option DockerInventory → List BackupSelectionItem → Warnings → Warned (List RemotePath)
resolve_items inventory [] warnings = ok ([], warnings)
resolve_items inventory (item ∷ rest) warnings = do
  step ← resolve_item inventory item warnings
  later ← resolve_items inventory rest step.1
  ok (step.0 ++ later.0, later.1)

unfoldable pub resolve_roots :
    BackupSelection → Option DockerInventory → Warnings → Warned (List RemotePath)
resolve_roots selection inventory warnings = resolve_items inventory selection.items warnings
