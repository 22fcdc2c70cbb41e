-- ===== src/Selection/Defs.antt =====
-- The normalization of the roots, the confirmation and the preview
-- (crates/guardian-core/src/capture_selection.rs).
mod Items
use vds_guardian.Prelude.{
  ℕ, [], ◌∷◌, none, some, List, Result, Bool, if◌then◌else◌, Option, ◌/◌, not, true, is_empty, ◌==◌,
  ◌&&◌, all, filter_map, ok, ltb, find, map, ◌%◌, ◌>>=◌, ◌>>◌, ◌||◌, false, any, ok_or, contains,
  ◌++◌, filter, ◌+◌, map_err, nat_eq, list_eq, option_eq, leb, length, ensure, ◌-◌, take, err,
  try_for_each,
}
use vds_guardian.Text.{Text, Bytes, is_empty_text, len, bytes, is_alphanumeric, str, is_one_of}
use vds_guardian.Identifiers.{RemotePath, covers, ProfileId, RepositoryId}
use vds_guardian.Docker.{
  DockerContainerState, created, running, paused, restarting, exited, dead, DockerContainer,
  DockerInventory, DockerMount, capturable_path, validate_inventory, containers_of, SourceLayout,
  from_inventory,
}
use Items.{
  BackupSelectionItem, BackupSelection, CaptureSelectionError, CaptureSelectionPreview, Warnings,
  validate_selection, in_project, resolve_roots, remote_path, docker_mount, docker_group,
  covered_path, sqlite_also_in_filesystem, docker_selection_changed, serialization,
}
unfoldable pub use Items.*

-- `str::cmp`: the order of the bytes
unfoldable pub bytes_le : Bytes → Bytes → Bool
bytes_le [] ys = true
bytes_le (x ∷ xs) [] = false
bytes_le (x ∷ xs) (y ∷ ys) = ltb x y || x == y && bytes_le xs ys

unfoldable pub path_le : RemotePath → RemotePath → Bool
unfolding bytes_le
path_le left right =
    ltb (len left.as_str) (len right.as_str)
    || len left.as_str == len right.as_str && bytes_le (bytes left.as_str) (bytes right.as_str)

-- `sort_by`, which is stable.
unfoldable pub insert_path : RemotePath → List RemotePath → List RemotePath
insert_path p [] = p ∷ []
insert_path p (q ∷ qs) = let rest = insert_path p qs in if path_le p q then p ∷ q ∷ qs else q ∷ rest

unfoldable pub sort_paths : List RemotePath → List RemotePath
sort_paths [] = []
sort_paths (p ∷ ps) = insert_path p (sort_paths ps)

-- the loop of `normalize_roots`
unfoldable pub normalize_from :
    List RemotePath → Warnings → List RemotePath → List RemotePath × Warnings
normalize_from normalized warnings [] = (normalized, warnings)
normalize_from normalized warnings (path ∷ rest) =
    elim (find (λ parent. covers parent path) normalized) [
      | none ↦ normalize_from (normalized ++ path ∷ []) warnings rest
      | some parent ↦ normalize_from normalized (warnings ++ covered_path path parent ∷ []) rest
    ]

unfoldable pub normalize_roots : List RemotePath → Warnings → List RemotePath × Warnings
unfolding normalize_from sort_paths insert_path path_le
normalize_roots roots warnings = normalize_from [] warnings (sort_paths roots)

unfoldable pub append_sqlite_warning : Option RemotePath → List RemotePath → Warnings → Warnings
append_sqlite_warning none roots warnings = warnings
append_sqlite_warning (some sqlite) roots warnings =
    elim (find (λ root. covers root sqlite) roots) [
      | none ↦ warnings
      | some parent ↦ warnings ++ sqlite_also_in_filesystem sqlite parent ∷ []
    ]

-- A set of ids, which is only asked for members.
unfoldable pub selected_container_ids :
    List BackupSelectionItem → Option DockerInventory → List Text
selected_container_ids [] inventory = []
selected_container_ids (remote_path p ∷ rest) inventory = selected_container_ids rest inventory
selected_container_ids (docker_mount container_id d p ∷ rest) inventory =
    container_id ∷ selected_container_ids rest inventory
selected_container_ids (docker_group group_id ps ∷ rest) inventory =
    map (λ container. container.id) (filter (in_project group_id) (containers_of inventory))
    ++ selected_container_ids rest inventory

-- `format!("{byte:02x}")`
abbrev pub lower_hex_digit : ℕ → ℕ
lower_hex_digit n = if ltb n 10 then b'0' + n else b'a' + (n - 10)

unfoldable pub hex : Bytes → Text
hex [] = []
hex (b ∷ bs) = lower_hex_digit (b / 16) ∷ lower_hex_digit (b % 16) ∷ hex bs

-- `serde_json::to_vec` of the tuple that is confirmed, and SHA-256, are third-party code.
module _ (to_vec : BackupSelection → List RemotePath → Option Bytes) (sha256 : Bytes → Bytes) where
  unfoldable pub confirmation :
      BackupSelection → List RemotePath → Result CaptureSelectionError Text
  unfolding hex
  confirmation selection roots = do
    encoded ← ok_or (to_vec selection roots) serialization
    let digest = hex (take 6 (sha256 encoded))
    ok (
        str "CREATE BACKUP FOR "
        ++ (selection.profile_id.as_str
            ++ (str " IN " ++ (selection.repository_id.as_str ++ (str " " ++ digest)))))

  unfoldable pub preview_capture_selection :
      BackupSelection
      → Option DockerInventory
      → Result CaptureSelectionError CaptureSelectionPreview
  preview_capture_selection selection inventory = do
    validate_selection selection
    elim inventory [
      | none ↦ ok tt
      | some known ↦ map_err (λ _. docker_selection_changed) (validate_inventory known)
    ]
    resolved ← resolve_roots selection inventory []
    let normal = normalize_roots resolved.0 resolved.1
    let warnings = append_sqlite_warning selection.sqlite_path normal.0 normal.1
    text ← confirmation selection normal.0
    let ids = selected_container_ids selection.items inventory
    layout ← map_err (λ _. docker_selection_changed) (from_inventory normal.0 ids inventory)
    ok (record {
      profile_id = selection.profile_id;
      repository_id = selection.repository_id;
      normalized_roots = normal.0;
      logical_items = selection.items;
      warnings = warnings;
      sqlite_path = selection.sqlite_path;
      confirmation = text;
      source_layout = layout;
    })
