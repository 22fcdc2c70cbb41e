-- ===== src/Plans/Replace.antt =====
-- The plan that replaces the captured source, and its reconciliation with the current state
-- (crates/guardian-core/src/replace.rs).
use vds_guardian.Prelude.{
  Option, none, some, List, [], ◌∷◌, ◌++◌, Bool, true, false, not, ◌&&◌, ◌||◌, any, find, filter,
  map, is_empty, is_some, take, ◌==◌, list_eq, option_eq, Result, ok, err, ◌>>=◌, ◌>>◌, ensure,
  map_err, ok_or, if◌then◌else◌, nat_eq,
}
use vds_guardian.Text.{Text, Bytes, str, bytes}
use vds_guardian.Identifiers.{BackupId, ProfileId, PayloadPath, RemotePath, identifier_eq}
use vds_guardian.Docker.{
  DockerContainer, DockerInventory, DockerMountSnapshot, DockerWorkloadSnapshot, SourceLayout,
  capturable_path,
}
use vds_guardian.Selection.{is_live, bytes_le}
use vds_guardian.Manifest.{
  Manifest, ManifestError, validate_sealed, select_payloads, PayloadSelectionError,
  no_filesystem_payload, ambiguous_database_payload,
}
use vds_guardian.Profile.{VdsProfile, validate_profile, host_key_fingerprint}

pub record SourceReplacementImpact : Type 0 where
  pub backup_id : BackupId
  pub target_profile_id : ProfileId
  pub root : RemotePath
  pub containers : List Text
  pub replaces : List RemotePath
  pub conflicts : List Text
  pub safety_backup_required : Bool
  pub service_stop_required : Bool
  pub confirmation_text : Text

pub record SourceReplacementPlan : Type 0 where
  pub impact : SourceReplacementImpact
  pub filesystem_payload : PayloadPath
  pub docker_workloads : List DockerWorkloadSnapshot

pub data SourceReplacementPlanError : Type 0 where
  replace_manifest : ManifestError → SourceReplacementPlanError
  missing_layout target_mismatch multiple_roots unsafe_root : SourceReplacementPlanError
  database_requires_adapter replace_no_filesystem : SourceReplacementPlanError
  replace_ambiguous_database replace_confirmation live_conflicts : SourceReplacementPlanError

abbrev pub replace_selection : PayloadSelectionError → SourceReplacementPlanError
replace_selection no_filesystem_payload = replace_no_filesystem
replace_selection ambiguous_database_payload = replace_ambiguous_database

unfoldable pub protected_root : Text → Bool
protected_root value =
    any (λ name. value == name)
      (str "/"
        ∷ str "/bin"
        ∷ str "/boot"
        ∷ str "/dev"
        ∷ str "/etc"
        ∷ str "/lib"
        ∷ str "/lib64"
        ∷ str "/proc"
        ∷ str "/run"
        ∷ str "/sbin"
        ∷ str "/sys"
        ∷ str "/usr"
        ∷ [])

-- `layout.roots[0]`, behind the test for exactly one root
abbrev pub only_root : List RemotePath → Result SourceReplacementPlanError RemotePath
only_root [] = err multiple_roots
only_root (root ∷ []) = ok root
only_root (root ∷ other ∷ rest) = err multiple_roots

unfoldable pub active_names : List DockerWorkloadSnapshot → List Text
active_names workloads =
    map (λ workload. workload.container_name)
      (filter (λ workload. is_live workload.state) workloads)

unfoldable pub replaces_at :
    Manifest → VdsProfile → SourceLayout → PayloadPath → RemotePath → SourceReplacementPlan
replaces_at manifest target layout filesystem_payload root =
    let containers = active_names layout.docker_workloads in
    record {
      impact = record {
        backup_id = manifest.backup_id;
        target_profile_id = target.profile_id;
        root = root;
        containers = containers;
        replaces = root ∷ [];
        conflicts = [];
        safety_backup_required = true;
        service_stop_required = not (is_empty containers);
        confirmation_text =
            str "REPLACE "
            ++ (manifest.backup_id.as_str
                ++ (str " ON " ++ (target.profile_id.as_str ++ (str " AT " ++ root.as_str))));
      };
      filesystem_payload = filesystem_payload;
      docker_workloads = layout.docker_workloads;
    }

-- The base64 decoder and SHA-256, in hexadecimal, are parameters.
module _ (decode : Text → Option Bytes) (sha256 : Bytes → Text) where
  unfoldable pub build_replacement :
      Manifest → VdsProfile → Result SourceReplacementPlanError SourceReplacementPlan
  build_replacement manifest target = do
    map_err replace_manifest (validate_sealed decode manifest)
    map_err (λ _. target_mismatch) (validate_profile decode target)
    ensure
        (not (
          not (manifest.source.profile_id == target.profile_id)
          || not (
              manifest.source.host_key_fingerprint
              == host_key_fingerprint sha256 target.endpoint.host_pin.public_key_base64)))
        target_mismatch
    layout ← ok_or manifest.source_layout missing_layout
    root ← only_root layout.roots
    selected ← map_err replace_selection (select_payloads manifest)
    ensure (not (is_some selected.1)) database_requires_adapter
    ensure (not (protected_root root.as_str)) unsafe_root
    ok (replaces_at manifest target layout selected.0 root)

unfoldable pub mount_matches : DockerMountSnapshot → DockerContainer → Bool
mount_matches expected current =
    any
      (λ mount.
        mount.destination == expected.destination.as_str
        && (capturable_path mount == some expected.source_path.as_str
            && same_access mount.read_only expected.read_only))
      current.mounts
  where
    same_access : Bool → Bool → Bool
    same_access true b = b
    same_access false b = not b

-- `if test { conflicts.push(…) }`
abbrev pub pushed : Bool → Text → DockerWorkloadSnapshot → List Text
pushed test label expected = if test then (label ++ expected.container_name) ∷ [] else []

-- what `compare_workload` pushes
unfoldable pub compare_workload : DockerWorkloadSnapshot → DockerContainer → List Text
compare_workload expected current =
    pushed (not (current.name == expected.container_name)) (str "container_name_changed:") expected
    ++ (pushed
          (not (current.image == expected.image)
            || not (current.image_digest == expected.image_digest))
          (str "container_image_changed:") expected
        ++ (pushed (not (current.compose_project == expected.compose_project))
              (str "container_compose_changed:") expected
            ++ pushed (any (λ mount. not (mount_matches mount current)) expected.mounts)
                (str "container_mount_changed:") expected))

-- One round of the loop: the conflicts and the running container that it adds.
unfoldable pub reconcile_one : DockerInventory → DockerWorkloadSnapshot → List Text × List Text
reconcile_one inventory expected =
    elim (find (λ item. item.id == expected.container_id) inventory.containers) [
      | none ↦ ((str "container_missing:" ++ expected.container_name) ∷ [], [])
      | some current ↦ (
        compare_workload expected current,
        if is_live current.state then current.name ∷ [] else [],
      )
    ]

unfoldable pub reconcile_all : DockerInventory → List DockerWorkloadSnapshot → List Text × List Text
reconcile_all inventory [] = ([], [])
reconcile_all inventory (expected ∷ rest) =
    let one = reconcile_one inventory expected in
    let later = reconcile_all inventory rest in (one.0 ++ later.0, one.1 ++ later.1)

-- `sort` and `dedup` of strings, which are compared by their bytes
unfoldable pub insert_name : Text → List Text → List Text
insert_name name [] = name ∷ []
insert_name name (other ∷ rest) =
    let later = insert_name name rest in
    if bytes_le (bytes name) (bytes other) then name ∷ other ∷ rest else other ∷ later

unfoldable pub sort_names : List Text → List Text
sort_names [] = []
sort_names (name ∷ rest) = insert_name name (sort_names rest)

unfoldable pub dedup_names : List Text → List Text
dedup_names [] = []
dedup_names (name ∷ []) = name ∷ []
dedup_names (name ∷ next ∷ rest) =
    let later = dedup_names (next ∷ rest) in if name == next then later else name ∷ later

abbrev pub with_state :
    List Text → List Text → Bool → SourceReplacementImpact → SourceReplacementImpact
with_state containers conflicts stop self = record {
  backup_id = self.backup_id;
  target_profile_id = self.target_profile_id;
  root = self.root;
  containers = containers;
  replaces = self.replaces;
  conflicts = conflicts;
  safety_backup_required = self.safety_backup_required;
  service_stop_required = stop;
  confirmation_text = self.confirmation_text;
}

abbrev pub with_impact : SourceReplacementPlan → SourceReplacementImpact → SourceReplacementPlan
with_impact self impact = record {
  impact = impact;
  filesystem_payload = self.filesystem_payload;
  docker_workloads = self.docker_workloads;
}

unfoldable pub reconcile_workloads :
    SourceReplacementPlan → Option DockerInventory → SourceReplacementPlan
reconcile_workloads self inventory =
    if is_empty self.docker_workloads
    then with_impact self (with_state [] [] false self.impact)
    else elim inventory [
      | none ↦ with_impact self (
          with_state [] (str "docker_inventory_unavailable" ∷ []) self.impact.service_stop_required
            self.impact)
      | some known ↦
          let found = reconcile_all known self.docker_workloads in
          let containers = dedup_names (sort_names found.1) in
          with_impact self (with_state containers found.0 (not (is_empty containers)) self.impact)
    ]

-- the loops of `state.update`
abbrev pub joined_bytes : List Text → Bytes
joined_bytes [] = []
joined_bytes (text ∷ rest) = bytes text ++ joined_bytes rest

unfoldable pub refresh_confirmation : (Bytes → Text) → SourceReplacementPlan → SourceReplacementPlan
refresh_confirmation sha256 self =
    let impact = self.impact in
    let token = sha256 (
      bytes impact.root.as_str
      ++ (joined_bytes impact.containers ++ joined_bytes impact.conflicts)) in
    with_impact self (record {
      backup_id = impact.backup_id;
      target_profile_id = impact.target_profile_id;
      root = impact.root;
      containers = impact.containers;
      replaces = impact.replaces;
      conflicts = impact.conflicts;
      safety_backup_required = impact.safety_backup_required;
      service_stop_required = impact.service_stop_required;
      confirmation_text =
          str "REPLACE "
          ++ (impact.backup_id.as_str
              ++ (str " ON "
                  ++ (impact.target_profile_id.as_str
                      ++ (str " AT "
                          ++ (impact.root.as_str ++ (str " STATE " ++ take 12 token))))));
    })

unfoldable pub reconcile_current :
    (Bytes → Text) → SourceReplacementPlan → Option DockerInventory → SourceReplacementPlan
reconcile_current sha256 self inventory =
    refresh_confirmation sha256 (reconcile_workloads self inventory)

unfoldable pub reconcile_source_ready :
    (Bytes → Text) → SourceReplacementPlan → Bool → SourceReplacementPlan
reconcile_source_ready sha256 self ready =
    let impact = self.impact in
    let missing = (str "source_root_unavailable:" ++ impact.root.as_str) ∷ [] in
    let conflicts = if ready then impact.conflicts else impact.conflicts ++ missing in
    refresh_confirmation sha256 (
      with_impact self (with_state impact.containers conflicts impact.service_stop_required impact))

unfoldable pub approve_replacement :
    SourceReplacementPlan → Text → Result SourceReplacementPlanError (Unit {0})
approve_replacement self confirmation =
    if not (is_empty self.impact.conflicts)
    then err live_conflicts
    else ensure (confirmation == self.impact.confirmation_text) replace_confirmation
