-- ===== src/Plans/Defs.antt =====
-- The plan of a capture, of a restore and of a deployment
-- (crates/guardian-core/src/plan.rs, restore.rs, deploy.rs).
use vds_guardian.Prelude.{
  ℕ, Option, List, [], ◌∷◌, ◌++◌, Bool, not, ◌&&◌, all, leb, ltb, length, is_empty, is_none_or,
  is_some, ◌==◌, list_eq, Result, ok, err, ◌>>=◌, ◌>>◌, ensure, map_err, ok_or, if◌then◌else◌,
  nat_eq, true, false,
}
use vds_guardian.Text.{Text, Bytes, str}
use vds_guardian.Identifiers.{
  BackupId, ProfileId, PlanId, RepositoryId, PayloadPath, RemoteTargetPath, valid_remote_root,
}
use vds_guardian.Manifest.{
  Manifest, ManifestError, validate_sealed, select_payloads, PayloadSelectionError,
  no_filesystem_payload, ambiguous_database_payload,
}
use vds_guardian.Profile.{VdsProfile, validate_profile}

pub record FilesystemCapturePlan : Type 0 where
  pub plan_id : PlanId
  pub version : ℕ
  pub profile_id : ProfileId
  pub repository_id : RepositoryId
  pub roots : List Text
  pub database_path : Option Text

pub data CapturePlanError : Type 0 where
  capture_plan_invalid capture_plan_serialization : CapturePlanError

unfoldable pub validate_capture_plan : FilesystemCapturePlan → Result CapturePlanError (Unit {0})
validate_capture_plan self =
    let roots_valid =
      not (is_empty self.roots) && leb (length self.roots) 32 && all valid_remote_root self.roots in
    let database_path_valid =
      is_none_or (λ path. not (path == str "/") && valid_remote_root path) self.database_path in
    ensure (ltb 0 self.version && roots_valid && database_path_valid) capture_plan_invalid

-- `serde_json::to_vec` and the digest in hexadecimal are parameters.
unfoldable pub canonical_sha256 :
    (FilesystemCapturePlan → Option Bytes)
    → (Bytes → Text)
    → FilesystemCapturePlan
    → Result CapturePlanError Text
canonical_sha256 to_vec hex_digest self = do
  validate_capture_plan self
  encoded ← ok_or (to_vec self) capture_plan_serialization
  ok (hex_digest encoded)

pub data RestoreMode : Type 0 where
  new_destination : RestoreMode

pub data RestorePlanError : Type 0 where
  restore_manifest : ManifestError → RestorePlanError
  unsafe_destination restore_no_filesystem restore_ambiguous_database : RestorePlanError
  restore_confirmation_required conflicts_present : RestorePlanError

abbrev pub restore_selection : PayloadSelectionError → RestorePlanError
restore_selection no_filesystem_payload = restore_no_filesystem
restore_selection ambiguous_database_payload = restore_ambiguous_database

pub data DeploymentPlanError : Type 0 where
  deploy_manifest : ManifestError → DeploymentPlanError
  invalid_target_profile deploy_no_filesystem deploy_ambiguous_database : DeploymentPlanError
  deploy_confirmation_required : DeploymentPlanError

abbrev pub deploy_selection : PayloadSelectionError → DeploymentPlanError
deploy_selection no_filesystem_payload = deploy_no_filesystem
deploy_selection ambiguous_database_payload = deploy_ambiguous_database

pub record RestoreImpactPreview : Type 0 where
  pub backup_id : BackupId
  pub destination : Text
  pub mode : RestoreMode
  pub adds : List Text
  pub replaces : List Text
  pub conflicts : List Text
  pub workload_labels : List Text
  pub confirmation_text : Text

pub record RestorePlan : Type 0 where
  pub backup_id : BackupId
  pub destination : Text
  pub filesystem_payload : PayloadPath
  pub database_payload : Option PayloadPath
  pub confirmation_text : Text
  pub impact : RestoreImpactPreview

-- What `std::fs::symlink_metadata` answers: `Ok`, the error `NotFound`, or another error.
pub data Metadata : Type 0 where
  found not_found other_error : Metadata

-- What the plan asks of paths, which differs between platforms, and of the file system.
pub record LocalPaths : Type 0 where
  pub is_absolute : Text → Bool
  pub join_name : Text → Text → Text
  pub symlink_metadata : Text → Metadata

abbrev pub means_occupied : Metadata → Bool
means_occupied found = true
means_occupied not_found = false
means_occupied other_error = true

abbrev pub destination_occupied : LocalPaths → Text → Bool
destination_occupied paths path = means_occupied (paths.symlink_metadata path)

unfoldable pub restore_confirmation : Manifest → Text → Text
restore_confirmation manifest destination =
    str "RESTORE " ++ (manifest.backup_id.as_str ++ (str " TO " ++ destination))

module _ (paths : LocalPaths) where
  unfoldable pub restore_impact : Manifest → Text → Option PayloadPath → RestoreImpactPreview
  restore_impact manifest destination database_payload = record {
    backup_id = manifest.backup_id;
    destination = destination;
    mode = new_destination;
    adds =
        destination
        ∷ (if is_some database_payload
            then paths.join_name destination (str "database.sqlite") ∷ []
            else []);
    replaces = [];
    conflicts = if destination_occupied paths destination then destination ∷ [] else [];
    workload_labels =
        str "filesystem" ∷ (if is_some database_payload then str "sqlite" ∷ [] else []);
    confirmation_text = restore_confirmation manifest destination;
  }

  unfoldable pub build_restore :
      (Text → Option Bytes) → Manifest → Text → Result RestorePlanError RestorePlan
  build_restore decode manifest destination = do
    map_err restore_manifest (validate_sealed decode manifest)
    ensure (paths.is_absolute destination) unsafe_destination
    selected ← map_err restore_selection (select_payloads manifest)
    ok (record {
      backup_id = manifest.backup_id;
      destination = destination;
      filesystem_payload = selected.0;
      database_payload = selected.1;
      confirmation_text = restore_confirmation manifest destination;
      impact = restore_impact manifest destination selected.1;
    })

  unfoldable pub destination_is_new : RestorePlan → Bool
  destination_is_new self = not (destination_occupied paths self.destination)

unfoldable pub approve_restore : RestorePlan → Text → Result RestorePlanError (Unit {0})
approve_restore self confirmation =
    if not (confirmation == self.confirmation_text)
    then err restore_confirmation_required
    else if not (is_empty self.impact.conflicts)
    then err conflicts_present
    else ok tt

pub record DeploymentPlan : Type 0 where
  pub backup_id : BackupId
  pub target_profile_id : ProfileId
  pub target_path : RemoteTargetPath
  pub filesystem_payload : PayloadPath
  pub database_payload : Option PayloadPath
  pub confirmation_text : Text

unfoldable pub build_deployment :
    (Text → Option Bytes)
    → Manifest
    → VdsProfile
    → RemoteTargetPath
    → Result DeploymentPlanError DeploymentPlan
build_deployment decode manifest target_profile target_path = do
  map_err deploy_manifest (validate_sealed decode manifest)
  map_err (λ _. invalid_target_profile) (validate_profile decode target_profile)
  selected ← map_err deploy_selection (select_payloads manifest)
  ok (record {
    backup_id = manifest.backup_id;
    target_profile_id = target_profile.profile_id;
    target_path = target_path;
    filesystem_payload = selected.0;
    database_payload = selected.1;
    confirmation_text =
        str "DEPLOY "
        ++ (manifest.backup_id.as_str
            ++ (str " TO "
                ++ (target_profile.profile_id.as_str ++ (str ":" ++ target_path.as_str))));
  })

unfoldable pub approve_deployment : DeploymentPlan → Text → Result DeploymentPlanError (Unit {0})
approve_deployment self confirmation =
    ensure (confirmation == self.confirmation_text) deploy_confirmation_required
