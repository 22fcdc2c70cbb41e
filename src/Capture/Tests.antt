-- ===== src/Capture/Tests.antt =====
-- Runs of the capture use cases on concrete inputs.
use vds_guardian.Prelude.{
  ◌≡◌, refl, Bool, true, false, none, ok, err, List, [], ◌∷◌, if◌then◌else◌, list_beq,
}
use vds_guardian.Text.{Text, str, len, bytes, encode, split}
use vds_guardian.Identifiers.{RunId, PayloadPath, valid_remote_root, valid_absolute_path}
use vds_guardian.Manifest.{Manifest, PayloadEntry, crash_consistent, pending, add_payload}
use vds_guardian.Capture.{
  CapturePorts, FilesystemCaptureRequest, FilesystemBackupRequest, EmbeddedDatabaseCaptureRequest,
  EmbeddedDatabaseBackupRequest, SealedBackup, CaptureAuditCode, audit_archive_policy,
  audit_database_policy, archive_rejected, archive_error, validate_filesystem_request,
  validate_database_request, capture_filesystem, back_up_filesystem, capture_database,
  capture_database_within_staging, back_up_database,
}
use vds_guardian.Capture.Failures.{FailsClean, back_up_filesystem-FailsClean}
use vds_guardian.Capture.Databases.{back_up_database-FailsClean}
use vds_guardian.Capture.Sealing.{IsSealedWith, back_up_filesystem-ok}

-- The world is the list of the calls, the last one first.
data Event : Type 0 where
  begun reserved copied inspected_archive registered_payload sealed_manifest discarded : Event
  audited : CaptureAuditCode → Event

abbrev run_1 : RunId
run_1 = record { as_str = str "run-1" }

abbrev path_1 : PayloadPath
path_1 = record { as_str = str "payload/files.tar.zst" }

abbrev payload_1 : PayloadEntry
payload_1 = record {
  logical_role = str "filesystem";
  path = path_1;
  byte_length = 1;
  sha256 = [];
  media_type = str "application/zstd";
  encryption = none;
}

abbrev sealed_1 : SealedBackup
sealed_1 = record { backup_id = record { as_str = str "backup-1" } }

abbrev ports_with : {Request : Type 0} → Bool → CapturePorts (List Event) Text Request
ports_with archive_is_good = record {
  begin = λ w run_id. (begun ∷ w, ok tt);
  reserve = λ w path. (reserved ∷ w, ok path.as_str);
  register_payload_path = λ w role path media_type. (registered_payload ∷ w, ok payload_1);
  seal = λ w manifest at_time. (sealed_manifest ∷ w, ok sealed_1);
  discard = λ w run_id. (discarded ∷ w, ok tt);
  capture_failed = λ w run_id code. audited code ∷ w;
  inspect = λ w destination.
      (inspected_archive ∷ w, if archive_is_good then ok tt else err archive_rejected);
  capture_to = λ w request destination. (copied ∷ w, ok tt);
}

abbrev manifest : Manifest
manifest = record {
  format_version = 1;
  backup_id = record { as_str = str "backup-1" };
  run_id = run_1;
  created_at = record { as_str = str "2024-02-29T12:00:00Z" };
  sealed_at = none;
  producer = record { name = []; version = []; platform = [] };
  source = record { profile_id = record { as_str = str "vds" }; host_key_fingerprint = [] };
  plan = record { plan_id = record { as_str = str "plan" }; version = 1; sha256 = [] };
  consistency = crash_consistent;
  payloads = [];
  verification_state = pending;
  signature = none;
  warnings = [];
  source_layout = none;
}

abbrev request : FilesystemBackupRequest
request = record {
  capture = record {
    run_id = run_1;
    profile_id = record { as_str = str "vds" };
    roots = str "/srv" ∷ [];
    payload_path = path_1;
  };
  manifest = manifest;
  sealed_at = record { as_str = str "2024-02-29T12:00:00Z" };
}

abbrev database_request : EmbeddedDatabaseBackupRequest
database_request = record {
  capture = record {
    run_id = run_1;
    profile_id = record { as_str = str "vds" };
    database_path = str "/srv/db.sqlite";
    payload_path = path_1;
  };
  manifest = manifest;
  sealed_at = record { as_str = str "2024-02-29T12:00:00Z" };
}

backs_up : back_up_filesystem (ports_with true) [] request ≡ (
  sealed_manifest ∷ registered_payload ∷ inspected_archive ∷ copied ∷ reserved ∷ begun ∷ [],
  ok sealed_1,
)
unfolding back_up_filesystem capture_filesystem validate_filesystem_request valid_remote_root
    valid_absolute_path split len bytes encode list_beq add_payload
backs_up = refl

discards_bad_archive : back_up_filesystem (ports_with false) [] request ≡ (
  discarded ∷ audited audit_archive_policy ∷ inspected_archive ∷ copied ∷ reserved ∷ begun ∷ [],
  err archive_error,
)
unfolding back_up_filesystem capture_filesystem validate_filesystem_request valid_remote_root
    valid_absolute_path split len bytes encode list_beq
discards_bad_archive = refl

discards_bad_database : back_up_database (ports_with false) [] database_request ≡ (
  discarded ∷ audited audit_database_policy ∷ inspected_archive ∷ copied ∷ reserved ∷ begun ∷ [],
  err archive_error,
)
unfolding back_up_database capture_database capture_database_within_staging
    validate_database_request valid_remote_root valid_absolute_path split len bytes encode list_beq
discards_bad_database = refl

back_up_filesystem-FailsClean_example :
    FailsClean {Request = FilesystemCaptureRequest}
      (ports_with false)
      []
      run_1
      (back_up_filesystem (ports_with false) [] request)
back_up_filesystem-FailsClean_example = back_up_filesystem-FailsClean (ports_with false) [] request

back_up_database-FailsClean_example :
    FailsClean {Request = EmbeddedDatabaseCaptureRequest}
      (ports_with false)
      []
      run_1
      (back_up_database (ports_with false) [] database_request)
back_up_database-FailsClean_example =
    back_up_database-FailsClean (ports_with false) [] database_request

back_up_filesystem-ok_example :
    (captured : List Event) × (payload : PayloadEntry) × (capture_filesystem
        (ports_with true)
        []
        request.capture
      ≡ (captured, ok payload))
    × IsSealedWith
        (ports_with {Request = FilesystemCaptureRequest} true)
        captured
        request.manifest
        request.sealed_at
        request.capture.run_id
        payload
        (sealed_manifest ∷ registered_payload ∷ inspected_archive ∷ copied ∷ reserved ∷ begun ∷ [])
        sealed_1
back_up_filesystem-ok_example =
    back_up_filesystem-ok (ports_with true) [] request
      (sealed_manifest ∷ registered_payload ∷ inspected_archive ∷ copied ∷ reserved ∷ begun ∷ [])
      sealed_1 backs_up
