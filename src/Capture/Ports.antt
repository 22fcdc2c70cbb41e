-- ===== src/Capture/Ports.antt =====
-- The ports of a capture (crates/guardian-core/src/storage.rs, audit.rs, archive.rs, capture.rs,
-- embedded_database.rs), its requests and its errors.
use vds_guardian.Prelude.{
  ℕ, ◌≡◌, List, ◌&&◌, not, all, leb, length, is_empty, ◌==◌, nat_eq, list_eq, Result, ok, err,
  ensure, refl,
}
use vds_guardian.Text.{Text, str}
use vds_guardian.Identifiers.{BackupId, RunId, ProfileId, PayloadPath, Timestamp, valid_remote_root}
use vds_guardian.Manifest.{Manifest, ManifestError, PayloadEntry}

pub data StoragePortError : Type 0 where
  storage_unavailable storage_rejected : StoragePortError

pub data CaptureAuditCode : Type 0 where
  audit_transport audit_archive_policy audit_database_policy audit_storage : CaptureAuditCode

pub data ArchiveInspectionPortError : Type 0 where
  archive_rejected : ArchiveInspectionPortError

pub data CaptureRequestError : Type 0 where
  invalid_roots profile_mismatch capture_profile_invalid preflight_failed : CaptureRequestError
  invalid_capture_path invalid_database_path database_request_mismatch : CaptureRequestError

pub data CapturePortError : Type 0 where
  transport credential_unusable : CapturePortError

pub data CaptureUseCaseError : Type 0 where
  request_invalid : CaptureRequestError → CaptureUseCaseError
  capture_error : CapturePortError → CaptureUseCaseError
  storage_error : StoragePortError → CaptureUseCaseError
  insufficient_repository_space : ℕ → ℕ → CaptureUseCaseError
  archive_error : CaptureUseCaseError
  manifest_error : ManifestError → CaptureUseCaseError
  recovery_key_required : CaptureUseCaseError

pub record SealedBackup : Type 0 where
  pub backup_id : BackupId

pub record FilesystemCaptureRequest : Type 0 where
  pub run_id : RunId
  pub profile_id : ProfileId
  pub roots : List Text
  pub payload_path : PayloadPath

pub record EmbeddedDatabaseCaptureRequest : Type 0 where
  pub run_id : RunId
  pub profile_id : ProfileId
  pub database_path : Text
  pub payload_path : PayloadPath

pub record FilesystemBackupRequest : Type 0 where
  pub capture : FilesystemCaptureRequest
  pub manifest : Manifest
  pub sealed_at : Timestamp

pub record EmbeddedDatabaseBackupRequest : Type 0 where
  pub capture : EmbeddedDatabaseCaptureRequest
  pub manifest : Manifest
  pub sealed_at : Timestamp

unfoldable pub validate_filesystem_request :
    FilesystemCaptureRequest → Result CaptureRequestError (Unit {0})
validate_filesystem_request self =
    ensure
      (not (is_empty self.roots) && leb (length self.roots) 32 && all valid_remote_root self.roots)
      invalid_roots

unfoldable pub validate_database_request :
    EmbeddedDatabaseCaptureRequest → Result CaptureRequestError (Unit {0})
validate_database_request self =
    ensure (not (self.database_path == str "/") && valid_remote_root self.database_path)
      invalid_database_path

-- What implements the ports is outside the core: storage, audit, inspection and the capture itself
-- act on a world `W`, and a reserved destination is a `D`. A call that fails also leaves a world.
pub record CapturePorts (W : Type 0) (D : Type 0) (Request : Type 0) : Type 0 where
  pub begin : W → RunId → W × Result StoragePortError (Unit {0})
  pub reserve : W → PayloadPath → W × Result StoragePortError D
  pub register_payload_path :
      W → Text → PayloadPath → Text → W × Result StoragePortError PayloadEntry
  pub seal : W → Manifest → Timestamp → W × Result StoragePortError SealedBackup
  pub discard : W → RunId → W × Result StoragePortError (Unit {0})
  pub capture_failed : W → RunId → CaptureAuditCode → W
  pub inspect : W → D → W × Result ArchiveInspectionPortError (Unit {0})
  pub capture_to : W → Request → D → W × Result CapturePortError (Unit {0})

-- A call, and what follows its error and its answer.
abbrev pub on : {W E A C : Type 0} → W × Result E A → (W → E → C) → (W → A → C) → C
on called failed went = elim called.1 [ ok a ↦ went called.0 a | err e ↦ failed called.0 e ]

-- What holds after both ways holds after the call.
pub on-cases :
    {W E A C : Type 0} (P : C → Type 0) (called : W × Result E A) (failed : W → E → C)
    (went : W → A → C)
    → ((e : E) → called.1 ≡ err e → P (failed called.0 e))
    → ((a : A) → called.1 ≡ ok a → P (went called.0 a))
    → P (on called failed went)
on-cases P (w, ok a) failed went f g = g a refl
on-cases P (w, err e) failed went f g = f e refl
