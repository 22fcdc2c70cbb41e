-- ===== src/Capture/Defs.antt =====
-- The use cases that capture and back up files and embedded databases
-- (crates/guardian-core/src/capture.rs, embedded_database.rs).
use vds_guardian.Prelude.{not, ◌==◌, Result, ok, err, if◌then◌else◌}
use vds_guardian.Text.{Text, str}
use vds_guardian.Identifiers.{RunId, PayloadPath, Timestamp, identifier_eq}
use vds_guardian.Manifest.{Manifest, PayloadEntry, add_payload, not_sealed}
use vds_guardian.Capture.Ports.{
  CapturePorts, on, SealedBackup, StoragePortError, CaptureAuditCode, audit_transport,
  audit_archive_policy, audit_database_policy, audit_storage, CaptureUseCaseError, request_invalid,
  capture_error, storage_error, archive_error, manifest_error, FilesystemCaptureRequest,
  EmbeddedDatabaseCaptureRequest, FilesystemBackupRequest, EmbeddedDatabaseBackupRequest,
  validate_filesystem_request, validate_database_request,
}

-- An outcome: the world that is left, and the answer.
abbrev pub Outcome : Type 0 → Type 0 → Type 0
Outcome W A = W × Result CaptureUseCaseError A

module _ {W D Request : Type 0} (ports : CapturePorts W D Request) where
  -- `fail`: the failure is audited, the run discarded, and the error passed on.
  abbrev pub fail : {A : Type 0} → W → RunId → CaptureAuditCode → CaptureUseCaseError → Outcome W A
  fail w run_id code error =
      on (ports.discard (ports.capture_failed w run_id code) run_id)
        (λ w e. (w, err (storage_error e))) (λ w _. (w, err error))

  -- The sequence that both captures have after the checks, from its last step to its first: reserve,
  -- capture, inspect, register. Each names its code for a rejected archive, its role and its media type.
  abbrev pub registered : W → RunId → PayloadPath → Text → Text → Outcome W PayloadEntry
  registered w run_id payload_path role media_type =
      on (ports.register_payload_path w role payload_path media_type)
        (λ w e. fail w run_id audit_storage (storage_error e)) (λ w payload. (w, ok payload))

  abbrev pub inspected :
      W → D → RunId → PayloadPath → CaptureAuditCode → Text → Text → Outcome W PayloadEntry
  inspected w destination run_id payload_path policy role media_type =
      on (ports.inspect w destination) (λ w _. fail w run_id policy archive_error)
        (λ w _. registered w run_id payload_path role media_type)

  abbrev pub captured :
      W
      → Request
      → D
      → RunId
      → PayloadPath
      → CaptureAuditCode
      → Text
      → Text
      → Outcome W PayloadEntry
  captured w request destination run_id payload_path policy role media_type =
      on (ports.capture_to w request destination)
        (λ w e. fail w run_id audit_transport (capture_error e))
        (λ w _. inspected w destination run_id payload_path policy role media_type)

  abbrev pub capture_within :
      W → Request → RunId → PayloadPath → CaptureAuditCode → Text → Text → Outcome W PayloadEntry
  capture_within w request run_id payload_path policy role media_type =
      on (ports.reserve w payload_path) (λ w e. fail w run_id audit_storage (storage_error e))
        (λ w destination. captured w request destination run_id payload_path policy role media_type)

  -- After a failed seal the error is the seal's, whatever becomes of the discard.
  abbrev pub sealed_or_discarded :
      RunId → W × Result StoragePortError SealedBackup → Outcome W SealedBackup
  sealed_or_discarded run_id sealed =
      on sealed
        (λ w e. (
          (ports.discard (ports.capture_failed w run_id audit_storage) run_id).0,
          err (storage_error e),
        ))
        (λ w backup. (w, ok backup))

  abbrev pub seal_with : W → Manifest → Timestamp → RunId → PayloadEntry → Outcome W SealedBackup
  seal_with w manifest sealed_at run_id payload =
      if not (manifest.run_id == run_id)
      then fail w run_id audit_storage (manifest_error not_sealed)
      else elim (add_payload manifest payload) [
        | err e ↦ fail w run_id audit_storage (manifest_error e)
        | ok manifest' ↦ sealed_or_discarded run_id (ports.seal w manifest' sealed_at)
      ]

module _ {W D : Type 0} (ports : CapturePorts W D FilesystemCaptureRequest) where
  unfoldable pub capture_filesystem : W → FilesystemCaptureRequest → Outcome W PayloadEntry
  capture_filesystem w request = elim (validate_filesystem_request request) [
    | err e ↦ (w, err (request_invalid e))
    | ok _ ↦
        on (ports.begin w request.run_id) (λ w e. (w, err (storage_error e)))
          (λ w _.
            capture_within ports w request request.run_id request.payload_path audit_archive_policy
              (str "filesystem") (str "application/zstd"))
  ]

  unfoldable pub back_up_filesystem : W → FilesystemBackupRequest → Outcome W SealedBackup
  back_up_filesystem w request =
      on (capture_filesystem w request.capture) (λ w e. (w, err e))
        (λ w payload.
          seal_with ports w request.manifest request.sealed_at request.capture.run_id payload)

module _ {W D : Type 0} (ports : CapturePorts W D EmbeddedDatabaseCaptureRequest) where
  unfoldable pub capture_database_within_staging :
      W → EmbeddedDatabaseCaptureRequest → Outcome W PayloadEntry
  capture_database_within_staging w request = elim (validate_database_request request) [
    | err e ↦ (w, err (request_invalid e))
    | ok _ ↦
        capture_within ports w request request.run_id request.payload_path audit_database_policy
          (str "database") (str "application/vnd.sqlite3+zstd")
  ]

  unfoldable pub capture_database : W → EmbeddedDatabaseCaptureRequest → Outcome W PayloadEntry
  capture_database w request = elim (validate_database_request request) [
    | err e ↦ (w, err (request_invalid e))
    | ok _ ↦
        on (ports.begin w request.run_id) (λ w e. (w, err (storage_error e)))
          (λ w _. capture_database_within_staging w request)
  ]

  unfoldable pub back_up_database : W → EmbeddedDatabaseBackupRequest → Outcome W SealedBackup
  back_up_database w request =
      on (capture_database w request.capture) (λ w e. (w, err e))
        (λ w payload.
          seal_with ports w request.manifest request.sealed_at request.capture.run_id payload)
