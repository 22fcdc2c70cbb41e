-- ===== src/Capture/Databases.antt =====
-- What a failed capture of a database leaves (crates/guardian-core/src/embedded_database.rs).
use vds_guardian.Prelude.{◌≡◌, inl, refl, Result, ok, err}
use vds_guardian.Text.{str}
use vds_guardian.Manifest.{PayloadEntry}
use vds_guardian.Capture.Ports.{
  CapturePorts, CaptureRequestError, audit_database_policy, EmbeddedDatabaseCaptureRequest,
  EmbeddedDatabaseBackupRequest, validate_database_request,
}
use vds_guardian.Capture.Defs.{
  seal_with, capture_database_within_staging, capture_database, back_up_database,
}
use vds_guardian.Capture.Failures.{
  FailsDiscarded, FailsClean, capture_within-FailsDiscarded, seal_with-FailsDiscarded,
  begun-FailsClean, then-FailsClean,
}

module _ {W D : Type 0} (ports : CapturePorts W D EmbeddedDatabaseCaptureRequest) where
  -- Within a run that is open, a capture of a valid request that fails discards the run.
  pub within_staging-FailsDiscarded :
      (w : W) (request : EmbeddedDatabaseCaptureRequest)
      → validate_database_request request ≡ ok tt
      → FailsDiscarded ports request.run_id (capture_database_within_staging ports w request)
  unfolding capture_database_within_staging
  within_staging-FailsDiscarded w request q =
      rw (q, capture_database_within_staging)
        (capture_within-FailsDiscarded ports w request request.run_id request.payload_path
          audit_database_policy (str "database") (str "application/vnd.sqlite3+zstd"))

  capture_database-FailsClean :
      (w : W) (request : EmbeddedDatabaseCaptureRequest)
      → FailsClean ports w request.run_id (capture_database ports w request)
  unfolding capture_database
  capture_database-FailsClean w request = by_checked (validate_database_request request) refl
    where
      by_checked :
          (r : Result CaptureRequestError (Unit {0}))
          → validate_database_request request ≡ r
          → FailsClean ports w request.run_id (capture_database ports w request)
      by_checked (err e) q = rw (q, capture_database) (inl refl)
      by_checked (ok u) q =
          rw (q, capture_database)
            (begun-FailsClean ports PayloadEntry w request.run_id
              (λ v _. capture_database_within_staging ports v request)
              (λ v _. within_staging-FailsDiscarded v request q))

  -- A database backup that fails leaves the world as it was, or only `begin` was called and failed,
  -- or the last two calls are the audit of the failure and the discard of the run.
  pub back_up_database-FailsClean :
      (w : W) (request : EmbeddedDatabaseBackupRequest)
      → FailsClean ports w request.capture.run_id (back_up_database ports w request)
  unfolding back_up_database
  back_up_database-FailsClean w request =
      then-FailsClean ports w request.capture.run_id (capture_database ports w request.capture)
        (λ w payload.
          seal_with ports w request.manifest request.sealed_at request.capture.run_id payload)
        (capture_database-FailsClean w request.capture)
        (λ v payload.
          seal_with-FailsDiscarded ports v request.manifest request.sealed_at request.capture.run_id
            payload)
