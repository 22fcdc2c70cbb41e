-- ===== src/Capture/Failures.antt =====
-- What a failed capture leaves (crates/guardian-core/src/capture.rs, embedded_database.rs).
use vds_guardian.Prelude.{◌≡◌, ◌⊎◌, inl, inr, refl, Bool-cases, ◌==◌, Result, ok, err}
use vds_guardian.Text.{Text, str}
use vds_guardian.Identifiers.{RunId, PayloadPath, Timestamp, identifier_eq}
use vds_guardian.Manifest.{Manifest, ManifestError, PayloadEntry, add_payload, not_sealed}
use vds_guardian.Capture.Ports.{
  CapturePorts, on, on-cases, SealedBackup, StoragePortError, CaptureAuditCode, audit_transport,
  audit_archive_policy, audit_storage, CaptureUseCaseError, CaptureRequestError, capture_error,
  storage_error, archive_error, manifest_error, FilesystemCaptureRequest, FilesystemBackupRequest,
  validate_filesystem_request,
}
use vds_guardian.Capture.Defs.{
  Outcome, fail, registered, inspected, captured, capture_within, sealed_or_discarded, seal_with,
  capture_filesystem, back_up_filesystem,
}

module _ {W D Request : Type 0} (ports : CapturePorts W D Request) where
  -- The last thing that happened is that the failure of the run was audited and the run discarded.
  abbrev pub EndsDiscarded : RunId → W → Type 0
  EndsDiscarded run_id w =
      (before : W) × (code : CaptureAuditCode) × (w
        ≡ (ports.discard (ports.capture_failed before run_id code) run_id).0)

  -- A failure ends so; an answer asks for nothing.
  abbrev pub FailsDiscarded : {A : Type 0} → RunId → Outcome W A → Type 0
  FailsDiscarded run_id (w, ok a) = Unit {0}
  FailsDiscarded run_id (w, err e) = EndsDiscarded run_id w

  on-FailsDiscarded :
      {E B A : Type 0} (run_id : RunId) (called : W × Result E B) (failed : W → E → Outcome W A)
      (went : W → B → Outcome W A)
      → ((w : W) (e : E) → FailsDiscarded run_id (failed w e))
      → ((w : W) (b : B) → FailsDiscarded run_id (went w b))
      → FailsDiscarded run_id (on called failed went)
  on-FailsDiscarded run_id called failed went f g =
      on-cases (λ r. FailsDiscarded run_id r) called failed went (λ e _. f called.0 e)
        (λ b _. g called.0 b)

  fail-FailsDiscarded :
      (A : Type 0) (w : W) (run_id : RunId) (code : CaptureAuditCode) (error : CaptureUseCaseError)
      → FailsDiscarded {A = A} run_id (fail ports w run_id code error)
  fail-FailsDiscarded A w run_id code error =
      on-cases (λ r. FailsDiscarded {A = A} run_id r)
        (ports.discard (ports.capture_failed w run_id code) run_id)
        (λ w e. (w, err (storage_error e))) (λ w _. (w, err error)) (λ e _. (w, code, refl))
        (λ _ _. (w, code, refl))

  registered-FailsDiscarded :
      (w : W) (run_id : RunId) (path : PayloadPath) (role media_type : Text)
      → FailsDiscarded run_id (registered ports w run_id path role media_type)
  registered-FailsDiscarded w run_id path role media_type =
      on-FailsDiscarded run_id (ports.register_payload_path w role path media_type)
        (λ w e. fail ports w run_id audit_storage (storage_error e)) (λ w payload. (w, ok payload))
        (λ w e. fail-FailsDiscarded PayloadEntry w run_id audit_storage (storage_error e))
        (λ _ _. tt)

  inspected-FailsDiscarded :
      (w : W) (d : D) (run_id : RunId) (path : PayloadPath) (policy : CaptureAuditCode)
      (role media_type : Text)
      → FailsDiscarded run_id (inspected ports w d run_id path policy role media_type)
  inspected-FailsDiscarded w d run_id path policy role media_type =
      on-FailsDiscarded run_id (ports.inspect w d) (λ w _. fail ports w run_id policy archive_error)
        (λ w _. registered ports w run_id path role media_type)
        (λ w _. fail-FailsDiscarded PayloadEntry w run_id policy archive_error)
        (λ w _. registered-FailsDiscarded w run_id path role media_type)

  captured-FailsDiscarded :
      (w : W) (request : Request) (d : D) (run_id : RunId) (path : PayloadPath)
      (policy : CaptureAuditCode) (role media_type : Text)
      → FailsDiscarded run_id (captured ports w request d run_id path policy role media_type)
  captured-FailsDiscarded w request d run_id path policy role media_type =
      on-FailsDiscarded run_id (ports.capture_to w request d)
        (λ w e. fail ports w run_id audit_transport (capture_error e))
        (λ w _. inspected ports w d run_id path policy role media_type)
        (λ w e. fail-FailsDiscarded PayloadEntry w run_id audit_transport (capture_error e))
        (λ w _. inspected-FailsDiscarded w d run_id path policy role media_type)

  pub capture_within-FailsDiscarded :
      (w : W) (request : Request) (run_id : RunId) (path : PayloadPath) (policy : CaptureAuditCode)
      (role media_type : Text)
      → FailsDiscarded run_id (capture_within ports w request run_id path policy role media_type)
  capture_within-FailsDiscarded w request run_id path policy role media_type =
      on-FailsDiscarded run_id (ports.reserve w path)
        (λ w e. fail ports w run_id audit_storage (storage_error e))
        (λ w d. captured ports w request d run_id path policy role media_type)
        (λ w e. fail-FailsDiscarded PayloadEntry w run_id audit_storage (storage_error e))
        (λ w d. captured-FailsDiscarded w request d run_id path policy role media_type)

  sealed-FailsDiscarded :
      (run_id : RunId) (sealed : W × Result StoragePortError SealedBackup)
      → FailsDiscarded run_id (sealed_or_discarded ports run_id sealed)
  sealed-FailsDiscarded run_id (w, ok b) = tt
  sealed-FailsDiscarded run_id (w, err e) = (w, audit_storage, refl)

  pub seal_with-FailsDiscarded :
      (w : W) (manifest : Manifest) (sealed_at : Timestamp) (run_id : RunId)
      (payload : PayloadEntry)
      → FailsDiscarded run_id (seal_with ports w manifest sealed_at run_id payload)
  seal_with-FailsDiscarded w manifest sealed_at run_id payload =
      elim (Bool-cases (manifest.run_id == run_id)) [
        | inl y ↦ rw y (by_added (add_payload manifest payload))
        | inr n ↦
            rw n
              (fail-FailsDiscarded SealedBackup w run_id audit_storage (manifest_error not_sealed))
      ]
    where
      by_added :
          (r : Result ManifestError Manifest)
          → FailsDiscarded run_id (elim r [
            | err e ↦ fail ports w run_id audit_storage (manifest_error e)
            | ok manifest' ↦ sealed_or_discarded ports run_id (ports.seal w manifest' sealed_at)
          ])
      by_added (err e) = fail-FailsDiscarded SealedBackup w run_id audit_storage (manifest_error e)
      by_added (ok m) = sealed-FailsDiscarded run_id (ports.seal w m sealed_at)

  -- How a use case fails that was to begin a run in the world `w`: nothing was called, or `begin` was
  -- called and failed, or the failure was audited and the run discarded.
  abbrev pub FailsClean : {A : Type 0} → W → RunId → Outcome W A → Type 0
  FailsClean w run_id (after, ok a) = Unit {0}
  FailsClean w run_id (after, err e) =
      (after ≡ w)
      ⊎ ((after ≡ (ports.begin w run_id).0)
          × ((s : StoragePortError) × ((ports.begin w run_id).1 ≡ err s)))
      ⊎ EndsDiscarded run_id after

  discarded-FailsClean :
      {A : Type 0} (w : W) (run_id : RunId) (o : Outcome W A)
      → FailsDiscarded run_id o
      → FailsClean w run_id o
  discarded-FailsClean w run_id (v, ok a) h = tt
  discarded-FailsClean w run_id (v, err e) h = inr (inr h)

  pub begun-FailsClean :
      (A : Type 0) (w : W) (run_id : RunId) (went : W → Unit {0} → Outcome W A)
      → ((v : W) (u : Unit {0}) → FailsDiscarded run_id (went v u))
      → FailsClean w run_id (on (ports.begin w run_id) (λ w e. (w, err (storage_error e))) went)
  begun-FailsClean A w run_id went h =
      on-cases (λ r. FailsClean {A = A} w run_id r) (ports.begin w run_id)
        (λ w e. (w, err (storage_error e))) went (λ e q. inr (inl (refl, (e, q))))
        (λ u _.
          discarded-FailsClean w run_id (went (ports.begin w run_id).0 u)
            (h (ports.begin w run_id).0 u))

  pub then-FailsClean :
      {B A : Type 0} (w : W) (run_id : RunId) (called : Outcome W B) (went : W → B → Outcome W A)
      → FailsClean w run_id called
      → ((v : W) (b : B) → FailsDiscarded run_id (went v b))
      → FailsClean w run_id (on called (λ w e. (w, err e)) went)
  then-FailsClean w run_id (v, ok b) went h g = discarded-FailsClean w run_id (went v b) (g v b)
  then-FailsClean w run_id (v, err e) went h g = h

module _ {W D : Type 0} (ports : CapturePorts W D FilesystemCaptureRequest) where
  capture_filesystem-FailsClean :
      (w : W) (request : FilesystemCaptureRequest)
      → FailsClean ports w request.run_id (capture_filesystem ports w request)
  unfolding capture_filesystem
  capture_filesystem-FailsClean w request = by_checked (validate_filesystem_request request) refl
    where
      by_checked :
          (r : Result CaptureRequestError (Unit {0}))
          → validate_filesystem_request request ≡ r
          → FailsClean ports w request.run_id (capture_filesystem ports w request)
      by_checked (err e) q = rw (q, capture_filesystem) (inl refl)
      by_checked (ok u) q =
          rw (q, capture_filesystem)
            (begun-FailsClean ports PayloadEntry w request.run_id _ (λ v _.
              capture_within-FailsDiscarded ports v request request.run_id request.payload_path
                audit_archive_policy (str "filesystem") (str "application/zstd")))

  -- A file backup that fails leaves the world as it was, or only `begin` was called and failed, or
  -- the last two calls are the audit of the failure and the discard of the run.
  pub back_up_filesystem-FailsClean :
      (w : W) (request : FilesystemBackupRequest)
      → FailsClean ports w request.capture.run_id (back_up_filesystem ports w request)
  unfolding back_up_filesystem
  back_up_filesystem-FailsClean w request =
      then-FailsClean ports w request.capture.run_id (capture_filesystem ports w request.capture)
        (λ w payload.
          seal_with ports w request.manifest request.sealed_at request.capture.run_id payload)
        (capture_filesystem-FailsClean w request.capture)
        (λ v payload.
          seal_with-FailsDiscarded ports v request.manifest request.sealed_at request.capture.run_id
            payload)
