-- ===== src/Capture/Sealing.antt =====
-- What a backup that succeeds has sealed (crates/guardian-core/src/capture.rs, embedded_database.rs).
use vds_guardian.Prelude.{
  ◌≡◌, ◌≢◌, inl, inr, refl, Bool-cases, ◌==◌, ==→eq, Result, ok, err, err-ne-ok, ok-injective, ap,
  ap₂,
}
use vds_guardian.Identifiers.{RunId, Timestamp, identifier_eq}
use vds_guardian.Manifest.{Manifest, ManifestError, PayloadEntry, add_payload, not_sealed}
use vds_guardian.Capture.Ports.{
  CapturePorts, on, SealedBackup, StoragePortError, CaptureAuditCode, audit_storage,
  CaptureUseCaseError, storage_error, manifest_error, FilesystemCaptureRequest,
  FilesystemBackupRequest,
}
use vds_guardian.Capture.Defs.{
  Outcome, fail, sealed_or_discarded, seal_with, capture_filesystem, back_up_filesystem,
}

module _ {W D Request : Type 0} (ports : CapturePorts W D Request) where
  fail-ne-ok :
      {A : Type 0} (w : W) (run_id : RunId) (code : CaptureAuditCode) (error : CaptureUseCaseError)
      (a : A)
      → (fail ports w run_id code error).1 ≢ ok a
  fail-ne-ok {A = A} w run_id code error a h =
      by_discard (ports.discard (ports.capture_failed w run_id code) run_id) h
    where
      by_discard :
          (d : W × Result StoragePortError (Unit {0}))
          → ◌≡◌ {A = Result CaptureUseCaseError A}
              (on {C = Outcome W A} d (λ w e. (w, err (storage_error e))) (λ w _. (w, err error))).1
              (ok a)
          → ⊥
      by_discard (v, ok u) q = err-ne-ok q
      by_discard (v, err e) q = err-ne-ok q

  -- The world after, and the backup, are what sealing the manifest with its new payload gave.
  abbrev pub IsSealedWith :
      W → Manifest → Timestamp → RunId → PayloadEntry → W → SealedBackup → Type 0
  IsSealedWith w manifest sealed_at run_id payload after backup =
      (manifest.run_id ≡ run_id)
      × ((complete : Manifest) × (add_payload manifest payload ≡ ok complete)
          × (ports.seal w complete sealed_at ≡ (after, ok backup)))

  seal_with-ok :
      (w : W) (manifest : Manifest) (sealed_at : Timestamp) (run_id : RunId)
      (payload : PayloadEntry) (after : W) (backup : SealedBackup)
      → seal_with ports w manifest sealed_at run_id payload ≡ (after, ok backup)
      → IsSealedWith w manifest sealed_at run_id payload after backup
  seal_with-ok w manifest sealed_at run_id payload after backup h =
      elim (Bool-cases (manifest.run_id == run_id)) [
        | inl y ↦ (
          ==→eq manifest.run_id run_id y,
          by_added (add_payload manifest payload) refl (rw y at h),
        )
        | inr n ↦ absurd (
            fail-ne-ok w run_id audit_storage (manifest_error not_sealed) backup
              (ap (λ r. r.1) (rw n at h)))
      ]
    where
      by_sealed :
          (s : W × Result StoragePortError SealedBackup)
          → sealed_or_discarded ports run_id s ≡ (after, ok backup)
          → s ≡ (after, ok backup)
      by_sealed (v, ok b) q =
          ap₂ (λ x y. (x, ok y)) (ap (λ r. r.0) q) (ok-injective (ap (λ r. r.1) q))
      by_sealed (v, err e) q = absurd (err-ne-ok (ap (λ r. r.1) q))

      by_added :
          (r : Result ManifestError Manifest)
          → add_payload manifest payload ≡ r
          → (elim r [
            | err e ↦ fail ports w run_id audit_storage (manifest_error e)
            | ok manifest' ↦ sealed_or_discarded ports run_id (ports.seal w manifest' sealed_at)
          ])
            ≡ (after, ok backup)
          → (complete : Manifest) × (add_payload manifest payload ≡ ok complete)
            × (ports.seal w complete sealed_at ≡ (after, ok backup))
      by_added (err e) a q =
          absurd (fail-ne-ok w run_id audit_storage (manifest_error e) backup (ap (λ r. r.1) q))
      by_added (ok m) a q = (m, a, by_sealed (ports.seal w m sealed_at) q)

module _ {W D : Type 0} (ports : CapturePorts W D FilesystemCaptureRequest) where
  -- A file backup that succeeds has captured a payload, belongs to the run that its manifest names,
  -- and has sealed that manifest with the payload added, at the given time.
  pub back_up_filesystem-ok :
      (w : W) (request : FilesystemBackupRequest) (after : W) (backup : SealedBackup)
      → back_up_filesystem ports w request ≡ (after, ok backup)
      → (captured : W) × (payload : PayloadEntry) × (capture_filesystem ports w request.capture
          ≡ (captured, ok payload))
        × IsSealedWith ports captured request.manifest request.sealed_at request.capture.run_id
            payload after backup
  unfolding back_up_filesystem
  back_up_filesystem-ok w request after backup h =
      by_captured (capture_filesystem ports w request.capture) refl h
    where
      by_captured :
          (c : Outcome W PayloadEntry)
          → capture_filesystem ports w request.capture ≡ c
          → on c
              (λ w e. (w, err e))
              (λ w payload.
                seal_with ports w request.manifest request.sealed_at request.capture.run_id payload)
            ≡ (after, ok backup)
          → (captured : W) × (payload : PayloadEntry) × (capture_filesystem ports w request.capture
              ≡ (captured, ok payload))
            × IsSealedWith ports captured request.manifest request.sealed_at request.capture.run_id
                payload after backup
      by_captured (v, err e) c q = absurd (err-ne-ok (ap (λ r. r.1) q))
      by_captured (v, ok p) c q = (
        v,
        p,
        c,
        seal_with-ok ports v request.manifest request.sealed_at request.capture.run_id p after
            backup q,
      )
