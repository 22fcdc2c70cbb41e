-- ===== src/Profile/Saved.antt =====
-- When the use cases succeed, and what they have then saved (crates/guardian-core/src/enroll_profile.rs,
-- host_trust.rs, preflight.rs).
use vds_guardian.Prelude.{
  ◌≡◌, ◌≢◌, refl, true, Option, none, some, Result, ok, err, map_err-eq-ok, err-ne-ok, Bool-cases,
  inl, inr,
}
use vds_guardian.Text.{Text, Bytes}
use vds_guardian.Identifiers.{CredentialId}
use vds_guardian.Profile.Defs.{VdsProfile, ProfileError, validate_profile}
use vds_guardian.Profile.Ports.{
  EnrollmentPorts, SshCaptureCapabilities, SecretStoreError, SshCapabilityProbeError,
  EnrollVerifiedProfileError, secret_store, profile_store, verify_and_save, removed_after,
  verified_with, stored_with, enroll_verified_profile,
}

module _ {S P : Type 0} (ports : EnrollmentPorts S P) where
  -- The profile was probed, can capture, and is saved.
  abbrev pub IsVerifiedAndSaved : P → VdsProfile → P → Type 0
  IsVerifiedAndSaved before profile after =
      ((c : SshCaptureCapabilities) × (ports.probe profile ≡ ok c) × (c.tar_zstd ≡ true))
      × ((ports.save_profile before profile).1 ≡ ok tt)
      × (after ≡ (ports.save_profile before profile).0)

  verify_and_save_lem :
      (p : P) (profile : VdsProfile)
      → (verify_and_save ports p profile).1 ≡ ok tt
      → IsVerifiedAndSaved p profile (verify_and_save ports p profile).0
  unfolding verify_and_save
  verify_and_save_lem p profile h = by_probe (ports.probe profile) refl
    where
      by_probe :
          (r : Result SshCapabilityProbeError SshCaptureCapabilities)
          → ports.probe profile ≡ r
          → IsVerifiedAndSaved p profile (verify_and_save ports p profile).0
      by_probe (err x) q = absurd (err-ne-ok (rw (q, verify_and_save) at h))
      by_probe (ok c) q = elim (Bool-cases c.tar_zstd) [
        | inl y ↦ (
          (c, q, y),
          map_err-eq-ok profile_store (ports.save_profile p profile).1
              (rw (q, verify_and_save, y) at h),
          rw (q, verify_and_save, y) refl,
        )
        | inr n ↦ absurd (err-ne-ok (rw (q, verify_and_save, n) at h))
      ]

  removed-ne-ok :
      (s : S) (id : CredentialId) (error : EnrollVerifiedProfileError)
      → (removed_after ports s id error).1 ≢ ok tt
  removed-ne-ok s id error h = by_answer (ports.delete_secret s id).1 refl
    where
      by_answer : (r : Result SecretStoreError (Unit {0})) → (ports.delete_secret s id).1 ≡ r → ⊥
      by_answer (ok u) q = err-ne-ok (rw (q, removed_after) at h)
      by_answer (err x) q = err-ne-ok (rw (q, removed_after) at h)

  verified_with-ok :
      (s : S) (p : P) (profile : VdsProfile)
      → (verified_with ports s p profile).1 ≡ ok tt
      → ((verified_with ports s p profile).0.0 ≡ s)
        × IsVerifiedAndSaved p profile (verified_with ports s p profile).0.1
  verified_with-ok s p profile h = by_result (verify_and_save ports p profile).1 refl
    where
      by_result :
          (r : Result EnrollVerifiedProfileError (Unit {0}))
          → (verify_and_save ports p profile).1 ≡ r
          → ((verified_with ports s p profile).0.0 ≡ s)
            × IsVerifiedAndSaved p profile (verified_with ports s p profile).0.1
      by_result (ok u) q = rw (q, verified_with) (refl, verify_and_save_lem p profile q)
      by_result (err x) q =
          absurd (removed-ne-ok s profile.credential_id x (rw (q, verified_with) at h))

  -- What an enrollment that succeeds has found and done.
  abbrev pub IsEnrolled : S → P → VdsProfile → Bytes → S → P → Type 0
  IsEnrolled s p profile secret s' p' =
      (ports.load_secret s profile.credential_id ≡ ok none)
      × ((ports.store_secret s profile.credential_id secret).1 ≡ ok tt)
      × (s' ≡ (ports.store_secret s profile.credential_id secret).0)
      × IsVerifiedAndSaved p profile p'

  stored_with-ok :
      (s : S) (p : P) (profile : VdsProfile) (secret : Bytes)
      → (stored_with ports s p profile secret).1 ≡ ok tt
      → ((ports.store_secret s profile.credential_id secret).1 ≡ ok tt)
        × ((stored_with ports s p profile secret).0.0
            ≡ (ports.store_secret s profile.credential_id secret).0)
        × IsVerifiedAndSaved p profile (stored_with ports s p profile secret).0.1
  stored_with-ok s p profile secret h =
      by_stored (ports.store_secret s profile.credential_id secret).1 refl
    where
      by_stored :
          (r : Result SecretStoreError (Unit {0}))
          → (ports.store_secret s profile.credential_id secret).1 ≡ r
          → ((ports.store_secret s profile.credential_id secret).1 ≡ ok tt)
            × ((stored_with ports s p profile secret).0.0
                ≡ (ports.store_secret s profile.credential_id secret).0)
            × IsVerifiedAndSaved p profile (stored_with ports s p profile secret).0.1
      by_stored (ok u) q =
          let after = (ports.store_secret s profile.credential_id secret).0 in
          let (a, b) = verified_with-ok after p profile (rw (q, stored_with) at h) in
          (q, rw (q, stored_with) a, rw (q, stored_with) b)
      by_stored (err x) q = absurd (
          removed-ne-ok (ports.store_secret s profile.credential_id secret).0 profile.credential_id
            (secret_store x) (rw (q, stored_with) at h))

  abbrev Enrolled : (Text → Option Bytes) → S → P → VdsProfile → Bytes → Type 0
  Enrolled decode s p profile secret =
      (validate_profile decode profile ≡ ok tt)
      × IsEnrolled s p profile secret (enroll_verified_profile ports decode s p profile secret).0.0
          (enroll_verified_profile ports decode s p profile secret).0.1

  -- An enrollment succeeds only for a valid profile whose credential held no secret: the secret is
  -- then stored, the server was probed and can capture, and the profile is saved.
  pub enroll_verified_profile-ok :
      (decode : Text → Option Bytes) (s : S) (p : P) (profile : VdsProfile) (secret : Bytes)
      → (enroll_verified_profile ports decode s p profile secret).1 ≡ ok tt
      → (validate_profile decode profile ≡ ok tt)
        × IsEnrolled s p profile secret
            (enroll_verified_profile ports decode s p profile secret).0.0
            (enroll_verified_profile ports decode s p profile secret).0.1
  unfolding enroll_verified_profile
  enroll_verified_profile-ok decode s p profile secret h =
      by_checked (validate_profile decode profile) refl
    where
      by_found :
          (o : Option Bytes)
          → validate_profile decode profile ≡ ok tt
          → ports.load_secret s profile.credential_id ≡ ok o
          → Enrolled decode s p profile secret
      by_found none v q =
          let (a, b, c) =
            stored_with-ok s p profile secret (rw (v, q, enroll_verified_profile) at h) in
          (v, (q, a, rw (v, q, enroll_verified_profile) b, rw (v, q, enroll_verified_profile) c))
      by_found (some x) v q = absurd (err-ne-ok (rw (v, q, enroll_verified_profile) at h))

      by_loaded :
          (r : Result SecretStoreError (Option Bytes))
          → validate_profile decode profile ≡ ok tt
          → ports.load_secret s profile.credential_id ≡ r
          → Enrolled decode s p profile secret
      by_loaded (err x) v q = absurd (err-ne-ok (rw (v, q, enroll_verified_profile) at h))
      by_loaded (ok o) v q = by_found o v q

      by_checked :
          (r : Result ProfileError (Unit {0}))
          → validate_profile decode profile ≡ r
          → Enrolled decode s p profile secret
      by_checked (err x) v = absurd (err-ne-ok (rw (v, enroll_verified_profile) at h))
      by_checked (ok u) v = by_loaded (ports.load_secret s profile.credential_id) v refl
