-- ===== src/Profile/Enrollment.antt =====
-- What the use cases leave in the stores (crates/guardian-core/src/enroll_profile.rs,
-- host_trust.rs, preflight.rs).
use vds_guardian.Prelude.{
  ◌≡◌, ◌⊎◌, inl, inr, refl, Option, none, some, Result, ok, err, err-ne-ok, sym,
}
use vds_guardian.Text.{Text, Bytes}
use vds_guardian.Identifiers.{CredentialId}
use vds_guardian.Profile.Defs.{VdsProfile, validate_profile, ProfileError}
use vds_guardian.Profile.Ports.{
  EnrollmentPorts, SecretStoreError, EnrollVerifiedProfileError, cleanup, secret_store,
  verify_and_save, removed_after, verified_with, stored_with, enroll_verified_profile,
}

err-injective :
    {a b : EnrollVerifiedProfileError}
    → ◌≡◌ {A = Result EnrollVerifiedProfileError (Unit {0})} (err a) (err b)
    → a ≡ b
err-injective h = cc

module _ {S P : Type 0} (ports : EnrollmentPorts S P)
    (delete-load : (s : S) (id : CredentialId)
      → (ports.delete_secret s id).1 ≡ ok tt
      → ports.load_secret (ports.delete_secret s id).0 id ≡ ok none) where
  -- How the secrets stand after a failed enrollment.
  abbrev pub LeavesNoSecret : S → CredentialId → S → EnrollVerifiedProfileError → Type 0
  LeavesNoSecret before id after e =
      (e ≡ cleanup) ⊎ (after ≡ before) ⊎ (ports.load_secret after id ≡ ok none)

  removed_after_lem :
      (before s : S) (id : CredentialId) (error e : EnrollVerifiedProfileError)
      → (removed_after ports s id error).1 ≡ err e
      → LeavesNoSecret before id (removed_after ports s id error).0 e
  removed_after_lem before s id error e h = by_answer (ports.delete_secret s id).1 refl
    where
      by_answer :
          (r : Result SecretStoreError (Unit {0}))
          → (ports.delete_secret s id).1 ≡ r
          → LeavesNoSecret before id (removed_after ports s id error).0 e
      by_answer (ok u) q = rw (q, removed_after) (inr (inr (delete-load s id q)))
      by_answer (err x) q = inl (sym (err-injective (rw (q, removed_after) at h)))

  verified_with_lem :
      (before s : S) (p : P) (profile : VdsProfile) (e : EnrollVerifiedProfileError)
      → (verified_with ports s p profile).1 ≡ err e
      → LeavesNoSecret before profile.credential_id (verified_with ports s p profile).0.0 e
  verified_with_lem before s p profile e h = by_result (verify_and_save ports p profile).1 refl
    where
      by_result :
          (r : Result EnrollVerifiedProfileError (Unit {0}))
          → (verify_and_save ports p profile).1 ≡ r
          → LeavesNoSecret before profile.credential_id (verified_with ports s p profile).0.0 e
      by_result (ok u) q = absurd (err-ne-ok (sym (rw (q, verified_with) at h)))
      by_result (err error) q =
          rw (q, verified_with)
            (removed_after_lem before s profile.credential_id error e (rw (q, verified_with) at h))

  stored_with_lem :
      (before s : S) (p : P) (profile : VdsProfile) (secret : Bytes)
      (e : EnrollVerifiedProfileError)
      → (stored_with ports s p profile secret).1 ≡ err e
      → LeavesNoSecret before profile.credential_id (stored_with ports s p profile secret).0.0 e
  stored_with_lem before s p profile secret e h =
      by_stored (ports.store_secret s profile.credential_id secret).1 refl
    where
      by_stored :
          (r : Result SecretStoreError (Unit {0}))
          → (ports.store_secret s profile.credential_id secret).1 ≡ r
          → LeavesNoSecret before profile.credential_id (stored_with ports s p profile secret).0.0 e
      by_stored (ok u) q =
          rw (q, stored_with)
            (verified_with_lem before (ports.store_secret s profile.credential_id secret).0 p
              profile e (rw (q, stored_with) at h))
      by_stored (err source) q =
          rw (q, stored_with)
            (removed_after_lem before (ports.store_secret s profile.credential_id secret).0
              profile.credential_id (secret_store source) e (rw (q, stored_with) at h))

  -- If a delete that succeeds leaves no secret, then a failed enrollment of a profile leaves none
  -- either: it reports the failed cleanup, or the secrets are as before, or loading the
  -- credential finds nothing.
  pub enroll_verified_profile-LeavesNoSecret :
      (decode : Text → Option Bytes) (s : S) (p : P) (profile : VdsProfile) (secret : Bytes)
      (e : EnrollVerifiedProfileError)
      → (enroll_verified_profile ports decode s p profile secret).1 ≡ err e
      → LeavesNoSecret s profile.credential_id
          (enroll_verified_profile ports decode s p profile secret).0.0
          e
  unfolding enroll_verified_profile
  enroll_verified_profile-LeavesNoSecret decode s p profile secret e h =
      by_checked (validate_profile decode profile) refl
    where
      by_found :
          (o : Option Bytes)
          → validate_profile decode profile ≡ ok tt
          → ports.load_secret s profile.credential_id ≡ ok o
          → LeavesNoSecret s profile.credential_id
              (enroll_verified_profile ports decode s p profile secret).0.0
              e
      by_found none v q =
          rw (v, q, enroll_verified_profile)
            (stored_with_lem s s p profile secret e (rw (v, q, enroll_verified_profile) at h))
      by_found (some x) v q = rw (v, q, enroll_verified_profile) (inr (inl refl))

      by_loaded :
          (r : Result SecretStoreError (Option Bytes))
          → validate_profile decode profile ≡ ok tt
          → ports.load_secret s profile.credential_id ≡ r
          → LeavesNoSecret s profile.credential_id
              (enroll_verified_profile ports decode s p profile secret).0.0
              e
      by_loaded (err x) v q = rw (v, q, enroll_verified_profile) (inr (inl refl))
      by_loaded (ok o) v q = by_found o v q

      by_checked :
          (r : Result ProfileError (Unit {0}))
          → validate_profile decode profile ≡ r
          → LeavesNoSecret s profile.credential_id
              (enroll_verified_profile ports decode s p profile secret).0.0
              e
      by_checked (err x) v = rw (v, enroll_verified_profile) (inr (inl refl))
      by_checked (ok u) v = by_loaded (ports.load_secret s profile.credential_id) v refl
