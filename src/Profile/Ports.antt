-- ===== src/Profile/Ports.antt =====
-- The ports that the use cases call (crates/guardian-core/src/secret.rs, profile_port.rs,
-- preflight.rs) and the use cases themselves (enroll_profile.rs, host_trust.rs, preflight.rs).
use vds_guardian.Prelude.{
  Bool, Option, none, some, not, Result, ok, err, ◌>>=◌, ◌>>◌, ensure, ok_or, map_err,
  if◌then◌else◌,
}
use vds_guardian.Text.{Text, Bytes}
use vds_guardian.Identifiers.{ProfileId, CredentialId}
use vds_guardian.Profile.Defs.{HostPin, VdsProfile, validate_profile}

pub record SshCaptureCapabilities : Type 0 where
  pub tar_zstd : Bool

pub data SshCapabilityProbeError : Type 0 where
  probe_rejected probe_unavailable : SshCapabilityProbeError

pub data ProfileStorePortError : Type 0 where
  store_unavailable store_rejected : ProfileStorePortError

pub data SecretStoreError : Type 0 where
  secrets_unavailable access_denied invalid_data operation_failed : SecretStoreError

-- The two stores with the states `S` and `P`, and the probe. What implements them is not in the
-- core. A call answers and leaves the store in a new state, also when it fails.
pub record EnrollmentPorts (S : Type 0) (P : Type 0) : Type 0 where
  pub load_secret : S → CredentialId → Result SecretStoreError (Option Bytes)
  pub store_secret : S → CredentialId → Bytes → S × Result SecretStoreError (Unit {0})
  pub delete_secret : S → CredentialId → S × Result SecretStoreError (Unit {0})
  pub save_profile : P → VdsProfile → P × Result ProfileStorePortError (Unit {0})
  pub get_profile : P → ProfileId → Result ProfileStorePortError (Option VdsProfile)
  pub probe : VdsProfile → Result SshCapabilityProbeError SshCaptureCapabilities

pub data EnrollProfileError : Type 0 where
  enroll_invalid : EnrollProfileError
  enroll_store : ProfileStorePortError → EnrollProfileError

pub data EnrollVerifiedProfileError : Type 0 where
  invalid_profile credential_exists tar_zstd_unsupported cleanup : EnrollVerifiedProfileError
  secret_store : SecretStoreError → EnrollVerifiedProfileError
  probe_failed : SshCapabilityProbeError → EnrollVerifiedProfileError
  profile_store : ProfileStorePortError → EnrollVerifiedProfileError

pub data HostTrustError : Type 0 where
  host_confirmation_required trust_invalid : HostTrustError
  trust_store : ProfileStorePortError → HostTrustError

pub data PreflightSshCaptureError : Type 0 where
  profile_not_found preflight_unsupported : PreflightSshCaptureError
  preflight_store : ProfileStorePortError → PreflightSshCaptureError
  preflight_probe : SshCapabilityProbeError → PreflightSshCaptureError

abbrev pub with_pin : HostPin → VdsProfile → VdsProfile
with_pin discovered profile = record {
  profile_id = profile.profile_id;
  label = profile.label;
  endpoint = record {
    host = profile.endpoint.host;
    port = profile.endpoint.port;
    user = profile.endpoint.user;
    host_pin = discovered;
  };
  credential_id = profile.credential_id;
  auth_kind = profile.auth_kind;
}

module _ {S P : Type 0} (ports : EnrollmentPorts S P) where
  abbrev pub saved_after :
      P → VdsProfile → SshCaptureCapabilities → P × Result EnrollVerifiedProfileError (Unit {0})
  saved_after profiles profile capabilities =
      if not capabilities.tar_zstd
      then (profiles, err tar_zstd_unsupported)
      else let (profiles', saved) = ports.save_profile profiles profile in
        (profiles', map_err profile_store saved)

  unfoldable pub verify_and_save : P → VdsProfile → P × Result EnrollVerifiedProfileError (Unit {0})
  verify_and_save profiles profile = elim (ports.probe profile) [
    | err e ↦ (profiles, err (probe_failed e))
    | ok capabilities ↦ saved_after profiles profile capabilities
  ]

  -- A failed step is followed by the removal of the secret; a failed removal hides its error.
  abbrev pub removed_after :
      S
      → CredentialId
      → EnrollVerifiedProfileError
      → S × Result EnrollVerifiedProfileError (Unit {0})
  removed_after secrets id error =
      let (secrets', removed) = ports.delete_secret secrets id in
      elim removed [ err _ ↦ (secrets', err cleanup) | ok _ ↦ (secrets', err error) ]

  abbrev pub verified_with :
      S → P → VdsProfile → (S × P) × Result EnrollVerifiedProfileError (Unit {0})
  verified_with secrets profiles profile =
      let (profiles', result) = verify_and_save profiles profile in
      elim result [
        | ok _ ↦ ((secrets, profiles'), ok tt)
        | err error ↦
            let (secrets', answer) = removed_after secrets profile.credential_id error in
            ((secrets', profiles'), answer)
      ]

  abbrev pub stored_with :
      S → P → VdsProfile → Bytes → (S × P) × Result EnrollVerifiedProfileError (Unit {0})
  stored_with secrets profiles profile secret =
      let (secrets', stored) = ports.store_secret secrets profile.credential_id secret in
      elim stored [
        | err source ↦
            let (secrets'', answer) =
              removed_after secrets' profile.credential_id (secret_store source) in
            ((secrets'', profiles), answer)
        | ok _ ↦ verified_with secrets' profiles profile
      ]

  unfoldable pub preflight : P → ProfileId → Result PreflightSshCaptureError SshCaptureCapabilities
  preflight profiles profile_id = do
    found ← map_err preflight_store (ports.get_profile profiles profile_id)
    profile ← ok_or found profile_not_found
    capabilities ← map_err preflight_probe (ports.probe profile)
    ensure capabilities.tar_zstd preflight_unsupported
    ok capabilities

module _ {S P : Type 0} (ports : EnrollmentPorts S P) (decode : Text → Option Bytes) where
  unfoldable pub enroll_profile : P → VdsProfile → P × Result EnrollProfileError (Unit {0})
  enroll_profile profiles profile = elim (validate_profile decode profile) [
    | err e ↦ (profiles, err enroll_invalid)
    | ok _ ↦
        let (profiles', saved) = ports.save_profile profiles profile in
        (profiles', map_err enroll_store saved)
  ]

  unfoldable pub enroll_verified_profile :
      S → P → VdsProfile → Bytes → (S × P) × Result EnrollVerifiedProfileError (Unit {0})
  enroll_verified_profile secrets profiles profile secret = elim (validate_profile decode profile) [
    | err e ↦ ((secrets, profiles), err invalid_profile)
    | ok _ ↦ elim (ports.load_secret secrets profile.credential_id) [
      | err e ↦ ((secrets, profiles), err (secret_store e))
      | ok loaded ↦ elim loaded [
        | some _ ↦ ((secrets, profiles), err credential_exists)
        | none ↦ stored_with ports secrets profiles profile secret
      ]
    ]
  ]

  unfoldable pub trust_host_key :
      P → VdsProfile → HostPin → Bool → P × Result HostTrustError VdsProfile
  trust_host_key profiles profile discovered confirmed =
      if not confirmed
      then (profiles, err host_confirmation_required)
      else let pinned = with_pin discovered profile in
        elim (validate_profile decode pinned) [
          | err e ↦ (profiles, err trust_invalid)
          | ok _ ↦
              let (profiles', saved) = ports.save_profile profiles pinned in
              (profiles', map_err trust_store saved >>= λ _. ok pinned)
        ]
