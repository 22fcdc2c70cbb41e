-- ===== src/Manifest/Defs.antt =====
-- The manifest, its operations and its validation (crates/guardian-core/src/manifest.rs).
use vds_guardian.Prelude.{
  ℕ, Bool, true, false, Option, none, some, List, [], ◌∷◌, ◌++◌, ◌&&◌, ◌||◌, not, any, is_empty,
  map, ◌==◌, nat_eq, list_eq, length, to_set, is_some, Result, ok, err, ◌>>=◌, ◌>>◌, ensure,
  map_err, ok_or, try_for_each, if◌then◌else◌,
}
use vds_guardian.Text.{Text, Bytes}
use vds_guardian.Identifiers.{BackupId, RunId, ProfileId, PlanId, Timestamp}
use vds_guardian.Docker.{SourceLayout, validate_layout}
use vds_guardian.Manifest.Entries.{
  ManifestError, unsupported_format_version, already_finalized, not_sealed, empty_payload,
  duplicate_payload_path, invalid_plan_reference, encryption_policy, invalid_source_layout,
  serialization_failed, PayloadEntry, validate_label, is_sha256, validate_entry,
}

abbrev pub current_format_version : ℕ
current_format_version = 1

abbrev pub encrypted_format_version : ℕ
encrypted_format_version = 2

pub record Producer : Type 0 where
  pub name : Text
  pub version : Text
  pub platform : Text

pub record SourceIdentity : Type 0 where
  pub profile_id : ProfileId
  pub host_key_fingerprint : Text

pub record PlanReference : Type 0 where
  pub plan_id : PlanId
  pub version : ℕ
  pub sha256 : Text

pub data ConsistencyLevel : Type 0 where
  crash_consistent application_consistent : ConsistencyLevel

pub record SignatureMetadata : Type 0 where
  pub algorithm : Text
  pub key_id : Text

pub data VerificationState : Type 0 where
  pending verified : VerificationState

pub record Manifest : Type 0 where
  pub format_version : ℕ
  pub backup_id : BackupId
  pub run_id : RunId
  pub created_at : Timestamp
  pub sealed_at : Option Timestamp
  pub producer : Producer
  pub source : SourceIdentity
  pub plan : PlanReference
  pub consistency : ConsistencyLevel
  pub payloads : List PayloadEntry
  pub verification_state : VerificationState
  pub signature : Option SignatureMetadata
  pub warnings : List Text
  pub source_layout : Option SourceLayout

abbrev pub is_pending : VerificationState → Bool
is_pending pending = true
is_pending verified = false

unfoldable pub new_manifest :
    BackupId → RunId → Timestamp → Producer → SourceIdentity → PlanReference → Manifest
new_manifest backup_id run_id created_at producer source plan = record {
  format_version = current_format_version;
  backup_id = backup_id;
  run_id = run_id;
  created_at = created_at;
  sealed_at = none;
  producer = producer;
  source = source;
  plan = plan;
  consistency = crash_consistent;
  payloads = [];
  verification_state = pending;
  signature = none;
  warnings = [];
  source_layout = none;
}

-- The version and the payloads are all that `add_payload` writes.
abbrev pub with_payloads : ℕ → List PayloadEntry → Manifest → Manifest
with_payloads format_version payloads self = record {
  format_version = format_version;
  backup_id = self.backup_id;
  run_id = self.run_id;
  created_at = self.created_at;
  sealed_at = self.sealed_at;
  producer = self.producer;
  source = self.source;
  plan = self.plan;
  consistency = self.consistency;
  payloads = payloads;
  verification_state = self.verification_state;
  signature = self.signature;
  warnings = self.warnings;
  source_layout = self.source_layout;
}

-- `&mut self`: the manifest that the call leaves, which after an error is the one it had.
unfoldable pub add_payload : Manifest → PayloadEntry → Result ManifestError Manifest
add_payload self payload =
    if any (λ entry. entry.path.as_str == payload.path.as_str) self.payloads
    then err duplicate_payload_path
    else let format_version =
        if is_some payload.encryption && self.format_version == current_format_version
        then encrypted_format_version
        else self.format_version in
      ok (with_payloads format_version (self.payloads ++ (payload ∷ [])) self)

-- the `match` on the version and on whether the entry is encrypted
abbrev pub fits_version : ℕ → Bool → Bool
fits_version version false = version == current_format_version
fits_version version true = version == encrypted_format_version

abbrev pub check_layout : Option SourceLayout → Result ManifestError (Unit {0})
check_layout none = ok tt
check_layout (some layout) = map_err (λ _. invalid_source_layout) (validate_layout layout)

-- What `prepare_for_seal` writes: the time, the state and the signature.
abbrev pub with_seal : Timestamp → Text → Text → Manifest → Manifest
with_seal sealed_at algorithm key_id self = record {
  format_version = self.format_version;
  backup_id = self.backup_id;
  run_id = self.run_id;
  created_at = self.created_at;
  sealed_at = some sealed_at;
  producer = self.producer;
  source = self.source;
  plan = self.plan;
  consistency = self.consistency;
  payloads = self.payloads;
  verification_state = verified;
  signature = some (record { algorithm = algorithm; key_id = key_id });
  warnings = self.warnings;
  source_layout = self.source_layout;
}

module _ (decode : Text → Option Bytes) where
  unfoldable pub validate_payload : ℕ → PayloadEntry → Result ManifestError (Unit {0})
  validate_payload format_version entry =
      validate_entry decode entry
      >> ensure (fits_version format_version (is_some entry.encryption)) encryption_policy

  unfoldable pub validate_common : Manifest → Result ManifestError (Unit {0})
  validate_common self = do
    ensure
        (self.format_version == current_format_version
          || self.format_version == encrypted_format_version)
        unsupported_format_version
    ensure (not (is_empty self.payloads)) empty_payload
    try_for_each validate_label (
        self.producer.name ∷ self.producer.version ∷ self.producer.platform
        ∷ self.source.host_key_fingerprint ∷ [])
    ensure (not (self.plan.version == 0 || not (is_sha256 self.plan.sha256))) invalid_plan_reference
    try_for_each (validate_payload self.format_version) self.payloads
    try_for_each validate_label self.warnings
    check_layout self.source_layout
    let unique = to_set (map (λ entry. entry.path.as_str) self.payloads)
    ensure (length unique == length self.payloads) duplicate_payload_path

  unfoldable pub validate_for_verification : Manifest → Result ManifestError (Unit {0})
  validate_for_verification self = do
    validate_common self
    ensure
        (not (
          not (is_pending self.verification_state)
          || is_some self.sealed_at
          || is_some self.signature))
        already_finalized

  unfoldable pub validate_sealed : Manifest → Result ManifestError (Unit {0})
  validate_sealed self = do
    validate_common self
    signature ← ok_or self.signature not_sealed
    ensure (not (is_pending self.verification_state || not (is_some self.sealed_at))) not_sealed
    validate_label signature.algorithm
    validate_label signature.key_id

  unfoldable pub prepare_for_seal :
      Manifest → Timestamp → Text → Text → Result ManifestError Manifest
  prepare_for_seal self sealed_at algorithm key_id = do
    validate_label algorithm
    validate_label key_id
    validate_for_verification self
    ok (with_seal sealed_at algorithm key_id self)

-- `serde_json::to_vec` is third-party code.
unfoldable pub canonical_bytes : (Manifest → Option Bytes) → Manifest → Result ManifestError Bytes
canonical_bytes to_vec self = ok_or (to_vec self) serialization_failed
