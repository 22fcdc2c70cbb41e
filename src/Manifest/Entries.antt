-- ===== src/Manifest/Entries.antt =====
-- The payload entries of a manifest and their encryption metadata
-- (crates/guardian-core/src/manifest.rs).
use vds_guardian.Prelude.{
  ℕ, Bool, Option, none, some, ◌&&◌, not, any, all, leb, ◌==◌, nat_eq, list_eq, length, Result, ok,
  ◌>>=◌, ◌>>◌, ensure, ok_or,
}
use vds_guardian.Text.{
  Text, Bytes, str, bytes, len, is_empty_text, is_control, is_hex, starts_with, ends_with,
}
use vds_guardian.Identifiers.{PayloadPath, CredentialId}

pub data ManifestError : Type 0 where
  unsupported_format_version already_finalized not_sealed empty_payload : ManifestError
  duplicate_payload_path invalid_sha256 invalid_payload_path : ManifestError
  invalid_plan_reference invalid_label serialization_failed : ManifestError
  encryption_policy invalid_source_layout : ManifestError

unfoldable pub validate_label : Text → Result ManifestError (Unit {0})
validate_label value =
    ensure (not (is_empty_text value) && leb (len value) 128 && not (any is_control value))
      invalid_label

unfoldable pub is_sha256 : Text → Bool
is_sha256 value = len value == 64 && all is_hex (bytes value)

pub record PayloadEncryption : Type 0 where
  pub envelope_version : ℕ
  pub algorithm : Text
  pub credential_id : CredentialId
  pub nonce_base64 : Text
  pub recovery_wrapped_key_base64 : Option Text

pub record PayloadEntry : Type 0 where
  pub logical_role : Text
  pub path : PayloadPath
  pub byte_length : ℕ
  pub sha256 : Text
  pub media_type : Text
  pub encryption : Option PayloadEncryption

abbrev pub chunked_algorithm : Text
chunked_algorithm = str "AES-256-GCM-CHUNKED"

-- `STANDARD` is third-party code: the base64 decoder and encoder.
module _ (decode : Text → Option Bytes) where
  -- `bytes.try_into()` for `[u8; 12]`
  unfoldable pub nonce : PayloadEncryption → Result ManifestError Bytes
  nonce self = do
    value ← ok_or (decode self.nonce_base64) encryption_policy
    ensure (length value == 12) encryption_policy
    ok value

  unfoldable pub recovery_wrapped_key : PayloadEncryption → Result ManifestError (Option Bytes)
  recovery_wrapped_key self = elim self.recovery_wrapped_key_base64 [
    | some value ↦ ok_or (decode value) encryption_policy >>= λ wrapped. ok (some wrapped)
    | none ↦ ok none
  ]

  abbrev pub check_wrapped : Option Bytes → Result ManifestError (Unit {0})
  check_wrapped none = ok tt
  check_wrapped (some wrapped) = ensure (length wrapped == 95) encryption_policy

  unfoldable pub validate_encryption : PayloadEncryption → Result ManifestError (Unit {0})
  validate_encryption self = do
    ensure (self.envelope_version == 1 && self.algorithm == chunked_algorithm) encryption_policy
    _ ← nonce self
    wrapped ← recovery_wrapped_key self
    check_wrapped wrapped

  unfoldable pub new_encryption :
      (Bytes → Text) → ℕ → Text → CredentialId → Bytes → Result ManifestError PayloadEncryption
  new_encryption base64 envelope_version algorithm credential_id value = do
    let encryption : PayloadEncryption = record {
      envelope_version = envelope_version;
      algorithm = algorithm;
      credential_id = credential_id;
      nonce_base64 = base64 value;
      recovery_wrapped_key_base64 = none;
    }
    validate_encryption encryption
    ok encryption

  unfoldable pub with_recovery_wrapped_key :
      (Bytes → Text) → PayloadEncryption → Bytes → Result ManifestError PayloadEncryption
  with_recovery_wrapped_key base64 self wrapped = do
    let encryption : PayloadEncryption = record {
      envelope_version = self.envelope_version;
      algorithm = self.algorithm;
      credential_id = self.credential_id;
      nonce_base64 = self.nonce_base64;
      recovery_wrapped_key_base64 = some (base64 wrapped);
    }
    validate_encryption encryption
    ok encryption

  abbrev pub check_encryption :
      PayloadPath → Option PayloadEncryption → Result ManifestError (Unit {0})
  check_encryption path none = ok tt
  check_encryption path (some encryption) =
      validate_encryption encryption
      >> ensure (ends_with (str ".enc") path.as_str) encryption_policy

  unfoldable pub validate_entry : PayloadEntry → Result ManifestError (Unit {0})
  validate_entry self = do
    ensure (starts_with (str "payload/") self.path.as_str) invalid_payload_path
    validate_label self.logical_role
    validate_label self.media_type
    ensure (is_sha256 self.sha256) invalid_sha256
    check_encryption self.path self.encryption

  unfoldable pub new_entry :
      Text → PayloadPath → ℕ → Text → Text → Result ManifestError PayloadEntry
  new_entry logical_role path byte_length sha256 media_type = do
    let entry : PayloadEntry = record {
      logical_role = logical_role;
      path = path;
      byte_length = byte_length;
      sha256 = sha256;
      media_type = media_type;
      encryption = none;
    }
    validate_entry entry
    ok entry

  unfoldable pub encrypted : PayloadEntry → PayloadEncryption → Result ManifestError PayloadEntry
  encrypted self encryption = do
    let entry : PayloadEntry = record {
      logical_role = self.logical_role;
      path = self.path;
      byte_length = self.byte_length;
      sha256 = self.sha256;
      media_type = self.media_type;
      encryption = some encryption;
    }
    validate_entry entry
    ok entry
