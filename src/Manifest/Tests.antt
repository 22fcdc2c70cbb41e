-- ===== src/Manifest/Tests.antt =====
-- Runs of the manifest on concrete inputs.
use vds_guardian.Prelude.{
  ◌≡◌, ◌↔◌, refl, none, some, ok, err, Option, [], ◌∷◌, IsUnique, length, try_for_each, to_set,
  list_beq,
}
use vds_guardian.Text.{Text, Bytes, str, len, bytes, encode, starts_with, strip_prefix}
use vds_guardian.Identifiers.{BackupId, RunId, PayloadPath, Timestamp}
use vds_guardian.Manifest.{
  crash_consistent, pending, Manifest, Producer, SourceIdentity, PlanReference, SignatureMetadata,
  PayloadEntry, PayloadEncryption, new_manifest, add_payload, with_seal, validate_common,
  validate_for_verification, validate_sealed, prepare_for_seal, validate_payload, validate_entry,
  validate_label, is_sha256, already_finalized, duplicate_payload_path, chunked_algorithm,
  with_recovery_wrapped_key, recovery_wrapped_key, nonce, select_payloads, paths, is_filesystem,
  is_database,
}
use vds_guardian.Manifest.Valid.{IsLabel, IsValidEncryption}
use vds_guardian.Manifest.Sealing.{IsValidManifest, entry_paths, validate_common_iff}
use vds_guardian.Manifest.Sealed.{
  IsFresh, Keeps, IsSealedBy, prepare_for_seal_iff, prepare_for_seal_lem,
}
use vds_guardian.Manifest.Payloads.{
  add_payloads, add_payloads_lem, version_for, option_list, select_payloads_iff,
}
use vds_guardian.Manifest.Keys.{with_recovery_wrapped_key_iff}

-- A decoder that gives the characters, and the encoder that it undoes.
abbrev pub decode : Text → Option Bytes
decode t = some t

abbrev base64 : Bytes → Text
base64 bs = bs

abbrev digest : Text
digest = str "0123456789abcdef0123456789abcdef0123456789abcdef0123456789abcdef"

abbrev files_path : PayloadPath
files_path = record { as_str = str "payload/files.tar.zst" }

abbrev files : PayloadEntry
files = record {
  logical_role = str "filesystem";
  path = files_path;
  byte_length = 10;
  sha256 = digest;
  media_type = str "application/zstd";
  encryption = none;
}

abbrev backup_1 : BackupId
backup_1 = record { as_str = str "backup-1" }

abbrev run_1 : RunId
run_1 = record { as_str = str "run-1" }

abbrev noon : Timestamp
noon = record { as_str = str "2024-02-29T12:00:00Z" }

abbrev producer : Producer
producer = record { name = str "guardian"; version = str "1"; platform = str "linux" }

abbrev source : SourceIdentity
source = record {
  profile_id = record { as_str = str "vds" };
  host_key_fingerprint = str "SHA256:0";
}

abbrev plan : PlanReference
plan = record { plan_id = record { as_str = str "plan" }; version = 1; sha256 = digest }

abbrev fresh : Manifest
fresh = record {
  format_version = 1;
  backup_id = backup_1;
  run_id = run_1;
  created_at = noon;
  sealed_at = none;
  producer = producer;
  source = source;
  plan = plan;
  consistency = crash_consistent;
  payloads = files ∷ [];
  verification_state = pending;
  signature = none;
  warnings = [];
  source_layout = none;
}

abbrev ed25519 : Text
ed25519 = str "ed25519"

abbrev key_1 : Text
key_1 = str "key-1"

abbrev names : SignatureMetadata
names = record { algorithm = ed25519; key_id = key_1 }

abbrev pub sealed_1 : Manifest
sealed_1 = with_seal noon ed25519 key_1 fresh

abbrev iv : Bytes
iv = 0 ∷ 1 ∷ 2 ∷ 3 ∷ 4 ∷ 5 ∷ 6 ∷ 7 ∷ 8 ∷ 9 ∷ 10 ∷ 11 ∷ []

abbrev encryption : PayloadEncryption
encryption = record {
  envelope_version = 1;
  algorithm = chunked_algorithm;
  credential_id = record { as_str = str "payload-0" };
  nonce_base64 = iv;
  recovery_wrapped_key_base64 = none;
}

encryption-IsValid : IsValidEncryption decode encryption
encryption-IsValid = record {
  envelope_is_1 = refl;
  is_chunked = refl;
  nonce_decodes = (iv, refl, refl);
  wrapped_decodes = tt;
}

valid_fresh : validate_common decode fresh ≡ ok tt
unfolding validate_common validate_payload validate_entry validate_label is_sha256 starts_with
    strip_prefix len bytes encode try_for_each to_set list_beq
valid_fresh = refl

seals : prepare_for_seal decode fresh noon ed25519 key_1 ≡ ok sealed_1
unfolding prepare_for_seal validate_for_verification validate_common validate_payload validate_entry
    validate_label is_sha256 starts_with strip_prefix len bytes encode try_for_each to_set list_beq
seals = refl

seals_once : prepare_for_seal decode sealed_1 noon ed25519 key_1 ≡ err already_finalized
unfolding prepare_for_seal validate_for_verification validate_common validate_payload validate_entry
    validate_label is_sha256 starts_with strip_prefix len bytes encode try_for_each to_set list_beq
seals_once = refl

adds : add_payloads (new_manifest backup_1 run_1 noon producer source plan) (files ∷ []) ≡ ok fresh
unfolding add_payload new_manifest
adds = refl

adds_once : add_payload fresh files ≡ err duplicate_payload_path
unfolding add_payload list_beq
adds_once = refl

prepare_for_seal_lem_example :
    (validate_sealed decode sealed_1 ≡ ok tt)
    × IsSealedBy sealed_1 noon names
    × Keeps fresh sealed_1
    × (validate_for_verification decode sealed_1 ≡ err already_finalized)
prepare_for_seal_lem_example = prepare_for_seal_lem decode fresh sealed_1 noon ed25519 key_1 seals

prepare_for_seal_iff_example : (prepare_for_seal decode fresh noon ed25519 key_1 ≡ ok sealed_1) ↔ (
    IsLabel ed25519
    × IsLabel key_1
    × IsValidManifest decode fresh
    × IsFresh fresh
    × IsSealedBy sealed_1 noon names
    × Keeps fresh sealed_1)
prepare_for_seal_iff_example = prepare_for_seal_iff decode fresh sealed_1 noon ed25519 key_1

validate_common_iff_example : (validate_common decode fresh ≡ ok tt) ↔ IsValidManifest decode fresh
validate_common_iff_example = validate_common_iff decode fresh

add_payloads_lem_example :
    (fresh.payloads ≡ files ∷ [])
    × IsUnique (entry_paths (files ∷ []))
    × (fresh.format_version ≡ version_for (files ∷ []))
add_payloads_lem_example =
    add_payloads_lem backup_1 run_1 noon producer source plan (files ∷ []) fresh adds

select_payloads_iff_example : (select_payloads fresh ≡ ok (files_path, none)) ↔ (
    (paths is_filesystem fresh.payloads ≡ files_path ∷ [])
    × (paths is_database fresh.payloads ≡ option_list none))
select_payloads_iff_example = select_payloads_iff fresh files_path none

with_recovery_wrapped_key_iff_example :
    ((next : PayloadEncryption) × (with_recovery_wrapped_key decode base64 encryption iv ≡ ok next)
      × (recovery_wrapped_key decode next ≡ ok (some iv))
      × (nonce decode next ≡ nonce decode encryption))
    ↔ (length iv ≡ 95)
with_recovery_wrapped_key_iff_example =
    with_recovery_wrapped_key_iff decode base64 (λ bs. refl) encryption iv encryption-IsValid
