-- ===== src/Repository/Sealed/Load.antt =====
-- The manifest of a sealed backup with its signature, and the inventory of backups
-- (crates/guardian-local-repository/src/inventory.rs, signature_file.rs).
use vds_guardian.Prelude.{
  ℕ, ◌+◌, ◌-◌, ◌*◌, ◌%◌, ◌==◌, Bool, true, false, Option, none, some, List, [], ◌∷◌, Result, ok,
  err, ◌>>=◌, ◌>>◌, ensure, ok_or, map_err, if◌then◌else◌, ◌&&◌, leb, length, list_eq, nat_eq,
}
use vds_guardian.Text.{Text, Bytes, str, bytes}
use vds_guardian.Identifiers.{BackupId, Timestamp, backup, parse, identifier_eq}
use vds_guardian.Retention.{hex}
use vds_guardian.Manifest.{Manifest, validate_sealed, canonical_bytes}
use vds_guardian.Selection.{bytes_le}
use vds_guardian.Repository.Files.{
  RepositoryError, integrity_failure, unsafe_filesystem_entry, io, manifest_rejected,
  signing_failed, SigningError,
}
use vds_guardian.Repository.Sealed.Tree.{
  FileNode, Listing, file, folder, symlink, special, unlisted, end, listed, lookup, entries_within,
  verify_payload_tree,
}

pub record DiskSignature : Type 0 where
  pub algorithm : Text
  pub key_id : Text
  pub signature : Text

-- `DiskSignature::new`
unfoldable pub new_signature : Text → Text → Bytes → DiskSignature
new_signature algorithm key_id signature = record {
  algorithm = algorithm;
  key_id = key_id;
  signature = hex signature;
}

-- The value of a hexadecimal digit
unfoldable pub digit : ℕ → Option ℕ
digit c =
    if leb b'0' c && leb c b'9'
    then some (c - b'0')
    else if leb b'a' c && leb c b'f'
    then some (c - b'a' + 10)
    else if leb b'A' c && leb c b'F'
    then some (c - b'A' + 10)
    else none

abbrev pub both_digits : Option ℕ → Option ℕ → Option ℕ
both_digits (some high) (some low) = some (high * 16 + low)
both_digits (some high) none = none
both_digits none low = none

-- `u8::from_str_radix(text, 16)` of two characters, of which the first may be a plus sign
unfoldable pub from_str_radix : ℕ → ℕ → Option ℕ
from_str_radix a b = if a == b'+' then digit b else both_digits (digit a) (digit b)

-- `chunks_exact(2)`, each pair turned into a byte
unfoldable pub decode_pairs : Bytes → Result RepositoryError Bytes
decode_pairs [] = ok []
decode_pairs (a ∷ []) = ok []
decode_pairs (a ∷ b ∷ rest) = do
  byte ← ok_or (from_str_radix a b) integrity_failure
  decoded ← decode_pairs rest
  ok (byte ∷ decoded)

-- `DiskSignature::decode`
unfoldable pub decode_signature : DiskSignature → Result RepositoryError Bytes
decode_signature self = do
  ensure (length (bytes self.signature) % 2 == 0) integrity_failure
  decode_pairs (bytes self.signature)

-- `read_regular_file`
abbrev pub contents_of : Option FileNode → Result RepositoryError Bytes
contents_of none = err io
contents_of (some (file true content)) = ok content
contents_of (some (file false content)) = err io
contents_of (some (folder listing)) = err unsafe_filesystem_entry
contents_of (some symlink) = err unsafe_filesystem_entry
contents_of (some special) = err unsafe_filesystem_entry

pub record TrustedBackup : Type 0 where
  pub backup_id : BackupId
  pub sealed_at : Timestamp

-- What `sort_by` compares: the time, and the id where the times are equal.
unfoldable pub comes_before : TrustedBackup → TrustedBackup → Bool
comes_before left right =
    if left.sealed_at.as_str == right.sealed_at.as_str
    then bytes_le (bytes left.backup_id.as_str) (bytes right.backup_id.as_str)
    else bytes_le (bytes left.sealed_at.as_str) (bytes right.sealed_at.as_str)

unfoldable pub insert_backup : TrustedBackup → List TrustedBackup → List TrustedBackup
insert_backup b [] = b ∷ []
insert_backup b (c ∷ cs) =
    let rest = insert_backup b cs in if comes_before b c then b ∷ c ∷ cs else c ∷ rest

unfoldable pub sort_backups : List TrustedBackup → List TrustedBackup
sort_backups [] = []
sort_backups (b ∷ bs) = insert_backup b (sort_backups bs)

-- base64, serde_json and SHA-256 are third-party code, and the verifier is a port.
pub record Readers : Type 0 where
  pub base64_decode : Text → Option Bytes
  pub sha256 : Bytes → Bytes
  pub manifest_from_slice : Bytes → Option Manifest
  pub to_vec : Manifest → Option Bytes
  pub signature_from_slice : Bytes → Option DiskSignature
  pub verify_manifest : Text → Text → Bytes → Bytes → Result SigningError (Unit {0})

module _ (readers : Readers) where
  -- `verify_signature`
  unfoldable pub verify_signature : Listing → Manifest → Bytes → Result RepositoryError (Unit {0})
  verify_signature root manifest canonical = do
    content ← contents_of (lookup (str "manifest.sig") root)
    disk ← ok_or (readers.signature_from_slice content) integrity_failure
    metadata ← ok_or manifest.signature integrity_failure
    ensure (disk.algorithm == metadata.algorithm && disk.key_id == metadata.key_id)
        integrity_failure
    decoded ← decode_signature disk
    map_err signing_failed (readers.verify_manifest disk.algorithm disk.key_id canonical decoded)

  -- `verify_sealed_payloads`
  unfoldable pub verify_sealed_payloads : Listing → Manifest → Result RepositoryError (Unit {0})
  verify_sealed_payloads root manifest = do
    map_err manifest_rejected (validate_sealed readers.base64_decode manifest)
    verify_payload_tree readers.sha256 root manifest

  -- `load_verified_manifest`, of the directory with this name
  unfoldable pub load_verified_manifest : Text → FileNode → Result RepositoryError Manifest
  load_verified_manifest name node = do
    root ← entries_within (some node)
    directory_id ← map_err (λ _. unsafe_filesystem_entry) (parse backup name)
    canonical ← contents_of (lookup (str "manifest.json") root)
    manifest ← ok_or (readers.manifest_from_slice canonical) integrity_failure
    map_err manifest_rejected (validate_sealed readers.base64_decode manifest)
    ensure (manifest.backup_id == directory_id) integrity_failure
    encoded ← map_err manifest_rejected (canonical_bytes readers.to_vec manifest)
    ensure (encoded == canonical) integrity_failure
    verify_signature root manifest canonical
    verify_sealed_payloads root manifest
    ok manifest

  -- `inspect_backup`
  unfoldable pub inspect_backup : Text → FileNode → Result RepositoryError TrustedBackup
  inspect_backup name node = do
    manifest ← load_verified_manifest name node
    sealed_at ← ok_or manifest.sealed_at integrity_failure
    ok (record { backup_id = manifest.backup_id; sealed_at = sealed_at })

  -- The loop of `trusted_inventory`
  unfoldable pub inspect_all : Listing → Result RepositoryError (List TrustedBackup)
  inspect_all unlisted = err io
  inspect_all end = ok []
  inspect_all (listed name node rest) = do
    inspected ← inspect_backup name node
    inventory ← inspect_all rest
    ok (inspected ∷ inventory)

  -- `trusted_inventory`, of what stands at `backups_root`
  unfoldable pub trusted_inventory : Option FileNode → Result RepositoryError (List TrustedBackup)
  trusted_inventory backups_root = do
    listing ← entries_within backups_root
    inventory ← inspect_all listing
    ok (sort_backups inventory)
