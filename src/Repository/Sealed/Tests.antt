-- ===== src/Repository/Sealed/Tests.antt =====
-- Runs of the check of a sealed backup on concrete files.
use vds_guardian.Prelude.{
  ◌≡◌, refl, true, Option, some, Result, ok, err, [], ◌∷◌, ◌++◌, list_beq, nat_eq, try_for_each,
  to_set, List,
}
use vds_guardian.Text.{Text, Bytes, str, len, bytes, encode, split, starts_with, strip_prefix}
use vds_guardian.Identifiers.{parse, parse_identifier}
use vds_guardian.Retention.{hex}
use vds_guardian.Manifest.{
  Manifest, validate_sealed, validate_common, validate_payload, validate_entry, validate_label,
  is_sha256, canonical_bytes,
}
use vds_guardian.Manifest.Tests.{decode, sealed_1}
use vds_guardian.Repository.{integrity_failure, unsafe_filesystem_entry, SigningError}
use vds_guardian.Repository.Sealed.{
  Readers, FileNode, Listing, file, folder, symlink, end, listed, lookup, at, walk_payload,
  walk_entry, collect_payload_files, check_payload, verify_payload_tree, DiskSignature,
  new_signature, digit, from_str_radix, decode_pairs, decode_signature, verify_signature,
  verify_sealed_payloads, load_verified_manifest, inspect_backup, inspect_all, trusted_inventory,
  sort_backups, insert_backup, TrustedBackup,
}
use vds_guardian.Repository.Sealed.Exact.{IsPayloadOf, verify_payload_tree_sound}
use vds_guardian.Repository.Sealed.Inventory.{IsInventoryOf, trusted_inventory_sound}
use vds_guardian.Repository.Sealed.Trusted.{IsTrusted, load_verified_manifest_sound}

abbrev eighth : Bytes
eighth = 0x01 ∷ 0x23 ∷ 0x45 ∷ 0x67 ∷ 0x89 ∷ 0xab ∷ 0xcd ∷ 0xef ∷ []

-- A hash that gives the manifest's digest, whatever the bytes.
abbrev sha256 : Bytes → Bytes
sha256 _ = eighth ++ (eighth ++ (eighth ++ eighth))

abbrev ten_bytes : Bytes
ten_bytes = 1 ∷ 2 ∷ 3 ∷ 4 ∷ 5 ∷ 6 ∷ 7 ∷ 8 ∷ 9 ∷ 10 ∷ []

abbrev canonical : Bytes
canonical = 123 ∷ 125 ∷ []

abbrev backup_with : Listing → Listing
backup_with inner =
    listed (str "manifest.json") (file true canonical)
      (listed (str "manifest.sig") (file true (1 ∷ [])) (listed (str "payload") (folder inner) end))

abbrev backup_files : Listing
backup_files = backup_with (listed (str "files.tar.zst") (file true ten_bytes) end)

abbrev with_link : Listing
with_link =
    backup_with
      (listed (str "files.tar.zst") (file true ten_bytes) (listed (str "link") symlink end))

abbrev with_stranger : Listing
with_stranger = backup_with (
    listed (str "files.tar.zst") (file true ten_bytes) (listed (str "stranger") (file true []) end))

abbrev from_json : Bytes → Option Manifest
from_json _ = some sealed_1

abbrev to_json : Manifest → Option Bytes
to_json _ = some canonical

abbrev signature_from_json : Bytes → Option DiskSignature
signature_from_json _ = some (new_signature (str "ed25519") (str "key-1") eighth)

abbrev accepts_all : Text → Text → Bytes → Bytes → Result SigningError (Unit {0})
accepts_all _ _ _ _ = ok tt

abbrev readers : Readers
readers = record {
  base64_decode = decode;
  sha256 = sha256;
  manifest_from_slice = from_json;
  to_vec = to_json;
  signature_from_slice = signature_from_json;
  verify_manifest = accepts_all;
}

accepts_tree : verify_payload_tree sha256 backup_files sealed_1 ≡ ok tt
unfolding verify_payload_tree collect_payload_files walk_payload walk_entry check_payload at lookup
    split hex try_for_each list_beq
accepts_tree = refl

rejects_link : verify_payload_tree sha256 with_link sealed_1 ≡ err unsafe_filesystem_entry
unfolding verify_payload_tree collect_payload_files walk_payload walk_entry check_payload at lookup
    split hex try_for_each list_beq
rejects_link = refl

rejects_stranger : verify_payload_tree sha256 with_stranger sealed_1 ≡ err integrity_failure
unfolding verify_payload_tree collect_payload_files walk_payload walk_entry check_payload at lookup
    split hex try_for_each list_beq
rejects_stranger = refl

-- A signature is read back; a plus sign passes for the first of two digits.
reads_signature : decode_signature (new_signature (str "ed25519") (str "key-1") eighth) ≡ ok eighth
unfolding decode_signature new_signature decode_pairs from_str_radix digit hex bytes encode
reads_signature = refl

reads_plus : from_str_radix b'+' b'f' ≡ some 15
unfolding from_str_radix digit
reads_plus = refl

accepts_backup : load_verified_manifest readers (str "backup-1") (folder backup_files) ≡ ok sealed_1
unfolding load_verified_manifest verify_signature verify_sealed_payloads canonical_bytes
    decode_signature new_signature decode_pairs from_str_radix digit hex parse parse_identifier
    validate_sealed validate_common validate_payload validate_entry validate_label is_sha256
    verify_payload_tree collect_payload_files walk_payload walk_entry check_payload at lookup split
    starts_with strip_prefix len bytes encode try_for_each to_set list_beq
accepts_backup = refl

verify_payload_tree_sound_example : IsPayloadOf sha256 backup_files sealed_1
verify_payload_tree_sound_example =
    verify_payload_tree_sound sha256 backup_files sealed_1 accepts_tree

load_verified_manifest_sound_example :
    IsTrusted readers (str "backup-1") (folder backup_files) sealed_1
load_verified_manifest_sound_example =
    load_verified_manifest_sound readers (str "backup-1") (folder backup_files) sealed_1
      accepts_backup

abbrev backups : Option FileNode
backups = some (folder (listed (str "backup-1") (folder backup_files) end))

abbrev inventory : List TrustedBackup
inventory =
    record {
      backup_id = record { as_str = str "backup-1" };
      sealed_at = record { as_str = str "2024-02-29T12:00:00Z" };
    }
    ∷ []

lists_backup : trusted_inventory readers backups ≡ ok inventory
unfolding trusted_inventory inspect_all inspect_backup sort_backups insert_backup
    load_verified_manifest verify_signature verify_sealed_payloads canonical_bytes decode_signature
    new_signature decode_pairs from_str_radix digit hex parse parse_identifier validate_sealed
    validate_common validate_payload validate_entry validate_label is_sha256 verify_payload_tree
    collect_payload_files walk_payload walk_entry check_payload at lookup split starts_with
    strip_prefix len bytes encode try_for_each to_set list_beq
lists_backup = refl

trusted_inventory_sound_example : IsInventoryOf readers backups inventory
trusted_inventory_sound_example = trusted_inventory_sound readers backups inventory lists_backup
