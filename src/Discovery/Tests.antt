-- ===== src/Discovery/Tests.antt =====
-- Runs of browsing, of the preflight of databases and of discovery on concrete inputs.
use vds_guardian.Prelude.{
  ◌≡◌, ◌≢◌, ◌↔◌, refl, false, true, Option, none, some, Result, ok, err, [], ◌∷◌, All, list_beq,
  List,
}
use vds_guardian.Text.{str, len, bytes, encode, split, strip_prefix, contains_text, starts_with}
use vds_guardian.Identifiers.{
  ProfileId, RemotePath, child, parse_remote_path, valid_remote_root, valid_absolute_path,
}
use vds_guardian.Profile.{VdsProfile, ProfileStorePortError, host_valid}
use vds_guardian.Docker.{DockerInventory, validate_inventory, validate_containers}
use vds_guardian.Discovery.{
  RemoteBrowseEntry, RemoteBrowsePage, RemoteBrowseRequest, RemoteBrowserPortError,
  browse_remote_directory, validate_request, valid_cursor, validate_for, mismatched,
  validate_entries, validate_browse_entry, valid_name, valid_selection, kind_directory,
  kind_symlink, reason_symlink, browse_page, duplicate_entry, invalid_browse_entry,
  DatabaseCapability, DatabaseCapabilityProbeError, database_preflight, postgre_sql,
  incompatible_version, check_capabilities, validate_capability, is_valid_version, is_compatible,
  DatabaseConnection, DatabaseVersion, DatabaseServerVersionProbeError, ssh_peer, verify_connection,
  validate_connection, database_valid, authentication_valid, connection_failed, invalid_connection,
  DockerInventoryPortError, discover_inventory,
}
use vds_guardian.Discovery.Pages.{IsListing, browse_remote_directory_sound}
use vds_guardian.Discovery.Answers.{
  IsSupported, IsAnswer, IsValidConnection, database_preflight_iff, verify_connection_iff,
}

abbrev profile_id : ProfileId
profile_id = record { as_str = str "profile-1" }

abbrev profile : VdsProfile
profile = record {
  profile_id = profile_id;
  label = str "VDS";
  endpoint = record {
    host = str "vds.example";
    port = 22;
    user = str "backup";
    host_pin = record { algorithm = str "ssh-ed25519"; public_key_base64 = [] };
  };
  credential_id = record { as_str = str "credential-1" };
  auth_kind = none;
}

abbrev stored : ProfileId → Result ProfileStorePortError (Option VdsProfile)
stored id = ok (some profile)

abbrev srv : RemotePath
srv = record { as_str = str "/srv" }

abbrev data_entry : RemoteBrowseEntry
data_entry = record {
  name = str "data";
  absolute_path = record { as_str = str "/srv/data" };
  kind = kind_directory;
  size = none;
  modified_at = none;
  selectable = true;
  unavailable_reason = none;
}

abbrev link_entry : RemoteBrowseEntry
link_entry = record {
  name = str "link";
  absolute_path = record { as_str = str "/srv/link" };
  kind = kind_symlink;
  size = none;
  modified_at = none;
  selectable = false;
  unavailable_reason = some reason_symlink;
}

abbrev upward_entry : RemoteBrowseEntry
upward_entry = record data_entry {
  name = str "..";
  absolute_path = record { as_str = str "/srv/.." };
}

abbrev page : RemoteBrowsePage
page = record {
  directory = srv;
  entries = data_entry ∷ link_entry ∷ [];
  next_cursor = some (str "page-2");
  truncated = true;
}

abbrev request : RemoteBrowseRequest
request = record { directory = srv; cursor = none; limit = 2 }

abbrev listed :
    RemoteBrowsePage
    → VdsProfile
    → RemoteBrowseRequest
    → Result RemoteBrowserPortError RemoteBrowsePage
listed answer _ _ = ok answer

accepts_page : browse_remote_directory stored (listed page) profile_id request ≡ ok page
unfolding browse_remote_directory validate_request valid_cursor validate_for mismatched
    validate_entries validate_browse_entry valid_name valid_selection child parse_remote_path
    valid_remote_root valid_absolute_path split len bytes encode list_beq
accepts_page = refl

rejects_repeated :
    browse_remote_directory stored
      (listed (record page { entries = data_entry ∷ data_entry ∷ [] }))
      profile_id
      request
    ≡ err (browse_page duplicate_entry)
unfolding browse_remote_directory validate_request valid_cursor validate_for mismatched
    validate_entries validate_browse_entry valid_name valid_selection child parse_remote_path
    valid_remote_root valid_absolute_path split len bytes encode list_beq
rejects_repeated = refl

rejects_upward :
    browse_remote_directory stored
      (listed (record page { entries = upward_entry ∷ [] }))
      profile_id
      request
    ≡ err (browse_page invalid_browse_entry)
unfolding browse_remote_directory validate_request valid_cursor validate_for mismatched
    validate_entries validate_browse_entry valid_name valid_selection child parse_remote_path
    valid_remote_root valid_absolute_path split len bytes encode list_beq
rejects_upward = refl

srv_is_valid : valid_remote_root (str "/srv") ≡ true
unfolding valid_remote_root valid_absolute_path split len bytes encode list_beq
srv_is_valid = refl

browse_remote_directory_sound_example : IsListing stored (listed page) profile_id request page
browse_remote_directory_sound_example =
    browse_remote_directory_sound stored (listed page) profile_id request page srv_is_valid
      accepts_page

abbrev version : DatabaseVersion
version = record { major = 16; minor = 2; patch = 0 }

abbrev capability : DatabaseCapability
capability = record {
  engine = postgre_sql;
  server_version = version;
  dump_tool_version = record { major = 16; minor = 1; patch = 0 };
}

abbrev probed : VdsProfile → Result DatabaseCapabilityProbeError (List DatabaseCapability)
probed _ = ok (capability ∷ [])

abbrev probed_old : VdsProfile → Result DatabaseCapabilityProbeError (List DatabaseCapability)
probed_old _ =
    ok (record capability { dump_tool_version = record { major = 15; minor = 1; patch = 0 } } ∷ [])

accepts_capability : database_preflight stored probed profile_id ≡ ok (capability ∷ [])
unfolding database_preflight check_capabilities validate_capability is_valid_version is_compatible
accepts_capability = refl

rejects_old : database_preflight stored probed_old profile_id ≡ err incompatible_version
unfolding database_preflight check_capabilities validate_capability is_valid_version is_compatible
rejects_old = refl

database_preflight_iff_example :
    (database_preflight stored probed profile_id ≡ ok (capability ∷ [])) ↔ (
      IsAnswer stored probed profile_id (capability ∷ [])
      × (capability ∷ [] ≢ [])
      × All IsSupported (capability ∷ []))
database_preflight_iff_example = database_preflight_iff stored probed profile_id (capability ∷ [])

abbrev connection : DatabaseConnection
connection = record {
  database_id = record { as_str = str "database-1" };
  engine = postgre_sql;
  host = str "localhost";
  port = 5432;
  database_name = str "app";
  authentication = ssh_peer;
}

abbrev answers : DatabaseConnection → Result DatabaseServerVersionProbeError DatabaseVersion
answers _ = ok version

accepts_connection : verify_connection answers connection ≡ ok version
unfolding verify_connection validate_connection host_valid database_valid authentication_valid
    contains_text starts_with strip_prefix len bytes encode list_beq
accepts_connection = refl

rejects_remote_peer :
    verify_connection answers (record connection { host = str "db.example" })
    ≡ err (connection_failed invalid_connection)
unfolding verify_connection validate_connection host_valid database_valid authentication_valid
    contains_text starts_with strip_prefix len bytes encode list_beq
rejects_remote_peer = refl

verify_connection_iff_example :
    (verify_connection answers connection ≡ ok version)
    ↔ (IsValidConnection connection × (answers connection ≡ ok version))
verify_connection_iff_example = verify_connection_iff answers connection version

abbrev no_containers : DockerInventory
no_containers = record { containers = [] }

abbrev inspected : VdsProfile → Result DockerInventoryPortError DockerInventory
inspected _ = ok no_containers

accepts_none : discover_inventory stored inspected profile_id ≡ ok no_containers
unfolding discover_inventory validate_inventory validate_containers
accepts_none = refl
