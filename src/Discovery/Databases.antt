-- ===== src/Discovery/Databases.antt =====
-- The versions of a server's databases and of its dump tools, and a connection to a database
-- (crates/guardian-core/src/database.rs, database_connection.rs).
use vds_guardian.Prelude.{
  ℕ, Bool, Option, List, [], ◌∷◌, Result, ok, err, ◌>>=◌, ◌>>◌, ensure, ok_or, map_err,
  if◌then◌else◌, not, ◌&&◌, ◌||◌, ◌==◌, all, leb, ltb, is_empty, nat_eq, list_eq,
}
use vds_guardian.Text.{Text, str, len, bytes, is_empty_text, is_alphanumeric}
use vds_guardian.Identifiers.{ProfileId, CredentialId, DatabaseId}
use vds_guardian.Profile.{VdsProfile, ProfileStorePortError, host_valid}

pub data DatabaseEngine : Type 0 where
  postgre_sql my_sql : DatabaseEngine

pub record DatabaseVersion : Type 0 where
  pub major : ℕ
  pub minor : ℕ
  pub patch : ℕ

pub record DatabaseCapability : Type 0 where
  pub engine : DatabaseEngine
  pub server_version : DatabaseVersion
  pub dump_tool_version : DatabaseVersion

pub data DatabaseCapabilityProbeError : Type 0 where
  capability_unavailable capability_rejected : DatabaseCapabilityProbeError

pub data DatabasePreflightError : Type 0 where
  database_profile_store : ProfileStorePortError → DatabasePreflightError
  database_profile_not_found : DatabasePreflightError
  database_probe : DatabaseCapabilityProbeError → DatabasePreflightError
  incompatible_version no_capabilities invalid_version : DatabasePreflightError

-- `DatabaseVersion::new` and `is_valid`
unfoldable pub new_version : ℕ → ℕ → ℕ → Result DatabasePreflightError DatabaseVersion
new_version major minor patch =
    if ltb 0 major
    then ok (record { major = major; minor = minor; patch = patch })
    else err invalid_version

unfoldable pub is_valid_version : DatabaseVersion → Bool
is_valid_version self = ltb 0 self.major

unfoldable pub is_compatible : DatabaseCapability → Bool
is_compatible self = self.server_version.major == self.dump_tool_version.major

-- `DatabaseCapability::validate`
unfoldable pub validate_capability : DatabaseCapability → Result DatabasePreflightError (Unit {0})
validate_capability self =
    ensure (is_valid_version self.server_version && is_valid_version self.dump_tool_version)
      invalid_version

-- The loop of the preflight
unfoldable pub check_capabilities :
    List DatabaseCapability → Result DatabasePreflightError (Unit {0})
check_capabilities [] = ok tt
check_capabilities (capability ∷ rest) =
    let later = check_capabilities rest in
    validate_capability capability
    >> (if not (is_compatible capability) then err incompatible_version else later)

module _ (get_profile : ProfileId → Result ProfileStorePortError (Option VdsProfile))
    (probe : VdsProfile → Result DatabaseCapabilityProbeError (List DatabaseCapability)) where
  -- `DatabasePreflightUseCase::execute`
  unfoldable pub database_preflight :
      ProfileId → Result DatabasePreflightError (List DatabaseCapability)
  database_preflight profile_id = do
    found ← map_err database_profile_store (get_profile profile_id)
    profile ← ok_or found database_profile_not_found
    capabilities ← map_err database_probe (probe profile)
    ensure (not (is_empty capabilities)) no_capabilities
    check_capabilities capabilities
    ok capabilities

pub data DatabaseAuthentication : Type 0 where
  ssh_peer : DatabaseAuthentication
  credential_reference : CredentialId → DatabaseAuthentication

pub record DatabaseConnection : Type 0 where
  pub database_id : DatabaseId
  pub engine : DatabaseEngine
  pub host : Text
  pub port : ℕ
  pub database_name : Text
  pub authentication : DatabaseAuthentication

pub data DatabaseConnectionError : Type 0 where
  invalid_connection : DatabaseConnectionError

pub data DatabaseServerVersionProbeError : Type 0 where
  server_unavailable server_rejected : DatabaseServerVersionProbeError

pub data VerifyDatabaseConnectionError : Type 0 where
  connection_failed : DatabaseConnectionError → VerifyDatabaseConnectionError
  server_probe : DatabaseServerVersionProbeError → VerifyDatabaseConnectionError

unfoldable pub database_valid : Text → Bool
database_valid name =
    not (is_empty_text name)
    && leb (len name) 64
    && all (λ byte. is_alphanumeric byte || byte == b'_') (bytes name)

unfoldable pub authentication_valid : Text → DatabaseAuthentication → Bool
authentication_valid host ssh_peer = host == str "localhost" || host == str "127.0.0.1"
authentication_valid host (credential_reference credential_id) =
    not (is_empty_text credential_id.as_str)

-- `DatabaseConnection::validate`; its test of the host is that of an SSH endpoint.
unfoldable pub validate_connection : DatabaseConnection → Result DatabaseConnectionError (Unit {0})
validate_connection self =
    ensure
      (host_valid self.host
        && database_valid self.database_name
        && authentication_valid self.host self.authentication
        && not (self.port == 0))
      invalid_connection

module _
    (probe_server : DatabaseConnection
      → Result DatabaseServerVersionProbeError DatabaseVersion) where
  -- `VerifyDatabaseConnectionUseCase::execute`
  unfoldable pub verify_connection :
      DatabaseConnection → Result VerifyDatabaseConnectionError DatabaseVersion
  verify_connection connection = do
    map_err connection_failed (validate_connection connection)
    map_err server_probe (probe_server connection)
