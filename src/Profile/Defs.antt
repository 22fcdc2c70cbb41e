-- ===== src/Profile/Defs.antt =====
-- The profile of a server and its validation (crates/guardian-core/src/profile.rs).
use vds_guardian.Prelude.{
  ℕ, ◌+◌, ◌*◌, ◌-◌, Bool, Option, none, some, List, [], ◌∷◌, ◌++◌, ◌&&◌, ◌||◌, not, any, all, leb,
  ltb, ◌==◌, nat_eq, list_eq, option_eq, length, take, drop, Result, ok, ◌>>=◌, ◌>>◌, ensure, ok_or,
  if◌then◌else◌,
}
use vds_guardian.Text.{
  Text, Bytes, str, bytes, len, is_empty_text, is_control, is_alphanumeric, is_one_of,
  starts_with_char, ends_with_char, contains_text,
}
use vds_guardian.Identifiers.{ProfileId, CredentialId}

pub data AuthKind : Type 0 where
  ssh_key ssh_agent password : AuthKind

pub record HostPin : Type 0 where
  pub algorithm : Text
  pub public_key_base64 : Text

pub record SshEndpoint : Type 0 where
  pub host : Text
  pub port : ℕ
  pub user : Text
  pub host_pin : HostPin

pub record VdsProfile : Type 0 where
  pub profile_id : ProfileId
  pub label : Text
  pub endpoint : SshEndpoint
  pub credential_id : CredentialId
  pub auth_kind : Option AuthKind

pub data ProfileError : Type 0 where
  invalid_profile_label invalid_endpoint invalid_host_pin : ProfileError

abbrev pub known_algorithms : List Text
known_algorithms =
    str "ssh-ed25519"
    ∷ str "ecdsa-sha2-nistp256"
    ∷ str "ecdsa-sha2-nistp384"
    ∷ str "ecdsa-sha2-nistp521"
    ∷ []

-- `bytes.get(from..to)`, for `from` at most `to`
abbrev pub get_range : Bytes → ℕ → ℕ → Option Bytes
get_range bs from to = if leb to (length bs) then some (take (to - from) (drop from bs)) else none

-- `u32::from_be_bytes` of the first four bytes
unfoldable pub announced_length : Bytes → Option ℕ
announced_length (b0 ∷ b1 ∷ b2 ∷ b3 ∷ rest) = some (b0 * 0x1000000 + b1 * 0x10000 + b2 * 0x100 + b3)
announced_length _ = none

unfoldable pub host_valid : Text → Bool
host_valid host =
    not (is_empty_text host)
    && leb (len host) 253
    && not (starts_with_char b'-' host || starts_with_char b'.' host)
    && not (ends_with_char b'-' host || ends_with_char b'.' host)
    && not (contains_text (str "..") host)
    && all (λ byte. is_alphanumeric byte || is_one_of (str ".-") byte) (bytes host)

unfoldable pub user_valid : Text → Bool
user_valid user =
    not (is_empty_text user)
    && leb (len user) 64
    && all (λ byte. is_alphanumeric byte || is_one_of (str "._-") byte) (bytes user)

-- The base64 decoder and SHA-256 are third-party code.
module _ (decode : Text → Option Bytes) where
  unfoldable pub validate_pin : HostPin → Result ProfileError (Unit {0})
  validate_pin self = do
    let algorithm_valid = any (λ name. self.algorithm == name) known_algorithms
    decoded ← ok_or (decode self.public_key_base64) invalid_host_pin
    size ← ok_or (announced_length decoded) invalid_host_pin
    ensure
        (algorithm_valid
          && (get_range decoded 4 (4 + size) == some (bytes self.algorithm)
              && ltb (4 + size) (length decoded)))
        invalid_host_pin

  unfoldable pub parse_pin : Text → Text → Result ProfileError HostPin
  parse_pin algorithm public_key_base64 = do
    let pin : HostPin = record { algorithm = algorithm; public_key_base64 = public_key_base64 }
    validate_pin pin
    ok pin

  unfoldable pub validate_endpoint : SshEndpoint → Result ProfileError (Unit {0})
  validate_endpoint self = do
    ensure (host_valid self.host && user_valid self.user && not (self.port == 0)) invalid_endpoint
    validate_pin self.host_pin

  unfoldable pub validate_profile : VdsProfile → Result ProfileError (Unit {0})
  validate_profile self = do
    ensure
        (not (is_empty_text self.label)
          && leb (len self.label) 128
          && not (any is_control self.label))
        invalid_profile_label
    validate_endpoint self.endpoint

-- `format!("SHA256:{:x}", Sha256::digest(…))`; the digest is given in hexadecimal
unfoldable pub host_key_fingerprint : (Bytes → Text) → Text → Text
host_key_fingerprint sha256 public_key_base64 = str "SHA256:" ++ sha256 (bytes public_key_base64)
