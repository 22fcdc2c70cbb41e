-- ===== src/Profile/Endpoints.antt =====
-- Which endpoints and profiles are accepted (crates/guardian-core/src/profile.rs), and what trusting
-- a host key changes (host_trust.rs).
use vds_guardian.Prelude.{
  ℕ, ◌≡◌, ◌≢◌, ◌≤◌, ◌⊎◌, refl, Bool, true, false, Option, [], ◌∷◌, ◌&&◌, ◌||◌, not, any, all, All,
  All-map, all→All, leb, ◌==◌, nat_eq, length, Result, ok, err, >>_iff, ensure_iff, err-ne-ok,
  ok-injective, arith, and-eq-true, subst,
}
use vds_guardian.Text.{
  Text, Bytes, str, bytes, len, is_empty_text, is_control, is_alphanumeric, is_one_of,
  starts_with_char, ends_with_char, contains_text, all-bytes_sound, AsciiOnly, length-le-len,
}
use vds_guardian.Profile.Defs.{
  HostPin, VdsProfile, ProfileError, invalid_profile_label, invalid_endpoint, host_valid,
  user_valid, validate_pin, validate_endpoint, validate_profile,
}
use vds_guardian.Profile.Ports.{EnrollmentPorts, ProfileStorePortError, trust_host_key, with_pin}

abbrev IsAlphanumeric : ℕ → Type 0
IsAlphanumeric c = ((b'0' ≤ c) × (c ≤ b'9')) ⊎ ((b'A' ≤ c) × (c ≤ b'Z')) ⊎ ((b'a' ≤ c) × (c ≤ b'z'))

abbrev pub IsHostChar : ℕ → Type 0
IsHostChar c = IsAlphanumeric c ⊎ (c ≡ b'.') ⊎ (c ≡ b'-')

abbrev pub IsUserChar : ℕ → Type 0
IsUserChar c = IsAlphanumeric c ⊎ (c ≡ b'.') ⊎ (c ≡ b'_') ⊎ (c ≡ b'-')

abbrev host_byte : ℕ → Bool
host_byte byte = is_alphanumeric byte || is_one_of (str ".-") byte

abbrev user_byte : ℕ → Bool
user_byte byte = is_alphanumeric byte || is_one_of (str "._-") byte

host_byte-AsciiOnly : AsciiOnly host_byte
host_byte-AsciiOnly c h = ground arith

user_byte-AsciiOnly : AsciiOnly user_byte
user_byte-AsciiOnly c h = ground arith

host_char : (c : ℕ) → host_byte c ≡ true → IsHostChar c
host_char c h = ground arith

user_char : (c : ℕ) → user_byte c ≡ true → IsUserChar c
user_char c h = ground arith

-- What an accepted host is: not empty and at most 253 characters of the host alphabet, neither end a
-- '-' or a '.', and no two dots in a row.
pub record IsHost (host : Text) : Type 0 where
  pub some_char : host ≢ []
  pub short : length host ≤ 253
  pub chars : All IsHostChar host
  pub starts_well : (starts_with_char b'-' host ≡ false) × (starts_with_char b'.' host ≡ false)
  pub ends_well : (ends_with_char b'-' host ≡ false) × (ends_with_char b'.' host ≡ false)
  pub single_dots : contains_text (str "..") host ≡ false

abbrev pub IsUser : Text → Type 0
IsUser user = (user ≢ []) × (length user ≤ 64) × All IsUserChar user

pub host_valid-IsHost : (host : Text) → host_valid host ≡ true → IsHost host
unfolding host_valid
host_valid-IsHost [] h = cc
host_valid-IsHost (c ∷ t) h =
    let (a, chars) =
      and-eq-true
        (leb (len (c ∷ t)) 253
          && not (starts_with_char b'-' (c ∷ t) || starts_with_char b'.' (c ∷ t))
          && not (ends_with_char b'-' (c ∷ t) || ends_with_char b'.' (c ∷ t))
          && not (contains_text (str "..") (c ∷ t)))
        (all host_byte (bytes (c ∷ t))) h in
    let (ascii, ok_chars) = all-bytes_sound host_byte (c ∷ t) host_byte-AsciiOnly chars in
    let short : len (c ∷ t) ≤ 253 = ground arith in
    record {
      some_char = (λ e. cc);
      short = omega (arith, length-le-len (c ∷ t));
      chars = All-map host_char (c ∷ t) (all→All host_byte (c ∷ t) ok_chars);
      starts_well = (ground arith, ground arith);
      ends_well = (ground arith, ground arith);
      single_dots = ground arith;
    }

pub user_valid-IsUser : (user : Text) → user_valid user ≡ true → IsUser user
unfolding user_valid
user_valid-IsUser [] h = cc
user_valid-IsUser (c ∷ t) h =
    let (a, chars) = and-eq-true (leb (len (c ∷ t)) 64) (all user_byte (bytes (c ∷ t))) h in
    let (ascii, ok_chars) = all-bytes_sound user_byte (c ∷ t) user_byte-AsciiOnly chars in
    let short : len (c ∷ t) ≤ 64 = ground arith in
    (
      (λ e. cc),
      omega (arith, length-le-len (c ∷ t)),
      All-map user_char (c ∷ t) (all→All user_byte (c ∷ t) ok_chars),
    )

module _ (decode : Text → Option Bytes) where
  -- An accepted profile has a label of 1 to 128 bytes without control characters, a host and a user
  -- of their alphabets only, so without spaces, slashes, '@' or ':', a port, and a valid host pin.
  pub validate_profile_sound :
      (profile : VdsProfile)
      → validate_profile decode profile ≡ ok tt
      → ((profile.label ≢ []) × (len profile.label ≤ 128) × (any is_control profile.label ≡ false))
        × IsHost profile.endpoint.host
        × IsUser profile.endpoint.user
        × (profile.endpoint.port ≢ 0)
        × (validate_pin decode profile.endpoint.host_pin ≡ ok tt)
  unfolding validate_profile validate_endpoint
  validate_profile_sound profile h =
      let (h1, k1) = (>>_iff _ _ tt).0 h in
      let (h2, h3) = (>>_iff _ _ tt).0 k1 in
      let (x, y) =
        and-eq-true (host_valid profile.endpoint.host && user_valid profile.endpoint.user)
          (not (profile.endpoint.port == 0)) ((ensure_iff _ invalid_endpoint).0 h2) in
      let (host, user) =
        and-eq-true (host_valid profile.endpoint.host) (user_valid profile.endpoint.user) x in
      (
        label_sound profile.label ((ensure_iff _ invalid_profile_label).0 h1),
        host_valid-IsHost profile.endpoint.host host,
        user_valid-IsUser profile.endpoint.user user,
        (λ e. ground arith),
        h3,
      )
    where
      label_sound :
          (l : Text)
          → (not (is_empty_text l) && leb (len l) 128 && not (any is_control l)) ≡ true
          → (l ≢ []) × (len l ≤ 128) × (any is_control l ≡ false)
      label_sound [] h = cc
      label_sound (c ∷ l) h = ((λ e. cc), ground arith, ground arith)

  -- A host key is trusted only after confirmation. The profile that is then returned is the one that
  -- was saved: valid, with the discovered pin, and the same in everything else. If nothing is
  -- confirmed, the store is as before.
  pub trust_host_key-ok :
      {S P : Type 0} (ports : EnrollmentPorts S P) (p : P) (profile pinned : VdsProfile)
      (discovered : HostPin) (confirmed : Bool)
      → (trust_host_key ports decode p profile discovered confirmed).1 ≡ ok pinned
      → (confirmed ≡ true)
        × (with_pin discovered profile ≡ pinned)
        × (validate_profile decode pinned ≡ ok tt)
        × ((ports.save_profile p pinned).1 ≡ ok tt)
        × ((trust_host_key ports decode p profile discovered confirmed).0
            ≡ (ports.save_profile p pinned).0)
  unfolding trust_host_key
  trust_host_key-ok ports p profile pinned discovered false h = absurd (err-ne-ok h)
  trust_host_key-ok {S} {P} ports p profile pinned discovered true h =
      by_checked (validate_profile decode (with_pin discovered profile)) refl
    where
      Trusted : VdsProfile → Type 0
      Trusted r =
          (true ≡ true)
          × (with_pin discovered profile ≡ r)
          × (validate_profile decode r ≡ ok tt)
          × ((ports.save_profile p r).1 ≡ ok tt)
          × ((trust_host_key ports decode p profile discovered true).0 ≡ (ports.save_profile p r).0)

      by_saved :
          (r : Result ProfileStorePortError (Unit {0}))
          → validate_profile decode (with_pin discovered profile) ≡ ok tt
          → (ports.save_profile p (with_pin discovered profile)).1 ≡ r
          → Trusted pinned
      by_saved (err x) v q = absurd (err-ne-ok (rw (v, q, trust_host_key) at h))
      by_saved (ok u) v q =
          subst Trusted (ok-injective (rw (v, q, trust_host_key) at h))
            (refl, refl, v, q, rw (v, trust_host_key) refl)

      by_checked :
          (r : Result ProfileError (Unit {0}))
          → validate_profile decode (with_pin discovered profile) ≡ r
          → Trusted pinned
      by_checked (err x) v = absurd (err-ne-ok (rw (v, trust_host_key) at h))
      by_checked (ok u) v = by_saved (ports.save_profile p (with_pin discovered profile)).1 v refl
