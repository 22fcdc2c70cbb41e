-- ===== src/Profile/Tests.antt =====
-- Runs of the profile checks and of the enrollment on concrete inputs.
use vds_guardian.Prelude.{
  ℕ, ◌≡◌, ◌≢◌, ◌≤◌, ◌↔◌, inl, inr, refl, Bool, true, false, Bool-cases, all, All, all→All, All-map,
  any, ltb, none, some, ok, err, Option, List, [], ◌∷◌, if◌then◌else◌, arith, list_beq, ◌<◌, ap,
}
use vds_guardian.Text.{
  Text, Bytes, str, len, bytes, encode, is_control, contains_text, starts_with, strip_prefix,
}
use vds_guardian.Profile.{
  HostPin, VdsProfile, validate_pin, announced_length, validate_profile, validate_endpoint,
  host_valid, user_valid, invalid_host_pin, EnrollmentPorts, tar_zstd_unsupported,
  enroll_verified_profile, verify_and_save, trust_host_key,
}
use vds_guardian.Profile.HostKeys.{IsByte, IsKeyPin, validate_pin_iff}
use vds_guardian.Profile.Endpoints.{IsHost, IsUser, validate_profile_sound}
use vds_guardian.Profile.Enrollment.{LeavesNoSecret, enroll_verified_profile-LeavesNoSecret}
use vds_guardian.Profile.Saved.{IsEnrolled, enroll_verified_profile-ok}

-- A decoder that gives the characters, if they are bytes.
abbrev decode : Text → Option Bytes
decode t = if all (λ b. ltb b 256) t then some t else none

decode-IsByte : (t : Text) (bs : Bytes) → decode t ≡ some bs → All IsByte bs
decode-IsByte t bs h = elim (Bool-cases (all (λ b. ltb b 256) t)) [
  | inl y ↦ rw (some-eq (rw y at h)) (All-map (λ b e. byte_of b e) t (all→All (λ b. ltb b 256) t y))
  | inr n ↦ absurd (none-ne (rw n at h))
]
  where
    some-eq : {x z : Bytes} → some x ≡ some z → z ≡ x
    some-eq e = cc

    none-ne : {x : Bytes} → none ≡ some x → ⊥
    none-ne e = cc

    byte_of : (b : ℕ) → ltb b 256 ≡ true → b < 256
    byte_of b e = ground arith

abbrev ed25519_pin : HostPin
ed25519_pin = record {
  algorithm = str "ssh-ed25519";
  public_key_base64 =
      0 ∷ 0 ∷ 0 ∷ 11 ∷ 115 ∷ 115 ∷ 104 ∷ 45 ∷ 101 ∷ 100 ∷ 50 ∷ 53 ∷ 53 ∷ 49 ∷ 57 ∷ 1 ∷ [];
}

abbrev profile : VdsProfile
profile = record {
  profile_id = record { as_str = str "profile-1" };
  label = str "VDS";
  endpoint = record {
    host = str "vds.example";
    port = 22;
    user = str "backup";
    host_pin = ed25519_pin;
  };
  credential_id = record { as_str = str "credential-1" };
  auth_kind = none;
}

-- One secret and a list of profiles; deleting always succeeds.
abbrev ports_with : Bool → EnrollmentPorts (Option Bytes) (List VdsProfile)
ports_with can_capture = record {
  load_secret = λ s id. ok s;
  store_secret = λ s id secret. (some secret, ok tt);
  delete_secret = λ s id. (none, ok tt);
  save_profile = λ p profile. (profile ∷ p, ok tt);
  get_profile = λ p id. ok none;
  probe = λ profile. ok (record { tar_zstd = can_capture });
}

accepts_pin : validate_pin decode ed25519_pin ≡ ok tt
unfolding validate_pin announced_length bytes encode list_beq
accepts_pin = refl

-- A key that claims to be of another algorithm is rejected.
rejects_pin :
    validate_pin decode (record {
      algorithm = str "ecdsa-sha2-nistp256";
      public_key_base64 = ed25519_pin.public_key_base64;
    })
    ≡ err invalid_host_pin
unfolding validate_pin announced_length bytes encode list_beq
rejects_pin = refl

accepts_profile : validate_profile decode profile ≡ ok tt
unfolding validate_profile validate_endpoint host_valid user_valid validate_pin announced_length
    contains_text starts_with strip_prefix len bytes encode list_beq
accepts_profile = refl

enrolls :
    enroll_verified_profile (ports_with true) decode none [] profile (1 ∷ [])
    ≡ ((some (1 ∷ []), profile ∷ []), ok tt)
unfolding enroll_verified_profile verify_and_save validate_profile validate_endpoint host_valid
    user_valid validate_pin announced_length contains_text starts_with strip_prefix len bytes encode
    list_beq
enrolls = refl

rolls_back :
    enroll_verified_profile (ports_with false) decode none [] profile (1 ∷ [])
    ≡ ((none, []), err tar_zstd_unsupported)
unfolding enroll_verified_profile verify_and_save validate_profile validate_endpoint host_valid
    user_valid validate_pin announced_length contains_text starts_with strip_prefix len bytes encode
    list_beq
rolls_back = refl

rolls_back_answer :
    (enroll_verified_profile (ports_with false) decode none [] profile (1 ∷ [])).1
    ≡ err tar_zstd_unsupported
rolls_back_answer = ap (λ r. r.1) rolls_back

enrolls_answer :
    (enroll_verified_profile (ports_with true) decode none [] profile (1 ∷ [])).1 ≡ ok tt
enrolls_answer = ap (λ r. r.1) enrolls

trusts :
    trust_host_key (ports_with true) decode [] profile ed25519_pin true ≡ (profile ∷ [], ok profile)
unfolding trust_host_key validate_profile validate_endpoint host_valid user_valid validate_pin
    announced_length contains_text starts_with strip_prefix len bytes encode list_beq
trusts = refl

trusts_answer : (trust_host_key (ports_with true) decode [] profile ed25519_pin true).1 ≡ ok profile
trusts_answer = ap (λ r. r.1) trusts

validate_pin_iff_example :
    (validate_pin decode ed25519_pin ≡ ok tt) ↔ IsKeyPin decode decode-IsByte ed25519_pin
validate_pin_iff_example = validate_pin_iff decode decode-IsByte ed25519_pin

validate_profile_sound_example :
    ((profile.label ≢ []) × (len profile.label ≤ 128) × (any is_control profile.label ≡ false))
    × IsHost profile.endpoint.host
    × IsUser profile.endpoint.user
    × (profile.endpoint.port ≢ 0)
    × (validate_pin decode profile.endpoint.host_pin ≡ ok tt)
validate_profile_sound_example = validate_profile_sound decode profile accepts_profile

enroll_verified_profile-LeavesNoSecret_example :
    LeavesNoSecret
      (ports_with false)
      (λ s id h. refl)
      none
      profile.credential_id
      (enroll_verified_profile (ports_with false) decode none [] profile (1 ∷ [])).0.0
      tar_zstd_unsupported
enroll_verified_profile-LeavesNoSecret_example =
    enroll_verified_profile-LeavesNoSecret (ports_with false) (λ s id h. refl) decode none []
      profile (1 ∷ []) tar_zstd_unsupported rolls_back_answer

enroll_verified_profile-ok_example :
    (validate_profile decode profile ≡ ok tt)
    × IsEnrolled
        (ports_with true)
        none
        []
        profile
        (1 ∷ [])
        (enroll_verified_profile (ports_with true) decode none [] profile (1 ∷ [])).0.0
        (enroll_verified_profile (ports_with true) decode none [] profile (1 ∷ [])).0.1
enroll_verified_profile-ok_example =
    enroll_verified_profile-ok (ports_with true) decode none [] profile (1 ∷ []) enrolls_answer
