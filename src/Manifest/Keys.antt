-- ===== src/Manifest/Keys.antt =====
-- The nonce and the wrapped recovery key of encryption metadata
-- (crates/guardian-core/src/manifest.rs).
use vds_guardian.Prelude.{◌≡◌, ◌↔◌, refl, Option, none, some, length, ok, >>_iff, subst, sym, ◌∙◌}
use vds_guardian.Text.{Text, Bytes}
use vds_guardian.Identifiers.{CredentialId}
use vds_guardian.Manifest.Entries.{
  PayloadEncryption, chunked_algorithm, nonce, recovery_wrapped_key, validate_encryption,
  new_encryption, with_recovery_wrapped_key,
}
use vds_guardian.Manifest.Valid.{IsValidEncryption, validate_encryption_iff}

some-injective : {x y : Bytes} → some x ≡ some y → x ≡ y
some-injective q = cc

module _ (decode : Text → Option Bytes) (base64 : Bytes → Text)
    (decode-base64 : (bs : Bytes) → decode (base64 bs) ≡ some bs) where
  -- If decoding undoes encoding, new encryption metadata with envelope version 1, the supported
  -- algorithm and a nonce of 12 bytes are accepted, give the nonce back, and have no recovery key.
  pub new_encryption_lem :
      (credential : CredentialId) (value : Bytes)
      → length value ≡ 12
      → (e : PayloadEncryption) × (new_encryption decode base64 1 chunked_algorithm credential value
          ≡ ok e)
        × (nonce decode e ≡ ok value)
        × (recovery_wrapped_key decode e ≡ ok none)
        × IsValidEncryption decode e
  unfolding new_encryption nonce recovery_wrapped_key
  new_encryption_lem credential value l =
      let e : PayloadEncryption = record {
        envelope_version = 1;
        algorithm = chunked_algorithm;
        credential_id = credential;
        nonce_base64 = base64 value;
        recovery_wrapped_key_base64 = none;
      } in
      let v : IsValidEncryption decode e = record {
        envelope_is_1 = refl;
        is_chunked = refl;
        nonce_decodes = (value, decode-base64 value, l);
        wrapped_decodes = tt;
      } in
      let checked = (validate_encryption_iff decode e).1 v in
      (e, rw checked refl, rw (decode-base64 value, l) refl, refl, v)

  -- A wrapped recovery key is attached to valid metadata exactly if it has 95 bytes.
  pub with_recovery_wrapped_key_iff :
      (e : PayloadEncryption) (wrapped : Bytes)
      → IsValidEncryption decode e
      → ((next : PayloadEncryption) × (with_recovery_wrapped_key decode base64 e wrapped ≡ ok next)
          × (recovery_wrapped_key decode next ≡ ok (some wrapped))
          × (nonce decode next ≡ nonce decode e))
        ↔ (length wrapped ≡ 95)
  unfolding with_recovery_wrapped_key recovery_wrapped_key nonce
  with_recovery_wrapped_key_iff e wrapped v =
      let next : PayloadEncryption = record {
        envelope_version = e.envelope_version;
        algorithm = e.algorithm;
        credential_id = e.credential_id;
        nonce_base64 = e.nonce_base64;
        recovery_wrapped_key_base64 = some (base64 wrapped);
      } in
      (
        λ (n, h, _, _).
            let checked = ((>>_iff (validate_encryption decode next) (ok next) n).0 h).0 in
            sized ((validate_encryption_iff decode next).0 checked).wrapped_decodes,
        λ l.
            let w : IsValidEncryption decode next = record {
              envelope_is_1 = v.envelope_is_1;
              is_chunked = v.is_chunked;
              nonce_decodes = v.nonce_decodes;
              wrapped_decodes = (wrapped, decode-base64 wrapped, l);
            } in
            let checked = (validate_encryption_iff decode next).1 w in
            (next, rw checked refl, rw (decode-base64 wrapped) refl, refl),
      )
    where
      sized :
          ((bs : Bytes) × (decode (base64 wrapped) ≡ some bs) × (length bs ≡ 95))
          → length wrapped ≡ 95
      sized (bs, d, l) =
          subst (λ x. length x ≡ 95) (some-injective (sym d ∙ decode-base64 wrapped)) l
