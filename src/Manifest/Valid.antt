-- ===== src/Manifest/Valid.antt =====
-- Which payload entries are valid (crates/guardian-core/src/manifest.rs).
use vds_guardian.Prelude.{
  ℕ, ◌≡◌, ◌≢◌, ◌≤◌, ◌↔◌, refl, true, false, Option, none, some, [], ◌∷◌, ◌++◌, ◌&&◌, any, ◌==◌,
  nat_eq, list_eq, ==→eq, length, Result, ok, ◌>>=◌, ◌>>◌, >>_iff, >>=-eq-ok, ensure, ensure_iff,
  ok_or, err-ne-ok, ok-injective, arith, and-eq-true, subst,
}
use vds_guardian.Text.{Text, Bytes, str, len, is_control, starts_with_iff, ends_with}
use vds_guardian.Identifiers.{PayloadPath}
use vds_guardian.Manifest.Entries.{
  ManifestError, invalid_label, invalid_sha256, invalid_payload_path, encryption_policy,
  validate_label, is_sha256, PayloadEncryption, PayloadEntry, chunked_algorithm, nonce,
  recovery_wrapped_key, check_wrapped, validate_encryption, check_encryption, validate_entry,
}

-- A non-empty text of at most 128 bytes without control characters.
abbrev pub IsLabel : Text → Type 0
IsLabel v = (v ≢ []) × (len v ≤ 128) × (any is_control v ≡ false)

pub validate_label_iff : (v : Text) → (validate_label v ≡ ok tt) ↔ IsLabel v
unfolding validate_label
validate_label_iff [] = (λ h. absurd (ground arith), λ v. absurd (v.0 refl))
validate_label_iff (c ∷ v) = (
  λ h. let t = (ensure_iff _ invalid_label).0 h in ((λ e. cc), ground arith, ground arith),
  λ (_, l, f). (ensure_iff _ invalid_label).1 (ground arith),
)

module _ (decode : Text → Option Bytes) where
  -- The text decodes to so many bytes.
  abbrev pub Decodes : Text → ℕ → Type 0
  Decodes t n = (bs : Bytes) × (decode t ≡ some bs) × (length bs ≡ n)

  abbrev pub WrappedKeyDecodes : Option Text → Type 0
  WrappedKeyDecodes none = Unit {0}
  WrappedKeyDecodes (some t) = Decodes t 95

  pub record IsValidEncryption (e : PayloadEncryption) : Type 0 where
    pub envelope_is_1 : e.envelope_version ≡ 1
    pub is_chunked : e.algorithm ≡ chunked_algorithm
    pub nonce_decodes : Decodes e.nonce_base64 12
    pub wrapped_decodes : WrappedKeyDecodes e.recovery_wrapped_key_base64

  size_ensured :
      (o : Option Bytes) (n : ℕ) {A : Type 0} (f : Bytes → Result ManifestError A) (a : A)
      → (ok_or o encryption_policy >>= λ bs. ensure (length bs == n) encryption_policy >> f bs)
        ≡ ok a
      → (bs : Bytes) × (o ≡ some bs) × (length bs ≡ n) × (f bs ≡ ok a)
  size_ensured none n f a h = absurd (err-ne-ok h)
  size_ensured (some bs) n f a h =
      let (x, y) = (>>_iff _ (f bs) a).0 h in
      (bs, refl, ==→eq (length bs) n ((ensure_iff _ encryption_policy).0 x), y)

  nonce_iff :
      (e : PayloadEncryption) (bs : Bytes)
      → (nonce decode e ≡ ok bs) ↔ ((decode e.nonce_base64 ≡ some bs) × (length bs ≡ 12))
  unfolding nonce
  nonce_iff e bs = (
    λ h.
        let (b, d, l, k) = size_ensured (decode e.nonce_base64) 12 ok bs h in
        let same : b ≡ bs = ok-injective k in
        (subst (λ x. decode e.nonce_base64 ≡ some x) same d, subst (λ x. length x ≡ 12) same l),
    λ (d, l). rw (d, l) refl,
  )

  wrapped_sound :
      (o : Option Text) (e : PayloadEncryption)
      → e.recovery_wrapped_key_base64 ≡ o
      → (recovery_wrapped_key decode e >>= check_wrapped decode) ≡ ok tt
      → WrappedKeyDecodes o
  unfolding recovery_wrapped_key
  wrapped_sound none e q h = tt
  wrapped_sound (some t) e q h = decoded (decode t) refl (rw q at h)
    where
      decoded :
          (d : Option Bytes)
          → decode t ≡ d
          → ((ok_or (decode t) encryption_policy >>= λ w. ok (some w)) >>= check_wrapped decode)
            ≡ ok tt
          → Decodes t 95
      decoded none q h = absurd (err-ne-ok (rw q at h))
      decoded (some w) q h =
          (w, q, ==→eq (length w) 95 ((ensure_iff _ encryption_policy).0 (rw q at h)))

  wrapped_complete :
      (o : Option Text) (e : PayloadEncryption)
      → e.recovery_wrapped_key_base64 ≡ o
      → WrappedKeyDecodes o
      → (recovery_wrapped_key decode e >>= check_wrapped decode) ≡ ok tt
  unfolding recovery_wrapped_key
  wrapped_complete none e q v = rw q refl
  wrapped_complete (some t) e q (w, d, l) = rw (q, d, l) refl

  -- Encryption metadata is accepted exactly when it says envelope version 1 and the one supported
  -- algorithm, its nonce decodes to 12 bytes, and the wrapped recovery key, where there is one, to
  -- 95 bytes.
  pub validate_encryption_iff :
      (e : PayloadEncryption) → (validate_encryption decode e ≡ ok tt) ↔ IsValidEncryption e
  unfolding validate_encryption
  validate_encryption_iff e = (sound, complete)
    where
      sound : validate_encryption decode e ≡ ok tt → IsValidEncryption e
      sound h =
          let (h1, k1) = (>>_iff _ _ tt).0 h in
          let (x, y) =
            and-eq-true (e.envelope_version == 1) (e.algorithm == chunked_algorithm)
              ((ensure_iff _ encryption_policy).0 h1) in
          let (bs, n, k2) = >>=-eq-ok (nonce decode e) _ k1 in
          let (d, l) = (nonce_iff e bs).0 n in
          record {
            envelope_is_1 = ==→eq e.envelope_version 1 x;
            is_chunked = ==→eq e.algorithm chunked_algorithm y;
            nonce_decodes = (bs, d, l);
            wrapped_decodes = wrapped_sound e.recovery_wrapped_key_base64 e refl k2;
          }

      complete : IsValidEncryption e → validate_encryption decode e ≡ ok tt
      complete v =
          let (bs, d, l) = v.nonce_decodes in
          let n : nonce decode e ≡ ok bs = (nonce_iff e bs).1 (d, l) in
          let x : (e.envelope_version == 1) ≡ true =
            (nat_eq.beq_iff e.envelope_version 1).1 v.envelope_is_1 in
          let y : (e.algorithm == chunked_algorithm) ≡ true =
            (list_eq.beq_iff e.algorithm chunked_algorithm).1 v.is_chunked in
          let test : (e.envelope_version == 1 && e.algorithm == chunked_algorithm) ≡ true =
            rw (x, y) refl in
          (>>_iff _ _ tt).1 (
            (ensure_iff _ encryption_policy).1 test,
            rw n (wrapped_complete e.recovery_wrapped_key_base64 e refl v.wrapped_decodes),
          )

  abbrev pub EncryptionFits : PayloadPath → Option PayloadEncryption → Type 0
  EncryptionFits path none = Unit {0}
  EncryptionFits path (some e) = IsValidEncryption e × (ends_with (str ".enc") path.as_str ≡ true)

  pub record IsValidEntry (e : PayloadEntry) : Type 0 where
    pub under_payload : (rest : Text) × (e.path.as_str ≡ str "payload/" ++ rest)
    pub role_IsLabel : IsLabel e.logical_role
    pub media_IsLabel : IsLabel e.media_type
    pub digest_is_sha256 : is_sha256 e.sha256 ≡ true
    pub encryption_fits : EncryptionFits e.path e.encryption

  check_encryption_iff :
      (path : PayloadPath) (o : Option PayloadEncryption)
      → (check_encryption decode path o ≡ ok tt) ↔ EncryptionFits path o
  check_encryption_iff path none = (λ h. tt, λ h. refl)
  check_encryption_iff path (some e) = (
    λ h.
        let (a, b) = (>>_iff _ _ tt).0 h in
        ((validate_encryption_iff e).0 a, (ensure_iff _ encryption_policy).0 b),
    λ (v, x).
        (>>_iff _ _ tt).1 ((validate_encryption_iff e).1 v, (ensure_iff _ encryption_policy).1 x),
  )

  -- A payload entry is accepted exactly when its path is under payload/, its role and its media
  -- type are labels, its digest is 64 hexadecimal characters, and, if it is encrypted, the
  -- metadata are valid and the path ends in .enc.
  pub validate_entry_iff : (e : PayloadEntry) → (validate_entry decode e ≡ ok tt) ↔ IsValidEntry e
  unfolding validate_entry
  validate_entry_iff e = (
    λ h.
        let (h1, k1) = (>>_iff _ _ tt).0 h in
        let (h2, k2) = (>>_iff _ _ tt).0 k1 in
        let (h3, k3) = (>>_iff _ _ tt).0 k2 in
        let (h4, h5) = (>>_iff _ _ tt).0 k3 in
        record {
          under_payload =
              (starts_with_iff _ e.path.as_str).0 ((ensure_iff _ invalid_payload_path).0 h1);
          role_IsLabel = (validate_label_iff e.logical_role).0 h2;
          media_IsLabel = (validate_label_iff e.media_type).0 h3;
          digest_is_sha256 = (ensure_iff _ invalid_sha256).0 h4;
          encryption_fits = (check_encryption_iff e.path e.encryption).0 h5;
        },
    λ v. (>>_iff _ _ tt).1 (
      (ensure_iff _ invalid_payload_path).1 ((starts_with_iff _ e.path.as_str).1 v.under_payload),
      (>>_iff _ _ tt).1 (
        (validate_label_iff e.logical_role).1 v.role_IsLabel,
        (>>_iff _ _ tt).1 (
          (validate_label_iff e.media_type).1 v.media_IsLabel,
          (>>_iff _ _ tt).1 (
            (ensure_iff _ invalid_sha256).1 v.digest_is_sha256,
            (check_encryption_iff e.path e.encryption).1 v.encryption_fits,
          ),
        ),
      ),
    ),
  )
