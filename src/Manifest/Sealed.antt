-- ===== src/Manifest/Sealed.antt =====
-- How a manifest is sealed (crates/guardian-core/src/manifest.rs).
use vds_guardian.Prelude.{
  ◌≡◌, ◌↔◌, refl, true, Option, none, some, ◌||◌, not, is_some, Result, ok, err, ◌>>◌, >>_iff,
  >>=-eq-ok, ensure_iff, ok_or, err-ne-ok, ok-injective, arith, subst, sym, ap,
}
use vds_guardian.Text.{Text, Bytes}
use vds_guardian.Identifiers.{Timestamp}
use vds_guardian.Manifest.Entries.{ManifestError, already_finalized, not_sealed, validate_label}
use vds_guardian.Manifest.Defs.{
  Manifest, VerificationState, pending, verified, is_pending, SignatureMetadata, validate_common,
  validate_for_verification, validate_sealed, prepare_for_seal, with_seal,
}
use vds_guardian.Manifest.Valid.{IsLabel, validate_label_iff}
use vds_guardian.Manifest.Sealing.{IsValidManifest, validate_common_iff}

-- Nothing of a seal is there yet.
abbrev pub IsFresh : Manifest → Type 0
IsFresh m = (m.verification_state ≡ pending) × (m.sealed_at ≡ none) × (m.signature ≡ none)

abbrev pub IsSealedBy : Manifest → Timestamp → SignatureMetadata → Type 0
IsSealedBy m at_time signature =
    (m.verification_state ≡ verified)
    × (m.sealed_at ≡ some at_time)
    × (m.signature ≡ some signature)

-- All that a seal does not write is the same.
pub record Keeps (m sealed : Manifest) : Type 0 where
  pub format_version : sealed.format_version ≡ m.format_version
  pub backup_id : sealed.backup_id ≡ m.backup_id
  pub run_id : sealed.run_id ≡ m.run_id
  pub created_at : sealed.created_at ≡ m.created_at
  pub producer : sealed.producer ≡ m.producer
  pub source : sealed.source ≡ m.source
  pub plan : sealed.plan ≡ m.plan
  pub consistency : sealed.consistency ≡ m.consistency
  pub payloads : sealed.payloads ≡ m.payloads
  pub warnings : sealed.warnings ≡ m.warnings
  pub source_layout : sealed.source_layout ≡ m.source_layout

-- The time, the state and the two names are written, and nothing else is changed.
with_seal_iff :
    (m sealed : Manifest) (at_time : Timestamp) (algorithm key_id : Text)
    → (with_seal at_time algorithm key_id m ≡ sealed) ↔ (
        IsSealedBy sealed at_time (record { algorithm = algorithm; key_id = key_id })
        × Keeps m sealed)
with_seal_iff m sealed at_time algorithm key_id = (
  λ e.
      subst
        (λ s. IsSealedBy s at_time (record { algorithm = algorithm; key_id = key_id }) × Keeps m s)
        e ((refl, refl, refl), kept),
  λ ((v, t, g), k). λ i. record {
    format_version = sym k.format_version i;
    backup_id = sym k.backup_id i;
    run_id = sym k.run_id i;
    created_at = sym k.created_at i;
    producer = sym k.producer i;
    source = sym k.source i;
    plan = sym k.plan i;
    consistency = sym k.consistency i;
    payloads = sym k.payloads i;
    warnings = sym k.warnings i;
    source_layout = sym k.source_layout i;
    sealed_at = sym t i;
    verification_state = sym v i;
    signature = sym g i;
  },
)
  where
    kept : Keeps m (with_seal at_time algorithm key_id m)
    kept = record {
      format_version = refl;
      backup_id = refl;
      run_id = refl;
      created_at = refl;
      producer = refl;
      source = refl;
      plan = refl;
      consistency = refl;
      payloads = refl;
      warnings = refl;
      source_layout = refl;
    }

fresh_iff :
    (s : VerificationState) (t : Option Timestamp) (g : Option SignatureMetadata)
    → (not (not (is_pending s) || is_some t || is_some g) ≡ true)
      ↔ ((s ≡ pending) × (t ≡ none) × (g ≡ none))
fresh_iff pending none none = (λ h. (refl, refl, refl), λ h. refl)
fresh_iff pending none (some g) = (λ h. absurd (ground arith), λ (_, _, e). absurd (ground arith))
fresh_iff pending (some t) g = (λ h. absurd (ground arith), λ (_, e, _). absurd (ground arith))
fresh_iff verified t g = (λ h. absurd (ground arith), λ (e, _, _). absurd (ground arith))

sealed_iff :
    (s : VerificationState) (t : Option Timestamp)
    → (not (is_pending s || not (is_some t)) ≡ true)
      ↔ ((s ≡ verified) × ((x : Timestamp) × (t ≡ some x)))
sealed_iff verified (some t) = (λ h. (refl, (t, refl)), λ h. refl)
sealed_iff verified none = (λ h. absurd (ground arith), λ (_, (x, e)). absurd (ground arith))
sealed_iff pending t = (λ h. absurd (ground arith), λ (e, _). absurd (ground arith))

module _ (decode : Text → Option Bytes) where
  pub validate_for_verification_iff :
      (m : Manifest)
      → (validate_for_verification decode m ≡ ok tt) ↔ (IsValidManifest decode m × IsFresh m)
  unfolding validate_for_verification
  validate_for_verification_iff m = (
    λ h.
        let (a, b) = (>>_iff _ _ tt).0 h in
        (
          (validate_common_iff decode m).0 a,
          (fresh_iff m.verification_state m.sealed_at m.signature).0
              ((ensure_iff _ already_finalized).0 b),
        ),
    λ (v, f). (>>_iff _ _ tt).1 (
      (validate_common_iff decode m).1 v,
      (ensure_iff _ already_finalized).1
          ((fresh_iff m.verification_state m.sealed_at m.signature).1 f),
    ),
  )

  -- A manifest passes as sealed exactly when it is valid, marked verified, and has a seal time and
  -- a signature whose two texts are labels.
  pub validate_sealed_iff :
      (m : Manifest)
      → (validate_sealed decode m ≡ ok tt) ↔ (
          IsValidManifest decode m
          × ((at_time : Timestamp) × (g : SignatureMetadata) × IsSealedBy m at_time g
              × IsLabel g.algorithm
              × IsLabel g.key_id))
  unfolding validate_sealed
  validate_sealed_iff m = (
    λ h.
        let (a, k) = (>>_iff _ _ tt).0 h in
        let (g, e, k1) = >>=-eq-ok (ok_or m.signature not_sealed) _ k in
        let (h1, k2) = (>>_iff _ _ tt).0 k1 in
        let (h2, h3) = (>>_iff _ _ tt).0 k2 in
        let (s, (t, q)) =
          (sealed_iff m.verification_state m.sealed_at).0 ((ensure_iff _ not_sealed).0 h1) in
        (
          (validate_common_iff decode m).0 a,
          (
            t,
            g,
            (s, q, ok_or-eq m.signature g e),
            (validate_label_iff g.algorithm).0 h2,
            (validate_label_iff g.key_id).0 h3,
          ),
        ),
    λ (v, (t, g, (s, q, e), l1, l2)). (>>_iff _ _ tt).1 (
      (validate_common_iff decode m).1 v,
      rw e (
          (>>_iff _ _ tt).1 (
            (ensure_iff _ not_sealed).1
                ((sealed_iff m.verification_state m.sealed_at).1 (s, (t, q))),
            (>>_iff _ _ tt).1
                ((validate_label_iff g.algorithm).1 l1, (validate_label_iff g.key_id).1 l2),
          )),
    ),
  )
    where
      ok_or-eq :
          (o : Option SignatureMetadata) (g : SignatureMetadata)
          → ok_or o not_sealed ≡ ok g
          → o ≡ some g
      ok_or-eq none g h = absurd (err-ne-ok h)
      ok_or-eq (some x) g h = ap some (ok-injective h)

  -- Sealing succeeds, with a given result, exactly if the algorithm and the key are labels, the manifest
  -- is valid and fresh, and the result is verified, has the given time and a signature of
  -- these two names, and agrees with the manifest in every other field.
  pub prepare_for_seal_iff :
      (m sealed : Manifest) (at_time : Timestamp) (algorithm key_id : Text)
      → (prepare_for_seal decode m at_time algorithm key_id ≡ ok sealed) ↔ (
          IsLabel algorithm
          × IsLabel key_id
          × IsValidManifest decode m
          × IsFresh m
          × IsSealedBy sealed at_time (record { algorithm = algorithm; key_id = key_id })
          × Keeps m sealed)
  unfolding prepare_for_seal
  prepare_for_seal_iff m sealed at_time algorithm key_id =
      let made : Result ManifestError Manifest = ok (with_seal at_time algorithm key_id m) in
      let last = validate_for_verification decode m >> made in
      let rest = validate_label key_id >> last in
      (
        λ h.
            let (h1, k1) = (>>_iff (validate_label algorithm) rest sealed).0 h in
            let (h2, k2) = (>>_iff (validate_label key_id) last sealed).0 k1 in
            let (h3, k3) = (>>_iff (validate_for_verification decode m) made sealed).0 k2 in
            let (v, f) = (validate_for_verification_iff m).0 h3 in
            let (g, c) = (with_seal_iff m sealed at_time algorithm key_id).0 (ok-injective k3) in
            ((validate_label_iff algorithm).0 h1, (validate_label_iff key_id).0 h2, v, f, g, c),
        λ (a, k, v, f, g, c). (>>_iff (validate_label algorithm) rest sealed).1 (
          (validate_label_iff algorithm).1 a,
          (>>_iff (validate_label key_id) last sealed).1 (
            (validate_label_iff key_id).1 k,
            (>>_iff (validate_for_verification decode m) made sealed).1 (
              (validate_for_verification_iff m).1 (v, f),
              ap ok ((with_seal_iff m sealed at_time algorithm key_id).1 (g, c)),
            ),
          ),
        ),
      )

  with_seal-validate_common :
      (m : Manifest) (at_time : Timestamp) (algorithm key_id : Text)
      → validate_common decode (with_seal at_time algorithm key_id m) ≡ validate_common decode m
  unfolding validate_common
  with_seal-validate_common m at_time algorithm key_id = refl

  with_seal-is_checked :
      (m : Manifest) (at_time : Timestamp) (algorithm key_id : Text)
      → IsLabel algorithm
      → IsLabel key_id
      → validate_common decode m ≡ ok tt
      → (validate_sealed decode (with_seal at_time algorithm key_id m) ≡ ok tt)
        × (validate_for_verification decode (with_seal at_time algorithm key_id m)
            ≡ err already_finalized)
  unfolding validate_sealed validate_for_verification
  with_seal-is_checked m at_time algorithm key_id a k v =
      let same = with_seal-validate_common m at_time algorithm key_id in
      (
        rw (same, v, (validate_label_iff algorithm).1 a) ((validate_label_iff key_id).1 k),
        rw (same, v) refl,
      )

  -- A manifest that was sealed passes the check for sealed ones, is verified, has the given time and
  -- names, keeps every other field as it was, and cannot enter verification again.
  pub prepare_for_seal_lem :
      (m sealed : Manifest) (at_time : Timestamp) (algorithm key_id : Text)
      → prepare_for_seal decode m at_time algorithm key_id ≡ ok sealed
      → (validate_sealed decode sealed ≡ ok tt)
        × IsSealedBy sealed at_time (record { algorithm = algorithm; key_id = key_id })
        × Keeps m sealed
        × (validate_for_verification decode sealed ≡ err already_finalized)
  prepare_for_seal_lem m sealed at_time algorithm key_id h =
      let (a, k, v, f, g, c) = (prepare_for_seal_iff m sealed at_time algorithm key_id).0 h in
      let made = (with_seal_iff m sealed at_time algorithm key_id).1 (g, c) in
      let (x, y) =
        with_seal-is_checked m at_time algorithm key_id a k ((validate_common_iff decode m).1 v) in
      (
        subst (λ s. validate_sealed decode s ≡ ok tt) made x,
        g,
        c,
        subst (λ s. validate_for_verification decode s ≡ err already_finalized) made y,
      )
