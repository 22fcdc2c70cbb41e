-- ===== src/Manifest/Sealing.antt =====
-- What a valid manifest is, and how it is sealed (crates/guardian-core/src/manifest.rs).
use vds_guardian.Prelude.{
  ℕ, ◌≡◌, ◌≢◌, ◌↔◌, ◌⊎◌, refl, Bool, true, Option, none, some, List, [], ◌∷◌, ◌||◌, not, All,
  All-map, is_empty, map, ◌==◌, nat_eq, list_eq, ==→eq, length, to_set, to_set-IsUnique, IsUnique,
  is_some, ok, >>_iff, ensure_iff, map_err-eq-ok, try_for_each_iff, arith, sym, ◌∙◌,
}
use vds_guardian.Text.{Text, Bytes}
use vds_guardian.Docker.{SourceLayout, validate_layout}
use vds_guardian.Docker.Layouts.{IsValidLayout, validate_layout_iff}
use vds_guardian.Manifest.Entries.{
  unsupported_format_version, empty_payload, duplicate_payload_path, invalid_plan_reference,
  encryption_policy, PayloadEntry, validate_label, is_sha256,
}
use vds_guardian.Manifest.Defs.{
  Manifest, fits_version, check_layout, validate_payload, validate_common,
}
use vds_guardian.Manifest.Valid.{IsLabel, validate_label_iff, IsValidEntry, validate_entry_iff}

abbrev pub IsValidSource : Option SourceLayout → Type 0
IsValidSource none = Unit {0}
IsValidSource (some layout) = IsValidLayout layout

abbrev pub entry_paths : List PayloadEntry → List Text
entry_paths entries = map (λ entry. entry.path.as_str) entries

abbrev name_list : Manifest → List Text
name_list m =
    m.producer.name ∷ m.producer.version ∷ m.producer.platform ∷ m.source.host_key_fingerprint ∷ []

module _ (decode : Text → Option Bytes) where
  -- What both a fresh and a sealed manifest must be.
  pub record IsValidManifest (m : Manifest) : Type 0 where
    pub version_known : (m.format_version ≡ 1) ⊎ (m.format_version ≡ 2)
    pub some_payload : m.payloads ≢ []
    pub producer_labels :
        IsLabel m.producer.name × IsLabel m.producer.version × IsLabel m.producer.platform
    pub host_key_label : IsLabel m.source.host_key_fingerprint
    pub plan_named : (m.plan.version ≢ 0) × (is_sha256 m.plan.sha256 ≡ true)
    pub entries_valid :
        All
          (λ e.
            IsValidEntry decode e × (fits_version m.format_version (is_some e.encryption) ≡ true))
          m.payloads
    pub warning_labels : All IsLabel m.warnings
    pub source_valid : IsValidSource m.source_layout
    pub paths_IsUnique : IsUnique (entry_paths m.payloads)

  version_iff : (v : ℕ) → ((v == 1 || v == 2) ≡ true) ↔ ((v ≡ 1) ⊎ (v ≡ 2))
  version_iff v = (λ h. ground arith, λ h. ground arith)

  not_empty_iff : (xs : List PayloadEntry) → (not (is_empty xs) ≡ true) ↔ (xs ≢ [])
  not_empty_iff [] = (λ h. cc, λ n. absurd (n refl))
  not_empty_iff (x ∷ xs) = (λ h e. cc, λ n. refl)

  plan_iff :
      (v : ℕ) (digest : Bool) → (not (v == 0 || not digest) ≡ true) ↔ ((v ≢ 0) × (digest ≡ true))
  plan_iff v digest = (λ h. (λ e. ground arith, ground arith), λ (n, d). ground arith)

  check_layout_iff : (o : Option SourceLayout) → (check_layout o ≡ ok tt) ↔ IsValidSource o
  check_layout_iff none = (λ h. tt, λ h. refl)
  check_layout_iff (some l) = (
    λ h. (validate_layout_iff l).0 (map_err-eq-ok _ (validate_layout l) h),
    λ v. rw ((validate_layout_iff l).1 v) refl,
  )

  validate_payload_iff :
      (version : ℕ) (e : PayloadEntry)
      → (validate_payload decode version e ≡ ok tt)
        ↔ (IsValidEntry decode e × (fits_version version (is_some e.encryption) ≡ true))
  unfolding validate_payload
  validate_payload_iff version e = (
    λ h.
        let (a, b) = (>>_iff _ _ tt).0 h in
        ((validate_entry_iff decode e).0 a, (ensure_iff _ encryption_policy).0 b),
    λ (v, f).
        (>>_iff _ _ tt).1 ((validate_entry_iff decode e).1 v, (ensure_iff _ encryption_policy).1 f),
  )

  unique_paths_iff :
      (entries : List PayloadEntry)
      → ((length (to_set (entry_paths entries)) == length entries) ≡ true)
        ↔ IsUnique (entry_paths entries)
  unique_paths_iff entries = (
    λ h. (to_set-IsUnique (entry_paths entries)).0 (==→eq _ _ h ∙ sym (length-entry_paths entries)),
    λ u.
        (nat_eq.beq_iff _ _).1
          ((to_set-IsUnique (entry_paths entries)).1 u ∙ length-entry_paths entries),
  )
    where
      length-entry_paths : (es : List PayloadEntry) → length (entry_paths es) ≡ length es
      length-entry_paths [] = refl
      length-entry_paths (e ∷ es) = omega (arith, length-entry_paths es)

  -- The shared checks pass exactly on valid manifests: a known format version, at least one payload,
  -- labels as names, a plan with a version and a SHA-256, valid entries that are encrypted exactly
  -- in version 2, a valid source layout, and different payload paths.
  pub validate_common_iff : (m : Manifest) → (validate_common decode m ≡ ok tt) ↔ IsValidManifest m
  unfolding validate_common
  validate_common_iff m = (sound, complete)
    where
      sound : validate_common decode m ≡ ok tt → IsValidManifest m
      sound h =
          let (h1, k1) = (>>_iff _ _ tt).0 h in
          let (h2, k2) = (>>_iff _ _ tt).0 k1 in
          let (h3, k3) = (>>_iff _ _ tt).0 k2 in
          let (h4, k4) = (>>_iff _ _ tt).0 k3 in
          let (h5, k5) = (>>_iff _ _ tt).0 k4 in
          let (h6, k6) = (>>_iff _ _ tt).0 k5 in
          let (h7, h8) = (>>_iff _ _ tt).0 k6 in
          let (n, (v, (p, (f, _)))) = (try_for_each_iff validate_label (name_list m)).0 h3 in
          record {
            version_known =
                (version_iff m.format_version).0 ((ensure_iff _ unsupported_format_version).0 h1);
            some_payload = (not_empty_iff m.payloads).0 ((ensure_iff _ empty_payload).0 h2);
            producer_labels = (
              (validate_label_iff _).0 n,
              (validate_label_iff _).0 v,
              (validate_label_iff _).0 p,
            );
            host_key_label = (validate_label_iff _).0 f;
            plan_named = (plan_iff m.plan.version _).0 ((ensure_iff _ invalid_plan_reference).0 h4);
            entries_valid =
                All-map (λ e. (validate_payload_iff m.format_version e).0) m.payloads
                  ((try_for_each_iff (validate_payload decode m.format_version) m.payloads).0 h5);
            warning_labels =
                All-map (λ w. (validate_label_iff w).0) m.warnings
                  ((try_for_each_iff validate_label m.warnings).0 h6);
            source_valid = (check_layout_iff m.source_layout).0 h7;
            paths_IsUnique =
                (unique_paths_iff m.payloads).0 ((ensure_iff _ duplicate_payload_path).0 h8);
          }

      complete : IsValidManifest m → validate_common decode m ≡ ok tt
      complete v =
          let (n, r, p) = v.producer_labels in
          (>>_iff _ _ tt).1 (
            (ensure_iff _ unsupported_format_version).1
                ((version_iff m.format_version).1 v.version_known),
            (>>_iff _ _ tt).1 (
              (ensure_iff _ empty_payload).1 ((not_empty_iff m.payloads).1 v.some_payload),
              (>>_iff _ _ tt).1 (
                (try_for_each_iff validate_label (name_list m)).1 (
                  (validate_label_iff _).1 n,
                  (
                    (validate_label_iff _).1 r,
                    ((validate_label_iff _).1 p, ((validate_label_iff _).1 v.host_key_label, tt)),
                  ),
                ),
                (>>_iff _ _ tt).1 (
                  (ensure_iff _ invalid_plan_reference).1
                      ((plan_iff m.plan.version _).1 v.plan_named),
                  (>>_iff _ _ tt).1 (
                    (try_for_each_iff (validate_payload decode m.format_version) m.payloads).1 (
                        All-map (λ e. (validate_payload_iff m.format_version e).1) m.payloads
                          v.entries_valid),
                    (>>_iff _ _ tt).1 (
                      (try_for_each_iff validate_label m.warnings).1
                          (All-map (λ w. (validate_label_iff w).1) m.warnings v.warning_labels),
                      (>>_iff _ _ tt).1 (
                        (check_layout_iff m.source_layout).1 v.source_valid,
                        (ensure_iff _ duplicate_payload_path).1
                            ((unique_paths_iff m.payloads).1 v.paths_IsUnique),
                      ),
                    ),
                  ),
                ),
              ),
            ),
          )
