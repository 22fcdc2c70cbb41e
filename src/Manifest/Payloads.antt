-- ===== src/Manifest/Payloads.antt =====
-- What adding payloads does to a manifest, and which payloads are selected from it
-- (crates/guardian-core/src/manifest.rs).
use vds_guardian.Prelude.{
  ℕ, ◌≡◌, ◌≢◌, ◌↔◌, ◌⊎◌, inl, inr, refl, Bool, true, false, Bool-cases, Option, none, some, List,
  [], ◌∷◌, ◌++◌, append_assoc, append-nil, ◌&&◌, ◌||◌, not, any, All, All-map, ◌==◌, nat_eq,
  list_eq, ==-cases, length, ltb, is_some, IsUnique, Result, ok, err, ◌>>=◌, >>=-eq-ok, err-ne-ok,
  ok-injective, arith, subst, sym, ap, ◌∙◌, if◌then◌else◌,
}
use vds_guardian.Text.{Text, Bytes}
use vds_guardian.Identifiers.{BackupId, RunId, Timestamp, PayloadPath}
use vds_guardian.Manifest.Entries.{ManifestError, PayloadEntry}
use vds_guardian.Manifest.Defs.{
  Manifest, Producer, SourceIdentity, PlanReference, new_manifest, add_payload, fits_version,
  validate_common,
}
use vds_guardian.Manifest.Select.{
  no_filesystem_payload, ambiguous_database_payload, select_payloads, paths, last, remove_first,
  is_filesystem, is_database,
}
use vds_guardian.Manifest.Sealing.{entry_paths, validate_common_iff}

abbrev is_encrypted : PayloadEntry → Bool
is_encrypted e = is_some e.encryption

abbrev clashes : PayloadEntry → PayloadEntry → Bool
clashes p e = e.path.as_str == p.path.as_str

abbrev pub HasOtherPath : PayloadEntry → PayloadEntry → Type 0
HasOtherPath p e = e.path.as_str ≢ p.path.as_str

no_clash :
    (p : PayloadEntry) (es : List PayloadEntry)
    → (any (clashes p) es ≡ false) ↔ All (HasOtherPath p) es
no_clash p [] = (λ h. tt, λ h. refl)
no_clash p (e ∷ es) = elim (==-cases e.path.as_str p.path.as_str) [
  | inl (q, y) ↦ (λ h. absurd (ground arith), λ (n, _). absurd (n q))
  | inr (n, f) ↦ (λ h. (n, (no_clash p es).0 (ground arith)), λ (_, a). rw f ((no_clash p es).1 a))
]

-- The version that the payloads ask for.
abbrev pub version_for : List PayloadEntry → ℕ
version_for es = if any is_encrypted es then 2 else 1

any-append :
    (es : List PayloadEntry) (p : PayloadEntry)
    → any is_encrypted (es ++ (p ∷ [])) ≡ any is_encrypted es || is_encrypted p
any-append [] p = ground arith
any-append (e ∷ es) p = ground (arith, any-append es p)

version-append :
    (v : ℕ) (es : List PayloadEntry) (p : PayloadEntry)
    → v ≡ version_for es
    → (if is_encrypted p && v == 1 then 2 else v) ≡ version_for (es ++ (p ∷ []))
version-append v es p h = ground (arith, any-append es p)

-- What a manifest is while payloads are added to it.
abbrev pub IsGrowing : Manifest → Type 0
IsGrowing m = IsUnique (entry_paths m.payloads) × (m.format_version ≡ version_for m.payloads)

apart-append :
    (p : PayloadEntry) (es : List PayloadEntry)
    → All (HasOtherPath p) es
    → IsUnique (entry_paths es)
    → IsUnique (entry_paths (es ++ (p ∷ [])))
apart-append p [] h u = (tt, tt)
apart-append p (e ∷ es) (n, h) (f, u) = (others es f, apart-append p es h u)
  where
    others :
        (ds : List PayloadEntry)
        → All (λ t. e.path.as_str ≢ t) (entry_paths ds)
        → All (λ t. e.path.as_str ≢ t) (entry_paths (ds ++ (p ∷ [])))
    others [] a = (n, tt)
    others (d ∷ ds) (q, a) = (q, others ds a)

-- A payload is added exactly when no entry has its path. It is then the last entry, the paths stay
-- different, and the version is 2 as soon as one entry is encrypted, and 1 before.
pub add_payload_lem :
    (m next : Manifest) (p : PayloadEntry)
    → IsGrowing m
    → add_payload m p ≡ ok next
    → All (HasOtherPath p) m.payloads × (next.payloads ≡ m.payloads ++ (p ∷ [])) × IsGrowing next
unfolding add_payload
add_payload_lem m next p (u, v) h = elim (Bool-cases (any (clashes p) m.payloads)) [
  | inl y ↦ absurd (err-ne-ok (rw y at h))
  | inr f ↦
      let others = (no_clash p m.payloads).0 f in
      let made = ok-injective (rw f at h) in
      (
        others,
        ap (λ s. s.payloads) (sym made),
        subst IsGrowing made
            (apart-append p m.payloads others u, version-append m.format_version m.payloads p v),
      )
]

-- The payloads of a capture, added one after the other.
abbrev pub add_payloads : Manifest → List PayloadEntry → Result ManifestError Manifest
add_payloads m [] = ok m
add_payloads m (p ∷ ps) = add_payload m p >>= λ next. add_payloads next ps

add_payloads-from :
    (ps : List PayloadEntry) (m done : Manifest)
    → IsGrowing m
    → add_payloads m ps ≡ ok done
    → (done.payloads ≡ m.payloads ++ ps) × IsGrowing done
add_payloads-from [] m done g h =
    let same = ok-injective h in
    (ap (λ s. s.payloads) (sym same) ∙ sym (append-nil m.payloads), subst IsGrowing same g)
add_payloads-from (p ∷ ps) m done g h =
    let (next, e, h1) = >>=-eq-ok (add_payload m p) (λ n. add_payloads n ps) h in
    let (_, q, g1) = add_payload_lem m next p g e in
    let (r, g2) = add_payloads-from ps next done g1 h1 in
    (r ∙ ap (λ s. s ++ ps) q ∙ append_assoc m.payloads (p ∷ []) ps, g2)

-- A new manifest to which payloads were added, one by one and without an error, has exactly these
-- payloads in this order, all under different paths, and its version is 2 if one of them is
-- encrypted and 1 if none is.
pub add_payloads_lem :
    (backup_id : BackupId) (run_id : RunId) (created_at : Timestamp) (producer : Producer)
    (source : SourceIdentity) (plan : PlanReference) (ps : List PayloadEntry) (done : Manifest)
    → add_payloads (new_manifest backup_id run_id created_at producer source plan) ps ≡ ok done
    → (done.payloads ≡ ps) × IsUnique (entry_paths ps) × (done.format_version ≡ version_for ps)
unfolding new_manifest
add_payloads_lem backup_id run_id created_at producer source plan ps done h =
    let (e, (u, v)) =
      add_payloads-from ps (new_manifest backup_id run_id created_at producer source plan) done
        (tt, refl) h in
    (e, subst (λ es. IsUnique (entry_paths es)) e u, v ∙ ap version_for e)

fits_1 : (v : ℕ) (b : Bool) → v ≡ 1 → fits_version v b ≡ true → b ≡ false
fits_1 v true e h = absurd (ground arith)
fits_1 v false e h = refl

fits_2 : (v : ℕ) (b : Bool) → v ≡ 2 → fits_version v b ≡ true → b ≡ true
fits_2 v true e h = refl
fits_2 v false e h = absurd (ground arith)

-- A manifest that passes the shared checks never mixes encrypted and plain payloads: in version 1
-- no payload is encrypted, in version 2 all are.
pub validate_common-NotMixed :
    (decode : Text → Option Bytes) (m : Manifest)
    → validate_common decode m ≡ ok tt
    → ((m.format_version ≡ 1) × All (λ e. is_encrypted e ≡ false) m.payloads)
      ⊎ ((m.format_version ≡ 2) × All (λ e. is_encrypted e ≡ true) m.payloads)
validate_common-NotMixed decode m h =
    let v = (validate_common_iff decode m).0 h in
    elim v.version_known [
      | inl one ↦ inl (
        one,
        All-map (λ e (_, f). fits_1 m.format_version (is_encrypted e) one f) m.payloads
            v.entries_valid,
      )
      | inr two ↦ inr (
        two,
        All-map (λ e (_, f). fits_2 m.format_version (is_encrypted e) two f) m.payloads
            v.entries_valid,
      )
    ]

abbrev pub option_list : Option PayloadPath → List PayloadPath
option_list none = []
option_list (some path) = path ∷ []

head-eq : {x y : PayloadPath} → x ∷ [] ≡ y ∷ [] → x ≡ y
head-eq e = cc

none-ne-some : {x : PayloadPath} → none ≡ some x → ⊥
none-ne-some e = cc

select_from :
    (fs ds : List PayloadPath) (f : PayloadPath) (d : Option PayloadPath)
    → ((if not (length fs == 1)
          then err no_filesystem_payload
          else if ltb 1 (length ds)
          then err ambiguous_database_payload
          else remove_first fs (last ds))
        ≡ ok (f, d))
      ↔ ((fs ≡ f ∷ []) × (ds ≡ option_list d))
select_from [] ds f d = (λ h. cc, λ (e, _). cc)
select_from (x ∷ y ∷ fs) ds f d = (λ h. absurd (ground arith), λ (e, _). cc)
select_from (x ∷ []) [] f none =
    (λ h. (rw (ap (λ r. r.0) (ok-injective h)) refl, refl), λ (e, _). rw (head-eq e) refl)
select_from (x ∷ []) [] f (some d) =
    (λ h. absurd (none-ne-some (ap (λ r. r.1) (ok-injective h))), λ (_, e). cc)
select_from (x ∷ []) (d ∷ []) f none =
    (λ h. absurd (none-ne-some (sym (ap (λ r. r.1) (ok-injective h)))), λ (_, e). cc)
select_from (x ∷ []) (d ∷ []) f (some c) = (
  λ h. (rw (ap (λ r. r.0) (ok-injective h)) refl, ap option_list (ap (λ r. r.1) (ok-injective h))),
  λ (e, k). rw (head-eq e, head-eq k) refl,
)
select_from (x ∷ []) (c ∷ d ∷ ds) f o =
    (λ h. absurd (ground arith), λ (_, e). absurd (too_many o e))
  where
    too_many : (o : Option PayloadPath) → c ∷ d ∷ ds ≡ option_list o → ⊥
    too_many none e = cc
    too_many (some p) e = cc

-- Payloads are selected exactly when the manifest has one payload of media type application/zstd,
-- which is the file payload, and at most one of role database, which is the database payload.
pub select_payloads_iff :
    (m : Manifest) (f : PayloadPath) (d : Option PayloadPath)
    → (select_payloads m ≡ ok (f, d))
      ↔ ((paths is_filesystem m.payloads ≡ f ∷ []) × (paths is_database m.payloads ≡ option_list d))
unfolding select_payloads
select_payloads_iff m f d =
    select_from (paths is_filesystem m.payloads) (paths is_database m.payloads) f d
