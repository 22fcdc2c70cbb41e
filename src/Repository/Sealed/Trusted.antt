-- ===== src/Repository/Sealed/Trusted.antt =====
-- What a sealed backup that is accepted is
-- (crates/guardian-local-repository/src/inventory.rs).
use vds_guardian.Prelude.{
  ◌≡◌, sym, ap, ◌∙◌, subst, true, false, Option, none, some, ok, err-ne-ok, ok-injective, >>=-eq-ok,
  >>-eq-ok, ensure-eq-ok, ok_or, ok_or-eq-ok, map_err, map_err-eq-ok, ==→eq, list_eq, arith, nat_eq,
}
use vds_guardian.Text.{Text, Bytes, str}
use vds_guardian.Identifiers.{backup, parse, identifier_eq}
use vds_guardian.Manifest.{Manifest, SignatureMetadata, validate_sealed, canonical_bytes}
use vds_guardian.Repository.Files.{integrity_failure, signing_failed, manifest_rejected}
use vds_guardian.Repository.Sealed.Tree.{
  FileNode, Listing, file, folder, symlink, special, lookup, entries_within,
}
use vds_guardian.Repository.Sealed.Load.{
  Readers, contents_of, decode_signature, verify_signature, verify_sealed_payloads,
  load_verified_manifest,
}
use vds_guardian.Repository.Sealed.Exact.{IsPayloadOf, verify_payload_tree_sound}

contents_of_sound :
    (found : Option FileNode) (content : Bytes)
    → contents_of found ≡ ok content
    → found ≡ some (file true content)
contents_of_sound none content h = absurd (err-ne-ok h)
contents_of_sound (some (file true bytes)) content h = ap (λ b. some (file true b)) (ok-injective h)
contents_of_sound (some (file false bytes)) content h = absurd (err-ne-ok h)
contents_of_sound (some (folder listing)) content h = absurd (err-ne-ok h)
contents_of_sound (some symlink) content h = absurd (err-ne-ok h)
contents_of_sound (some special) content h = absurd (err-ne-ok h)

pub entries_within_sound :
    (node : FileNode) (root : Listing) → entries_within (some node) ≡ ok root → node ≡ folder root
entries_within_sound (folder listing) root h = ap folder (ok-injective h)
entries_within_sound (file readable bytes) root h = absurd (err-ne-ok h)
entries_within_sound symlink root h = absurd (err-ne-ok h)
entries_within_sound special root h = absurd (err-ne-ok h)

module _ (readers : Readers) where
  -- The verifier accepts a signature of these bytes, under the algorithm and key the manifest names.
  abbrev pub IsSigned : Manifest → Bytes → Type 0
  IsSigned manifest canonical =
      (metadata : SignatureMetadata) × (manifest.signature ≡ some metadata)
      × ((signature : Bytes) × (readers.verify_manifest metadata.algorithm metadata.key_id canonical
              signature
            ≡ ok tt))

  verify_signature_sound :
      (root : Listing) (manifest : Manifest) (canonical : Bytes)
      → verify_signature readers root manifest canonical ≡ ok tt
      → IsSigned manifest canonical
  unfolding verify_signature
  verify_signature_sound root manifest canonical h =
      let (content, a, h1) = >>=-eq-ok (contents_of (lookup (str "manifest.sig") root)) _ h in
      let (disk, b, h2) = >>=-eq-ok (ok_or (readers.signature_from_slice content) _) _ h1 in
      let (metadata, c, h3) = >>=-eq-ok (ok_or manifest.signature _) _ h2 in
      let (d, h4) = >>-eq-ok _ _ h3 in
      let (decoded, f, h5) = >>=-eq-ok (decode_signature disk) _ h4 in
      let same = ensure-eq-ok _ integrity_failure d in
      let p : disk.algorithm ≡ metadata.algorithm =
        ==→eq disk.algorithm metadata.algorithm (ground arith) in
      let q : disk.key_id ≡ metadata.key_id = ==→eq disk.key_id metadata.key_id (ground arith) in
      (
        metadata,
        ok_or-eq-ok manifest.signature _ c,
        (
          decoded,
          subst (λ x. readers.verify_manifest x metadata.key_id canonical decoded ≡ ok tt) p
              (subst (λ y. readers.verify_manifest disk.algorithm y canonical decoded ≡ ok tt) q
                (map_err-eq-ok signing_failed _ h5)),
        ),
      )

  abbrev pub IsTrusted : Text → FileNode → Manifest → Type 0
  IsTrusted name node manifest =
      (root : Listing) × (node ≡ folder root)
      × (parse backup name ≡ ok manifest.backup_id)
      × (validate_sealed readers.base64_decode manifest ≡ ok tt)
      × ((canonical : Bytes) × (lookup (str "manifest.json") root ≡ some (file true canonical))
          × (readers.to_vec manifest ≡ some canonical)
          × IsSigned manifest canonical)
      × IsPayloadOf readers.sha256 root manifest

  -- A manifest that is loaded as verified stands in a directory with the name of its backup. It passes
  -- the checks of a sealed one, the bytes of its file are its canonical bytes, and the verifier
  -- accepts a signature of them under the algorithm and key that it names. Each payload that it
  -- lists is a file with the length and the hash that it says, and whatever is below the payload
  -- directory is a directory or such a file.
  pub load_verified_manifest_sound :
      (name : Text) (node : FileNode) (manifest : Manifest)
      → load_verified_manifest readers name node ≡ ok manifest
      → IsTrusted name node manifest
  unfolding load_verified_manifest verify_sealed_payloads canonical_bytes
  load_verified_manifest_sound name node manifest h =
      let (root, a, h1) = >>=-eq-ok (entries_within (some node)) _ h in
      let (directory_id, b, h2) = >>=-eq-ok (map_err _ (parse backup name)) _ h1 in
      let (canonical, c, h3) = >>=-eq-ok (contents_of (lookup (str "manifest.json") root)) _ h2 in
      let (m, d, h4) = >>=-eq-ok (ok_or (readers.manifest_from_slice canonical) _) _ h3 in
      let (f, h5) = >>-eq-ok _ _ h4 in
      let (g, h6) = >>-eq-ok _ _ h5 in
      let (encoded, i, h7) = >>=-eq-ok (map_err _ (canonical_bytes readers.to_vec m)) _ h6 in
      let (j, h8) = >>-eq-ok _ _ h7 in
      let (k, h9) = >>-eq-ok _ _ h8 in
      let (l, h10) = >>-eq-ok _ _ h9 in
      let (_, n) = >>-eq-ok _ _ l in
      let id : m.backup_id ≡ directory_id =
        ==→eq m.backup_id directory_id (ensure-eq-ok _ integrity_failure g) in
      let same : encoded ≡ canonical =
        ==→eq encoded canonical (ensure-eq-ok _ integrity_failure j) in
      subst (IsTrusted name node) (ok-injective h10) (
        root,
        entries_within_sound node root a,
        map_err-eq-ok _ (parse backup name) b ∙ ap ok (sym id),
        map_err-eq-ok manifest_rejected (validate_sealed readers.base64_decode m) f,
        (
          canonical,
          contents_of_sound (lookup (str "manifest.json") root) canonical c,
          ok_or-eq-ok (readers.to_vec m) _ (map_err-eq-ok manifest_rejected _ i) ∙ ap some same,
          verify_signature_sound root m canonical k,
        ),
        verify_payload_tree_sound readers.sha256 root m n,
      )
