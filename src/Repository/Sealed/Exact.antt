-- ===== src/Repository/Sealed/Exact.antt =====
-- What `verify_payload_tree` establishes of a directory
-- (crates/guardian-local-repository/src/verification.rs).
use vds_guardian.Prelude.{
  ◌≡◌, refl, sym, ◌∙◌, Bool, true, false, Option, none, some, List, [], ◌∷◌, ok, err-ne-ok,
  ok-injective, >>=-eq-ok, >>-eq-ok, ensure-eq-ok, All, All-map, All-at, In, contains, all, all→All,
  ==→eq, length, map, try_for_each_iff, list_eq, nat_eq, arith,
}
use vds_guardian.Text.{Text, Bytes}
use vds_guardian.Retention.{hex}
use vds_guardian.Manifest.{PayloadEntry, Manifest}
use vds_guardian.Repository.Files.{integrity_failure}
use vds_guardian.Repository.Sealed.Tree.{
  FileNode, Listing, file, folder, symlink, special, lookup, at, entries_within, payload,
  collect_payload_files, same_paths, ascii_lowercase, components, hash_file, check_file,
  check_payload, verify_payload_tree,
}
use vds_guardian.Repository.Sealed.Walk.{
  Within, Fits, Fits-map, contains-In, at_within, here_or_inside, walk_payload_sound,
}

-- What the walk finds covers all that is below the payload directory.
collect_payload_files_sound :
    (root : Listing) (found : List (List Text))
    → collect_payload_files root ≡ ok found
    → (path : List Text) (node : FileNode) → at (payload ∷ path) (folder root) ≡ some node
    → Fits found (payload ∷ path) node
unfolding collect_payload_files at
collect_payload_files_sound root found h path node e =
    let (listing, a, b) = >>=-eq-ok (entries_within (lookup payload root)) _ h in
    let (_, inside) = walk_payload_sound (payload ∷ []) 0 [] listing found b in
    here_or_inside (payload ∷ []) found listing inside path node
      (sym (at_within payload path root listing a) ∙ e)

all-contains-Within : (xs ys : List (List Text)) → all (contains ys) xs ≡ true → Within xs ys
all-contains-Within xs ys h p i =
    All-at (λ x. In x ys) xs (All-map (λ x k. contains-In ys x k) xs (all→All (contains ys) xs h)) i

Fits-same :
    (xs ys : List (List Text)) (path : List Text) (node : FileNode)
    → same_paths xs ys ≡ true
    → Fits xs path node
    → Fits ys path node
Fits-same xs ys path node h = Fits-map xs ys path node (all-contains-Within xs ys (ground arith))

module _ (sha256 : Bytes → Bytes) where
  -- The file of an entry is there, with the length and the hash that the entry says.
  abbrev pub IsStored : Listing → PayloadEntry → Type 0
  IsStored root e =
      (bytes : Bytes) × (at (components e) (folder root) ≡ some (file true bytes))
      × (length bytes ≡ e.byte_length)
      × (hex (sha256 bytes) ≡ ascii_lowercase e.sha256)

  check_file_sound :
      (e : PayloadEntry) (found : Option FileNode)
      → check_file sha256 e found ≡ ok tt
      → (bytes : Bytes) × (found ≡ some (file true bytes))
        × (length bytes ≡ e.byte_length)
        × (hex (sha256 bytes) ≡ ascii_lowercase e.sha256)
  check_file_sound e none h = absurd (err-ne-ok h)
  check_file_sound e (some (file readable bytes)) h =
      let (a, b) = >>-eq-ok _ _ h in
      let (hash, c, d) = >>=-eq-ok (hash_file sha256 readable bytes) _ b in
      let l : length bytes ≡ e.byte_length = ==→eq _ _ (ensure-eq-ok _ integrity_failure a) in
      let s : hash ≡ ascii_lowercase e.sha256 = ==→eq _ _ (ensure-eq-ok _ integrity_failure d) in
      by_readable readable hash c l s
    where
      by_readable :
          (r : Bool) (hash : Text)
          → hash_file sha256 r bytes ≡ ok hash
          → length bytes ≡ e.byte_length
          → hash ≡ ascii_lowercase e.sha256
          → (content : Bytes) × (some (file r bytes) ≡ some (file true content))
            × (length content ≡ e.byte_length)
            × (hex (sha256 content) ≡ ascii_lowercase e.sha256)
      by_readable false hash c l s = absurd (err-ne-ok c)
      by_readable true hash c l s = (bytes, refl, l, ok-injective c ∙ s)
  check_file_sound e (some (folder listing)) h = absurd (err-ne-ok h)
  check_file_sound e (some symlink) h = absurd (err-ne-ok h)
  check_file_sound e (some special) h = absurd (err-ne-ok h)

  abbrev pub IsPayloadOf : Listing → Manifest → Type 0
  IsPayloadOf root manifest =
      All (IsStored root) manifest.payloads
      × ((path : List Text) (node : FileNode)
          → at (payload ∷ path) (folder root) ≡ some node
          → Fits (map components manifest.payloads) (payload ∷ path) node)

  -- A payload tree that is accepted has the file of every payload of the manifest, with its length and
  -- its hash; and whatever is below the payload directory is a directory, or a file that the
  -- manifest lists, and never a link or a special file.
  pub verify_payload_tree_sound :
      (root : Listing) (manifest : Manifest)
      → verify_payload_tree sha256 root manifest ≡ ok tt
      → IsPayloadOf root manifest
  unfolding verify_payload_tree check_payload
  verify_payload_tree_sound root manifest h =
      let (actual, a, b) = >>=-eq-ok (collect_payload_files root) _ h in
      let (c, d) = >>-eq-ok _ _ b in
      let same = ensure-eq-ok _ integrity_failure c in
      (
        All-map (λ e k. check_file_sound e (at (components e) (folder root)) k) manifest.payloads
            ((try_for_each_iff (check_payload sha256 root) manifest.payloads).0 d),
        λ path node e.
            Fits-same actual (map components manifest.payloads) (payload ∷ path) node same
              (collect_payload_files_sound root actual a path node e),
      )
