-- ===== src/Repository/Sealed/Tree.antt =====
-- The files of a backup, and the comparison of its payload with its manifest
-- (crates/guardian-local-repository/src/verification.rs).
use vds_guardian.Prelude.{
  ℕ, suc, ◌+◌, ◌==◌, Bool, true, false, Option, none, some, List, [], ◌∷◌, ◌++◌, Result, ok, err,
  ◌>>=◌, ◌>>◌, ensure, if◌then◌else◌, all, contains, ◌&&◌, leb, ltb, length, map, try_for_each,
  list_eq, nat_eq,
}
use vds_guardian.Text.{Text, Bytes, str, split}
use vds_guardian.Retention.{hex}
use vds_guardian.Manifest.{PayloadEntry, Manifest}
use vds_guardian.Repository.Files.{RepositoryError, integrity_failure, unsafe_filesystem_entry, io}

-- What a name stands for. A file tells whether its bytes can be read, and `unlisted` is the point at
-- which the listing of a directory fails.
mutual
  pub data FileNode : Type 0 where
    file : Bool → Bytes → FileNode
    folder : Listing → FileNode
    symlink special : FileNode

  pub data Listing : Type 0 where
    unlisted end : Listing
    listed : Text → FileNode → Listing → Listing

unfoldable pub lookup : Text → Listing → Option FileNode
lookup name unlisted = none
lookup name end = none
lookup name (listed n node rest) =
    let later = lookup name rest in if n == name then some node else later

-- `root.join(path)`, for a path by its names; a link is never followed, because `walk_payload` has
-- refused the tree that has one.
unfoldable pub at : List Text → FileNode → Option FileNode
at [] node = some node
at (name ∷ path) (folder listing) = elim (lookup name listing) [
  | none ↦ none
  | some node ↦ at path node
]
at (name ∷ path) (file readable bytes) = none
at (name ∷ path) symlink = none
at (name ∷ path) special = none

abbrev pub max_payload_files : ℕ
max_payload_files = 100000

abbrev pub max_payload_depth : ℕ
max_payload_depth = 64

-- `files.insert(path)`
abbrev pub inserted : List (List Text) → List Text → List (List Text)
inserted files path = if contains files path then files else path ∷ files

-- A directory too deep is refused before its entries are read.
abbrev pub within {ℓ} : {A : Type ℓ} → ℕ → Result RepositoryError A → Result RepositoryError A
within depth walked = if ltb max_payload_depth depth then err integrity_failure else walked

abbrev pub go_on_walking :
    Result RepositoryError (List (List Text))
    → (List (List Text) → Result RepositoryError (List (List Text)))
    → Result RepositoryError (List (List Text))
go_on_walking (ok files) walk = walk files
go_on_walking (err e) walk = err e

-- `walk_payload`, below the path `relative`
unfoldable mutual
  pub walk_payload :
      List Text → ℕ → List (List Text) → Listing → Result RepositoryError (List (List Text))
  walk_payload relative depth files unlisted = err io
  walk_payload relative depth files end = ok files
  walk_payload relative depth files (listed name node rest) =
      go_on_walking (walk_entry (relative ++ name ∷ []) depth files node)
        (λ found. walk_payload relative depth found rest)

  pub walk_entry :
      List Text → ℕ → List (List Text) → FileNode → Result RepositoryError (List (List Text))
  walk_entry path depth files (file readable bytes) =
      let found = inserted files path in
      if ltb max_payload_files (length found) then err integrity_failure else ok found
  walk_entry path depth files (folder listing) =
      within (suc depth) (walk_payload path (suc depth) files listing)
  walk_entry path depth files symlink = err unsafe_filesystem_entry
  walk_entry path depth files special = err unsafe_filesystem_entry

-- `ensure_directory`, with the directory's entries
abbrev pub entries_within : Option FileNode → Result RepositoryError Listing
entries_within none = err io
entries_within (some (folder listing)) = ok listing
entries_within (some (file readable bytes)) = err unsafe_filesystem_entry
entries_within (some symlink) = err unsafe_filesystem_entry
entries_within (some special) = err unsafe_filesystem_entry

abbrev pub payload : Text
payload = str "payload"

unfoldable pub collect_payload_files : Listing → Result RepositoryError (List (List Text))
collect_payload_files root = do
  listing ← entries_within (lookup payload root)
  walk_payload (payload ∷ []) 0 [] listing

abbrev pub same_paths : List (List Text) → List (List Text) → Bool
same_paths xs ys = all (contains ys) xs && all (contains xs) ys

abbrev pub ascii_lowercase : Text → Text
ascii_lowercase t = map (λ c. if leb b'A' c && leb c b'Z' then c + 32 else c) t

-- The names of the path of a payload
abbrev pub components : PayloadEntry → List Text
components entry = split b'/' entry.path.as_str

-- SHA-256 is third-party code.
module _ (sha256 : Bytes → Bytes) where
  abbrev pub hash_file : Bool → Bytes → Result RepositoryError Text
  hash_file false bytes = err io
  hash_file true bytes = ok (hex (sha256 bytes))

  -- One round of the loop of `verify_payload_tree`
  abbrev pub check_file : PayloadEntry → Option FileNode → Result RepositoryError (Unit {0})
  check_file entry none = err io
  check_file entry (some (file readable bytes)) = do
    ensure (length bytes == entry.byte_length) integrity_failure
    hash ← hash_file readable bytes
    ensure (hash == ascii_lowercase entry.sha256) integrity_failure
  check_file entry (some (folder listing)) = err integrity_failure
  check_file entry (some symlink) = err integrity_failure
  check_file entry (some special) = err integrity_failure

  unfoldable pub check_payload : Listing → PayloadEntry → Result RepositoryError (Unit {0})
  check_payload root entry = check_file entry (at (components entry) (folder root))

  unfoldable pub verify_payload_tree : Listing → Manifest → Result RepositoryError (Unit {0})
  verify_payload_tree root manifest = do
    actual ← collect_payload_files root
    ensure (same_paths actual (map components manifest.payloads)) integrity_failure
    try_for_each (check_payload root) manifest.payloads
