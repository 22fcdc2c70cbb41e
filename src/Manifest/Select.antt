-- ===== src/Manifest/Select.antt =====
-- The payloads that a restore and a deployment take (crates/guardian-core/src/manifest.rs).
use vds_guardian.Prelude.{
  Bool, Option, none, some, List, [], ◌∷◌, not, filter, map, ltb, ◌==◌, nat_eq, list_eq, length,
  Result, ok, err, if◌then◌else◌,
}
use vds_guardian.Text.{str}
use vds_guardian.Identifiers.{PayloadPath}
use vds_guardian.Manifest.Entries.{PayloadEntry}
use vds_guardian.Manifest.Defs.{Manifest}

pub data PayloadSelectionError : Type 0 where
  no_filesystem_payload ambiguous_database_payload : PayloadSelectionError

abbrev pub is_filesystem : PayloadEntry → Bool
is_filesystem payload = payload.media_type == str "application/zstd"

abbrev pub is_database : PayloadEntry → Bool
is_database payload = payload.logical_role == str "database"

abbrev pub paths : (PayloadEntry → Bool) → List PayloadEntry → List PayloadPath
paths test payloads = map (λ payload. payload.path) (filter test payloads)

-- `Vec::pop` of the vector, for its result only
abbrev pub last : List PayloadPath → Option PayloadPath
last [] = none
last (path ∷ []) = some path
last (path ∷ next ∷ rest) = last (next ∷ rest)

-- `remove(0)`, which the test before it makes safe
abbrev pub remove_first :
    List PayloadPath
    → Option PayloadPath
    → Result PayloadSelectionError (PayloadPath × Option PayloadPath)
remove_first [] database = err no_filesystem_payload
remove_first (path ∷ rest) database = ok (path, database)

unfoldable pub select_payloads :
    Manifest → Result PayloadSelectionError (PayloadPath × Option PayloadPath)
select_payloads manifest =
    let filesystem_payloads = paths is_filesystem manifest.payloads in
    let database_payloads = paths is_database manifest.payloads in
    if not (length filesystem_payloads == 1)
    then err no_filesystem_payload
    else if ltb 1 (length database_payloads)
    then err ambiguous_database_payload
    else remove_first filesystem_payloads (last database_payloads)
