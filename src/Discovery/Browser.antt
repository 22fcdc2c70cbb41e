-- ===== src/Discovery/Browser.antt =====
-- Listing a directory of a server page by page (crates/guardian-core/src/remote_browser.rs).
use vds_guardian.Prelude.{
  ℕ, Bool, true, false, Option, List, [], ◌∷◌, Result, ok, err, ◌>>=◌, ◌>>◌, ensure, ok_or, map_err,
  if◌then◌else◌, not, ◌&&◌, ◌||◌, ◌==◌, all, any, leb, ltb, length, contains, is_some, is_some_and,
  is_none_or, list_eq, nat_eq,
}
use vds_guardian.Text.{Text, str, len, bytes, is_empty_text, is_alphanumeric, is_one_of, is_control}
use vds_guardian.Identifiers.{ProfileId, RemotePath, Timestamp, child, contains_any, remote_path_eq}
use vds_guardian.Profile.{VdsProfile, ProfileStorePortError}

abbrev pub max_remote_page_entries : ℕ
max_remote_page_entries = 200

pub data RemoteEntryKind : Type 0 where
  kind_directory kind_regular_file kind_symlink kind_other : RemoteEntryKind

pub data RemoteEntryUnavailableReason : Type 0 where
  reason_symlink reason_special_file : RemoteEntryUnavailableReason

pub data RemoteBrowserPortError : Type 0 where
  browser_rejected browser_unavailable : RemoteBrowserPortError

pub data RemoteBrowseError : Type 0 where
  invalid_request invalid_page invalid_browse_entry duplicate_entry : RemoteBrowseError

pub data BrowseRemoteDirectoryError : Type 0 where
  browse_profile_not_found : BrowseRemoteDirectoryError
  browse_profile_store : ProfileStorePortError → BrowseRemoteDirectoryError
  browser_failed : RemoteBrowserPortError → BrowseRemoteDirectoryError
  browse_request browse_page : RemoteBrowseError → BrowseRemoteDirectoryError

pub record RemoteBrowseRequest : Type 0 where
  pub directory : RemotePath
  pub cursor : Option Text
  pub limit : ℕ

pub record RemoteBrowseEntry : Type 0 where
  pub name : Text
  pub absolute_path : RemotePath
  pub kind : RemoteEntryKind
  pub size : Option ℕ
  pub modified_at : Option Timestamp
  pub selectable : Bool
  pub unavailable_reason : Option RemoteEntryUnavailableReason

pub record RemoteBrowsePage : Type 0 where
  pub directory : RemotePath
  pub entries : List RemoteBrowseEntry
  pub next_cursor : Option Text
  pub truncated : Bool

unfoldable pub valid_cursor : Text → Bool
valid_cursor value =
    not (is_empty_text value)
    && leb (len value) 128
    && all (λ byte. is_alphanumeric byte || is_one_of (str "-_") byte) (bytes value)

-- `RemoteBrowseRequest::validate`
unfoldable pub validate_request : RemoteBrowseRequest → Result RemoteBrowseError (Unit {0})
validate_request self =
    let cursor_valid = is_none_or valid_cursor self.cursor in
    ensure (ltb 0 self.limit && leb self.limit max_remote_page_entries && cursor_valid)
      invalid_request

unfoldable pub valid_name : Text → Bool
valid_name name =
    not (is_empty_text name)
    && leb (len name) 255
    && not (any is_control name)
    && not (contains_any (str "/\\") name)

unfoldable pub valid_selection : RemoteBrowseEntry → Bool
valid_selection self = elim self.kind [
  | kind_directory ↦ self.selectable && not (is_some self.unavailable_reason)
  | kind_regular_file ↦ self.selectable && not (is_some self.unavailable_reason)
  | kind_symlink ↦ not self.selectable && is_some self.unavailable_reason
  | kind_other ↦ not self.selectable && is_some self.unavailable_reason
]

-- `RemoteBrowseEntry::validate`
unfoldable pub validate_browse_entry :
    RemotePath → RemoteBrowseEntry → Result RemoteBrowseError (Unit {0})
validate_browse_entry parent self = do
  expected ← map_err (λ _. invalid_browse_entry) (child parent self.name)
  ensure (valid_name self.name && expected == self.absolute_path && valid_selection self)
      invalid_browse_entry

-- The loop of `validate_for`, with the paths that were inserted
unfoldable pub validate_entries :
    RemotePath → List Text → List RemoteBrowseEntry → Result RemoteBrowseError (Unit {0})
validate_entries parent paths [] = ok tt
validate_entries parent paths (entry ∷ rest) =
    let later = validate_entries parent (entry.absolute_path.as_str ∷ paths) rest in
    validate_browse_entry parent entry
    >> (if contains paths entry.absolute_path.as_str then err duplicate_entry else later)

abbrev pub differ : Bool → Bool → Bool
differ true b = not b
differ false b = b

-- The first test of `validate_for`
unfoldable pub mismatched : RemoteBrowsePage → RemoteBrowseRequest → Bool
mismatched self request =
    not (self.directory == request.directory)
    || ltb request.limit (length self.entries)
    || is_some_and (λ value. not (valid_cursor value)) self.next_cursor
    || differ self.truncated (is_some self.next_cursor)

-- `RemoteBrowsePage::validate_for`
unfoldable pub validate_for :
    RemoteBrowsePage → RemoteBrowseRequest → Result RemoteBrowseError (Unit {0})
validate_for self request =
    if mismatched self request
    then err invalid_page
    else validate_entries self.directory [] self.entries

-- The profile store and the browser are ports.
module _ (get_profile : ProfileId → Result ProfileStorePortError (Option VdsProfile))
    (list_directory : VdsProfile
      → RemoteBrowseRequest
      → Result RemoteBrowserPortError RemoteBrowsePage) where
  -- `BrowseRemoteDirectoryUseCase::execute`
  unfoldable pub browse_remote_directory :
      ProfileId → RemoteBrowseRequest → Result BrowseRemoteDirectoryError RemoteBrowsePage
  browse_remote_directory profile_id request = do
    map_err browse_request (validate_request request)
    found ← map_err browse_profile_store (get_profile profile_id)
    profile ← ok_or found browse_profile_not_found
    page ← map_err browser_failed (list_directory profile request)
    map_err browse_page (validate_for page request)
    ok page
