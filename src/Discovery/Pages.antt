-- ===== src/Discovery/Pages.antt =====
-- What a page that the remote browser accepts is, although the server made it
-- (crates/guardian-core/src/remote_browser.rs).
use vds_guardian.Prelude.{
  ℕ, ◌≡◌, ◌≢◌, ◌≤◌, ◌↔◌, ◌⊎◌, refl, ap, sym, ◌∙◌, Bool, true, false, inl, inr, Option, some, List,
  [], ◌∷◌, ◌++◌, Result, ok, map, length, All, All-map, IsUnique, Bool-cases, arith, contains,
  map_err, map_err-eq-ok, >>=-eq-ok, ensure-eq-ok, ok-injective, is_some, ok_or, insert_all,
  insert_all_iff, >>_iff, err-ne-ok, nat_eq, list_eq, subst, ok_or-eq-ok,
}
use vds_guardian.Text.{Text, str, split_of_Lacks, Lacks}
use vds_guardian.Identifiers.{ProfileId, RemotePath, child, covers, contains_any, remote_path_eq}
use vds_guardian.Identifiers.Segments.{IsValidPath, segments}
use vds_guardian.Identifiers.Paths.{child_lem}
use vds_guardian.Profile.{VdsProfile, ProfileStorePortError}
use vds_guardian.Discovery.Browser.{
  RemoteEntryKind, kind_directory, kind_regular_file, kind_symlink, kind_other, RemoteBrowseRequest,
  RemoteBrowseEntry, RemoteBrowsePage, RemoteBrowserPortError, valid_name, valid_selection,
  validate_request, validate_browse_entry, validate_entries, validate_for, mismatched,
  browse_remote_directory, duplicate_entry, invalid_browse_entry, differ,
}

slash_free : (name : Text) → contains_any (str "/\\") name ≡ false → Lacks b'/' name
slash_free [] h = tt
slash_free (c ∷ name) h = (λ e. absurd (slash c e h), slash_free name (ground arith))
  where
    slash : (c : ℕ) → c ≡ b'/' → contains_any (str "/\\") (c ∷ name) ≡ false → ⊥
    slash c e h = ground arith

valid_name_sound : (name : Text) → valid_name name ≡ true → (name ≢ []) × Lacks b'/' name
unfolding valid_name
valid_name_sound [] h = absurd (ground arith)
valid_name_sound (c ∷ name) h = (λ e. cc, slash_free (c ∷ name) (ground arith))

abbrev pub IsFileOrDirectory : RemoteEntryKind → Type 0
IsFileOrDirectory kind = (kind ≡ kind_regular_file) ⊎ (kind ≡ kind_directory)

valid_selection_sound :
    (entry : RemoteBrowseEntry)
    → valid_selection entry ≡ true
    → (entry.selectable ≡ true) ↔ IsFileOrDirectory entry.kind
unfolding valid_selection
valid_selection_sound entry h = by_kind entry.kind refl
  where
    by_kind :
        (kind : RemoteEntryKind)
        → kind ≡ entry.kind
        → (entry.selectable ≡ true) ↔ IsFileOrDirectory entry.kind
    by_kind kind_directory e = let k = rw (sym e) at h in (λ _. inr (sym e), λ _. ground arith)
    by_kind kind_regular_file e = let k = rw (sym e) at h in (λ _. inl (sym e), λ _. ground arith)
    by_kind kind_symlink e =
        let k = rw (sym e) at h in
        (
          λ s. absurd (ground arith),
          λ f. elim f [ inl q ↦ absurd (cc (e ∙ q)) | inr q ↦ absurd (cc (e ∙ q)) ],
        )
    by_kind kind_other e =
        let k = rw (sym e) at h in
        (
          λ s. absurd (ground arith),
          λ f. elim f [ inl q ↦ absurd (cc (e ∙ q)) | inr q ↦ absurd (cc (e ∙ q)) ],
        )

-- A direct child of the directory, named as it is listed, which can be selected exactly if it is a
-- regular file or a directory.
abbrev pub IsEntryOf : RemotePath → RemoteBrowseEntry → Type 0
IsEntryOf parent entry =
    IsValidPath entry.absolute_path
    × (segments entry.absolute_path ≡ segments parent ++ entry.name ∷ [])
    × (covers parent entry.absolute_path ≡ true)
    × ((entry.selectable ≡ true) ↔ IsFileOrDirectory entry.kind)

validate_browse_entry_sound :
    (parent : RemotePath) (entry : RemoteBrowseEntry)
    → validate_browse_entry parent entry ≡ ok tt
    → (child parent entry.name ≡ ok entry.absolute_path)
      × (valid_name entry.name ≡ true)
      × (valid_selection entry ≡ true)
unfolding validate_browse_entry
validate_browse_entry_sound parent entry h =
    let (expected, c, t) =
      >>=-eq-ok (map_err (λ _. invalid_browse_entry) (child parent entry.name)) _ h in
    let e = ensure-eq-ok _ invalid_browse_entry t in
    let q : expected ≡ entry.absolute_path =
      (remote_path_eq.beq_iff expected entry.absolute_path).0 (ground arith) in
    (map_err-eq-ok _ (child parent entry.name) c ∙ ap ok q, ground arith, ground arith)

validate_browse_entry-IsEntryOf :
    (parent : RemotePath) (entry : RemoteBrowseEntry)
    → IsValidPath parent
    → validate_browse_entry parent entry ≡ ok tt
    → IsEntryOf parent entry
validate_browse_entry-IsEntryOf parent entry v h =
    let (c, n, s) = validate_browse_entry_sound parent entry h in
    let (nonempty, lacks) = valid_name_sound entry.name n in
    let (w, e, covered) = child_lem parent entry.absolute_path entry.name v nonempty c in
    (
      w,
      e ∙ ap (λ ss. segments parent ++ ss) (split_of_Lacks b'/' entry.name lacks),
      covered,
      valid_selection_sound entry s,
    )

abbrev pub paths_of : List RemoteBrowseEntry → List Text
paths_of entries = map (λ e. e.absolute_path.as_str) entries

abbrev pub names_of : List RemoteBrowseEntry → List Text
names_of entries = map (λ e. e.name) entries

-- The loop accepts exactly the lists of valid entries in which no path is repeated.
validate_entries_iff :
    (parent : RemotePath) (seen : List Text) (entries : List RemoteBrowseEntry)
    → (validate_entries parent seen entries ≡ ok tt) ↔ (
        (insert_all duplicate_entry seen (paths_of entries) ≡ ok tt)
        × All (λ e. validate_browse_entry parent e ≡ ok tt) entries)
unfolding validate_entries insert_all
validate_entries_iff parent seen [] = (λ h. (refl, tt), λ h. refl)
validate_entries_iff parent seen (e ∷ es) =
    elim (Bool-cases (contains seen e.absolute_path.as_str)) [
      | inl y ↦ (
        λ h. absurd (err-ne-ok ((>>_iff _ _ tt).0 (rw y at h)).1),
        λ (h, _). absurd (err-ne-ok (rw y at h)),
      )
      | inr n ↦ (
        λ h.
            let (v, k) = (>>_iff _ _ tt).0 (rw n at h) in
            let (u, vs) = (validate_entries_iff parent (e.absolute_path.as_str ∷ seen) es).0 k in
            (rw n u, (v, vs)),
        λ (h, (v, vs)).
            rw (v, n)
              ((validate_entries_iff parent (e.absolute_path.as_str ∷ seen) es).1 (rw n at h, vs)),
      )
    ]

-- Entries with different paths have different names, as the name tells the path.
names_of-IsUnique :
    (parent : RemotePath) (entries : List RemoteBrowseEntry)
    → All (λ e. child parent e.name ≡ ok e.absolute_path) entries
    → IsUnique (paths_of entries)
    → IsUnique (names_of entries)
names_of-IsUnique parent [] h u = tt
names_of-IsUnique parent (e ∷ es) (h, hs) (n, u) =
    (unlike es hs n, names_of-IsUnique parent es hs u)
  where
    unlike :
        (ds : List RemoteBrowseEntry)
        → All (λ d. child parent d.name ≡ ok d.absolute_path) ds
        → All (λ t. e.absolute_path.as_str ≢ t) (paths_of ds)
        → All (λ t. e.name ≢ t) (names_of ds)
    unlike [] k m = tt
    unlike (d ∷ ds) (k, ks) (m, ms) = (
      λ q. m (ap (λ p. p.as_str) (ok-injective (sym h ∙ ap (child parent) q ∙ k))),
      unlike ds ks ms,
    )

-- The test of a page against its request.
abbrev pub Answers : RemoteBrowsePage → RemoteBrowseRequest → Type 0
Answers page request =
    (page.directory ≡ request.directory)
    × (length page.entries ≤ request.limit)
    × (page.truncated ≡ is_some page.next_cursor)

not_mismatched :
    (page : RemoteBrowsePage) (request : RemoteBrowseRequest)
    → mismatched page request ≡ false
    → Answers page request
unfolding mismatched
not_mismatched page request h = (
  (remote_path_eq.beq_iff page.directory request.directory).0 (ground arith),
  ground arith,
  agree page.truncated (is_some page.next_cursor) (ground arith),
)
  where
    agree : (a b : Bool) → differ a b ≡ false → a ≡ b
    agree true true k = refl
    agree true false k = cc
    agree false true k = cc
    agree false false k = refl

validate_for_sound :
    (page : RemoteBrowsePage) (request : RemoteBrowseRequest)
    → IsValidPath request.directory
    → validate_for page request ≡ ok tt
    → Answers page request
      × IsUnique (names_of page.entries)
      × All (IsEntryOf request.directory) page.entries
unfolding validate_for
validate_for_sound page request v h = elim (Bool-cases (mismatched page request)) [
  | inl y ↦ absurd (err-ne-ok (rw y at h))
  | inr n ↦
      let a = not_mismatched page request n in
      let (u, es) = (validate_entries_iff page.directory [] page.entries).0 (rw n at h) in
      let children =
        All-map (λ e k. (validate_browse_entry_sound page.directory e k).0) page.entries es in
      let real = subst IsValidPath (sym a.0) v in
      (
        a,
        names_of-IsUnique page.directory page.entries children
            ((insert_all_iff duplicate_entry (paths_of page.entries)).0 u),
        subst (λ d. All (IsEntryOf d) page.entries) a.0
            (All-map (λ e k. validate_browse_entry-IsEntryOf page.directory e real k) page.entries
              es),
      )
]

module _ (get_profile : ProfileId → Result ProfileStorePortError (Option VdsProfile))
    (list_directory : VdsProfile
      → RemoteBrowseRequest
      → Result RemoteBrowserPortError RemoteBrowsePage) where
  abbrev pub IsListing : ProfileId → RemoteBrowseRequest → RemoteBrowsePage → Type 0
  IsListing profile_id request page =
      ((profile : VdsProfile) × (get_profile profile_id ≡ ok (some profile))
        × (list_directory profile request ≡ ok page))
      × (request.limit ≤ 200)
      × Answers page request
      × IsUnique (names_of page.entries)
      × All (IsEntryOf request.directory) page.entries

  -- A page that browsing returns is the browser's answer for the stored profile. It is of the directory that was
  -- asked for, no longer than the limit, which is at most 200, and truncated exactly if it has a cursor for more. Its
  -- names are different, and each entry is a valid path with the segments of the directory and then
  -- its name, so that the directory covers it; it can be selected exactly if it is a regular file or
  -- a directory.
  pub browse_remote_directory_sound :
      (profile_id : ProfileId) (request : RemoteBrowseRequest) (page : RemoteBrowsePage)
      → IsValidPath request.directory
      → browse_remote_directory get_profile list_directory profile_id request ≡ ok page
      → IsListing profile_id request page
  unfolding browse_remote_directory validate_request
  browse_remote_directory_sound profile_id request page v h =
      let (_, v1, h1) = >>=-eq-ok (map_err _ (validate_request request)) _ h in
      let (found, v2, h2) = >>=-eq-ok (map_err _ (get_profile profile_id)) _ h1 in
      let (profile, v3, h3) = >>=-eq-ok (ok_or found _) _ h2 in
      let (answer, v4, h4) = >>=-eq-ok (map_err _ (list_directory profile request)) _ h3 in
      let (_, v5, h5) = >>=-eq-ok (map_err _ (validate_for answer request)) _ h4 in
      let (a, u, es) =
        validate_for_sound answer request v (map_err-eq-ok _ (validate_for answer request) v5) in
      subst (IsListing profile_id request) (ok-injective h5) (
        (
          profile,
          map_err-eq-ok _ (get_profile profile_id) v2 ∙ ap ok (ok_or-eq-ok found _ v3),
          map_err-eq-ok _ (list_directory profile request) v4,
        ),
        limited (map_err-eq-ok _ (validate_request request) v1),
        a,
        u,
        es,
      )
    where
      limited : validate_request request ≡ ok tt → request.limit ≤ 200
      limited k = ground arith
