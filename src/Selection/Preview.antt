-- ===== src/Selection/Preview.antt =====
-- What an accepted preview guarantees (crates/guardian-core/src/capture_selection.rs).
mod Resolve
use vds_guardian.Prelude.{
  ℕ, ◌≡◌, ◌≤◌, refl, [], ◌∷◌, none, some, ◌⊎◌, inl, inr, List, Option, Any-map, All, subst, In, ok,
  true, length, >>_iff, >>=-eq-ok, Any-of_In, Any-find, Option-cases, sym, any→Any, find, All-map,
  Any→any, ◌∙◌, map_err, ok-injective, map_err-eq-ok, ap,
}
use vds_guardian.Text.{Text, Bytes}
use vds_guardian.Identifiers.{RemotePath, covers}
use vds_guardian.Identifiers.Segments.{IsValidPath}
use vds_guardian.Docker.{DockerInventory, DockerContainer, from_inventory, validate_inventory}
use vds_guardian.Docker.Layouts.{IsValidLayout, from_inventory_lem}
use vds_guardian.Docker.Described.{IsCovered}
use vds_guardian.Selection.Defs.{
  BackupSelection, BackupSelectionItem, remote_path, docker_mount, docker_group,
  CaptureSelectionPreview, Warnings, preview_capture_selection, validate_selection, resolve_roots,
  CaptureSelectionWarning, append_sqlite_warning, normalize_roots, confirmation,
  selected_container_ids, sqlite_also_in_filesystem, docker_selection_changed,
}
use vds_guardian.Selection.Roots.{
  IsAntichain, IsNormal, IsAccounted, normalize_roots-IsNormal, normalize_roots-warned,
}
use vds_guardian.Identifiers.Paths.{covers_refl}
use Resolve.{requested, IsBacked, Grows, IsBacked-Grows, any-append_left, resolve_items-lem}
pub use Resolve.*

IsCovered-of_IsAccounted :
    (roots : List RemotePath) (ws : Warnings) (p : RemotePath)
    → IsAccounted roots ws p
    → IsCovered roots p
IsCovered-of_IsAccounted roots ws p (inl m) =
    Any-map (λ r e. subst (λ x. covers x p ≡ true) e (covers_refl p)) roots m
IsCovered-of_IsAccounted roots ws p (inr (r, m, c, _)) =
    Any-of_In (λ x. covers x p ≡ true) roots m c

pub record IsSoundPreview (s : BackupSelection) (inventory : Option DockerInventory)
    (p : CaptureSelectionPreview) : Type 0 where
  -- Every selected path is under a root, and no root is under another.
  pub covered : All (IsCovered p.normalized_roots) (requested s.items)
  pub antichain : IsAntichain p.normalized_roots
  pub chosen : All (λ r. In r (requested s.items)) p.normalized_roots
  -- The recorded layout is valid, and has these roots.
  pub layout : IsValidLayout p.source_layout
  pub roots : p.source_layout.roots ≡ p.normalized_roots
  pub few_roots : length p.normalized_roots ≤ 32
  -- Every selected Docker item is in the inventory, and live containers are warned of.
  pub backed : All (IsBacked inventory p.warnings) s.items

Grows-of_In :
    (ws ws' : Warnings) → ((w : CaptureSelectionWarning) → In w ws → In w ws') → Grows ws ws'
Grows-of_In ws ws' f test h =
    let (w, m, t) = Any-find (λ w. test w ≡ true) ws (any→Any test ws h) in
    Any→any test ws' (Any-of_In (λ w. test w ≡ true) ws' (f w m) t)

append_sqlite_warning-Grows :
    (sqlite : Option RemotePath) (roots : List RemotePath) (ws : Warnings)
    → Grows ws (append_sqlite_warning sqlite roots ws)
unfolding append_sqlite_warning
append_sqlite_warning-Grows none roots ws test h = h
append_sqlite_warning-Grows (some p) roots ws test h =
    elim (Option-cases (find (λ root. covers root p) roots)) [
      | inl e ↦ rw (e, append_sqlite_warning) h
      | inr (r, e) ↦
          rw (e, append_sqlite_warning)
            (any-append_left test ws (sqlite_also_in_filesystem p r ∷ []) h)
    ]

-- The parts of a preview, put together.
assemble :
    (s : BackupSelection) (inventory : Option DockerInventory) (p : CaptureSelectionPreview)
    (paths : List RemotePath) (ws : Warnings)
    → paths ≡ requested s.items
    → All (IsBacked inventory ws) s.items
    → All IsValidPath (requested s.items)
    → IsValidLayout p.source_layout
    → p.source_layout.roots ≡ (normalize_roots paths ws).0
    → p.normalized_roots ≡ (normalize_roots paths ws).0
    → p.warnings
      ≡ append_sqlite_warning s.sqlite_path
          (normalize_roots paths ws).0
          (normalize_roots paths ws).1
    → IsSoundPreview s inventory p
assemble s inventory p paths ws e b v l r n w =
    let normal = normalize_roots-IsNormal paths ws (subst (All IsValidPath) (sym e) v) in
    let out = normalize_roots paths ws in
    record {
      covered =
          subst (λ x. All (IsCovered x) (requested s.items)) (sym n)
            (subst (All (IsCovered out.0)) e
              (All-map (λ q k. IsCovered-of_IsAccounted out.0 out.1 q k) paths normal.accounted));
      antichain = subst IsAntichain (sym n) normal.antichain;
      chosen =
          subst (All (λ q. In q (requested s.items))) (sym n)
            (subst (λ x. All (λ q. In q x) out.0) e normal.chosen);
      layout = l;
      roots = r ∙ sym n;
      few_roots = subst (λ x. length x ≤ 32) (r ∙ sym n) l.few_roots;
      backed =
          subst (λ x. All (IsBacked inventory x) s.items) (sym w)
            (All-map
              (λ item k.
                IsBacked-Grows inventory ws _ item
                  (λ test t.
                    append_sqlite_warning-Grows s.sqlite_path out.0 out.1 test
                      (Grows-of_In ws out.1 (normalize_roots-warned paths ws) test t))
                  k)
              s.items b);
    }

module _ (to_vec : BackupSelection → List RemotePath → Option Bytes) (sha256 : Bytes → Bytes) where
  -- If the selected paths are valid and the selection is accepted, then: every selected path is
  -- covered by a root; no root covers another, each is a selected path, and there are at most 32;
  -- the recorded layout is valid and has these roots; and every selected Docker mount or group
  -- stands in the inventory, with a warning for each of its containers that is live.
  pub preview-IsSoundPreview :
      (s : BackupSelection) (inventory : Option DockerInventory) (p : CaptureSelectionPreview)
      → All IsValidPath (requested s.items)
      → preview_capture_selection to_vec sha256 s inventory ≡ ok p
      → IsSoundPreview s inventory p
  unfolding preview_capture_selection resolve_roots
  preview-IsSoundPreview s inventory p v h =
      let (_, h1) = (>>_iff (validate_selection s) _ p).0 h in
      let (_, h2) = (>>_iff _ _ p).0 h1 in
      let (resolved, e, h3) = >>=-eq-ok (resolve_roots s inventory []) _ h2 in
      let normal = normalize_roots resolved.0 resolved.1 in
      let (text, _, h4) = >>=-eq-ok (confirmation to_vec sha256 s normal.0) _ h3 in
      let ids = selected_container_ids s.items inventory in
      let (layout, f, h5) =
        >>=-eq-ok (map_err (λ _. docker_selection_changed) (from_inventory normal.0 ids inventory))
          _ h4 in
      let same = ok-injective h5 in
      let (paths, _, backed) = resolve_items-lem inventory s.items [] resolved e in
      let (roots, _, valid) =
        from_inventory_lem normal.0 ids inventory layout (map_err-eq-ok _ _ f) in
      assemble s inventory p resolved.0 resolved.1 paths backed v
        (subst IsValidLayout (ap (λ q. q.source_layout) same) valid)
        (ap (λ q. q.source_layout.roots) (sym same) ∙ roots)
        (ap (λ q. q.normalized_roots) (sym same)) (ap (λ q. q.warnings) (sym same))
