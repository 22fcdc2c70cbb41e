-- ===== src/Docker/Layouts.antt =====
-- Which source layouts are accepted, and what `from_inventory` gives
-- (crates/guardian-core/src/source_layout.rs).
use vds_guardian.Prelude.{
  ◌≡◌, ◌≤◌, refl, [], ◌∷◌, List, length, false, true, IsUnique, map, is_empty, ◌↔◌, is_none_or, All,
  ap, arith, contains, suc, any, nat_eq, list_eq, not, Bool, Bool-cases, inl, any→Any, inr, Any→any,
  Eq, ok, insert_all, to_set, ◌==◌, to_set-IsUnique, insert_all_iff, Option, filter, sym,
  ok-injective, >>=-eq-ok, >>_iff, subst,
}
use vds_guardian.Text.{Text}
use vds_guardian.Identifiers.{RemotePath, covers}
use vds_guardian.Docker.Inventory.{
  DockerContainer, DockerInventory, valid_id, valid_text, valid_digest, valid_label,
}
use vds_guardian.Docker.Described.{IsCovered, DescribeAll, snapshot_all-DescribeAll}
use vds_guardian.Docker.Layout.{
  SourceLayout, DockerWorkloadSnapshot, DockerMountSnapshot, validate_layout, validate_workloads,
  invalid_workload, repeats_destination, has_uncovered_mount, from_inventory, snapshot_all,
  containers_of, invalid,
}

pub record IsValidWorkload (roots : List RemotePath) (w : DockerWorkloadSnapshot) : Type 0 where
  pub some_mount : 1 ≤ length w.mounts
  pub few_mounts : length w.mounts ≤ 128
  pub id : valid_id w.container_id ≡ true
  pub name : valid_text w.container_name 255 ≡ true
  pub image : valid_text w.image 512 ≡ true
  pub digest : is_none_or valid_digest w.image_digest ≡ true
  pub project : is_none_or valid_label w.compose_project ≡ true
  pub destinations : IsUnique (map (λ m. m.destination.as_str) w.mounts)
  pub covered : All (λ m. IsCovered roots m.source_path) w.mounts

pub record IsValidLayout (l : SourceLayout) : Type 0 where
  pub some_root : 1 ≤ length l.roots
  pub few_roots : length l.roots ≤ 32
  pub few_workloads : length l.docker_workloads ≤ 128
  pub roots : IsUnique (map (λ r. r.as_str) l.roots)
  pub distinct_ids : IsUnique (map (λ w. w.container_id) l.docker_workloads)
  pub workloads : All (IsValidWorkload l.roots) l.docker_workloads

abbrev HasValidFields : DockerWorkloadSnapshot → Type 0
HasValidFields w =
    (1 ≤ length w.mounts)
    × (length w.mounts ≤ 128)
    × (valid_id w.container_id ≡ true)
    × (valid_text w.container_name 255 ≡ true)
    × (valid_text w.image 512 ≡ true)
    × (is_none_or valid_digest w.image_digest ≡ true)
    × (is_none_or valid_label w.compose_project ≡ true)

length-map {ℓ κ} :
    {A : Type ℓ} {B : Type κ} (f : A → B) (xs : List A) → length (map f xs) ≡ length xs
length-map f [] = refl
length-map f (x ∷ xs) = ap suc (length-map f xs)

is_empty_iff {ℓ} : {A : Type ℓ} (xs : List A) → (is_empty xs ≡ false) ↔ (1 ≤ length xs)
is_empty_iff [] = (λ h. cc, λ h. absurd (omega arith))
is_empty_iff (x ∷ xs) = (λ h. omega arith, λ h. refl)

invalid_workload_iff :
    (seen : List Text) (w : DockerWorkloadSnapshot)
    → (invalid_workload seen w ≡ false)
      ↔ ((contains seen w.container_id ≡ false) × HasValidFields w)
unfolding invalid_workload
invalid_workload_iff seen w =
    (λ h. ground (arith, is_empty_iff w.mounts), λ h. ground (arith, is_empty_iff w.mounts))

same_size_iff {ℓ κ} :
    {A : Type ℓ} {B : Type κ} ⦃e : Eq B⦄ (f : A → B) (xs : List A)
    → (not (length (to_set (map f xs)) == length xs) ≡ false) ↔ IsUnique (map f xs)
same_size_iff f xs = (
  λ h. (to_set-IsUnique (map f xs)).0 (ground (arith, length-map f xs)),
  λ u. ground (arith, length-map f xs, (to_set-IsUnique (map f xs)).1 u),
)

repeats_destination_iff :
    (w : DockerWorkloadSnapshot)
    → (repeats_destination w ≡ false) ↔ IsUnique (map (λ m. m.destination.as_str) w.mounts)
unfolding repeats_destination
repeats_destination_iff w = same_size_iff (λ m. m.destination.as_str) w.mounts

has_uncovered_mount_iff :
    (roots : List RemotePath) (w : DockerWorkloadSnapshot)
    → (has_uncovered_mount roots w ≡ false) ↔ All (λ m. IsCovered roots m.source_path) w.mounts
unfolding has_uncovered_mount
has_uncovered_mount_iff roots w = go w.mounts
  where
    go :
        (ms : List DockerMountSnapshot)
        → (any (λ mount. not (any (λ root. covers root mount.source_path) roots)) ms ≡ false)
          ↔ All (λ m. IsCovered roots m.source_path) ms
    go [] = (λ h. tt, λ h. refl)
    go (m ∷ ms) = elim (Bool-cases (any (λ root. covers root m.source_path) roots)) [
      | inl y ↦ (λ h. (any→Any _ roots y, (go ms).0 (rw y at h)), λ (_, k). rw y ((go ms).1 k))
      | inr n ↦ (λ h. absurd (ground arith), λ (k, _). absurd (clash n (Any→any _ roots k)))
    ]
      where
        clash : {b : Bool} → b ≡ false → b ≡ true → ⊥
        clash p q = cc

workload_iff :
    (roots : List RemotePath) (w : DockerWorkloadSnapshot)
    → IsValidWorkload roots w
      ↔ (HasValidFields w × (repeats_destination w ≡ false) × (has_uncovered_mount roots w ≡ false))
workload_iff roots w = (
  λ v. (
    (v.some_mount, v.few_mounts, v.id, v.name, v.image, v.digest, v.project),
    (repeats_destination_iff w).1 v.destinations,
    (has_uncovered_mount_iff roots w).1 v.covered,
  ),
  λ (f, d, c). record {
    some_mount = f.0;
    few_mounts = f.1;
    id = f.2;
    name = f.3;
    image = f.4;
    digest = f.5;
    project = f.6;
    destinations = (repeats_destination_iff w).0 d;
    covered = (has_uncovered_mount_iff roots w).0 c;
  },
)

abbrev pub workload_ids : List DockerWorkloadSnapshot → List Text
workload_ids ws = map (λ w. w.container_id) ws

-- One round of the loop.
validate_workloads-cons_iff :
    (roots : List RemotePath) (seen : List Text) (w : DockerWorkloadSnapshot)
    (ws : List DockerWorkloadSnapshot)
    → (validate_workloads roots seen (w ∷ ws) ≡ ok tt) ↔ (
        (invalid_workload seen w ≡ false)
        × (repeats_destination w ≡ false)
        × (has_uncovered_mount roots w ≡ false)
        × (validate_workloads roots (w.container_id ∷ seen) ws ≡ ok tt))
unfolding validate_workloads
validate_workloads-cons_iff roots seen w ws = (λ h. ground arith, λ h. ground arith)

validate_workloads_iff :
    (roots : List RemotePath) (seen : List Text) (ws : List DockerWorkloadSnapshot)
    → (validate_workloads roots seen ws ≡ ok tt)
      ↔ ((insert_all invalid seen (workload_ids ws) ≡ ok tt) × All (IsValidWorkload roots) ws)
unfolding insert_all
validate_workloads_iff roots seen [] = (λ h. (refl, tt), λ h. unfold validate_workloads in refl)
validate_workloads_iff roots seen (w ∷ ws) = (
  λ h.
      let (a, b, c, k) = (validate_workloads-cons_iff roots seen w ws).0 h in
      let (fresh, fields) = (invalid_workload_iff seen w).0 a in
      let (u, vs) = (validate_workloads_iff roots (w.container_id ∷ seen) ws).0 k in
      (rw fresh u, ((workload_iff roots w).1 (fields, b, c), vs)),
  λ (h, (v, vs)).
      let (fields, b, c) = (workload_iff roots w).0 v in
      let (fresh, u) = fresh_part h in
      (validate_workloads-cons_iff roots seen w ws).1 (
        (invalid_workload_iff seen w).1 (fresh, fields),
        b,
        c,
        (validate_workloads_iff roots (w.container_id ∷ seen) ws).1 (u, vs),
      ),
)
  where
    fresh_part :
        insert_all invalid seen (workload_ids (w ∷ ws)) ≡ ok tt
        → (contains seen w.container_id ≡ false)
          × (insert_all invalid (w.container_id ∷ seen) (workload_ids ws) ≡ ok tt)
    fresh_part h = ground arith

validate_layout_parts_iff :
    (l : SourceLayout)
    → (validate_layout l ≡ ok tt) ↔ (
        (1 ≤ length l.roots)
        × (length l.roots ≤ 32)
        × (length l.docker_workloads ≤ 128)
        × (not (length (to_set (map (λ root. root.as_str) l.roots)) == length l.roots) ≡ false)
        × (validate_workloads l.roots [] l.docker_workloads ≡ ok tt))
unfolding validate_layout
validate_layout_parts_iff l =
    (λ h. ground (arith, is_empty_iff l.roots), λ h. ground (arith, is_empty_iff l.roots))

-- A layout is accepted exactly when it has 1 to 32 different roots and at most 128 workloads with
-- different ids, each with 1 to 128 mounts at different destinations, well-formed fields, and
-- every mount's source under one of the roots.
pub validate_layout_iff : (l : SourceLayout) → (validate_layout l ≡ ok tt) ↔ IsValidLayout l
validate_layout_iff l = (
  λ h.
      let (a, b, c, d, k) = (validate_layout_parts_iff l).0 h in
      let (u, vs) = (validate_workloads_iff l.roots [] l.docker_workloads).0 k in
      record {
        some_root = a;
        few_roots = b;
        few_workloads = c;
        roots = (same_size_iff (λ r. r.as_str) l.roots).0 d;
        distinct_ids = (insert_all_iff invalid (workload_ids l.docker_workloads)).0 u;
        workloads = vs;
      },
  λ v. (validate_layout_parts_iff l).1 (
    v.some_root,
    v.few_roots,
    v.few_workloads,
    (same_size_iff (λ r. r.as_str) l.roots).1 v.roots,
    (validate_workloads_iff l.roots [] l.docker_workloads).1
        ((insert_all_iff invalid (workload_ids l.docker_workloads)).1 v.distinct_ids, v.workloads),
  ),
)

abbrev pub selected : List Text → Option DockerInventory → List DockerContainer
selected chosen inventory = filter (λ c. contains chosen c.id) (containers_of inventory)

-- A layout made from an inventory is valid, has the given roots, and has one workload for each
-- selected container of the inventory, in its order. A workload has the id, name, image, digest,
-- project and state of its container, and its mounts are, in order, exactly the container's
-- mounts whose host path (the source of a bind, the host path of a volume) is a valid path under
-- one of the roots and whose destination is a valid path, each with these two paths and its mode.
pub from_inventory_lem :
    (roots : List RemotePath) (chosen : List Text) (inventory : Option DockerInventory)
    (l : SourceLayout)
    → from_inventory roots chosen inventory ≡ ok l
    → (l.roots ≡ roots)
      × DescribeAll roots (selected chosen inventory) l.docker_workloads
      × IsValidLayout l
unfolding from_inventory
from_inventory_lem roots chosen inventory l h =
    let (ws, e, h1) = >>=-eq-ok (snapshot_all roots (selected chosen inventory)) _ h in
    let (v, g) =
      (>>_iff (validate_layout (record { roots = roots; docker_workloads = ws })) _ l).0 h1 in
    let made : SourceLayout = record { roots = roots; docker_workloads = ws } in
    let same : made ≡ l = ok-injective g in
    (
      ap (λ k. k.roots) (sym same),
      subst (λ k. DescribeAll roots (selected chosen inventory) k.docker_workloads) same
          (snapshot_all-DescribeAll roots (selected chosen inventory) ws e),
      subst IsValidLayout same
          ((validate_layout_iff (record { roots = roots; docker_workloads = ws })).0 v),
    )
