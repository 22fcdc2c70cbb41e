-- ===== src/Docker/Checked.antt =====
-- What an inventory that passed `DockerInventory::validate` guarantees
-- (crates/guardian-core/src/docker.rs).
use vds_guardian.Identifiers.{valid_absolute_path}
use vds_guardian.Prelude.{
  [], ◌∷◌, ◌≡◌, refl, IsUnique, ok, List, true, map, ◌↔◌, is_none_or, All, arith, insert_all_iff,
  length, nat_eq, list_eq, ◌≤◌, >>_iff, insert_all, not, ensure_iff, ◌∷◌, All-map, Bool-cases,
  try_for_each_iff, contains, all→All, inl, inr, All→all, ltb, err-ne-ok,
}
use vds_guardian.Text.{Text}
use vds_guardian.Docker.Inventory.{
  DockerContainer, DockerMount, DockerNetwork, DockerInventory, validate_container,
  validate_inventory, validate_containers, unique, validate_mount, validate_network, valid_id,
  valid_text, valid_label, valid_digest, duplicate_field, has_invalid_text, has_invalid_field,
  duplicate_container, invalid_container, invalid_secret_reference,
}

-- The bounds on a container's own fields.
abbrev pub HasValidFields : DockerContainer → Type 0
HasValidFields c =
    (valid_id c.id ≡ true)
    × (valid_text c.name 255 ≡ true)
    × (valid_text c.image 512 ≡ true)
    × (is_none_or valid_digest c.image_digest ≡ true)
    × (is_none_or valid_label c.compose_project ≡ true)
    × (length c.mounts ≤ 128)
    × (length c.networks ≤ 64)
    × (length c.secret_references ≤ 128)

abbrev pub IsValidMount : DockerMount → Type 0
IsValidMount m =
    (valid_text m.source_reference 1024 ≡ true)
    × (valid_absolute_path m.destination ≡ true)
    × (is_none_or valid_absolute_path m.host_path ≡ true)

abbrev pub IsValidNetwork : DockerNetwork → Type 0
IsValidNetwork n = (valid_label n.name ≡ true) × (valid_id n.network_id ≡ true)

pub record IsValidContainer (c : DockerContainer) : Type 0 where
  pub fields : HasValidFields c
  pub destinations : IsUnique (map (λ m. m.destination) c.mounts)
  pub names : IsUnique (map (λ n. n.name) c.networks)
  pub secrets : IsUnique c.secret_references
  pub mounts : All IsValidMount c.mounts
  pub networks : All IsValidNetwork c.networks
  pub labels : All (λ s. valid_label s ≡ true) c.secret_references

validate_mount_iff : (m : DockerMount) → (validate_mount m ≡ ok tt) ↔ IsValidMount m
unfolding validate_mount
validate_mount_iff m = (λ h. ground arith, λ h. ground arith)

validate_network_iff : (n : DockerNetwork) → (validate_network n ≡ ok tt) ↔ IsValidNetwork n
unfolding validate_network
validate_network_iff n = (λ h. ground arith, λ h. ground arith)

unique_iff : (xs : List Text) → (unique xs ≡ ok tt) ↔ IsUnique xs
unfolding unique
unique_iff xs = insert_all_iff duplicate_field xs

has_invalid_text_iff :
    (c : DockerContainer)
    → (not (has_invalid_text c) ≡ true)
      ↔ ((valid_id c.id ≡ true) × (valid_text c.name 255 ≡ true) × (valid_text c.image 512 ≡ true))
unfolding has_invalid_text
has_invalid_text_iff c = (λ h. ground arith, λ h. ground arith)

abbrev HasValidBounds : DockerContainer → Type 0
HasValidBounds c =
    (is_none_or valid_digest c.image_digest ≡ true)
    × (is_none_or valid_label c.compose_project ≡ true)
    × (length c.mounts ≤ 128)
    × (length c.networks ≤ 64)
    × (length c.secret_references ≤ 128)

has_invalid_field_iff :
    (c : DockerContainer) → (not (has_invalid_field c) ≡ true) ↔ HasValidBounds c
unfolding has_invalid_field
has_invalid_field_iff c = (λ h. ground arith, λ h. ground arith)

pub validate_container_iff :
    (c : DockerContainer) → (validate_container c ≡ ok tt) ↔ IsValidContainer c
unfolding validate_container
validate_container_iff c = (sound, complete)
  where
    sound : validate_container c ≡ ok tt → IsValidContainer c
    sound h =
        let (h1, k1) = (>>_iff _ _ tt).0 h in
        let (h2, k2) = (>>_iff _ _ tt).0 k1 in
        let (h3, k3) = (>>_iff _ _ tt).0 k2 in
        let (h4, k4) = (>>_iff _ _ tt).0 k3 in
        let (h5, k5) = (>>_iff _ _ tt).0 k4 in
        let (h6, k6) = (>>_iff _ _ tt).0 k5 in
        let (h7, h8) = (>>_iff _ _ tt).0 k6 in
        let (a, b, d) = (has_invalid_text_iff c).0 ((ensure_iff _ invalid_container).0 h1) in
        let (e, f, g, i, j) = (has_invalid_field_iff c).0 ((ensure_iff _ invalid_container).0 h2) in
        record {
          fields = (a, b, d, e, f, g, i, j);
          destinations = (unique_iff _).0 h3;
          names = (unique_iff _).0 h4;
          secrets = (unique_iff _).0 h5;
          mounts =
              All-map (λ m. (validate_mount_iff m).0) c.mounts
                ((try_for_each_iff validate_mount c.mounts).0 h6);
          networks =
              All-map (λ n. (validate_network_iff n).0) c.networks
                ((try_for_each_iff validate_network c.networks).0 h7);
          labels =
              all→All valid_label c.secret_references
                ((ensure_iff _ invalid_secret_reference).0 h8);
        }

    complete : IsValidContainer c → validate_container c ≡ ok tt
    complete v =
        let (a, b, d, e, f, g, i, j) = v.fields in
        (>>_iff _ _ tt).1 (
          (ensure_iff _ invalid_container).1 ((has_invalid_text_iff c).1 (a, b, d)),
          (>>_iff _ _ tt).1 (
            (ensure_iff _ invalid_container).1 ((has_invalid_field_iff c).1 (e, f, g, i, j)),
            (>>_iff _ _ tt).1 (
              (unique_iff _).1 v.destinations,
              (>>_iff _ _ tt).1 (
                (unique_iff _).1 v.names,
                (>>_iff _ _ tt).1 (
                  (unique_iff _).1 v.secrets,
                  (>>_iff _ _ tt).1 (
                    (try_for_each_iff validate_mount c.mounts).1
                        (All-map (λ m. (validate_mount_iff m).1) c.mounts v.mounts),
                    (>>_iff _ _ tt).1 (
                      (try_for_each_iff validate_network c.networks).1
                          (All-map (λ n. (validate_network_iff n).1) c.networks v.networks),
                      (ensure_iff _ invalid_secret_reference).1
                          (All→all valid_label c.secret_references v.labels),
                    ),
                  ),
                ),
              ),
            ),
          ),
        )

abbrev pub container_ids : List DockerContainer → List Text
container_ids cs = map (λ c. c.id) cs

validate_containers_iff :
    (seen : List Text) (cs : List DockerContainer)
    → (validate_containers seen cs ≡ ok tt)
      ↔ ((insert_all duplicate_container seen (container_ids cs) ≡ ok tt) × All IsValidContainer cs)
unfolding validate_containers insert_all
validate_containers_iff seen [] = (λ h. (refl, tt), λ h. refl)
validate_containers_iff seen (c ∷ cs) = elim (Bool-cases (contains seen c.id)) [
  | inl y ↦ (
    λ h. absurd (err-ne-ok ((>>_iff _ _ tt).0 (rw y at h)).1),
    λ (h, _). absurd (err-ne-ok (rw y at h)),
  )
  | inr n ↦ (
    λ h.
        let (v, k) = (>>_iff _ _ tt).0 (rw n at h) in
        let (u, vs) = (validate_containers_iff (c.id ∷ seen) cs).0 k in
        (rw n u, ((validate_container_iff c).0 v, vs)),
    λ (h, (v, vs)).
        rw ((validate_container_iff c).1 v, n)
          ((validate_containers_iff (c.id ∷ seen) cs).1 (rw n at h, vs)),
  )
]

-- An inventory is accepted exactly when it has at most 500 containers with different ids, each of
-- them valid: bounded and well-formed fields, no destination, network or secret named twice, and
-- every mount, network and secret reference valid.
pub validate_inventory_iff :
    (inv : DockerInventory)
    → (validate_inventory inv ≡ ok tt) ↔ (
        (length inv.containers ≤ 500)
        × IsUnique (container_ids inv.containers)
        × All IsValidContainer inv.containers)
unfolding validate_inventory
validate_inventory_iff inv = elim (Bool-cases (ltb 500 (length inv.containers))) [
  | inl y ↦ (λ h. absurd (ground arith), λ (l, _, _). absurd (ground arith))
  | inr n ↦ (
    λ h.
        let (u, vs) = (validate_containers_iff [] inv.containers).0 (rw n at h) in
        (ground arith, (insert_all_iff duplicate_container (container_ids inv.containers)).0 u, vs),
    λ (_, u, vs). rw n (
        (validate_containers_iff [] inv.containers).1
          ((insert_all_iff duplicate_container (container_ids inv.containers)).1 u, vs)),
  )
]
