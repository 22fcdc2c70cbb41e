-- ===== src/Plans/Reconciled.antt =====
-- What an approved replacement has checked of the current state
-- (crates/guardian-core/src/replace.rs).
use vds_guardian.Prelude.{
  ◌≡◌, ◌⊎◌, inl, inr, refl, Bool, true, false, Bool-cases, Option, none, some, List, [], ◌∷◌, ◌++◌,
  All, In, not, any, find, ◌==◌, ◌||◌, list_eq, option_eq, ==→eq, ok, err-ne-ok, ensure_iff, arith,
  find_sound, nat_eq,
}
use vds_guardian.Text.{Text, Bytes, str}
use vds_guardian.Docker.{
  DockerContainer, DockerInventory, DockerWorkloadSnapshot, DockerMountSnapshot,
}
use vds_guardian.Plans.Replace.{
  SourceReplacementPlan, replace_confirmation, mount_matches, pushed, compare_workload,
  reconcile_one, reconcile_all, reconcile_workloads, refresh_confirmation, reconcile_current,
  approve_replacement,
}

-- A container of the inventory is the captured workload: same id, name, image, digest and project,
-- and every captured mount is there, from the same source.
pub record IsUnchanged (expected : DockerWorkloadSnapshot) (current : DockerContainer)
    : Type 0 where
  pub same_id : current.id ≡ expected.container_id
  pub same_name : current.name ≡ expected.container_name
  pub same_image : current.image ≡ expected.image
  pub same_digest : current.image_digest ≡ expected.image_digest
  pub same_project : current.compose_project ≡ expected.compose_project
  pub same_mounts : All (λ mount. mount_matches mount current ≡ true) expected.mounts

abbrev pub IsPresent : DockerInventory → DockerWorkloadSnapshot → Type 0
IsPresent inventory expected =
    (current : DockerContainer) × In current inventory.containers × IsUnchanged expected current

cons-ne-nil : {z : Text} {zs : List Text} → z ∷ zs ≡ [] → ⊥
cons-ne-nil q = cc

append-nil_parts : (xs ys : List Text) → xs ++ ys ≡ [] → (xs ≡ []) × (ys ≡ [])
append-nil_parts [] ys e = (refl, e)
append-nil_parts (x ∷ xs) ys e = absurd (cons-ne-nil e)

pushed-nil :
    (test : Bool) (label : Text) (expected : DockerWorkloadSnapshot)
    → pushed test label expected ≡ []
    → test ≡ false
pushed-nil true label expected e = absurd (cons-ne-nil e)
pushed-nil false label expected e = refl

all_matched :
    (current : DockerContainer) (mounts : List DockerMountSnapshot)
    → any (λ mount. not (mount_matches mount current)) mounts ≡ false
    → All (λ mount. mount_matches mount current ≡ true) mounts
all_matched current [] h = tt
all_matched current (m ∷ ms) h = elim (Bool-cases (mount_matches m current)) [
  | inl y ↦ (y, all_matched current ms (ground arith))
  | inr n ↦ absurd (ground arith)
]

not-false : (b : Bool) → not b ≡ false → b ≡ true
not-false true h = refl
not-false false h = cc

compare_workload-nil :
    (expected : DockerWorkloadSnapshot) (current : DockerContainer)
    → current.id ≡ expected.container_id
    → compare_workload expected current ≡ []
    → IsUnchanged expected current
unfolding compare_workload
compare_workload-nil expected current i h =
    let (a, h1) =
      append-nil_parts
        (pushed (not (current.name == expected.container_name)) (str "container_name_changed:")
          expected)
        _ h in
    let images =
      not (current.image == expected.image)
      || not (current.image_digest == expected.image_digest) in
    let (b, h2) = append-nil_parts (pushed images (str "container_image_changed:") expected) _ h1 in
    let (c, d) =
      append-nil_parts
        (pushed (not (current.compose_project == expected.compose_project))
          (str "container_compose_changed:") expected)
        _ h2 in
    let (x, y) =
      neither (current.image == expected.image) (current.image_digest == expected.image_digest)
        (pushed-nil images (str "container_image_changed:") expected b) in
    record {
      same_id = i;
      same_name =
          ==→eq current.name expected.container_name
            (not-false _ (pushed-nil _ (str "container_name_changed:") expected a));
      same_image = ==→eq current.image expected.image x;
      same_digest = ==→eq current.image_digest expected.image_digest y;
      same_project =
          ==→eq current.compose_project expected.compose_project
            (not-false _ (pushed-nil _ (str "container_compose_changed:") expected c));
      same_mounts =
          all_matched current expected.mounts
            (pushed-nil _ (str "container_mount_changed:") expected d);
    }
  where
    neither : (a b : Bool) → not a || not b ≡ false → (a ≡ true) × (b ≡ true)
    neither a b h = (ground arith, ground arith)

reconcile_one-IsPresent :
    (inventory : DockerInventory) (expected : DockerWorkloadSnapshot)
    → (reconcile_one inventory expected).0 ≡ []
    → IsPresent inventory expected
unfolding reconcile_one
reconcile_one-IsPresent inventory expected h =
    by_found (find (λ item. item.id == expected.container_id) inventory.containers) refl
  where
    by_found :
        (o : Option DockerContainer)
        → find (λ item. item.id == expected.container_id) inventory.containers ≡ o
        → IsPresent inventory expected
    by_found none q = absurd (cons-ne-nil (rw (q, reconcile_one) at h))
    by_found (some current) q =
        let (m, e) =
          find_sound (λ item. item.id == expected.container_id) inventory.containers current q in
        (
          current,
          m,
          compare_workload-nil expected current (==→eq current.id expected.container_id e)
              (rw (q, reconcile_one) at h),
        )

reconcile_all-IsPresent :
    (inventory : DockerInventory) (workloads : List DockerWorkloadSnapshot)
    → (reconcile_all inventory workloads).0 ≡ []
    → All (IsPresent inventory) workloads
unfolding reconcile_all
reconcile_all-IsPresent inventory [] h = tt
reconcile_all-IsPresent inventory (w ∷ ws) h =
    let (a, b) = append-nil_parts (reconcile_one inventory w).0 (reconcile_all inventory ws).0 h in
    (reconcile_one-IsPresent inventory w a, reconcile_all-IsPresent inventory ws b)

approve-no_conflicts :
    (p : SourceReplacementPlan) (c : Text)
    → approve_replacement p c ≡ ok tt
    → (p.impact.conflicts ≡ []) × (c ≡ p.impact.confirmation_text)
unfolding approve_replacement
approve-no_conflicts p c h = by_conflicts p.impact.conflicts refl
  where
    by_conflicts :
        (cs : List Text)
        → p.impact.conflicts ≡ cs
        → (p.impact.conflicts ≡ []) × (c ≡ p.impact.confirmation_text)
    by_conflicts [] q = (
      q,
      ==→eq c p.impact.confirmation_text
          ((ensure_iff _ replace_confirmation).0 (rw (q, approve_replacement) at h)),
    )
    by_conflicts (x ∷ cs) q = absurd (err-ne-ok (rw (q, approve_replacement) at h))

workloads-IsPresent :
    (p : SourceReplacementPlan) (inventory : Option DockerInventory)
    → (reconcile_workloads p inventory).impact.conflicts ≡ []
    → (p.docker_workloads ≡ [])
      ⊎ ((known : DockerInventory) × (inventory ≡ some known)
          × All (IsPresent known) p.docker_workloads)
unfolding reconcile_workloads
workloads-IsPresent p inventory h = by_workloads p.docker_workloads refl inventory refl
  where
    by_workloads :
        (ws : List DockerWorkloadSnapshot)
        → p.docker_workloads ≡ ws
        → (o : Option DockerInventory) → inventory ≡ o
        → (p.docker_workloads ≡ [])
          ⊎ ((known : DockerInventory) × (inventory ≡ some known)
              × All (IsPresent known) p.docker_workloads)
    by_workloads [] q o e = inl q
    by_workloads (w ∷ ws) q none e = absurd (cons-ne-nil (rw (q, e, reconcile_workloads) at h))
    by_workloads (w ∷ ws) q (some known) e = inr (
      known,
      e,
      reconcile_all-IsPresent known p.docker_workloads (rw (q, e, reconcile_workloads) at h),
    )

-- If a replacement is approved after it was reconciled with the current inventory, then the
-- confirmation is the one of the reconciled plan, and either no workload was captured, or the
-- inventory was there and every captured workload is in it unchanged.
pub approve_replacement-reconcile_current :
    (sha256 : Bytes → Text) (p : SourceReplacementPlan) (inventory : Option DockerInventory)
    (c : Text)
    → approve_replacement (reconcile_current sha256 p inventory) c ≡ ok tt
    → (c ≡ (reconcile_current sha256 p inventory).impact.confirmation_text)
      × ((p.docker_workloads ≡ [])
          ⊎ ((known : DockerInventory) × (inventory ≡ some known)
              × All (IsPresent known) p.docker_workloads))
unfolding reconcile_current refresh_confirmation
approve_replacement-reconcile_current sha256 p inventory c h =
    let (a, b) = approve-no_conflicts (reconcile_current sha256 p inventory) c h in
    (b, workloads-IsPresent p inventory a)
