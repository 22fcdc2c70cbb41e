-- ===== src/Plans/Approved.antt =====
-- When a plan is built and approved (crates/guardian-core/src/restore.rs, deploy.rs).
use vds_guardian.Profile.{VdsProfile, validate_profile}
use vds_guardian.Identifiers.{RemoteTargetPath}
use vds_guardian.Text.{str}
use vds_guardian.Prelude.{
  ◌≡◌, ◌↔◌, refl, Bool, true, false, Bool-cases, inl, inr, List, [], ◌∷◌, not, is_empty, ◌==◌,
  list_eq, ==→eq, ok, err, err-ne-ok, Result, map_err, map_err-eq-ok, >>=-eq-ok, >>-eq-ok, ensure,
  ensure_iff, ok-injective, sym, ap, subst, if◌then◌else◌, Option, ◌∙◌, nat_eq, ◌++◌,
}
use vds_guardian.Text.{Text, Bytes}
use vds_guardian.Manifest.{Manifest, validate_sealed, select_payloads}
use vds_guardian.Plans.Defs.{
  DeploymentPlan, build_deployment, approve_deployment, deploy_manifest, deploy_selection,
  invalid_target_profile, deploy_confirmation_required, Metadata, found, not_found, other_error,
  means_occupied, destination_occupied, RestorePlan, RestorePlanError, LocalPaths, restore_manifest,
  unsafe_destination, restore_selection, conflicts_present, restore_confirmation, restore_impact,
  build_restore, approve_restore,
}

approve_restore_iff :
    (p : RestorePlan) (c : Text)
    → (approve_restore p c ≡ ok tt) ↔ ((c ≡ p.confirmation_text) × (p.impact.conflicts ≡ []))
unfolding approve_restore
approve_restore_iff p c = elim (Bool-cases (c == p.confirmation_text)) [
  | inr n ↦ (
    λ h. absurd (err-ne-ok (rw n at h)),
    λ (e, _). absurd (differs n ((list_eq.beq_iff c p.confirmation_text).1 e)),
  )
  | inl y ↦ (
    λ h. (==→eq c p.confirmation_text y, none_left p.impact.conflicts (rw y at h)),
    λ (_, q). rw (y, q) refl,
  )
]
  where
    differs : {b : Bool} → b ≡ false → b ≡ true → ⊥
    differs f t = cc

    none_left :
        (cs : List Text)
        → ◌≡◌ {A = Result RestorePlanError (Unit {0})}
            (if not (is_empty cs) then err conflicts_present else ok tt)
            (ok tt)
        → cs ≡ []
    none_left [] h = refl
    none_left (x ∷ cs) h = absurd (err-ne-ok h)

module _ (paths : LocalPaths) (decode : Text → Option Bytes) where
  -- A restore is planned only from a sealed manifest into an absolute destination, with the payloads
  -- that the manifest selects. The plan is approved by the exact confirmation, which names the
  -- backup and the destination, and by nothing else; and only if nothing stands at the
  -- destination when the plan is made.
  pub build_restore-approve :
      (m : Manifest) (destination c : Text) (p : RestorePlan)
      → build_restore paths decode m destination ≡ ok p
      → (validate_sealed decode m ≡ ok tt)
        × (paths.is_absolute destination ≡ true)
        × (select_payloads m ≡ ok (p.filesystem_payload, p.database_payload))
        × ((approve_restore p c ≡ ok tt) ↔ (
            (c ≡ restore_confirmation m destination)
            × (paths.symlink_metadata destination ≡ not_found)))
  unfolding build_restore restore_impact
  build_restore-approve m destination c p h =
      let (h1, k1) = >>-eq-ok (map_err restore_manifest (validate_sealed decode m)) _ h in
      let (h2, k2) = >>-eq-ok (ensure (paths.is_absolute destination) unsafe_destination) _ k1 in
      let (s, h3, k3) = >>=-eq-ok (map_err restore_selection (select_payloads m)) _ k2 in
      let made = ok-injective k3 in
      (
        map_err-eq-ok restore_manifest (validate_sealed decode m) h1,
        (ensure_iff _ unsafe_destination).0 h2,
        map_err-eq-ok restore_selection (select_payloads m) h3
            ∙ ap (λ q. ok (q.filesystem_payload, q.database_payload)) made,
        subst
            (λ q. (approve_restore q c ≡ ok tt) ↔ (
              (c ≡ restore_confirmation m destination)
              × (paths.symlink_metadata destination ≡ not_found)))
            made (approved _ refl refl),
      )
    where
      free :
          (o : Metadata)
          → ((if means_occupied o then destination ∷ [] else []) ≡ []) ↔ (o ≡ not_found)
      free found = (λ e. cc, λ e. cc)
      free not_found = (λ e. refl, λ e. refl)
      free other_error = (λ e. cc, λ e. cc)

      approved :
          (q : RestorePlan)
          → q.confirmation_text ≡ restore_confirmation m destination
          → q.impact.conflicts
            ≡ (if destination_occupied paths destination then destination ∷ [] else [])
          → (approve_restore q c ≡ ok tt) ↔ (
              (c ≡ restore_confirmation m destination)
              × (paths.symlink_metadata destination ≡ not_found))
      approved q e f = (
        λ a.
            let (x, y) = (approve_restore_iff q c).0 a in
            (x ∙ e, (free (paths.symlink_metadata destination)).0 (sym f ∙ y)),
        λ (x, y).
            (approve_restore_iff q c).1
              (x ∙ sym e, f ∙ (free (paths.symlink_metadata destination)).1 y),
      )

approve_deployment_iff :
    (p : DeploymentPlan) (c : Text) → (approve_deployment p c ≡ ok tt) ↔ (c ≡ p.confirmation_text)
unfolding approve_deployment
approve_deployment_iff p c = (
  λ h. ==→eq c p.confirmation_text ((ensure_iff _ deploy_confirmation_required).0 h),
  λ e. (ensure_iff _ deploy_confirmation_required).1 ((list_eq.beq_iff c p.confirmation_text).1 e),
)

-- A deployment is planned only from a sealed manifest onto a valid profile, with the payloads that
-- the manifest selects, to the given path. The plan is approved by the exact confirmation, which
-- names the backup, the profile and the path, and by nothing else.
pub build_deployment-approve :
    (decode : Text → Option Bytes) (m : Manifest) (target : VdsProfile) (path : RemoteTargetPath)
    (c : Text) (p : DeploymentPlan)
    → build_deployment decode m target path ≡ ok p
    → (validate_sealed decode m ≡ ok tt)
      × (validate_profile decode target ≡ ok tt)
      × (select_payloads m ≡ ok (p.filesystem_payload, p.database_payload))
      × (p.target_path ≡ path)
      × (p.target_profile_id ≡ target.profile_id)
      × ((approve_deployment p c ≡ ok tt) ↔ (
          c
          ≡ str "DEPLOY "
            ++ (m.backup_id.as_str
                ++ (str " TO " ++ (target.profile_id.as_str ++ (str ":" ++ path.as_str))))))
unfolding build_deployment
build_deployment-approve decode m target path c p h =
    let (h1, k1) = >>-eq-ok (map_err deploy_manifest (validate_sealed decode m)) _ h in
    let (h2, k2) =
      >>-eq-ok (map_err (λ _. invalid_target_profile) (validate_profile decode target)) _ k1 in
    let (s, h3, k3) = >>=-eq-ok (map_err deploy_selection (select_payloads m)) _ k2 in
    let made = ok-injective k3 in
    let phrase = ap (λ q. q.confirmation_text) made in
    (
      map_err-eq-ok deploy_manifest (validate_sealed decode m) h1,
      map_err-eq-ok (λ _. invalid_target_profile) (validate_profile decode target) h2,
      map_err-eq-ok deploy_selection (select_payloads m) h3
          ∙ ap (λ q. ok (q.filesystem_payload, q.database_payload)) made,
      ap (λ q. q.target_path) (sym made),
      ap (λ q. q.target_profile_id) (sym made),
      (
        λ a. (approve_deployment_iff p c).0 a ∙ sym phrase,
        λ e. (approve_deployment_iff p c).1 (e ∙ phrase),
      ),
    )
