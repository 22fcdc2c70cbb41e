-- ===== src/Docker/Described.antt =====
-- How the workloads and mounts of a layout correspond to containers and their mounts
-- (crates/guardian-core/src/source_layout.rs, `snapshot`; docker.rs, `capturable_path`).
use vds_guardian.Prelude.{
  ◌≡◌, ◌↔◌, ◌⊎◌, refl, sym, ap, ◌∙◌, subst, true, Bool-cases, inl, inr, Option, none, some, List,
  [], ◌∷◌, Any, any, any→Any, Any→any, filter_map, is_empty, ok, err-ne-ok, ok-injective, >>=-eq-ok,
  if◌then◌else◌,
}
use vds_guardian.Text.{Text}
use vds_guardian.Identifiers.{RemotePath, covers, valid_remote_root, parse_remote_path}
use vds_guardian.Docker.Inventory.{
  DockerContainer, DockerMount, DockerMountKind, bind, volume, tmpfs, capturable, capturable_path,
}
use vds_guardian.Docker.Layout.{
  DockerWorkloadSnapshot, DockerMountSnapshot, accepted, snapshot_mount, snapshot, snapshot_all,
}

-- A path that one of the roots covers.
abbrev pub IsCovered : List RemotePath → RemotePath → Type 0
IsCovered roots p = Any (λ root. covers root p ≡ true) roots

-- The path on the host that a mount shows: the source of a bind, the host path of a volume.
abbrev pub IsSourceOf : DockerMount → Text → Type 0
IsSourceOf m p =
    ((m.kind ≡ bind) × (m.source_reference ≡ p)) ⊎ ((m.kind ≡ volume) × (m.host_path ≡ some p))

-- The mount has a source that is a valid path under one of the roots, and a valid destination.
abbrev pub IsCapturable : List RemotePath → DockerMount → Type 0
IsCapturable roots m =
    (p : Text) × IsSourceOf m p
    × (valid_remote_root p ≡ true)
    × IsCovered roots (record { as_str = p })
    × (valid_remote_root m.destination ≡ true)

abbrev pub IsSnapshotOf : DockerMount → DockerMountSnapshot → Type 0
IsSnapshotOf m s =
    IsSourceOf m s.source_path.as_str
    × (s.destination.as_str ≡ m.destination)
    × (s.read_only ≡ m.read_only)

-- The snapshots are those of the capturable mounts, in their order, and no others.
abbrev pub AreSnapshots : List RemotePath → List DockerMount → List DockerMountSnapshot → Type 0
AreSnapshots roots [] [] = Unit
AreSnapshots roots [] (s ∷ ss) = ⊥
AreSnapshots roots (m ∷ ms) [] = ¬ IsCapturable roots m × AreSnapshots roots ms []
AreSnapshots roots (m ∷ ms) (s ∷ ss) =
    (¬ IsCapturable roots m × AreSnapshots roots ms (s ∷ ss))
    ⊎ (IsCapturable roots m × IsSnapshotOf m s × AreSnapshots roots ms ss)

pub record Describes (roots : List RemotePath) (c : DockerContainer) (w : DockerWorkloadSnapshot)
    : Type 0 where
  pub container_id : w.container_id ≡ c.id
  pub container_name : w.container_name ≡ c.name
  pub image : w.image ≡ c.image
  pub image_digest : w.image_digest ≡ c.image_digest
  pub compose_project : w.compose_project ≡ c.compose_project
  pub state : w.state ≡ c.state
  pub mounts : AreSnapshots roots c.mounts w.mounts

-- One workload for each container, in their order.
abbrev pub DescribeAll :
    List RemotePath → List DockerContainer → List DockerWorkloadSnapshot → Type 0
DescribeAll roots [] [] = Unit
DescribeAll roots [] (w ∷ ws) = ⊥
DescribeAll roots (c ∷ cs) [] = ⊥
DescribeAll roots (c ∷ cs) (w ∷ ws) = Describes roots c w × DescribeAll roots cs ws

capturable_path_iff : (m : DockerMount) (p : Text) → (capturable_path m ≡ some p) ↔ IsSourceOf m p
unfolding capturable_path
capturable_path_iff m p = by_kind m.kind refl
  where
    by_kind :
        (kind : DockerMountKind) → m.kind ≡ kind → (capturable m.kind m ≡ some p) ↔ IsSourceOf m p
    by_kind bind e = (
      λ h. inl (e, cc (sym (ap (λ k. capturable k m) e) ∙ h)),
      λ s. elim s [
        | inl (_, q) ↦ ap (λ k. capturable k m) e ∙ ap some q
        | inr (k, _) ↦ absurd (cc (sym e ∙ k))
      ],
    )
    by_kind volume e = (
      λ h. inr (e, sym (ap (λ k. capturable k m) e) ∙ h),
      λ s. elim s [
        | inl (k, _) ↦ absurd (cc (sym e ∙ k))
        | inr (_, q) ↦ ap (λ k. capturable k m) e ∙ q
      ],
    )
    by_kind tmpfs e = (
      λ h. absurd (cc (sym (ap (λ k. capturable k m) e) ∙ h)),
      λ s. elim s [ inl (k, _) ↦ absurd (cc (sym e ∙ k)) | inr (k, _) ↦ absurd (cc (sym e ∙ k)) ],
    )

accepted-parse_remote_path :
    (t : Text)
    → accepted (parse_remote_path t)
      ≡ (if valid_remote_root t then some (record { as_str = t }) else none)
unfolding parse_remote_path
accepted-parse_remote_path t = elim (Bool-cases (valid_remote_root t)) [
  | inl y ↦ rw y refl
  | inr n ↦ rw n refl
]

abbrev IsDecided : List RemotePath → DockerMount → Option DockerMountSnapshot → Type 0
IsDecided roots m none = ¬ IsCapturable roots m
IsDecided roots m (some s) = IsCapturable roots m × IsSnapshotOf m s

some-injective : {A : Type 0} {x y : A} → ◌≡◌ {A = Option A} (some x) (some y) → x ≡ y
some-injective e = cc

-- A source is told by the mount.
IsSourceOf-unique : (m : DockerMount) (p q : Text) → IsSourceOf m p → IsSourceOf m q → p ≡ q
IsSourceOf-unique m p q a b =
    some-injective (sym ((capturable_path_iff m p).1 a) ∙ (capturable_path_iff m q).1 b)

snapshot_mount-IsDecided :
    (roots : List RemotePath) (m : DockerMount) → IsDecided roots m (snapshot_mount roots m)
unfolding snapshot_mount
snapshot_mount-IsDecided roots m = by_source (capturable_path m) refl
  where
    by_source :
        (found : Option Text)
        → capturable_path m ≡ found
        → IsDecided roots m (snapshot_mount roots m)
    by_source none e = rw e (λ (p, s, _, _, _). absurd (cc (sym e ∙ (capturable_path_iff m p).1 s)))
    by_source (some p) e =
        let here = (capturable_path_iff m p).0 e in
        let path : RemotePath = record { as_str = p } in
        elim (Bool-cases (valid_remote_root p)) [
          | inr n ↦
              rw (e, accepted-parse_remote_path p, n)
                (λ (q, s, v, _, _). absurd (
                  cc (
                    sym n
                    ∙ subst (λ x. valid_remote_root x ≡ true) (IsSourceOf-unique m q p s here) v)))
          | inl y ↦ elim (Bool-cases (any (λ root. covers root path) roots)) [
            | inr u ↦
                rw (e, accepted-parse_remote_path p, y, u)
                  (λ (q, s, _, k, _). absurd (
                    cc (
                      sym u
                      ∙ Any→any _ roots (
                          subst (λ x. IsCovered roots (record { as_str = x }))
                            (IsSourceOf-unique m q p s here) k))))
            | inl c ↦ elim (Bool-cases (valid_remote_root m.destination)) [
              | inr d ↦
                  rw
                    (
                      e,
                      accepted-parse_remote_path p,
                      y,
                      c,
                      accepted-parse_remote_path m.destination,
                      d,
                    )
                    (λ (_, _, _, _, v). absurd (cc (sym d ∙ v)))
              | inl d ↦
                  rw
                    (
                      e,
                      accepted-parse_remote_path p,
                      y,
                      c,
                      accepted-parse_remote_path m.destination,
                      d,
                    )
                    ((p, here, y, any→Any _ roots c, d), (here, refl, refl))
            ]
          ]
        ]

-- The snapshots that `snapshot` collects.
filter_map-AreSnapshots :
    (roots : List RemotePath) (ms : List DockerMount)
    → AreSnapshots roots ms (filter_map (snapshot_mount roots) ms)
filter_map-AreSnapshots roots [] = tt
filter_map-AreSnapshots roots (m ∷ ms) =
    by_mount (snapshot_mount roots m) (snapshot_mount-IsDecided roots m)
      (filter_map-AreSnapshots roots ms)
  where
    skipped :
        (ss : List DockerMountSnapshot)
        → ¬ IsCapturable roots m
        → AreSnapshots roots ms ss
        → AreSnapshots roots (m ∷ ms) ss
    skipped [] n h = (n, h)
    skipped (s ∷ ss) n h = inl (n, h)

    by_mount :
        (found : Option DockerMountSnapshot)
        → IsDecided roots m found
        → AreSnapshots roots ms (filter_map (snapshot_mount roots) ms)
        → AreSnapshots roots (m ∷ ms) (
            let rest = filter_map (snapshot_mount roots) ms in
            elim found [ none ↦ rest | some s ↦ s ∷ rest ])
    by_mount none n h = skipped (filter_map (snapshot_mount roots) ms) n h
    by_mount (some s) (c, t) h = inr (c, t, h)

snapshot-Describes :
    (roots : List RemotePath) (c : DockerContainer) (w : DockerWorkloadSnapshot)
    → snapshot c roots ≡ ok w
    → Describes roots c w
unfolding snapshot
snapshot-Describes roots c w h =
    elim (Bool-cases (is_empty (filter_map (snapshot_mount roots) c.mounts))) [
      | inl y ↦ absurd (err-ne-ok (rw y at h))
      | inr n ↦ subst (Describes roots c) (ok-injective (rw n at h)) (record {
        container_id = refl;
        container_name = refl;
        image = refl;
        image_digest = refl;
        compose_project = refl;
        state = refl;
        mounts = filter_map-AreSnapshots roots c.mounts;
      })
    ]

pub snapshot_all-DescribeAll :
    (roots : List RemotePath) (cs : List DockerContainer) (ws : List DockerWorkloadSnapshot)
    → snapshot_all roots cs ≡ ok ws
    → DescribeAll roots cs ws
unfolding snapshot_all
snapshot_all-DescribeAll roots [] ws h = subst (DescribeAll roots []) (ok-injective h) tt
snapshot_all-DescribeAll roots (c ∷ cs) ws h =
    let (w, e, h1) = >>=-eq-ok (snapshot c roots) _ h in
    let (vs, f, g) = >>=-eq-ok (snapshot_all roots cs) _ h1 in
    subst (DescribeAll roots (c ∷ cs)) (ok-injective g)
      (snapshot-Describes roots c w e, snapshot_all-DescribeAll roots cs vs f)
