-- ===== src/Retention/Kept.antt =====
-- What a plan deletes and what it keeps (crates/guardian-core/src/retention.rs).
use vds_guardian.Prelude.{
  min, ℕ, ◌-◌, ◌≤◌, ◌≡◌, ◌≢◌, refl, [], ◌∷◌, ◌++◌, inl, inr, ok, List, Bool, ◌↔◌, not, filter, All,
  In, ap, IsUnique, arith, contains, Bool-cases, false, true, Any→any, All_of_In, ◌==◌, ne→==-false,
  Any-map, sym, ◌∙◌, take, length, Option, ap₂, drop, suc, subst, take-append-drop, ltb,
  length-drop, ◌&&◌, err-ne-ok, >>=-eq-ok, ok-injective, ok_or, map_err,
}
use vds_guardian.Text.{Bytes}
use vds_guardian.Identifiers.{plan, parse, BackupId, RepositoryId, identifier_eq}
use vds_guardian.Retention.Defs.{
  RetentionPolicy, new_policy, RetentionSnapshotEntry, RetentionPlan, backup_ids,
  retained_backup_ids, PlanDigest, build_retention_plan, serialization, hex,
}

-- What `RetentionPolicy::new` lets through.
abbrev pub IsValidPolicy : RetentionPolicy → Type 0
IsValidPolicy p = (1 ≤ p.max_backups) × (p.minimum_backups ≤ p.max_backups)

pub new_policy_iff :
    (most least : ℕ) (p : RetentionPolicy)
    → (new_policy most least ≡ ok p)
      ↔ ((p.max_backups ≡ most) × (p.minimum_backups ≡ least) × IsValidPolicy p)
unfolding new_policy
new_policy_iff most least p = (λ h. ground arith, λ h. ground arith)

abbrev keeps : List BackupId → RetentionSnapshotEntry → Bool
keeps deleted entry = not (contains deleted entry.backup_id)

filter-append :
    (test : RetentionSnapshotEntry → Bool) (xs ys : List RetentionSnapshotEntry)
    → filter test (xs ++ ys) ≡ filter test xs ++ filter test ys
filter-append test [] ys = refl
filter-append test (x ∷ xs) ys = elim (Bool-cases (test x)) [
  | inl y ↦ rw y (ap (λ r. x ∷ r) (filter-append test xs ys))
  | inr n ↦ rw n (filter-append test xs ys)
]

filter-none :
    (test : RetentionSnapshotEntry → Bool) (xs : List RetentionSnapshotEntry)
    → All (λ x. test x ≡ false) xs
    → filter test xs ≡ []
filter-none test [] h = refl
filter-none test (x ∷ xs) (n, h) = rw n (filter-none test xs h)

filter-all :
    (test : RetentionSnapshotEntry → Bool) (xs : List RetentionSnapshotEntry)
    → All (λ x. test x ≡ true) xs
    → filter test xs ≡ xs
filter-all test [] h = refl
filter-all test (x ∷ xs) (y, h) = rw y (ap (λ r. x ∷ r) (filter-all test xs h))

contains-In : (ids : List BackupId) (i : BackupId) → In i ids → contains ids i ≡ true
contains-In ids i m =
    Any→any (λ x. i == x) ids (Any-map (λ x e. (identifier_eq.beq_iff i x).1 e) ids m)

In-map :
    (xs : List RetentionSnapshotEntry) (x : RetentionSnapshotEntry)
    → In x xs
    → In x.backup_id (backup_ids xs)
In-map [] x m = absurd m
In-map (y ∷ xs) x (inl e) = inl (ap (λ r. r.backup_id) e)
In-map (y ∷ xs) x (inr m) = inr (In-map xs x m)

deleted_are_dropped :
    (xs : List RetentionSnapshotEntry) → All (λ x. keeps (backup_ids xs) x ≡ false) xs
deleted_are_dropped xs =
    All_of_In (λ x. keeps (backup_ids xs) x ≡ false) xs
      (λ x m. ap not (contains-In (backup_ids xs) x.backup_id (In-map xs x m)))

map-append-ids :
    (xs ys : List RetentionSnapshotEntry) → backup_ids (xs ++ ys) ≡ backup_ids xs ++ backup_ids ys
map-append-ids [] ys = refl
map-append-ids (x ∷ xs) ys = ap (λ r. x.backup_id ∷ r) (map-append-ids xs ys)

-- In a list without repetition, what stands behind is not among what stands before.
All-split_right : (P : BackupId → Type 0) (xs ys : List BackupId) → All P (xs ++ ys) → All P ys
All-split_right P [] ys h = h
All-split_right P (x ∷ xs) ys (_, h) = All-split_right P xs ys h

apart : (xs ys : List BackupId) → IsUnique (xs ++ ys) → All (λ y. contains xs y ≡ false) ys
apart [] ys u = All_of_In (λ y. contains [] y ≡ false) ys (λ y m. refl)
apart (x ∷ xs) ys (n, u) = join ys (All-split_right (λ y. x ≢ y) xs ys n) (apart xs ys u)
  where
    join :
        (zs : List BackupId)
        → All (λ y. x ≢ y) zs
        → All (λ y. contains xs y ≡ false) zs
        → All (λ y. contains (x ∷ xs) y ≡ false) zs
    join [] h k = tt
    join (z ∷ zs) (h, hs) (k, ks) = (rw (ne→==-false z x (λ e. h (sym e))) k, join zs hs ks)

abbrev EntriesApart : List RetentionSnapshotEntry → List RetentionSnapshotEntry → Type 0
EntriesApart xs ys = All (λ y. keeps (backup_ids xs) y ≡ true) ys

kept_of_ids :
    (deleted : List BackupId) (ys : List RetentionSnapshotEntry)
    → All (λ i. contains deleted i ≡ false) (backup_ids ys)
    → All (λ y. keeps deleted y ≡ true) ys
kept_of_ids deleted [] h = tt
kept_of_ids deleted (y ∷ ys) (n, h) = (ap not n, kept_of_ids deleted ys h)

filter_split :
    (xs ys : List RetentionSnapshotEntry)
    → IsUnique (backup_ids (xs ++ ys))
    → filter (keeps (backup_ids xs)) (xs ++ ys) ≡ ys
filter_split xs ys u =
    filter-append (keeps (backup_ids xs)) xs ys
    ∙ ap₂ (λ a b. a ++ b) (filter-none (keeps (backup_ids xs)) xs (deleted_are_dropped xs))
        (filter-all (keeps (backup_ids xs)) ys (
          kept_of_ids (backup_ids xs) ys
            (apart (backup_ids xs) (backup_ids ys) (subst IsUnique (map-append-ids xs ys) u))))

filter-drop :
    (n : ℕ) (snapshot : List RetentionSnapshotEntry)
    → IsUnique (backup_ids snapshot)
    → filter (keeps (backup_ids (take n snapshot))) snapshot ≡ drop n snapshot
filter-drop n snapshot u =
    ap (filter (keeps (backup_ids (take n snapshot)))) (sym (take-append-drop n snapshot))
    ∙ filter_split (take n snapshot) (drop n snapshot)
        (subst (λ s. IsUnique (backup_ids s)) (sym (take-append-drop n snapshot)) u)

length-backup_ids : (xs : List RetentionSnapshotEntry) → length (backup_ids xs) ≡ length xs
length-backup_ids [] = refl
length-backup_ids (x ∷ xs) = ap suc (length-backup_ids xs)

module _ (to_vec : PlanDigest → Option Bytes) (sha256 : Bytes → Bytes) where
  -- What the plan that is returned says.
  plan_parts :
      (repository : RepositoryId) (policy : RetentionPolicy)
      (snapshot : List RetentionSnapshotEntry) (p : RetentionPlan)
      → build_retention_plan to_vec sha256 repository policy snapshot ≡ ok p
      → (p.snapshot ≡ snapshot)
        × (p.delete_backup_ids ≡ backup_ids (take (length snapshot - policy.max_backups) snapshot))
  unfolding build_retention_plan
  plan_parts repository policy snapshot p h =
      let n = length snapshot - policy.max_backups in
      let test = ltb 0 n && ltb (length snapshot - n) policy.minimum_backups in
      elim (Bool-cases test) [
        | inl y ↦ absurd (err-ne-ok (rw y at h))
        | inr f ↦
            let digest : PlanDigest = record {
              repository_id = repository;
              policy = policy;
              snapshot = snapshot;
              delete_backup_ids = backup_ids (take n snapshot);
            } in
            let (bs, e, h1) = >>=-eq-ok (ok_or (to_vec digest) serialization) _ (rw f at h) in
            let (i, g, h2) =
              >>=-eq-ok (map_err (λ _. serialization) (parse plan (hex (sha256 bs)))) _ h1 in
            (
              ap (λ q. q.snapshot) (sym (ok-injective h2)),
              ap (λ q. q.delete_backup_ids) (sym (ok-injective h2)),
            )
      ]

  retained-drop :
      (repository : RepositoryId) (policy : RetentionPolicy)
      (snapshot : List RetentionSnapshotEntry) (p : RetentionPlan)
      → IsUnique (backup_ids snapshot)
      → build_retention_plan to_vec sha256 repository policy snapshot ≡ ok p
      → retained_backup_ids p ≡ backup_ids (drop (length snapshot - policy.max_backups) snapshot)
  unfolding retained_backup_ids
  retained-drop repository policy snapshot p u h =
      let (s, d) = plan_parts repository policy snapshot p h in
      ap₂ (λ ds es. backup_ids (filter (keeps ds) es)) d s
      ∙ ap backup_ids (filter-drop (length snapshot - policy.max_backups) snapshot u)

  -- With different backups in the snapshot, a plan deletes the first of them and keeps the rest:
  -- together, in order, they are the snapshot. It keeps as many as the snapshot has, at most the
  -- policy's maximum, and so never fewer than the policy's minimum, if there were as many.
  pub retained_lem :
      (repository : RepositoryId) (policy : RetentionPolicy)
      (snapshot : List RetentionSnapshotEntry) (p : RetentionPlan)
      → IsValidPolicy policy
      → IsUnique (backup_ids snapshot)
      → build_retention_plan to_vec sha256 repository policy snapshot ≡ ok p
      → (p.delete_backup_ids ++ retained_backup_ids p ≡ backup_ids snapshot)
        × (length (retained_backup_ids p) ≡ min (length snapshot) policy.max_backups)
        × (min (length snapshot) policy.minimum_backups ≤ length (retained_backup_ids p))
  retained_lem repository policy snapshot p v u h =
      let n = length snapshot - policy.max_backups in
      let (s, d) = plan_parts repository policy snapshot p h in
      let r = retained-drop repository policy snapshot p u h in
      let size = length_of_drop n r in
      (
        ap₂ (λ a b. a ++ b) d r
            ∙ sym (map-append-ids (take n snapshot) (drop n snapshot))
            ∙ ap backup_ids (take-append-drop n snapshot),
        omega (arith, size),
        omega (arith, size),
      )
    where
      length_of_drop :
          (n : ℕ)
          → retained_backup_ids p ≡ backup_ids (drop n snapshot)
          → length (retained_backup_ids p) ≡ length snapshot - n
      length_of_drop n r =
          ap length r ∙ length-backup_ids (drop n snapshot) ∙ length-drop n snapshot
