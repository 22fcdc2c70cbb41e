-- ===== src/Retention/Tests.antt =====
-- Runs of the retention policy on concrete inputs.
use vds_guardian.Prelude.{
  to_set, list_beq, to_set-IsUnique, list_beq, ◌≡◌, ◌≤◌, ◌%◌, refl, min, ok, err, some, Option,
  List, [], ◌∷◌, ◌++◌, All, IsUnique, length, arith,
}
use vds_guardian.Text.{Text, Bytes, str, len, bytes, encode}
use vds_guardian.Identifiers.{identifier_eq, RepositoryId, parse, parse_identifier}
use vds_guardian.Retention.{
  RetentionPolicy, RetentionSnapshotEntry, RetentionPlan, PlanDigest, new_policy,
  minimum_exceeds_maximum, backup_ids, build_retention_plan, retained_backup_ids, hex,
}
use vds_guardian.Retention.Kept.{IsValidPolicy, retained_lem}
use vds_guardian.Retention.PlanIds.{IsByte, IsPlanFor, build-total}

abbrev entry : Text → RetentionSnapshotEntry
entry name = record {
  backup_id = record { as_str = name };
  sealed_at = record { as_str = str "2024-02-29T23:59:59Z" };
}

abbrev three_backups : List RetentionSnapshotEntry
three_backups = entry (str "a") ∷ entry (str "b") ∷ entry (str "c") ∷ []

abbrev policy : RetentionPolicy
policy = record { max_backups = 2; minimum_backups = 1 }

abbrev main : RepositoryId
main = record { as_str = str "main" }

abbrev to_vec : PlanDigest → Option Bytes
to_vec d = some (length d.snapshot ∷ [])

-- 32 bytes, the first of them the length of what is hashed.
abbrev sha256 : Bytes → Bytes
sha256 bs =
    length bs % 256
    ∷ 1
    ∷ 2
    ∷ 3
    ∷ 4
    ∷ 5
    ∷ 6
    ∷ 7
    ∷ 8
    ∷ 9
    ∷ 10
    ∷ 11
    ∷ 12
    ∷ 13
    ∷ 14
    ∷ 15
    ∷ 16
    ∷ 17
    ∷ 18
    ∷ 19
    ∷ 20
    ∷ 21
    ∷ 22
    ∷ 23
    ∷ 24
    ∷ 25
    ∷ 26
    ∷ 27
    ∷ 28
    ∷ 29
    ∷ 30
    ∷ 255
    ∷ []

abbrev plan_1 : RetentionPlan
plan_1 = record {
  plan_id = record {
    as_str = str "010102030405060708090a0b0c0d0e0f101112131415161718191a1b1c1d1eff";
  };
  repository_id = main;
  policy = policy;
  snapshot = three_backups;
  delete_backup_ids = record { as_str = str "a" } ∷ [];
}

plans : build_retention_plan to_vec sha256 main policy three_backups ≡ ok plan_1
unfolding build_retention_plan hex parse parse_identifier len bytes encode
plans = refl

keeps_the_rest :
    retained_backup_ids plan_1 ≡ record { as_str = str "b" } ∷ record { as_str = str "c" } ∷ []
unfolding retained_backup_ids list_beq
keeps_the_rest = refl

rejects_policy : new_policy 1 2 ≡ err minimum_exceeds_maximum
unfolding new_policy
rejects_policy = refl

policy-IsValid : IsValidPolicy policy
policy-IsValid = (omega arith, omega arith)

three_backups-IsUnique : IsUnique (backup_ids three_backups)
unfolding to_set list_beq
three_backups-IsUnique = (to_set-IsUnique (backup_ids three_backups)).0 refl

encodes : (d : PlanDigest) → (bs : Bytes) × (to_vec d ≡ some bs)
encodes d = (length d.snapshot ∷ [], refl)

digest_size : (bs : Bytes) → (length (sha256 bs) ≡ 32) × All IsByte (sha256 bs)
digest_size bs = (refl, omega arith)

retained_lem_example :
    (plan_1.delete_backup_ids ++ retained_backup_ids plan_1 ≡ backup_ids three_backups)
    × (length (retained_backup_ids plan_1) ≡ min (length three_backups) policy.max_backups)
    × (min (length three_backups) policy.minimum_backups ≤ length (retained_backup_ids plan_1))
retained_lem_example =
    retained_lem to_vec sha256 main policy three_backups plan_1 policy-IsValid
      three_backups-IsUnique plans

build-total_example :
    (p : RetentionPlan) × (build_retention_plan to_vec sha256 main policy three_backups ≡ ok p)
    × IsPlanFor to_vec sha256 main policy three_backups p
build-total_example =
    build-total to_vec sha256 encodes digest_size main policy three_backups policy-IsValid
