-- ===== src/Retention/Defs.antt =====
-- The policy, the plan and its construction (crates/guardian-core/src/retention.rs).
use vds_guardian.Prelude.{
  ℕ, ◌-◌, ◌/◌, ◌%◌, [], ◌∷◌, ◌++◌, Result, List, Option, if◌then◌else◌, map, filter, drop, length,
  ◌==◌, not, ltb, err, contains, ◌&&◌, ok, take, nat_eq, ◌>>=◌, ok_or, map_err,
}
use vds_guardian.Text.{Text, Bytes, str, decimal}
use vds_guardian.Identifiers.{identifier_eq, BackupId, PlanId, RepositoryId, Timestamp, plan, parse}

pub record RetentionPolicy : Type 0 where
  pub max_backups : ℕ
  pub minimum_backups : ℕ

pub data RetentionPolicyError : Type 0 where
  empty_repository_allowed minimum_exceeds_maximum : RetentionPolicyError

unfoldable pub new_policy : ℕ → ℕ → Result RetentionPolicyError RetentionPolicy
new_policy max_backups minimum_backups =
    if max_backups == 0
    then err empty_repository_allowed
    else if ltb max_backups minimum_backups
    then err minimum_exceeds_maximum
    else ok (record { max_backups = max_backups; minimum_backups = minimum_backups })

pub record RetentionSnapshotEntry : Type 0 where
  pub backup_id : BackupId
  pub sealed_at : Timestamp

pub record RetentionPlan : Type 0 where
  pub plan_id : PlanId
  pub repository_id : RepositoryId
  pub policy : RetentionPolicy
  pub snapshot : List RetentionSnapshotEntry
  pub delete_backup_ids : List BackupId

abbrev pub backup_ids : List RetentionSnapshotEntry → List BackupId
backup_ids entries = map (λ entry. entry.backup_id) entries

unfoldable pub retained_backup_ids : RetentionPlan → List BackupId
retained_backup_ids self =
    backup_ids
      (filter (λ entry. not (contains self.delete_backup_ids entry.backup_id)) self.snapshot)

unfoldable pub confirmation_phrase : RetentionPlan → Text
confirmation_phrase self =
    str "DELETE "
    ++ (decimal (length self.delete_backup_ids) ++ (str " BACKUPS " ++ self.plan_id.as_str))

pub data RetentionPlanError : Type 0 where
  integrity serialization : RetentionPlanError

pub record PlanDigest : Type 0 where
  pub repository_id : RepositoryId
  pub policy : RetentionPolicy
  pub snapshot : List RetentionSnapshotEntry
  pub delete_backup_ids : List BackupId

abbrev pub nth : List ℕ → ℕ → ℕ
nth xs i = elim (drop i xs) [ [] ↦ 0 | x ∷ rest ↦ x ]

-- `ALPHABET[byte >> 4]` and `ALPHABET[byte & 0x0f]`, for a byte
abbrev pub alphabet : Text
alphabet = str "0123456789abcdef"

unfoldable pub hex : Bytes → Text
hex [] = []
hex (byte ∷ bytes) = nth alphabet (byte / 16) ∷ nth alphabet (byte % 16) ∷ hex bytes

-- `serde_json::to_vec` and SHA-256 are third-party code.
module _ (to_vec : PlanDigest → Option Bytes) (sha256 : Bytes → Bytes) where
  unfoldable pub build_retention_plan :
      RepositoryId
      → RetentionPolicy
      → List RetentionSnapshotEntry
      → Result RetentionPlanError RetentionPlan
  build_retention_plan repository_id policy snapshot =
      let delete_count = length snapshot - policy.max_backups in
      if ltb 0 delete_count && ltb (length snapshot - delete_count) policy.minimum_backups
      then err integrity
      else do
        let delete_backup_ids = backup_ids (take delete_count snapshot)
        let digest : PlanDigest = record {
          repository_id = repository_id;
          policy = policy;
          snapshot = snapshot;
          delete_backup_ids = delete_backup_ids;
        }
        bytes ← ok_or (to_vec digest) serialization
        plan_id ← map_err (λ _. serialization) (parse plan (hex (sha256 bytes)))
        ok (record {
          plan_id = plan_id;
          repository_id = repository_id;
          policy = policy;
          snapshot = snapshot;
          delete_backup_ids = delete_backup_ids;
        })
