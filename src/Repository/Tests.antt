-- ===== src/Repository/Tests.antt =====
-- Runs of a retention transaction and its recovery on a disk with two backups.
use vds_guardian.Prelude.{
  ℕ, ◌≡◌, refl, Option, none, some, List, [], ◌∷◌, list_beq, if◌then◌else◌, ◌==◌, try_for_each,
}
use vds_guardian.Text.{str}
use vds_guardian.Identifiers.{BackupId, PlanId, RepositoryId, identifier_eq}
use vds_guardian.Repository.{
  RetentionIntent, Node, directory, Disk, Fault, fine, stops, World, Outcome, done, failed, stopped,
  recovery_required, perform, execute_moves, reconcile_transaction, write_approved,
  begin_transaction, write_new, sync_parent, move_all, rename_to_trash, mark_cleanup_ready,
  cleanup_transaction, check_cleanup, check_trash, remove_each, remove_dir_all, remove_empty_trash,
  write_completed, finish, remove_cleanup_mark, remove_intent,
}
use vds_guardian.Repository.CrashSafe.{fresh, reconcile_transaction-torn}

abbrev old : BackupId
old = record { as_str = str "old" }

abbrev new : BackupId
new = record { as_str = str "new" }

abbrev backups : BackupId → Option (Node ℕ)
backups n = if n == old then some (directory 10) else if n == new then some (directory 20) else none

abbrev disk : Disk ℕ
disk = fresh backups

abbrev plan : PlanId
plan = record { as_str = str "plan" }

abbrev home : RepositoryId
home = record { as_str = str "home" }

abbrev intent : RetentionIntent
intent = record {
  format_version = 1;
  plan_id = plan;
  repository_id = home;
  delete_backup_ids = old ∷ [];
}

abbrev halved : ℕ → ℕ
halved n = 1

abbrev run : List Fault → World ℕ × Outcome (Unit {0})
run faults = execute_moves halved intent (record { disk = disk; faults = faults })

-- When all calls go well, the backup is gone, and the other is there.
all_well :
    ((run []).1 ≡ done tt)
    × ((run []).0.disk.active old ≡ none)
    × ((run []).0.disk.active new ≡ some (directory 20))
unfolding execute_moves write_approved begin_transaction write_new sync_parent perform move_all
    rename_to_trash mark_cleanup_ready cleanup_transaction check_cleanup check_trash remove_each
    remove_dir_all remove_empty_trash write_completed finish remove_cleanup_mark remove_intent
    try_for_each list_beq
all_well = (refl, refl, refl)

-- The second rename is never reached: the process is stopped when the backup is in quarantine.
abbrev stopped_faults : List Fault
stopped_faults =
    fine ∷ fine ∷ fine ∷ fine ∷ fine ∷ fine ∷ fine ∷ fine ∷ fine ∷ fine ∷ fine ∷ fine ∷ fine ∷ fine
    ∷ stops ∷ []

in_quarantine :
    ((run stopped_faults).1 ≡ stopped)
    × ((run stopped_faults).0.disk.active old ≡ none)
    × ((run stopped_faults).0.disk.trash ≡ some ((old, directory 10) ∷ []))
unfolding execute_moves write_approved begin_transaction write_new sync_parent perform move_all
    rename_to_trash list_beq
in_quarantine = (refl, refl, refl)

reconcile_transaction-torn_example :
    let w = (run (fine ∷ fine ∷ fine ∷ fine ∷ fine ∷ fine ∷ fine ∷ stops ∷ [])).0 in
    (w.disk.intent ≡ some none)
    × (reconcile_transaction halved home plan w ≡ (w, failed recovery_required))
reconcile_transaction-torn_example = reconcile_transaction-torn halved backups intent home plan
