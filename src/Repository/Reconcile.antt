-- ===== src/Repository/Reconcile.antt =====
-- The checks of a quarantine directory, its cleanup, the whole transaction, and its recovery
-- (crates/guardian-local-repository/src/retention.rs, retention_journal.rs).
use vds_guardian.Prelude.{
  Bool, true, false, Option, none, some, List, [], ◌∷◌, Result, ok, err, ◌==◌, if◌then◌else◌,
  is_some, contains, any, nat_eq, try_for_each, map,
}
use vds_guardian.Identifiers.{BackupId, PlanId, RepositoryId, identifier_eq}
use vds_guardian.Repository.Files.{
  RepositoryError, audit_conflict, recovery_required, cleanup_pending, unsafe_filesystem_entry, io,
  RetentionIntent, Node, directory, not_directory, Disk, M, pure, fail, handle, perform, inspect,
  look, ◌>>=◌, ◌>>◌, entries_of, get_entry, remove_entry,
}
use vds_guardian.Repository.Journal.{
  validate_intent, sync_parent, write_approved, write_completed, begin_transaction, move_all,
  mark_cleanup_ready, finish, remove_cleanup_mark, remove_intent, remove_empty_trash,
  rename_from_trash,
}

-- `?`, where nothing is done to the disk
abbrev pub and_then {ℓ} :
    {B : Type ℓ}
    → Result RepositoryError (Unit {0})
    → Result RepositoryError B
    → Result RepositoryError B
and_then (ok u) k = k
and_then (err e) k = err e

abbrev pub same_presence :
    Result RepositoryError Bool → Result RepositoryError Bool → Result RepositoryError (Unit {0})
same_presence (err e) quarantined = err e
same_presence (ok active) (err e) = err e
same_presence (ok true) (ok false) = ok tt
same_presence (ok false) (ok true) = ok tt
same_presence (ok _) (ok _) = err recovery_required

-- `read_intent`
abbrev pub parsed : Option (Option RetentionIntent) → Result RepositoryError RetentionIntent
parsed none = err io
parsed (some none) = err recovery_required
parsed (some (some intent)) = ok intent

module _ {T : Type 0} where
  abbrev pub is_directory : Node T → Bool
  is_directory (directory t) = true
  is_directory not_directory = false

  -- `validate_trash_entries`
  abbrev pub check_entry : List BackupId → BackupId × Node T → Result RepositoryError (Unit {0})
  check_entry ids (name, node) =
      if contains ids name
      then (if is_directory node then ok tt else err unsafe_filesystem_entry)
      else err recovery_required

  unfoldable pub check_trash : List BackupId → Disk T → Result RepositoryError (Unit {0})
  check_trash ids d = try_for_each (check_entry ids) (entries_of d.trash)

  -- `validate_cleanup_state`
  unfoldable pub check_cleanup : List BackupId → Disk T → Result RepositoryError (Unit {0})
  check_cleanup ids d =
      and_then (check_trash ids d)
        (if any (λ id. is_some (d.active id)) ids then err recovery_required else ok tt)

  -- `real_directory_or_absent`
  abbrev pub directory_or_absent : Option (Node T) → Result RepositoryError Bool
  directory_or_absent none = ok false
  directory_or_absent (some (directory t)) = ok true
  directory_or_absent (some not_directory) = err unsafe_filesystem_entry

  -- `validate_rollback_state`
  unfoldable pub check_rollback : List BackupId → Disk T → Result RepositoryError (Unit {0})
  check_rollback ids d = and_then (check_trash ids d) (
      try_for_each
        (λ id.
          same_presence (directory_or_absent (d.active id))
            (directory_or_absent (get_entry id (entries_of d.trash))))
        ids)

  -- `rollback_transaction`, over the ids in the reverse order
  unfoldable pub restore_each : List BackupId → M T (Unit {0})
  restore_each [] = pure tt
  restore_each (id ∷ ids) = do
    restore_each ids
    present ← look (λ d. is_some (get_entry id (entries_of d.trash)))
    if present then (rename_from_trash id >> (sync_parent >> sync_parent)) else pure tt

  unfoldable pub rollback_transaction : List BackupId → M T (Unit {0})
  rollback_transaction ids = do inspect (check_rollback ids); restore_each ids; remove_empty_trash

  -- `complete_recovered_transaction`
  abbrev pub unless_conflict : RepositoryError → M T (Unit {0})
  unless_conflict audit_conflict = pure tt
  unless_conflict e = fail e

  unfoldable pub complete_recovered : M T (Unit {0})
  complete_recovered = do handle write_completed unless_conflict; remove_cleanup_mark; remove_intent

  abbrev pub damaged_node : (T → T) → Node T → Node T
  damaged_node part (directory t) = directory (part t)
  damaged_node part not_directory = not_directory

  -- `fs::remove_dir_all`, which may be stopped when it has removed only part of the contents
  abbrev pub damaged : (T → T) → BackupId → List (BackupId × Node T) → List (BackupId × Node T)
  damaged part id entries = map (λ e. if e.0 == id then (e.0, damaged_node part e.1) else e) entries

  module _ (part : T → T) where
    unfoldable pub remove_dir_all : BackupId → M T (Unit {0})
    remove_dir_all id = do
      perform cleanup_pending
          (λ d. (record d { trash = some (damaged part id (entries_of d.trash)) }, ok tt))
      perform cleanup_pending
          (λ d. (record d { trash = some (remove_entry id (entries_of d.trash)) }, ok tt))

    unfoldable pub remove_each : List BackupId → M T (Unit {0})
    remove_each [] = pure tt
    remove_each (id ∷ ids) = do
      present ← look (λ d. is_some (get_entry id (entries_of d.trash)))
      if present then (remove_dir_all id >> sync_parent) else pure tt
      remove_each ids

    -- `cleanup_transaction`
    unfoldable pub cleanup_transaction : List BackupId → M T (Unit {0})
    cleanup_transaction ids = do
      inspect (check_cleanup ids)
      remove_each ids
      handle remove_empty_trash (λ _. fail cleanup_pending)

    -- `execute_moves`
    unfoldable pub execute_moves : RetentionIntent → M T (Unit {0})
    execute_moves intent = do
      write_approved
      begin_transaction intent
      move_all intent.delete_backup_ids []
      mark_cleanup_ready
      cleanup_transaction intent.delete_backup_ids
      write_completed
      finish

    -- `reconcile_transaction`
    abbrev pub after_audit : Bool → RetentionIntent → M T (Unit {0})
    after_audit true intent = do cleanup_transaction intent.delete_backup_ids; remove_intent
    after_audit false intent = do rollback_transaction intent.delete_backup_ids; remove_intent

    abbrev pub after_mark : Bool → RetentionIntent → M T (Unit {0})
    after_mark true intent = do cleanup_transaction intent.delete_backup_ids; complete_recovered
    after_mark false intent = do
      completed ← inspect (λ d. ok d.completed)
      after_audit completed intent

    unfoldable pub reconcile_transaction : RepositoryId → PlanId → M T (Unit {0})
    reconcile_transaction repository_id plan_id = do
      intent ← inspect (λ d. parsed d.intent)
      inspect (λ d. validate_intent intent plan_id repository_id)
      cleanup_ready ← look (λ d. d.cleanup_ready)
      after_mark cleanup_ready intent
