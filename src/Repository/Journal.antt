-- ===== src/Repository/Journal.antt =====
-- Retention on the disk: the moves into quarantine, the cleanup, the journal, and the recovery of an
-- interrupted transaction (crates/guardian-local-repository/src/retention.rs, retention_journal.rs,
-- and `write_new`, `sync_parent` of filesystem.rs).
use vds_guardian.Prelude.{
  ℕ, Bool, true, false, Option, none, some, List, [], ◌∷◌, Result, ok, err, ◌==◌, if◌then◌else◌,
  not, is_some, is_empty, contains, ◌||◌, nat_eq,
}
use vds_guardian.Identifiers.{BackupId, PlanId, RepositoryId, identifier_eq}
use vds_guardian.Repository.Files.{
  RepositoryError, audit_conflict, recovery_required, io, already_exists, RetentionIntent, Node,
  Disk, M, pure, fail, handle, perform, inspect, ◌>>=◌, ◌>>◌, entries_of, get_entry, remove_entry,
  set_active,
}

abbrev pub format_version : ℕ
format_version = 1

-- `has_duplicate_ids`: some id stands before itself.
unfoldable pub has_duplicate_ids : List BackupId → Bool
has_duplicate_ids [] = false
has_duplicate_ids (id ∷ ids) = contains ids id || has_duplicate_ids ids

-- `RetentionIntent::validate`
unfoldable pub validate_intent :
    RetentionIntent → PlanId → RepositoryId → Result RepositoryError (Unit {0})
validate_intent self expected_plan_id repository_id =
    if not (self.format_version == format_version)
      || (not (self.plan_id == expected_plan_id)
          || (not (self.repository_id == repository_id)
              || (is_empty self.delete_backup_ids || has_duplicate_ids self.delete_backup_ids)))
    then err recovery_required
    else ok tt

-- `Io` with the kind `AlreadyExists` becomes `AuditConflict`.
abbrev pub conflict_of : RepositoryError → RepositoryError
conflict_of already_exists = audit_conflict
conflict_of e = e

module _ {T : Type 0} where
  -- `sync_parent`
  unfoldable pub sync_parent : M T (Unit {0})
  sync_parent = perform io (λ d. (d, ok tt))

  -- `write_new`: the file is created empty, written, synced and restricted to its owner.
  unfoldable pub write_new :
      (Disk T → Bool) → (Disk T → Disk T) → (Disk T → Disk T) → M T (Unit {0})
  write_new exists create write_all = do
    perform io (λ d. if exists d then (d, err already_exists) else (create d, ok tt))
    perform io (λ d. (write_all d, ok tt))
    perform io (λ d. (d, ok tt))
    perform io (λ d. (d, ok tt))

  -- `write_retention_audit`, for the state "approved" and for "completed"
  abbrev pub conflict : RepositoryError → M T (Unit {0})
  conflict e = fail (conflict_of e)

  unfoldable pub write_approved : M T (Unit {0})
  write_approved = do
    inspect (λ d. ok tt)
    handle (write_new (λ d. d.approved) (λ d. record d { approved = true }) (λ d. d)) conflict
    sync_parent

  unfoldable pub write_completed : M T (Unit {0})
  write_completed = do
    inspect (λ d. ok tt)
    handle (write_new (λ d. d.completed) (λ d. record d { completed = true }) (λ d. d)) conflict
    sync_parent

  -- `remove_if_exists`, of the cleanup mark and of the intent
  abbrev pub synced_if : Bool → M T (Unit {0})
  synced_if true = sync_parent
  synced_if false = pure tt

  unfoldable pub remove_cleanup_mark : M T (Unit {0})
  remove_cleanup_mark = do
    existed ← perform io (λ d. (record d { cleanup_ready = false }, ok d.cleanup_ready))
    synced_if existed

  unfoldable pub remove_intent : M T (Unit {0})
  remove_intent = do
    existed ← perform io (λ d. (record d { intent = none }, ok (is_some d.intent)))
    synced_if existed

  -- `remove_empty_if_exists` of the quarantine directory, and with its error mapped
  abbrev pub emptied :
      Disk T → Option (List (BackupId × Node T)) → Disk T × Result RepositoryError Bool
  emptied d none = (d, ok false)
  emptied d (some []) = (record d { trash = none }, ok true)
  emptied d (some (e ∷ entries)) = (d, err io)

  unfoldable pub remove_empty_trash : M T (Unit {0})
  remove_empty_trash = do existed ← perform io (λ d. emptied d d.trash); synced_if existed

  -- `RetentionTransaction::begin`
  abbrev pub created :
      Disk T → Option (List (BackupId × Node T)) → Disk T × Result RepositoryError (Unit {0})
  created d none = (record d { trash = some [] }, ok tt)
  created d (some entries) = (d, err audit_conflict)

  unfoldable pub begin_transaction : RetentionIntent → M T (Unit {0})
  begin_transaction intent = do
    write_new (λ d. is_some d.intent) (λ d. record d { intent = some none })
        (λ d. record d { intent = some (some intent) })
    sync_parent
    perform io (λ d. created d d.trash)
    sync_parent

  -- `RetentionTransaction::mark_cleanup_ready`
  unfoldable pub mark_cleanup_ready : M T (Unit {0})
  mark_cleanup_ready = do
    write_new (λ d. d.cleanup_ready) (λ d. record d { cleanup_ready = true }) (λ d. d)
    sync_parent

  -- `finish` and `abort`
  unfoldable pub finish : M T (Unit {0})
  finish = do remove_cleanup_mark; remove_intent

  unfoldable pub abort : M T (Unit {0})
  abort = do remove_empty_trash; finish

  -- `fs::rename` of a backup into the quarantine directory, and back: the source must be there, the
  -- destination's directory too, and nothing may stand at the destination.
  abbrev pub moved_away :
      BackupId
      → Disk T
      → Option (Node T)
      → Option (List (BackupId × Node T))
      → Disk T × Result RepositoryError (Unit {0})
  moved_away id d none trash = (d, err io)
  moved_away id d (some node) none = (d, err io)
  moved_away id d (some node) (some entries) =
      if is_some (get_entry id entries) then (d, err io) else (
        record d { active = set_active id none d.active; trash = some ((id, node) ∷ entries) },
        ok tt,
      )

  unfoldable pub rename_to_trash : BackupId → M T (Unit {0})
  rename_to_trash id = perform io (λ d. moved_away id d (d.active id) d.trash)

  abbrev pub moved_back :
      BackupId
      → Disk T
      → Option (Node T)
      → Option (Node T)
      → Disk T × Result RepositoryError (Unit {0})
  moved_back id d active none = (d, err recovery_required)
  moved_back id d (some other) (some node) = (d, err recovery_required)
  moved_back id d none (some node) = (
    record d {
      active = set_active id (some node) d.active;
      trash = some (remove_entry id (entries_of d.trash));
    },
    ok tt,
  )

  unfoldable pub rename_from_trash : BackupId → M T (Unit {0})
  rename_from_trash id =
      perform recovery_required
        (λ d. moved_back id d (d.active id) (get_entry id (entries_of d.trash)))

  -- `rollback_moves`, the last move first
  unfoldable pub rollback_moves : List BackupId → M T (Unit {0})
  rollback_moves [] = pure tt
  rollback_moves (id ∷ moved) = do
    rename_from_trash id
    sync_parent
    sync_parent
    rollback_moves moved

  unfoldable pub undo : List BackupId → RepositoryError → M T (Unit {0})
  undo moved error = do rollback_moves moved; abort; fail error

  -- The loop of `execute_moves`, with the moves that are made, the last one first
  unfoldable pub move_all : List BackupId → List BackupId → M T (Unit {0})
  move_all [] moved = pure tt
  move_all (id ∷ ids) moved = do
    handle (rename_to_trash id) (undo moved)
    handle (do sync_parent; sync_parent) (undo (id ∷ moved))
    move_all ids (id ∷ moved)
