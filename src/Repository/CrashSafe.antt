-- ===== src/Repository/CrashSafe.antt =====
-- Retention transactions and their recoveries, with faults
-- (crates/guardian-local-repository/src/retention.rs, retention_journal.rs).
use vds_guardian.Prelude.{
  ◌≡◌, ◌≢◌, ◌⊎◌, refl, sym, false, inl, inr, Option, none, some, List, [], ◌∷◌, In,
}
use vds_guardian.Identifiers.{BackupId, PlanId, RepositoryId, identifier_eq}
use vds_guardian.Repository.Files.{
  recovery_required, RetentionIntent, Node, Disk, Fault, fine, stops, perform, World, Outcome, done,
  failed, stopped,
}
use vds_guardian.Repository.Journal.{write_approved, begin_transaction, write_new, sync_parent}
use vds_guardian.Repository.Reconcile.{execute_moves, reconcile_transaction, parsed}
use vds_guardian.Repository.Rules.{Runs, Ends, Quiet, After, Runs-bind, Runs-inspect}
use vds_guardian.Repository.Places.{
  AreDirectories, Moving, Committed, Recoverable, intact, torn, moving, committed, removed,
}
use vds_guardian.Repository.Rollback.{Settled}
use vds_guardian.Repository.Recovery.{IsIntent, Runs-reconcile_transaction}

module _ {T : Type 0} (part : T → T) where
  -- The disk after a transaction and any number of recoveries, each with its own faults.
  abbrev pub disk_after : RepositoryId → PlanId → List (List Fault) → Disk T → Disk T
  disk_after r p [] d = d
  disk_after r p (faults ∷ attempts) d =
      disk_after r p attempts
        (reconcile_transaction part r p (record { disk = d; faults = faults })).0.disk

-- No transaction of the plan is under way, and none was completed.
pub record IsQuiet {T : Type 0} (d : Disk T) : Type 0 where
  pub no_trash : d.trash ≡ none
  pub no_file : d.intent ≡ none
  pub unmarked : d.cleanup_ready ≡ false
  pub incomplete : d.completed ≡ false

-- Where the journal says nothing more.
pub record IsClean {T : Type 0} (d : Disk T) : Type 0 where
  pub no_trash : d.trash ≡ none
  pub no_file : d.intent ≡ none
  pub unmarked : d.cleanup_ready ≡ false

module _ {T : Type 0} (before : Disk T) (intent : RetentionIntent) where
  -- All backups are as they were, or those of the plan are gone and the others as they were.
  abbrev pub AllOrNothing : Disk T → Type 0
  AllOrNothing d =
      ((n : BackupId) → d.active n ≡ before.active n)
      ⊎ (((n : BackupId) → In n intent.delete_backup_ids → d.active n ≡ none)
          × ((n : BackupId) → ¬ In n intent.delete_backup_ids → d.active n ≡ before.active n))

module _ {T : Type 0} (before : Disk T) (intent : RetentionIntent)
    (real : AreDirectories before intent) (part : T → T) (repository_id : RepositoryId)
    (plan_id : PlanId) (is : IsIntent repository_id plan_id intent) where
  ends_with :
      {A : Type 0} (P : Disk T → Type 0) (r : World T × Outcome A)
      → Ends (λ _. P) (λ _. P) P r
      → P r.0.disk
  ends_with P (w, done a) h = h
  ends_with P (w, failed e) h = h
  ends_with P (w, stopped) h = h

  without_intent :
      (file : Option (Option RetentionIntent))
      → ((i : RetentionIntent) → file ≢ some (some i))
      → Runs false
          (λ d. (d.intent ≡ file) × Recoverable before intent d)
          (reconcile_transaction part repository_id plan_id)
          (λ _. Recoverable before intent)
          (λ _. Recoverable before intent)
          (Recoverable before intent)
  unfolding reconcile_transaction
  without_intent file unlike =
      Runs-bind (λ _ _. ⊥) _ _
        (Runs-inspect _ (λ d (e, h). by_file d d.intent e h) (λ _ d (_, h). (h, h)))
        (λ _. record { runs = λ w q b. absurd b })
    where
      by_file :
          (d : Disk T) (f : Option (Option RetentionIntent))
          → f ≡ file
          → Recoverable before intent d
          → After (λ _ _. ⊥) (λ _. Recoverable before intent) (d, parsed f)
      by_file d none e h = h
      by_file d (some none) e h = h
      by_file d (some (some i)) e h = absurd (unlike i (sym e))

  not_calm : (w : World T) → Quiet false w
  not_calm w e = absurd (cc e)

  -- The recovery, itself failing or stopped anywhere, keeps the transaction recoverable.
  pub reconcile_transaction-Recoverable :
      (w : World T)
      → Recoverable before intent w.disk
      → Recoverable before intent (reconcile_transaction part repository_id plan_id w).0.disk
  reconcile_transaction-Recoverable w h = by_state h
    where
      unread :
          (file : Option (Option RetentionIntent))
          → ((i : RetentionIntent) → file ≢ some (some i))
          → w.disk.intent ≡ file
          → Recoverable before intent (reconcile_transaction part repository_id plan_id w).0.disk
      unread file unlike e =
          ends_with (Recoverable before intent) (reconcile_transaction part repository_id plan_id w)
            ((without_intent file unlike).runs w (not_calm w) (e, h)).1

      narrowed :
          (r : World T × Outcome (Unit {0}))
          → Ends
              (λ _. Settled before intent real false)
              (λ _ d. (false ≡ false) × Recoverable before intent d)
              (λ d. (false ≡ false) × Recoverable before intent d)
              r
          → Recoverable before intent r.0.disk
      narrowed (v, done a) (inl i) = intact i
      narrowed (v, done a) (inr r) = removed r
      narrowed (v, failed e) (_, l) = l
      narrowed (v, stopped) (_, l) = l

      pending :
          Moving before intent w.disk ⊎ Committed before intent w.disk
          → Recoverable before intent (reconcile_transaction part repository_id plan_id w).0.disk
      pending p =
          narrowed (reconcile_transaction part repository_id plan_id w)
            ((Runs-reconcile_transaction before intent real false part repository_id plan_id
                is).runs
              w (not_calm w) p).1

      by_state :
          Recoverable before intent w.disk
          → Recoverable before intent (reconcile_transaction part repository_id plan_id w).0.disk
      by_state (intact i) = unread none (λ _ q. cc) i.file_is
      by_state (torn i _) = unread (some none) (λ _ q. cc) i.file_is
      by_state (moving m) = pending (inl m)
      by_state (committed c) = pending (inr c)
      by_state (removed r) = unread none (λ _ q. cc) r.no_file

  -- What the recovery does with a disk on which all calls go well.
  abbrev pub Recovers : Disk T → Type 0
  Recovers d =
      let r = reconcile_transaction part repository_id plan_id (record { disk = d; faults = [] }) in
      (r.1 ≡ done tt) × AllOrNothing before intent r.0.disk × IsClean r.0.disk

-- The disk with these backups, where no transaction of the plan has ever begun.
abbrev pub fresh : {T : Type 0} → (BackupId → Option (Node T)) → Disk T
fresh active = record {
  active = active;
  trash = none;
  intent = none;
  cleanup_ready = false;
  approved = false;
  completed = false;
}

-- A process that is stopped between the creation of the intent file and the writing of it leaves a file
-- that no recovery can read: every one fails, with all calls going well, and leaves the disk as it is.
pub reconcile_transaction-torn :
    {T : Type 0} (part : T → T) (active : BackupId → Option (Node T)) (intent : RetentionIntent)
    (repository_id : RepositoryId) (plan_id : PlanId)
    → let w =
        (execute_moves part intent (record {
          disk = fresh active;
          faults = fine ∷ fine ∷ fine ∷ fine ∷ fine ∷ fine ∷ fine ∷ stops ∷ [];
        })).0 in
      (w.disk.intent ≡ some none)
      × (reconcile_transaction part repository_id plan_id w ≡ (w, failed recovery_required))
unfolding execute_moves write_approved begin_transaction write_new sync_parent perform
    reconcile_transaction
reconcile_transaction-torn part active intent repository_id plan_id = (refl, refl)
