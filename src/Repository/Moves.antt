-- ===== src/Repository/Moves.antt =====
-- A retention transaction that may fail or be stopped anywhere
-- (crates/guardian-local-repository/src/retention.rs, `execute_moves`).
use vds_guardian.Prelude.{
  ◌≡◌, ◌⊎◌, refl, true, false, inl, inr, Option, none, some, List, [], ◌∷◌, All, All-map, All-at,
  All_of_In, In, subst,
}
use vds_guardian.Identifiers.{BackupId, identifier_eq}
use vds_guardian.Repository.Files.{
  RepositoryError, audit_conflict, recovery_required, io, RetentionIntent, Node, Disk, entries_of,
  get_entry,
}
use vds_guardian.Repository.Journal.{
  begin_transaction, created, rename_to_trash, rename_from_trash, rollback_moves, undo, move_all,
  mark_cleanup_ready, moved_back, moved_away, write_completed,
}
use vds_guardian.Repository.Reconcile.{execute_moves, cleanup_transaction}
use vds_guardian.Repository.Rules.{
  Runs, After, Runs-bind, Runs-handle, Runs-perform, Runs-fail, Runs-pure, Runs-from, Runs-to,
  Runs-fails, After-to,
}
use vds_guardian.Repository.Calls.{Runs-sync_parent, Runs-write_new}
use vds_guardian.Repository.Places.{
  AreDirectories, Moving, Committed, Intact, Removed, Recoverable, intact, torn, moving, committed,
  removed, moved_away-Moving, moved_back-Moving, MovedAway, MovedBack,
}
use vds_guardian.Repository.Entries.{InOnePlace}
use vds_guardian.Repository.Cleanup.{Runs-cleanup_transaction, Marked}
use vds_guardian.Repository.Finishing.{
  Start, Torn, Torn-Moving, Emptied, Runs-abort, Runs-write_approved,
}
use vds_guardian.Repository.Completing.{Recorded, Runs-write_completed, Runs-finish}

module _ {T : Type 0} (before : Disk T) (intent : RetentionIntent)
    (real : AreDirectories before intent) where
  abbrev Left : Disk T → Type 0
  Left = Recoverable before intent

  abbrev LeftWith : RepositoryError → Disk T → Type 0
  LeftWith _ = Recoverable before intent

  Runs-rollback_moves :
      (moved : List BackupId)
      → All (λ n. In n intent.delete_backup_ids) moved
      → Runs false
          (Moving before intent)
          (rollback_moves moved)
          (λ _. Moving before intent)
          LeftWith
          Left
  unfolding rollback_moves rename_from_trash
  Runs-rollback_moves [] h = Runs-pure tt (λ d m. m)
  Runs-rollback_moves (id ∷ moved) (k, h) =
      Runs-bind (λ _. Moving before intent) _ _
        (Runs-perform recovery_required _
          (λ d m.
            After-to (λ _ d'. MovedBack before intent d id d') (λ _. Moving before intent)
              (λ _. Moving before intent) LeftWith
              (moved_back id d (d.active id) (get_entry id (entries_of d.trash)))
              (moved_back-Moving before intent real id d k m) (λ _ _ (m, _, _). m)
              (λ _ _ m. moving m))
          (λ _ d m. (moving m, moving m)))
        (λ _.
          Runs-bind (λ _. Moving before intent) _ _
            (Runs-sync_parent (λ _ d m. (moving m, moving m)))
            (λ _.
              Runs-bind (λ _. Moving before intent) _ _
                (Runs-sync_parent (λ _ d m. (moving m, moving m)))
                (λ _. Runs-rollback_moves moved h)))

  Runs-undo :
      (moved : List BackupId) (e : RepositoryError)
      → All (λ n. In n intent.delete_backup_ids) moved
      → (S : Unit {0} → Disk T → Type 0)
      → Runs false (Moving before intent) (undo moved e) S LeftWith Left
  unfolding undo
  Runs-undo moved e h S =
      Runs-bind (λ _. Moving before intent) _ _ (Runs-rollback_moves moved h)
        (λ _.
          Runs-bind (λ _. Intact before intent none) _ _
            (Runs-abort before intent (λ e d m. (moving m, moving m))
              (λ e d i. (intact i, intact i)))
            (λ _. Runs-fail e (λ d i. intact i)))

  -- All backups of the plan have been moved away.
  abbrev Away : List BackupId → List BackupId → Disk T → Type 0
  Away ids moved d =
      Moving before intent d × All (λ n. d.active n ≡ none) ids × All (λ n. d.active n ≡ none) moved

  Runs-move_all :
      (ids moved : List BackupId)
      → All (λ n. In n intent.delete_backup_ids) ids
      → All (λ n. In n intent.delete_backup_ids) moved
      → Runs false (Away [] moved) (move_all ids moved) (λ _. Away ids moved) LeftWith Left
  unfolding move_all rename_to_trash
  Runs-move_all [] moved h k = Runs-pure tt (λ d a. a)
  Runs-move_all (id ∷ ids) moved (m, h) k =
      Runs-bind (λ _. Away [] (id ∷ moved)) _ _
        (Runs-handle (λ _. Moving before intent) _ _
          (Runs-perform io _
            (λ d (v, _, a).
              After-to (λ _ d'. MovedAway before intent d id d') (λ _. Moving before intent)
                (λ _. Away [] (id ∷ moved)) (λ _. Moving before intent)
                (moved_away id d (d.active id) d.trash)
                (moved_away-Moving before intent real id d m v)
                (λ _ d' (v', g, s). (v', tt, (g, All-map (λ n q. s n q) moved a))) (λ _ _ v'. v'))
            (λ _ d (v, _, _). (v, moving v)))
          (λ e. Runs-undo moved e k (λ _. Away [] (id ∷ moved))))
        (λ _.
          Runs-bind (λ _. Away [] (id ∷ moved)) _ _
            (Runs-handle (λ _. Moving before intent) _ _
              (Runs-bind (λ _. Away [] (id ∷ moved)) _ _
                (Runs-sync_parent (λ _ d (v, _, _). (v, moving v)))
                (λ _. Runs-sync_parent (λ _ d (v, _, _). (v, moving v))))
              (λ e. Runs-undo (id ∷ moved) e (m, k) (λ _. Away [] (id ∷ moved))))
            (λ _.
              Runs-to (move_all ids (id ∷ moved)) (λ _ d (v, a, (g, b)). (v, (g, a), b))
                (Runs-move_all ids (id ∷ moved) h (m, k))))

  with_trash :
      (d : Disk T)
      → Moving before intent d
      → d.trash ≡ none
      → Moving before intent (record d { trash = some [] })
  with_trash d m e = record {
    others = m.others;
    placed = λ n k.
        subst (λ t. InOnePlace (d.active n) (get_entry n (entries_of t)) (before.active n)) e
          (m.placed n k);
    listed = tt;
    written = m.written;
    unmarked = m.unmarked;
    incomplete = m.incomplete;
  }

  Runs-begin_transaction :
      Runs false
        (Start before intent)
        (begin_transaction intent)
        (λ _. Moving before intent)
        LeftWith
        Left
  unfolding begin_transaction
  Runs-begin_transaction =
      Runs-bind (λ _. Moving before intent) _ _
        (Runs-write_new (Torn before intent) (Moving before intent) _ _ _ (λ d (i, _) _. intact i)
          (λ d (i, c) _. (opened d i, c)) (λ d t. Torn-Moving before intent d t)
          (λ _ d (i, _). (intact i, intact i)) (λ _ d (i, c). (torn i c, torn i c))
          (λ _ d m. (moving m, moving m)))
        (λ _.
          Runs-bind (λ _. Moving before intent) _ _
            (Runs-sync_parent (λ _ d m. (moving m, moving m)))
            (λ _.
              Runs-bind (λ _. Moving before intent) _ _
                (Runs-perform io _ (λ d m. by_trash d m d.trash refl)
                  (λ _ d m. (moving m, moving m)))
                (λ _. Runs-sync_parent (λ _ d m. (moving m, moving m)))))
    where
      opened :
          (d : Disk T)
          → Intact before intent none d
          → Intact before intent (some none) (record d { intent = some none })
      opened d i = record {
        kept = i.kept;
        no_trash = i.no_trash;
        file_is = refl;
        unmarked = i.unmarked;
      }

      by_trash :
          (d : Disk T)
          → Moving before intent d
          → (t : Option (List (BackupId × Node T))) → d.trash ≡ t
          → After (λ _. Moving before intent) LeftWith (created d t)
      by_trash d m none e = with_trash d m e
      by_trash d m (some entries) e = moving m

  Away-Committed :
      (d : Disk T)
      → Away intent.delete_backup_ids [] d
      → Committed before intent (record d { cleanup_ready = true })
  Away-Committed d (m, a, _) = record {
    others = m.others;
    gone = λ n k. All-at (λ x. d.active x ≡ none) intent.delete_backup_ids a k;
    listed = m.listed;
    written = m.written;
    marked = inl refl;
  }

  Runs-mark_cleanup_ready :
      Runs false
        (Away intent.delete_backup_ids [])
        mark_cleanup_ready
        (λ _. Marked before intent true)
        LeftWith
        Left
  unfolding mark_cleanup_ready
  Runs-mark_cleanup_ready =
      Runs-bind (λ _. Marked before intent true) _ _
        (Runs-write_new (Marked before intent true) (Marked before intent true) _ _ _
          (λ d (m, _, _) _. moving m) (λ d a _. (Away-Committed d a, refl)) (λ d c. c)
          (λ _ d (m, _, _). (moving m, moving m)) (λ _ d (c, _). (committed c, committed c))
          (λ _ d (c, _). (committed c, committed c)))
        (λ _. Runs-sync_parent (λ _ d (c, _). (committed c, committed c)))

  -- Wherever the transaction fails or is stopped, it leaves a state from which it can be recovered.
  pub Runs-execute_moves :
      (part : T → T)
      → Runs false
          (Start before intent)
          (execute_moves part intent)
          (λ _. Removed before intent)
          LeftWith
          Left
  unfolding execute_moves
  Runs-execute_moves part =
      Runs-bind (λ _. Start before intent) _ _
        (Runs-write_approved before intent (λ _ d (i, _). (intact i, intact i)))
        (λ _.
          Runs-bind (λ _. Moving before intent) _ _ Runs-begin_transaction
            (λ _.
              Runs-bind (λ _. Away intent.delete_backup_ids []) _ _
                (Runs-from (move_all intent.delete_backup_ids []) (λ d m. (m, tt, tt))
                  (Runs-move_all intent.delete_backup_ids [] every tt))
                (λ _.
                  Runs-bind (λ _. Marked before intent true) _ _ Runs-mark_cleanup_ready
                    (λ _.
                      Runs-bind (λ _. Emptied before intent) _ _
                        (Runs-to (cleanup_transaction part intent.delete_backup_ids)
                          (λ _ d ((c, _), e). (c, e))
                          (Runs-cleanup_transaction before intent
                            (λ _ _ d c. (committed c, committed c)) part true))
                        (λ _.
                          Runs-bind (λ _. Recorded before intent) _ _
                            (Runs-fails write_completed told (
                              Runs-write_completed before intent {Fail = Left}
                                (λ _ d c. (committed c, committed c))
                                (λ _ d r. (removed r, removed r))))
                            (λ _.
                              Runs-finish before intent (λ _ d c. (committed c, committed c))
                                (λ _ d r. (removed r, removed r))))))))
    where
      every : All (λ n. In n intent.delete_backup_ids) intent.delete_backup_ids
      every = All_of_In (λ n. In n intent.delete_backup_ids) intent.delete_backup_ids (λ a m. m)

      told :
          (e : RepositoryError) (d : Disk T)
          → ((e ≡ audit_conflict) × Recorded before intent d) ⊎ ((e ≡ io) × Left d)
          → Left d
      told e d (inl (_, ((c, _), _))) = committed c
      told e d (inr (_, l)) = l
