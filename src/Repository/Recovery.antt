-- ===== src/Repository/Recovery.antt =====
-- The recovery of a retention transaction
-- (crates/guardian-local-repository/src/retention_journal.rs, `reconcile_transaction`).
use vds_guardian.Prelude.{
  ◌≡◌, ◌⊎◌, refl, sym, ◌∙◌, Bool, true, false, inl, inr, Option, none, some, List, [], ◌∷◌, ok,
  subst, IsUnique, is_empty, All→contains-false, ==-refl, nat_eq,
}
use vds_guardian.Identifiers.{BackupId, PlanId, RepositoryId, identifier_eq}
use vds_guardian.Repository.Files.{RepositoryError, io, RetentionIntent, Disk, ◌>>◌}
use vds_guardian.Repository.Journal.{
  format_version, has_duplicate_ids, validate_intent, remove_intent,
}
use vds_guardian.Repository.Reconcile.{
  rollback_transaction, after_audit, after_mark, parsed, reconcile_transaction, cleanup_transaction,
  complete_recovered,
}
use vds_guardian.Repository.Rules.{
  Runs, Ends, Quiet, After, Runs-bind, Runs-look, Runs-from, Runs-to, Runs-inspect,
}
use vds_guardian.Repository.Calls.{Runs-remove_intent}
use vds_guardian.Repository.Places.{AreDirectories, Moving, Committed, Removed, committed, removed}
use vds_guardian.Repository.Cleanup.{Runs-cleanup_transaction, either, Marked}
use vds_guardian.Repository.Finishing.{Emptied, Emptied-Removed}
use vds_guardian.Repository.Completing.{Runs-complete_recovered}
use vds_guardian.Repository.Rollback.{Broken, Settled, settled, open_ended, Runs-undone}

-- The intent that `from_plan` makes is for its plan, and names at least one backup, each once.
pub record IsIntent (repository_id : RepositoryId) (plan_id : PlanId) (intent : RetentionIntent)
    : Type 0 where
  pub versioned : intent.format_version ≡ format_version
  pub planned : intent.plan_id ≡ plan_id
  pub homed : intent.repository_id ≡ repository_id
  pub nonempty : is_empty intent.delete_backup_ids ≡ false
  pub unique : IsUnique intent.delete_backup_ids

IsUnique-no_duplicate : (ids : List BackupId) → IsUnique ids → has_duplicate_ids ids ≡ false
unfolding has_duplicate_ids
IsUnique-no_duplicate [] u = refl
IsUnique-no_duplicate (id ∷ ids) (h, u) =
    rw (All→contains-false ids id h) (IsUnique-no_duplicate ids u)

IsIntent-validate_intent :
    (r : RepositoryId) (p : PlanId) (intent : RetentionIntent)
    → IsIntent r p intent
    → validate_intent intent p r ≡ ok tt
unfolding validate_intent
IsIntent-validate_intent r p intent i =
    rw
      (
        i.versioned,
        i.planned,
        i.homed,
        ==-refl p,
        ==-refl r,
        i.nonempty,
        IsUnique-no_duplicate intent.delete_backup_ids i.unique,
      )
      refl

module _ {T : Type 0} (before : Disk T) (intent : RetentionIntent)
    (real : AreDirectories before intent) (calm : Bool) where
  kept_up :
      calm ≡ false
      → (e : RepositoryError) (d : Disk T) → Committed before intent d
      → (Broken before intent real calm) d × (Broken before intent real calm) d
  kept_up q e d c = ((q, committed c), (q, committed c))

  over :
      calm ≡ false
      → (d : Disk T) → Removed before intent d
      → (Broken before intent real calm) d × (Broken before intent real calm) d
  over q d r = ((q, removed r), (q, removed r))

  module _ (part : T → T) where
    Runs-after_mark :
        (marked : Bool)
        → Runs calm
            (λ d. (Moving before intent d ⊎ Committed before intent d) × (d.cleanup_ready ≡ marked))
            (after_mark part marked intent)
            (λ _. (Settled before intent real calm))
            (λ _. (Broken before intent real calm))
            (Broken before intent real calm)
    Runs-after_mark true =
        Runs-bind (λ _. Emptied before intent) _ _
          (Runs-from (cleanup_transaction part intent.delete_backup_ids)
            (λ d (h, e). (by_mark d h e, e))
            (Runs-to (cleanup_transaction part intent.delete_backup_ids) (λ _ d ((c, _), e). (c, e))
              (Runs-cleanup_transaction before intent kept_up part true)))
          (λ _.
            Runs-to complete_recovered (λ _ d r. inr r)
              (Runs-complete_recovered before intent (λ q d c. kept_up q io d c) over))
      where
        by_mark :
            (d : Disk T)
            → Moving before intent d ⊎ Committed before intent d
            → d.cleanup_ready ≡ true
            → Committed before intent d
        by_mark d (inl m) e = absurd (cc (sym e ∙ m.unmarked))
        by_mark d (inr c) e = c
    Runs-after_mark false =
        Runs-bind
          (λ completed d.
            (Moving before intent d ⊎ Committed before intent d)
            × (d.cleanup_ready ≡ false)
            × (d.completed ≡ completed))
          _ _
          (Runs-inspect _ (λ d (h, e). (h, e, refl))
            (λ q d (h, _). (open_ended before intent real calm) q d h))
          by_audit
      where
        completed_only :
            (d : Disk T)
            → Moving before intent d ⊎ Committed before intent d
            → d.completed ≡ true
            → Committed before intent d
        completed_only d (inl m) e = absurd (cc (sym e ∙ m.incomplete))
        completed_only d (inr c) e = c

        unfinished :
            (d : Disk T)
            → Moving before intent d ⊎ Committed before intent d
            → d.cleanup_ready ≡ false
            → d.completed ≡ false
            → Moving before intent d
        unfinished d (inl m) e f = m
        unfinished d (inr c) e f =
            absurd (either c.marked (λ q. cc (sym e ∙ q)) (λ q. cc (sym f ∙ q)))

        by_audit :
            (completed : Bool)
            → Runs calm
                (λ d.
                  (Moving before intent d ⊎ Committed before intent d)
                  × (d.cleanup_ready ≡ false)
                  × (d.completed ≡ completed))
                (after_audit part completed intent)
                (λ _. (Settled before intent real calm))
                (λ _. (Broken before intent real calm))
                (Broken before intent real calm)
        by_audit true =
            Runs-bind (λ _ d. Marked before intent false d × (d.trash ≡ none)) _ _
              (Runs-from (cleanup_transaction part intent.delete_backup_ids)
                (λ d (h, e, f). (completed_only d h f, e))
                (Runs-cleanup_transaction before intent kept_up part false))
              (λ _.
                Runs-remove_intent (Settled before intent real calm)
                  (λ d ((c, u), e). inr (Emptied-Removed before intent d (c, e) u))
                  (λ q d ((c, _), _). kept_up q io d c) (settled before intent real calm))
        by_audit false =
            Runs-from (rollback_transaction intent.delete_backup_ids >> remove_intent)
              (λ d (h, e, f). unfinished d h e f) (Runs-undone before intent real calm)

    -- From a whole intent on, the recovery settles the transaction.
    pub Runs-reconcile_transaction :
        (repository_id : RepositoryId) (plan_id : PlanId)
        → IsIntent repository_id plan_id intent
        → Runs calm
            (λ d. Moving before intent d ⊎ Committed before intent d)
            (reconcile_transaction part repository_id plan_id)
            (λ _. (Settled before intent real calm))
            (λ _. (Broken before intent real calm))
            (Broken before intent real calm)
    unfolding reconcile_transaction
    Runs-reconcile_transaction repository_id plan_id is =
        Runs-bind
          (λ found d. (found ≡ intent) × (Moving before intent d ⊎ Committed before intent d)) _ _
          (Runs-inspect _ (λ d h. by_file d d.intent (whole d h) h)
            (open_ended before intent real calm))
          (λ found.
            Runs-bind
              (λ _ d. (found ≡ intent) × (Moving before intent d ⊎ Committed before intent d)) _ _
              (Runs-inspect _
                (λ d (e, h).
                  rw (e, IsIntent-validate_intent repository_id plan_id intent is) (refl, h))
                (λ q d (_, h). (open_ended before intent real calm) q d h))
              (λ _.
                Runs-bind
                  (λ marked d.
                    (found ≡ intent)
                    × (Moving before intent d ⊎ Committed before intent d)
                    × (d.cleanup_ready ≡ marked))
                  _ _ (Runs-look _ (λ d (e, h). (e, h, refl))) (λ marked. go_on_with found marked)))
      where
        whole :
            (d : Disk T)
            → Moving before intent d ⊎ Committed before intent d
            → d.intent ≡ some (some intent)
        whole d (inl m) = m.written
        whole d (inr c) = c.written

        by_file :
            (d : Disk T) (f : Option (Option RetentionIntent))
            → f ≡ some (some intent)
            → Moving before intent d ⊎ Committed before intent d
            → After
                (λ found d. (found ≡ intent) × (Moving before intent d ⊎ Committed before intent d))
                (λ _. (Broken before intent real calm))
                (d, parsed f)
        by_file d none e h = absurd (cc e)
        by_file d (some none) e h = absurd (cc e)
        by_file d (some (some i)) e h = (cc, h)

        go_on_with :
            (found : RetentionIntent) (marked : Bool)
            → Runs calm
                (λ d.
                  (found ≡ intent)
                  × (Moving before intent d ⊎ Committed before intent d)
                  × (d.cleanup_ready ≡ marked))
                (after_mark part marked found)
                (λ _. (Settled before intent real calm))
                (λ _. (Broken before intent real calm))
                (Broken before intent real calm)
        go_on_with found marked = record {
          runs = λ w q (e, h, x).
              subst
                (λ i.
                  Quiet calm (after_mark part marked i w).0
                  × Ends (λ _. (Settled before intent real calm))
                      (λ _. (Broken before intent real calm)) (Broken before intent real calm)
                      (after_mark part marked i w))
                (sym e) ((Runs-after_mark marked).runs w q (h, x));
        }
