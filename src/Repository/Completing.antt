-- ===== src/Repository/Completing.antt =====
-- The last steps of a transaction that is committed (crates/guardian-local-repository/src/
-- retention.rs, retention_journal.rs): the record of completion, and the removal of mark and intent.
use vds_guardian.Prelude.{◌≡◌, ◌≢◌, ◌⊎◌, refl, ap, Bool, true, false, inl, inr}
use vds_guardian.Repository.Files.{
  RepositoryError, integrity_failure, confirmation_mismatch, repository_mismatch, snapshot_changed,
  audit_conflict, recovery_required, cleanup_pending, unsafe_filesystem_entry, io, already_exists,
  manifest_rejected, signing_failed, RetentionIntent, Disk, fail,
}
use vds_guardian.Repository.Journal.{conflict, conflict_of, write_completed, finish}
use vds_guardian.Repository.Reconcile.{complete_recovered, unless_conflict}
use vds_guardian.Repository.Rules.{Runs, Runs-bind, Runs-handle, Runs-fail, Runs-pure, Runs-inspect}
use vds_guardian.Repository.Calls.{
  Runs-sync_parent, Runs-write_new, Runs-remove_cleanup_mark, Runs-remove_intent,
}
use vds_guardian.Repository.Places.{Committed, Removed}
use vds_guardian.Repository.Finishing.{Emptied, Emptied-Removed}

module _ {T : Type 0} (before : Disk T) (intent : RetentionIntent) where
  -- The record of completion is there.
  abbrev pub Recorded : Disk T → Type 0
  Recorded d = Emptied before intent d × (d.completed ≡ true)

  Emptied-Recorded :
      (d : Disk T) → Emptied before intent d → Recorded (record d { completed = true })
  Emptied-Recorded d (c, e) = (
    (
      record {
        others = c.others;
        gone = c.gone;
        listed = c.listed;
        written = c.written;
        marked = inr refl;
      },
      e,
    ),
    refl,
  )

  unmark :
      (d : Disk T) → Recorded d → Recorded (record d { cleanup_ready = false }) × (false ≡ false)
  unmark d ((c, e), r) = (
    (
      (
        record {
          others = c.others;
          gone = c.gone;
          listed = c.listed;
          written = c.written;
          marked = inr r;
        },
        e,
      ),
      r,
    ),
    refl,
  )

  module _ {Fail R : Disk T → Type 0} {calm : Bool}
      (left : calm ≡ false → (d : Disk T) → Committed before intent d → Fail d × R d)
      (end : calm ≡ false → (d : Disk T) → Removed before intent d → Fail d × R d) where
    -- An error, with the state that it tells of.
    abbrev Told : RepositoryError → RepositoryError → Disk T → Type 0
    Told told e d = ((e ≡ told) × Recorded d) ⊎ ((e ≡ io) × Fail d)

    Told-conflict :
        (e : RepositoryError)
        → Runs calm (Told already_exists e) (conflict e) (λ _. Recorded) (Told audit_conflict) R
    Told-conflict e = Runs-fail (conflict_of e) (λ d t. mapped d t)
      where
        mapped : (d : Disk T) → Told already_exists e d → Told audit_conflict (conflict_of e) d
        mapped d (inl (q, r)) = inl (ap conflict_of q, r)
        mapped d (inr (q, f)) = inr (ap conflict_of q, f)

    pub Runs-write_completed :
        Runs calm (Emptied before intent) write_completed (λ _. Recorded) (Told audit_conflict) R
    unfolding write_completed
    Runs-write_completed =
        Runs-bind (λ _. Emptied before intent) _ _
          (Runs-inspect _ (λ d s. s) (λ q d (c, _). (inr (refl, (left q d c).0), (left q d c).1)))
          (λ _.
            Runs-bind (λ _. Recorded) _ _
              (Runs-handle (Told already_exists) _ _
                (Runs-write_new Recorded Recorded _ _ _ (λ d s e. inl (refl, (s, e)))
                  (λ d s _. Emptied-Recorded d s) (λ d s. s)
                  (λ q d (c, _). (inr (refl, (left q d c).0), (left q d c).1))
                  (λ q d ((c, _), _). (inr (refl, (left q d c).0), (left q d c).1))
                  (λ q d ((c, _), _). (inr (refl, (left q d c).0), (left q d c).1)))
                Told-conflict)
              (λ _.
                Runs-sync_parent (λ q d ((c, _), _). (inr (refl, (left q d c).0), (left q d c).1))))

    pub Runs-finish : Runs calm Recorded finish (λ _. Removed before intent) (λ _. Fail) R
    unfolding finish
    Runs-finish =
        Runs-bind (λ _ d. Recorded d × (d.cleanup_ready ≡ false)) _ _
          (Runs-remove_cleanup_mark _ unmark (λ q d ((c, _), _). left q d c)
            (λ q d (((c, _), _), _). left q d c))
          (λ _.
            Runs-remove_intent (Removed before intent)
              (λ d ((s, _), u). Emptied-Removed before intent d s u)
              (λ q d (((c, _), _), _). left q d c) end)

    others :
        (e : RepositoryError)
        → e ≢ audit_conflict
        → Runs calm (Told audit_conflict e) (fail {A = Unit {0}} e) (λ _. Recorded) (λ _. Fail) R
    others e ne = Runs-fail e (λ d t. failed_with d t)
      where
        failed_with : (d : Disk T) → Told audit_conflict e d → Fail d
        failed_with d (inl (q, _)) = absurd (ne q)
        failed_with d (inr (_, f)) = f

    unless :
        (e : RepositoryError)
        → Runs calm (Told audit_conflict e) (unless_conflict e) (λ _. Recorded) (λ _. Fail) R
    unless integrity_failure = others _ (λ q. cc)
    unless confirmation_mismatch = others _ (λ q. cc)
    unless repository_mismatch = others _ (λ q. cc)
    unless snapshot_changed = others _ (λ q. cc)
    unless audit_conflict = Runs-pure tt (λ d t. recorded d t)
      where
        recorded : (d : Disk T) → Told audit_conflict audit_conflict d → Recorded d
        recorded d (inl (_, r)) = r
        recorded d (inr (q, _)) = absurd (cc q)
    unless recovery_required = others _ (λ q. cc)
    unless cleanup_pending = others _ (λ q. cc)
    unless unsafe_filesystem_entry = others _ (λ q. cc)
    unless io = others _ (λ q. cc)
    unless already_exists = others _ (λ q. cc)
    unless (manifest_rejected e) = others _ (λ q. cc)
    unless (signing_failed e) = others _ (λ q. cc)

    pub Runs-complete_recovered :
        Runs calm
          (Emptied before intent)
          (complete_recovered)
          (λ _. Removed before intent)
          (λ _. Fail)
          R
    unfolding complete_recovered finish
    Runs-complete_recovered =
        Runs-bind (λ _. Recorded) _ _
          (Runs-handle (Told audit_conflict) _ _ Runs-write_completed unless) (λ _. Runs-finish)
