-- ===== src/Repository/Rollback.antt =====
-- Undoing a retention transaction
-- (crates/guardian-local-repository/src/retention_journal.rs, `rollback_transaction`).
use vds_guardian.Prelude.{
  ◌≡◌, ◌⊎◌, refl, sym, ap, ◌∙◌, Bool, true, false, inl, inr, Option, none, some, List, [], ◌∷◌, ok,
  All, All_of_In, In, subst, is_some, try_for_each_iff, nat_eq, if◌then◌else◌,
}
use vds_guardian.Identifiers.{BackupId, identifier_eq}
use vds_guardian.Repository.Files.{
  RepositoryError, recovery_required, RetentionIntent, Node, directory, Disk, entries_of, get_entry,
  ◌>>◌, pure,
}
use vds_guardian.Repository.Journal.{rename_from_trash, moved_back, sync_parent, remove_intent}
use vds_guardian.Repository.Reconcile.{
  check_rollback, directory_or_absent, same_presence, restore_each, rollback_transaction,
}
use vds_guardian.Repository.Rules.{
  Runs, After, After-to, Runs-bind, Runs-perform, Runs-pure, Runs-look, Runs-from, Runs-to,
  Runs-inspect,
}
use vds_guardian.Repository.Calls.{Runs-sync_parent, Runs-remove_intent, Runs-remove_empty_trash}
use vds_guardian.Repository.Places.{
  AreDirectories, Placed, Moving, Committed, Intact, Removed, Recoverable, intact, moving,
  committed, removed, moved_back-Moving, MovedBack, was_trashed,
}
use vds_guardian.Repository.Entries.{InOnePlace}
use vds_guardian.Repository.Cleanup.{IsListed-check_trash, nothing_left, is_none, either}
use vds_guardian.Repository.Finishing.{Restored, Restored-Intact}

-- A backup that is in the quarantine directory only is moved back without an error.
moved_back-ok :
    {T : Type 0} (id : BackupId) (d : Disk T) (S : Unit {0} → Disk T → Type 0)
    (F F' : RepositoryError → Disk T → Type 0) (a e : Option (Node T))
    → a ≡ none
    → is_some e ≡ true
    → After S F (moved_back id d a e)
    → After S F' (moved_back id d a e)
moved_back-ok id d S F F' a none p q h = absurd (cc q)
moved_back-ok id d S F F' none (some node) p q h = h
moved_back-ok id d S F F' (some x) (some node) p q h = absurd (cc p)

is_some-some : {T : Type 0} (o : Option (Node T)) → is_some o ≡ true → (x : Node T) × (o ≡ some x)
is_some-some none q = absurd (cc q)
is_some-some (some x) q = (x, refl)

module _ {T : Type 0} (before : Disk T) (intent : RetentionIntent)
    (real : AreDirectories before intent) (calm : Bool) where
  -- What an error or a stop leaves; neither comes about where all calls go well.
  abbrev pub Broken : Disk T → Type 0
  Broken d = (calm ≡ false) × Recoverable before intent d

  -- The backups of `Out` are out of the quarantine directory.
  abbrev Restoring : (BackupId → Type 0) → Disk T → Type 0
  Restoring Out d =
      Moving before intent d × ((n : BackupId) → Out n → get_entry n (entries_of d.trash) ≡ none)

  pub at_rest : (q : calm ≡ false) (d : Disk T) → Moving before intent d → Broken d × Broken d
  at_rest q d m = ((q, moving m), (q, moving m))

  Moving-check_rollback :
      (d : Disk T) → Moving before intent d → check_rollback intent.delete_backup_ids d ≡ ok tt
  unfolding check_rollback
  Moving-check_rollback d m = rw (IsListed-check_trash before intent d m.listed) (
      (try_for_each_iff _ intent.delete_backup_ids).1
        (All_of_In _ intent.delete_backup_ids (λ n k. one n (real n k) (m.placed n k))))
    where
      one :
          (n : BackupId)
          → (t : T) × (before.active n ≡ some (directory t))
          → Placed before intent d n
          → same_presence
              (directory_or_absent (d.active n))
              (directory_or_absent (get_entry n (entries_of d.trash)))
            ≡ ok tt
      one n (t, b) (inl (h, k)) = rw (h, k, b) refl
      one n (t, b) (inr (h, k)) = rw (h, k, b) refl

  Runs-rename_back :
      (Out : BackupId → Type 0) (id : BackupId)
      → In id intent.delete_backup_ids
      → Runs calm
          (λ d. Restoring Out d × (is_some (get_entry id (entries_of d.trash)) ≡ true))
          (rename_from_trash id)
          (λ _. Restoring (λ n. Out n ⊎ (n ≡ id)))
          (λ _. Broken)
          Broken
  unfolding rename_from_trash
  Runs-rename_back Out id k =
      Runs-perform recovery_required _ (λ d ((m, o), y). back d m o y)
        (λ q d ((m, _), _). at_rest q d m)
    where
      back :
          (d : Disk T)
          → Moving before intent d
          → ((n : BackupId) → Out n → get_entry n (entries_of d.trash) ≡ none)
          → is_some (get_entry id (entries_of d.trash)) ≡ true
          → After
              (λ _. Restoring (λ n. Out n ⊎ (n ≡ id)))
              (λ _. Broken)
              (moved_back id d (d.active id) (get_entry id (entries_of d.trash)))
      back d m o y =
          let (node, e) = is_some-some (get_entry id (entries_of d.trash)) y in
          let (gone, _) = was_trashed before intent real d id node (m.placed id k) e in
          After-to (λ _ d'. MovedBack before intent d id d') (λ _. Broken)
            (λ _. Restoring (λ n. Out n ⊎ (n ≡ id))) (λ _. Broken)
            (moved_back id d (d.active id) (get_entry id (entries_of d.trash)))
            (moved_back-ok id d (λ _ d'. MovedBack before intent d id d')
              (λ _. Moving before intent) (λ _. Broken) (d.active id)
              (get_entry id (entries_of d.trash)) gone y
              (moved_back-Moving before intent real id d k m))
            (λ _ d' (m', g, s). (
              m',
              λ n w.
                  either w (λ p. s n (o n p))
                    (λ p. subst (λ x. get_entry x (entries_of d'.trash) ≡ none) (sym p) g),
            ))
            (λ _ _ b. b)

  Runs-restore_each :
      (Out : BackupId → Type 0) (ids : List BackupId)
      → All (λ n. In n intent.delete_backup_ids) ids
      → Runs calm
          (Restoring Out)
          (restore_each ids)
          (λ _. Restoring (λ n. Out n ⊎ In n ids))
          (λ _. Broken)
          Broken
  unfolding restore_each
  Runs-restore_each Out [] h = Runs-pure tt (λ d (m, o). (m, λ n k. either k (o n) absurd))
  Runs-restore_each Out (id ∷ ids) (k, h) =
      Runs-bind (λ _. Restoring (λ n. Out n ⊎ In n ids)) _ _ (Runs-restore_each Out ids h)
        (λ _.
          Runs-bind
            (λ present d.
              Restoring (λ n. Out n ⊎ In n ids) d
              × (is_some (get_entry id (entries_of d.trash)) ≡ present))
            _ _ (Runs-look _ (λ d r. (r, refl)))
            (λ present.
              Runs-to _ (λ _ d (m, o). (m, λ n w. o n (sorted n w))) (by_presence present)))
    where
      sorted : (n : BackupId) → Out n ⊎ In n (id ∷ ids) → (Out n ⊎ In n ids) ⊎ (n ≡ id)
      sorted n (inl p) = inl (inl p)
      sorted n (inr (inl e)) = inr e
      sorted n (inr (inr m)) = inl (inr m)

      by_presence :
          (present : Bool)
          → Runs calm
              (λ d.
                Restoring (λ n. Out n ⊎ In n ids) d
                × (is_some (get_entry id (entries_of d.trash)) ≡ present))
              (if present then (rename_from_trash id >> (sync_parent >> sync_parent)) else pure tt)
              (λ _. Restoring (λ n. (Out n ⊎ In n ids) ⊎ (n ≡ id)))
              (λ _. Broken)
              Broken
      by_presence true =
          Runs-bind (λ _. Restoring (λ n. (Out n ⊎ In n ids) ⊎ (n ≡ id))) _ _
            (Runs-rename_back (λ n. Out n ⊎ In n ids) id k)
            (λ _.
              Runs-bind (λ _. Restoring (λ n. (Out n ⊎ In n ids) ⊎ (n ≡ id))) _ _
                (Runs-sync_parent (λ q d (m, _). at_rest q d m))
                (λ _. Runs-sync_parent (λ q d (m, _). at_rest q d m)))
      by_presence false = Runs-pure tt (λ d ((m, o), e). (
        m,
        λ n w. either w (o n) (λ p.
            subst (λ x. get_entry x (entries_of d.trash) ≡ none) (sym p)
              (is_none (get_entry id (entries_of d.trash)) e)),
      ))

  all_back :
      (d : Disk T) → Restoring (λ n. ⊥ ⊎ In n intent.delete_backup_ids) d → entries_of d.trash ≡ []
  all_back d (m, o) = nothing_left before intent (entries_of d.trash) m.listed (λ n k. o n (inr k))

  no_trash :
      (d : Disk T)
      → Moving before intent d
      → entries_of d.trash ≡ []
      → Restored before intent (record d { trash = none })
  no_trash d m e = (
    record {
      others = m.others;
      placed = λ n k.
          subst (λ l. InOnePlace (d.active n) (get_entry n l) (before.active n)) e (m.placed n k);
      listed = tt;
      written = m.written;
      unmarked = m.unmarked;
      incomplete = m.incomplete;
    },
    refl,
  )

  Runs-rollback_transaction :
      Runs calm
        (Moving before intent)
        (rollback_transaction intent.delete_backup_ids)
        (λ _. Restored before intent)
        (λ _. Broken)
        Broken
  unfolding rollback_transaction
  Runs-rollback_transaction =
      Runs-bind (λ _. Moving before intent) _ _
        (Runs-inspect _ (λ d m. rw (Moving-check_rollback d m) m) (λ q d m. at_rest q d m))
        (λ _.
          Runs-bind (λ _. Restoring (λ n. ⊥ ⊎ In n intent.delete_backup_ids)) _ _
            (Runs-from (restore_each intent.delete_backup_ids) (λ d m. (m, λ n k. absurd k))
              (Runs-restore_each (λ _. ⊥) intent.delete_backup_ids
                (All_of_In (λ n. In n intent.delete_backup_ids) intent.delete_backup_ids
                  (λ a m. m))))
            (λ _.
              Runs-remove_empty_trash (Restored before intent) (λ d (m, _) e. (m, e))
                (λ d (m, o) e. no_trash d m (all_back d (m, o)))
                (λ d x xs r e. absurd (cons-ne-nil x xs (sym (ap entries_of e) ∙ all_back d r)))
                (λ q d (m, _). at_rest q d m) (λ q d (m, _). at_rest q d m)))
    where
      cons-ne-nil : (x : BackupId × Node T) (xs : List (BackupId × Node T)) → x ∷ xs ≡ [] → ⊥
      cons-ne-nil x xs q = cc

  -- Undone as a whole, or completed as a whole.
  abbrev pub Settled : Disk T → Type 0
  Settled d = Intact before intent none d ⊎ Removed before intent d

  pub settled : calm ≡ false → (d : Disk T) → Settled d → Broken d × Broken d
  settled q d (inl i) = ((q, intact i), (q, intact i))
  settled q d (inr r) = ((q, removed r), (q, removed r))

  pub open_ended :
      calm ≡ false
      → (d : Disk T) → Moving before intent d ⊎ Committed before intent d
      → Broken d × Broken d
  open_ended q d (inl m) = at_rest q d m
  open_ended q d (inr c) = ((q, committed c), (q, committed c))

  pub Runs-undone :
      Runs calm
        (Moving before intent)
        (rollback_transaction intent.delete_backup_ids >> remove_intent)
        (λ _. Settled)
        (λ _. Broken)
        Broken
  Runs-undone =
      Runs-bind (λ _. Restored before intent) _ _ Runs-rollback_transaction
        (λ _.
          Runs-remove_intent Settled (λ d r. inl (Restored-Intact before intent d r))
            (λ q d (m, _). at_rest q d m) settled)
