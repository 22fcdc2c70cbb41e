-- ===== src/Repository/Finishing.antt =====
-- The first and the last steps of a retention transaction (crates/guardian-local-repository/src/
-- retention.rs, retention_journal.rs): the audit records, the intent, the mark and their removal.
use vds_guardian.Prelude.{
  ◌≡◌, ◌≢◌, ◌⊎◌, refl, sym, ap, ◌∙◌, Bool, true, false, Bool-cases, inl, inr, none, some, List, [],
  In, ◌==◌, subst, contains, contains-false→All, any→Any, Any-map, ==→eq, All-at,
}
use vds_guardian.Identifiers.{BackupId, identifier_eq}
use vds_guardian.Repository.Files.{
  RepositoryError, io, RetentionIntent, Disk, entries_of, get_entry,
}
use vds_guardian.Repository.Journal.{conflict, conflict_of, write_approved, finish, abort}
use vds_guardian.Repository.Rules.{Runs, Runs-bind, Runs-handle, Runs-fail, Runs-inspect}
use vds_guardian.Repository.Calls.{
  Runs-sync_parent, Runs-write_new, Runs-remove_cleanup_mark, Runs-remove_intent,
  Runs-remove_empty_trash,
}
use vds_guardian.Repository.Places.{Moving, Committed, Intact, Removed}
use vds_guardian.Repository.Entries.{InOnePlace}

decide_In : (ids : List BackupId) (n : BackupId) → In n ids ⊎ ¬ In n ids
decide_In ids n = elim (Bool-cases (contains ids n)) [
  | inl y ↦ inl (Any-map (λ x e. ==→eq n x e) ids (any→Any (λ x. n == x) ids y))
  | inr f ↦ inr (λ m. All-at (λ x. n ≢ x) ids (contains-false→All ids n f) m refl)
]

module _ {T : Type 0} {F : RepositoryError → Disk T → Type 0} {R : Disk T → Type 0}
    {calm : Bool} where
  Runs-conflict :
      {P : Disk T → Type 0} {S : Unit {0} → Disk T → Type 0} (e : RepositoryError)
      → ((x : RepositoryError) (d : Disk T) → P d → F x d)
      → Runs calm P (conflict e) S F R
  Runs-conflict e f = Runs-fail (conflict_of e) (λ d p. f (conflict_of e) d p)

module _ {T : Type 0} (before : Disk T) (intent : RetentionIntent) where
  -- Nothing has begun, but for the approval.
  abbrev pub Start : Disk T → Type 0
  Start d = Intact before intent none d × (d.completed ≡ false)

  abbrev pub Torn : Disk T → Type 0
  Torn d = Intact before intent (some none) d × (d.completed ≡ false)

  abbrev pub Restored : Disk T → Type 0
  Restored d = Moving before intent d × (d.trash ≡ none)

  abbrev pub Emptied : Disk T → Type 0
  Emptied d = Committed before intent d × (d.trash ≡ none)

  pub Torn-Moving :
      (d : Disk T) → Torn d → Moving before intent (record d { intent = some (some intent) })
  Torn-Moving d (i, c) = record {
    others = λ n _. i.kept n;
    placed = λ n _. inl (i.kept n, rw i.no_trash refl);
    listed = rw i.no_trash tt;
    written = refl;
    unmarked = i.unmarked;
    incomplete = c;
  }

  Restored-kept : (d : Disk T) → Restored d → (n : BackupId) → d.active n ≡ before.active n
  Restored-kept d (m, e) n = elim (decide_In intent.delete_backup_ids n) [
    | inl k ↦ by_place (m.placed n k) (ap (λ t. get_entry n (entries_of t)) e)
    | inr k ↦ m.others n k
  ]
    where
      by_place :
          InOnePlace (d.active n) (get_entry n (entries_of d.trash)) (before.active n)
          → get_entry n (entries_of d.trash) ≡ none
          → d.active n ≡ before.active n
      by_place (inl (h, _)) q = h
      by_place (inr (h, k)) q = h ∙ sym q ∙ k

  pub Restored-Intact :
      (d : Disk T) → Restored d → Intact before intent none (record d { intent = none })
  Restored-Intact d (m, e) = record {
    kept = Restored-kept d (m, e);
    no_trash = e;
    file_is = refl;
    unmarked = m.unmarked;
  }

  pub Emptied-Removed :
      (d : Disk T)
      → Emptied d
      → d.cleanup_ready ≡ false
      → Removed before intent (record d { intent = none })
  Emptied-Removed d (c, e) q = record {
    others = c.others;
    gone = c.gone;
    no_trash = e;
    no_file = refl;
    unmarked = q;
  }

  emptied_trash :
      (d : Disk T)
      → Moving before intent d
      → d.trash ≡ some []
      → Restored (record d { trash = none })
  emptied_trash d m e = (
    record {
      others = m.others;
      placed = λ n k.
          subst (λ t. InOnePlace (d.active n) (get_entry n (entries_of t)) (before.active n)) e
            (m.placed n k);
      listed = tt;
      written = m.written;
      unmarked = m.unmarked;
      incomplete = m.incomplete;
    },
    refl,
  )

  module _ {F : RepositoryError → Disk T → Type 0} {R : Disk T → Type 0} {calm : Bool} where
    pub Runs-abort :
        ((e : RepositoryError) (d : Disk T) → Moving before intent d → F e d × R d)
        → ((e : RepositoryError) (d : Disk T) → Intact before intent none d → F e d × R d)
        → Runs calm (Moving before intent) abort (λ _. Intact before intent none) F R
    unfolding abort finish
    Runs-abort left end =
        Runs-bind (λ _. Restored) _ _
          (Runs-remove_empty_trash Restored (λ d m e. (m, e)) (λ d m e. emptied_trash d m e)
            (λ d x xs m e. (left io d m).0) (λ _ d m. left io d m) (λ _ d (m, _). left io d m))
          (λ _.
            Runs-bind (λ _. Restored) _ _
              (Runs-remove_cleanup_mark Restored (λ d r. unmark d r) (λ _ d (m, _). left io d m)
                (λ _ d (m, _). left io d m))
              (λ _.
                Runs-remove_intent (Intact before intent none) Restored-Intact
                  (λ _ d (m, _). left io d m) (λ _ d i. end io d i)))
      where
        unmark : (d : Disk T) → Restored d → Restored (record d { cleanup_ready = false })
        unmark d (m, e) = (
          record {
            others = m.others;
            placed = m.placed;
            listed = m.listed;
            written = m.written;
            unmarked = refl;
            incomplete = m.incomplete;
          },
          e,
        )

    pub Runs-write_approved :
        ((e : RepositoryError) (d : Disk T) → Start d → F e d × R d)
        → Runs calm Start write_approved (λ _. Start) F R
    unfolding write_approved
    Runs-write_approved left =
        Runs-bind (λ _. Start) _ _ (Runs-inspect _ (λ d s. s) (λ _ d s. left io d s))
          (λ _.
            Runs-bind (λ _. Start) _ _
              (Runs-handle (λ e. Start) _ _
                (Runs-write_new Start Start _ _ _ (λ d s _. s) (λ d (s, c) _. (approve d s, c))
                  (λ d s. s) (λ _ d s. (s, (left io d s).1)) (λ _ d s. (s, (left io d s).1))
                  (λ _ d s. (s, (left io d s).1)))
                (λ e. Runs-conflict e (λ x d s. (left x d s).0)))
              (λ _. Runs-sync_parent (λ _ d s. left io d s)))
      where
        approve :
            (d : Disk T)
            → Intact before intent none d
            → Intact before intent none (record d { approved = true })
        approve d s = record {
          kept = s.kept;
          no_trash = s.no_trash;
          file_is = s.file_is;
          unmarked = s.unmarked;
        }
