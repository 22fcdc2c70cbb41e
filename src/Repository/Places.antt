-- ===== src/Repository/Places.antt =====
-- Where the backups of a retention plan can be, and the moves between these places
-- (crates/guardian-local-repository/src/retention_journal.rs).
use vds_guardian.Prelude.{
  ◌≡◌, ◌≢◌, ◌⊎◌, refl, sym, ap, ◌∙◌, true, false, Bool-cases, ==-cases, inl, inr, Option, none,
  some, List, ◌∷◌, All, In, is_some, subst, ==-refl, ne→==-false, arith,
}
use vds_guardian.Identifiers.{BackupId, identifier_eq}
use vds_guardian.Repository.Files.{
  RetentionIntent, Node, directory, not_directory, Disk, entries_of, get_entry, remove_entry,
  set_active,
}
use vds_guardian.Repository.Journal.{moved_away, moved_back}
use vds_guardian.Repository.Reconcile.{is_directory}
use vds_guardian.Repository.Rules.{After}
use vds_guardian.Repository.Entries.{
  get_entry_self, get_entry_other, get_entry-remove_entry, get_entry-remove_other, All-remove_entry,
  InOnePlace, in_place_as,
}

-- The disk before the transaction, and the intent that it writes.
module _ {T : Type 0} (before : Disk T) (intent : RetentionIntent) where
  -- Every backup that is to go is a real directory.
  abbrev pub AreDirectories : Type 0
  AreDirectories =
      (n : BackupId)
      → In n intent.delete_backup_ids
      → (t : T) × (before.active n ≡ some (directory t))

  abbrev pub Placed : Disk T → BackupId → Type 0
  Placed d n = InOnePlace (d.active n) (get_entry n (entries_of d.trash)) (before.active n)

  abbrev pub IsListed : BackupId × Node T → Type 0
  IsListed e = In e.0 intent.delete_backup_ids × (is_directory e.1 ≡ true)

  -- The backups that the plan leaves alone are where they were.
  abbrev pub KeepsOthers : Disk T → Type 0
  KeepsOthers d = (n : BackupId) → ¬ In n intent.delete_backup_ids → d.active n ≡ before.active n

  -- While backups are moved: each is in one place, whole, and the intent says what is done.
  pub record Moving (d : Disk T) : Type 0 where
    pub others : KeepsOthers d
    pub placed : (n : BackupId) → In n intent.delete_backup_ids → Placed d n
    pub listed : All IsListed (entries_of d.trash)
    pub written : d.intent ≡ some (some intent)
    pub unmarked : d.cleanup_ready ≡ false
    pub incomplete : d.completed ≡ false

  -- From the cleanup mark on: all that are to go are out of the backups.
  pub record Committed (d : Disk T) : Type 0 where
    pub others : KeepsOthers d
    pub gone : (n : BackupId) → In n intent.delete_backup_ids → d.active n ≡ none
    pub listed : All IsListed (entries_of d.trash)
    pub written : d.intent ≡ some (some intent)
    pub marked : (d.cleanup_ready ≡ true) ⊎ (d.completed ≡ true)

  -- Nothing has been moved, and of the intent stands what the index says.
  pub record Intact (file : Option (Option RetentionIntent)) (d : Disk T) : Type 0 where
    pub kept : (n : BackupId) → d.active n ≡ before.active n
    pub no_trash : d.trash ≡ none
    pub file_is : d.intent ≡ file
    pub unmarked : d.cleanup_ready ≡ false

  pub record Removed (d : Disk T) : Type 0 where
    pub others : KeepsOthers d
    pub gone : (n : BackupId) → In n intent.delete_backup_ids → d.active n ≡ none
    pub no_trash : d.trash ≡ none
    pub no_file : d.intent ≡ none
    pub unmarked : d.cleanup_ready ≡ false

  -- The states in which a transaction may be left.
  pub data Recoverable (d : Disk T) : Type 0 where
    intact : Intact none d → Recoverable d
    torn : Intact (some none) d → d.completed ≡ false → Recoverable d
    moving : Moving d → Recoverable d
    committed : Committed d → Recoverable d
    removed : Removed d → Recoverable d

  -- What a move into quarantine gives.
  abbrev pub MovedAway : Disk T → BackupId → Disk T → Type 0
  MovedAway d id d' =
      Moving d' × (d'.active id ≡ none) × ((n : BackupId) → d.active n ≡ none → d'.active n ≡ none)

  -- What a move out of quarantine gives.
  abbrev pub MovedBack : Disk T → BackupId → Disk T → Type 0
  MovedBack d id d' =
      Moving d'
      × (get_entry id (entries_of d'.trash) ≡ none)
      × ((n : BackupId)
          → get_entry n (entries_of d.trash) ≡ none
          → get_entry n (entries_of d'.trash) ≡ none)

  module _ (real : AreDirectories) where
    set_other :
        (id n : BackupId) (x : Option (Node T)) (active : BackupId → Option (Node T))
        → n ≢ id
        → set_active id x active n ≡ active n
    set_other id n x active ne = rw (ne→==-false n id ne)

    set_self :
        (id : BackupId) (x : Option (Node T)) (active : BackupId → Option (Node T))
        → set_active id x active id ≡ x
    set_self id x active = rw (==-refl id)

    real_node :
        (id : BackupId) (node : Node T)
        → In id intent.delete_backup_ids
        → before.active id ≡ some node
        → is_directory node ≡ true
    real_node id (directory t) m e = refl
    real_node id not_directory m e = let (t, q) = real id m in absurd (ground (arith, e, q))

    was_there :
        (d : Disk T) (id : BackupId) (node : Node T)
        → Placed d id
        → d.active id ≡ some node
        → before.active id ≡ some node
    was_there d id node (inl (a, _)) e = sym a ∙ e
    was_there d id node (inr (a, _)) e = absurd (ground (arith, a, e))

    pub was_trashed :
        (d : Disk T) (id : BackupId) (node : Node T)
        → Placed d id
        → get_entry id (entries_of d.trash) ≡ some node
        → (d.active id ≡ none) × (before.active id ≡ some node)
    was_trashed d id node (inl (_, a)) e = absurd (ground (arith, a, e))
    was_trashed d id node (inr (a, b)) e = (a, sym b ∙ e)

    -- A backup that is moved into quarantine is there, and all others stay where they are.
    pub moved_away-Moving :
        (id : BackupId) (d : Disk T)
        → In id intent.delete_backup_ids
        → Moving d
        → After (λ _ d'. MovedAway d id d') (λ _. Moving) (moved_away id d (d.active id) d.trash)
    moved_away-Moving id d m h = by_parts (d.active id) d.trash refl refl
      where
        by_name :
            (node : Node T) (entries : List (BackupId × Node T))
            → d.active id ≡ some node
            → d.trash ≡ some entries
            → (n : BackupId) → In n intent.delete_backup_ids
            → Placed
                (record d {
                  active = set_active id none d.active;
                  trash = some ((id, node) ∷ entries);
                })
                n
        by_name node entries a e n k = elim (==-cases n id) [
          | inl (q, _) ↦
              subst
                (λ x.
                  InOnePlace (set_active id none d.active x) (get_entry x ((id, node) ∷ entries))
                    (before.active x))
                (sym q)
                (inr (
                  set_self id none d.active,
                  get_entry_self id node entries ∙ sym (was_there d id node (h.placed id m) a),
                ))
          | inr (ne, _) ↦
              in_place_as (set_other id n none d.active ne)
                (get_entry_other id n node entries ne
                  ∙ ap (λ t. get_entry n (entries_of t)) (sym e))
                (h.placed n k)
        ]

        still_gone : (n : BackupId) → d.active n ≡ none → set_active id none d.active n ≡ none
        still_gone n q = elim (==-cases n id) [
          | inl (r, _) ↦
              subst (λ x. set_active id none d.active x ≡ none) (sym r) (set_self id none d.active)
          | inr (ne, _) ↦ set_other id n none d.active ne ∙ q
        ]

        by_parts :
            (a : Option (Node T)) (t : Option (List (BackupId × Node T)))
            → d.active id ≡ a
            → d.trash ≡ t
            → After (λ _ d'. MovedAway d id d') (λ _. Moving) (moved_away id d a t)
        by_parts none t a e = h
        by_parts (some node) none a e = h
        by_parts (some node) (some entries) a e =
            elim (Bool-cases (is_some (get_entry id entries))) [
              | inl y ↦ rw y h
              | inr n ↦ rw n (
                record {
                  others = λ n k.
                      set_other id n none d.active
                        (λ q. k (subst (λ x. In x intent.delete_backup_ids) (sym q) m))
                      ∙ h.others n k;
                  placed = by_name node entries a e;
                  listed = (
                    (m, real_node id node m (was_there d id node (h.placed id m) a)),
                    subst (λ t. All IsListed (entries_of t)) e h.listed,
                  );
                  written = h.written;
                  unmarked = h.unmarked;
                  incomplete = h.incomplete;
                },
                set_self id none d.active,
                still_gone,
              )
            ]

    -- A backup that is moved back is where it was, and all others stay where they are.
    pub moved_back-Moving :
        (id : BackupId) (d : Disk T)
        → In id intent.delete_backup_ids
        → Moving d
        → After
            (λ _ d'. MovedBack d id d')
            (λ _. Moving)
            (moved_back id d (d.active id) (get_entry id (entries_of d.trash)))
    moved_back-Moving id d m h =
        by_parts (d.active id) (get_entry id (entries_of d.trash)) refl refl
      where
        by_name :
            (node : Node T)
            → get_entry id (entries_of d.trash) ≡ some node
            → (n : BackupId) → In n intent.delete_backup_ids
            → InOnePlace
                (set_active id (some node) d.active n)
                (get_entry n (remove_entry id (entries_of d.trash)))
                (before.active n)
        by_name node e n k = elim (==-cases n id) [
          | inl (q, _) ↦
              subst
                (λ x.
                  InOnePlace (set_active id (some node) d.active x)
                    (get_entry x (remove_entry id (entries_of d.trash))) (before.active x))
                (sym q)
                (inl (
                  set_self id (some node) d.active
                      ∙ sym (was_trashed d id node (h.placed id m) e).1,
                  get_entry-remove_entry id (entries_of d.trash),
                ))
          | inr (ne, _) ↦
              in_place_as (set_other id n (some node) d.active ne)
                (get_entry-remove_other id n (entries_of d.trash) ne) (h.placed n k)
        ]

        still_out :
            (n : BackupId)
            → get_entry n (entries_of d.trash) ≡ none
            → get_entry n (remove_entry id (entries_of d.trash)) ≡ none
        still_out n q = elim (==-cases n id) [
          | inl (r, _) ↦
              subst (λ x. get_entry x (remove_entry id (entries_of d.trash)) ≡ none) (sym r)
                (get_entry-remove_entry id (entries_of d.trash))
          | inr (ne, _) ↦ get_entry-remove_other id n (entries_of d.trash) ne ∙ q
        ]

        by_parts :
            (a e : Option (Node T))
            → d.active id ≡ a
            → get_entry id (entries_of d.trash) ≡ e
            → After (λ _ d'. MovedBack d id d') (λ _. Moving) (moved_back id d a e)
        by_parts a none p q = h
        by_parts (some other) (some node) p q = h
        by_parts none (some node) p q = (
          record {
            others = λ n k.
                set_other id n (some node) d.active
                  (λ r. k (subst (λ x. In x intent.delete_backup_ids) (sym r) m))
                ∙ h.others n k;
            placed = by_name node q;
            listed = All-remove_entry IsListed id (entries_of d.trash) h.listed;
            written = h.written;
            unmarked = h.unmarked;
            incomplete = h.incomplete;
          },
          get_entry-remove_entry id (entries_of d.trash),
          still_out,
        )
