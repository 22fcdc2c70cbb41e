-- ===== src/Repository/Cleanup.antt =====
-- The cleanup of a quarantine directory
-- (crates/guardian-local-repository/src/retention_journal.rs).
use vds_guardian.Prelude.{
  ◌≡◌, ◌≢◌, ◌⊎◌, refl, sym, ap, ◌∙◌, Bool, true, false, ==-cases, inl, inr, Option, none, some,
  List, [], ◌∷◌, ok, All, All-map, In, if◌then◌else◌, is_some, subst, ==-refl, try_for_each_iff,
}
use vds_guardian.Identifiers.{BackupId, identifier_eq}
use vds_guardian.Repository.Files.{
  RepositoryError, cleanup_pending, io, RetentionIntent, Node, Disk, ◌>>◌, entries_of, get_entry,
  remove_entry, pure,
}
use vds_guardian.Repository.Journal.{sync_parent}
use vds_guardian.Repository.Reconcile.{
  check_entry, check_trash, check_cleanup, remove_dir_all, remove_each, cleanup_transaction,
}
use vds_guardian.Repository.Rules.{
  Runs, Runs-bind, Runs-handle, Runs-perform, Runs-pure, Runs-fail, Runs-look, Runs-from, Runs-to,
  Runs-inspect,
}
use vds_guardian.Repository.Calls.{Runs-sync_parent, Runs-remove_empty_trash}
use vds_guardian.Repository.Places.{Committed, IsListed}
use vds_guardian.Repository.Entries.{
  All-remove_entry, get_entry-remove_entry, get_entry-remove_other,
}
use vds_guardian.Repository.Damage.{listed-damaged, In→contains, none-any, get_entry-damaged}

pub is_none : {T : Type 0} (o : Option (Node T)) → is_some o ≡ false → o ≡ none
is_none none e = refl
is_none (some x) e = cc

pub either : {P Q C : Type 0} → P ⊎ Q → (P → C) → (Q → C) → C
either (inl p) f g = f p
either (inr q) f g = g q

module _ {T : Type 0} (before : Disk T) (intent : RetentionIntent) where
  pub IsListed-check_trash :
      (d : Disk T)
      → All (IsListed before intent) (entries_of d.trash)
      → check_trash intent.delete_backup_ids d ≡ ok tt
  unfolding check_trash
  IsListed-check_trash d h =
      (try_for_each_iff (check_entry intent.delete_backup_ids) (entries_of d.trash)).1 (
        All-map (λ (n, node) (m, y). rw (In→contains intent.delete_backup_ids n m, y) refl)
          (entries_of d.trash) h)

  pub nothing_left :
      (entries : List (BackupId × Node T))
      → All (IsListed before intent) entries
      → ((n : BackupId) → In n intent.delete_backup_ids → get_entry n entries ≡ none)
      → entries ≡ []
  nothing_left [] h g = refl
  nothing_left ((m, node) ∷ entries) ((k, y), h) g =
      absurd (some-ne-none (rw (==-refl m) at (g m k)))
    where
      some-ne-none : some node ≡ none → ⊥
      some-ne-none e = cc

  nonempty :
      (d : Disk T) (x : BackupId × Node T) (xs : List (BackupId × Node T))
      → Committed before intent d
      → ((n : BackupId) → In n intent.delete_backup_ids → get_entry n (entries_of d.trash) ≡ none)
      → d.trash ≢ some (x ∷ xs)
  nonempty d x xs c o e =
      cons-ne-nil (sym (ap entries_of e) ∙ nothing_left (entries_of d.trash) c.listed o)
    where
      cons-ne-nil : x ∷ xs ≡ [] → ⊥
      cons-ne-nil q = cc

  -- Committed, with the mark or without it.
  abbrev pub Marked : Bool → Disk T → Type 0
  Marked mark d = Committed before intent d × (d.cleanup_ready ≡ mark)

  -- And the names of `Out` are out of the quarantine directory.
  abbrev Cleaning : Bool → (BackupId → Type 0) → Disk T → Type 0
  Cleaning mark Out d =
      Committed before intent d
      × ((n : BackupId) → Out n → get_entry n (entries_of d.trash) ≡ none)
      × (d.cleanup_ready ≡ mark)

  no_trash :
      (d : Disk T) → Committed before intent d → Committed before intent (record d { trash = none })
  no_trash d c = record {
    others = c.others;
    gone = c.gone;
    listed = tt;
    written = c.written;
    marked = c.marked;
  }

  with_trash :
      (d : Disk T) (entries : List (BackupId × Node T))
      → Committed before intent d
      → All (IsListed before intent) entries
      → Committed before intent (record d { trash = some entries })
  with_trash d entries c h = record {
    others = c.others;
    gone = c.gone;
    listed = h;
    written = c.written;
    marked = c.marked;
  }

  module _ {calm : Bool} {F : RepositoryError → Disk T → Type 0} {R : Disk T → Type 0}
      (left : calm ≡ false
        → (e : RepositoryError) (d : Disk T) → Committed before intent d
        → F e d × R d)
      (part : T → T) (mark : Bool) where
    Runs-remove_dir_all :
        (Out : BackupId → Type 0) (id : BackupId)
        → Runs calm
            (Cleaning mark Out)
            (remove_dir_all part id)
            (λ _. Cleaning mark (λ n. Out n ⊎ (n ≡ id)))
            F
            R
    unfolding remove_dir_all
    Runs-remove_dir_all Out id =
        Runs-bind (λ _. Cleaning mark Out) _ _
          (Runs-perform cleanup_pending _
            (λ d (c, o, x). (
              with_trash d _ c
                  (listed-damaged part intent.delete_backup_ids id (entries_of d.trash) c.listed),
              λ n k. get_entry-damaged part id n (entries_of d.trash) (o n k),
              x,
            ))
            (λ q d (c, _, _). left q cleanup_pending d c))
          (λ _.
            Runs-perform cleanup_pending _
              (λ d (c, o, x). (
                with_trash d _ c
                    (All-remove_entry (IsListed before intent) id (entries_of d.trash) c.listed),
                out d id o,
                x,
              ))
              (λ q d (c, _, _). left q cleanup_pending d c))
      where
        out :
            (d : Disk T) (id : BackupId)
            → ((n : BackupId) → Out n → get_entry n (entries_of d.trash) ≡ none)
            → (n : BackupId) → Out n ⊎ (n ≡ id)
            → get_entry n (remove_entry id (entries_of d.trash)) ≡ none
        out d id o n k = elim (==-cases n id) [
          | inl (e, _) ↦
              subst (λ x. get_entry x (remove_entry id (entries_of d.trash)) ≡ none) (sym e)
                (get_entry-remove_entry id (entries_of d.trash))
          | inr (ne, _) ↦ get_entry-remove_other id n (entries_of d.trash) ne ∙ older n ne k
        ]
          where
            older :
                (n : BackupId) → n ≢ id → Out n ⊎ (n ≡ id) → get_entry n (entries_of d.trash) ≡ none
            older n ne (inl k) = o n k
            older n ne (inr e) = absurd (ne e)

    Runs-remove_each :
        (Out : BackupId → Type 0) (ids : List BackupId)
        → Runs calm
            (Cleaning mark Out)
            (remove_each part ids)
            (λ _. Cleaning mark (λ n. Out n ⊎ In n ids))
            F
            R
    unfolding remove_each
    Runs-remove_each Out [] = Runs-pure tt (λ d (c, o, x). (c, λ n k. o n (drop_none n k), x))
      where
        drop_none : (n : BackupId) → Out n ⊎ In n [] → Out n
        drop_none n (inl k) = k
        drop_none n (inr k) = absurd k
    Runs-remove_each Out (id ∷ ids) =
        Runs-bind
          (λ present d.
            Cleaning mark Out d × (is_some (get_entry id (entries_of d.trash)) ≡ present))
          _ _ (Runs-look _ (λ d c. (c, refl)))
          (λ present.
            Runs-bind (λ _. Cleaning mark (λ n. Out n ⊎ (n ≡ id))) _ _ (by_presence present)
              (λ _.
                Runs-to (remove_each part ids) (λ _ d (c, o, x). (c, λ n k. o n (sorted n k), x))
                  (Runs-remove_each (λ n. Out n ⊎ (n ≡ id)) ids)))
      where
        sorted : (n : BackupId) → Out n ⊎ In n (id ∷ ids) → (Out n ⊎ (n ≡ id)) ⊎ In n ids
        sorted n (inl k) = inl (inl k)
        sorted n (inr (inl e)) = inl (inr e)
        sorted n (inr (inr m)) = inr m

        absent :
            (d : Disk T)
            → is_some (get_entry id (entries_of d.trash)) ≡ false
            → get_entry id (entries_of d.trash) ≡ none
        absent d e = is_none (get_entry id (entries_of d.trash)) e

        by_presence :
            (present : Bool)
            → Runs calm
                (λ d. Cleaning mark Out d × (is_some (get_entry id (entries_of d.trash)) ≡ present))
                (if present then (remove_dir_all part id >> sync_parent) else pure tt)
                (λ _. Cleaning mark (λ n. Out n ⊎ (n ≡ id)))
                F
                R
        by_presence true =
            Runs-bind (λ _. Cleaning mark (λ n. Out n ⊎ (n ≡ id))) _ _
              (Runs-from (remove_dir_all part id) (λ d (c, _). c) (Runs-remove_dir_all Out id))
              (λ _. Runs-sync_parent (λ q d (c, _, _). left q io d c))
        by_presence false = Runs-pure tt (λ d ((c, o, x), e). (
          c,
          λ n k.
              either k (o n)
                (λ q. subst (λ x. get_entry x (entries_of d.trash) ≡ none) (sym q) (absent d e)),
          x,
        ))

    -- The cleanup ends with no quarantine directory, and whatever stops it leaves what is committed.
    pub Runs-cleanup_transaction :
        Runs calm
          (Marked mark)
          (cleanup_transaction part intent.delete_backup_ids)
          (λ _ d. Marked mark d × (d.trash ≡ none))
          F
          R
    unfolding cleanup_transaction check_cleanup
    Runs-cleanup_transaction =
        Runs-bind (λ _. Cleaning mark (λ _. ⊥)) _ _
          (Runs-inspect _
            (λ d (c, x).
              rw
                (IsListed-check_trash d c.listed, none-any intent.delete_backup_ids d.active c.gone)
                (c, λ n k. absurd k, x))
            (λ q d (c, _). left q io d c))
          (λ _.
            Runs-bind (λ _. Cleaning mark (λ n. ⊥ ⊎ In n intent.delete_backup_ids)) _ _
              (Runs-remove_each (λ _. ⊥) intent.delete_backup_ids)
              (λ _.
                Runs-handle (λ _ d. (calm ≡ false) × Committed before intent d) _ _
                  (Runs-remove_empty_trash _ (λ d (c, o, x) e. ((c, x), e))
                    (λ d (c, o, x) e. ((no_trash d c, x), refl))
                    (λ d x xs (c, o, _) e. absurd (nonempty d x xs c (λ n m. o n (inr m)) e))
                    (λ q d (c, _, _). ((q, c), (left q io d c).1))
                    (λ q d ((c, _), _). ((q, c), (left q io d c).1)))
                  (λ e. Runs-fail cleanup_pending (λ d (q, c). (left q cleanup_pending d c).0))))
