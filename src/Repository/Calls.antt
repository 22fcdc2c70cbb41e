-- ===== src/Repository/Calls.antt =====
-- Rules for the calls that the journal makes: syncs, new files, removed files and the emptied
-- quarantine directory (crates/guardian-local-repository/src/filesystem.rs, retention_journal.rs).
use vds_guardian.Prelude.{
  ◌≡◌, refl, Bool, true, false, Option, none, some, List, [], ◌∷◌, ok, err, if◌then◌else◌,
}
use vds_guardian.Identifiers.{BackupId}
use vds_guardian.Repository.Files.{RepositoryError, already_exists, io, Disk, Node}
use vds_guardian.Repository.Journal.{
  sync_parent, write_new, synced_if, remove_cleanup_mark, remove_intent, remove_empty_trash,
  emptied,
}
use vds_guardian.Repository.Rules.{Runs, After, Runs-bind, Runs-perform, Runs-pure}

module _ {T : Type 0} {calm : Bool} {F : RepositoryError → Disk T → Type 0}
    {R : Disk T → Type 0} where
  pub Runs-sync_parent :
      {P : Disk T → Type 0}
      → (calm ≡ false → (d : Disk T) → P d → F io d × R d)
      → Runs calm P sync_parent (λ _. P) F R
  unfolding sync_parent
  Runs-sync_parent fault = Runs-perform io (λ d. (d, ok tt)) (λ d p. p) fault

  -- `write_new`, with what holds when the file has been created and when it has been written.
  pub Runs-write_new :
      {P : Disk T → Type 0} (C Q : Disk T → Type 0) (exists : Disk T → Bool)
      (create write_all : Disk T → Disk T)
      → ((d : Disk T) → P d → exists d ≡ true → F already_exists d)
      → ((d : Disk T) → P d → exists d ≡ false → C (create d))
      → ((d : Disk T) → C d → Q (write_all d))
      → (calm ≡ false → (d : Disk T) → P d → F io d × R d)
      → (calm ≡ false → (d : Disk T) → C d → F io d × R d)
      → (calm ≡ false → (d : Disk T) → Q d → F io d × R d)
      → Runs calm P (write_new exists create write_all) (λ _. Q) F R
  unfolding write_new
  Runs-write_new {P} C Q exists create write_all taken made filled p c q =
      Runs-bind (λ _. C) _ _ (Runs-perform io _ (λ d h. by_exists d h (exists d) refl) p)
        (λ _.
          Runs-bind (λ _. Q) _ _ (Runs-perform io _ filled c)
            (λ _.
              Runs-bind (λ _. Q) _ _ (Runs-perform io _ (λ d h. h) q)
                (λ _. Runs-perform io _ (λ d h. h) q)))
    where
      by_exists :
          (d : Disk T)
          → P d
          → (b : Bool) → exists d ≡ b
          → After (λ _. C) F (if exists d then (d, err already_exists) else (create d, ok tt))
      by_exists d h true e = rw e (taken d h e)
      by_exists d h false e = rw e (made d h e)

  -- Removing a file, with the sync that follows if it was there.
  pub Runs-synced_if :
      {P : Disk T → Type 0} (b : Bool)
      → (calm ≡ false → (d : Disk T) → P d → F io d × R d)
      → Runs calm P (synced_if b) (λ _. P) F R
  Runs-synced_if true fault = Runs-sync_parent fault
  Runs-synced_if false fault = Runs-pure tt (λ d p. p)

  pub Runs-remove_cleanup_mark :
      {P : Disk T → Type 0} (Q : Disk T → Type 0)
      → ((d : Disk T) → P d → Q (record d { cleanup_ready = false }))
      → (calm ≡ false → (d : Disk T) → P d → F io d × R d)
      → (calm ≡ false → (d : Disk T) → Q d → F io d × R d)
      → Runs calm P remove_cleanup_mark (λ _. Q) F R
  unfolding remove_cleanup_mark
  Runs-remove_cleanup_mark Q step p q =
      Runs-bind (λ _. Q) _ _ (Runs-perform io _ step p) (λ b. Runs-synced_if b q)

  pub Runs-remove_intent :
      {P : Disk T → Type 0} (Q : Disk T → Type 0)
      → ((d : Disk T) → P d → Q (record d { intent = none }))
      → (calm ≡ false → (d : Disk T) → P d → F io d × R d)
      → (calm ≡ false → (d : Disk T) → Q d → F io d × R d)
      → Runs calm P remove_intent (λ _. Q) F R
  unfolding remove_intent
  Runs-remove_intent Q step p q =
      Runs-bind (λ _. Q) _ _ (Runs-perform io _ step p) (λ b. Runs-synced_if b q)

  pub Runs-remove_empty_trash :
      {P : Disk T → Type 0} (Q : Disk T → Type 0)
      → ((d : Disk T) → P d → d.trash ≡ none → Q d)
      → ((d : Disk T) → P d → d.trash ≡ some [] → Q (record d { trash = none }))
      → ((d : Disk T) (e : BackupId × Node T) (entries : List (BackupId × Node T))
          → P d
          → d.trash ≡ some (e ∷ entries)
          → F io d)
      → (calm ≡ false → (d : Disk T) → P d → F io d × R d)
      → (calm ≡ false → (d : Disk T) → Q d → F io d × R d)
      → Runs calm P remove_empty_trash (λ _. Q) F R
  unfolding remove_empty_trash
  Runs-remove_empty_trash {P} Q absent empty full p q =
      Runs-bind (λ _. Q) _ _ (Runs-perform io _ (λ d h. by_trash d h d.trash refl) p)
        (λ b. Runs-synced_if b q)
    where
      by_trash :
          (d : Disk T)
          → P d
          → (t : Option (List (BackupId × Node T))) → d.trash ≡ t
          → After (λ _. Q) F (emptied d t)
      by_trash d h none e = absent d h e
      by_trash d h (some []) e = empty d h e
      by_trash d h (some (x ∷ xs)) e = full d x xs h e
