-- ===== src/Repository/Damage.antt =====
-- What an interrupted removal of a backup leaves of it
-- (crates/guardian-local-repository/src/retention_journal.rs).
use vds_guardian.Prelude.{
  ◌≡◌, refl, true, false, ==-cases, inl, inr, Option, none, some, List, [], ◌∷◌, All, In, is_some,
  ◌==◌, subst, ==-refl, contains, any, Any→any, Any-map,
}
use vds_guardian.Identifiers.{BackupId, identifier_eq}
use vds_guardian.Repository.Files.{Node, directory, not_directory, get_entry}
use vds_guardian.Repository.Reconcile.{is_directory, damaged, damaged_node}

pub In→contains : (ids : List BackupId) (n : BackupId) → In n ids → contains ids n ≡ true
In→contains ids n m =
    Any→any (λ x. n == x) ids (Any-map (λ x e. subst (λ y. n == y ≡ true) e (==-refl n)) ids m)

pub none-any :
    {T : Type 0} (ids : List BackupId) (active : BackupId → Option (Node T))
    → ((n : BackupId) → In n ids → active n ≡ none)
    → any (λ id. is_some (active id)) ids ≡ false
none-any [] active h = refl
none-any (id ∷ ids) active h = rw (h id (inl refl)) (none-any ids active (λ n m. h n (inr m)))

module _ {T : Type 0} (part : T → T) where
  pub get_entry-damaged :
      (id n : BackupId) (entries : List (BackupId × Node T))
      → get_entry n entries ≡ none
      → get_entry n (damaged part id entries) ≡ none
  get_entry-damaged id n [] h = refl
  get_entry-damaged id n ((m, node) ∷ entries) h = elim (==-cases m n) [
    | inl (_, y) ↦ absurd (some-ne-none (rw y at h))
    | inr (_, y) ↦ elim (==-cases m id) [
      | inl (_, z) ↦ rw (z, y) (get_entry-damaged id n entries (rw y at h))
      | inr (_, z) ↦ rw (z, y) (get_entry-damaged id n entries (rw y at h))
    ]
  ]
    where
      some-ne-none : some node ≡ none → ⊥
      some-ne-none e = cc

  module _ (ids : List BackupId) where
    pub listed-damaged :
        (id : BackupId) (entries : List (BackupId × Node T))
        → All (λ (e : BackupId × Node T). In e.0 ids × (is_directory e.1 ≡ true)) entries
        → All
            (λ (e : BackupId × Node T). In e.0 ids × (is_directory e.1 ≡ true))
            (damaged part id entries)
    listed-damaged id [] h = tt
    listed-damaged id ((m, node) ∷ entries) ((k, y), h) = elim (==-cases m id) [
      | inl (_, z) ↦ rw z ((k, still node y), listed-damaged id entries h)
      | inr (_, z) ↦ rw z ((k, y), listed-damaged id entries h)
    ]
      where
        still : (x : Node T) → is_directory x ≡ true → is_directory (damaged_node part x) ≡ true
        still (directory t) e = refl
        still not_directory e = e
