-- ===== src/Repository/Entries.antt =====
-- Looking up and removing entries of a quarantine directory
-- (crates/guardian-local-repository/src/retention_journal.rs).
use vds_guardian.Prelude.{
  ◌≡◌, ◌≢◌, ◌⊎◌, refl, sym, ◌∙◌, true, false, Bool-cases, ==-cases, inl, inr, Option, none, some,
  List, [], ◌∷◌, All, ◌==◌, not, ==-refl, ne→==-false,
}
use vds_guardian.Identifiers.{BackupId, identifier_eq}
use vds_guardian.Repository.Files.{Node, get_entry, remove_entry}

module _ {T : Type 0} where
  pub get_entry_self :
      (id : BackupId) (node : Node T) (entries : List (BackupId × Node T))
      → get_entry id ((id, node) ∷ entries) ≡ some node
  get_entry_self id node entries = rw (==-refl id)

  pub get_entry_other :
      (id n : BackupId) (node : Node T) (entries : List (BackupId × Node T))
      → n ≢ id
      → get_entry n ((id, node) ∷ entries) ≡ get_entry n entries
  get_entry_other id n node entries ne = rw (ne→==-false id n (λ e. ne (sym e)))

  pub get_entry-remove_entry :
      (id : BackupId) (entries : List (BackupId × Node T))
      → get_entry id (remove_entry id entries) ≡ none
  get_entry-remove_entry id [] = refl
  get_entry-remove_entry id ((m, node) ∷ entries) = elim (==-cases m id) [
    | inl (_, y) ↦ rw y (get_entry-remove_entry id entries)
    | inr (ne, y) ↦ rw y (
        get_entry_other m id node (remove_entry id entries) (λ e. ne (sym e))
        ∙ get_entry-remove_entry id entries)
  ]

  pub get_entry-remove_other :
      (id n : BackupId) (entries : List (BackupId × Node T))
      → n ≢ id
      → get_entry n (remove_entry id entries) ≡ get_entry n entries
  get_entry-remove_other id n [] ne = refl
  get_entry-remove_other id n ((m, node) ∷ entries) ne = elim (==-cases m id) [
    | inl (e, y) ↦ rw y (
        get_entry-remove_other id n entries ne
        ∙ sym (get_entry_other m n node entries (λ q. ne (q ∙ e))))
    | inr (_, y) ↦ rw y (kept (==-cases m n) (get_entry-remove_other id n entries ne))
  ]
    where
      kept :
          ((m ≡ n) × (m == n ≡ true)) ⊎ ((m ≢ n) × (m == n ≡ false))
          → get_entry n (remove_entry id entries) ≡ get_entry n entries
          → get_entry n ((m, node) ∷ remove_entry id entries) ≡ get_entry n ((m, node) ∷ entries)
      kept (inl (_, y)) ih = rw y
      kept (inr (_, y)) ih = rw y ih

  pub All-remove_entry :
      (P : BackupId × Node T → Type 0) (name : BackupId) (entries : List (BackupId × Node T))
      → All P entries
      → All P (remove_entry name entries)
  All-remove_entry P name [] h = tt
  All-remove_entry P name (e ∷ entries) (h, k) = elim (Bool-cases (not (e.0 == name))) [
    | inl y ↦ rw y (h, All-remove_entry P name entries k)
    | inr y ↦ rw y (All-remove_entry P name entries k)
  ]

-- Of two places the one holds what was there before, and the other nothing.
abbrev pub InOnePlace : {T : Type 0} → Option (Node T) → Option (Node T) → Option (Node T) → Type 0
InOnePlace here there was = ((here ≡ was) × (there ≡ none)) ⊎ ((here ≡ none) × (there ≡ was))

pub in_place_as :
    {T : Type 0} {a b x y z : Option (Node T)} → a ≡ x → b ≡ y → InOnePlace x y z → InOnePlace a b z
in_place_as p q (inl (h, k)) = inl (p ∙ h, q ∙ k)
in_place_as p q (inr (h, k)) = inr (p ∙ h, q ∙ k)
