-- ===== src/Repository/Sealed/Inventory.antt =====
-- The inventory of trusted backups (crates/guardian-local-repository/src/inventory.rs,
-- `trusted_inventory`).
use vds_guardian.Prelude.{
  ◌≡◌, ◌⊎◌, refl, sym, ap, ◌∙◌, subst, true, false, Bool-cases, inl, inr, Option, none, some, List,
  [], ◌∷◌, ok, err-ne-ok, ok-injective, >>=-eq-ok, ok_or, ok_or-eq-ok, All, All-map, In, ==-cases,
  list_eq, nat_eq, arith, ne→==-false,
}
use vds_guardian.Text.{Text, Bytes, bytes}
use vds_guardian.Manifest.{Manifest}
use vds_guardian.Selection.{bytes_le}
use vds_guardian.Repository.Sealed.Tree.{
  FileNode, Listing, folder, unlisted, end, listed, entries_within,
}
use vds_guardian.Repository.Sealed.Load.{
  Readers, TrustedBackup, comes_before, insert_backup, sort_backups, load_verified_manifest,
  inspect_backup, inspect_all, trusted_inventory,
}
use vds_guardian.Repository.Sealed.Trusted.{
  IsTrusted, load_verified_manifest_sound, entries_within_sound,
}

bytes_le_total : (a b : Bytes) → bytes_le a b ≡ false → bytes_le b a ≡ true
unfolding bytes_le
bytes_le_total [] b h = absurd (ground arith)
bytes_le_total (x ∷ a) [] h = refl
bytes_le_total (x ∷ a) (y ∷ b) h = ground (arith, bytes_le_total a b)

comes_before_total : (b c : TrustedBackup) → comes_before b c ≡ false → comes_before c b ≡ true
unfolding comes_before
comes_before_total b c h = elim (==-cases b.sealed_at.as_str c.sealed_at.as_str) [
  | inl (e, y) ↦
      rw ((list_eq.beq_iff c.sealed_at.as_str b.sealed_at.as_str).1 (sym e))
        (bytes_le_total (bytes b.backup_id.as_str) (bytes c.backup_id.as_str) (rw y at h))
  | inr (n, m) ↦
      rw (ne→==-false c.sealed_at.as_str b.sealed_at.as_str (λ e. n (sym e)))
        (bytes_le_total (bytes b.sealed_at.as_str) (bytes c.sealed_at.as_str) (rw m at h))
]

abbrev pub IsBefore : TrustedBackup → List TrustedBackup → Type 0
IsBefore b [] = Unit
IsBefore b (c ∷ cs) = comes_before b c ≡ true

-- Each backup comes before the next one.
abbrev pub IsSorted : List TrustedBackup → Type 0
IsSorted [] = Unit
IsSorted (b ∷ bs) = IsBefore b bs × IsSorted bs

insert_backup-IsBefore :
    (c b : TrustedBackup) (cs : List TrustedBackup)
    → comes_before c b ≡ true
    → IsBefore c cs
    → IsBefore c (insert_backup b cs)
unfolding insert_backup
insert_backup-IsBefore c b [] y h = y
insert_backup-IsBefore c b (d ∷ ds) y h = elim (Bool-cases (comes_before b d)) [
  | inl t ↦ rw t y
  | inr f ↦ rw f h
]

insert_backup-IsSorted :
    (b : TrustedBackup) (cs : List TrustedBackup) → IsSorted cs → IsSorted (insert_backup b cs)
unfolding insert_backup
insert_backup-IsSorted b [] h = (tt, tt)
insert_backup-IsSorted b (c ∷ cs) (k, h) = elim (Bool-cases (comes_before b c)) [
  | inl y ↦ rw y (y, (k, h))
  | inr n ↦
      rw n
        (insert_backup-IsBefore c b cs (comes_before_total b c n) k, insert_backup-IsSorted b cs h)
]

sort_backups-IsSorted : (bs : List TrustedBackup) → IsSorted (sort_backups bs)
unfolding sort_backups
sort_backups-IsSorted [] = tt
sort_backups-IsSorted (b ∷ bs) =
    insert_backup-IsSorted b (sort_backups bs) (sort_backups-IsSorted bs)

module _ (P : TrustedBackup → Type 0) where
  All-insert_backup :
      (b : TrustedBackup) (cs : List TrustedBackup) → P b → All P cs → All P (insert_backup b cs)
  unfolding insert_backup
  All-insert_backup b [] p h = (p, tt)
  All-insert_backup b (c ∷ cs) p (q, h) = elim (Bool-cases (comes_before b c)) [
    | inl y ↦ rw y (p, (q, h))
    | inr n ↦ rw n (q, All-insert_backup b cs p h)
  ]

  All-sort_backups : (bs : List TrustedBackup) → All P bs → All P (sort_backups bs)
  unfolding sort_backups
  All-sort_backups [] h = tt
  All-sort_backups (b ∷ bs) (p, h) = All-insert_backup b (sort_backups bs) p (All-sort_backups bs h)

In-insert_backup :
    (b c : TrustedBackup) (cs : List TrustedBackup) → (c ≡ b) ⊎ In c cs → In c (insert_backup b cs)
unfolding insert_backup
In-insert_backup b c [] (inl e) = inl e
In-insert_backup b c [] (inr i) = absurd i
In-insert_backup b c (d ∷ ds) h = elim (Bool-cases (comes_before b d)) [
  | inl y ↦ rw y h
  | inr n ↦ rw n (elim h [
    | inl e ↦ inr (In-insert_backup b c ds (inl e))
    | inr (inl e) ↦ inl e
    | inr (inr i) ↦ inr (In-insert_backup b c ds (inr i))
  ])
]

In-sort_backups : (c : TrustedBackup) (bs : List TrustedBackup) → In c bs → In c (sort_backups bs)
unfolding sort_backups
In-sort_backups c [] i = i
In-sort_backups c (b ∷ bs) (inl e) = In-insert_backup b c (sort_backups bs) (inl e)
In-sort_backups c (b ∷ bs) (inr i) =
    In-insert_backup b c (sort_backups bs) (inr (In-sort_backups c bs i))

-- The directory has an entry of this name.
abbrev pub HasEntry : Text → FileNode → Listing → Type 0
HasEntry name node unlisted = ⊥
HasEntry name node end = ⊥
HasEntry name node (listed n first rest) = ((name ≡ n) × (node ≡ first)) ⊎ HasEntry name node rest

module _ (readers : Readers) where
  -- What the inventory says of a directory entry that is a trusted backup.
  abbrev pub IsBackup : Text → FileNode → TrustedBackup → Type 0
  IsBackup name node b =
      (manifest : Manifest) × IsTrusted readers name node manifest
      × (manifest.backup_id ≡ b.backup_id)
      × (manifest.sealed_at ≡ some b.sealed_at)

  inspect_backup_sound :
      (name : Text) (node : FileNode) (b : TrustedBackup)
      → inspect_backup readers name node ≡ ok b
      → IsBackup name node b
  unfolding inspect_backup
  inspect_backup_sound name node b h =
      let (m, a, h1) = >>=-eq-ok (load_verified_manifest readers name node) _ h in
      let (at_time, c, h2) = >>=-eq-ok (ok_or m.sealed_at _) _ h1 in
      let e = ok-injective h2 in
      (
        m,
        load_verified_manifest_sound readers name node m a,
        ap (λ x. x.backup_id) e,
        ok_or-eq-ok m.sealed_at _ c ∙ ap (λ x. some x.sealed_at) e,
      )

  abbrev pub IsListedIn : Listing → TrustedBackup → Type 0
  IsListedIn listing b =
      (name : Text) × (node : FileNode) × HasEntry name node listing × IsBackup name node b

  abbrev pub Lists : Listing → List TrustedBackup → Type 0
  Lists listing inventory =
      All (IsListedIn listing) inventory
      × ((name : Text) (node : FileNode)
          → HasEntry name node listing
          → (b : TrustedBackup) × In b inventory × IsBackup name node b)

  inspect_all_sound :
      (listing : Listing) (inventory : List TrustedBackup)
      → inspect_all readers listing ≡ ok inventory
      → Lists listing inventory
  unfolding inspect_all
  inspect_all_sound unlisted inventory h = absurd (err-ne-ok h)
  inspect_all_sound end inventory h =
      subst (Lists end) (ok-injective h) (tt, λ name node i. absurd i)
  inspect_all_sound (listed n first rest) inventory h =
      let (b, a, h1) = >>=-eq-ok (inspect_backup readers n first) _ h in
      let (later, c, h2) = >>=-eq-ok (inspect_all readers rest) _ h1 in
      let is = inspect_backup_sound n first b a in
      let (listed_later, found) = inspect_all_sound rest later c in
      subst (Lists (listed n first rest)) (ok-injective h2) (
        (
          (n, first, inl (refl, refl), is),
          All-map (λ x (name, node, i, k). (name, node, inr i, k)) later listed_later,
        ),
        λ name node i. elim i [
          | inl (p, q) ↦ (
            b,
            inl refl,
            subst (λ x. IsBackup x node b) (sym p) (subst (λ x. IsBackup n x b) (sym q) is),
          )
          | inr j ↦ let (x, k, t) = found name node j in (x, inr k, t)
        ],
      )

  abbrev pub IsInventoryOf : Option FileNode → List TrustedBackup → Type 0
  IsInventoryOf backups_root inventory =
      (listing : Listing) × (backups_root ≡ some (folder listing))
      × IsSorted inventory
      × Lists listing inventory

  -- An inventory that is given lists every entry of the backups' directory, and nothing else, each a trusted
  -- backup under the name of its directory, with the id and the time of its manifest; and it is
  -- sorted by time, and by id where the times are equal.
  pub trusted_inventory_sound :
      (backups_root : Option FileNode) (inventory : List TrustedBackup)
      → trusted_inventory readers backups_root ≡ ok inventory
      → IsInventoryOf backups_root inventory
  unfolding trusted_inventory
  trusted_inventory_sound backups_root inventory h =
      let (listing, a, h1) = >>=-eq-ok (entries_within backups_root) _ h in
      let (bs, b, h2) = >>=-eq-ok (inspect_all readers listing) _ h1 in
      let (every, found) = inspect_all_sound listing bs b in
      subst (IsInventoryOf backups_root) (ok-injective h2) (
        listing,
        some_root backups_root listing a,
        sort_backups-IsSorted bs,
        (
          All-sort_backups (IsListedIn listing) bs every,
          λ name node i. let (x, k, t) = found name node i in (x, In-sort_backups x bs k, t),
        ),
      )
    where
      some_root :
          (root : Option FileNode) (listing : Listing)
          → entries_within root ≡ ok listing
          → root ≡ some (folder listing)
      some_root none listing k = absurd (err-ne-ok k)
      some_root (some node) listing k = ap some (entries_within_sound node listing k)
