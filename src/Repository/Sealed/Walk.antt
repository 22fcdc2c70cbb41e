-- ===== src/Repository/Sealed/Walk.antt =====
-- What the walk over the payload of a backup finds
-- (crates/guardian-local-repository/src/verification.rs, `walk_payload`).
use vds_guardian.Prelude.{
  ℕ, suc, ◌≡◌, refl, sym, ap, ◌∙◌, subst, Bool, true, false, Bool-cases, Option, none, some, List,
  [], ◌∷◌, ◌++◌, append-nil, append_assoc, Result, ok, err, err-ne-ok, ok-injective, In, contains,
  ◌==◌, ==-cases, inl, inr, ltb, length, list_eq, nat_eq, arith, if◌then◌else◌,
}
use vds_guardian.Text.{Text, Bytes}
use vds_guardian.Repository.Files.{RepositoryError}
use vds_guardian.Repository.Sealed.Tree.{
  FileNode, Listing, file, folder, symlink, special, unlisted, end, listed, lookup, at, inserted,
  max_payload_depth, max_payload_files, walk_payload, walk_entry, entries_within, go_on_walking,
}

Paths : Type 0
Paths = List (List Text)

abbrev pub Within : List (List Text) → List (List Text) → Type 0
Within xs ys = (p : List Text) → In p xs → In p ys

-- A file is among the paths, and nothing else than a file or a directory is there.
abbrev pub Fits : List (List Text) → List Text → FileNode → Type 0
Fits found path (file readable bytes) = In path found
Fits found path (folder listing) = Unit
Fits found path symlink = ⊥
Fits found path special = ⊥

pub Fits-map :
    (files found : List (List Text)) (path : List Text) (node : FileNode)
    → Within files found
    → Fits files path node
    → Fits found path node
Fits-map files found path (file readable bytes) w h = w path h
Fits-map files found path (folder listing) w h = tt
Fits-map files found path symlink w h = h
Fits-map files found path special w h = h

pub contains-In :
    (files : List (List Text)) (path : List Text) → contains files path ≡ true → In path files
contains-In [] path h = absurd (ground arith)
contains-In (x ∷ files) path h = elim (==-cases path x) [
  | inl (e, _) ↦ inl e
  | inr (_, n) ↦ inr (contains-In files path (rw n at h))
]

inserted_lem :
    (files : List (List Text)) (path : List Text)
    → Within files (inserted files path) × In path (inserted files path)
inserted_lem files path = elim (Bool-cases (contains files path)) [
  | inl y ↦ rw y ((λ p h. h), contains-In files path y)
  | inr n ↦ rw n ((λ p h. inr h), inl refl)
]

go_on_walking_sound :
    (r : Result RepositoryError (List (List Text)))
    (walk : List (List Text) → Result RepositoryError (List (List Text))) (found : List (List Text))
    → go_on_walking r walk ≡ ok found
    → (files : List (List Text)) × (r ≡ ok files) × (walk files ≡ ok found)
go_on_walking_sound (ok files) walk found h = (files, refl, h)
go_on_walking_sound (err e) walk found h = absurd (err-ne-ok h)

abbrev below_of : List Text → Option FileNode → Option FileNode
below_of path found = elim found [ none ↦ none | some node ↦ at path node ]

at_first :
    (n name : Text) (path : List Text) (first : FileNode) (rest : Listing)
    → n == name ≡ true
    → at (name ∷ path) (folder (listed n first rest)) ≡ at path first
unfolding at lookup
at_first n name path first rest y =
    ap (λ b. below_of path (if b then some first else lookup name rest)) y

at_later :
    (n name : Text) (path : List Text) (first : FileNode) (rest : Listing)
    → n == name ≡ false
    → at (name ∷ path) (folder (listed n first rest)) ≡ at (name ∷ path) (folder rest)
unfolding at lookup
at_later n name path first rest m =
    ap (λ b. below_of path (if b then some first else lookup name rest)) m

pub at_within :
    (name : Text) (path : List Text) (root listing : Listing)
    → entries_within (lookup name root) ≡ ok listing
    → at (name ∷ path) (folder root) ≡ at path (folder listing)
unfolding at
at_within name path root listing h = by_node (lookup name root) h
  where
    by_node :
        (found : Option FileNode)
        → entries_within found ≡ ok listing
        → below_of path found ≡ at path (folder listing)
    by_node none k = absurd (err-ne-ok k)
    by_node (some (folder inner)) k = ap (λ l. at path (folder l)) (ok-injective k)
    by_node (some (file readable bytes)) k = absurd (err-ne-ok k)
    by_node (some symlink) k = absurd (err-ne-ok k)
    by_node (some special) k = absurd (err-ne-ok k)

some-injective : {x y : FileNode} → ◌≡◌ {A = Option FileNode} (some x) (some y) → x ≡ y
some-injective e = cc

only_here :
    (here : List Text) (readable : Bool) (bytes : Bytes) (found : List (List Text))
    → In here found
    → (path : List Text) (below : FileNode) → at path (file readable bytes) ≡ some below
    → Fits found (here ++ path) below
unfolding at
only_here here readable bytes found i [] below e =
    subst (Fits found (here ++ [])) (some-injective e)
      (subst (λ p. In p found) (sym (append-nil here)) i)
only_here here readable bytes found i (name ∷ path) below e = absurd (cc e)

pub here_or_inside :
    (here : List Text) (found : List (List Text)) (listing : Listing)
    → ((name : Text) (path : List Text) (node : FileNode)
        → at (name ∷ path) (folder listing) ≡ some node
        → Fits found (here ++ name ∷ path) node)
    → (path : List Text) (below : FileNode) → at path (folder listing) ≡ some below
    → Fits found (here ++ path) below
unfolding at
here_or_inside here found listing inside [] below e =
    subst (Fits found (here ++ [])) (some-injective e) tt
here_or_inside here found listing inside (name ∷ path) below e = inside name path below e

mutual
  unfolding walk_payload walk_entry at lookup

  pub walk_payload_sound :
      (relative : List Text) (depth : ℕ) (files : List (List Text)) (listing : Listing)
      (found : List (List Text))
      → walk_payload relative depth files listing ≡ ok found
      → Within files found
        × ((name : Text) (path : List Text) (node : FileNode)
            → at (name ∷ path) (folder listing) ≡ some node
            → Fits found (relative ++ name ∷ path) node)
  walk_payload_sound relative depth files unlisted found h = absurd (err-ne-ok h)
  walk_payload_sound relative depth files end found h =
      (subst (Within files) (ok-injective h) (λ p i. i), λ name path node e. absurd (cc e))
  walk_payload_sound relative depth files (listed n first rest) found h =
      let (between, a, b) = go_on_walking_sound _ _ found h in
      let (grown, fits) = walk_entry_sound (relative ++ n ∷ []) depth files first between a in
      let (more, others) = walk_payload_sound relative depth between rest found b in
      (
        λ p i. more p (grown p i),
        λ name path node e. elim (==-cases n name) [
          | inl (q, y) ↦ Fits-map between found (relative ++ name ∷ path) node more (
              subst (λ p. Fits between p node)
                (append_assoc relative (n ∷ []) path ∙ ap (λ m. relative ++ m ∷ path) q)
                (fits path node (sym (at_first n name path first rest y) ∙ e)))
          | inr (_, m) ↦ others name path node (sym (at_later n name path first rest m) ∙ e)
        ],
      )

  walk_entry_sound :
      (here : List Text) (depth : ℕ) (files : List (List Text)) (node : FileNode)
      (found : List (List Text))
      → walk_entry here depth files node ≡ ok found
      → Within files found
        × ((path : List Text) (below : FileNode)
            → at path node ≡ some below
            → Fits found (here ++ path) below)
  walk_entry_sound here depth files (file readable bytes) found h =
      elim (Bool-cases (ltb max_payload_files (length (inserted files here)))) [
        | inl y ↦ absurd (err-ne-ok (rw y at h))
        | inr n ↦
            let (w, i) = inserted_lem files here in
            let e = ok-injective (rw n at h) in
            (subst (Within files) e w, only_here here readable bytes found (subst (In here) e i))
      ]
  walk_entry_sound here depth files (folder listing) found h =
      elim (Bool-cases (ltb max_payload_depth (suc depth))) [
        | inl y ↦ absurd (err-ne-ok (rw y at h))
        | inr n ↦
            let (w, inside) = walk_payload_sound here (suc depth) files listing found (rw n at h) in
            (w, here_or_inside here found listing inside)
      ]
  walk_entry_sound here depth files symlink found h = absurd (err-ne-ok h)
  walk_entry_sound here depth files special found h = absurd (err-ne-ok h)
