-- ===== src/Selection/Roots/Sorting.antt =====
-- `sort_by` in `normalize_roots` (crates/guardian-core/src/capture_selection.rs).
use vds_guardian.Prelude.{
  ◌≡◌, ◌≤◌, [], ◌∷◌, inl, inr, List, true, false, All, Bool-cases, Any, In, All-map, All-at,
  All_of_In, arith,
}
use native.Mathlib.Nat.{le_trans}
use vds_guardian.Text.{len}
use vds_guardian.Identifiers.{RemotePath}
use vds_guardian.Selection.Defs.{path_le, insert_path, sort_paths}

-- Every path is at most as long as those behind it.
abbrev pub IsSorted : List RemotePath → Type 0
IsSorted [] = Unit
IsSorted (p ∷ ps) = All (λ q. len p.as_str ≤ len q.as_str) ps × IsSorted ps

path_le-len : (p q : RemotePath) → path_le p q ≡ true → len p.as_str ≤ len q.as_str
unfolding path_le
path_le-len p q h = ground arith

path_le-false-len : (p q : RemotePath) → path_le p q ≡ false → len q.as_str ≤ len p.as_str
unfolding path_le
path_le-false-len p q h = ground arith

insert_path-All :
    (P : RemotePath → Type 0) (p : RemotePath) (qs : List RemotePath)
    → P p
    → All P qs
    → All P (insert_path p qs)
unfolding insert_path
insert_path-All P p [] h k = (h, tt)
insert_path-All P p (q ∷ qs) h (k, ks) = elim (Bool-cases (path_le p q)) [
  | inl y ↦ rw y (h, (k, ks))
  | inr n ↦ rw n (k, insert_path-All P p qs h ks)
]

insert_path-IsSorted :
    (p : RemotePath) (qs : List RemotePath) → IsSorted qs → IsSorted (insert_path p qs)
unfolding insert_path
insert_path-IsSorted p [] h = (tt, tt)
insert_path-IsSorted p (q ∷ qs) (a, s) = elim (Bool-cases (path_le p q)) [
  | inl y ↦ rw y ((path_le-len p q y, All-map (λ r l. le_trans (path_le-len p q y) l) qs a), (a, s))
  | inr n ↦ rw n (
    insert_path-All (λ r. len q.as_str ≤ len r.as_str) p qs (path_le-false-len p q n) a,
    insert_path-IsSorted p qs s,
  )
]

pub sort_paths-IsSorted : (ps : List RemotePath) → IsSorted (sort_paths ps)
unfolding sort_paths
sort_paths-IsSorted [] = tt
sort_paths-IsSorted (p ∷ ps) = insert_path-IsSorted p (sort_paths ps) (sort_paths-IsSorted ps)

pub sort_paths-All :
    (P : RemotePath → Type 0) (ps : List RemotePath) → All P ps → All P (sort_paths ps)
unfolding sort_paths
sort_paths-All P [] h = tt
sort_paths-All P (p ∷ ps) (h, k) = insert_path-All P p (sort_paths ps) h (sort_paths-All P ps k)

insert_path-Any_self :
    (P : RemotePath → Type 0) (p : RemotePath) (qs : List RemotePath)
    → P p
    → Any P (insert_path p qs)
unfolding insert_path
insert_path-Any_self P p [] h = inl h
insert_path-Any_self P p (q ∷ qs) h = elim (Bool-cases (path_le p q)) [
  | inl y ↦ rw y (inl h)
  | inr n ↦ rw n (inr (insert_path-Any_self P p qs h))
]

insert_path-Any :
    (P : RemotePath → Type 0) (p : RemotePath) (qs : List RemotePath)
    → Any P qs
    → Any P (insert_path p qs)
unfolding insert_path
insert_path-Any P p [] h = absurd h
insert_path-Any P p (q ∷ qs) h = elim (Bool-cases (path_le p q)) [
  | inl y ↦ rw y (inr h)
  | inr n ↦ rw n (elim h [ inl k ↦ inl k | inr k ↦ inr (insert_path-Any P p qs k) ])
]

pub sort_paths-Any :
    (P : RemotePath → Type 0) (ps : List RemotePath) → Any P ps → Any P (sort_paths ps)
unfolding sort_paths
sort_paths-Any P [] h = absurd h
sort_paths-Any P (p ∷ ps) (inl h) = insert_path-Any_self P p (sort_paths ps) h
sort_paths-Any P (p ∷ ps) (inr h) = insert_path-Any P p (sort_paths ps) (sort_paths-Any P ps h)

pub In-sort_paths : (p : RemotePath) (ps : List RemotePath) → In p (sort_paths ps) → In p ps
In-sort_paths p ps m =
    All-at (λ q. In q ps) (sort_paths ps)
      (sort_paths-All (λ q. In q ps) ps (All_of_In (λ q. In q ps) ps (λ a k. k))) m
