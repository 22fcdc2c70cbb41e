-- ===== src/Text/Split.antt =====
-- `split` and `join`.
use vds_guardian.Prelude.{
  ℕ, ◌≡◌, ◌≢◌, refl, ap, ◌∙◌, List, [], ◌∷◌, ◌++◌, nat_beq, nat_beq_iff, Bool-cases, All, ==-cases,
  nat_eq, ne→==-false, inl, inr,
}
use vds_guardian.Text.Defs.{Text, split, join, cons_first}

-- A text without the character.
abbrev pub Lacks : ℕ → Text → Type 0
Lacks sep t = All (λ c. c ≢ sep) t

abbrev pub IsNonempty : List Text → Type 0
IsNonempty [] = ⊥
IsNonempty (s ∷ ss) = Unit

pub split-IsNonempty : (sep : ℕ) (t : Text) → IsNonempty (split sep t)
unfolding split
split-IsNonempty sep [] = tt
split-IsNonempty sep (c ∷ t) = elim (Bool-cases (nat_beq c sep)) [
  | inl y ↦ rw y tt
  | inr n ↦ rw n (first (split sep t))
]
  where
    first : (ss : List Text) → IsNonempty (cons_first c ss)
    first [] = tt
    first (s ∷ ss) = tt

join-cons :
    (sep : ℕ) (s : Text) (ss : List Text)
    → IsNonempty ss
    → join sep (s ∷ ss) ≡ s ++ sep ∷ join sep ss
unfolding join
join-cons sep s [] h = absurd h
join-cons sep s (t ∷ ss) h = refl

join-cons_first :
    (sep c : ℕ) (ss : List Text) → IsNonempty ss → join sep (cons_first c ss) ≡ c ∷ join sep ss
unfolding join
join-cons_first sep c [] h = absurd h
join-cons_first sep c (s ∷ []) h = refl
join-cons_first sep c (s ∷ t ∷ ss) h = refl

-- Joining what `split` gives is the text.
pub join-split : (sep : ℕ) (t : Text) → join sep (split sep t) ≡ t
unfolding split
join-split sep [] = unfold join in refl
join-split sep (c ∷ t) = elim (Bool-cases (nat_beq c sep)) [
  | inl y ↦ rw (
    y,
    join-cons sep [] (split sep t) (split-IsNonempty sep t),
    join-split sep t,
    (nat_beq_iff c sep).0 y,
  )
  | inr n ↦ rw (n, join-cons_first sep c (split sep t) (split-IsNonempty sep t), join-split sep t)
]

-- No segment holds the separator.
pub split-Lacks : (sep : ℕ) (t : Text) → All (Lacks sep) (split sep t)
unfolding split
split-Lacks sep [] = (tt, tt)
split-Lacks sep (c ∷ t) = elim (==-cases c sep) [
  | inl (e, y) ↦ rw y (tt, split-Lacks sep t)
  | inr (m, n) ↦ rw n (first m (split sep t) (split-Lacks sep t))
]
  where
    first : c ≢ sep → (ss : List Text) → All (Lacks sep) ss → All (Lacks sep) (cons_first c ss)
    first m [] h = ((m, tt), tt)
    first m (s ∷ ss) (h, k) = ((m, h), k)

-- A text without the separator is one segment.
pub split_of_Lacks : (sep : ℕ) (t : Text) → Lacks sep t → split sep t ≡ t ∷ []
unfolding split
split_of_Lacks sep [] h = refl
split_of_Lacks sep (c ∷ t) (m, h) = rw (ne→==-false c sep m, split_of_Lacks sep t h)

-- A separator between two texts separates their segments.
pub split-append : (sep : ℕ) (s t : Text) → Lacks sep s → split sep (s ++ sep ∷ t) ≡ s ∷ split sep t
unfolding split
split-append sep [] t h = rw ((nat_beq_iff sep sep).1 refl)
split-append sep (c ∷ s) t (m, h) = rw (ne→==-false c sep m, split-append sep s t h)

-- Splitting what `join` made gives the segments back, if there are any and none holds the separator.
pub split-join :
    (sep : ℕ) (s : Text) (ss : List Text)
    → All (Lacks sep) (s ∷ ss)
    → split sep (join sep (s ∷ ss)) ≡ s ∷ ss
unfolding join
split-join sep s [] (h, _) = split_of_Lacks sep s h
split-join sep s (t ∷ ss) (h, k) =
    split-append sep s (join sep (t ∷ ss)) h ∙ ap (λ r. s ∷ r) (split-join sep t ss k)
