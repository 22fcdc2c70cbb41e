-- ===== src/Text/Prefix.antt =====
-- `strip_prefix` and prefixes.
use vds_guardian.Prelude.{
  ◌≡◌, refl, ap₂, sym, ◌↔◌, true, false, Option, none, some, [], ◌∷◌, ◌++◌, arith, nat_beq,
  nat_beq_iff, Bool-cases, inl, inr,
}
use vds_guardian.Text.Defs.{Text, strip_prefix, starts_with}

pub strip_prefix-append : (p t : Text) → strip_prefix p (p ++ t) ≡ some t
unfolding strip_prefix
strip_prefix-append [] t = refl
strip_prefix-append (c ∷ p) t = rw ((nat_beq_iff c c).1 refl) (strip_prefix-append p t)

pub strip_prefix_sound : (p u t : Text) → strip_prefix p u ≡ some t → u ≡ p ++ t
unfolding strip_prefix
strip_prefix_sound [] u t h = ground arith
strip_prefix_sound (c ∷ p) [] t h = cc
strip_prefix_sound (c ∷ p) (d ∷ u) t h = elim (Bool-cases (nat_beq c d)) [
  | inl y ↦
      ap₂ (λ z zs. z ∷ zs) (sym ((nat_beq_iff c d).0 y)) (strip_prefix_sound p u t (ground arith))
  | inr n ↦ absurd (ground arith)
]

-- `starts_with` tells whether the text is the prefix and a rest.
pub starts_with_iff : (p u : Text) → (starts_with p u ≡ true) ↔ ((t : Text) × (u ≡ p ++ t))
unfolding starts_with
starts_with_iff p u = (sound (strip_prefix p u) refl, λ (t, e). complete t e)
  where
    sound :
        (o : Option Text)
        → strip_prefix p u ≡ o
        → (elim (strip_prefix p u) [ none ↦ false | some _ ↦ true ]) ≡ true
        → (t : Text) × (u ≡ p ++ t)
    sound none e h = absurd (ground arith)
    sound (some t) e h = (t, strip_prefix_sound p u t e)

    complete :
        (t : Text) → u ≡ p ++ t → (elim (strip_prefix p u) [ none ↦ false | some _ ↦ true ]) ≡ true
    complete t e = rw (e, strip_prefix-append p t)
