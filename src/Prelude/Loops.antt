-- ===== src/Prelude/Loops.antt =====
-- Loops over lists that stop at the first failure, and loops that insert into a set.
use mathlib.Core.Path.{◌≡◌, refl, sym}
use mathlib.Core.Logic.{◌≢◌, ◌↔◌, inl, inr}
use mathlib.Core.Bool.{Bool, true, false}
use mathlib.Core.Option.{Option, none, some}
use mathlib.Core.List.{List, [], ◌∷◌}
use native.Mathlib.Omega.{arith}
use vds_guardian.Prelude.Tests.{Eq, ==-cases, Bool-cases, if◌then◌else◌, nat_eq}
use vds_guardian.Prelude.Lists.{All, IsUnique, contains}
use vds_guardian.Prelude.Results.{Result, ok, err, ◌>>◌, >>-eq-ok}

-- `Option::is_some_and` and `Option::is_none_or`
abbrev pub is_some_and {ℓ} : {A : Type ℓ} → (A → Bool) → Option A → Bool
is_some_and p none = false
is_some_and p (some a) = p a

abbrev pub is_none_or {ℓ} : {A : Type ℓ} → (A → Bool) → Option A → Bool
is_none_or p none = true
is_none_or p (some a) = p a

abbrev pub is_some {ℓ} : {A : Type ℓ} → Option A → Bool
is_some none = false
is_some (some a) = true

abbrev pub filter_map {ℓ κ} : {A : Type ℓ} {B : Type κ} → (A → Option B) → List A → List B
filter_map f [] = []
filter_map f (x ∷ xs) = let rest = filter_map f xs in elim (f x) [ none ↦ rest | some y ↦ y ∷ rest ]

module _ {ℓ κ} {A : Type ℓ} {E : Type κ} where
  -- `iter().try_for_each(f)`, and a `for` loop with `?`
  unfoldable pub try_for_each : (A → Result E (Unit {0})) → List A → Result E (Unit {0})
  try_for_each f [] = ok tt
  try_for_each f (x ∷ xs) = f x >> try_for_each f xs

  pub try_for_each_iff :
      (f : A → Result E (Unit {0})) (xs : List A)
      → (try_for_each f xs ≡ ok tt) ↔ All (λ x. f x ≡ ok tt) xs
  unfolding try_for_each
  try_for_each_iff f [] = (λ h. tt, λ h. refl)
  try_for_each_iff f (x ∷ xs) = (
    λ h. let (a, b) = >>-eq-ok (f x) (try_for_each f xs) h in (a, (try_for_each_iff f xs).0 b),
    λ (a, b). rw a ((try_for_each_iff f xs).1 b),
  )

module _ {ℓ} {A : Type ℓ} ⦃e : Eq A⦄ where
  contains-cons-false :
      (x y : A) (seen : List A)
      → (contains (x ∷ seen) y ≡ false) ↔ ((x ≢ y) × (contains seen y ≡ false))
  contains-cons-false x y seen = elim (==-cases y x) [
    | inl (p, t) ↦ (λ h. absurd (ground arith), λ (n, _). absurd (n (sym p)))
    | inr (n, f) ↦ (λ h. (λ q. n (sym q), ground arith), λ (_, g). ground arith)
  ]

  split_fresh :
      (x : A) (seen ys : List A)
      → All (λ y. contains (x ∷ seen) y ≡ false) ys
        ↔ (All (λ y. x ≢ y) ys × All (λ y. contains seen y ≡ false) ys)
  split_fresh x seen [] = (λ h. (tt, tt), λ h. tt)
  split_fresh x seen (y ∷ ys) = (
    λ (h, k).
        let (n, g) = (contains-cons-false x y seen).0 h in
        let (ns, gs) = (split_fresh x seen ys).0 k in ((n, ns), (g, gs)),
    λ ((n, ns), (g, gs)).
        ((contains-cons-false x y seen).1 (n, g), (split_fresh x seen ys).1 (ns, gs)),
  )

module _ {ℓ κ} {A : Type ℓ} {E : Type κ} ⦃e : Eq A⦄ where
  -- `for x in xs { if !set.insert(x) { return Err(error) } }`
  unfoldable pub insert_all : E → List A → List A → Result E (Unit {0})
  insert_all error seen [] = ok tt
  insert_all error seen (x ∷ xs) =
      if contains seen x then err error else insert_all error (x ∷ seen) xs

  insert_all-from :
      (error : E) (seen xs : List A)
      → (insert_all error seen xs ≡ ok tt) ↔ (IsUnique xs × All (λ x. contains seen x ≡ false) xs)
  unfolding insert_all
  insert_all-from error seen [] = (λ h. (tt, tt), λ h. refl)
  insert_all-from error seen (x ∷ xs) = elim (Bool-cases (contains seen x)) [
    | inl y ↦ (λ h. absurd (ground arith), λ (_, (f, _)). absurd (ground arith))
    | inr n ↦ (
      λ h.
          let (u, k) = (insert_all-from error (x ∷ seen) xs).0 (ground arith) in
          let (ns, gs) = (split_fresh x seen xs).0 k in ((ns, u), (n, gs)),
      λ ((ns, u), (_, gs)).
          rw n ((insert_all-from error (x ∷ seen) xs).1 (u, (split_fresh x seen xs).1 (ns, gs))),
    )
  ]

  -- The loop succeeds exactly when nothing is repeated.
  pub insert_all_iff : (error : E) (xs : List A) → (insert_all error [] xs ≡ ok tt) ↔ IsUnique xs
  insert_all_iff error xs = (
    λ h. ((insert_all-from error [] xs).0 h).0,
    λ u. (insert_all-from error [] xs).1 (u, none_seen xs),
  )
    where
      none_seen : (ys : List A) → All (λ y. contains [] y ≡ false) ys
      none_seen [] = tt
      none_seen (y ∷ ys) = (refl, none_seen ys)
