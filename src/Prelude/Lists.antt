-- ===== src/Prelude/Lists.antt =====
-- List functions over the native numbers, predicates by recursion, and their laws.
use Prim.Native.Nat.{ℕ, zero, suc, ◌+◌, ◌-◌, ◌≤◌}
use mathlib.Core.Path.{◌≡◌, refl, ap, ap₂, sym, subst}
use mathlib.Core.Logic.{◌≢◌, ◌↔◌, ◌⊎◌, inl, inr}
use mathlib.Core.Bool.{Bool, true, false, ◌&&◌, ◌||◌}
use mathlib.Core.Option.{Option, none, some}
use mathlib.Core.List.{List, [], ◌∷◌, ◌++◌}
use native.Mathlib.Omega.{arith}
use vds_guardian.Prelude.Tests.{
  Eq, ◌==◌, ==-cases, ==→eq, ==-refl, Bool-cases, and-eq-true, if◌then◌else◌,
}

module _ {ℓ} {A : Type ℓ} where
  abbrev pub length : List A → ℕ
  length [] = 0
  length (x ∷ xs) = suc (length xs)

  abbrev pub is_empty : List A → Bool
  is_empty [] = true
  is_empty (x ∷ xs) = false

  abbrev pub all : (A → Bool) → List A → Bool
  all p [] = true
  all p (x ∷ xs) = p x && all p xs

  abbrev pub any : (A → Bool) → List A → Bool
  any p [] = false
  any p (x ∷ xs) = p x || any p xs

  abbrev pub find : (A → Bool) → List A → Option A
  find p [] = none
  find p (x ∷ xs) = if p x then some x else find p xs

  abbrev pub filter : (A → Bool) → List A → List A
  filter p [] = []
  filter p (x ∷ xs) = let rest = filter p xs in if p x then x ∷ rest else rest

  abbrev pub take : ℕ → List A → List A
  take zero xs = []
  take (suc n) [] = []
  take (suc n) (x ∷ xs) = x ∷ take n xs

  abbrev pub drop : ℕ → List A → List A
  drop zero xs = xs
  drop (suc n) [] = []
  drop (suc n) (x ∷ xs) = drop n xs

  pub length-append : (xs ys : List A) → length (xs ++ ys) ≡ length xs + length ys
  length-append [] ys = omega arith
  length-append (x ∷ xs) ys = omega (arith, length-append xs ys)

  pub length-take : (n : ℕ) (xs : List A) → n ≤ length xs → length (take n xs) ≡ n
  length-take zero xs h = refl
  length-take (suc n) [] h = absurd (omega arith)
  length-take (suc n) (x ∷ xs) h = omega (arith, length-take n xs)

  pub length-drop : (n : ℕ) (xs : List A) → length (drop n xs) ≡ length xs - n
  length-drop zero xs = omega arith
  length-drop (suc n) [] = omega arith
  length-drop (suc n) (x ∷ xs) = omega (arith, length-drop n xs)

  pub take-append-drop : (n : ℕ) (xs : List A) → take n xs ++ drop n xs ≡ xs
  take-append-drop zero xs = refl
  take-append-drop (suc n) [] = refl
  take-append-drop (suc n) (x ∷ xs) = ap (λ r. x ∷ r) (take-append-drop n xs)

module _ {ℓ κ} {A : Type ℓ} (P : A → Type κ) where
  abbrev pub All : List A → Type κ
  All [] = Unit
  All (x ∷ xs) = P x × All xs

-- A member with the property, and where it stands.
abbrev pub Any {ℓ} : {A : Type ℓ} → (A → Type 0) → List A → Type 0
Any P [] = ⊥
Any P (x ∷ xs) = P x ⊎ Any P xs

abbrev pub In : {A : Type 0} → A → List A → Type 0
In a xs = Any (λ x. a ≡ x) xs

-- No element stands twice.
abbrev pub IsUnique {ℓ} : {A : Type ℓ} → List A → Type ℓ
IsUnique [] = Unit
IsUnique (x ∷ xs) = All (λ y. x ≢ y) xs × IsUnique xs

module _ {ℓ} {A : Type ℓ} where
  pub all→All : (p : A → Bool) (xs : List A) → all p xs ≡ true → All (λ x. p x ≡ true) xs
  all→All p [] h = tt
  all→All p (x ∷ xs) h = let (a, b) = and-eq-true (p x) (all p xs) h in (a, all→All p xs b)

  pub All→all : (p : A → Bool) (xs : List A) → All (λ x. p x ≡ true) xs → all p xs ≡ true
  All→all p [] h = refl
  All→all p (x ∷ xs) (a, b) = ground (arith, All→all p xs b)

  pub find-none : (p : A → Bool) (xs : List A) → find p xs ≡ none → All (λ x. p x ≡ false) xs
  find-none p [] h = tt
  find-none p (x ∷ xs) h = elim (Bool-cases (p x)) [
    | inl y ↦ absurd (ground arith)
    | inr n ↦ (n, find-none p xs (ground arith))
  ]

module _ {A : Type 0} where
  pub any→Any : (p : A → Bool) (xs : List A) → any p xs ≡ true → Any (λ x. p x ≡ true) xs
  any→Any p [] h = cc
  any→Any p (x ∷ xs) h = elim (Bool-cases (p x)) [
    | inl y ↦ inl y
    | inr n ↦ inr (any→Any p xs (ground arith))
  ]

  pub Any→any : (p : A → Bool) (xs : List A) → Any (λ x. p x ≡ true) xs → any p xs ≡ true
  Any→any p [] h = absurd h
  Any→any p (x ∷ xs) (inl y) = ground arith
  Any→any p (x ∷ xs) (inr r) = ground (arith, Any→any p xs r)

  pub find_sound :
      (p : A → Bool) (xs : List A) (a : A) → find p xs ≡ some a → In a xs × (p a ≡ true)
  find_sound p [] a h = absurd (ground arith)
  find_sound p (x ∷ xs) a h = elim (Bool-cases (p x)) [
    | inl y ↦ let e : a ≡ x = ground arith in (inl e, ground arith)
    | inr n ↦ let (m, q) = find_sound p xs a (ground arith) in (inr m, q)
  ]

module _ {ℓ κ} {A : Type ℓ} (P : A → Type κ) where
  pub All-append : (xs ys : List A) → All P xs → All P ys → All P (xs ++ ys)
  All-append [] ys h k = k
  All-append (x ∷ xs) ys (p, h) k = (p, All-append xs ys h k)

module _ {κ} {A : Type 0} (P : A → Type κ) where
  pub All-at : (xs : List A) {a : A} → All P xs → In a xs → P a
  All-at [] h m = absurd m
  All-at (x ∷ xs) (p, h) (inl e) = subst P (sym e) p
  All-at (x ∷ xs) (p, h) (inr m) = All-at xs h m

  pub All_of_In : (xs : List A) → ((a : A) → In a xs → P a) → All P xs
  All_of_In [] f = tt
  All_of_In (x ∷ xs) f = (f x (inl refl), All_of_In xs (λ a m. f a (inr m)))

module _ {A : Type 0} (P : A → Type 0) where
  pub Any-append_left : (xs ys : List A) → Any P xs → Any P (xs ++ ys)
  Any-append_left [] ys h = absurd h
  Any-append_left (x ∷ xs) ys (inl p) = inl p
  Any-append_left (x ∷ xs) ys (inr h) = inr (Any-append_left xs ys h)

  pub Any-append_right : (xs ys : List A) → Any P ys → Any P (xs ++ ys)
  Any-append_right [] ys h = h
  Any-append_right (x ∷ xs) ys h = inr (Any-append_right xs ys h)

  pub Any-append_elim : (xs ys : List A) → Any P (xs ++ ys) → Any P xs ⊎ Any P ys
  Any-append_elim [] ys h = inr h
  Any-append_elim (x ∷ xs) ys (inl p) = inl (inl p)
  Any-append_elim (x ∷ xs) ys (inr h) = elim (Any-append_elim xs ys h) [
    | inl l ↦ inl (inr l)
    | inr r ↦ inr r
  ]

  pub Any-find : (xs : List A) → Any P xs → (a : A) × In a xs × P a
  Any-find [] h = absurd h
  Any-find (x ∷ xs) (inl p) = (x, inl refl, p)
  Any-find (x ∷ xs) (inr h) = let (a, m, p) = Any-find xs h in (a, inr m, p)

  pub Any-of_In : (xs : List A) {a : A} → In a xs → P a → Any P xs
  Any-of_In [] m p = absurd m
  Any-of_In (x ∷ xs) (inl e) p = inl (subst P e p)
  Any-of_In (x ∷ xs) (inr m) p = inr (Any-of_In xs m p)

module _ {ℓ κ μ} {A : Type ℓ} {P : A → Type κ} {Q : A → Type μ} where
  pub All-map : ((a : A) → P a → Q a) → (xs : List A) → All P xs → All Q xs
  All-map f [] h = tt
  All-map f (x ∷ xs) (p, h) = (f x p, All-map f xs h)

module _ {A : Type 0} {P Q : A → Type 0} where
  pub Any-map : ((a : A) → P a → Q a) → (xs : List A) → Any P xs → Any Q xs
  Any-map f [] h = absurd h
  Any-map f (x ∷ xs) (inl p) = inl (f x p)
  Any-map f (x ∷ xs) (inr h) = inr (Any-map f xs h)

-- Membership tests and sets, as `contains`, `HashSet` and `BTreeSet` decide them.
module _ {ℓ} {A : Type ℓ} ⦃e : Eq A⦄ where
  abbrev pub contains : List A → A → Bool
  contains xs a = any (λ x. a == x) xs

  -- `collect::<BTreeSet<_>>()`, the order aside: each value once.
  unfoldable pub to_set : List A → List A
  to_set [] = []
  to_set (x ∷ xs) = let rest = to_set xs in if contains xs x then rest else x ∷ rest

  pub contains-false→All : (xs : List A) (a : A) → contains xs a ≡ false → All (λ x. a ≢ x) xs
  contains-false→All [] a h = tt
  contains-false→All (x ∷ xs) a h = elim (==-cases a x) [
    | inl (_, y) ↦ absurd (ground arith)
    | inr (n, q) ↦ (n, contains-false→All xs a (ground arith))
  ]

  pub All→contains-false : (xs : List A) (a : A) → All (λ x. a ≢ x) xs → contains xs a ≡ false
  All→contains-false [] a h = refl
  All→contains-false (x ∷ xs) a (n, h) = elim (==-cases a x) [
    | inl (q, y) ↦ absurd (n q)
    | inr (_, q) ↦ ground (arith, All→contains-false xs a h)
  ]

  pub length-to_set-le : (xs : List A) → length (to_set xs) ≤ length xs
  unfolding to_set
  length-to_set-le [] = omega arith
  length-to_set-le (x ∷ xs) = elim (Bool-cases (contains xs x)) [
    | inl y ↦ rw y (omega (arith, length-to_set-le xs))
    | inr n ↦ rw n (omega (arith, length-to_set-le xs))
  ]

  -- A list is as long as its set exactly when it repeats nothing.
  pub to_set-IsUnique : (xs : List A) → (length (to_set xs) ≡ length xs) ↔ IsUnique xs
  unfolding to_set
  to_set-IsUnique [] = (λ h. tt, λ h. refl)
  to_set-IsUnique (x ∷ xs) = elim (Bool-cases (contains xs x)) [
    | inl y ↦ (
      λ h. absurd (omega (arith, length-to_set-le xs, subst_len y h)),
      λ u. absurd (clash y (All→contains-false xs x u.0)),
    )
    | inr n ↦ (
      λ h. (contains-false→All xs x n, (to_set-IsUnique xs).0 (ground arith)),
      λ u. rw n (omega (arith, (to_set-IsUnique xs).1 u.1)),
    )
  ]
    where
      subst_len :
          contains xs x ≡ true
          → length (to_set (x ∷ xs)) ≡ length (x ∷ xs)
          → length (to_set xs) ≡ suc (length xs)
      subst_len y h = ground arith

      clash : contains xs x ≡ true → contains xs x ≡ false → ⊥
      clash a b = cc

-- `Vec<T>: PartialEq`, and that of a text, whose characters are numbers.
module _ {ℓ} {A : Type ℓ} ⦃e : Eq A⦄ where
  unfoldable pub list_beq : List A → List A → Bool
  list_beq [] [] = true
  list_beq [] (y ∷ ys) = false
  list_beq (x ∷ xs) [] = false
  list_beq (x ∷ xs) (y ∷ ys) = x == y && list_beq xs ys

  pub list_beq_refl : (xs : List A) → list_beq xs xs ≡ true
  unfolding list_beq
  list_beq_refl [] = refl
  list_beq_refl (x ∷ xs) = rw (==-refl x) (list_beq_refl xs)

  pub list_beq_sound : (xs ys : List A) → list_beq xs ys ≡ true → xs ≡ ys
  unfolding list_beq
  list_beq_sound [] [] h = refl
  list_beq_sound [] (y ∷ ys) h = cc
  list_beq_sound (x ∷ xs) [] h = cc
  list_beq_sound (x ∷ xs) (y ∷ ys) h =
      let (a, b) = and-eq-true (x == y) (list_beq xs ys) h in
      ap₂ (λ z zs. z ∷ zs) (==→eq x y a) (list_beq_sound xs ys b)

  pub list_beq_complete : (xs ys : List A) → xs ≡ ys → list_beq xs ys ≡ true
  list_beq_complete xs ys p = subst (λ zs. list_beq xs zs ≡ true) p (list_beq_refl xs)

  instance abbrev pub list_eq : Eq (List A)
  list_eq = record {
    beq = list_beq;
    beq_iff = λ xs ys. (list_beq_sound xs ys, list_beq_complete xs ys);
  }
