-- ===== src/Encryption/Words.antt =====
-- The numbers of a frame (crates/guardian-encryption/src/lib.rs): lengths and indices as four bytes,
-- nonces and associated data, and reads of an exact length.
use vds_guardian.Prelude.{
  ℕ, zero, suc, ◌≤◌, ◌<◌, ◌≡◌, refl, ap, sym, ◌∙◌, Bool, true, false, some, [], ◌∷◌, ◌++◌, All,
  length, take, drop, arith, leb, Bool-cases, inl, inr, take-append-drop, length-take,
  length-append,
}
use vds_guardian.Text.{Bytes}
use vds_guardian.Encryption.Defs.{
  u32_end, to_be_bytes, from_be_bytes, flag, chunk_nonce, frame_aad, Source, read_exact,
}

-- The values of a byte.
abbrev pub AreBytes : Bytes → Type 0
AreBytes bs = All (λ b. b < 0x100) bs

pub from_be_bytes-to_be_bytes : (n : ℕ) → n < u32_end → from_be_bytes (to_be_bytes n) ≡ n
unfolding from_be_bytes to_be_bytes
from_be_bytes-to_be_bytes n h = omega arith

pub to_be_bytes-from_be_bytes :
    (bs : Bytes) → length bs ≡ 4 → AreBytes bs → to_be_bytes (from_be_bytes bs) ≡ bs
unfolding from_be_bytes to_be_bytes
to_be_bytes-from_be_bytes (a ∷ b ∷ c ∷ d ∷ []) h (ha, (hb, (hc, (hd, _)))) = ground arith
to_be_bytes-from_be_bytes _ h k = absurd (omega arith)

pub length-to_be_bytes : (n : ℕ) → length (to_be_bytes n) ≡ 4
unfolding to_be_bytes
length-to_be_bytes n = refl

pub to_be_bytes-injective :
    (i j : ℕ) → i < u32_end → j < u32_end → to_be_bytes i ≡ to_be_bytes j → i ≡ j
to_be_bytes-injective i j hi hj e =
    sym (from_be_bytes-to_be_bytes i hi) ∙ ap from_be_bytes e ∙ from_be_bytes-to_be_bytes j hj

append-cancel_left : (p a b : Bytes) → p ++ a ≡ p ++ b → a ≡ b
append-cancel_left [] a b e = e
append-cancel_left (x ∷ p) a b e = append-cancel_left p a b (cc)

pub take-append : (n : ℕ) (p r : Bytes) → length p ≡ n → take n (p ++ r) ≡ p
take-append zero [] r h = refl
take-append zero (x ∷ p) r h = absurd (omega arith)
take-append (suc n) [] r h = absurd (omega arith)
take-append (suc n) (x ∷ p) r h = ap (λ q. x ∷ q) (take-append n p r (omega arith))

pub drop-append : (n : ℕ) (p r : Bytes) → length p ≡ n → drop n (p ++ r) ≡ r
drop-append zero [] r h = refl
drop-append zero (x ∷ p) r h = absurd (omega arith)
drop-append (suc n) [] r h = absurd (omega arith)
drop-append (suc n) (x ∷ p) r h = drop-append n p r (omega arith)

-- The parts of two appended lists whose tails are equally long.
append-split : (a b x y : Bytes) → length x ≡ length y → a ++ x ≡ b ++ y → (a ≡ b) × (x ≡ y)
append-split [] [] x y h e = (refl, e)
append-split [] (b ∷ bs) x y h e = absurd (omega (arith, ap length e, length-append bs y))
append-split (c ∷ cs) [] x y h e = absurd (omega (arith, ap length e, length-append cs x))
append-split (c ∷ cs) (b ∷ bs) x y h e = let (p, q) = append-split cs bs x y h (cc) in (cc, q)

-- Two frames of an envelope have different nonces, as an index fits its four bytes; and the associated
-- data of a frame tells the payload's, the index and whether it is the last.
pub frame_context-injective :
    (base : Bytes) (i j : ℕ) (a b : Bytes) (f g : Bool)
    → i < u32_end
    → j < u32_end
    → (chunk_nonce base i ≡ chunk_nonce base j → i ≡ j)
      × (frame_aad a i f ≡ frame_aad b j g → (a ≡ b) × (i ≡ j) × (f ≡ g))
unfolding chunk_nonce frame_aad
frame_context-injective base i j a b f g hi hj = (
  λ e.
      to_be_bytes-injective i j hi hj
        (append-cancel_left (take 8 base) (to_be_bytes i) (to_be_bytes j) e),
  λ e.
      let (p, q) =
        append-split a b (to_be_bytes i ++ flag f ∷ []) (to_be_bytes j ++ flag g ∷ [])
          (tails i j f g) e in
      let (r, s) =
        append-split (to_be_bytes i) (to_be_bytes j) (flag f ∷ []) (flag g ∷ []) refl q in
      (p, to_be_bytes-injective i j hi hj r, same f g s),
)
  where
    tails :
        (i j : ℕ) (f g : Bool)
        → length (to_be_bytes i ++ flag f ∷ []) ≡ length (to_be_bytes j ++ flag g ∷ [])
    tails i j f g = omega (
      arith,
      length-append (to_be_bytes i) (flag f ∷ []),
      length-append (to_be_bytes j) (flag g ∷ []),
      length-to_be_bytes i,
      length-to_be_bytes j,
    )

    same : (f g : Bool) → flag f ∷ [] ≡ flag g ∷ [] → f ≡ g
    same true true e = refl
    same false false e = refl
    same true false e = absurd (ground arith)
    same false true e = absurd (ground arith)

abbrev pub source : Bytes → Bool → Source
source left breaks = record { left = left; breaks = breaks }

pub read_exact-append :
    (n : ℕ) (p r : Bytes) (b : Bool)
    → length p ≡ n
    → read_exact n (source (p ++ r) b) ≡ some (p, source r b)
unfolding read_exact
read_exact-append n p r b h =
    ground (arith, take-append n p r h, drop-append n p r h, length-append p r)

pub read_exact_sound :
    (n : ℕ) (s s' : Source) (p : Bytes)
    → read_exact n s ≡ some (p, s')
    → (s ≡ source (p ++ s'.left) s'.breaks) × (length p ≡ n)
unfolding read_exact
read_exact_sound n s s' p h = elim (Bool-cases (leb n (length s.left))) [
  | inl y ↦ ground (arith, take-append-drop n s.left, length-take n s.left (enough y))
  | inr y ↦ absurd (ground arith)
]
  where
    enough : leb n (length s.left) ≡ true → n ≤ length s.left
    enough y = ground arith
