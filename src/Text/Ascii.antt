-- ===== src/Text/Ascii.antt =====
-- Texts of ASCII characters and their bytes.
use vds_guardian.Prelude.{
  ℕ, ◌≤◌, ◌<◌, ◌≡◌, refl, ap, Bool, true, [], ◌∷◌, ◌++◌, inl, inr, all, All, length, length-append,
  arith, ltb, Bool-cases, and-eq-true, sym, ◌+◌, append_assoc,
}
use vds_guardian.Text.Defs.{Text, Bytes, encode, bytes, len}

abbrev pub IsAscii : Text → Type 0
IsAscii t = All (λ c. c < 0x80) t

-- A test that only ASCII bytes pass.
abbrev pub AsciiOnly : (ℕ → Bool) → Type 0
AsciiOnly p = (b : ℕ) → p b ≡ true → b < 0x80

abbrev HasHighLead : Bytes → Type 0
HasHighLead [] = ⊥
HasHighLead (b ∷ r) = 0x80 ≤ b

encode-HasHighLead : (c : ℕ) → 0x80 ≤ c → HasHighLead (encode c)
unfolding encode
encode-HasHighLead c h = ground arith

encode_of_lt : (c : ℕ) → c < 0x80 → encode c ≡ c ∷ []
unfolding encode
encode_of_lt c h = ground arith

high_lead_fails :
    (p : ℕ → Bool) (bs r : Bytes) → AsciiOnly p → HasHighLead bs → all p (bs ++ r) ≡ true → ⊥
high_lead_fails p [] r h k e = k
high_lead_fails p (b ∷ bs) r h k e =
    let (x, _) = and-eq-true (p b) (all p (bs ++ r)) e in absurd (omega (arith, h b x))

all-encode :
    (p : ℕ → Bool) (c : ℕ) (r : Bytes) → AsciiOnly p → all p (encode c ++ r) ≡ true → c < 0x80
all-encode p c r h e = elim (Bool-cases (ltb c 0x80)) [
  | inl y ↦ ground arith
  | inr n ↦ absurd (high_lead_fails p (encode c) r h (encode-HasHighLead c (ground arith)) e)
]

pub bytes_of_IsAscii : (t : Text) → IsAscii t → bytes t ≡ t
unfolding bytes
bytes_of_IsAscii [] h = refl
bytes_of_IsAscii (c ∷ t) (a, h) = rw (encode_of_lt c a) (ap (λ r. c ∷ r) (bytes_of_IsAscii t h))

pub len_of_IsAscii : (t : Text) → IsAscii t → len t ≡ length t
unfolding len
len_of_IsAscii t h = rw (bytes_of_IsAscii t h)

-- A text whose bytes all pass such a test is ASCII, and its characters pass.
pub all-bytes_sound :
    (p : ℕ → Bool) (t : Text) → AsciiOnly p → all p (bytes t) ≡ true → IsAscii t × (all p t ≡ true)
unfolding bytes
all-bytes_sound p [] h e = (tt, refl)
all-bytes_sound p (c ∷ t) h e =
    let a : c < 0x80 = all-encode p c (bytes t) h e in
    let e' : all p ((c ∷ []) ++ bytes t) ≡ true = rw (encode_of_lt c a) at e in
    let (x, y) = and-eq-true (p c) (all p (bytes t)) e' in
    let (b, z) = all-bytes_sound p t h y in ((a, b), rw (x, z) refl)

pub all-bytes : (p : ℕ → Bool) (t : Text) → AsciiOnly p → all p t ≡ true → all p (bytes t) ≡ true
all-bytes p t h e = rw (bytes_of_IsAscii t (ascii t e)) e
  where
    ascii : (u : Text) → all p u ≡ true → IsAscii u
    ascii [] e = tt
    ascii (c ∷ u) e = let (x, y) = and-eq-true (p c) (all p u) e in (h c x, ascii u y)

encode-nonempty : (c : ℕ) → 1 ≤ length (encode c)
unfolding encode
encode-nonempty c = ground arith

pub length-le-len : (t : Text) → length t ≤ len t
unfolding len bytes
length-le-len [] = omega arith
length-le-len (c ∷ t) =
    omega (arith, length-append (encode c) (bytes t), encode-nonempty c, length-le-len t)

bytes-append : (s t : Text) → bytes (s ++ t) ≡ bytes s ++ bytes t
unfolding bytes
bytes-append [] t = refl
bytes-append (c ∷ s) t = rw (bytes-append s t) (sym (append_assoc (encode c) (bytes s) (bytes t)))

pub len-append : (s t : Text) → len (s ++ t) ≡ len s + len t
unfolding len
len-append s t = rw (bytes-append s t) (length-append (bytes s) (bytes t))
