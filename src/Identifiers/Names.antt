-- ===== src/Identifiers/Names.antt =====
-- What `parse_identifier` accepts (crates/guardian-core/src/identifiers.rs).
use vds_guardian.Identifiers.Segments.{plain_of_ne}
use vds_guardian.Prelude.{
  subst, ℕ, ◌≤◌, ◌≡◌, ◌≢◌, ◌↔◌, ◌⊎◌, inl, inr, refl, true, [], not, ok, length, arith, Bool-cases,
  All, ◌&&◌, ◌∷◌, leb, all, and-eq-true, All→all, All-map, all→All,
}
use vds_guardian.Text.{
  Text, AsciiOnly, is_empty_text, split, len, bytes, all-bytes_sound, split_of_Lacks, length-le-len,
  all-bytes, len_of_IsAscii,
}
use vds_guardian.Identifiers.Defs.{Kind, Identifier, parse, is_identifier_byte, is_plain_segment}

-- An ASCII letter, a digit, '-' or '_'.
abbrev pub IsNameChar : ℕ → Type 0
IsNameChar c =
    ((b'0' ≤ c) × (c ≤ b'9'))
    ⊎ ((b'A' ≤ c) × (c ≤ b'Z'))
    ⊎ ((b'a' ≤ c) × (c ≤ b'z'))
    ⊎ ((c ≡ b'-') ⊎ (c ≡ b'_'))

abbrev pub IsName : Text → Type 0
IsName t = (t ≢ []) × (length t ≤ 64) × All IsNameChar t

pub is_identifier_byte_iff : (c : ℕ) → (is_identifier_byte c ≡ true) ↔ IsNameChar c
is_identifier_byte_iff c = (λ h. ground arith, λ h. ground arith)

is_identifier_byte-AsciiOnly : AsciiOnly is_identifier_byte
is_identifier_byte-AsciiOnly c h = ground arith

valid-IsName_sound :
    (v : Text)
    → (not (is_empty_text v) && leb (len v) 64 && all is_identifier_byte (bytes v)) ≡ true
    → IsName v
valid-IsName_sound [] h = cc
valid-IsName_sound (c ∷ v) h =
    let (x, y) =
      and-eq-true (not (is_empty_text (c ∷ v)) && leb (len (c ∷ v)) 64)
        (all is_identifier_byte (bytes (c ∷ v))) h in
    let (ascii, chars) =
      all-bytes_sound is_identifier_byte (c ∷ v) is_identifier_byte-AsciiOnly y in
    (
      (λ e. cc),
      omega (arith, len_bound x, length-le-len (c ∷ v)),
      All-map (λ a p. (is_identifier_byte_iff a).0 p) (c ∷ v)
          (all→All is_identifier_byte (c ∷ v) chars),
    )
  where
    len_bound : leb (len (c ∷ v)) 64 ≡ true → len (c ∷ v) ≤ 64
    len_bound h = ground arith

valid_name_complete :
    (v : Text)
    → IsName v
    → (not (is_empty_text v) && leb (len v) 64 && all is_identifier_byte (bytes v)) ≡ true
valid_name_complete [] (n, _, _) = absurd (n refl)
valid_name_complete (c ∷ v) (_, l, h) =
    let chars : all is_identifier_byte (c ∷ v) ≡ true =
      All→all is_identifier_byte (c ∷ v)
        (All-map (λ a p. (is_identifier_byte_iff a).1 p) (c ∷ v) h) in
    let bs = all-bytes is_identifier_byte (c ∷ v) is_identifier_byte-AsciiOnly chars in
    let (ascii, _) = all-bytes_sound is_identifier_byte (c ∷ v) is_identifier_byte-AsciiOnly bs in
    let short : leb (len (c ∷ v)) 64 ≡ true = ground (arith, len_of_IsAscii (c ∷ v) ascii) in
    rw (short, bs)

-- An identifier is accepted exactly when it has 1 to 64 characters, each an ASCII letter, a digit,
-- '-' or '_', and it is then kept as it was written.
pub parse_iff :
    (k : Kind) (v : Text) (i : Identifier k) → (parse k v ≡ ok i) ↔ ((i.as_str ≡ v) × IsName v)
unfolding parse
parse_iff k v i = (sound, complete)
  where
    sound : parse k v ≡ ok i → (i.as_str ≡ v) × IsName v
    sound h =
        elim (Bool-cases
          (not (is_empty_text v) && leb (len v) 64 && all is_identifier_byte (bytes v))) [
            | inl y ↦ (ground arith, valid-IsName_sound v y)
            | inr n ↦ absurd (ground arith)
          ]

    complete : (i.as_str ≡ v) × IsName v → parse k v ≡ ok i
    complete (e, h) = rw (valid_name_complete v h, ← e) refl

IsNameChar-not_slash : (c : ℕ) → IsNameChar c → c ≢ b'/'
IsNameChar-not_slash c h = ground arith

not_dot : IsNameChar b'.' → ⊥
not_dot h = omega arith

-- An accepted identifier is one plain path component: it holds no '/', and is not "", "." or "..".
pub parse-is_plain_segment :
    (k : Kind) (v : Text) (i : Identifier k)
    → parse k v ≡ ok i
    → (split b'/' i.as_str ≡ i.as_str ∷ []) × (is_plain_segment i.as_str ≡ true)
parse-is_plain_segment k v i h =
    let (e, name) = (parse_iff k v i).0 h in
    let chars : All IsNameChar i.as_str = rw e name.2 in
    let filled : i.as_str ≢ [] = rw e name.0 in
    (
      split_of_Lacks b'/' i.as_str (All-map (λ c p. IsNameChar-not_slash c p) i.as_str chars),
      plain_of_ne i.as_str filled (not_dots chars) (not_dots chars),
    )
  where
    not_dots : {t : Text} → All IsNameChar i.as_str → i.as_str ≢ b'.' ∷ t
    not_dots chars q = not_dot (subst (All IsNameChar) q chars).0
