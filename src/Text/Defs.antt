-- ===== src/Text/Defs.antt =====
-- Operations of `str` that the validators use.
use Prim.Native.Char.{code}
use vds_guardian.Prelude.{
  ℕ, zero, suc, ◌+◌, ◌/◌, ◌%◌, String, Bool, true, false, ◌&&◌, ◌||◌, Option, none, some, List, [],
  ◌∷◌, ◌++◌, ltb, leb, nat_beq, ◌==◌, nat_eq, list_eq, list_beq, length, any, if◌then◌else◌,
}

-- The code points of a text.
abbrev pub Text : Type 0
Text = List ℕ

abbrev pub Bytes : Type 0
Bytes = List ℕ

-- A literal of the source.
abbrev pub str : String → Text
str String.[] = []
str (String.◌∷◌ c s) = code c ∷ str s

-- UTF-8.
unfoldable pub encode : ℕ → Bytes
encode c =
    if ltb c 0x80
    then c ∷ []
    else if ltb c 0x800
    then (0xC0 + c / 0x40) ∷ (0x80 + c % 0x40) ∷ []
    else if ltb c 0x10000
    then (0xE0 + c / 0x1000) ∷ (0x80 + c / 0x40 % 0x40) ∷ (0x80 + c % 0x40) ∷ []
    else (0xF0 + c / 0x40000)
      ∷ (0x80 + c / 0x1000 % 0x40)
      ∷ (0x80 + c / 0x40 % 0x40)
      ∷ (0x80 + c % 0x40)
      ∷ []

-- `value.bytes()`, `value.as_bytes()`
unfoldable pub bytes : Text → Bytes
unfolding encode
bytes [] = []
bytes (c ∷ t) = encode c ++ bytes t

-- `value.len()`, in bytes
unfoldable pub len : Text → ℕ
unfolding bytes
len t = length (bytes t)

abbrev pub is_empty_text : Text → Bool
is_empty_text [] = true
is_empty_text (c ∷ t) = false

-- `value.starts_with(c)` and `value.ends_with(c)` for a character
abbrev pub starts_with_char : ℕ → Text → Bool
starts_with_char c [] = false
starts_with_char c (d ∷ t) = nat_beq c d

abbrev pub ends_with_char : ℕ → Text → Bool
ends_with_char c [] = false
ends_with_char c (d ∷ []) = nat_beq c d
ends_with_char c (d ∷ e ∷ t) = ends_with_char c (e ∷ t)

-- `value.strip_prefix(prefix)`
unfoldable pub strip_prefix : Text → Text → Option Text
strip_prefix [] t = some t
strip_prefix (c ∷ p) [] = none
strip_prefix (c ∷ p) (d ∷ t) = if nat_beq c d then strip_prefix p t else none

-- `value.starts_with(prefix)`
unfoldable pub starts_with : Text → Text → Bool
unfolding strip_prefix
starts_with p t = elim (strip_prefix p t) [ none ↦ false | some _ ↦ true ]

-- `value.ends_with(suffix)` and `value.contains(part)`
unfoldable pub ends_with : Text → Text → Bool
unfolding list_beq
ends_with p [] = p == []
ends_with p (c ∷ t) = p == (c ∷ t) || ends_with p t

unfoldable pub contains_text : Text → Text → Bool
unfolding starts_with
contains_text p [] = starts_with p []
contains_text p (c ∷ t) = starts_with p (c ∷ t) || contains_text p t

-- The segment that is being read is put in front of the rest's first segment.
abbrev pub cons_first : ℕ → List Text → List Text
cons_first c [] = (c ∷ []) ∷ []
cons_first c (s ∷ ss) = (c ∷ s) ∷ ss

-- `value.split(sep)`: never empty.
unfoldable pub split : ℕ → Text → List Text
split sep [] = [] ∷ []
split sep (c ∷ t) = let rest = split sep t in if nat_beq c sep then [] ∷ rest else cons_first c rest

-- The inverse of `split`.
unfoldable pub join : ℕ → List Text → Text
join sep [] = []
join sep (s ∷ []) = s
join sep (s ∷ t ∷ ss) = s ++ sep ∷ join sep (t ∷ ss)

abbrev pub is_digit : ℕ → Bool
is_digit b = leb b'0' b && leb b b'9'

-- `is_ascii_alphanumeric`
abbrev pub is_alphanumeric : ℕ → Bool
is_alphanumeric b = is_digit b || leb b'A' b && leb b b'Z' || leb b'a' b && leb b b'z'

abbrev pub is_lower_hex : ℕ → Bool
is_lower_hex b = is_digit b || leb b'a' b && leb b b'f'

-- `is_ascii_hexdigit`
abbrev pub is_hex : ℕ → Bool
is_hex b = is_lower_hex b || leb b'A' b && leb b b'F'

-- `char::is_control`: the category Cc.
abbrev pub is_control : ℕ → Bool
is_control c = leb c 0x1F || leb 0x7F c && leb c 0x9F

abbrev pub is_one_of : Text → ℕ → Bool
is_one_of cs c = any (nat_beq c) cs

-- `u64` and `usize` in a format string: decimal digits, the last one first while they are made.
decimal_from : ℕ → ℕ → Text → Text
decimal_from zero n out = out
decimal_from (suc fuel) n out =
    let out' = (b'0' + n % 10) ∷ out in
    let more = decimal_from fuel (n / 10) out' in if ltb n 10 then out' else more

unfoldable pub decimal : ℕ → Text
unfolding decimal_from
decimal n = decimal_from (suc n) n []
