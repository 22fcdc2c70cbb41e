-- ===== src/Identifiers/Defs.antt =====
-- Identifiers, relative paths and timestamps (crates/guardian-core/src/identifiers.rs).
use vds_guardian.Prelude.{
  ℕ, ◌+◌, ◌-◌, ◌*◌, ◌%◌, ◌≡◌, ap, ◌==◌, Eq, Bool, Result, Option, if◌then◌else◌, List, true, not,
  any, all, ok, leb, some, ◌&&◌, drop, ◌∷◌, length, false, ◌↔◌, ◌||◌, [], err, take, ==→eq, none,
  list_eq, nat_eq, ◌>>=◌,
}
use vds_guardian.Text.{
  Text, Bytes, str, is_alphanumeric, bytes, is_empty_text, is_one_of, split, is_digit, len,
  starts_with_char,
}

pub data IdentifierError : Type 0 where
  invalid : Text → IdentifierError
  invalid_payload_path : IdentifierError
  invalid_archive_path : IdentifierError
  invalid_remote_target_path : IdentifierError
  invalid_remote_path : IdentifierError
  invalid_timestamp : IdentifierError

-- The types that the macro `identifier!` declares, and the label of each.
pub data Kind : Type 0 where
  backup run profile plan repository credential database : Kind

abbrev pub label : Kind → Text
label backup = str "backup"
label run = str "run"
label profile = str "profile"
label plan = str "plan"
label repository = str "repository"
label credential = str "credential"
label database = str "database"

pub record Identifier (k : Kind) : Type 0 where
  pub as_str : Text

abbrev pub BackupId : Type 0
BackupId = Identifier backup

abbrev pub RunId : Type 0
RunId = Identifier run

abbrev pub ProfileId : Type 0
ProfileId = Identifier profile

abbrev pub PlanId : Type 0
PlanId = Identifier plan

abbrev pub RepositoryId : Type 0
RepositoryId = Identifier repository

abbrev pub CredentialId : Type 0
CredentialId = Identifier credential

abbrev pub DatabaseId : Type 0
DatabaseId = Identifier database

-- Derived equality of the wrapped texts.
pub identifier_beq_iff : {k : Kind} (a b : Identifier k) → (a.as_str == b.as_str ≡ true) ↔ (a ≡ b)
identifier_beq_iff a b = (
  λ h. ap (λ t. record { as_str = t }) (==→eq a.as_str b.as_str h),
  λ h. (list_eq.beq_iff a.as_str b.as_str).1 (ap (λ i. i.as_str) h),
)

instance abbrev pub identifier_eq : {k : Kind} → Eq (Identifier k)
identifier_eq = record { beq = λ a b. a.as_str == b.as_str; beq_iff = identifier_beq_iff }

abbrev pub is_identifier_byte : ℕ → Bool
is_identifier_byte b = is_alphanumeric b || is_one_of (str "-_") b

unfoldable pub parse_identifier : Text → Text → Result IdentifierError Text
parse_identifier value kind =
    let valid =
      not (is_empty_text value) && leb (len value) 64 && all is_identifier_byte (bytes value) in
    if valid then ok value else err (invalid kind)

unfoldable pub parse : (k : Kind) → Text → Result IdentifierError (Identifier k)
unfolding parse_identifier
parse k value = do text ← parse_identifier value (label k); ok (record { as_str = text })

-- `!matches!(segment, "" | "." | "..")`
abbrev pub is_plain_segment : Text → Bool
is_plain_segment s = not (s == []) && not (s == str ".") && not (s == str "..")

-- `value.contains([...])`
abbrev pub contains_any : Text → Text → Bool
contains_any cs t = any (is_one_of cs) t

unfoldable pub safe_relative_path : ℕ → Text → Bool
safe_relative_path maximum value =
    let segments_valid = all is_plain_segment (split b'/' value) in
    let syntax_valid =
      not (starts_with_char b'/' value)
      && not (contains_any (b'\\' ∷ b':' ∷ 0 ∷ []) value)
      && leb (len value) maximum in
    segments_valid && syntax_valid

pub record PayloadPath : Type 0 where
  pub as_str : Text

pub payload_path_beq_iff : (a b : PayloadPath) → (a.as_str == b.as_str ≡ true) ↔ (a ≡ b)
payload_path_beq_iff a b = (
  λ h. ap (λ t. record { as_str = t }) (==→eq a.as_str b.as_str h),
  λ h. (list_eq.beq_iff a.as_str b.as_str).1 (ap (λ i. i.as_str) h),
)

instance abbrev pub payload_path_eq : Eq PayloadPath
payload_path_eq = record { beq = λ a b. a.as_str == b.as_str; beq_iff = payload_path_beq_iff }

pub record ArchivePath : Type 0 where
  pub as_str : Text

unfoldable pub parse_payload_path : Text → Result IdentifierError PayloadPath
unfolding safe_relative_path
parse_payload_path value =
    if safe_relative_path 240 value
    then ok (record { as_str = value })
    else err invalid_payload_path

unfoldable pub parse_archive_path : Text → Result IdentifierError ArchivePath
unfolding safe_relative_path
parse_archive_path value =
    if safe_relative_path 1024 value
    then ok (record { as_str = value })
    else err invalid_archive_path

pub record Timestamp : Type 0 where
  pub as_str : Text

-- `bytes.get(start..start + length)`
abbrev pub slice : Bytes → ℕ → ℕ → Option Bytes
slice bs start count =
    if leb (start + count) (length bs) then some (take count (drop start bs)) else none

-- the `try_fold` of `digits`
unfoldable pub fold_digits : ℕ → Bytes → Option ℕ
fold_digits value [] = some value
fold_digits value (b ∷ bs) =
    let rest = fold_digits (value * 10 + (b - b'0')) bs in if is_digit b then rest else none

unfoldable pub digits : Bytes → ℕ → ℕ → Option ℕ
unfolding fold_digits
digits bs start count = elim (slice bs start count) [ none ↦ none | some part ↦ fold_digits 0 part ]

unfoldable pub days_in_month : ℕ → ℕ → ℕ
days_in_month year month =
    if month == 2 && (year % 400 == 0 || year % 4 == 0 && not (year % 100 == 0))
    then 29
    else if month == 2
    then 28
    else if is_one_of (4 ∷ 6 ∷ 9 ∷ 11 ∷ []) month
    then 30
    else 31

-- `bytes[index] == expected`, for an index in range
abbrev pub byte_is : Bytes → ℕ → ℕ → Bool
byte_is bs index expected = elim (drop index bs) [ [] ↦ false | b ∷ rest ↦ b == expected ]

-- `bytes.iter().enumerate().all(...)`
unfoldable pub digits_but : ℕ → List ℕ → Bytes → Bool
digits_but index marks [] = true
digits_but index marks (b ∷ bs) =
    (is_one_of marks index || is_digit b) && digits_but (index + 1) marks bs

abbrev pub marks : List ℕ
marks = 4 ∷ 7 ∷ 10 ∷ 13 ∷ 16 ∷ 19 ∷ []

unfoldable pub marks_at : Bytes → Bool
marks_at bs =
    byte_is bs 4 b'-'
    && byte_is bs 7 b'-'
    && byte_is bs 10 b'T'
    && byte_is bs 13 b':'
    && byte_is bs 16 b':'
    && byte_is bs 19 b'Z'

unfoldable pub has_timestamp_shape : Bytes → Bool
has_timestamp_shape bs = length bs == 20 && marks_at bs && digits_but 0 marks bs

unfoldable pub in_calendar : ℕ → ℕ → ℕ → ℕ → ℕ → ℕ → Bool
unfolding days_in_month
in_calendar y m d h min sec =
    leb 1970 y
    && (leb 1 m && leb m 12)
    && leb 1 d
    && leb d (days_in_month y m)
    && leb h 23
    && leb min 59
    && leb sec 59

infixl 5 ◌>>?◌
abbrev pub ◌>>?◌ : Option ℕ → (ℕ → Bool) → Bool
none >>? f = false
some n >>? f = f n

unfoldable pub is_utc_timestamp : Text → Bool
unfolding has_timestamp_shape marks_at digits_but in_calendar digits
is_utc_timestamp value =
    let bs = bytes value in
    let in_range = digits bs 0 4 >>? λ y. digits bs 5 2 >>? λ m. digits bs 8 2 >>? λ d.
    digits bs 11 2 >>? λ h.
    digits bs 14 2 >>? λ min. digits bs 17 2 >>? λ sec. in_calendar y m d h min sec in
    if has_timestamp_shape bs then in_range else false

unfoldable pub parse_timestamp : Text → Result IdentifierError Timestamp
unfolding is_utc_timestamp
parse_timestamp value =
    if is_utc_timestamp value then ok (record { as_str = value }) else err invalid_timestamp
