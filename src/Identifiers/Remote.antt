-- ===== src/Identifiers/Remote.antt =====
-- Absolute paths on a remote host (crates/guardian-core/src/identifiers.rs), and the test of one
-- path covering another (crates/guardian-core/src/capture_selection.rs, source_layout.rs).
use vds_guardian.Prelude.{
  none, some, ◌≡◌, ap, List, Bool, Result, ◌==◌, Eq, ◌∷◌, if◌then◌else◌, true, ◌||◌, ◌&&◌, ok, ◌↔◌,
  [], leb, err, ==→eq, ◌++◌, list_eq, not, all, nat_eq, false,
}
use vds_guardian.Text.{Text, strip_prefix, starts_with_char, str, len, split}
use vds_guardian.Identifiers.Defs.{
  IdentifierError, is_plain_segment, contains_any, invalid_remote_target_path, invalid_remote_path,
}

-- `value.split('/').skip(1)`
abbrev pub skip_one {ℓ} : {A : Type ℓ} → List A → List A
skip_one [] = []
skip_one (x ∷ xs) = xs

-- Also `valid_absolute_path` of docker.rs.
unfoldable pub valid_absolute_path : Text → Bool
valid_absolute_path value =
    starts_with_char b'/' value
    && leb (len value) 1024
    && not (contains_any (0 ∷ 10 ∷ 13 ∷ b'\\' ∷ []) value)
    && all is_plain_segment (skip_one (split b'/' value))

-- Also `valid_remote_root` of capture.rs and plan.rs.
unfoldable pub valid_remote_root : Text → Bool
unfolding valid_absolute_path
valid_remote_root root = root == str "/" || valid_absolute_path root

pub record RemoteTargetPath : Type 0 where
  pub as_str : Text

unfoldable pub parse_remote_target_path : Text → Result IdentifierError RemoteTargetPath
unfolding valid_absolute_path
parse_remote_target_path value =
    if valid_absolute_path value
    then ok (record { as_str = value })
    else err invalid_remote_target_path

pub record RemotePath : Type 0 where
  pub as_str : Text

pub remote_path_beq_iff : (a b : RemotePath) → (a.as_str == b.as_str ≡ true) ↔ (a ≡ b)
remote_path_beq_iff a b = (
  λ h. ap (λ t. record { as_str = t }) (==→eq a.as_str b.as_str h),
  λ h. (list_eq.beq_iff a.as_str b.as_str).1 (ap (λ i. i.as_str) h),
)

instance abbrev pub remote_path_eq : Eq RemotePath
remote_path_eq = record { beq = λ a b. a.as_str == b.as_str; beq_iff = remote_path_beq_iff }

unfoldable pub parse_remote_path : Text → Result IdentifierError RemotePath
unfolding valid_remote_root
parse_remote_path value =
    if valid_remote_root value then ok (record { as_str = value }) else err invalid_remote_path

unfoldable pub child : RemotePath → Text → Result IdentifierError RemotePath
child self name =
    let separator = if self.as_str == str "/" then [] else str "/" in
    parse_remote_path (self.as_str ++ (separator ++ name))

unfoldable pub covers : RemotePath → RemotePath → Bool
unfolding strip_prefix
covers parent path =
    parent == path || parent.as_str == str "/" || elim (strip_prefix parent.as_str path.as_str) [
      | none ↦ false
      | some tail ↦ starts_with_char b'/' tail
    ]
