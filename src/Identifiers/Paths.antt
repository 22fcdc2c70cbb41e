-- ===== src/Identifiers/Paths.antt =====
-- `covers` on remote paths, and what `child` returns
-- (crates/guardian-core/src/identifiers.rs, capture_selection.rs).
use vds_guardian.Prelude.{
  ℕ, ◌+◌, ◌≤◌, ◌<◌, ◌≡◌, ◌≢◌, refl, ap, sym, ◌∙◌, true, false, [], ◌∷◌, ◌++◌, inl, inr, arith,
  append_assoc, ==-cases, ok, ◌==◌, Bool-cases, nat_eq, list_eq,
}
use vds_guardian.Text.{Text, split, len, str, len-append, length-le-len}
use vds_guardian.Identifiers.Remote.{
  RemotePath, valid_remote_root, covers, parse_remote_path, child,
}
use vds_guardian.Identifiers.Segments.{
  covers_iff, IsValidPath, segments, covers_cases, covers_of_same, shape, cons_tail,
  segments_of_root, split_middle, covers_of_root, covers_of_tail,
}
use vds_guardian.Identifiers.{remote_path_eq}

path_eq : (p q : RemotePath) → p.as_str ≡ q.as_str → p ≡ q
path_eq p q e = ap (λ t. record { as_str = t }) e

pub covers_refl : (p : RemotePath) → covers p p ≡ true
covers_refl p = covers_of_same p p refl

-- Covering is transitive on valid paths.
pub covers_trans :
    (p q r : RemotePath)
    → IsValidPath p
    → IsValidPath q
    → IsValidPath r
    → covers p q ≡ true
    → covers q r ≡ true
    → covers p r ≡ true
covers_trans p q r vp vq vr h k =
    let (s, e) = (covers_iff p q vp vq).0 h in
    let (t, f) = (covers_iff q r vq vr).0 k in
    (covers_iff p r vp vr).1 (s ++ t, f ∙ ap (λ x. x ++ t) e ∙ append_assoc (segments p) s t)

root_len : len (str "/") ≡ 1
unfolding len
root_len = refl

len-cons : (c : ℕ) (t : Text) → len t + 1 ≤ len (c ∷ t)
len-cons c t = omega (arith, len-append (c ∷ []) t, length-le-len (c ∷ []))

longer_than_root : (p : RemotePath) → IsValidPath p → p.as_str ≢ str "/" → 2 ≤ len p.as_str
longer_than_root p v n = elim (shape p v) [
  | inl (e, _) ↦ absurd (n e)
  | inr (u, e, _, _) ↦ rw e (two u e)
]
  where
    two : (u : Text) → p.as_str ≡ b'/' ∷ u → 2 ≤ len (b'/' ∷ u)
    two [] e = absurd (n e)
    two (c ∷ u) e = omega (arith, len-cons b'/' (c ∷ u), len-cons c u)

-- A path is shorter, in bytes, than every other valid path that it covers.
pub covers-len :
    (p q : RemotePath) → IsValidPath q → p ≢ q → covers p q ≡ true → len p.as_str < len q.as_str
covers-len p q v n h = elim (covers_cases p q h) [
  | inl e ↦ absurd (n (path_eq p q e))
  | inr (inl e) ↦
      rw e (omega (arith, root_len, longer_than_root q v (λ k. n (path_eq p q (e ∙ sym k)))))
  | inr (inr (t, e)) ↦ rw e (omega (arith, len-append p.as_str (b'/' ∷ t), len-cons b'/' t))
]

-- Of two different valid paths only one can cover the other.
pub covers_antisym :
    (p q : RemotePath)
    → IsValidPath p
    → IsValidPath q
    → covers p q ≡ true
    → covers q p ≡ true
    → p ≡ q
covers_antisym p q vp vq h k = elim (==-cases p q) [
  | inl (e, _) ↦ e
  | inr (n, _) ↦ absurd (omega (arith, covers-len p q vq n h, covers-len q p vp (λ e. n (sym e)) k))
]

parse_remote_path_sound :
    (t : Text) (p : RemotePath)
    → parse_remote_path t ≡ ok p
    → (p.as_str ≡ t) × (valid_remote_root t ≡ true)
unfolding parse_remote_path
parse_remote_path_sound t p h = elim (Bool-cases (valid_remote_root t)) [
  | inl y ↦ (ground arith, y)
  | inr n ↦ absurd (ground arith)
]

child-as_str :
    (p : RemotePath) (name : Text)
    → p.as_str == str "/" ≡ false
    → child p name ≡ parse_remote_path (p.as_str ++ b'/' ∷ name)
unfolding child
child-as_str p name n = rw n

child-root :
    (p : RemotePath) (name : Text)
    → p.as_str ≡ str "/"
    → child p name ≡ parse_remote_path (b'/' ∷ name)
unfolding child
child-root p name e =
    rw ((list_eq.beq_iff p.as_str (str "/")).1 e) (ap (λ x. parse_remote_path (x ++ name)) e)

-- The segments of a valid path that is written as another valid path, a slash and a rest.
segments-append :
    (p c : RemotePath) (t : Text)
    → IsValidPath p
    → IsValidPath c
    → p.as_str ≢ str "/"
    → c.as_str ≡ p.as_str ++ b'/' ∷ t
    → segments c ≡ segments p ++ split b'/' t
segments-append p c t vp vc np e = elim (shape p vp) [
  | inl (q, _) ↦ absurd (np q)
  | inr (u, ep, sp, _) ↦ elim (shape c vc) [
    | inl (ec, _) ↦ absurd (
        omega (
          arith,
          longer_than_root p vp np,
          len-append p.as_str (b'/' ∷ t),
          root_len,
          ap len (sym ec ∙ e),
        ))
    | inr (w, ec, sc, _) ↦
        let k : w ≡ u ++ b'/' ∷ t =
          cons_tail b'/' w (u ++ b'/' ∷ t) (sym ec ∙ e ∙ ap (λ x. x ++ b'/' ∷ t) ep) in
        sc ∙ ap (split b'/') k ∙ split_middle b'/' u t ∙ ap (λ x. x ++ split b'/' t) (sym sp)
  ]
]

root_child_segments :
    (c : RemotePath) (name : Text)
    → IsValidPath c
    → name ≢ []
    → c.as_str ≡ b'/' ∷ name
    → segments c ≡ split b'/' name
root_child_segments c name vc n e = elim (shape c vc) [
  | inl (ec, _) ↦ absurd (n (cons_tail b'/' name [] (sym e ∙ ec)))
  | inr (w, ec, sc, _) ↦ sc ∙ ap (split b'/') (cons_tail b'/' w name (sym ec ∙ e))
]

-- What `child` returns for a name that is not empty: a valid path whose segments are the parent's
-- and those of the name, so that the parent covers it.
pub child_lem :
    (p c : RemotePath) (name : Text)
    → IsValidPath p
    → name ≢ []
    → child p name ≡ ok c
    → IsValidPath c × (segments c ≡ segments p ++ split b'/' name) × (covers p c ≡ true)
child_lem p c name vp n h = elim (==-cases p.as_str (str "/")) [
  | inl (e, y) ↦
      let (q, v) = parse_remote_path_sound (b'/' ∷ name) c (sym (child-root p name e) ∙ h) in
      let vc : IsValidPath c = rw q v in
      let s = root_child_segments c name vc n q in
      (vc, s ∙ ap (λ x. x ++ split b'/' name) (sym (segments_of_root p y)), covers_of_root p c e)
  | inr (np, m) ↦
      let (q, v) =
        parse_remote_path_sound (p.as_str ++ b'/' ∷ name) c (sym (child-as_str p name m) ∙ h) in
      let vc : IsValidPath c = rw q v in
      (vc, segments-append p c name vp vc np q, covers_of_tail p c name q)
]
