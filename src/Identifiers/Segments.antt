-- ===== src/Identifiers/Segments.antt =====
-- The segments of a remote path, and `covers` in terms of them
-- (crates/guardian-core/src/identifiers.rs, capture_selection.rs).
use vds_guardian.Prelude.{
  none, some, ℕ, ◌≡◌, ◌≢◌, ◌↔◌, refl, ap, sym, ◌∙◌, true, false, List, [], ◌∷◌, ◌++◌, ◌⊎◌, inl, inr,
  arith, if◌then◌else◌, nat_beq_iff, append_assoc, ne→==-false, ◌==◌, Bool-cases, nat_beq, nat_eq,
  list_eq, subst, all, ==-cases, list_beq, and-eq-true, some, ◌&&◌, leb, not, Option, append-nil,
}
use vds_guardian.Text.{
  Text, split, join, cons_first, IsNonempty, split-IsNonempty, str, len, strip_prefix,
  starts_with_char, strip_prefix-append, join-split, strip_prefix_sound,
}
use vds_guardian.Identifiers.Defs.{is_plain_segment, contains_any}
use vds_guardian.Identifiers.Remote.{
  RemotePath, valid_absolute_path, valid_remote_root, covers, skip_one, remote_path_eq,
}

pub plain_of_ne : (s : Text) → s ≢ [] → s ≢ str "." → s ≢ str ".." → is_plain_segment s ≡ true
plain_of_ne s a b c = rw (ne→==-false s [] a, ne→==-false s (str ".") b, ne→==-false s (str "..") c)

-- The segments between the slashes; the root has none.
unfoldable pub segments : RemotePath → List Text
segments p = if p.as_str == str "/" then [] else skip_one (split b'/' p.as_str)

abbrev pub IsValidPath : RemotePath → Type 0
IsValidPath p = valid_remote_root p.as_str ≡ true

abbrev pub IsPrefix : List Text → List Text → Type 0
IsPrefix xs ys = (r : List Text) × (ys ≡ xs ++ r)

cons_first-append :
    (c : ℕ) (ss ts : List Text) → IsNonempty ss → cons_first c (ss ++ ts) ≡ cons_first c ss ++ ts
cons_first-append c [] ts h = absurd h
cons_first-append c (s ∷ ss) ts h = refl

pub split_middle : (sep : ℕ) (s t : Text) → split sep (s ++ sep ∷ t) ≡ split sep s ++ split sep t
unfolding split
split_middle sep [] t = rw ((nat_beq_iff sep sep).1 refl)
split_middle sep (c ∷ s) t = elim (Bool-cases (nat_beq c sep)) [
  | inl y ↦ rw (y, split_middle sep s t)
  | inr n ↦
      rw (n, split_middle sep s t)
        (cons_first-append c (split sep s) (split sep t) (split-IsNonempty sep s))
]

join_append :
    (sep : ℕ) (ss ts : List Text)
    → IsNonempty ss
    → IsNonempty ts
    → join sep (ss ++ ts) ≡ join sep ss ++ sep ∷ join sep ts
unfolding join
join_append sep [] ts h k = absurd h
join_append sep (s ∷ []) [] h k = absurd k
join_append sep (s ∷ []) (t ∷ ts) h k = refl
join_append sep (s ∷ s' ∷ ss) ts h k =
    rw (join_append sep (s' ∷ ss) ts tt k)
      (sym (append_assoc s (sep ∷ join sep (s' ∷ ss)) (sep ∷ join sep ts)))

-- How a valid path is written.
abbrev pub Shape : RemotePath → Type 0
Shape p =
    ((p.as_str ≡ str "/") × (segments p ≡ []))
    ⊎ ((u : Text) × (p.as_str ≡ b'/' ∷ u) × (segments p ≡ split b'/' u) × (p.as_str ≢ str "/"))

root_is_not_absolute : valid_absolute_path (str "/") ≡ false
unfolding valid_absolute_path split len list_beq
root_is_not_absolute = refl

pub not_root : (t : Text) → valid_absolute_path t ≡ true → t ≢ str "/"
not_root t h q = absurd_of (subst (λ u. valid_absolute_path u ≡ true) q h)
  where
    absurd_of : valid_absolute_path (str "/") ≡ true → ⊥
    absurd_of k = cc (root_is_not_absolute)

pub split_absolute : (u : Text) → split b'/' (b'/' ∷ u) ≡ [] ∷ split b'/' u
unfolding split
split_absolute u = refl

pub absolute_shape : (t : Text) → valid_absolute_path t ≡ true → (u : Text) × (t ≡ b'/' ∷ u)
unfolding valid_absolute_path
absolute_shape [] h = cc
absolute_shape (c ∷ u) h = let e : c ≡ b'/' = ground arith in (u, ap (λ d. d ∷ u) e)

pub absolute_segments_plain :
    (u : Text) → valid_absolute_path (b'/' ∷ u) ≡ true → all is_plain_segment (split b'/' u) ≡ true
unfolding valid_absolute_path
absolute_segments_plain u h =
    let (_, q) =
      and-eq-true
        (starts_with_char b'/' (b'/' ∷ u)
          && leb (len (b'/' ∷ u)) 1024
          && not (contains_any (0 ∷ 10 ∷ 13 ∷ b'\\' ∷ []) (b'/' ∷ u)))
        (all is_plain_segment (skip_one (split b'/' (b'/' ∷ u)))) h in
    rw (split_absolute u) at q

pub segments_of_root : (p : RemotePath) → p.as_str == str "/" ≡ true → segments p ≡ []
unfolding segments
segments_of_root p y = rw y

pub segments_of_absolute :
    (p : RemotePath) (u : Text)
    → p.as_str ≡ b'/' ∷ u
    → p.as_str == str "/" ≡ false
    → segments p ≡ split b'/' u
unfolding segments
segments_of_absolute p u e n =
    rw n (ap (λ t. skip_one (split b'/' t)) e ∙ ap skip_one (split_absolute u))

pub IsValidPath-absolute :
    (p : RemotePath)
    → IsValidPath p
    → p.as_str == str "/" ≡ false
    → valid_absolute_path p.as_str ≡ true
unfolding valid_remote_root
IsValidPath-absolute p v n = ground arith

pub shape : (p : RemotePath) → IsValidPath p → Shape p
shape p v = elim (==-cases p.as_str (str "/")) [
  | inl (e, y) ↦ inl (e, segments_of_root p y)
  | inr (m, n) ↦
      let (u, e) = absolute_shape p.as_str (IsValidPath-absolute p v n) in
      inr (u, e, segments_of_absolute p u e n, m)
]

pub covers_of_same : (p q : RemotePath) → p.as_str ≡ q.as_str → covers p q ≡ true
unfolding covers
covers_of_same p q e = rw ((remote_path_eq.beq_iff p q).1 (ap (λ t. record { as_str = t }) e))

pub covers_of_root : (p q : RemotePath) → p.as_str ≡ str "/" → covers p q ≡ true
unfolding covers
covers_of_root p q e =
    let y : p.as_str == str "/" ≡ true = (list_eq.beq_iff _ _).1 e in ground arith

pub covers_of_tail :
    (p q : RemotePath) (t : Text) → q.as_str ≡ p.as_str ++ b'/' ∷ t → covers p q ≡ true
unfolding covers
covers_of_tail p q t e =
    let h : strip_prefix p.as_str q.as_str ≡ some (b'/' ∷ t) =
      rw e (strip_prefix-append p.as_str (b'/' ∷ t)) in
    ground arith

pub starts_with_char_sound :
    (c : ℕ) (t : Text) → starts_with_char c t ≡ true → (u : Text) × (t ≡ c ∷ u)
starts_with_char_sound c [] h = cc
starts_with_char_sound c (d ∷ t) h = let e : d ≡ c = ground arith in (t, ap (λ x. x ∷ t) e)

pub covers_cases :
    (p q : RemotePath)
    → covers p q ≡ true
    → (p.as_str ≡ q.as_str)
      ⊎ (p.as_str ≡ str "/")
      ⊎ ((t : Text) × (q.as_str ≡ p.as_str ++ b'/' ∷ t))
unfolding covers
covers_cases p q h = elim (==-cases p.as_str q.as_str) [
  | inl (e, _) ↦ inl e
  | inr (_, n) ↦ elim (==-cases p.as_str (str "/")) [
    | inl (e, _) ↦ inr (inl e)
    | inr (_, m) ↦ inr (inr (by_tail (strip_prefix p.as_str q.as_str) refl (ground arith)))
  ]
]
  where
    by_tail :
        (o : Option Text)
        → strip_prefix p.as_str q.as_str ≡ o
        → (elim o [ none ↦ false | some tail ↦ starts_with_char b'/' tail ]) ≡ true
        → (t : Text) × (q.as_str ≡ p.as_str ++ b'/' ∷ t)
    by_tail none e k = absurd (ground arith)
    by_tail (some r) e k =
        let (t, s) = starts_with_char_sound b'/' r k in
        (t, strip_prefix_sound p.as_str q.as_str r e ∙ ap (λ x. p.as_str ++ x) s)

pub cons_tail : (c : ℕ) (s t : Text) → c ∷ s ≡ c ∷ t → s ≡ t
cons_tail c s t e = ap skip_one e

prefix_text :
    (u w : Text) (r : List Text)
    → split b'/' w ≡ split b'/' u ++ r
    → (w ≡ u) ⊎ ((t : Text) × (w ≡ u ++ b'/' ∷ t))
prefix_text u w [] e =
    inl
      (sym (join-split b'/' w) ∙ ap (join b'/') (e ∙ append-nil (split b'/' u)) ∙ join-split b'/' u)
prefix_text u w (s ∷ r) e = inr (
  join b'/' (s ∷ r),
  sym (join-split b'/' w)
      ∙ ap (join b'/') e
      ∙ join_append b'/' (split b'/' u) (s ∷ r) (split-IsNonempty b'/' u) tt
      ∙ ap (λ x. x ++ b'/' ∷ join b'/' (s ∷ r)) (join-split b'/' u),
)

split_not_nil : (u : Text) (r : List Text) → [] ≡ split b'/' u ++ r → ⊥
split_not_nil u r e = go (split b'/' u) (split-IsNonempty b'/' u) e
  where
    go : (ss : List Text) → IsNonempty ss → [] ≡ ss ++ r → ⊥
    go [] h e = h
    go (s ∷ ss) h e = cc

covers_sound :
    (p q : RemotePath) → Shape p → Shape q → covers p q ≡ true → IsPrefix (segments p) (segments q)
covers_sound p q (inl (_, sp)) _ h = (segments q, rw sp)
covers_sound p q (inr (u, ep, sp, np)) sq h = elim (covers_cases p q h) [
  | inl e ↦
      ([], ap segments (ap (λ t. record { as_str = t }) (sym e)) ∙ sym (append-nil (segments p)))
  | inr (inl e) ↦ absurd (np e)
  | inr (inr (t, e)) ↦ tail_case t e sq
]
  where
    tail_case :
        (t : Text) → q.as_str ≡ p.as_str ++ b'/' ∷ t → Shape q → IsPrefix (segments p) (segments q)
    tail_case t e (inl (eq, _)) = absurd (no_tail u (sym eq ∙ e ∙ ap (λ x. x ++ b'/' ∷ t) ep))
      where
        no_tail : (u : Text) → b'/' ∷ [] ≡ b'/' ∷ (u ++ b'/' ∷ t) → ⊥
        no_tail [] k = cc
        no_tail (c ∷ u) k = cc
    tail_case t e (inr (w, eq, sq, _)) =
        let k : w ≡ u ++ b'/' ∷ t =
          cons_tail b'/' w (u ++ b'/' ∷ t) (sym eq ∙ e ∙ ap (λ x. x ++ b'/' ∷ t) ep) in
        (
          split b'/' t,
          sq ∙ ap (split b'/') k ∙ split_middle b'/' u t ∙ ap (λ x. x ++ split b'/' t) (sym sp),
        )

covers_complete :
    (p q : RemotePath) → Shape p → Shape q → IsPrefix (segments p) (segments q) → covers p q ≡ true
covers_complete p q (inl (ep, _)) _ h = covers_of_root p q ep
covers_complete p q (inr (u, ep, sp, np)) (inl (eq, sq)) (r, e) =
    absurd (split_not_nil u r (sym sq ∙ e ∙ ap (λ x. x ++ r) sp))
covers_complete p q (inr (u, ep, sp, np)) (inr (w, eq, sq, nq)) (r, e) =
    elim (prefix_text u w r (sym sq ∙ e ∙ ap (λ x. x ++ r) sp)) [
      | inl same ↦ covers_of_same p q (ep ∙ ap (λ x. b'/' ∷ x) (sym same) ∙ sym eq)
      | inr (t, k) ↦
          covers_of_tail p q t (eq ∙ ap (λ x. b'/' ∷ x) k ∙ ap (λ x. x ++ b'/' ∷ t) (sym ep))
    ]

-- Between valid paths, one covers another exactly when its segments are the first segments of the
-- other's.
pub covers_iff :
    (p q : RemotePath)
    → IsValidPath p
    → IsValidPath q
    → (covers p q ≡ true) ↔ IsPrefix (segments p) (segments q)
covers_iff p q vp vq =
    (covers_sound p q (shape p vp) (shape q vq), covers_complete p q (shape p vp) (shape q vq))
