-- ===== src/Encryption/Reading.antt =====
-- Reading one frame and the header (crates/guardian-encryption/src/lib.rs).
use vds_guardian.Prelude.{
  ℕ, zero, suc, ◌+◌, ◌≤◌, ◌≡◌, refl, ap, sym, ◌∙◌, Bool, true, false, [], ◌∷◌, ◌++◌, length, arith,
  leb, ok, ok_or, ensure, >>=-eq-ok, >>-eq-ok, append_assoc, ensure-eq-ok, ◌==◌, nat_eq, list_eq,
  ◌&&◌, and-eq-true, ==→eq, ok-injective, take, drop, subst, list_beq_refl,
}
use vds_guardian.Text.{Bytes}
use vds_guardian.Encryption.Defs.{
  Source, chunk_bytes, tag_bytes, flag, failed, unsupported_version, to_be_bytes, from_be_bytes,
  read_exact, read_frame, first_byte, read_header, header_bytes, magic, EnvelopeHeader,
  envelope_version, nonce_bytes,
}
use vds_guardian.Encryption.Words.{
  AreBytes, length-to_be_bytes, source, read_exact-append, read_exact_sound,
  from_be_bytes-to_be_bytes, to_be_bytes-from_be_bytes,
}
use vds_guardian.Encryption.Frames.{ok_or-eq-ok, frame_bytes}

pub AreBytes-split : (p r : Bytes) → AreBytes (p ++ r) → AreBytes p × AreBytes r
AreBytes-split [] r h = (tt, h)
AreBytes-split (x ∷ p) r (hx, h) = let (a, b) = AreBytes-split p r h in ((hx, a), b)

flag_of :
    (p : Bytes) → length p ≡ 1 → leb (first_byte p) 1 ≡ true → p ≡ flag (first_byte p == 1) ∷ []
flag_of [] h k = absurd (omega arith)
flag_of (zero ∷ []) h k = refl
flag_of (suc zero ∷ []) h k = refl
flag_of (suc (suc n) ∷ []) h k = absurd (ground arith)
flag_of (a ∷ b ∷ p) h k = absurd (omega arith)

flag_small : (f : Bool) → leb (flag f) 1 ≡ true
flag_small true = refl
flag_small false = refl

flag_is : (f : Bool) → flag f == 1 ≡ f
flag_is true = refl
flag_is false = refl

size_fits :
    (n : ℕ)
    → tag_bytes ≤ n
    → n ≤ chunk_bytes + tag_bytes
    → leb tag_bytes n && leb n (chunk_bytes + tag_bytes) ≡ true
size_fits n lo hi = ground arith

-- A frame in front of the rest is read, and leaves the rest.
pub read_frame-frame_bytes :
    (f : Bool) (c r : Bytes) (b : Bool)
    → tag_bytes ≤ length c
    → length c ≤ chunk_bytes + tag_bytes
    → read_frame (source (frame_bytes f c ++ r) b) ≡ ok ((f, c), source r b)
unfolding read_frame
read_frame-frame_bytes f c r b lo hi = rw (
  read_exact-append 1 (flag f ∷ []) ((to_be_bytes (length c) ++ c) ++ r) b refl,
  append_assoc (to_be_bytes (length c)) c r,
  read_exact-append 4 (to_be_bytes (length c)) (c ++ r) b (length-to_be_bytes (length c)),
  from_be_bytes-to_be_bytes (length c) (omega arith),
  flag_small f,
  size_fits (length c) lo hi,
  read_exact-append (length c) c r b refl,
  flag_is f,
)

three_parts :
    (s s1 s2 s3 : Source) (p1 p2 p3 : Bytes) (f : Bool)
    → s ≡ source (p1 ++ s1.left) s1.breaks
    → s1 ≡ source (p2 ++ s2.left) s2.breaks
    → s2 ≡ source (p3 ++ s3.left) s3.breaks
    → p1 ≡ flag f ∷ []
    → p2 ≡ to_be_bytes (length p3)
    → s ≡ source (frame_bytes f p3 ++ s3.left) s3.breaks
three_parts s s1 s2 s3 p1 p2 p3 f q1 q2 q3 a b =
    q1
    ∙ ap (λ t. source (p1 ++ t.left) t.breaks) (q2 ∙ ap (λ t. source (p2 ++ t.left) t.breaks) q3)
    ∙ ap (λ l. source l s3.breaks) (joined a b)
  where
    joined :
        p1 ≡ flag f ∷ []
        → p2 ≡ to_be_bytes (length p3)
        → p1 ++ (p2 ++ (p3 ++ s3.left)) ≡ frame_bytes f p3 ++ s3.left
    joined a b =
        rw (a, b) (ap (λ t. flag f ∷ t) (sym (append_assoc (to_be_bytes (length p3)) p3 s3.left)))

in_bounds :
    (n : ℕ) (p : Bytes)
    → length p ≡ n
    → leb tag_bytes n && leb n (chunk_bytes + tag_bytes) ≡ true
    → length p ≤ chunk_bytes + tag_bytes
in_bounds n p e h = ground arith

-- What is read from bytes is a frame that stood in front.
pub read_frame_sound :
    (s s' : Source) (f : Bool) (c : Bytes)
    → AreBytes s.left
    → read_frame s ≡ ok ((f, c), s')
    → (s ≡ source (frame_bytes f c ++ s'.left) s'.breaks) × (length c ≤ chunk_bytes + tag_bytes)
unfolding read_frame
read_frame_sound s s' f c bytes h =
    let ((p1, s1), e1, k1) = >>=-eq-ok (ok_or (read_exact 1 s) failed) _ h in
    let (g1, k2) = >>-eq-ok (ensure (leb (first_byte p1) 1) failed) _ k1 in
    let ((p2, s2), e2, k3) = >>=-eq-ok (ok_or (read_exact 4 s1) failed) _ k2 in
    let (g2, k4) = >>-eq-ok (ensure _ failed) _ k3 in
    let ((p3, s3), e3, k5) = >>=-eq-ok (ok_or (read_exact (from_be_bytes p2) s2) failed) _ k4 in
    let (q1, n1) = read_exact_sound 1 s s1 p1 (ok_or-eq-ok _ _ e1) in
    let (q2, n2) = read_exact_sound 4 s1 s2 p2 (ok_or-eq-ok _ _ e2) in
    let (q3, n3) = read_exact_sound (from_be_bytes p2) s2 s3 p3 (ok_or-eq-ok _ _ e3) in
    let all1 : AreBytes (p1 ++ s1.left) = subst (λ t. AreBytes t.left) q1 bytes in
    let all2 : AreBytes (p2 ++ s2.left) =
      subst (λ t. AreBytes t.left) q2 (AreBytes-split p1 s1.left all1).1 in
    let prefix = to_be_bytes-from_be_bytes p2 n2 (AreBytes-split p2 s2.left all2).0 in
    let made = ok-injective k5 in
    let size : length p3 ≡ from_be_bytes p2 = n3 in
    let at =
      three_parts s s1 s2 s3 p1 p2 p3 _ q1 q2 q3 (flag_of p1 n1 (ensure-eq-ok _ _ g1))
        (sym prefix ∙ ap to_be_bytes (sym size)) in
    (
      subst
          (λ (t : (Bool × Bytes) × Source).
            s ≡ source (frame_bytes t.0.0 t.0.1 ++ t.1.left) t.1.breaks)
          made at,
      subst (λ (t : (Bool × Bytes) × Source). length t.0.1 ≤ chunk_bytes + tag_bytes) made
          (in_bounds (from_be_bytes p2) p3 size (ensure-eq-ok _ _ g2)),
    )

-- How the header stands in the envelope.
abbrev pub envelope : Bytes → Bytes → Bytes
envelope nonce frames = magic ++ envelope_version ∷ (nonce ++ frames)

nine_append :
    (nonce : Bytes) (r : Bytes) → envelope nonce r ≡ (magic ++ envelope_version ∷ nonce) ++ r
nine_append nonce r = refl

pub read_header-envelope :
    (nonce r : Bytes) (b : Bool)
    → length nonce ≡ nonce_bytes
    → read_header (source (envelope nonce r) b)
      ≡ ok (record { version = envelope_version; nonce = nonce }, source r b)
unfolding read_header
read_header-envelope nonce r b h = rw (
  read_exact-append header_bytes (magic ++ envelope_version ∷ nonce) r b (long nonce h),
  list_beq_refl magic,
)
  where
    long :
        (nonce : Bytes)
        → length nonce ≡ nonce_bytes
        → length (magic ++ envelope_version ∷ nonce) ≡ header_bytes
    long nonce h = omega arith

split_header :
    (p : Bytes)
    → length p ≡ header_bytes
    → take 8 p ≡ magic
    → first_byte (drop 8 p) ≡ envelope_version
    → (p ≡ magic ++ envelope_version ∷ drop 9 p) × (length (drop 9 p) ≡ nonce_bytes)
split_header (a ∷ b ∷ c ∷ d ∷ e ∷ f ∷ g ∷ h ∷ i ∷ p) n m v = (cc, omega arith)
split_header _ n m v = absurd (omega arith)

pub read_header_sound :
    (s s' : Source) (header : EnvelopeHeader)
    → read_header s ≡ ok (header, s')
    → (s ≡ source (envelope header.nonce s'.left) s'.breaks) × (length header.nonce ≡ nonce_bytes)
unfolding read_header
read_header_sound s s' header h =
    let ((p, s1), e, k1) = >>=-eq-ok (ok_or (read_exact header_bytes s) failed) _ h in
    let (g, k2) =
      >>-eq-ok
        (ensure (take 8 p == magic && first_byte (drop 8 p) == envelope_version)
          unsupported_version)
        _ k1 in
    let (m, v) =
      and-eq-true (take 8 p == magic) (first_byte (drop 8 p) == envelope_version)
        (ensure-eq-ok _ _ g) in
    let (q, n) = read_exact_sound header_bytes s s1 p (ok_or-eq-ok _ _ e) in
    let (whole, long) =
      split_header p n (==→eq (take 8 p) magic m)
        (==→eq (first_byte (drop 8 p)) envelope_version v) in
    subst
      (λ (t : EnvelopeHeader × Source).
        (s ≡ source (envelope t.0.nonce t.1.left) t.1.breaks) × (length t.0.nonce ≡ nonce_bytes))
      (ok-injective k2) (q ∙ ap (λ l. source (l ++ s1.left) s1.breaks) whole, long)
