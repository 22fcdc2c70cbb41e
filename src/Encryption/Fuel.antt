-- ===== src/Encryption/Fuel.antt =====
-- The loop of decryption and its fuel (crates/guardian-encryption/src/lib.rs).
use vds_guardian.Prelude.{
  ℕ, zero, suc, ◌+◌, ◌≤◌, ◌<◌, ◌≡◌, refl, ap, Bool, true, false, length, arith, Result, ok, err,
  ok_or, ensure, >>=-eq-ok, >>-eq-ok, ok-injective, length-append, ◌>>=◌, leb, subst,
}
use vds_guardian.Text.{Bytes}
use vds_guardian.Encryption.Defs.{
  EncryptionError, Cipher, Writer, Source, failed, io, next_index, first_byte, read_exact,
  from_be_bytes, read_frame, decrypt_frame, frame_opened, decrypt_frames, decrypt_frames_to,
}
use vds_guardian.Encryption.Words.{read_exact_sound}
use vds_guardian.Encryption.Frames.{ok_or-eq-ok}

read_exact-shorter :
    (n : ℕ) (s s' : Source) (p : Bytes)
    → ok_or (read_exact n s) failed ≡ ok (p, s')
    → length s.left ≡ n + length s'.left
read_exact-shorter n s s' p h =
    let (q, l) = read_exact_sound n s s' p (ok_or-eq-ok _ _ h) in
    omega (arith, ap (λ (t : Source). length t.left) q, length-append p s'.left)

-- A frame that is read leaves fewer bytes.
pub read_frame-shorter :
    (s s' : Source) (x : Bool × Bytes) → read_frame s ≡ ok (x, s') → length s'.left < length s.left
unfolding read_frame
read_frame-shorter s s' x h =
    let ((p1, s1), e1, k1) = >>=-eq-ok (ok_or (read_exact 1 s) failed) _ h in
    let (g1, k2) = >>-eq-ok (ensure (leb (first_byte p1) 1) failed) _ k1 in
    let ((p2, s2), e2, k3) = >>=-eq-ok (ok_or (read_exact 4 s1) failed) _ k2 in
    let (g2, k4) = >>-eq-ok (ensure _ failed) _ k3 in
    let ((p3, s3), e3, k5) = >>=-eq-ok (ok_or (read_exact (from_be_bytes p2) s2) failed) _ k4 in
    let a = read_exact-shorter 1 s s1 p1 e1 in
    let b = read_exact-shorter 4 s1 s2 p2 e2 in
    let c = read_exact-shorter (from_be_bytes p2) s2 s3 p3 e3 in
    subst (λ (t : (Bool × Bytes) × Source). length t.1.left < length s.left) (ok-injective k5)
      (shrinks (length s.left) (length s1.left) (length s2.left) (length s3.left) (from_be_bytes p2)
        a b c)
  where
    shrinks : (n n1 n2 n3 k : ℕ) → n ≡ 1 + n1 → n1 ≡ 4 + n2 → n2 ≡ k + n3 → n3 < n
    shrinks n n1 n2 n3 k a b c = omega arith

>>=-cong {ℓ κ} :
    {E : Type 0} {A : Type ℓ} {B : Type κ} (m : Result E A) (f g : A → Result E B)
    → ((a : A) → m ≡ ok a → f a ≡ g a)
    → (m >>= f) ≡ (m >>= g)
>>=-cong (ok a) f g h = h a refl
>>=-cong (err e) f g h = refl

module _ (cipher : Cipher) {W : Type 0} (writer : Writer W) (nonce associated_data : Bytes) where
  frame_opened-cong :
      (f : Bool) (plain : Bytes) (s : Source) (index : ℕ) (w : W)
      (g k : ℕ → W → Result EncryptionError W)
      → ((i : ℕ) (u : W) → g i u ≡ k i u)
      → frame_opened cipher writer f plain s index w g
        ≡ frame_opened cipher writer f plain s index w k
  unfolding frame_opened
  frame_opened-cong false plain s index w g k h =
      >>=-cong (ok_or (writer.write_all w plain) io) _ _
        (λ u _. >>=-cong (next_index index) _ _ (λ i _. h i u))
  frame_opened-cong true plain s index w g k h = refl

  pub decrypt_frames-more_fuel :
      (fuel more index : ℕ) (s : Source) (w : W)
      → length s.left < fuel
      → fuel ≤ more
      → decrypt_frames cipher writer fuel nonce index s w associated_data
        ≡ decrypt_frames cipher writer more nonce index s w associated_data
  unfolding decrypt_frames
  decrypt_frames-more_fuel zero more index s w h k = absurd (omega arith)
  decrypt_frames-more_fuel (suc fuel) zero index s w h k = absurd (omega arith)
  decrypt_frames-more_fuel (suc fuel) (suc more) index s w h k =
      >>=-cong (read_frame s) _ _ (λ (x, s') e.
        >>=-cong (decrypt_frame cipher nonce index x.0 x.1 associated_data) _ _ (λ plain _.
          frame_opened-cong x.0 plain s' index w _ _ (λ i u.
            decrypt_frames-more_fuel fuel more i s' u
              (below (length s'.left) (length s.left) fuel (read_frame-shorter s s' x e) h)
              (omega arith))))
    where
      below : (a b n : ℕ) → a < b → b < suc n → a < n
      below a b n p q = omega arith

  -- The loop ends by itself on every input: with the fuel that it is given, one more than there are
  -- bytes, it answers what it answers with any larger fuel.
  pub decrypt_frames_to-ends :
      (s : Source) (w : W) (fuel : ℕ)
      → length s.left < fuel
      → decrypt_frames_to cipher writer nonce s w associated_data
        ≡ decrypt_frames cipher writer fuel nonce 0 s w associated_data
  unfolding decrypt_frames_to
  decrypt_frames_to-ends s w fuel h =
      decrypt_frames-more_fuel (suc (length s.left)) fuel 0 s w (omega arith) (omega arith)
