-- ===== src/Encryption/Accepted.antt =====
-- What decryption accepts (crates/guardian-encryption/src/lib.rs).
use vds_guardian.Prelude.{
  ℕ, zero, suc, ◌+◌, ◌≤◌, ◌<◌, ◌≡◌, refl, ap, sym, ◌∙◌, Bool, true, false, some, List, [], ◌∷◌,
  ◌++◌, length, arith, ltb, Bool-cases, inl, inr, Result, ok, ok_or, ensure, >>=-eq-ok, >>-eq-ok,
  append_assoc, append-nil, nat_eq, list_eq, length-append, subst, is_empty,
}
use vds_guardian.Text.{Bytes}
use vds_guardian.Encryption.Defs.{
  EncryptionError, Cipher, IsAead, Writer, Source, chunk_bytes, tag_bytes, u32_end, failed, io,
  ends, next_index, read_frame, decrypt_frame, frame_opened, decrypt_frames, chunk_nonce, frame_aad,
}
use vds_guardian.Encryption.Words.{AreBytes, source}
use vds_guardian.Encryption.Frames.{
  ok_or-eq-ok, next_index-eq-ok, frame_bytes, concat, sealed_at, AreFrames,
}
use vds_guardian.Encryption.Reading.{AreBytes-split, read_frame_sound, read_frame-frame_bytes}

ends-eq-ok : (s : Source) → ends s ≡ ok tt → s ≡ source [] false
unfolding ends
ends-eq-ok s h = elim (Bool-cases (is_empty s.left)) [
  | inl y ↦ elim (Bool-cases s.breaks) [
    | inl b ↦ absurd (ground arith)
    | inr b ↦ ground (arith, none_left s.left y)
  ]
  | inr n ↦ absurd (ground arith)
]
  where
    none_left : (l : Bytes) → is_empty l ≡ true → l ≡ []
    none_left [] y = refl
    none_left (x ∷ l) y = cc

empty_plain : (l : Bytes) → ensure (is_empty l) failed ≡ ok tt → l ≡ []
empty_plain [] h = refl
empty_plain (x ∷ l) h = cc

-- A writer that takes what it is given.
abbrev pub Takes : {W : Type 0} → Writer W → Type 0
Takes {W} writer =
    ((w : W) (bs : Bytes) → (v : W) × (writer.write_all w bs ≡ some v))
    × ((w : W) → (v : W) × (writer.flush w ≡ some v))

module _ (cipher : Cipher) (aead : IsAead cipher) (nonce associated_data : Bytes) where
  decrypt_frame-eq-ok :
      (index : ℕ) (f : Bool) (sealed plain : Bytes)
      → decrypt_frame cipher nonce index f sealed associated_data ≡ ok plain
      → (sealed_at cipher nonce associated_data index f plain ≡ some sealed)
        × (length sealed ≡ length plain + tag_bytes)
  unfolding decrypt_frame
  decrypt_frame-eq-ok index f sealed plain h =
      let e =
        aead.opens (chunk_nonce nonce index) (frame_aad associated_data index f) sealed plain
          (ok_or-eq-ok _ _ h) in
      (e, aead.tagged (chunk_nonce nonce index) (frame_aad associated_data index f) plain sealed e)

  module _ {W : Type 0} (writer : Writer W) where
    -- What decryption accepts is frames from the index on, up to the end of the input, and it writes
    -- their chunks.
    abbrev pub Accepts : ℕ → Source → W → W → Type 0
    Accepts index s w v =
        (chunks : List Bytes) × AreFrames cipher nonce associated_data index chunks s.left
        × (s.breaks ≡ false)
        × (writer.written v ≡ writer.written w ++ concat chunks)

    frame_opened-Accepts :
        (f : Bool) (plain sealed : Bytes) (s' : Source) (index : ℕ) (w v : W)
        (go_on : ℕ → W → Result EncryptionError W)
        → sealed_at cipher nonce associated_data index f plain ≡ some sealed
        → length plain ≤ chunk_bytes
        → ((i : ℕ) (u : W) → go_on i u ≡ ok v → Accepts i s' u v)
        → frame_opened cipher writer f plain s' index w go_on ≡ ok v
        → Accepts index (source (frame_bytes f sealed ++ s'.left) s'.breaks) w v
    unfolding frame_opened
    frame_opened-Accepts false plain sealed s' index w v go_on e small ih h =
        let (framed, write, k) = >>=-eq-ok (ok_or (writer.write_all w plain) io) _ h in
        let (index', n, k') = >>=-eq-ok (next_index index) _ k in
        let (next, below) = next_index-eq-ok index index' n in
        let (chunks, are, fine, out) = ih index' framed k' in
        (
          plain ∷ chunks,
          (
            sealed,
            s'.left,
            e,
            small,
            below,
            refl,
            subst (λ i. AreFrames cipher nonce associated_data i chunks s'.left) next are,
          ),
          fine,
          out
              ∙ ap (λ t. t ++ concat chunks)
                  (writer.written-write_all w plain framed (ok_or-eq-ok _ _ write))
              ∙ append_assoc (writer.written w) plain (concat chunks),
        )
    frame_opened-Accepts true plain sealed s' index w v go_on e small ih h =
        let (m, k) = >>-eq-ok (ensure (is_empty plain) failed) _ h in
        let (t, k') = >>-eq-ok (ends s') _ k in
        let last = ends-eq-ok s' t in
        (
          [],
          (
            sealed,
            subst (λ p. sealed_at cipher nonce associated_data index true p ≡ some sealed)
                (empty_plain plain m) e,
            ap (λ (r : Source). frame_bytes true sealed ++ r.left) last
                ∙ append-nil (frame_bytes true sealed),
          ),
          ap (λ (r : Source). r.breaks) last,
          writer.written-flush w v (ok_or-eq-ok _ _ k') ∙ sym (append-nil (writer.written w)),
        )

    pub decrypt_frames-Accepts :
        (fuel index : ℕ) (s : Source) (w v : W)
        → AreBytes s.left
        → decrypt_frames cipher writer fuel nonce index s w associated_data ≡ ok v
        → Accepts index s w v
    unfolding decrypt_frames
    decrypt_frames-Accepts zero index s w v bytes h = cc
    decrypt_frames-Accepts (suc fuel) index s w v bytes h =
        let (((f, c), s'), e, k) = >>=-eq-ok (read_frame s) _ h in
        let (q, small) = read_frame_sound s s' f c bytes e in
        let (plain, d, k') = >>=-eq-ok (decrypt_frame cipher nonce index f c associated_data) _ k in
        let (sealed, long) = decrypt_frame-eq-ok index f c plain d in
        let later =
          (AreBytes-split (frame_bytes f c) s'.left (subst (λ t. AreBytes t.left) q bytes)).1 in
        subst (λ t. Accepts index t w v) (sym q)
          (frame_opened-Accepts f plain c s' index w v _ sealed (omega arith)
            (λ i u g. decrypt_frames-Accepts fuel i s' u v later g) k')

    -- One round of the loop on a frame in front.
    decrypt_frames-frame_bytes :
        (fuel index : ℕ) (f : Bool) (plain sealed r : Bytes) (b : Bool) (w : W)
        → sealed_at cipher nonce associated_data index f plain ≡ some sealed
        → length plain ≤ chunk_bytes
        → decrypt_frames cipher writer
            (suc fuel)
            nonce
            index
            (source (frame_bytes f sealed ++ r) b)
            w
            associated_data
          ≡ frame_opened cipher writer f plain
              (source r b)
              index
              w
              (λ i u. decrypt_frames cipher writer fuel nonce i (source r b) u associated_data)
    unfolding decrypt_frames decrypt_frame
    decrypt_frames-frame_bytes fuel index f plain sealed r b w e small =
        let long =
          aead.tagged (chunk_nonce nonce index) (frame_aad associated_data index f) plain sealed
            e in
        rw (
          read_frame-frame_bytes f sealed r b (omega arith) (omega arith),
          aead.seals (chunk_nonce nonce index) (frame_aad associated_data index f) plain sealed e,
        )

    -- Frames up to the end are accepted, with more fuel than there are bytes.
    pub AreFrames-decrypt_frames :
        Takes writer
        → (chunks : List Bytes) (fuel index : ℕ) (bs : Bytes) (w : W) → length bs < fuel
        → AreFrames cipher nonce associated_data index chunks bs
        → (v : W) × (decrypt_frames cipher writer fuel nonce index
              (source bs false)
              w
              associated_data
            ≡ ok v)
          × (writer.written v ≡ writer.written w ++ concat chunks)
    unfolding frame_opened next_index ends
    AreFrames-decrypt_frames takes chunks zero index bs w h are = absurd (omega arith)
    AreFrames-decrypt_frames takes [] (suc fuel) index bs w h (sealed, e, q) =
        let (v, flushed) = takes.1 w in
        let read =
          decrypt_frames-frame_bytes fuel index true [] sealed [] false w e (omega arith) in
        (
          v,
          rw (q, sym (append-nil (frame_bytes true sealed)), read, flushed) refl,
          writer.written-flush w v flushed ∙ sym (append-nil (writer.written w)),
        )
    AreFrames-decrypt_frames takes (m ∷ ms) (suc fuel) index bs w h
          (sealed, rest, e, small, below, q, are) =
        let (u, wrote) = takes.0 w m in
        let read = decrypt_frames-frame_bytes fuel index false m sealed rest false w e small in
        let (v, run, out) =
          AreFrames-decrypt_frames takes ms fuel (index + 1) rest u
            (omega (arith, ap length q, length-append (frame_bytes false sealed) rest)) are in
        (
          v,
          rw (q, read, wrote, in_range index below) run,
          out
              ∙ ap (λ t. t ++ concat ms) (writer.written-write_all w m u wrote)
              ∙ append_assoc (writer.written w) m (concat ms),
        )
      where
        in_range : (i : ℕ) → i + 1 < u32_end → ltb (i + 1) u32_end ≡ true
        in_range i h = ground arith
