-- ===== src/Encryption/Envelopes.antt =====
-- Whole envelopes (crates/guardian-encryption/src/lib.rs): what is accepted, and the round trip.
use vds_guardian.Prelude.{
  suc, ◌≡◌, refl, ap, sym, ◌∙◌, false, List, [], ◌∷◌, ◌++◌, All, length, arith, ok, ok_or, ensure,
  >>=-eq-ok, >>-eq-ok, ensure-eq-ok, ◌==◌, ==→eq, list_eq, nat_eq, subst, list_beq_refl,
  ok-injective,
}
use vds_guardian.Text.{Bytes}
use vds_guardian.Encryption.Defs.{
  Cipher, IsAead, Writer, Source, Answer, EnvelopeHeader, failed, io, magic, envelope_version,
  nonce_bytes, read_header, decrypt_frames_to, decrypt_reader_to, encrypt_reader_to, encrypt_chunks,
}
use vds_guardian.Encryption.Words.{AreBytes, source}
use vds_guardian.Encryption.Frames.{
  ok_or-eq-ok, concat, AreFrames, FitsBuffer, chunks_of, encrypt_chunks-AreFrames,
}
use vds_guardian.Encryption.Reading.{
  AreBytes-split, envelope, read_header-envelope, read_header_sound,
}
use vds_guardian.Encryption.Accepted.{decrypt_frames-Accepts, AreFrames-decrypt_frames, Takes}

module _ (cipher : Cipher) (aead : IsAead cipher) {W : Type 0} (writer : Writer W) where
  -- Decryption accepts only an input that is, to its last byte, the header with the expected nonce and
  -- the frames that encryption makes of some chunks, none left out, repeated, moved, cut or added;
  -- and it writes these chunks.
  pub decrypt_reader_to_sound :
      (input : Source) (output v : W) (associated_data expected : Bytes)
      → AreBytes input.left
      → decrypt_reader_to cipher writer input output associated_data expected ≡ ok v
      → (frames : Bytes) × (chunks : List Bytes) × (input ≡ source (envelope expected frames) false)
        × (length expected ≡ nonce_bytes)
        × AreFrames cipher expected associated_data 0 chunks frames
        × (writer.written v ≡ writer.written output ++ concat chunks)
  unfolding decrypt_reader_to decrypt_frames_to
  decrypt_reader_to_sound input output v associated_data expected bytes h =
      let ((header, s'), e, k) = >>=-eq-ok (read_header input) _ h in
      let (g, k') = >>-eq-ok (ensure (header.nonce == expected) failed) _ k in
      let same = ==→eq header.nonce expected (ensure-eq-ok _ _ g) in
      let (q, n) = read_header_sound input s' header e in
      let later = frames_bytes header.nonce s'.left (subst (λ t. AreBytes t.left) q bytes) in
      let (chunks, are, fine, out) =
        decrypt_frames-Accepts cipher aead header.nonce associated_data writer
          (suc (length s'.left)) 0 s' output v later k' in
      (
        s'.left,
        chunks,
        q
            ∙ ap (λ b. source (envelope header.nonce s'.left) b) fine
            ∙ ap (λ t. source (envelope t s'.left) false) same,
        ap length (sym same) ∙ n,
        subst (λ t. AreFrames cipher t associated_data 0 chunks s'.left) same are,
        out,
      )
    where
      frames_bytes : (n r : Bytes) → AreBytes (envelope n r) → AreBytes r
      frames_bytes n r h =
          (AreBytes-split n r (AreBytes-split (magic ++ envelope_version ∷ []) (n ++ r) h).1).1

  -- Such an input is accepted, where the output takes what it is given.
  pub decrypt_reader_to_complete :
      Takes writer
      → (output : W) (associated_data expected frames : Bytes) (chunks : List Bytes)
      → length expected ≡ nonce_bytes
      → AreFrames cipher expected associated_data 0 chunks frames
      → (v : W) × (decrypt_reader_to cipher writer
            (source (envelope expected frames) false)
            output
            associated_data
            expected
          ≡ ok v)
        × (writer.written v ≡ writer.written output ++ concat chunks)
  unfolding decrypt_reader_to decrypt_frames_to
  decrypt_reader_to_complete takes output associated_data expected frames chunks n are =
      let (v, run, out) =
        AreFrames-decrypt_frames cipher aead expected associated_data writer takes chunks
          (suc (length frames)) 0 frames output (omega arith) are in
      (v, rw (read_header-envelope expected frames false n, list_beq_refl expected) run, out)

  -- What a successful encryption writes into an empty output, decryption under the same nonce and
  -- associated data reads back: it succeeds, and writes the chunks that the reader gave.
  pub decrypt_reader_to-encrypt_reader_to :
      Takes writer
      → (nonce : Bytes) (input : List Answer) (w v output : W) (associated_data : Bytes)
        (header : EnvelopeHeader)
      → length nonce ≡ nonce_bytes
      → All FitsBuffer input
      → writer.written w ≡ []
      → encrypt_reader_to cipher writer nonce input w associated_data ≡ ok (header, v)
      → (out : W) × (decrypt_reader_to cipher writer
            (source (writer.written v) false)
            output
            associated_data
            header.nonce
          ≡ ok out)
        × (writer.written out ≡ writer.written output ++ concat (chunks_of input))
  unfolding encrypt_reader_to
  decrypt_reader_to-encrypt_reader_to takes nonce input w v output associated_data header n fits
        fresh h =
      let (w1, e1, k1) = >>=-eq-ok (ok_or (writer.write_all w magic) io) _ h in
      let (w2, e2, k2) = >>=-eq-ok (ok_or (writer.write_all w1 (envelope_version ∷ [])) io) _ k1 in
      let (w3, e3, k3) = >>=-eq-ok (ok_or (writer.write_all w2 nonce) io) _ k2 in
      let (u, e4, k4) =
        >>=-eq-ok (encrypt_chunks cipher writer w3 nonce 0 input associated_data) _ k3 in
      let (frames, q, are) =
        encrypt_chunks-AreFrames cipher nonce associated_data writer w3 u 0 input fits e4 in
      let a = writer.written-write_all w magic w1 (ok_or-eq-ok _ _ e1) in
      let b = writer.written-write_all w1 (envelope_version ∷ []) w2 (ok_or-eq-ok _ _ e2) in
      let c = writer.written-write_all w2 nonce w3 (ok_or-eq-ok _ _ e3) in
      let whole : writer.written u ≡ envelope nonce frames = rw (q, c, b, a, fresh) refl in
      let made = ok-injective k4 in
      let (out, run, wrote) =
        decrypt_reader_to_complete takes output associated_data nonce frames (chunks_of input) n
          are in
      (
        out,
        subst
            (λ (t : EnvelopeHeader × W).
              decrypt_reader_to cipher writer (source (writer.written t.1) false) output
                associated_data t.0.nonce
              ≡ ok out)
            made
            (subst
              (λ l.
                decrypt_reader_to cipher writer (source l false) output associated_data nonce
                ≡ ok out)
              (sym whole) run),
        wrote,
      )
