-- ===== src/Encryption/Frames.antt =====
-- The frames of an envelope, and what encryption writes (crates/guardian-encryption/src/lib.rs).
use vds_guardian.Prelude.{
  ℕ, ◌+◌, ◌≤◌, ◌<◌, ◌≡◌, refl, ap, ◌∙◌, Bool, true, false, Option, none, some, List, [], ◌∷◌, ◌++◌,
  All, length, arith, ltb, ok, ok_or, ensure, >>=-eq-ok, >>-eq-ok, append_assoc, ◌>>=◌, subst,
}
use vds_guardian.Text.{Bytes}
use vds_guardian.Encryption.Defs.{
  Cipher, Writer, Answer, got, broken, chunk_bytes, u32_end, flag, to_be_bytes, chunk_nonce,
  frame_aad, next_index, write_frame, encrypt_chunks, io,
}

-- `ok_or` succeeds exactly on a value.
pub ok_or-eq-ok {ℓ} :
    {E : Type ℓ} {A : Type 0} (o : Option A) (e : E) {a : A} → ok_or o e ≡ ok a → o ≡ some a
ok_or-eq-ok none e h = cc
ok_or-eq-ok (some b) e h = cc

pub next_index-eq-ok : (i j : ℕ) → next_index i ≡ ok j → (j ≡ i + 1) × (i + 1 < u32_end)
unfolding next_index
next_index-eq-ok i j h = ground arith

-- How a frame stands in the envelope: a flag, the length, the sealed text.
abbrev pub frame_bytes : Bool → Bytes → Bytes
frame_bytes final_frame sealed = flag final_frame ∷ (to_be_bytes (length sealed) ++ sealed)

abbrev pub concat : List Bytes → Bytes
concat [] = []
concat (m ∷ ms) = m ++ concat ms

-- The chunks that the answers of the reader give, up to the first empty read.
unfoldable pub chunks_of : List Answer → List Bytes
chunks_of [] = []
chunks_of (broken ∷ input) = []
chunks_of (got [] ∷ input) = []
chunks_of (got (b ∷ bs) ∷ input) = (b ∷ bs) ∷ chunks_of input

-- `Read::read` gives at most what the buffer holds.
abbrev pub FitsBuffer : Answer → Type 0
FitsBuffer (got bs) = length bs ≤ chunk_bytes
FitsBuffer broken = Unit {0}

module _ (cipher : Cipher) (nonce associated_data : Bytes) where
  abbrev pub sealed_at : ℕ → Bool → Bytes → Option Bytes
  sealed_at index final_frame plain =
      cipher.encrypt (chunk_nonce nonce index) (frame_aad associated_data index final_frame) plain

  -- The bytes are the frames of the chunks in their order, each sealed at its index from the given one
  -- on, then the one final frame, which seals no text, and nothing else.
  abbrev pub AreFrames : ℕ → List Bytes → Bytes → Type 0
  AreFrames index [] bs =
      (sealed : Bytes) × (sealed_at index true [] ≡ some sealed) × (bs ≡ frame_bytes true sealed)
  AreFrames index (m ∷ ms) bs =
      (sealed : Bytes) × (rest : Bytes) × (sealed_at index false m ≡ some sealed)
      × (length m ≤ chunk_bytes)
      × (index + 1 < u32_end)
      × (bs ≡ frame_bytes false sealed ++ rest)
      × AreFrames (index + 1) ms rest

  module _ {W : Type 0} (writer : Writer W) where
    write_frame-eq-ok :
        (w v : W) (index : ℕ) (f : Bool) (plain : Bytes)
        → write_frame cipher writer w nonce index f plain associated_data ≡ ok v
        → (sealed : Bytes) × (sealed_at index f plain ≡ some sealed)
          × (writer.written v ≡ writer.written w ++ frame_bytes f sealed)
    unfolding write_frame
    write_frame-eq-ok w v index f plain h =
        let (sealed, e, k1) = >>=-eq-ok (ok_or (sealed_at index f plain) _) _ h in
        let (_, k2) = >>-eq-ok (ensure (ltb (length sealed) u32_end) _) _ k1 in
        let (w1, e1, k3) = >>=-eq-ok (ok_or (writer.write_all w (flag f ∷ [])) _) _ k2 in
        let (w2, e2, e3) =
          >>=-eq-ok (ok_or (writer.write_all w1 (to_be_bytes (length sealed))) _) _ k3 in
        (
          sealed,
          ok_or-eq-ok _ _ e,
          rw
              (
                writer.written-write_all w2 sealed v (ok_or-eq-ok _ _ e3),
                writer.written-write_all w1 _ w2 (ok_or-eq-ok _ _ e2),
                writer.written-write_all w _ w1 (ok_or-eq-ok _ _ e1),
              )
              (simp append_assoc),
        )

    final_frame-eq-ok :
        (w v : W) (index : ℕ)
        → (write_frame cipher writer w nonce index true [] associated_data >>= λ ended.
            ok_or (writer.flush ended) io)
          ≡ ok v
        → (bs : Bytes) × (writer.written v ≡ writer.written w ++ bs) × AreFrames index [] bs
    final_frame-eq-ok w v index h =
        let (ended, e, k) =
          >>=-eq-ok (write_frame cipher writer w nonce index true [] associated_data) _ h in
        let (sealed, s, q) = write_frame-eq-ok w ended index true [] e in
        (
          frame_bytes true sealed,
          writer.written-flush ended v (ok_or-eq-ok _ _ k) ∙ q,
          (sealed, s, refl),
        )

    -- What a successful encryption has written behind the output so far.
    pub encrypt_chunks-AreFrames :
        (w v : W) (index : ℕ) (input : List Answer)
        → All FitsBuffer input
        → encrypt_chunks cipher writer w nonce index input associated_data ≡ ok v
        → (bs : Bytes) × (writer.written v ≡ writer.written w ++ bs)
          × AreFrames index (chunks_of input) bs
    unfolding encrypt_chunks chunks_of
    encrypt_chunks-AreFrames w v index [] fits h = final_frame-eq-ok w v index h
    encrypt_chunks-AreFrames w v index (broken ∷ input) fits h = cc
    encrypt_chunks-AreFrames w v index (got [] ∷ input) fits h = final_frame-eq-ok w v index h
    encrypt_chunks-AreFrames w v index (got (b ∷ bs) ∷ input) (short, fits) h =
        let (framed, e, k1) =
          >>=-eq-ok (write_frame cipher writer w nonce index false (b ∷ bs) associated_data) _ h in
        let (index', n, k) = >>=-eq-ok (next_index index) _ k1 in
        let (next, small) = next_index-eq-ok index index' n in
        let (sealed, s, q) = write_frame-eq-ok w framed index false (b ∷ bs) e in
        let (rest, r, are) = encrypt_chunks-AreFrames framed v index' input fits k in
        (
          frame_bytes false sealed ++ rest,
          r
              ∙ ap (λ t. t ++ rest) q
              ∙ append_assoc (writer.written w) (frame_bytes false sealed) rest,
          (
            sealed,
            rest,
            s,
            short,
            small,
            refl,
            subst (λ i. AreFrames i (chunks_of input) rest) next are,
          ),
        )
