-- ===== src/Encryption/Tests.antt =====
-- Runs of the envelope on concrete inputs, with a cipher that only puts a tag in front.
use vds_guardian.Prelude.{
  ℕ, ◌≡◌, refl, ap, sym, true, false, some, List, [], ◌∷◌, ◌++◌, length, arith, ok, err, take,
  list_beq,
}
use vds_guardian.Text.{Bytes, strip_prefix, strip_prefix_sound, strip_prefix-append}
use vds_guardian.Encryption.{
  Cipher, IsAead, Writer, got, EnvelopeHeader, failed, nonce_bytes, chunk_nonce, frame_aad,
  read_header, decrypt_frames, decrypt_frames_to, decrypt_reader_to, encrypt_reader_to,
  encrypt_chunks, write_frame, to_be_bytes, from_be_bytes, next_index, read_exact, read_frame, ends,
  decrypt_frame, frame_opened,
}
use vds_guardian.Encryption.Words.{source, frame_context-injective}
use vds_guardian.Encryption.Frames.{concat, AreFrames, chunks_of}
use vds_guardian.Encryption.Reading.{envelope}
use vds_guardian.Encryption.Accepted.{Takes}
use vds_guardian.Encryption.Fuel.{decrypt_frames_to-ends}
use vds_guardian.Encryption.Envelopes.{decrypt_reader_to_sound, decrypt_reader_to-encrypt_reader_to}

abbrev tag : Bytes
tag = 7 ∷ 7 ∷ 7 ∷ 7 ∷ 7 ∷ 7 ∷ 7 ∷ 7 ∷ 7 ∷ 7 ∷ 7 ∷ 7 ∷ 7 ∷ 7 ∷ 7 ∷ 7 ∷ []

abbrev tagging : Cipher
tagging = record {
  encrypt = λ nonce aad plain. some (tag ++ plain);
  decrypt = λ nonce aad sealed. strip_prefix tag sealed;
}

some_append : (w bs v : Bytes) → some (w ++ bs) ≡ some v → v ≡ w ++ bs
some_append w bs v h = cc

same_bytes : (w v : Bytes) → some w ≡ some v → v ≡ w
same_bytes w v h = cc

tagging-IsAead : IsAead tagging
tagging-IsAead = record {
  opens = λ nonce aad sealed plain h. ap some (sym (strip_prefix_sound tag sealed plain h));
  seals = λ nonce aad plain sealed h.
      rw (some_append tag plain sealed h) (strip_prefix-append tag plain);
  tagged = λ nonce aad plain sealed h. rw (some_append tag plain sealed h) (omega arith);
}

abbrev vector : Writer Bytes
vector = record {
  write_all = λ w bs. some (w ++ bs);
  flush = λ w. some w;
  written = λ w. w;
  written-write_all = λ w bs v h. some_append w bs v h;
  written-flush = λ w v h. same_bytes w v h;
}

vector-Takes : Takes vector
vector-Takes = (λ w bs. (w ++ bs, refl), λ w. (w, refl))

abbrev nonce : Bytes
nonce = 1 ∷ 2 ∷ 3 ∷ 4 ∷ 5 ∷ 6 ∷ 7 ∷ 8 ∷ 9 ∷ 10 ∷ 11 ∷ 12 ∷ []

abbrev sent : Bytes
sent = envelope nonce ((0 ∷ 0 ∷ 0 ∷ 0 ∷ 18 ∷ (tag ++ 104 ∷ 105 ∷ [])) ++ (1 ∷ 0 ∷ 0 ∷ 0 ∷ 16 ∷ tag))

abbrev header : EnvelopeHeader
header = record { version = 1; nonce = nonce }

encrypts :
    encrypt_reader_to tagging vector nonce (got (104 ∷ 105 ∷ []) ∷ []) [] (9 ∷ [])
    ≡ ok (header, sent)
unfolding encrypt_reader_to encrypt_chunks write_frame to_be_bytes next_index
encrypts = refl

decrypts :
    decrypt_reader_to tagging vector (source sent false) [] (9 ∷ []) nonce ≡ ok (104 ∷ 105 ∷ [])
unfolding decrypt_reader_to decrypt_frames_to decrypt_frames decrypt_frame frame_opened read_header
    read_frame read_exact ends next_index from_be_bytes strip_prefix list_beq
decrypts = refl

-- Without the final frame the input is refused.
cut_off :
    decrypt_reader_to tagging vector (source (take 44 sent) false) [] (9 ∷ []) nonce ≡ err failed
unfolding decrypt_reader_to decrypt_frames_to decrypt_frames decrypt_frame frame_opened read_header
    read_frame read_exact ends next_index from_be_bytes strip_prefix list_beq
cut_off = refl

decrypt_reader_to_sound_example :
    (frames : Bytes) × (chunks : List Bytes) × (source sent false
      ≡ source (envelope nonce frames) false)
    × (length nonce ≡ nonce_bytes)
    × AreFrames tagging nonce (9 ∷ []) 0 chunks frames
    × (◌≡◌ {A = Bytes} (104 ∷ 105 ∷ []) ([] ++ concat chunks))
decrypt_reader_to_sound_example =
    decrypt_reader_to_sound tagging tagging-IsAead vector (source sent false) [] (104 ∷ 105 ∷ [])
      (9 ∷ []) nonce (omega arith) decrypts

decrypt_reader_to-encrypt_reader_to_example :
    (out : Bytes) × (decrypt_reader_to tagging vector (source sent false) [] (9 ∷ []) header.nonce
      ≡ ok out)
    × (out ≡ concat (chunks_of (got (104 ∷ 105 ∷ []) ∷ [])))
decrypt_reader_to-encrypt_reader_to_example =
    decrypt_reader_to-encrypt_reader_to tagging tagging-IsAead vector vector-Takes nonce
      (got (104 ∷ 105 ∷ []) ∷ []) [] sent [] (9 ∷ []) header refl (omega arith, tt) refl encrypts

decrypt_frames_to-ends_example :
    decrypt_frames_to tagging vector nonce (source sent false) [] (9 ∷ [])
    ≡ decrypt_frames tagging vector 100 nonce 0 (source sent false) [] (9 ∷ [])
decrypt_frames_to-ends_example =
    decrypt_frames_to-ends tagging vector nonce (9 ∷ []) (source sent false) [] 100 (omega arith)

frame_context-injective_example :
    (chunk_nonce nonce 1 ≡ chunk_nonce nonce 2 → ◌≡◌ {A = ℕ} 1 2)
    × (frame_aad (9 ∷ []) 1 true ≡ frame_aad (9 ∷ []) 2 false
        → ◌≡◌ {A = Bytes} (9 ∷ []) (9 ∷ []) × ◌≡◌ {A = ℕ} 1 2 × (true ≡ false))
frame_context-injective_example =
    frame_context-injective nonce 1 2 (9 ∷ []) (9 ∷ []) true false (omega arith) (omega arith)
