-- ===== src/Encryption/Defs.antt =====
-- Writing and reading an envelope (crates/guardian-encryption/src/lib.rs). AES-256-GCM, the random
-- nonce and the two streams are parameters.
use vds_guardian.Prelude.{
  ℕ, zero, suc, ◌+◌, ◌*◌, ◌/◌, ◌%◌, ◌≡◌, Bool, true, false, not, ◌&&◌, Option, none, some, List, [],
  ◌∷◌, ◌++◌, ltb, leb, ◌==◌, nat_eq, list_eq, if◌then◌else◌, length, take, drop, is_empty, Result,
  ok, err, ensure, ok_or, ◌>>=◌, ◌>>◌,
}
use vds_guardian.Text.{Bytes}

pub data EncryptionError : Type 0 where
  invalid_key unsupported_version failed too_large too_many_chunks io : EncryptionError

abbrev pub envelope_version : ℕ
envelope_version = 1

abbrev pub chunk_bytes : ℕ
chunk_bytes = 0x100000

abbrev pub key_bytes : ℕ
key_bytes = 32

abbrev pub nonce_bytes : ℕ
nonce_bytes = 12

-- `b"VDSENC01"`
abbrev pub magic : Bytes
magic = b'V' ∷ b'D' ∷ b'S' ∷ b'E' ∷ b'N' ∷ b'C' ∷ b'0' ∷ b'1' ∷ []

abbrev pub header_bytes : ℕ
header_bytes = 21

abbrev pub tag_bytes : ℕ
tag_bytes = 16

-- `u32::MAX + 1`
abbrev pub u32_end : ℕ
u32_end = 0x100000000

pub record EnvelopeHeader : Type 0 where
  pub version : ℕ
  pub nonce : Bytes

pub record PayloadKey : Type 0 where
  pub exposed : Bytes

-- `PayloadKey::from_bytes`
unfoldable pub key_from_bytes : Bytes → Result EncryptionError PayloadKey
key_from_bytes given =
    if length given == key_bytes then ok (record { exposed = given }) else err invalid_key

-- The AEAD under one key: `encrypt` and `decrypt` take the nonce, the associated data and the text.
pub record Cipher : Type 0 where
  pub encrypt : Bytes → Bytes → Bytes → Option Bytes
  pub decrypt : Bytes → Bytes → Bytes → Option Bytes

-- What an AES-GCM implementation documents: it opens exactly what sealing under the same nonce and
-- associated data gives, and a sealed text is its plain text and a tag of 16 bytes.
pub record IsAead (c : Cipher) : Type 0 where
  pub opens :
      (nonce aad sealed plain : Bytes)
      → c.decrypt nonce aad sealed ≡ some plain
      → c.encrypt nonce aad plain ≡ some sealed
  pub seals :
      (nonce aad plain sealed : Bytes)
      → c.encrypt nonce aad plain ≡ some sealed
      → c.decrypt nonce aad sealed ≡ some plain
  pub tagged :
      (nonce aad plain sealed : Bytes)
      → c.encrypt nonce aad plain ≡ some sealed
      → length sealed ≡ length plain + tag_bytes

-- `impl Write`: a write may fail; `written` is all that has been written.
pub record Writer (W : Type 0) : Type 0 where
  pub write_all : W → Bytes → Option W
  pub flush : W → Option W
  pub written : W → Bytes
  pub written-write_all :
      (w : W) (bs : Bytes) (v : W) → write_all w bs ≡ some v → written v ≡ written w ++ bs
  pub written-flush : (w v : W) → flush w ≡ some v → written v ≡ written w

-- `impl Read` as the answers of its calls: some bytes, or a failure. At the end it gives none.
pub data Answer : Type 0 where
  got : Bytes → Answer
  broken : Answer

-- `impl Read` for the calls that want an exact number: what is left, and whether it ends in a failure.
pub record Source : Type 0 where
  pub left : Bytes
  pub breaks : Bool

-- `u32::to_be_bytes` and `u32::from_be_bytes`
unfoldable pub to_be_bytes : ℕ → Bytes
to_be_bytes n = (n / 0x1000000) ∷ (n / 0x10000 % 0x100) ∷ (n / 0x100 % 0x100) ∷ (n % 0x100) ∷ []

unfoldable pub from_be_bytes : Bytes → ℕ
from_be_bytes (a ∷ b ∷ c ∷ d ∷ []) = a * 0x1000000 + b * 0x10000 + c * 0x100 + d
from_be_bytes _ = 0

-- `u8::from(final_frame)`
abbrev pub flag : Bool → ℕ
flag true = 1
flag false = 0

unfoldable pub chunk_nonce : Bytes → ℕ → Bytes
chunk_nonce base index = take 8 base ++ to_be_bytes index

unfoldable pub frame_aad : Bytes → ℕ → Bool → Bytes
frame_aad associated_data index final_frame =
    associated_data ++ (to_be_bytes index ++ flag final_frame ∷ [])

-- `index.checked_add(1)`
unfoldable pub next_index : ℕ → Result EncryptionError ℕ
next_index index = if ltb (index + 1) u32_end then ok (index + 1) else err too_many_chunks

-- `read_exact`
unfoldable pub read_exact : ℕ → Source → Option (Bytes × Source)
read_exact n source =
    if leb n (length source.left)
    then some (take n source.left, record { left = drop n source.left; breaks = source.breaks })
    else none

abbrev pub first_byte : Bytes → ℕ
first_byte [] = 0
first_byte (b ∷ bs) = b

unfoldable pub read_header : Source → Result EncryptionError (EnvelopeHeader × Source)
read_header input = do
  read ← ok_or (read_exact header_bytes input) failed
  ensure (take 8 read.0 == magic && first_byte (drop 8 read.0) == envelope_version)
      unsupported_version
  ok (record { version = envelope_version; nonce = drop 9 read.0 }, read.1)

unfoldable pub read_frame : Source → Result EncryptionError ((Bool × Bytes) × Source)
read_frame input = do
  final_frame ← ok_or (read_exact 1 input) failed
  ensure (leb (first_byte final_frame.0) 1) failed
  prefix ← ok_or (read_exact 4 final_frame.1) failed
  let size = from_be_bytes prefix.0
  ensure (leb tag_bytes size && leb size (chunk_bytes + tag_bytes)) failed
  ciphertext ← ok_or (read_exact size prefix.1) failed
  ok ((first_byte final_frame.0 == 1, ciphertext.0), ciphertext.1)

-- The last `input.read`: one byte more, none, or a failure.
unfoldable pub ends : Source → Result EncryptionError (Unit {0})
ends source = if is_empty source.left then ensure (not source.breaks) io else err failed

module _ (cipher : Cipher) where
  unfoldable pub decrypt_frame : Bytes → ℕ → Bool → Bytes → Bytes → Result EncryptionError Bytes
  decrypt_frame base_nonce index final_frame ciphertext associated_data =
      ok_or
        (cipher.decrypt (chunk_nonce base_nonce index) (frame_aad associated_data index final_frame)
          ciphertext)
        failed

  module _ {W : Type 0} (writer : Writer W) where
    unfoldable pub write_frame : W → Bytes → ℕ → Bool → Bytes → Bytes → Result EncryptionError W
    write_frame output base_nonce index final_frame plaintext associated_data = do
      ciphertext ←
          ok_or
            (cipher.encrypt (chunk_nonce base_nonce index)
              (frame_aad associated_data index final_frame) plaintext)
            failed
      ensure (ltb (length ciphertext) u32_end) too_large
      flagged ← ok_or (writer.write_all output (flag final_frame ∷ [])) io
      sized ← ok_or (writer.write_all flagged (to_be_bytes (length ciphertext))) io
      ok_or (writer.write_all sized ciphertext) io

    -- The loop, from a chunk's index. A read of no bytes is the end of the input.
    unfoldable pub encrypt_chunks : W → Bytes → ℕ → List Answer → Bytes → Result EncryptionError W
    encrypt_chunks output nonce index [] associated_data = do
      ended ← write_frame output nonce index true [] associated_data
      ok_or (writer.flush ended) io
    encrypt_chunks output nonce index (broken ∷ input) associated_data = err io
    encrypt_chunks output nonce index (got [] ∷ input) associated_data = do
      ended ← write_frame output nonce index true [] associated_data
      ok_or (writer.flush ended) io
    encrypt_chunks output nonce index (got (b ∷ bs) ∷ input) associated_data = do
      framed ← write_frame output nonce index false (b ∷ bs) associated_data
      index' ← next_index index
      encrypt_chunks framed nonce index' input associated_data

    -- The nonce is the one that was drawn.
    unfoldable pub encrypt_reader_to :
        Bytes → List Answer → W → Bytes → Result EncryptionError (EnvelopeHeader × W)
    encrypt_reader_to nonce input output associated_data = do
      let header : EnvelopeHeader = record { version = envelope_version; nonce = nonce }
      begun ← ok_or (writer.write_all output magic) io
      versioned ← ok_or (writer.write_all begun (header.version ∷ [])) io
      headed ← ok_or (writer.write_all versioned header.nonce) io
      done ← encrypt_chunks headed header.nonce 0 input associated_data
      ok (header, done)

    -- What the loop does with the text of a frame: it writes it and goes on, or it ends.
    unfoldable pub frame_opened :
        Bool
        → Bytes
        → Source
        → ℕ
        → W
        → (ℕ → W → Result EncryptionError W)
        → Result EncryptionError W
    frame_opened false plaintext input index output go_on = do
      framed ← ok_or (writer.write_all output plaintext) io
      index' ← next_index index
      go_on index' framed
    frame_opened true plaintext input index output go_on = do
      ensure (is_empty plaintext) failed
      ends input
      ok_or (writer.flush output) io

    -- The loop with fuel. Each frame takes more than one byte, so as many rounds as bytes are enough.
    unfoldable pub decrypt_frames : ℕ → Bytes → ℕ → Source → W → Bytes → Result EncryptionError W
    decrypt_frames zero nonce index input output associated_data = err failed
    decrypt_frames (suc fuel) nonce index input output associated_data = do
      frame ← read_frame input
      plaintext ← decrypt_frame nonce index frame.0.0 frame.0.1 associated_data
      frame_opened frame.0.0 plaintext frame.1 index output
          (λ index' framed. decrypt_frames fuel nonce index' frame.1 framed associated_data)

    unfoldable pub decrypt_frames_to : Bytes → Source → W → Bytes → Result EncryptionError W
    decrypt_frames_to nonce input output associated_data =
        decrypt_frames (suc (length input.left)) nonce 0 input output associated_data

    unfoldable pub decrypt_reader_to : Source → W → Bytes → Bytes → Result EncryptionError W
    decrypt_reader_to input output associated_data expected_nonce = do
      header ← read_header input
      ensure (header.0.nonce == expected_nonce) failed
      decrypt_frames_to header.0.nonce header.1 output associated_data

    unfoldable pub decrypt_self_describing_reader_to : Source → W → Bytes → Result EncryptionError W
    decrypt_self_describing_reader_to input output associated_data = do
      header ← read_header input
      decrypt_frames_to header.0.nonce header.1 output associated_data
