-- ===== src/Nfc/Layer4/Deviations.antt =====
-- The block protocol of libs/nfc/iso14443.c where a card acknowledges the block before, and where a
-- block is shorter than its own header.
use native.Mathlib.Nat.{sub-zero}
use nfcee_fw.Base.{
  append_assoc, overlay-nil, inl, inr, ℕ, suc, ◌+◌, ◌≤◌, ◌<◌, ◌^◌, false, ◌≢◌, some, List, [], ◌∷◌,
  ◌++◌, ◌≡◌, ◌∙◌, arith, take, drop, ltb, overlay, bit_or, ◌==◌, if◌then◌else◌, ==_refl, Bool-cases,
}
use nfcee_fw.Run.{returns, fault}
use nfcee_fw.Nfc.{Driver, Reply}
use nfcee_fw.Nfc.Blocks.{togglebit}
use nfcee_fw.Nfc.Tape.{Sent, tape_fops}
use nfcee_fw.Nfc.Layer4.{
  byte_at, inf_size, grant_time, exchange_block, after_ack, send_block, size_of_header,
  inf_received, copy_payload, accept_block,
}
use nfcee_fw.Nfc.Layer4.Ack.{ack_reply, tape_of, acknowledgement, ack_byte, send_block-ack}

abbrev pub frame_of : Driver → List ℕ → Sent
frame_of d buf = record { frame = take (inf_size d + 1) buf; cap = 3; timeout = d.fwt }

-- A round in which the card acknowledges the block before: the same buffer, written over.
send_block-again :
    (d : Driver) (n x y fuel b : ℕ) (buf : List ℕ) (rest : List Reply) (sent : List Sent)
    → togglebit n ≢ togglebit d.block
    → send_block tape_fops d
        (suc (suc fuel))
        (b ∷ buf)
        (tape_of (ack_reply (togglebit n) x y ∷ rest) sent)
      ≡ send_block tape_fops d
          (suc fuel)
          (bit_or 0xA2 (togglebit n) ∷ overlay buf (x ∷ y ∷ []))
          (tape_of rest (sent ++ frame_of d (b ∷ buf) ∷ []))
unfolding send_block after_ack exchange_block grant_time
send_block-again d n x y fuel b buf rest sent other =
    let a = ack_byte n in
    rw a.no_iblock (rw (a.no_wtx, grant_time) (rw a.acks_it (rw a.number (rw differs))))
  where
    differs : (togglebit n == togglebit d.block) ≡ false
    differs = ground arith

-- When the card answers a chained block with the acknowledgement of the block before, the driver
-- sends again, but not its block: both exchanges use one buffer, and what goes out the second time
-- begins with the three bytes of the card's own answer, whatever the block was.
pub resent_block :
    (d : Driver) (n x y fuel b c e : ℕ) (buf : List ℕ) (rest : List Reply) (sent : List Sent)
    → togglebit n ≢ togglebit d.block
    → let second = bit_or 0xA2 (togglebit n) ∷ x ∷ y ∷ buf in
      send_block tape_fops d
        (suc (suc (suc fuel)))
        (b ∷ c ∷ e ∷ buf)
        (tape_of (ack_reply (togglebit n) x y ∷ ack_reply (togglebit d.block) x y ∷ rest) sent)
      ≡ returns (
        some 3,
        overlay second (acknowledgement d x y rest sent),
        tape_of rest (sent ++ frame_of d (b ∷ c ∷ e ∷ buf) ∷ frame_of d second ∷ []),
      )
resent_block d n x y fuel b c e buf rest sent other =
    send_block-again d n x y (suc fuel) b (c ∷ e ∷ buf) (ack_reply (togglebit d.block) x y ∷ rest)
      sent other
    ∙ send_block-ack d x y rest (sent ++ frame_of d (b ∷ c ∷ e ∷ buf) ∷ []) fuel
        (bit_or 0xA2 (togglebit n)) (overlay (c ∷ e ∷ buf) (x ∷ y ∷ []))
    ∙ simp (overlay-nil, append_assoc)

-- The length of a payload is computed as an `int` and compared as a `size_t`: a block that is shorter
-- than its header and checksum counts as one of `rxlen` bytes.
pub inf_received-short :
    (i header rxlen : ℕ)
    → i < header + 2
    → header ≤ 3
    → rxlen ≤ 2 ^ 31
    → inf_received i header rxlen ≡ rxlen
unfolding inf_received
inf_received-short i header rxlen short small room = omega arith

-- So a block of three bytes with the expected number, whose first byte announces a header of two or
-- three bytes, and for a receive buffer of up to 2 ^ 31 bytes: the driver hands over `rxlen` bytes of its
-- own stack buffer, or reads beyond the buffer's end.
pub short_block_discloses :
    (d : Driver) (buf : List ℕ) (rxlen : ℕ)
    → togglebit (byte_at buf 0) ≡ togglebit d.block
    → 2 ≤ size_of_header (byte_at buf 0)
    → size_of_header (byte_at buf 0) ≤ 3
    → rxlen ≤ 2 ^ 31
    → accept_block d 3 buf rxlen [] ≡ (
        if ltb 256 (size_of_header (byte_at buf 0) + rxlen)
        then fault
        else returns (take rxlen (drop (size_of_header (byte_at buf 0)) buf)))
unfolding accept_block copy_payload
short_block_discloses d buf rxlen same long small room = rw same (
    rw (==_refl (togglebit d.block)) (
      rw (sub-zero rxlen) (
        rw (inf_received-short 3 header rxlen (omega arith) small room)
          (elim (Bool-cases (ltb 256 (header + rxlen))) [ inl e ↦ rw e | inr e ↦ rw e ]))))
  where
    header : ℕ
    header = size_of_header (byte_at buf 0)
