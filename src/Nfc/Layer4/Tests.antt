-- ===== src/Nfc/Layer4/Tests.antt =====
-- Exchanges with an ISO 14443-4 card that has a frame size of 16 bytes.
use nfcee_fw.Base.{ℕ, ◌≡◌, refl, arith, List, [], ◌∷◌, ◌++◌, take, drop, overlay, some, bit_or}
use nfcee_fw.Run.{returns}
use nfcee_fw.Nfc.{done, Driver, selected, Tech}
use nfcee_fw.Nfc.Blocks.{togglebit}
use nfcee_fw.Nfc.Tape.{tape_fops, Tape}
use nfcee_fw.Nfc.Layer4.{
  Exchange, is_tcl, inf_size, next_block, iso14443_transceive, accept_block, send_block,
  size_of_header,
}
use nfcee_fw.Nfc.Layer4.Ack.{tape_of, ack_reply, acknowledgement}
use nfcee_fw.Nfc.Layer4.Answer.{received}
use nfcee_fw.Nfc.Layer4.Waiting.{Plea}
use nfcee_fw.Nfc.Layer4.LateAcks.{Part, late_acks, late_blocks}
use nfcee_fw.Nfc.Layer4.LateAnswer.{late_answer, late_asked}
use nfcee_fw.Nfc.Layer4.Late.{iso14443_transceive-outlasts}
use nfcee_fw.Nfc.Layer4.Deviations.{frame_of, resent_block, short_block_discloses}

abbrev card : Driver
card = record {
  tech = Tech.iso14443a;
  nfcid_len = 4;
  nfcid_data = 1 ∷ 2 ∷ 3 ∷ 4 ∷ [];
  state = selected;
  fsc = 16;
  fsd = 127;
  fwt = 80;
  block = 0;
  sak = 0x20;
  atqa = 4;
  ats = [];
  atqb = [];
}

abbrev sixteen : List ℕ → List ℕ
sixteen xs =
    xs ++ xs ++ xs ++ xs ++ xs ++ xs ++ xs ++ xs ++ xs ++ xs ++ xs ++ xs ++ xs ++ xs ++ xs ++ xs

-- The content of `buffer[256]`.
abbrev stack : List ℕ
stack = sixteen (sixteen (0xAA ∷ []))

-- A message of 15 bytes, which takes a block of 13 and one of 2, and an answer in two blocks.
abbrev thirteen : List ℕ
thirteen = 0 ∷ 0xA4 ∷ 4 ∷ 0 ∷ 7 ∷ 0xD2 ∷ 0x76 ∷ 0 ∷ 0 ∷ 0x85 ∷ 1 ∷ 1 ∷ 0 ∷ []

-- A card that answers with one block.
abbrev one_answer : Tape
one_answer =
    tape_of (record { ret = done 5; stored = 0x02 ∷ 0x90 ∷ 0x00 ∷ 0xF1 ∷ 0x09 ∷ [] } ∷ []) []

abbrev one_exchange : Exchange
one_exchange = record { ret = done 2; out = 0x90 ∷ 0x00 ∷ []; driver = record card { block = 1 } }

resent_block_example :
    let second = 0xA3 ∷ 0x7B ∷ 0x6E ∷ drop 3 stack in
    send_block tape_fops card 3
      (0x12 ∷ 0xAA ∷ 0xAA ∷ drop 3 stack)
      (tape_of (ack_reply (togglebit 1) 0x7B 0x6E ∷ ack_reply (togglebit 0) 0x7B 0x6E ∷ []) [])
    ≡ returns (
      some 3,
      overlay second (acknowledgement card 0x7B 0x6E [] []),
      tape_of [] (frame_of card (0x12 ∷ 0xAA ∷ 0xAA ∷ drop 3 stack) ∷ frame_of card second ∷ []),
    )
unfolding togglebit
resent_block_example =
    resent_block card 1 0x7B 0x6E 0 0x12 0xAA 0xAA (drop 3 stack) [] [] (λ e. ground (arith, e))

-- The block byte 0x0A announces a card identifier, and the checksum follows at once.
short_block_discloses_example :
    accept_block card 3 (0x0A ∷ 0x5C ∷ 0x11 ∷ drop 3 stack) 64 []
    ≡ returns (take 64 (drop 2 (0x0A ∷ 0x5C ∷ 0x11 ∷ drop 3 stack)))
unfolding togglebit size_of_header
short_block_discloses_example =
    short_block_discloses card (0x0A ∷ 0x5C ∷ 0x11 ∷ drop 3 stack) 64 refl (omega arith)
      (omega arith) (omega arith)

-- The same message to a card that asks twice for more time before it acknowledges, and once before the
-- second block of its answer.
abbrev plea : Plea
plea = record { factor = 0x41; tail = 0x12 ∷ 0x34 ∷ []; more = 1 }

abbrev slow_part : Part
slow_part = record { bytes = thirteen; pleas = plea ∷ plea ∷ [] }

abbrev quick_chunk : Part
quick_chunk = record { bytes = 0x6A ∷ 0x82 ∷ []; pleas = [] }

abbrev slow_final : Part
slow_final = record { bytes = 0x90 ∷ 0x00 ∷ []; pleas = plea ∷ [] }

iso14443_transceive-outlasts_example :
    iso14443_transceive tape_fops 6 stack card (thirteen ++ 0x5A ∷ 0xA5 ∷ []) 3 15 (
      tape_of
        (late_acks card
          (slow_part ∷ [])
          (late_answer (next_block card) (quick_chunk ∷ []) slow_final []))
        [])
    ≡ returns (
      received (next_block (next_block (next_block card))) (0x6A ∷ 0x82 ∷ 0x90 ∷ []),
      tape_of [] (
          late_blocks card (slow_part ∷ [])
          ++ late_asked
              (next_block card)
              (bit_or 0x02 (togglebit (next_block card).block) ∷ 0x5A ∷ 0xA5 ∷ [])
              (quick_chunk ∷ [])
              slow_final),
    )
unfolding is_tcl inf_size
iso14443_transceive-outlasts_example =
    iso14443_transceive-outlasts (slow_part ∷ []) (0x5A ∷ 0xA5 ∷ []) (quick_chunk ∷ []) slow_final 2
      6 stack card 3 15 [] [] refl (omega arith) (refl, omega arith, tt) (omega arith) (omega arith)
      (omega arith, omega arith, tt) (omega arith) (omega arith) refl (omega arith)
