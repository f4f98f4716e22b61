-- ===== src/Nfc/Layer4/Delivery.antt =====
-- A whole exchange with an ISO 14443-4 card that acknowledges and answers as the standard has it.
use nfcee_fw.Base.{ℕ, List, ◌∷◌, take, bit_or}
use nfcee_fw.Nfc.{Driver}
use nfcee_fw.Nfc.Blocks.{togglebit}
use nfcee_fw.Nfc.Tape.{Sent, Tape}
use nfcee_fw.Nfc.Layer4.Answer.{acks_sent}

-- The first thing that the second loop sends.
abbrev sent_first : Driver → ℕ → ℕ → List ℕ → Sent
sent_first d n b buf = record {
  frame = take n (bit_or b (togglebit d.block) ∷ buf);
  cap = 256;
  timeout = d.fwt;
}

-- The last block of the message, and the acknowledgements of the answer.
abbrev pub last_sent : Driver → List ℕ → List (List ℕ) → List Sent
last_sent d last chunks =
    record { frame = bit_or 0x02 (togglebit d.block) ∷ last; cap = 256; timeout = d.fwt }
    ∷ acks_sent d chunks
