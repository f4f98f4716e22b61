-- ===== src/Nfc/Tests.antt =====
-- Codes, blocks and sessions.
use nfcee_fw.Base.{ℕ, ◌+◌, ◌≤◌, ◌≡◌, inl, refl, arith, true, [], ◌∷◌}
use nfcee_fw.Run.{returns}
use nfcee_fw.Nfc.{done, fail, eio, Device, Driver, selected, power_off, Tech}
use nfcee_fw.Nfc.Tables.{fsci2fsc, fsd2fsdi, fsd2fsdi_greatest, fsci2fsc_bounds, fsd2fsdi-fsci2fsc}
use nfcee_fw.Nfc.Tape.{Tape, tape_device}
use nfcee_fw.Nfc.TypeA.{
  Locals, iso14443a_open, cascade, cascade_level, is_bcc_valid, close_level, append_nfcid,
  finish_open, request_ats,
}
use nfcee_fw.Nfc.Frames.{transceive_plain, transceive_short, transceive_crc}
use nfcee_fw.Crc.{crca, crca_loop, crc_step}
use nfcee_fw.Nfc.TypeA.Unchanged.{IsSameSession, iso14443a_open-IsSameSession}
use nfcee_fw.Nfc.Layer4.{Fops}
use nfcee_fw.Nfc.Session.{nfc_open}
use nfcee_fw.Nfc.Session.Outcome.{IsOpened, nfc_open-outcome}

fsd2fsdi_greatest_example : (fsci2fsc (fsd2fsdi 127) ≤ 127) × (6 ≤ fsd2fsdi 127)
unfolding fsci2fsc
fsd2fsdi_greatest_example = fsd2fsdi_greatest 127 6 (omega arith) (omega arith) (omega arith)

fsci2fsc_bounds_example : (16 ≤ fsci2fsc 11) × (fsci2fsc 11 ≤ 256)
fsci2fsc_bounds_example = fsci2fsc_bounds 11

fsd2fsdi-fsci2fsc_example : fsd2fsdi (fsci2fsc 7) ≡ 7
fsd2fsdi-fsci2fsc_example = fsd2fsdi-fsci2fsc 7 (omega arith)

-- A reader that counts its calls, and a layer below that finds a card.
abbrev counting : Device ℕ
counting = record {
  dev_open = λ tech w. (done 0, w + 1);
  dev_transceive = λ tx rx timeout w. (record { ret = fail eio; stored = [] }, w + 1);
  dev_ioctl = λ req arg w. (done 0, 127, w + 1);
  dev_close = λ w. (done 0, w + 1);
}

abbrev card_found : Fops ℕ
card_found = record {
  l3_open = λ d w. returns (done 0, d, w + 1);
  l3_transceive = λ d tx cap timeout w. (record { ret = fail eio; stored = [] }, w + 1);
}

abbrev fresh : Tech → Driver
fresh t = record {
  tech = t;
  nfcid_len = 0;
  nfcid_data = [];
  state = power_off;
  fsc = 0;
  fsd = 0;
  fwt = 0;
  block = 7;
  sak = 0;
  atqa = 0;
  ats = [];
  atqb = [];
}

abbrev opened : Driver
opened = record (fresh Tech.iso14443a) { state = selected; fsd = 127; block = 0 }

nfc_open-outcome_example : IsOpened true opened
unfolding nfc_open
nfc_open-outcome_example =
    nfc_open-outcome counting card_found (fresh Tech.iso14443a) opened 0 3 (done 0) (inl refl)
      (λ e. ground (arith, e)) refl

-- A card with a short identifier, which does not speak ISO 14443-4.
abbrev plain_card : Tape
plain_card = record {
  answers =
      record { ret = done 2; stored = 0x04 ∷ 0x00 ∷ [] }
      ∷ record { ret = done 5; stored = 0x11 ∷ 0x22 ∷ 0x33 ∷ 0x44 ∷ 0x44 ∷ [] }
      ∷ record { ret = done 3; stored = 0x08 ∷ 0xB6 ∷ 0xDD ∷ [] }
      ∷ [];
  sent = [];
}

abbrev zeros : Locals
zeros = record { buf = 0 ∷ 0 ∷ 0 ∷ 0 ∷ 0 ∷ 0 ∷ 0 ∷ 0 ∷ []; sak = λ level. 0 ∷ 0 ∷ 0 ∷ [] }

abbrev before : Driver
before = record (fresh Tech.iso14443a) { nfcid_data = 0 ∷ 0 ∷ 0 ∷ 0 ∷ 0 ∷ 0 ∷ 0 ∷ 0 ∷ 0 ∷ 0 ∷ [] }

abbrev activated : Driver
activated = record before {
  nfcid_len = 4;
  nfcid_data = 0x11 ∷ 0x22 ∷ 0x33 ∷ 0x44 ∷ 0 ∷ 0 ∷ 0 ∷ 0 ∷ 0 ∷ 0 ∷ [];
  sak = 0x08;
  atqa = 4;
}

iso14443a_open-IsSameSession_example : IsSameSession before activated
unfolding iso14443a_open transceive_short cascade cascade_level transceive_plain is_bcc_valid
    transceive_crc close_level crca crca_loop crc_step append_nfcid finish_open request_ats
iso14443a_open-IsSameSession_example =
    iso14443a_open-IsSameSession tape_device zeros before activated plain_card _ (done 0) refl
