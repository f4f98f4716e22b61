-- ===== src/Nfc/TypeA/Tests.antt =====
-- Cards with identifiers of two levels, and one that closes every level.
use nfcee_fw.Base.{◌≡◌, refl, arith, true, none, some, [], ◌∷◌}
use nfcee_fw.Run.{returns, fault}
use nfcee_fw.Nfc.{Driver, done, idle, Tech}
use nfcee_fw.Nfc.Tape.{tape_device}
use nfcee_fw.Nfc.TypeA.{cascade, apply_ats, iso14443a_open}
use nfcee_fw.Nfc.TypeA.Ats.{Ats, IsAts, with_ats, announced, apply_ats-reads}
use nfcee_fw.Nfc.TypeA.Card.{Card, IsCard, Knows, card_answers, card_requests}
use nfcee_fw.Nfc.TypeA.Activation.{iso14443a_open-activates}
use nfcee_fw.Nfc.TypeA.Levels.{Level, level_answers, tape, buffer}
use nfcee_fw.Nfc.TypeA.Identify.{identifier, answers_of, requests_of, cascade-identifies}
use nfcee_fw.Nfc.TypeA.Overflow.{cascade-overflows}

abbrev powered : Driver
powered = record {
  tech = Tech.iso14443a;
  nfcid_len = 0;
  nfcid_data = 0 ∷ 0 ∷ 0 ∷ 0 ∷ 0 ∷ 0 ∷ 0 ∷ 0 ∷ 0 ∷ 0 ∷ [];
  state = idle;
  fsc = 0;
  fsd = 127;
  fwt = 0;
  block = 0;
  sak = 0;
  atqa = 0x44;
  ats = [];
  atqb = [];
}

abbrev tagged : Level
tagged = record { u0 = 0x88; u1 = 0x04; u2 = 0x11; u3 = 0x22; s = 0x04 }

abbrev closing : Level
closing = record { u0 = 0x33; u1 = 0x44; u2 = 0x55; u3 = 0x66; s = 0x20 }

cascade-identifies_example :
    (d' : Driver) × (cascade tape_device 2 0
        (λ i. 0 ∷ 0 ∷ 0 ∷ [])
        (buffer 0x44 0x00 (0 ∷ 0 ∷ 0 ∷ 0 ∷ 0 ∷ []) 0)
        powered
        (tape (answers_of (tagged ∷ []) closing []) [])
      ≡ returns (none, d', tape [] (requests_of 0 (0 ∷ 0 ∷ 0 ∷ 0 ∷ 0 ∷ []) (tagged ∷ []) closing)))
    × (identifier d' ≡ 0x04 ∷ 0x11 ∷ 0x22 ∷ 0x33 ∷ 0x44 ∷ 0x55 ∷ 0x66 ∷ [])
    × (d'.sak ≡ 0x20)
cascade-identifies_example =
    cascade-identifies (tagged ∷ []) closing (λ i. 0) (λ i. 0) (λ i. 0) 0x44 0x00 0 0 0 0 0 0
      powered [] [] (refl, tt) refl refl refl (omega arith)

cascade-overflows_example :
    cascade tape_device 3 0
      (λ i. 0 ∷ 0 ∷ 0 ∷ [])
      (buffer 0x84 0x00 (0 ∷ 0 ∷ 0 ∷ 0 ∷ 0 ∷ []) 0)
      powered
      (tape (level_answers closing (level_answers closing (level_answers closing []))) [])
    ≡ fault
cascade-overflows_example =
    cascade-overflows closing closing closing (λ i. 0) (λ i. 0) (λ i. 0) 0x84 0x00 0 0 0 0 0 0
      powered [] [] refl refl refl refl

-- TL, T0, TA, TB and TC, and two bytes of checksum.
abbrev full_ats : Ats
full_ats = record { tl = 5; fsci = 8; ta = some 0x80; tb = some (8, 1); has_tc = true }

abbrev with_array : Driver
with_array = record powered { ats = 0 ∷ 0 ∷ 0 ∷ 0 ∷ 0 ∷ 0 ∷ 0 ∷ [] }

full_ats-IsAts : IsAts full_ats
full_ats-IsAts = record {
  with_format = omega arith;
  small_code = omega arith;
  small_guard = omega arith;
}

apply_ats-reads_example :
    apply_ats tape_device (with_ats with_array full_ats (2 ∷ 0 ∷ 0 ∷ []))
    ≡ announced with_array full_ats (2 ∷ 0 ∷ 0 ∷ [])
apply_ats-reads_example =
    apply_ats-reads tape_device full_ats with_array (2 ∷ 0 ∷ 0 ∷ []) full_ats-IsAts

abbrev desfire : Card
desfire = record {
  a0 = 0x44;
  a1 = 0x03;
  more = tagged ∷ [];
  last = closing;
  ats = full_ats;
  historical = 2 ∷ 0x12 ∷ 0x34 ∷ [];
}

desfire-IsCard : IsCard desfire
desfire-IsCard = record {
  bitwise = refl;
  size = refl;
  few = omega arith;
  go_on = (refl, tt);
  closes = refl;
  is_ats = full_ats-IsAts;
  fits = omega arith;
}

iso14443a_open-activates_example :
    (d' : Driver) × (iso14443a_open tape_device
        (record { buf = buffer 0 0 (0 ∷ 0 ∷ 0 ∷ 0 ∷ 0 ∷ []) 0; sak = λ i. 0 ∷ 0 ∷ 0 ∷ [] })
        with_array
        (tape (card_answers desfire []) [])
      ≡ returns (done 0, d', tape [] (card_requests desfire 127 (0 ∷ 0 ∷ 0 ∷ 0 ∷ 0 ∷ []))))
    × Knows desfire d'
iso14443a_open-activates_example =
    iso14443a_open-activates desfire (λ i. 0) (λ i. 0) (λ i. 0) 0 0 0 0 0 0 0 0 with_array [] []
      desfire-IsCard refl refl
