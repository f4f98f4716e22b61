-- ===== src/Polling/Tests.antt =====
-- Two rounds of the thread with a reader that answers nothing.
use nfcee_fw.Base.{[], ◌∷◌, ◌≡◌, refl, arith, true, false, none}
use nfcee_fw.Run.{returns}
use nfcee_fw.Nfc.{Driver, power_off, Tech}
use nfcee_fw.Nfc.Tape.{Tape, tape_device}
use nfcee_fw.Nfc.TypeA.{Locals, iso14443a_open}
use nfcee_fw.Nfc.Frames.{transceive_short}
use nfcee_fw.Nfc.TypeA.Levels.{tape, buffer}
use nfcee_fw.Nfc.TypeA.Card.{Card, IsCard, card_answers, card_requests}
use nfcee_fw.Nfc.Session.{iso14443a_fops, nfc_open}
use nfcee_fw.Polling.{Board, poll_round, poll_rounds}
use nfcee_fw.Polling.Prints.{poll_round-prints}
use nfcee_fw.Polling.Rounds.{IsOff, poll_rounds-IsOff}

abbrev quiet_board : Board Tape
quiet_board = record { led1 = λ on w. w; trace = λ id w. w; sleep_ms = λ n w. w }

abbrev zeros : Locals
zeros = record { buf = 0 ∷ 0 ∷ 0 ∷ 0 ∷ 0 ∷ 0 ∷ 0 ∷ 0 ∷ []; sak = λ level. 0 ∷ 0 ∷ 0 ∷ [] }

abbrev first : Driver
first = record {
  tech = Tech.iso14443a;
  nfcid_len = 0;
  nfcid_data = [];
  state = power_off;
  fsc = 0;
  fsd = 0;
  fwt = 0;
  block = 0;
  sak = 0;
  atqa = 0;
  ats = [];
  atqb = [];
}

abbrev nothing : Tape
nothing = record { answers = []; sent = [] }

poll_rounds-IsOff_example : IsOff true (true, record first { fsd = 127 }, nothing)
unfolding poll_rounds nfc_open iso14443a_open transceive_short
poll_rounds-IsOff_example =
    poll_rounds-IsOff quiet_board tape_device zeros 2 true true first (record first { fsd = 127 })
      nothing _ refl refl refl

-- A card with an identifier of four bytes that does not speak ISO 14443-4.
abbrev classic : Card
classic = record {
  a0 = 0x04;
  a1 = 0x00;
  more = [];
  last = record { u0 = 0xDE; u1 = 0xAD; u2 = 0xBE; u3 = 0xEF; s = 0x08 };
  ats = record { tl = 2; fsci = 0; ta = none; tb = none; has_tc = false };
  historical = [];
}

classic-IsCard : IsCard classic
classic-IsCard = record {
  bitwise = refl;
  size = refl;
  few = omega arith;
  go_on = tt;
  closes = refl;
  is_ats = record { with_format = omega arith; small_code = omega arith; small_guard = tt };
  fits = omega arith;
}

abbrev ready : Driver
ready = record first {
  nfcid_data = 0 ∷ 0 ∷ 0 ∷ 0 ∷ 0 ∷ 0 ∷ 0 ∷ 0 ∷ 0 ∷ 0 ∷ [];
  ats = 0 ∷ 0 ∷ 0 ∷ 0 ∷ 0 ∷ 0 ∷ 0 ∷ [];
}

abbrev ready_locals : Locals
ready_locals = record { buf = buffer 0 0 (0 ∷ 0 ∷ 0 ∷ 0 ∷ 0 ∷ []) 0; sak = λ i. 0 ∷ 0 ∷ 0 ∷ [] }

poll_round-prints_example :
    (d' : Driver) × (poll_round quiet_board tape_device
        (iso14443a_fops tape_device ready_locals)
        (true, ready, tape (card_answers classic []) [])
      ≡ returns (false, d', tape [] (card_requests classic 127 (0 ∷ 0 ∷ 0 ∷ 0 ∷ 0 ∷ []))))
    × (d'.state ≡ power_off)
poll_round-prints_example =
    poll_round-prints quiet_board classic (λ i. 0) (λ i. 0) (λ i. 0) 0 0 0 0 0 0 0 0 true ready []
      [] refl classic-IsCard refl refl refl refl
