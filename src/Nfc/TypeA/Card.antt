-- ===== src/Nfc/TypeA/Card.antt =====
-- A type A card as the standard has it: what it answers to an activation, what it is asked, and what the
-- driver then knows of it.
use nfcee_fw.Base.{
  ℕ, ◌≤◌, ◌≡◌, Bool, true, false, List, [], ◌∷◌, ◌++◌, bit_and, bit_or, ◌==◌, if◌then◌else◌, length,
}
use nfcee_fw.Word.{u8, ◌<<<◌, ◌>>>◌}
use nfcee_fw.Crc.{crc_bytes}
use nfcee_fw.Nfc.{done, Reply, Driver}
use nfcee_fw.Nfc.Tables.{fsci2fsc, fsd2fsdi, fwi2fw}
use nfcee_fw.Nfc.Tape.{Sent}
use nfcee_fw.Nfc.TypeA.Levels.{Level, request}
use nfcee_fw.Nfc.TypeA.Ats.{Ats, IsAts, ats_bytes, announced_fwi}
use nfcee_fw.Nfc.TypeA.Identify.{identifier, uid_of, AllGoOn, answers_of, requests_of}

-- A card: its answer to the request, its cascade levels, and its answer to select with what follows TB.
pub record Card : Type 0 where
  pub a0 : ℕ
  pub a1 : ℕ
  pub more : List Level
  pub last : Level
  pub ats : Ats
  pub historical : List ℕ

-- Whether the card speaks ISO 14443-4.
abbrev pub speaks_tcl : Card → Bool
speaks_tcl c = bit_and c.last.s 0x24 == 0x20

pub record IsCard (c : Card) : Type 0 where
  -- One of the bits for the bitwise anticollision is set, and two bits give the number of levels.
  pub bitwise : (bit_and (bit_or c.a0 (c.a1 <<< 8)) 0x1F == 0) ≡ false
  pub size : bit_and (c.a0 >>> 6) 3 ≡ length c.more
  pub few : length c.more ≤ 2
  pub go_on : AllGoOn c.more
  pub closes : (bit_and c.last.s 4 == 0) ≡ true
  pub is_ats : IsAts c.ats
  pub fits : length (ats_bytes c.ats c.historical) ≤ 7

abbrev pub ats_reply : Card → Reply
ats_reply c = record {
  ret = done (length (ats_bytes c.ats c.historical));
  stored = ats_bytes c.ats c.historical;
}

abbrev pub card_answers : Card → List Reply → List Reply
card_answers c rest =
    record { ret = done 2; stored = c.a0 ∷ c.a1 ∷ [] }
    ∷ answers_of c.more c.last (if speaks_tcl c then ats_reply c ∷ rest else rest)

-- The request for the answer to select, with the code of the reader's frame size.
abbrev pub rats : ℕ → List ℕ
rats fsd = 0xE0 ∷ u8 (fsd2fsdi fsd <<< 4) ∷ []

abbrev pub rats_sent : ℕ → Sent
rats_sent fsd = request (rats fsd ++ crc_bytes (rats fsd)) 7

abbrev pub card_requests : Card → ℕ → List ℕ → List Sent
card_requests c fsd before =
    record { frame = 0x52 ∷ []; cap = 8; timeout = 15 }
    ∷ (requests_of 0 before c.more c.last ++ (if speaks_tcl c then rats_sent fsd ∷ [] else []))

-- The driver knows the card: its identifier, its last answer to select, and what it announced.
pub record Knows (c : Card) (d : Driver) : Type 0 where
  pub uid : identifier d ≡ uid_of c.more c.last
  pub uid_len : d.nfcid_len ≤ 10
  pub sak : d.sak ≡ c.last.s
  pub frame_size : speaks_tcl c ≡ true → d.fsc ≡ fsci2fsc c.ats.fsci
  pub waiting_time : speaks_tcl c ≡ true → d.fwt ≡ fwi2fw (announced_fwi c.ats.tb)
