-- ===== src/Nfc/TypeA/Levels.antt =====
-- One cascade level of the activation, with a card that answers it.
use nfcee_fw.Base.{
  ℕ, ◌+◌, ◌*◌, ◌/◌, ◌%◌, ◌≡◌, inl, inr, refl, ap, ◌∙◌, List, [], ◌∷◌, ◌++◌, bit_xor, ◌==◌,
  if◌then◌else◌, ==_refl, take, append_assoc, Bool-cases,
}
use nfcee_fw.Word.{u8}
use nfcee_fw.Run.{returns, ◌>>=◌}
use nfcee_fw.Crc.{crca, crc_bytes}
use nfcee_fw.Nfc.{done, Reply, Driver}
use nfcee_fw.Nfc.Frames.{transceive_plain, transceive_crc}
use nfcee_fw.Nfc.Tape.{Sent, Tape, tape_device}
use nfcee_fw.Nfc.TypeA.{is_bcc_valid, close_level, cascade_level}

-- What the card has for a level: four bytes of the identifier, or the cascade tag and three, and the
-- answer to select.
pub record Level : Type 0 where
  pub u0 : ℕ
  pub u1 : ℕ
  pub u2 : ℕ
  pub u3 : ℕ
  pub s : ℕ

abbrev pub bcc : Level → ℕ
bcc l = bit_xor (bit_xor (bit_xor l.u0 l.u1) l.u2) l.u3

-- The five bytes that answer the anticollision command.
abbrev pub uid_part : Level → List ℕ
uid_part l = l.u0 ∷ l.u1 ∷ l.u2 ∷ l.u3 ∷ bcc l ∷ []

abbrev pub sak_bytes : Level → List ℕ
sak_bytes l = l.s ∷ (crca (l.s ∷ []) % 256) ∷ (crca (l.s ∷ []) / 256) ∷ []

abbrev pub level_answers : Level → List Reply → List Reply
level_answers l rest =
    record { ret = done 5; stored = uid_part l }
    ∷ record { ret = done 3; stored = sak_bytes l }
    ∷ rest

abbrev pub sel : ℕ → ℕ
sel level = u8 (0x93 + 2 * level)

-- The requests of a level; `before` are the five bytes that the buffer holds behind the command.
abbrev pub request : List ℕ → ℕ → Sent
request frame cap = record { frame = frame; cap = cap; timeout = 15 }

abbrev pub select_request : ℕ → Level → Sent
select_request level l =
    request (sel level ∷ 0x70 ∷ (uid_part l ++ crc_bytes (sel level ∷ 0x70 ∷ uid_part l))) 3

abbrev pub level_sent : ℕ → List ℕ → Level → List Sent
level_sent level before l =
    request (take (if level == 0 then 2 else 7) (sel level ∷ 0x20 ∷ before)) 5
    ∷ select_request level l
    ∷ []

abbrev pub tape : List Reply → List Sent → Tape
tape answers sent = record { answers = answers; sent = sent }

-- The buffer of eight bytes: two of the command, five of the answer, and one that is never used.
abbrev pub buffer : ℕ → ℕ → List ℕ → ℕ → List ℕ
buffer b0 b1 five b7 = b0 ∷ b1 ∷ (five ++ b7 ∷ [])

-- The buffer's last byte is never sent.
first_frame :
    (level b2 b3 b4 b5 b6 b7 : ℕ)
    → take (if level == 0 then 2 else 7) (buffer (sel level) 0x20 (b2 ∷ b3 ∷ b4 ∷ b5 ∷ b6 ∷ []) b7)
        ++ []
      ≡ take (if level == 0 then 2 else 7) (sel level ∷ 0x20 ∷ b2 ∷ b3 ∷ b4 ∷ b5 ∷ b6 ∷ [])
first_frame level b2 b3 b4 b5 b6 b7 = elim (Bool-cases (level == 0)) [
  | inl e ↦ rw e refl
  | inr e ↦ rw e refl
]

-- A level up to the answer to select, which is left to `close_level`.
pub cascade_level-answers :
    (level p q r b0 b1 b2 b3 b4 b5 b6 b7 : ℕ) (d : Driver) (l : Level) (rest : List Reply)
    (sent : List Sent)
    → cascade_level tape_device level
        (p ∷ q ∷ r ∷ [])
        (buffer b0 b1 (b2 ∷ b3 ∷ b4 ∷ b5 ∷ b6 ∷ []) b7)
        d
        (tape (level_answers l rest) sent)
      ≡ (close_level (sak_bytes l) (buffer (sel level) 0x70 (uid_part l) b7) d >>= λ (e, d').
          returns (
            e,
            d',
            buffer (sel level) 0x70 (uid_part l) b7,
            tape rest (sent ++ level_sent level (b2 ∷ b3 ∷ b4 ∷ b5 ∷ b6 ∷ []) l),
          ))
unfolding cascade_level transceive_plain transceive_crc is_bcc_valid crc_bytes
cascade_level-answers level p q r b0 b1 b2 b3 b4 b5 b6 b7 d l rest sent = rw (==_refl (bcc l)) (
    ap
      (λ requests.
        close_level (sak_bytes l) (buffer (sel level) 0x70 (uid_part l) b7) d >>= λ (e, d').
        returns (e, d', buffer (sel level) 0x70 (uid_part l) b7, tape rest requests))
      (append_assoc sent _ _
        ∙ ap (λ first. sent ++ request first 5 ∷ select_request level l ∷ [])
            (first_frame level b2 b3 b4 b5 b6 b7)))
